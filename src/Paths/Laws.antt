-- ===== src/Paths/Laws.antt =====
-- Names of files in one directory.
use amunchain.Base.{
  ℕ, ◌≡◌, ◌∙◌, ◌⊎◌, inl, inr, refl, sym, ap, subst, false, none, some, [], ◌∷◌, ◌++◌, ◌==◌,
  Bool-cases, Option-cases, ==_iff, split_front, append_assoc, some_inj, none≢some,
}
use amunchain.Order.{◌=?◌, =?_iff, bytes_ord}
use amunchain.Strings.{Text}
use amunchain.Paths.{FilePath, split_last, push, set_extension, file_stem}

-- Paths that differ after a common start differ.
pub differ : (b s t : Text) → (s =? t) ≡ false → ((b ++ s) =? (b ++ t)) ≡ false
differ b s t h = elim (Bool-cases ((b ++ s) =? (b ++ t))) [
  | inr e ↦ e
  | inl e ↦
      let (_, same) = split_front b b s t refl ((=?_iff (b ++ s) (b ++ t)).0 e) in
      let yes' = (=?_iff s t).1 same in absurd (cc)
]

split_last-join : (c : ℕ) (xs a b : Text) → split_last c xs ≡ some (a, b) → xs ≡ a ++ (c ∷ b)
unfolding split_last
split_last-join c [] a b h = absurd (cc h)
split_last-join c (x ∷ xs) a b h = elim (Option-cases (split_last c xs)) [
  | inl e ↦ elim (Bool-cases (x == c)) [
    | inl t ↦
        ap (λ y. y ∷ xs) ((==_iff x c).0 t)
        ∙ ap (λ p. p.0 ++ (c ∷ p.1)) (some_inj (rw (split_last, e, t) at h))
    | inr t ↦ absurd (none≢some (rw (split_last, e, t) at h))
  ]
  | inr (p, e) ↦
      ap (λ l. x ∷ l) (split_last-join c xs p.0 p.1 e)
      ∙ ap (λ q. q.0 ++ (c ∷ q.1)) (some_inj (rw (split_last, e) at h))
]

pub split_last-append :
    (c : ℕ) (a b : Text) → split_last c b ≡ none → split_last c (a ++ (c ∷ b)) ≡ some (a, b)
unfolding split_last
split_last-append c [] b h = rw (h, (==_iff c c).1 refl)
split_last-append c (x ∷ a) b h = rw (split_last-append c a b h)

-- The text before a file name: nothing, or a directory and a separator.
abbrev pub IsFolder : Text → Type 0
IsFolder b = (b ≡ []) ⊎ ((dir : Text) × (b ≡ dir ++ (47 ∷ [])))

-- Every name in a directory stands behind the same text.
pub push_lem :
    (path : FilePath) → (b : Text) × IsFolder b × ((name : Text) → push name path ≡ b ++ name)
unfolding push
push_lem [] = ([], inl refl, λ name. refl)
push_lem (x ∷ xs) = elim (Option-cases (split_last 47 (x ∷ xs))) [
  | inl e ↦ (
    (x ∷ xs) ++ (47 ∷ []),
    inr (x ∷ xs, refl),
    λ name. rw (push, e) (sym (append_assoc (x ∷ xs) (47 ∷ []) name)),
  )
  | inr ((dir, []), e) ↦
      (x ∷ xs, inr (dir, split_last-join 47 (x ∷ xs) dir [] e), λ name. rw (push, e))
  | inr ((dir, y ∷ ys), e) ↦ (
    (x ∷ xs) ++ (47 ∷ []),
    inr (x ∷ xs, refl),
    λ name. rw (push, e) (sym (append_assoc (x ∷ xs) (47 ∷ []) name)),
  )
]

-- In a directory, `name` with a new extension is not `name`, if it has no separator and differs
-- from its stem with that extension.
pub set_extension-other :
    (path : FilePath) (ext name : Text)
    → split_last 47 name ≡ none
    → (name =? (file_stem name ++ (46 ∷ ext))) ≡ false
    → (push name path =? set_extension ext (push name path)) ≡ false
unfolding set_extension
set_extension-other path ext name flat other =
    let (b, folder, joined) = push_lem path in
    let moved = λ (q : FilePath) (e : push name path ≡ q).
      subst (λ p. (p =? set_extension ext p) ≡ false) (sym e) in
    elim folder [
      | inl e ↦
          let whole : push name path ≡ name = joined name ∙ ap (λ l. l ++ name) e in
          moved _ whole (rw (set_extension, flat) other)
      | inr (dir, e) ↦
          let whole : push name path ≡ dir ++ (47 ∷ name) =
            joined name ∙ (ap (λ l. l ++ name) e ∙ append_assoc dir (47 ∷ []) name) in
          moved _ whole (
            rw (set_extension, split_last-append 47 dir name flat)
              (differ dir (47 ∷ name) (47 ∷ file_stem name ++ (46 ∷ ext)) other))
    ]

-- In a directory, names that differ give paths that differ; the second may be one with an ending.
pub push-apart :
    (path : FilePath) (name other rest : Text)
    → (name =? (other ++ rest)) ≡ false
    → (push name path =? (push other path ++ rest)) ≡ false
push-apart path name other rest h =
    let (b, _, joined) = push_lem path in
    rw (joined name, joined other, append_assoc b other rest) (differ b name (other ++ rest) h)
