-- ===== src/P2p/Allowlist.antt =====
-- src/networking/p2p.rs: which peers the configured allowlist lets in.
use amunchain.Base.{
  ◌≡◌, ◌⊎◌, ◌↔◌, ◌∙◌, refl, sym, ap, inl, inr, true, false, Option, none, some, List, [], ◌∷◌,
  if◌then◌else◌, Bool-cases, Option-cases, arith,
}
use amunchain.Order.{Ord, ◌=?◌, =?_iff, =?_refl}
use amunchain.BtreeMap.{BtreeSet, contains, insert, get, get-insert}
use amunchain.Strings.{Text, trim}
use amunchain.P2p.{Libp2p, build_allow_set, is_refused, is_empty}

module _ {PeerId Addr : Type 0} ⦃o : Ord PeerId⦄ (net : Libp2p PeerId Addr) where
  -- What an entry of the configuration says, after trimming; an empty one says nothing.
  abbrev pub entry_peer : Text → Option PeerId
  entry_peer x = if is_empty (trim x) then none else net.parse_peer (trim x)

  -- Some entry names the peer; no entry names any.
  abbrev pub Listed : PeerId → List Text → Type 0
  Listed p [] = ⊥
  Listed p (x ∷ xs) = (entry_peer x ≡ some p) ⊎ Listed p xs

  abbrev pub NoneListed : List Text → Type 0
  NoneListed [] = Unit
  NoneListed (x ∷ xs) = (entry_peer x ≡ none) × NoneListed xs

  build_cons :
      (x : Text) (xs : List Text)
      → build_allow_set net (x ∷ xs) ≡ elim (entry_peer x) [
        | none ↦ build_allow_set net xs
        | some p ↦ insert p tt (build_allow_set net xs)
      ]
  unfolding build_allow_set
  build_cons x xs = elim (Bool-cases (is_empty (trim x))) [
    | inl e ↦ rw (build_allow_set, e) refl
    | inr e ↦ rw (build_allow_set, e) refl
  ]

  build_none : (xs : List Text) → NoneListed xs → build_allow_set net xs ≡ []
  unfolding build_allow_set
  build_none [] h = refl
  build_none (x ∷ xs) (e, h) = build_cons x xs ∙ rw (e) (build_none xs h)

  is_empty-insert : (p : PeerId) (m : BtreeSet PeerId) → is_empty (insert p tt m) ≡ false
  unfolding insert
  is_empty-insert p [] = refl
  is_empty-insert p ((q, u) ∷ m) = ground arith

  contains-insert :
      (p q : PeerId) (m : BtreeSet PeerId)
      → contains p (insert q tt m) ≡ (if p =? q then true else contains p m)
  contains-insert p q m = elim (Bool-cases (p =? q)) [
    | inl e ↦ rw (get-insert p q tt m, e)
    | inr e ↦ rw (get-insert p q tt m, e)
  ]

  empty-NoneListed : (xs : List Text) → is_empty (build_allow_set net xs) ≡ true → NoneListed xs
  empty-NoneListed [] h = tt
  empty-NoneListed (x ∷ xs) h = elim (Option-cases (entry_peer x)) [
    | inl e ↦ (e, empty-NoneListed xs (rw (build_cons x xs, e) at h))
    | inr (p, e) ↦
        let full : is_empty (build_allow_set net (x ∷ xs)) ≡ false =
          rw (build_cons x xs, e) (is_empty-insert p (build_allow_set net xs)) in
        absurd (cc)
  ]

  contains-Listed :
      (p : PeerId) (xs : List Text) → contains p (build_allow_set net xs) ≡ true → Listed p xs
  unfolding get build_allow_set
  contains-Listed p [] h = cc h
  contains-Listed p (x ∷ xs) h = elim (Option-cases (entry_peer x)) [
    | inl e ↦ inr (contains-Listed p xs (rw (build_cons x xs, e) at h))
    | inr (q, e) ↦ elim (Bool-cases (p =? q)) [
      | inl same ↦ inl (e ∙ ap some (sym ((=?_iff p q).0 same)))
      | inr other ↦ inr (
          contains-Listed p xs
            (rw (build_cons x xs, e, contains-insert p q (build_allow_set net xs), other) at h))
    ]
  ]

  Listed-contains :
      (p : PeerId) (xs : List Text) → Listed p xs → contains p (build_allow_set net xs) ≡ true
  Listed-contains p [] h = absurd h
  Listed-contains p (x ∷ xs) (inl e) =
      rw (build_cons x xs, e, contains-insert p p (build_allow_set net xs), =?_refl p)
  Listed-contains p (x ∷ xs) (inr h) = elim (Option-cases (entry_peer x)) [
    | inl e ↦ rw (build_cons x xs, e) (Listed-contains p xs h)
    | inr (q, e) ↦ elim (Bool-cases (p =? q)) [
      | inl same ↦ rw (build_cons x xs, e, contains-insert p q (build_allow_set net xs), same)
      | inr other ↦
          rw (build_cons x xs, e, contains-insert p q (build_allow_set net xs), other)
            (Listed-contains p xs h)
    ]
  ]

  -- A peer gets past the allowlist exactly when some entry of the configuration names it, or no
  -- entry names any peer: an allowlist whose entries all fail to parse lets everyone in.
  pub is_refused_exact :
      (p : PeerId) (xs : List Text)
      → (is_refused (build_allow_set net xs) p ≡ false) ↔ (NoneListed xs ⊎ Listed p xs)
  is_refused_exact p xs =
      let m = build_allow_set net xs in
      (
        λ h. elim (Bool-cases (is_empty m)) [
          | inl e ↦ inl (empty-NoneListed xs e)
          | inr e ↦ elim (Bool-cases (contains p m)) [
            | inl c ↦ inr (contains-Listed p xs c)
            | inr c ↦ absurd (let refused : is_refused m p ≡ true = rw (e, c) in cc)
          ]
        ],
        λ h. elim h [
          | inl none' ↦ rw (build_none xs none')
          | inr listed ↦ elim (Bool-cases (is_empty m)) [
            | inl e ↦ rw (e)
            | inr e ↦ rw (e, Listed-contains p xs listed)
          ]
        ],
      )
