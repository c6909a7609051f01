-- ===== src/Merkle/Levels.antt =====
-- src/core/state/merkle.rs: two levels of the tree. An odd last node is hashed with itself, so that
-- a level is told from the one above it only when no node stands twice in it.
use amunchain.Base.{
  ◌≡◌, ◌≢◌, ◌⊎◌, refl, sym, ap, ◌∙◌, inl, inr, Bytes, List, [], ◌∷◌, length, All, Bool-cases,
}
use amunchain.Order.{bytes_ord, ◌=?◌, =?_iff}
use amunchain.Merkle.{Hash32, hash_node, hash_leaf, next_level, leaves}
use amunchain.Merkle.Binding.{Collision, IsSha256, hash_node_binding, hash_leaf_binding}

-- No element stands twice.
abbrev pub IsDistinct {ℓ} : {A : Type ℓ} → List A → Type ℓ
IsDistinct [] = Unit
IsDistinct (x ∷ xs) = All (λ y. x ≢ y) xs × IsDistinct xs

module _ (sha256 : Bytes → Hash32) where
  leaf_fresh :
      (k v : Bytes) (pairs : List (Bytes × Bytes))
      → IsSha256 sha256
      → All (λ p. (k, v) ≢ p) pairs
      → All (λ h. hash_leaf sha256 k v ≢ h) (leaves sha256 pairs) ⊎ Collision sha256
  leaf_fresh k v [] d a = inl tt
  leaf_fresh k v ((j, w) ∷ pairs) d (n, a) =
      elim (Bool-cases (hash_leaf sha256 k v =? hash_leaf sha256 j w)) [
        | inl e ↦
            elim (hash_leaf_binding sha256 k v j w d
              ((=?_iff (hash_leaf sha256 k v) (hash_leaf sha256 j w)).0 e)) [
                | inr c ↦ inr c
                | inl (s, t) ↦ absurd (n cc)
              ]
        | inr e ↦ elim (leaf_fresh k v pairs d a) [
          | inr c ↦ inr c
          | inl f ↦ inl (λ q. cc (e, (=?_iff (hash_leaf sha256 k v) (hash_leaf sha256 j w)).1 q), f)
        ]
      ]

  pub leaves-IsDistinct :
      (pairs : List (Bytes × Bytes))
      → IsSha256 sha256
      → IsDistinct pairs
      → IsDistinct (leaves sha256 pairs) ⊎ Collision sha256
  leaves-IsDistinct [] d u = inl tt
  leaves-IsDistinct ((k, v) ∷ pairs) d (n, u) = elim (leaf_fresh k v pairs d n) [
    | inr c ↦ inr c
    | inl f ↦ elim (leaves-IsDistinct pairs d u) [ inr c ↦ inr c | inl g ↦ inl (f, g) ]
  ]

  -- A node differs from one with another first half.
  node_fresh :
      (a b c e : Hash32)
      → length a ≡ length c
      → a ≢ c
      → (hash_node sha256 a b ≢ hash_node sha256 c e) ⊎ Collision sha256
  node_fresh a b c e l n = elim (Bool-cases (hash_node sha256 a b =? hash_node sha256 c e)) [
    | inl t ↦
        elim (hash_node_binding sha256 a b c e l
          ((=?_iff (hash_node sha256 a b) (hash_node sha256 c e)).0 t)) [
            | inr x ↦ inr x
            | inl (s, _) ↦ absurd (n s)
          ]
    | inr t ↦ inl (λ q. cc (t, (=?_iff (hash_node sha256 a b) (hash_node sha256 c e)).1 q))
  ]

  nodes_fresh :
      (a b : Hash32) (rest : List Hash32)
      → length a ≡ 32
      → All (λ x. length x ≡ 32) rest
      → All (λ x. a ≢ x) rest
      → All (λ h. hash_node sha256 a b ≢ h) (next_level sha256 rest) ⊎ Collision sha256
  unfolding next_level
  nodes_fresh a b [] l ls n = inl tt
  nodes_fresh a b (c ∷ []) l ls n = elim (node_fresh a b c c (l ∙ sym ls.0) n.0) [
    | inr x ↦ inr x
    | inl f ↦ inl (f, tt)
  ]
  nodes_fresh a b (c ∷ e ∷ rest) l (lc, (le, ls)) (n, (_, ns)) =
      elim (node_fresh a b c e (l ∙ sym lc) n) [
        | inr x ↦ inr x
        | inl f ↦ elim (nodes_fresh a b rest l ls ns) [ inr x ↦ inr x | inl g ↦ inl (f, g) ]
      ]

  pub next_level-IsDistinct :
      (level : List Hash32)
      → All (λ x. length x ≡ 32) level
      → IsDistinct level
      → IsDistinct (next_level sha256 level) ⊎ Collision sha256
  unfolding next_level
  next_level-IsDistinct [] ls u = inl tt
  next_level-IsDistinct (a ∷ []) ls u = inl (tt, tt)
  next_level-IsDistinct (a ∷ b ∷ rest) (la, (lb, ls)) ((_, na), (_, u)) =
      elim (nodes_fresh a b rest la ls na) [
        | inr x ↦ inr x
        | inl f ↦ elim (next_level-IsDistinct rest ls u) [ inr x ↦ inr x | inl g ↦ inl (f, g) ]
      ]

  -- The level below is told from the level above.
  pub next_level-binding :
      (xs ys : List Hash32)
      → All (λ x. length x ≡ 32) xs
      → All (λ x. length x ≡ 32) ys
      → IsDistinct xs
      → IsDistinct ys
      → next_level sha256 xs ≡ next_level sha256 ys
      → (xs ≡ ys) ⊎ Collision sha256
  unfolding next_level
  next_level-binding [] [] lx ly ux uy h = inl refl
  next_level-binding [] (c ∷ []) lx ly ux uy h = absurd (cc h)
  next_level-binding [] (c ∷ e ∷ ys) lx ly ux uy h = absurd (cc h)
  next_level-binding (a ∷ []) [] lx ly ux uy h = absurd (cc h)
  next_level-binding (a ∷ b ∷ xs) [] lx ly ux uy h = absurd (cc h)
  next_level-binding (a ∷ []) (c ∷ []) lx ly ux uy h =
      elim (hash_node_binding sha256 a a c c (lx.0 ∙ sym ly.0) (cc h)) [
        | inr x ↦ inr x
        | inl (s, _) ↦ inl (ap (λ x. x ∷ []) s)
      ]
  next_level-binding (a ∷ []) (c ∷ e ∷ ys) lx ly ux ((n, _), _) h =
      elim (hash_node_binding sha256 a a c e (lx.0 ∙ sym ly.0) (cc h)) [
        | inr x ↦ inr x
        | inl (s, t) ↦ absurd (n (sym s ∙ t))
      ]
  next_level-binding (a ∷ b ∷ xs) (c ∷ []) lx ly ((n, _), _) uy h =
      elim (hash_node_binding sha256 a b c c (lx.0 ∙ sym ly.0) (cc h)) [
        | inr x ↦ inr x
        | inl (s, t) ↦ absurd (n (s ∙ sym t))
      ]
  next_level-binding (a ∷ b ∷ xs) (c ∷ e ∷ ys) (la, (lb, lx)) (lc, (le, ly)) (_, (_, ux))
        (_, (_, uy)) h =
      let rest : next_level sha256 xs ≡ next_level sha256 ys = cc h in
      elim (hash_node_binding sha256 a b c e (la ∙ sym lc) (cc h)) [
        | inr x ↦ inr x
        | inl (s, t) ↦ elim (next_level-binding xs ys lx ly ux uy rest) [
          | inr x ↦ inr x
          | inl r ↦ inl (cc (s, t, r))
        ]
      ]
