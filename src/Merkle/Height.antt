-- ===== src/Merkle/Height.antt =====
-- src/core/state/merkle.rs: the height of a node. The leaves and the inner nodes are hashed under
-- different prefixes, so that no hash stands at two heights.
use amunchain.Base.{
  ℕ, zero, suc, Option, ◌≤◌, ◌<◌, ◌≡◌, ◌≢◌, ◌⊎◌, some, get_elem?, refl, sym, ap, ◌∙◌, subst, inl,
  inr, Bytes, List, [], ◌∷◌, ◌++◌, length, All, arith, split_front, ltb, Bool-cases,
}
use amunchain.Merkle.{
  Hash32, leaf_domain, node_domain, hash_node, hash_leaf, next_level, climb, leaves, at,
}
use amunchain.Merkle.Binding.{
  Collision, IsSha256, preimage, hash_node_binding, leaf_length, node_length,
}
use amunchain.Merkle.Complete.{length-next_level}

-- The two prefixes differ after `Amunchain-State-`.
domains_apart : leaf_domain ≢ node_domain
domains_apart h =
    let byte : ◌≡◌ {A = Option ℕ} (some 76) (some 78) = ap (λ x. get_elem? x 16) h in
    absurd (ground (arith, byte))

module _ (sha256 : Bytes → Hash32) where
  pub leaf_not_node :
      (k v : Bytes) (l r : Hash32) → hash_leaf sha256 k v ≡ hash_node sha256 l r → Collision sha256
  unfolding hash_leaf hash_node
  leaf_not_node k v l r h =
      elim (preimage sha256 (leaf_domain ++ (sha256 k ++ sha256 v)) (node_domain ++ (l ++ r)) h) [
        | inr c ↦ c
        | inl e ↦ absurd (
            domains_apart
              (split_front leaf_domain node_domain (sha256 k ++ sha256 v) (l ++ r) refl e).0)
      ]

-- No condition on an entry.
abbrev pub AnyEntry : Bytes → Bytes → Type 0
AnyEntry key value = Unit

pub any_entries : (ps : List (Bytes × Bytes)) → All (λ e. AnyEntry e.0 e.1) ps
any_entries [] = tt
any_entries (e ∷ ps) = (tt, any_entries ps)

module _ (sha256 : Bytes → Hash32) (P : Bytes → Bytes → Type 0) where
  -- A hash at height 0 is that of an entry with the property `P`, one above is that of two nodes of
  -- the height below.
  abbrev pub HasHeight : ℕ → Hash32 → Type 0
  HasHeight zero h = (key value : Bytes) × (h ≡ hash_leaf sha256 key value) × P key value
  HasHeight (suc i) h = (l r : Hash32) × (h ≡ hash_node sha256 l r) × HasHeight i l × HasHeight i r

  pub HasHeight-length : (i : ℕ) (h : Hash32) → IsSha256 sha256 → HasHeight i h → length h ≡ 32
  HasHeight-length zero h d (k, v, e, _) = ap length e ∙ leaf_length sha256 k v d
  HasHeight-length (suc i) h d (l, r, e, _, _) = ap length e ∙ node_length sha256 l r d

  -- Every node is a digest.
  pub HasHeight-digest : (i : ℕ) (h : Hash32) → HasHeight i h → (x : Bytes) × (h ≡ sha256 x)
  unfolding hash_leaf hash_node
  HasHeight-digest zero h (k, v, e, _) = (leaf_domain ++ (sha256 k ++ sha256 v), e)
  HasHeight-digest (suc i) h (l, r, e, _, _) = (node_domain ++ (l ++ r), e)

  pub HasHeight-unique :
      (i j : ℕ) (h : Hash32)
      → IsSha256 sha256
      → HasHeight i h
      → HasHeight j h
      → (i ≡ j) ⊎ Collision sha256
  HasHeight-unique zero zero h d p q = inl refl
  HasHeight-unique zero (suc j) h d (k, v, e, _) (l, r, f, _, _) =
      inr (leaf_not_node sha256 k v l r (sym e ∙ f))
  HasHeight-unique (suc i) zero h d (l, r, f, _, _) (k, v, e, _) =
      inr (leaf_not_node sha256 k v l r (sym e ∙ f))
  HasHeight-unique (suc i) (suc j) h d (l, r, e, p, _) (l', r', f, q, _) =
      let same : length l ≡ length l' =
        HasHeight-length i l d p ∙ sym (HasHeight-length j l' d q) in
      elim (hash_node_binding sha256 l r l' r' same (sym e ∙ f)) [
        | inr c ↦ inr c
        | inl (g, _) ↦ elim (HasHeight-unique i j l d p (subst (λ x. HasHeight j x) (sym g) q)) [
          | inr c ↦ inr c
          | inl s ↦ inl (ap suc s)
        ]
      ]

  pub leaves-HasHeight :
      (pairs : List (Bytes × Bytes))
      → All (λ e. P e.0 e.1) pairs
      → All (HasHeight 0) (leaves sha256 pairs)
  leaves-HasHeight [] a = tt
  leaves-HasHeight ((k, v) ∷ pairs) (p, a) = ((k, v, refl, p), leaves-HasHeight pairs a)

  pub next_level-HasHeight :
      (i : ℕ) (level : List Hash32)
      → All (HasHeight i) level
      → All (HasHeight (suc i)) (next_level sha256 level)
  unfolding next_level
  next_level-HasHeight i [] a = tt
  next_level-HasHeight i (x ∷ []) a = ((x, x, refl, a.0, a.0), tt)
  next_level-HasHeight i (x ∷ y ∷ rest) (p, (q, a)) =
      ((x, y, refl, p, q), next_level-HasHeight i rest a)

  -- The last node of a climb stands at least as high as the level it started from.
  pub climb-HasHeight :
      (fuel i : ℕ) (level : List Hash32)
      → 0 < length level
      → All (HasHeight i) level
      → (j : ℕ) × (i ≤ j) × HasHeight j (at (climb sha256 fuel level) 0)
  unfolding climb
  climb-HasHeight zero i [] h a = absurd (omega arith)
  climb-HasHeight zero i (x ∷ level) h a = (i, omega arith, a.0)
  climb-HasHeight (suc fuel) i [] h a = absurd (omega arith)
  climb-HasHeight (suc fuel) i (x ∷ level) h a = elim (Bool-cases (ltb 1 (length (x ∷ level)))) [
    | inr e ↦ (i, omega arith, rw e a.0)
    | inl e ↦
        let n = length-next_level sha256 (x ∷ level) in
        let (j, le, p) =
          climb-HasHeight fuel (suc i) (next_level sha256 (x ∷ level)) (omega (arith, n))
            (next_level-HasHeight i (x ∷ level) a) in
        (j, omega (arith, le), rw e p)
  ]
