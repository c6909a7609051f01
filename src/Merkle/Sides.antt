-- ===== src/Merkle/Sides.antt =====
-- src/core/state/merkle.rs: proofs with the sides of the generated one, whose path tells where the
-- leaf stands.
use amunchain.Base.{
  ℕ, zero, suc, ◌+◌, ◌-◌, ◌%◌, ◌==◌, leb, ◌/◌, ◌≡◌, ◌⊎◌, refl, sym, ap, ◌∙◌, subst, inl, inr, Bytes,
  true, List, [], ◌∷◌, some, length, get_elem?, All, map, Bool-cases, ltb, if◌then◌else◌,
}
use amunchain.Order.{bytes_ord, =?_iff}
use amunchain.Merkle.{
  Hash32, Side, left, right, ProofItem, MerkleProof, hash_leaf, combine, fold_path, verify_proof,
  merkle_root_sorted, merkle_proof_sorted, next_level, leaves, at, proof_item, proof_path,
}
use amunchain.Merkle.Complete.{merkle_proof_verifies}
use amunchain.Merkle.Binding.{
  Collision, IsSha256, HasHashes, hash_node_binding, hash_leaf_binding, combine-length, leaf_length,
  node_length,
}

-- The sides of a path: the position that it claims.
abbrev pub sides : List ProofItem → List Side
sides path = map (λ (item : ProofItem). item.side) path

at-hashes :
    (level : List Hash32) (i : ℕ) → All (λ x. length x ≡ 32) level → length (at level i) ≡ 32
at-hashes [] i a = refl
at-hashes (x ∷ level) zero a = a.0
at-hashes (x ∷ level) (suc i) a = at-hashes level i a.1

sibling_length :
    (level : List Hash32) (idx : ℕ)
    → All (λ x. length x ≡ 32) level
    → length (proof_item level idx).sibling ≡ 32
unfolding proof_item
sibling_length level idx a =
    let sib = if idx % 2 == 1 then idx - 1 else idx + 1 in
    elim (Bool-cases (ltb sib (length level))) [
      | inl e ↦ rw e (at-hashes level sib a)
      | inr e ↦ rw e (at-hashes level idx a)
    ]

module _ (sha256 : Bytes → Hash32) where
  combine_binding :
      (s t : Side) (u w a b : Hash32)
      → s ≡ t
      → length u ≡ length w
      → length a ≡ length b
      → combine sha256 a (record { side = s; sibling = u })
        ≡ combine sha256 b (record { side = t; sibling = w })
      → (a ≡ b) ⊎ Collision sha256
  combine_binding left left u w a b e lu la h = elim (hash_node_binding sha256 u a w b lu h) [
    | inl (_, p) ↦ inl p
    | inr c ↦ inr c
  ]
  combine_binding right right u w a b e lu la h = elim (hash_node_binding sha256 a u b w la h) [
    | inl (p, _) ↦ inl p
    | inr c ↦ inr c
  ]
  combine_binding left right u w a b e lu la h = absurd (cc e)
  combine_binding right left u w a b e lu la h = absurd (cc e)

  -- Two paths with the same sides that end in the same root start at the same hash.
  fold_path_binding :
      (p q : List ProofItem) (a b : Hash32)
      → IsSha256 sha256
      → HasHashes p
      → HasHashes q
      → sides p ≡ sides q
      → length a ≡ 32
      → length b ≡ 32
      → fold_path sha256 a p ≡ fold_path sha256 b q
      → (a ≡ b) ⊎ Collision sha256
  unfolding fold_path
  fold_path_binding [] [] a b d hp hq s la lb h = inl h
  fold_path_binding [] (y ∷ q) a b d hp hq s la lb h = absurd (cc s)
  fold_path_binding (x ∷ p) [] a b d hp hq s la lb h = absurd (cc s)
  fold_path_binding (x ∷ p) (y ∷ q) a b d hp hq s la lb h =
      let same : x.side ≡ y.side = cc s in
      let rest : sides p ≡ sides q = cc s in
      elim (fold_path_binding p q (combine sha256 a x) (combine sha256 b y) d hp.1 hq.1 rest
        (combine-length sha256 a x d) (combine-length sha256 b y d) h) [
          | inr c ↦ inr c
          | inl e ↦
              combine_binding x.side y.side x.sibling y.sibling a b same (hp.0 ∙ sym hq.0)
                (la ∙ sym lb) e
        ]

  pub next_level-hashes :
      (level : List Hash32) → IsSha256 sha256 → All (λ x. length x ≡ 32) (next_level sha256 level)
  unfolding next_level
  next_level-hashes [] d = tt
  next_level-hashes (a ∷ []) d = (node_length sha256 a a d, tt)
  next_level-hashes (a ∷ b ∷ rest) d = (node_length sha256 a b d, next_level-hashes rest d)

  pub leaves-hashes :
      (pairs : List (Bytes × Bytes))
      → IsSha256 sha256
      → All (λ x. length x ≡ 32) (leaves sha256 pairs)
  leaves-hashes [] d = tt
  leaves-hashes (p ∷ pairs) d = (leaf_length sha256 p.0 p.1 d, leaves-hashes pairs d)

  proof_path-HasHashes :
      (fuel : ℕ) (level : List Hash32) (idx : ℕ)
      → IsSha256 sha256
      → All (λ x. length x ≡ 32) level
      → HasHashes (proof_path sha256 fuel level idx)
  unfolding proof_path
  proof_path-HasHashes zero level idx d a = tt
  proof_path-HasHashes (suc fuel) level idx d a = elim (Bool-cases (ltb 1 (length level))) [
    | inl e ↦ rw e (
      sibling_length level idx a,
      proof_path-HasHashes fuel (next_level sha256 level) (idx / 2) d (next_level-hashes level d),
    )
    | inr e ↦ rw e tt
  ]

  generated-HasHashes :
      (pairs : List (Bytes × Bytes)) (index : ℕ) (proof : MerkleProof)
      → IsSha256 sha256
      → merkle_proof_sorted sha256 pairs index ≡ some proof
      → HasHashes proof.path
  unfolding merkle_proof_sorted
  generated-HasHashes [] index proof d h = absurd (cc h)
  generated-HasHashes (p ∷ pairs) index proof d h =
      elim (Bool-cases (leb (length (p ∷ pairs)) index)) [
        | inl e ↦ absurd (cc (rw (e, merkle_proof_sorted) at h))
        | inr e ↦
            let q : MerkleProof = record {
              leaf = at (leaves sha256 (p ∷ pairs)) index;
              path = proof_path sha256 (length (p ∷ pairs)) (leaves sha256 (p ∷ pairs)) index;
            } in
            let same : q ≡ proof = cc (rw (e, merkle_proof_sorted) at h) in
            subst (λ (x : MerkleProof). HasHashes x.path) same
              (proof_path-HasHashes (length (p ∷ pairs)) (leaves sha256 (p ∷ pairs)) index d
                (leaves-hashes (p ∷ pairs) d))
      ]

  -- If a proof with the sides of the generated one verifies against the root and starts at the
  -- leaf of a key and a value, those are the entry at that index, or a collision of SHA-256 is
  -- at hand.
  pub merkle_proof_binding :
      (pairs : List (Bytes × Bytes)) (index : ℕ) (honest forged : MerkleProof)
      (key value key' value' : Bytes)
      → IsSha256 sha256
      → get_elem? pairs index ≡ some (key, value)
      → merkle_proof_sorted sha256 pairs index ≡ some honest
      → HasHashes forged.path
      → sides forged.path ≡ sides honest.path
      → forged.leaf ≡ hash_leaf sha256 key' value'
      → verify_proof sha256 (merkle_root_sorted sha256 pairs) forged ≡ true
      → ((key' ≡ key) × (value' ≡ value)) ⊎ Collision sha256
  unfolding verify_proof
  merkle_proof_binding pairs index honest forged key value key' value' d g made hf s lf v =
      let (proof, e, l, ok) = merkle_proof_verifies sha256 pairs index key value g in
      let same : proof ≡ honest = cc (e, made) in
      let root = merkle_root_sorted sha256 pairs in
      let reach : fold_path sha256 honest.leaf honest.path ≡ root =
        (=?_iff (fold_path sha256 honest.leaf honest.path) root).0
          (subst (λ (x : MerkleProof). verify_proof sha256 root x ≡ true) same ok) in
      let leaf : honest.leaf ≡ hash_leaf sha256 key value =
        ap (λ (x : MerkleProof). x.leaf) (sym same) ∙ l in
      let hashed : (k w : Bytes) → length (hash_leaf sha256 k w) ≡ 32 =
        λ k w. leaf_length sha256 k w d in
      elim (fold_path_binding forged.path honest.path forged.leaf honest.leaf d hf
        (generated-HasHashes pairs index honest d made) s (ap length lf ∙ hashed key' value')
        (ap length leaf ∙ hashed key value)
        ((=?_iff (fold_path sha256 forged.leaf forged.path) root).0 v ∙ sym reach)) [
          | inr c ↦ inr c
          | inl e ↦ hash_leaf_binding sha256 key' value' key value d (sym lf ∙ e ∙ leaf)
        ]
