-- ===== src/Merkle/Complete.antt =====
-- The proofs that `merkle_proof_sorted` generates, run by `verify_proof`.
use amunchain.Base.{
  ℕ, zero, suc, ◌+◌, ◌-◌, ◌/◌, ◌%◌, ◌≤◌, ◌<◌, ◌≡◌, refl, ap, ◌∙◌, Bytes, true, false, List, [], ◌∷◌,
  some, length, get_elem?, ltb, ◌==◌, Bool-cases, inl, inr, arith, length-map, get_elem?-lt, ltb→lt,
}
use amunchain.Order.{bytes_ord, =?_iff}
use amunchain.Merkle.{
  Hash32, MerkleProof, at, hash_leaf, next_level, climb, leaves, merkle_root_sorted, proof_item,
  proof_path, merkle_proof_sorted, combine, fold_path, verify_proof,
}

module _ (sha256 : Bytes → Hash32) where
  pub length-next_level :
      (level : List Hash32) → length (next_level sha256 level) ≡ (length level + 1) / 2
  unfolding next_level
  length-next_level [] = omega arith
  length-next_level (a ∷ []) = omega arith
  length-next_level (a ∷ b ∷ rest) = omega (arith, length-next_level rest)

-- Two nodes further on, the sibling is two nodes further on.
proof_item_shift :
    (a b : Hash32) (rest : List Hash32) (i : ℕ)
    → i < length rest
    → proof_item (a ∷ b ∷ rest) (suc (suc i)) ≡ proof_item rest i
unfolding proof_item
proof_item_shift a b rest i h = elim (Bool-cases (i % 2 == 1)) [
  | inl e ↦
      let p : suc (suc i) - 1 ≡ suc (suc (i - 1)) = ground arith in
      let q : (suc (suc i) % 2 == 1) ≡ true = ground arith in rw (q, e, p) (ground arith)
  | inr e ↦
      let p : suc (suc i) + 1 ≡ suc (suc (i + 1)) = omega arith in
      let q : (suc (suc i) % 2 == 1) ≡ false = ground arith in rw (q, e, p) (ground arith)
]

module _ (sha256 : Bytes → Hash32) where
  -- Hashing a node with its sibling gives the node above.
  combine-proof_item :
      (level : List Hash32) (idx : ℕ)
      → idx < length level
      → combine sha256 (at level idx) (proof_item level idx)
        ≡ at (next_level sha256 level) (idx / 2)
  unfolding next_level proof_item
  combine-proof_item [] idx h = absurd (omega arith)
  combine-proof_item (a ∷ []) zero h = refl
  combine-proof_item (a ∷ []) (suc i) h = absurd (omega arith)
  combine-proof_item (a ∷ b ∷ rest) zero h = ground arith
  combine-proof_item (a ∷ b ∷ rest) (suc zero) h = ground arith
  combine-proof_item (a ∷ b ∷ rest) (suc (suc i)) h =
      let p : suc (suc i) / 2 ≡ suc (i / 2) = omega arith in
      rw (proof_item_shift a b rest i (omega arith), p) (combine-proof_item rest i (omega arith))

  -- Folding the generated path reaches the last node.
  fold-proof_path :
      (fuel : ℕ) (level : List Hash32) (idx : ℕ)
      → idx < length level
      → length level ≤ suc fuel
      → fold_path sha256 (at level idx) (proof_path sha256 fuel level idx)
        ≡ at (climb sha256 fuel level) 0
  unfolding climb proof_path fold_path
  fold-proof_path zero level idx h k = let z : idx ≡ 0 = omega arith in rw z
  fold-proof_path (suc fuel) level idx h k = elim (Bool-cases (ltb 1 (length level))) [
    | inl e ↦
        let lt = ltb→lt 1 (length level) e in
        let n = length-next_level sha256 level in
        let above = next_level sha256 level in
        rw e (
          ap (λ c. fold_path sha256 c (proof_path sha256 fuel above (idx / 2)))
            (combine-proof_item level idx h)
          ∙ fold-proof_path fuel above (idx / 2) (omega arith) (omega arith))
    | inr e ↦ let z : idx ≡ 0 = ground arith in rw (e, z)
  ]

  at-leaves :
      (pairs : List (Bytes × Bytes)) (index : ℕ) {key value : Bytes}
      → get_elem? pairs index ≡ some (key, value)
      → at (leaves sha256 pairs) index ≡ hash_leaf sha256 key value
  at-leaves [] index h = cc
  at-leaves (p ∷ pairs) zero {key} {value} h =
      let q : p ≡ (key, value) = cc h in ap (λ x. hash_leaf sha256 x.0 x.1) q
  at-leaves (p ∷ pairs) (suc index) h = at-leaves pairs index h

  -- For every index in range a proof is generated; it starts at the leaf of that entry, and it
  -- verifies against the root.
  pub merkle_proof_verifies :
      (pairs : List (Bytes × Bytes)) (index : ℕ) (key value : Bytes)
      → get_elem? pairs index ≡ some (key, value)
      → (proof : MerkleProof) × (merkle_proof_sorted sha256 pairs index ≡ some proof)
        × (proof.leaf ≡ hash_leaf sha256 key value)
        × (verify_proof sha256 (merkle_root_sorted sha256 pairs) proof ≡ true)
  unfolding merkle_proof_sorted merkle_root_sorted verify_proof
  merkle_proof_verifies [] index key value h = absurd (cc h)
  merkle_proof_verifies (p ∷ pairs) index key value h =
      let level = leaves sha256 (p ∷ pairs) in
      let count = length-map (λ (x : Bytes × Bytes). hash_leaf sha256 x.0 x.1) (p ∷ pairs) in
      let proof : MerkleProof = record {
        leaf = at level index;
        path = proof_path sha256 (length (p ∷ pairs)) level index;
      } in
      let lt = get_elem?-lt (p ∷ pairs) index h in
      (
        proof,
        ground arith,
        at-leaves (p ∷ pairs) index h,
        (=?_iff (fold_path sha256 proof.leaf proof.path)
              (at (climb sha256 (length (p ∷ pairs)) level) 0)).1
            (fold-proof_path (length (p ∷ pairs)) level index (omega arith) (omega arith)),
      )
