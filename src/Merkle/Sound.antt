-- ===== src/Merkle/Sound.antt =====
-- src/core/state/merkle.rs: which proofs verify against a root.
use amunchain.Base.{
  ℕ, zero, suc, ◌≡◌, ◌⊎◌, refl, sym, ap, ◌∙◌, subst, inl, inr, Bytes, true, List, [], ◌∷◌, ◌++◌,
  length, All, All-imp, get_elem?, some, arith,
}
use amunchain.Order.{bytes_ord, =?_iff}
use amunchain.Merkle.{
  Hash32, Side, left, right, ProofItem, MerkleProof, hash_leaf, hash_node, combine, fold_path,
  verify_proof, merkle_root_sorted, leaves, climb, at, zero_hash, node_domain,
}
use amunchain.Merkle.Binding.{
  Collision, IsSha256, HasHashes, hash_leaf_binding, hash_node_binding, leaf_length, combine-length,
}
use amunchain.Merkle.Height.{
  AnyEntry, HasHeight, HasHeight-length, HasHeight-digest, leaf_not_node, leaves-HasHeight,
  climb-HasHeight,
}
use amunchain.Merkle.Commitment.{Broken}

-- An entry stands somewhere in the list.
abbrev pub Member : List (Bytes × Bytes) → Bytes → Bytes → Type 0
Member ps key value = (i : ℕ) × (get_elem? ps i ≡ some (key, value))

members : (ps : List (Bytes × Bytes)) → All (λ e. Member ps e.0 e.1) ps
members [] = tt
members (p ∷ ps) = ((0, refl), All-imp (λ e m. (suc m.0, m.1)) ps (members ps))

module _ (sha256 : Bytes → Hash32) (d : IsSha256 sha256) (P : Bytes → Bytes → Type 0) where
  -- One step down from a node.
  below :
      (s : Side) (a u : Hash32) (j : ℕ)
      → length a ≡ 32
      → length u ≡ 32
      → HasHeight sha256 P j (combine sha256 a (record { side = s; sibling = u }))
      → ((i : ℕ) × HasHeight sha256 P i a) ⊎ Collision sha256
  below left a u zero la lu (k, v, e, _) = inr (leaf_not_node sha256 k v u a (sym e))
  below right a u zero la lu (k, v, e, _) = inr (leaf_not_node sha256 k v a u (sym e))
  below left a u (suc j) la lu (l, r, e, p, q) =
      let ll = HasHeight-length sha256 P j l d p in
      elim (hash_node_binding sha256 u a l r (lu ∙ sym ll) e) [
        | inr c ↦ inr c
        | inl (_, f) ↦ inl (j, subst (λ x. HasHeight sha256 P j x) (sym f) q)
      ]
  below right a u (suc j) la lu (l, r, e, p, q) =
      let ll = HasHeight-length sha256 P j l d p in
      elim (hash_node_binding sha256 a u l r (la ∙ sym ll) e) [
        | inr c ↦ inr c
        | inl (f, _) ↦ inl (j, subst (λ x. HasHeight sha256 P j x) (sym f) p)
      ]

  -- What a path leads from, when it leads to a node of the tree.
  walk_down :
      (path : List ProofItem) (a : Hash32) (j : ℕ)
      → length a ≡ 32
      → HasHashes path
      → HasHeight sha256 P j (fold_path sha256 a path)
      → ((i : ℕ) × HasHeight sha256 P i a) ⊎ Collision sha256
  unfolding fold_path
  walk_down [] a j la hs p = inl (j, p)
  walk_down (item ∷ path) a j la hs p =
      elim (walk_down path (combine sha256 a item) j (combine-length sha256 a item d) hs.1 p) [
        | inr c ↦ inr c
        | inl (i, q) ↦ below item.side a item.sibling i la hs.0 q
      ]

  leaf_of :
      (k v : Bytes) (i : ℕ) → HasHeight sha256 P i (hash_leaf sha256 k v) → P k v ⊎ Collision sha256
  leaf_of k v zero (k', v', e, p) = elim (hash_leaf_binding sha256 k v k' v' d e) [
    | inr c ↦ inr c
    | inl (f, g) ↦ inl (subst (λ x. P k x) (sym g) (subst (λ x. P x v') (sym f) p))
  ]
  leaf_of k v (suc i) (l, r, e, _, _) = inr (leaf_not_node sha256 k v l r e)

-- What a path leads to from a digest is a digest.
module _ (sha256 : Bytes → Hash32) where
  combine-digest :
      (s : Side) (a u : Hash32)
      → (y : Bytes) × (combine sha256 a (record { side = s; sibling = u }) ≡ sha256 y)
  unfolding hash_node
  combine-digest left a u = (node_domain ++ (u ++ a), refl)
  combine-digest right a u = (node_domain ++ (a ++ u), refl)

  fold_path-digest :
      (path : List ProofItem) (a : Hash32)
      → ((x : Bytes) × (a ≡ sha256 x))
      → (y : Bytes) × (fold_path sha256 a path ≡ sha256 y)
  unfolding fold_path
  fold_path-digest [] a x = x
  fold_path-digest (item ∷ path) a x =
      fold_path-digest path (combine sha256 a item) (combine-digest item.side a item.sibling)

-- Whatever path a proof has, however long and with whatever sides: when it starts at the leaf of a
-- key and a value and verifies against the root of a list of entries, the key and the value are one
-- of these entries, or a collision of SHA-256 or a preimage of the zero hash is at hand.
pub verify_proof_sound :
    (sha256 : Bytes → Hash32) (ps : List (Bytes × Bytes)) (key value : Bytes) (proof : MerkleProof)
    → IsSha256 sha256
    → HasHashes proof.path
    → proof.leaf ≡ hash_leaf sha256 key value
    → verify_proof sha256 (merkle_root_sorted sha256 ps) proof ≡ true
    → Member ps key value ⊎ Broken sha256
unfolding verify_proof merkle_root_sorted
verify_proof_sound sha256 [] key value proof d hs e v =
    let leaf = HasHeight-digest sha256 AnyEntry 0 proof.leaf (key, value, e, tt) in
    let (y, f) = fold_path-digest sha256 proof.path proof.leaf leaf in
    inr (inr (y, sym f ∙ (=?_iff (fold_path sha256 proof.leaf proof.path) zero_hash).0 v))
verify_proof_sound sha256 (p ∷ ps) key value proof d hs e v =
    let all = p ∷ ps in
    let M = Member all in
    let level = leaves sha256 all in
    let top = at (climb sha256 (length all) level) 0 in
    let reach : fold_path sha256 (hash_leaf sha256 key value) proof.path ≡ top =
      ap (λ x. fold_path sha256 x proof.path) (sym e)
      ∙ (=?_iff (fold_path sha256 proof.leaf proof.path) top).0 v in
    let (j, _, h) =
      climb-HasHeight sha256 M (length all) 0 level (omega arith)
        (leaves-HasHeight sha256 M all (members all)) in
    elim (walk_down sha256 d M proof.path (hash_leaf sha256 key value) j
      (leaf_length sha256 key value d) hs (subst (λ x. HasHeight sha256 M j x) (sym reach) h)) [
        | inr c ↦ inr (inl c)
        | inl (i, q) ↦ elim (leaf_of sha256 d M key value i q) [
          | inr c ↦ inr (inl c)
          | inl m ↦ inl m
        ]
      ]
