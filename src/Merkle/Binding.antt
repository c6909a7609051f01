-- ===== src/Merkle/Binding.antt =====
-- src/core/state/merkle.rs: what a digest says of its input, up to collisions of the hash.
use amunchain.Base.{
  ◌≡◌, ◌≢◌, ◌⊎◌, refl, sym, ◌∙◌, inl, inr, Bytes, List, ◌++◌, length, All, Bool-cases, split_front,
}
use amunchain.Order.{bytes_ord, ◌=?◌, =?_iff}
use amunchain.Merkle.{
  Hash32, Side, left, right, ProofItem, leaf_domain, node_domain, hash_node, hash_leaf, combine,
}

-- Two inputs that the hash function does not tell apart.
abbrev pub Collision : (Bytes → Hash32) → Type 0
Collision sha256 = (x y : Bytes) × (x ≢ y) × (sha256 x ≡ sha256 y)

-- The digests of the algorithm have 32 bytes.
abbrev pub IsSha256 : (Bytes → Hash32) → Type 0
IsSha256 sha256 = (x : Bytes) → length (sha256 x) ≡ 32

-- The hashes in a path have 32 bytes, as their type says in the source.
abbrev pub HasHashes : List ProofItem → Type 0
HasHashes path = All (λ item. length item.sibling ≡ 32) path

module _ (sha256 : Bytes → Hash32) where
  -- Equal digests come from equal inputs, or they are a collision.
  pub preimage : (x y : Bytes) → sha256 x ≡ sha256 y → (x ≡ y) ⊎ Collision sha256
  preimage x y h = elim (Bool-cases (x =? y)) [
    | inl e ↦ inl ((=?_iff x y).0 e)
    | inr e ↦ inr (x, y, (λ s. cc (e, (=?_iff x y).1 s)), h)
  ]

  pub hash_node_binding :
      (l r l' r' : Hash32)
      → length l ≡ length l'
      → hash_node sha256 l r ≡ hash_node sha256 l' r'
      → ((l ≡ l') × (r ≡ r')) ⊎ Collision sha256
  unfolding hash_node
  hash_node_binding l r l' r' k h =
      elim (preimage (node_domain ++ (l ++ r)) (node_domain ++ (l' ++ r')) h) [
        | inr c ↦ inr c
        | inl e ↦ inl (
            split_front l l' r r' k
              (split_front node_domain node_domain (l ++ r) (l' ++ r') refl e).1)
      ]

  pub hash_leaf_binding :
      (k v k' v' : Bytes)
      → IsSha256 sha256
      → hash_leaf sha256 k v ≡ hash_leaf sha256 k' v'
      → ((k ≡ k') × (v ≡ v')) ⊎ Collision sha256
  unfolding hash_leaf
  hash_leaf_binding k v k' v' d h =
      elim (preimage (leaf_domain ++ (sha256 k ++ sha256 v))
        (leaf_domain ++ (sha256 k' ++ sha256 v')) h) [
          | inr c ↦ inr c
          | inl e ↦
              let f =
                (split_front leaf_domain leaf_domain (sha256 k ++ sha256 v) (sha256 k' ++ sha256 v')
                  refl e).1 in
              let (hk, hv) =
                split_front (sha256 k) (sha256 k') (sha256 v) (sha256 v') (d k ∙ sym (d k')) f in
              elim (preimage k k' hk) [
                | inr c ↦ inr c
                | inl ek ↦ elim (preimage v v' hv) [ inr c ↦ inr c | inl ev ↦ inl (ek, ev) ]
              ]
        ]

  pub combine-length :
      (cur : Hash32) (item : ProofItem) → IsSha256 sha256 → length (combine sha256 cur item) ≡ 32
  unfolding hash_node
  combine-length cur item d = by_side item.side
    where
      by_side :
          (s : Side)
          → length (combine sha256 cur (record { side = s; sibling = item.sibling })) ≡ 32
      by_side left = d (node_domain ++ (item.sibling ++ cur))
      by_side right = d (node_domain ++ (cur ++ item.sibling))

  pub leaf_length : (k w : Bytes) → IsSha256 sha256 → length (hash_leaf sha256 k w) ≡ 32
  unfolding hash_leaf
  leaf_length k w d = d (leaf_domain ++ (sha256 k ++ sha256 w))

  pub node_length : (l r : Hash32) → IsSha256 sha256 → length (hash_node sha256 l r) ≡ 32
  unfolding hash_node
  node_length l r d = d (node_domain ++ (l ++ r))
