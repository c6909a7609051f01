-- ===== src/Merkle.antt =====
-- src/core/state/merkle.rs: the Merkle tree over sorted key-value pairs. SHA-256 of the `ring`
-- crate is a parameter. The loops over an index by twos go over the list by twos; the `while` loops
-- take the number of nodes as fuel, which is enough since every round halves it, rounded up.
pub mod Complete
pub mod Tree
pub mod Binding
pub mod Sides
pub mod Height
pub mod Levels
pub mod Commitment
pub mod Sound
use amunchain.Base.{
  ℕ, zero, suc, ◌+◌, ◌-◌, ◌/◌, ◌%◌, Bytes, Bool, true, false, ◌||◌, List, [], ◌∷◌, ◌++◌, map,
  Option, none, some, length, get_elem?, unwrap_or, ltb, leb, ◌==◌, if◌then◌else◌,
}
use amunchain.Order.{bytes_ord, ◌=?◌}
use amunchain.Strings.{ascii}

abbrev pub Hash32 : Type 0
Hash32 = Bytes

abbrev pub leaf_domain : Bytes
leaf_domain = ascii "Amunchain-State-Leaf-v1"

abbrev pub node_domain : Bytes
node_domain = ascii "Amunchain-State-Node-v1"

pub data Side : Type 0 where
  left right : Side

pub record ProofItem : Type 0 where
  pub side : Side
  pub sibling : Hash32

pub record MerkleProof : Type 0 where
  pub leaf : Hash32
  pub path : List ProofItem

-- `[0u8; 32]`
abbrev pub zero_hash : Hash32
zero_hash =
    0 ∷ 0 ∷ 0 ∷ 0 ∷ 0 ∷ 0 ∷ 0 ∷ 0 ∷ 0 ∷ 0 ∷ 0 ∷ 0 ∷ 0 ∷ 0 ∷ 0 ∷ 0 ∷ 0 ∷ 0 ∷ 0 ∷ 0 ∷ 0 ∷ 0 ∷ 0 ∷ 0
    ∷ 0 ∷ 0 ∷ 0 ∷ 0 ∷ 0 ∷ 0 ∷ 0 ∷ 0 ∷ []

-- `level[i]`; the index is in range wherever the code reads.
abbrev pub at : List Hash32 → ℕ → Hash32
at level i = unwrap_or zero_hash (get_elem? level i)

-- One round of `merkle_proof_sorted`: the sibling of the node at `idx`.
unfoldable pub proof_item : List Hash32 → ℕ → ProofItem
proof_item level idx =
    let is_right = idx % 2 == 1 in
    let sib_idx = if is_right then idx - 1 else idx + 1 in
    record {
      side = if is_right then left else right;
      sibling = if ltb sib_idx (length level) then at level sib_idx else at level idx;
    }

module _ (sha256 : Bytes → Hash32) where
  unfoldable pub hash_leaf : Bytes → Bytes → Hash32
  hash_leaf key value = sha256 (leaf_domain ++ (sha256 key ++ sha256 value))

  unfoldable pub hash_node : Hash32 → Hash32 → Hash32
  hash_node l r = sha256 (node_domain ++ (l ++ r))

  -- The inner loop: a last node without a sibling is hashed with itself.
  unfoldable pub next_level : List Hash32 → List Hash32
  next_level [] = []
  next_level (a ∷ []) = hash_node a a ∷ []
  next_level (a ∷ b ∷ rest) = hash_node a b ∷ next_level rest

  -- `while level.len() > 1`
  unfoldable pub climb : ℕ → List Hash32 → List Hash32
  climb zero level = level
  climb (suc fuel) level =
      let above = climb fuel (next_level level) in if ltb 1 (length level) then above else level

  abbrev pub leaves : List (Bytes × Bytes) → List Hash32
  leaves pairs = map (λ p. hash_leaf p.0 p.1) pairs

  unfoldable pub merkle_root_sorted : List (Bytes × Bytes) → Hash32
  unfolding climb next_level
  merkle_root_sorted [] = zero_hash
  merkle_root_sorted (p ∷ pairs) = at (climb (length (p ∷ pairs)) (leaves (p ∷ pairs))) 0

  unfoldable pub proof_path : ℕ → List Hash32 → ℕ → List ProofItem
  proof_path zero level idx = []
  proof_path (suc fuel) level idx =
      let above = proof_item level idx ∷ proof_path fuel (next_level level) (idx / 2) in
      if ltb 1 (length level) then above else []

  unfoldable pub merkle_proof_sorted : List (Bytes × Bytes) → ℕ → Option MerkleProof
  unfolding proof_path proof_item next_level
  merkle_proof_sorted [] index = none
  merkle_proof_sorted (p ∷ pairs) index =
      let level = leaves (p ∷ pairs) in
      if leb (length (p ∷ pairs)) index
      then none
      else some
          (record { leaf = at level index; path = proof_path (length (p ∷ pairs)) level index })

  -- The loop of `verify_proof`, and its body.
  abbrev pub combine : Hash32 → ProofItem → Hash32
  combine cur item = elim item.side [
    | left ↦ hash_node item.sibling cur
    | right ↦ hash_node cur item.sibling
  ]

  unfoldable pub fold_path : Hash32 → List ProofItem → Hash32
  fold_path cur [] = cur
  fold_path cur (item ∷ path) = fold_path (combine cur item) path

  unfoldable pub verify_proof : Hash32 → MerkleProof → Bool
  unfolding fold_path
  verify_proof root proof = fold_path proof.leaf proof.path =? root
