-- ===== src/Merkle/Tree.antt =====
-- src/core/state/merkle.rs: the root as the top of one tree, described from the top down and
-- without the levels that the code computes one after the other.
use amunchain.Base.{
  ℕ, true, zero, suc, ◌+◌, ◌*◌, ◌/◌, ◌^◌, ◌≤◌, ◌<◌, ◌≡◌, refl, sym, ap, ◌∙◌, Bytes, List, [], ◌∷◌,
  length, ltb, if◌then◌else◌, arith, length-map,
}
use amunchain.Merkle.{
  Hash32, at, hash_leaf, hash_node, next_level, climb, leaves, merkle_root_sorted,
}
use amunchain.Merkle.Complete.{length-next_level}

-- How many nodes stand at a height over `n` leaves.
unfoldable pub width : ℕ → ℕ → ℕ
width zero n = n
width (suc k) n = (width k n + 1) / 2

-- The right child of a node that has `i` as its left one, among `count` nodes.
abbrev pub right_child : ℕ → ℕ → ℕ
right_child count i = if ltb (i + 1) count then i + 1 else i

width_up : (k n : ℕ) → width k ((n + 1) / 2) ≡ width (suc k) n
unfolding width
width_up zero n = refl
width_up (suc k) n = ap (λ w. (w + 1) / 2) (width_up k n)

right_child_shift :
    (count i : ℕ) → right_child (suc (suc count)) (suc (suc i)) ≡ suc (suc (right_child count i))
right_child_shift count i = ground arith

right_child-lt : (count i : ℕ) → i < count → right_child count i < count
right_child-lt count i h = ground (arith, h)

width-positive : (k n : ℕ) → 0 < n → 0 < width k n
unfolding width
width-positive zero n h = h
width-positive (suc k) n h = let w = width-positive k n h in omega (arith, w)

pow_suc : (k : ℕ) → 2 ^ suc k ≡ 2 * 2 ^ k
pow_suc k = omega arith

-- The least power of two with room doubles when the number does.
least_up :
    (k n half : ℕ)
    → half ≡ (n + 1) / 2
    → 1 < n
    → half ≤ 2 ^ k
    → 2 ^ k < 2 * half
    → (n ≤ 2 ^ suc k) × (2 ^ suc k < 2 * n)
least_up zero n half e h fits least = (omega arith, omega arith)
least_up (suc k) n half e h fits least =
    (omega (arith, pow_suc k, pow_suc (suc k)), omega (arith, pow_suc k, pow_suc (suc k)))

module _ (sha256 : Bytes → Hash32) where
  -- The specification: the node `i` at height `k` hashes its two children, of which the last node
  -- of an odd row is both.
  unfoldable pub tree_node : ℕ → List Hash32 → ℕ → Hash32
  tree_node zero ls i = at ls i
  tree_node (suc k) ls i =
      hash_node sha256 (tree_node k ls (2 * i))
        (tree_node k ls (right_child (width k (length ls)) (2 * i)))

  at-next_level :
      (ls : List Hash32) (i : ℕ)
      → i < (length ls + 1) / 2
      → at (next_level sha256 ls) i
        ≡ hash_node sha256 (at ls (2 * i)) (at ls (right_child (length ls) (2 * i)))
  unfolding next_level
  at-next_level [] i h = absurd (omega arith)
  at-next_level (a ∷ []) zero h = refl
  at-next_level (a ∷ []) (suc i) h = absurd (omega arith)
  at-next_level (a ∷ b ∷ rest) zero h = ground arith
  at-next_level (a ∷ b ∷ rest) (suc i) h =
      let two : 2 * suc i ≡ suc (suc (2 * i)) = omega arith in
      let more = at-next_level rest i (omega arith) in
      rw two (
        more
        ∙ ap (λ j. hash_node sha256 (at rest (2 * i)) (at (a ∷ b ∷ rest) j))
            (sym (right_child_shift (length rest) (2 * i))))

  -- A node over the next level is the node one higher over this one.
  tree_node-next_level :
      (k : ℕ) (ls : List Hash32) (i : ℕ)
      → i < width (suc k) (length ls)
      → tree_node k (next_level sha256 ls) i ≡ tree_node (suc k) ls i
  unfolding tree_node width
  tree_node-next_level zero ls i h = at-next_level ls i h
  tree_node-next_level (suc k) ls i h =
      let above = next_level sha256 ls in
      let count : width k (length above) ≡ width (suc k) (length ls) =
        ap (width k) (length-next_level sha256 ls) ∙ width_up k (length ls) in
      let left = tree_node-next_level k ls (2 * i) (omega (arith, h)) in
      let j = right_child (width (suc k) (length ls)) (2 * i) in
      let right =
        tree_node-next_level k ls j
          (right_child-lt (width (suc k) (length ls)) (2 * i) (omega (arith, h))) in
      ap
        (λ c.
          hash_node sha256 (tree_node k above (2 * i)) (tree_node k above (right_child c (2 * i))))
        count
      ∙ ap (λ x. hash_node sha256 x (tree_node k above j)) left
      ∙ ap (λ x. hash_node sha256 (tree_node (suc k) ls (2 * i)) x) right

  -- A climb that ends at the top of the tree.
  abbrev ReachesTop : ℕ → List Hash32 → Type 0
  ReachesTop fuel level =
      (k : ℕ) × (length level ≤ 2 ^ k)
      × (2 ^ k < 2 * length level)
      × (climb sha256 fuel level ≡ tree_node k level 0 ∷ [])

  climb_up :
      (fuel : ℕ) (a b : Hash32) (rest : List Hash32)
      → ReachesTop fuel (next_level sha256 (a ∷ b ∷ rest))
      → ReachesTop (suc fuel) (a ∷ b ∷ rest)
  unfolding climb
  climb_up fuel a b rest (k, fits, least, same) =
      let level = a ∷ b ∷ rest in
      let n = length-next_level sha256 level in
      let wide = width-positive (suc k) (length level) (omega arith) in
      let (room, least_room) =
        least_up k (length level) (length (next_level sha256 level)) n (omega arith) fits least in
      let more : ltb 1 (suc (suc (length rest))) ≡ true = ground arith in
      (
        suc k,
        room,
        least_room,
        rw (climb, more) (same ∙ ap (λ x. x ∷ []) (tree_node-next_level k level 0 wide)),
      )

  -- The `while` loop ends with one node, the top of the tree of the least height that has room for
  -- the leaves, as soon as the fuel is at least the number of nodes less one.
  climb-tree_node :
      (fuel : ℕ) (level : List Hash32)
      → 0 < length level
      → length level ≤ suc fuel
      → ReachesTop fuel level
  unfolding climb tree_node
  climb-tree_node fuel [] p h = absurd (omega arith)
  climb-tree_node zero (a ∷ []) p h = (0, omega arith, omega arith, refl)
  climb-tree_node (suc fuel) (a ∷ []) p h = (0, omega arith, omega arith, refl)
  climb-tree_node zero (a ∷ b ∷ rest) p h = absurd (omega arith)
  climb-tree_node (suc fuel) (a ∷ b ∷ rest) p h =
      let n = length-next_level sha256 (a ∷ b ∷ rest) in
      climb_up fuel a b rest (
        climb-tree_node fuel (next_level sha256 (a ∷ b ∷ rest)) (omega (arith, n))
          (omega (arith, n)))

  -- For every list of entries but the empty one the root is the top of the tree over their leaves
  -- that has the least height with room for them.
  pub merkle_root_sorted-tree_node :
      (p : Bytes × Bytes) (pairs : List (Bytes × Bytes))
      → let n = suc (length pairs) in
        (k : ℕ) × (n ≤ 2 ^ k)
        × (2 ^ k < 2 * n)
        × (merkle_root_sorted sha256 (p ∷ pairs) ≡ tree_node k (leaves sha256 (p ∷ pairs)) 0)
  unfolding merkle_root_sorted
  merkle_root_sorted-tree_node p pairs =
      let count = length-map (λ (x : Bytes × Bytes). hash_leaf sha256 x.0 x.1) (p ∷ pairs) in
      let (k, fits, least, same) =
        climb-tree_node (suc (length pairs)) (leaves sha256 (p ∷ pairs)) (omega arith)
          (omega (arith, count)) in
      (k, omega (arith, count, fits), omega (arith, count, least), ap (λ l. at l 0) same)
