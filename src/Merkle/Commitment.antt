-- ===== src/Merkle/Commitment.antt =====
-- src/core/state/merkle.rs: a root stands for one list of entries, up to collisions of the hash.
-- Lists with repeated entries are left out: `a, b, c` and `a, b, c, c` have the same root.
use amunchain.Base.{
  ℕ, zero, suc, ◌≤◌, ◌<◌, ◌≡◌, ◌⊎◌, refl, sym, ap, ◌∙◌, subst, inl, inr, Bytes, List, [], ◌∷◌,
  length, All, All-imp, lt→ltb, arith, length-map,
}
use amunchain.Order.{bytes_ord}
use amunchain.Merkle.{
  Hash32, hash_leaf, next_level, climb, leaves, at, merkle_root_sorted, zero_hash,
}
use amunchain.Merkle.Binding.{Collision, IsSha256, hash_leaf_binding}
use amunchain.Merkle.Complete.{length-next_level}
use amunchain.Merkle.Height.{
  AnyEntry, any_entries, HasHeight, HasHeight-digest, HasHeight-length, HasHeight-unique,
  leaves-HasHeight, next_level-HasHeight, climb-HasHeight,
}
use amunchain.Merkle.Levels.{
  IsDistinct, leaves-IsDistinct, next_level-IsDistinct, next_level-binding,
}

-- Two inputs with one digest, or an input whose digest is the root of the empty state.
abbrev pub Broken : (Bytes → Hash32) → Type 0
Broken sha256 = Collision sha256 ⊎ ((x : Bytes) × (sha256 x ≡ zero_hash))

module _ (sha256 : Bytes → Hash32) (d : IsSha256 sha256) where
  hashes :
      (i : ℕ) (level : List Hash32)
      → All (HasHeight sha256 AnyEntry i) level
      → All (λ x. length x ≡ 32) level
  hashes i level a = All-imp (λ x p. HasHeight-length sha256 AnyEntry i x d p) level a

  -- A single node is not what a climb over several nodes at its height ends at.
  one_not_many :
      (fuel i : ℕ) (x : Hash32) (ys : List Hash32)
      → HasHeight sha256 AnyEntry i x
      → All (HasHeight sha256 AnyEntry i) ys
      → 1 < length ys
      → x ≡ at (climb sha256 fuel (next_level sha256 ys)) 0
      → Collision sha256
  one_not_many fuel i x ys p a m e =
      let n = length-next_level sha256 ys in
      let (j, le, q) =
        climb-HasHeight sha256 AnyEntry fuel (suc i) (next_level sha256 ys) (omega (arith, n))
          (next_level-HasHeight sha256 AnyEntry i ys a) in
      elim (HasHeight-unique sha256 AnyEntry i j x d p
        (subst (λ h. HasHeight sha256 AnyEntry j h) (sym e) q)) [
          | inr c ↦ c
          | inl s ↦ absurd (omega (arith, s, le))
        ]

  climb_more :
      (fuel : ℕ) (level : List Hash32)
      → 1 < length level
      → climb sha256 (suc fuel) level ≡ climb sha256 fuel (next_level sha256 level)
  unfolding climb
  climb_more fuel level h = let b = lt→ltb 1 (length level) h in rw b refl

  climb_one : (fuel : ℕ) (x : Hash32) → climb sha256 fuel (x ∷ []) ≡ x ∷ []
  unfolding climb
  climb_one zero x = refl
  climb_one (suc fuel) x = refl

  -- Two levels at one height that end at the same node are the same.
  climb-binding :
      (f g i : ℕ) (xs ys : List Hash32)
      → 0 < length xs
      → length xs ≤ suc f
      → 0 < length ys
      → length ys ≤ suc g
      → All (HasHeight sha256 AnyEntry i) xs
      → All (HasHeight sha256 AnyEntry i) ys
      → IsDistinct xs
      → IsDistinct ys
      → at (climb sha256 f xs) 0 ≡ at (climb sha256 g ys) 0
      → (xs ≡ ys) ⊎ Collision sha256
  climb-binding f g i [] ys px lx py ly ax ay ux uy h = absurd (omega arith)
  climb-binding f g i (x ∷ xs) [] px lx py ly ax ay ux uy h = absurd (omega arith)
  climb-binding f g i (x ∷ []) (y ∷ []) px lx py ly ax ay ux uy h =
      inl (ap (λ a. a ∷ []) (rw (climb_one f x, climb_one g y) at h))
  climb-binding f zero i (x ∷ []) (y ∷ z ∷ ys) px lx py ly ax ay ux uy h = absurd (omega arith)
  climb-binding f (suc g) i (x ∷ []) (y ∷ z ∷ ys) px lx py ly ax ay ux uy h = inr (
      one_not_many g i x (y ∷ z ∷ ys) ax.0 ay (omega arith)
        (rw (climb_one f x, climb_more g (y ∷ z ∷ ys) (omega arith)) at h))
  climb-binding zero g i (x ∷ w ∷ xs) (y ∷ []) px lx py ly ax ay ux uy h = absurd (omega arith)
  climb-binding (suc f) g i (x ∷ w ∷ xs) (y ∷ []) px lx py ly ax ay ux uy h = inr (
      one_not_many f i y (x ∷ w ∷ xs) ay.0 ax (omega arith)
        (sym (rw (climb_one g y, climb_more f (x ∷ w ∷ xs) (omega arith)) at h)))
  climb-binding zero g i (x ∷ w ∷ xs) (y ∷ z ∷ ys) px lx py ly ax ay ux uy h = absurd (omega arith)
  climb-binding (suc f) zero i (x ∷ w ∷ xs) (y ∷ z ∷ ys) px lx py ly ax ay ux uy h =
      absurd (omega arith)
  climb-binding (suc f) (suc g) i (x ∷ w ∷ xs) (y ∷ z ∷ ys) px lx py ly ax ay ux uy h =
      let a = x ∷ w ∷ xs in
      let b = y ∷ z ∷ ys in
      let n = length-next_level sha256 a in
      let m = length-next_level sha256 b in
      let up : at (climb sha256 f (next_level sha256 a)) 0
          ≡ at (climb sha256 g (next_level sha256 b)) 0 =
        rw (climb_more f a (omega arith), climb_more g b (omega arith)) at h in
      elim (next_level-IsDistinct sha256 a (hashes i a ax) ux) [
        | inr c ↦ inr c
        | inl u ↦ elim (next_level-IsDistinct sha256 b (hashes i b ay) uy) [
          | inr c ↦ inr c
          | inl v ↦
              elim (climb-binding f g (suc i) (next_level sha256 a) (next_level sha256 b)
                (omega (arith, n)) (omega (arith, n)) (omega (arith, m)) (omega (arith, m))
                (next_level-HasHeight sha256 AnyEntry i a ax)
                (next_level-HasHeight sha256 AnyEntry i b ay) u v up) [
                  | inr c ↦ inr c
                  | inl e ↦ next_level-binding sha256 a b (hashes i a ax) (hashes i b ay) ux uy e
                ]
        ]
      ]

  leaves-binding :
      (ps qs : List (Bytes × Bytes))
      → leaves sha256 ps ≡ leaves sha256 qs
      → (ps ≡ qs) ⊎ Collision sha256
  leaves-binding [] [] h = inl refl
  leaves-binding [] (q ∷ qs) h = absurd (cc h)
  leaves-binding (p ∷ ps) [] h = absurd (cc h)
  leaves-binding ((k, v) ∷ ps) ((k', v') ∷ qs) h =
      let rest : leaves sha256 ps ≡ leaves sha256 qs = cc h in
      elim (hash_leaf_binding sha256 k v k' v' d (cc h)) [
        | inr c ↦ inr c
        | inl (e, f) ↦ elim (leaves-binding ps qs rest) [
          | inr c ↦ inr c
          | inl r ↦ inl (cc (e, f, r))
        ]
      ]

  -- The root of a list that is not empty is a digest.
  root-digest :
      (p : Bytes × Bytes) (ps : List (Bytes × Bytes))
      → (x : Bytes) × (merkle_root_sorted sha256 (p ∷ ps) ≡ sha256 x)
  unfolding merkle_root_sorted
  root-digest p ps =
      let (j, _, q) =
        climb-HasHeight sha256 AnyEntry (length (p ∷ ps)) 0 (leaves sha256 (p ∷ ps)) (omega arith)
          (leaves-HasHeight sha256 AnyEntry (p ∷ ps) (any_entries (p ∷ ps))) in
      HasHeight-digest sha256 AnyEntry j
        (at (climb sha256 (length (p ∷ ps)) (leaves sha256 (p ∷ ps))) 0) q

  -- Lists without repeated entries that have the same root are the same list, entry by entry and
  -- in the same order, or a collision of SHA-256 or a preimage of the zero hash is at hand.
  pub root_commits :
      (ps qs : List (Bytes × Bytes))
      → IsDistinct ps
      → IsDistinct qs
      → merkle_root_sorted sha256 ps ≡ merkle_root_sorted sha256 qs
      → (ps ≡ qs) ⊎ Broken sha256
  unfolding merkle_root_sorted
  root_commits [] [] u v h = inl refl
  root_commits [] (q ∷ qs) u v h = let (x, e) = root-digest q qs in inr (inr (x, sym e ∙ sym h))
  root_commits (p ∷ ps) [] u v h = let (x, e) = root-digest p ps in inr (inr (x, sym e ∙ h))
  root_commits (p ∷ ps) (q ∷ qs) u v h =
      let a = leaves sha256 (p ∷ ps) in
      let b = leaves sha256 (q ∷ qs) in
      let f = λ (x : Bytes × Bytes). hash_leaf sha256 x.0 x.1 in
      let n = length-map f (p ∷ ps) in
      let m = length-map f (q ∷ qs) in
      elim (leaves-IsDistinct sha256 (p ∷ ps) d u) [
        | inr c ↦ inr (inl c)
        | inl ua ↦ elim (leaves-IsDistinct sha256 (q ∷ qs) d v) [
          | inr c ↦ inr (inl c)
          | inl ub ↦
              elim (climb-binding (length (p ∷ ps)) (length (q ∷ qs)) 0 a b (omega (arith, n))
                (omega (arith, n)) (omega (arith, m)) (omega (arith, m))
                (leaves-HasHeight sha256 AnyEntry (p ∷ ps) (any_entries (p ∷ ps)))
                (leaves-HasHeight sha256 AnyEntry (q ∷ qs) (any_entries (q ∷ qs))) ua ub h) [
                  | inr c ↦ inr (inl c)
                  | inl e ↦ elim (leaves-binding (p ∷ ps) (q ∷ qs) e) [
                    | inr c ↦ inr (inl c)
                    | inl s ↦ inl s
                  ]
                ]
        ]
      ]
