-- ===== src/BtreeMap/Subset.antt =====
-- Sorted maps whose keys all stand in a sorted set.
use amunchain.Base.{◌≤◌, ◌≡◌, [], ◌∷◌, length, arith, All, true}
use amunchain.Order.{Ord}
use amunchain.BtreeMap.{
  BtreeMap, BtreeSet, contains, get, IsSorted, IsAbove, IsAbove-trans, get-IsAbove,
}

module _ {ℓ κ} {K : Type ℓ} {V : Type κ} ⦃o : Ord K⦄ where
  -- Every key of the map is a member of the set.
  abbrev pub KeysIn : BtreeSet K → BtreeMap K V → Type 0
  KeysIn s m = All (λ e. contains e.0 s ≡ true) m

  -- Keys above the least member of the set are among the others.
  KeysIn-above :
      (i : K) (u : Unit {0}) (s : BtreeSet K) (m : BtreeMap K V)
      → IsAbove i m
      → KeysIn ((i, u) ∷ s) m
      → KeysIn s m
  unfolding get
  KeysIn-above i u s [] a k = tt
  KeysIn-above i u s ((j, w) ∷ m) a k = ground (arith, KeysIn-above i u s m, o.flip i j)

  -- A sorted map has at most as many entries as a set that holds its keys.
  pub length-KeysIn :
      (s : BtreeSet K) (m : BtreeMap K V)
      → IsSorted s
      → IsSorted m
      → KeysIn s m
      → length m ≤ length s
  unfolding get
  length-KeysIn s [] z h k = omega arith
  length-KeysIn [] ((j, w) ∷ m) z h k = cc k.0
  length-KeysIn ((i, u) ∷ s) ((j, w) ∷ m) z h k = ground (
    arith,
    o.flip j i,
    o.antisym j i,
    length-KeysIn s m z.1 h.1,
    length-KeysIn s ((j, w) ∷ m) z.1,
    KeysIn-above i u s m,
    KeysIn-above i u s ((j, w) ∷ m),
    IsAbove-trans i j m,
    IsAbove-trans j i s,
    get-IsAbove j s,
  )
