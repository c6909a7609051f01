-- ===== src/BtreeMap/Overlap.antt =====
-- `BTreeMap<K, V>`: what two maps with keys in one set have in common.
use amunchain.Base.{
  suc, ◌+◌, ◌≤◌, ◌≡◌, refl, [], ◌∷◌, length, true, All, arith, if◌then◌else◌, some, Option-cases,
  inl, inr,
}
use amunchain.Order.{Ord}
use amunchain.BtreeMap.{
  BtreeMap, BtreeSet, contains, get, insert, IsAbove, IsSorted, IsAbove-trans, get-IsAbove,
  get-insert, insert-IsSorted, All-insert,
}
use amunchain.BtreeMap.Subset.{KeysIn, length-KeysIn}

module _ {ℓ κ} {K : Type ℓ} {V : Type κ} ⦃o : Ord K⦄ where
  -- The entries of the first map whose keys the second one has.
  unfoldable pub common : BtreeMap K V → BtreeMap K V → BtreeMap K V
  common [] n = []
  common ((k, v) ∷ m) n = let rest = common m n in if contains k n then (k, v) ∷ rest else rest

  unfoldable merge : BtreeMap K V → BtreeMap K V → BtreeMap K V
  merge [] n = n
  merge ((k, v) ∷ m) n = insert k v (merge m n)

  length-insert :
      (k : K) (v : V) (m : BtreeMap K V)
      → IsSorted m
      → length (insert k v m) ≡ (if contains k m then length m else suc (length m))
  unfolding insert get
  length-insert k v [] s = refl
  length-insert k v ((j, w) ∷ m) s =
      ground (arith, length-insert k v m s.1, o.antisym k j, get-IsAbove k m, IsAbove-trans k j m)

  merge-IsSorted : (m n : BtreeMap K V) → IsSorted n → IsSorted (merge m n)
  unfolding merge
  merge-IsSorted [] n s = s
  merge-IsSorted ((k, v) ∷ m) n s = insert-IsSorted k v (merge m n) (merge-IsSorted m n s)

  merge-KeysIn :
      (z : BtreeSet K) (m n : BtreeMap K V) → KeysIn z m → KeysIn z n → KeysIn z (merge m n)
  unfolding merge
  merge-KeysIn z [] n a b = b
  merge-KeysIn z ((k, v) ∷ m) n a b =
      All-insert (λ j w. contains j z ≡ true) k v (merge m n) a.0 (merge-KeysIn z m n a.1 b)

  contains-merge :
      (k : K) (m n : BtreeMap K V) → IsAbove k m → contains k (merge m n) ≡ contains k n
  unfolding merge
  contains-merge k [] n a = refl
  contains-merge k ((j, w) ∷ m) n a =
      ground (arith, contains-merge k m n a.1, get-insert k j w (merge m n))

  length-merge :
      (m n : BtreeMap K V)
      → IsSorted m
      → IsSorted n
      → length (merge m n) + length (common m n) ≡ length m + length n
  unfolding merge common
  length-merge [] n s t = omega arith
  length-merge ((k, v) ∷ m) n s t = ground (
    arith,
    length-merge m n s.1 t,
    contains-merge k m n s.0,
    length-insert k v (merge m n) (merge-IsSorted m n t),
  )

  -- Two maps with keys in one set share at least the entries by which they are together larger.
  pub length-common :
      (z : BtreeSet K) (m n : BtreeMap K V)
      → IsSorted z
      → IsSorted m
      → IsSorted n
      → KeysIn z m
      → KeysIn z n
      → length m + length n ≤ length z + length (common m n)
  length-common z m n r s t a b = omega (
    arith,
    length-merge m n s t,
    length-KeysIn z (merge m n) r (merge-IsSorted m n t) (merge-KeysIn z m n a b),
  )

  common-IsAbove : (k : K) (m n : BtreeMap K V) → IsAbove k m → IsAbove k (common m n)
  unfolding common
  common-IsAbove k [] n a = tt
  common-IsAbove k ((j, w) ∷ m) n a = ground (arith, common-IsAbove k m n a.1)

  pub common-IsSorted : (m n : BtreeMap K V) → IsSorted m → IsSorted (common m n)
  unfolding common
  common-IsSorted [] n s = tt
  common-IsSorted ((k, v) ∷ m) n s =
      ground (arith, common-IsSorted m n s.1, common-IsAbove k m n s.0)

  -- What holds of the entries of both holds of the common ones.
  pub All-common {μ ν} :
      (P : K × V → Type μ) (Q : K × V → Type ν) (m n : BtreeMap K V)
      → All P m
      → ((k : K) (w : V) → get k n ≡ some w → Q (k, w))
      → All (λ e. P e × (w : V) × Q (e.0, w)) (common m n)
  unfolding common
  All-common P Q [] n a q = tt
  All-common P Q ((k, v) ∷ m) n a q = elim (Option-cases (get k n)) [
    | inl e ↦ rw (common, e) (All-common P Q m n a.1 q)
    | inr (w, e) ↦ rw (common, e) ((a.0, w, q k w e), All-common P Q m n a.1 q)
  ]
