-- ===== src/BtreeMap/Sum.antt =====
-- `BTreeMap<K, V>`: the sum of a measure over the values, and maps with the same keys.
use amunchain.Base.{ℕ, ◌+◌, ◌≤◌, ◌≡◌, [], ◌∷◌, arith, subst}
use Prim.Native.Nat.Ordering.{lt}
use amunchain.Order.{Ord}
use amunchain.BtreeMap.{
  BtreeMap, keys, get, get_or, insert, IsAbove, IsSorted, get-IsAbove, IsAbove-trans,
}

module _ {ℓ κ} {K : Type ℓ} {V : Type κ} where
  unfoldable pub sum : (V → ℕ) → BtreeMap K V → ℕ
  sum f [] = 0
  sum f ((k, v) ∷ m) = f v + sum f m

module _ {ℓ κ} {K : Type ℓ} {V : Type κ} ⦃o : Ord K⦄ where
  -- An insertion puts the new value's measure in the place of the old one's.
  pub sum-insert :
      (f : V → ℕ) (d : V) (k : K) (v : V) (m : BtreeMap K V)
      → f d ≡ 0
      → IsSorted m
      → sum f (insert k v m) + f (get_or d k m) ≡ sum f m + f v
  unfolding sum insert get
  sum-insert f d k v [] z s = omega arith
  sum-insert f d k v ((j, w) ∷ m) z s =
      ground
        (arith, sum-insert f d k v m z s.1, o.antisym k j, get-IsAbove k m, IsAbove-trans k j m)

  pub get_or-sum :
      (f : V → ℕ) (d : V) (k : K) (m : BtreeMap K V) → f d ≡ 0 → f (get_or d k m) ≤ sum f m
  unfolding sum get
  get_or-sum f d k [] z = omega arith
  get_or-sum f d k ((j, w) ∷ m) z = ground (arith, get_or-sum f d k m z)

  same_keys-IsAbove : (b : K) (m n : BtreeMap K V) → keys m ≡ keys n → IsAbove b m → IsAbove b n
  same_keys-IsAbove b [] [] e a = tt
  same_keys-IsAbove b [] (q ∷ n) e a = absurd (cc e)
  same_keys-IsAbove b (p ∷ m) [] e a = absurd (cc e)
  same_keys-IsAbove b ((j, v) ∷ m) ((i, w) ∷ n) e a =
      let s : j ≡ i = cc e in
      let r : keys m ≡ keys n = cc e in
      (subst (λ x. o.cmp b x ≡ lt) s a.0, same_keys-IsAbove b m n r a.1)

  -- Whether a map is in order is a matter of its keys.
  pub same_keys-IsSorted : (m n : BtreeMap K V) → keys m ≡ keys n → IsSorted m → IsSorted n
  same_keys-IsSorted [] [] e s = tt
  same_keys-IsSorted [] (q ∷ n) e s = absurd (cc e)
  same_keys-IsSorted (p ∷ m) [] e s = absurd (cc e)
  same_keys-IsSorted ((j, v) ∷ m) ((i, w) ∷ n) e s =
      let h : j ≡ i = cc e in
      let r : keys m ≡ keys n = cc e in
      (same_keys-IsAbove i m n r (subst (λ x. IsAbove x m) h s.0), same_keys-IsSorted m n r s.1)
