-- ===== src/BtreeMap/Extensional.antt =====
-- `BTreeMap<K, V>`: a map is what its lookups answer.
use amunchain.Base.{
  ◌≡◌, ◌≢◌, refl, sym, ◌∙◌, ap, [], ◌∷◌, none, false, All, subst, inl, inr, Bool-cases, arith,
}
use amunchain.Order.{Ord, ◌=?◌, =?_iff, =?_refl}
use amunchain.BtreeMap.{BtreeMap, get, IsAbove, IsSorted, get-IsAbove, IsAbove-trans}

module _ {ℓ κ} {K : Type ℓ} {V : Type κ} ⦃o : Ord K⦄ where
  -- Two maps in order that answer every lookup alike are the same.
  pub IsSorted-extensional :
      (m n : BtreeMap K V) → IsSorted m → IsSorted n → ((k : K) → get k m ≡ get k n) → m ≡ n
  unfolding get
  IsSorted-extensional [] [] s t h = refl
  IsSorted-extensional [] ((j, w) ∷ n) s t h = ground (arith, h j, =?_refl j)
  IsSorted-extensional ((k, v) ∷ m) [] s t h = ground (arith, h k, =?_refl k)
  IsSorted-extensional ((k, v) ∷ m) ((j, w) ∷ n) s t h =
      let rest = IsSorted-extensional m n s.1 t.1 in
      let a : get k m ≡ none = get-IsAbove k m s.0 in
      let b : get j n ≡ none = get-IsAbove j n t.0 in
      let key : k ≡ j = ground (
        arith,
        h k,
        h j,
        o.antisym k j,
        o.flip k j,
        o.same k,
        o.same j,
        get-IsAbove k n,
        IsAbove-trans k j n,
        get-IsAbove j m,
        IsAbove-trans j k m,
      ) in
      let value : v ≡ w = ground (arith, key, h k, o.same k) in
      let tails : (i : K) → get i m ≡ get i n = λ i. elim (Bool-cases (i =? k)) [
        | inl e ↦
            let at : i ≡ k = (=?_iff i k).0 e in
            ap (λ x. get x m) at ∙ a ∙ sym b ∙ sym (ap (λ x. get x n) (at ∙ key))
        | inr e ↦
            let f : (i =? j) ≡ false = subst (λ x. (i =? x) ≡ false) key e in rw (e, f) at (h i)
      ] in
      cc (key, value, rest tails)

  -- The first entry of a map in order stands once in it.
  pub IsAbove-fresh : (k : K) (v : V) (m : BtreeMap K V) → IsAbove k m → All (λ e. (k, v) ≢ e) m
  IsAbove-fresh k v [] a = tt
  IsAbove-fresh k v ((j, w) ∷ m) a =
      (λ e. ground (arith, ap (λ x. x.0) e, o.same k), IsAbove-fresh k v m a.1)
