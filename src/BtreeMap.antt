-- ===== src/BtreeMap.antt =====
-- `BTreeMap<K, V>` and `BTreeSet<K>` as lists of entries in ascending order of the keys: the order
-- in which the standard library's iterators visit them. The operations that the program uses, and
-- their laws.
pub mod Subset
pub mod Sum
pub mod Overlap
pub mod Extensional
use Prim.Native.Nat.Ordering.{lt, eq, gt}
use amunchain.Base.{
  ◌≡◌, refl, ◌≢◌, List, [], ◌∷◌, Option, none, some, Bool, true, false, arith, All, if◌then◌else◌,
  is_some, unwrap_or, subst, sym, Bool-cases, inl, inr,
}
use amunchain.Order.{Ord, ◌=?◌, =?_iff}

abbrev pub BtreeMap {ℓ κ} : Type ℓ → Type κ → Type (ℓ ⊔ κ)
BtreeMap K V = List (K × V)

-- As the standard library does it, a set is a map to the type with one value.
abbrev pub BtreeSet {ℓ} : Type ℓ → Type ℓ
BtreeSet K = BtreeMap K (Unit {0})

abbrev pub keys {ℓ κ} : {K : Type ℓ} {V : Type κ} → BtreeMap K V → List K
keys [] = []
keys ((k, v) ∷ m) = k ∷ keys m

module _ {ℓ κ} {K : Type ℓ} {V : Type κ} ⦃o : Ord K⦄ where
  unfoldable pub get : K → BtreeMap K V → Option V
  get k [] = none
  get k ((j, v) ∷ m) = if k =? j then some v else get k m

  abbrev pub get_or : V → K → BtreeMap K V → V
  get_or d k m = unwrap_or d (get k m)

  abbrev pub contains : K → BtreeMap K V → Bool
  contains k m = is_some (get k m)

  -- A key that is present keeps its place and takes the new value.
  unfoldable pub insert : K → V → BtreeMap K V → BtreeMap K V
  insert k v [] = (k, v) ∷ []
  insert k v ((j, w) ∷ m) = elim (o.cmp k j) [
    | lt ↦ (k, v) ∷ (j, w) ∷ m
    | eq ↦ (j, v) ∷ m
    | gt ↦ (j, w) ∷ insert k v m
  ]

  -- Every key of the map is above `k`.
  abbrev pub IsAbove : K → BtreeMap K V → Type 0
  IsAbove k [] = Unit
  IsAbove k ((j, v) ∷ m) = (o.cmp k j ≡ lt) × IsAbove k m

  abbrev pub IsSorted : BtreeMap K V → Type 0
  IsSorted [] = Unit
  IsSorted ((k, v) ∷ m) = IsAbove k m × IsSorted m

  insert-IsAbove :
      (b k : K) (v : V) (m : BtreeMap K V) → o.cmp b k ≡ lt → IsAbove b m → IsAbove b (insert k v m)
  unfolding insert
  insert-IsAbove b k v [] h a = (h, tt)
  insert-IsAbove b k v ((j, w) ∷ m) h a = ground (arith, insert-IsAbove b k v m h a.1)

  pub IsAbove-trans : (b k : K) (m : BtreeMap K V) → o.cmp b k ≡ lt → IsAbove k m → IsAbove b m
  IsAbove-trans b k [] h a = tt
  IsAbove-trans b k ((j, w) ∷ m) h a = (o.chain b k j h a.0, IsAbove-trans b k m h a.1)

  pub insert-IsSorted : (k : K) (v : V) (m : BtreeMap K V) → IsSorted m → IsSorted (insert k v m)
  unfolding insert
  insert-IsSorted k v [] s = (tt, tt)
  insert-IsSorted k v ((j, w) ∷ m) s =
      ground
        (arith, o.flip k j, insert-IsSorted k v m s.1, insert-IsAbove j k v m, IsAbove-trans k j m)

  pub get-insert :
      (j k : K) (v : V) (m : BtreeMap K V)
      → get j (insert k v m) ≡ (if j =? k then some v else get j m)
  unfolding get insert
  get-insert j k v [] = refl
  get-insert j k v ((i, w) ∷ m) =
      ground
        (arith, get-insert j k v m, o.antisym j k, o.antisym j i, o.antisym k i, o.same i, o.same k)

  pub get-insert_self : (k : K) (v : V) (m : BtreeMap K V) → get k (insert k v m) ≡ some v
  get-insert_self k v m = ground (arith, get-insert k k v m, o.same k)

  pub get-insert_ne : (j k : K) (v : V) (m : BtreeMap K V) → j ≢ k → get j (insert k v m) ≡ get j m
  get-insert_ne j k v m h = ground (arith, get-insert j k v m, o.antisym j k)

  pub get-IsAbove : (k : K) (m : BtreeMap K V) → IsAbove k m → get k m ≡ none
  unfolding get
  get-IsAbove k [] a = refl
  get-IsAbove k ((j, w) ∷ m) a = ground (arith, get-IsAbove k m a.1)

  -- Writing the value that a key has changes nothing.
  pub insert_same :
      (k : K) (v : V) (m : BtreeMap K V) → IsSorted m → get k m ≡ some v → insert k v m ≡ m
  unfolding get insert
  insert_same k v [] s h = cc
  insert_same k v ((j, w) ∷ m) s h =
      ground (arith, insert_same k v m s.1, o.antisym k j, get-IsAbove k m, IsAbove-trans k j m)

  -- A predicate of every entry.
  pub All-insert {μ} :
      (P : K → V → Type μ) (k : K) (v : V) (m : BtreeMap K V)
      → P k v
      → All (λ e. P e.0 e.1) m
      → All (λ e. P e.0 e.1) (insert k v m)
  unfolding insert
  All-insert P k v [] p a = (p, tt)
  All-insert P k v ((j, w) ∷ m) p a =
      ground (arith, o.antisym k j, All-insert P k v m p, λ (e : k ≡ j). subst (λ i. P i v) e p)

  pub All-get {μ} :
      (P : K → V → Type μ) (k : K) {v : V} (m : BtreeMap K V)
      → All (λ e. P e.0 e.1) m
      → get k m ≡ some v
      → P k v
  unfolding get
  All-get P k [] a h = cc
  All-get P k {v} ((j, w) ∷ m) a h = elim (Bool-cases (k =? j)) [
    | inl e ↦
        let q : some w ≡ some v = rw (e, get) at h in
        let p : w ≡ v = cc q in subst (λ x. P x v) (sym ((=?_iff k j).0 e)) (subst (P j) p a.0)
    | inr e ↦ All-get P k m a.1 (rw (e, get) at h)
  ]
