-- ===== src/Order.antt =====
-- Rust's `Ord`: a comparison with the laws that the trait asks of it, and the derived instances
-- (tuples and byte vectors compare lexicographically, a newtype as its field).
use Prim.Native.Nat.{compare, Ordering}
use Prim.Native.Nat.Ordering.{lt, eq, gt}
use amunchain.Base.{ℕ, ◌≡◌, refl, ◌↔◌, List, [], ◌∷◌, arith, Bool, true, false}

-- `Ordering::reverse` and `Ordering::then`.
abbrev pub reverse : Ordering → Ordering
reverse lt = gt
reverse eq = eq
reverse gt = lt

abbrev pub then : Ordering → Ordering → Ordering
then eq o = o
then lt o = lt
then gt o = gt

pub record IsTotal {ℓ} {K : Type ℓ} (order : K → K → Ordering) : Type ℓ where
  pub same : (x : K) → order x x ≡ eq
  pub antisym : (x y : K) → order x y ≡ eq → x ≡ y
  pub flip : (x y : K) → order y x ≡ reverse (order x y)
  pub chain : (x y z : K) → order x y ≡ lt → order y z ≡ lt → order x z ≡ lt

-- A type with its comparison.
pub record Ord {κ} (A : Type κ) : Type κ where
  pub cmp : A → A → Ordering
  pub total : IsTotal cmp
  pub open total use *

infix 50 ◌=?◌
-- `==` of a type with a total order.
abbrev pub ◌=?◌ {ℓ} : {K : Type ℓ} ⦃o : Ord K⦄ → K → K → Bool
◌=?◌ ⦃o⦄ a b = elim (o.cmp a b) [ eq ↦ true | _ ↦ false ]

pub =?_refl {ℓ} : {K : Type ℓ} ⦃o : Ord K⦄ → (a : K) → (a =? a) ≡ true
=?_refl ⦃o⦄ a = ground (arith, o.same a)

pub =?_iff {ℓ} : {K : Type ℓ} ⦃o : Ord K⦄ → (a b : K) → ((a =? b) ≡ true) ↔ (a ≡ b)
=?_iff ⦃o⦄ a b = (λ h. ground (arith, o.antisym a b), λ e. ground (arith, o.same a))

pub compare-IsTotal : IsTotal compare
compare-IsTotal = ground arith

instance abbrev pub nat_ord : Ord ℕ
nat_ord = record { cmp = compare; total = compare-IsTotal }

module _ {ℓ κ} {A : Type ℓ} {B : Type κ} ⦃p : Ord A⦄ ⦃q : Ord B⦄ where
  abbrev pub pair_cmp : A × B → A × B → Ordering
  pair_cmp (a, b) (c, d) = then (p.cmp a c) (q.cmp b d)

  pair_cmp_antisym : (x y : A × B) → pair_cmp x y ≡ eq → x ≡ y
  pair_cmp_antisym (a, b) (c, d) h = ground (arith, p.antisym a c, q.antisym b d)

  pair_cmp_chain : (x y z : A × B) → pair_cmp x y ≡ lt → pair_cmp y z ≡ lt → pair_cmp x z ≡ lt
  pair_cmp_chain (a, b) (c, d) (e, f) h k =
      grind (arith, p.antisym a c, p.antisym c e, p.chain a c e, q.chain b d f)

  pub pair_cmp-IsTotal : IsTotal {K = A × B} pair_cmp
  pair_cmp-IsTotal = record {
    same = λ (a, b). ground (arith, p.same a, q.same b);
    antisym = pair_cmp_antisym;
    flip = λ (a, b) (c, d). ground (arith, p.flip a c, q.flip b d);
    chain = pair_cmp_chain;
  }

  instance unfoldable pub pair_ord : Ord (A × B)
  pair_ord = record { cmp = pair_cmp; total = pair_cmp-IsTotal }

-- Vectors: the first difference decides, and a proper prefix is less.
abbrev pub bytes_cmp : List ℕ → List ℕ → Ordering
bytes_cmp [] [] = eq
bytes_cmp [] (y ∷ ys) = lt
bytes_cmp (x ∷ xs) [] = gt
bytes_cmp (x ∷ xs) (y ∷ ys) = then (compare x y) (bytes_cmp xs ys)

bytes_same : (a : List ℕ) → bytes_cmp a a ≡ eq
bytes_same [] = refl
bytes_same (x ∷ xs) = ground (arith, bytes_same xs)

bytes_antisym : (a b : List ℕ) → bytes_cmp a b ≡ eq → a ≡ b
bytes_antisym [] [] h = refl
bytes_antisym [] (y ∷ ys) h = cc
bytes_antisym (x ∷ xs) [] h = cc
bytes_antisym (x ∷ xs) (y ∷ ys) h = ground (arith, bytes_antisym xs ys)

bytes_flip : (a b : List ℕ) → bytes_cmp b a ≡ reverse (bytes_cmp a b)
bytes_flip [] [] = refl
bytes_flip [] (y ∷ ys) = refl
bytes_flip (x ∷ xs) [] = refl
bytes_flip (x ∷ xs) (y ∷ ys) = ground (arith, bytes_flip xs ys)

bytes_chain : (a b c : List ℕ) → bytes_cmp a b ≡ lt → bytes_cmp b c ≡ lt → bytes_cmp a c ≡ lt
bytes_chain [] [] c h k = cc
bytes_chain [] (y ∷ ys) [] h k = cc
bytes_chain [] (y ∷ ys) (z ∷ zs) h k = refl
bytes_chain (x ∷ xs) [] c h k = cc
bytes_chain (x ∷ xs) (y ∷ ys) [] h k = cc
bytes_chain (x ∷ xs) (y ∷ ys) (z ∷ zs) h k = ground (arith, bytes_chain xs ys zs)

pub bytes_cmp-IsTotal : IsTotal bytes_cmp
bytes_cmp-IsTotal = record {
  same = bytes_same;
  antisym = bytes_antisym;
  flip = bytes_flip;
  chain = bytes_chain;
}

instance abbrev pub bytes_ord : Ord (List ℕ)
bytes_ord = record { cmp = bytes_cmp; total = bytes_cmp-IsTotal }

-- A type that compares as the values of an injective function, such as a newtype's field.
module _ {ℓ κ} {A : Type ℓ} {B : Type κ} (f : A → B) (inj : (x y : A) → f x ≡ f y → x ≡ y)
    ⦃b : Ord B⦄ where
  abbrev pub via_cmp : A → A → Ordering
  via_cmp x y = b.cmp (f x) (f y)

  pub via_cmp-IsTotal : IsTotal via_cmp
  via_cmp-IsTotal = record {
    same = λ x. b.same (f x);
    antisym = λ x y h. inj x y (b.antisym (f x) (f y) h);
    flip = λ x y. b.flip (f x) (f y);
    chain = λ x y z. b.chain (f x) (f y) (f z);
  }

  abbrev pub via_ord : Ord A
  via_ord = record { cmp = via_cmp; total = via_cmp-IsTotal }
