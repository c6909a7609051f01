-- ===== src/Base/Lists.antt =====
-- Lists measured and indexed by native numbers, under the library's names.
use Prim.Native.Nat.{ℕ, zero, suc, ◌+◌, ◌<◌}
use mathlib.Core.Path.{◌≡◌, refl, ap, subst}
use mathlib.Core.List.{List, [], ◌∷◌, ◌++◌, map}
use mathlib.Core.Option.{Option, none, some}
use mathlib.Core.Logic.{◌⊎◌, inl, inr}
use native.Mathlib.Omega.{arith}

module _ {ℓ} {A : Type ℓ} where
  abbrev pub length : List A → ℕ
  length [] = 0
  length (x ∷ xs) = suc (length xs)

  abbrev pub get_elem? : List A → ℕ → Option A
  get_elem? [] i = none
  get_elem? (x ∷ xs) zero = some x
  get_elem? (x ∷ xs) (suc i) = get_elem? xs i

  abbrev pub take : ℕ → List A → List A
  take zero xs = []
  take (suc n) [] = []
  take (suc n) (x ∷ xs) = x ∷ take n xs

  abbrev pub drop : ℕ → List A → List A
  drop zero xs = xs
  drop (suc n) [] = []
  drop (suc n) (x ∷ xs) = drop n xs

  pub append_assoc : (xs ys zs : List A) → (xs ++ ys) ++ zs ≡ xs ++ (ys ++ zs)
  append_assoc [] ys zs = refl
  append_assoc (x ∷ xs) ys zs = ap (λ l. x ∷ l) (append_assoc xs ys zs)

  pub append_nil : (xs : List A) → xs ++ [] ≡ xs
  append_nil [] = refl
  append_nil (x ∷ xs) = ap (λ l. x ∷ l) (append_nil xs)

  -- A list of known length is read off the front again.
  pub take-append : (n : ℕ) (xs ys : List A) → length xs ≡ n → take n (xs ++ ys) ≡ xs
  take-append zero [] ys h = refl
  take-append zero (x ∷ xs) ys h = absurd (omega arith)
  take-append (suc n) [] ys h = absurd (omega arith)
  take-append (suc n) (x ∷ xs) ys h = ap (λ l. x ∷ l) (take-append n xs ys (omega arith))

  pub drop-append : (n : ℕ) (xs ys : List A) → length xs ≡ n → drop n (xs ++ ys) ≡ ys
  drop-append zero [] ys h = refl
  drop-append zero (x ∷ xs) ys h = absurd (omega arith)
  drop-append (suc n) [] ys h = absurd (omega arith)
  drop-append (suc n) (x ∷ xs) ys h = drop-append n xs ys (omega arith)

  pub get_elem?-lt : (xs : List A) (i : ℕ) {x : A} → get_elem? xs i ≡ some x → i < length xs
  get_elem?-lt [] i h = absurd (cc h)
  get_elem?-lt (x ∷ xs) zero h = omega arith
  get_elem?-lt (x ∷ xs) (suc i) h = omega (arith, get_elem?-lt xs i h)

  pub length-append : (xs ys : List A) → length (xs ++ ys) ≡ length xs + length ys
  length-append [] ys = omega arith
  length-append (x ∷ xs) ys = omega (arith, length-append xs ys)

  pub List-cases : (xs : List A) → (xs ≡ []) ⊎ ((x : A) × (rest : List A) × (xs ≡ x ∷ rest))
  List-cases [] = inl refl
  List-cases (x ∷ xs) = inr (x, xs, refl)

  -- A predicate of every element, as a tuple.
  abbrev pub All {κ} : (A → Type κ) → List A → Type κ
  All Q [] = Unit
  All Q (a ∷ more) = Q a × All Q more

  pub All-imp {κ μ} :
      {P : A → Type κ} {Q : A → Type μ}
      → ((x : A) → P x → Q x)
      → (xs : List A) → All P xs
      → All Q xs
  All-imp f [] h = tt
  All-imp f (x ∷ xs) (p, h) = (f x p, All-imp f xs h)

  pub All-both {κ μ} :
      (P : A → Type κ) (Q : A → Type μ) (xs : List A)
      → All P xs
      → All Q xs
      → All (λ x. P x × Q x) xs
  All-both P Q [] p q = tt
  All-both P Q (x ∷ xs) p q = ((p.0, q.0), All-both P Q xs p.1 q.1)

  pub All-get_elem? {κ} :
      (P : A → Type κ) (xs : List A) (i : ℕ) (x : A) → All P xs → get_elem? xs i ≡ some x → P x
  All-get_elem? P [] i x a h = absurd (cc h)
  All-get_elem? P (y ∷ xs) zero x a h = let q : y ≡ x = cc h in subst P q a.0
  All-get_elem? P (y ∷ xs) (suc i) x a h = All-get_elem? P xs i x a.1 h

  pub All-append {κ} :
      (Q : A → Type κ) (front back : List A) → All Q front → All Q back → All Q (front ++ back)
  All-append Q [] back none' rest = rest
  All-append Q (a ∷ front) back (q, some') rest = (q, All-append Q front back some' rest)

pub length-map {ℓ κ} :
    {A : Type ℓ} {B : Type κ} (f : A → B) (xs : List A) → length (map f xs) ≡ length xs
length-map f [] = refl
length-map f (x ∷ xs) = ap suc (length-map f xs)

-- Parts of equal length can be read off the front.
pub split_front {ℓ} :
    {A : Type ℓ} (xs ys r s : List A)
    → length xs ≡ length ys
    → xs ++ r ≡ ys ++ s
    → (xs ≡ ys) × (r ≡ s)
split_front [] [] r s l h = (refl, h)
split_front [] (y ∷ ys) r s l h = absurd (omega arith)
split_front (x ∷ xs) [] r s l h = absurd (omega arith)
split_front (x ∷ xs) (y ∷ ys) r s l h =
    let t : xs ++ r ≡ ys ++ s = cc in
    let e : x ≡ y = cc in let (f, g) = split_front xs ys r s (omega arith) t in (cc, g)
