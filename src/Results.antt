-- ===== src/Results.antt =====
-- Chains of fallible steps: `?`, an early return, and what a chain that succeeds went through.
use amunchain.Base.{
  ◌≡◌, refl, Bool, true, false, Option, none, some, Result, ok, err, ok_or, if◌then◌else◌,
}

module _ {E : Type 0} where
  infixl 5 ◌>>=◌ ◌>>◌
  abbrev pub ◌>>=◌ : {A B : Type 0} → Result E A → (A → Result E B) → Result E B
  ok a >>= f = f a
  err e >>= f = err e

  abbrev pub ◌>>◌ : {B : Type 0} → Result E (Unit {0}) → Result E B → Result E B
  m >> k = m >>= λ _. k

  -- `if condition { return Err(e) }`
  abbrev pub refuse : Bool → E → Result E (Unit {0})
  refuse c e = if c then err e else ok tt

  -- An early return that was not taken, and a step that gave a value.
  pub bind_ok :
      {A B : Type 0} (r : Result E A) (f : A → Result E B) {b : B}
      → (r >>= f) ≡ ok b
      → (a : A) × (r ≡ ok a) × (f a ≡ ok b)
  bind_ok (ok a) f h = (a, refl, h)
  bind_ok (err e) f h = absurd (cc h)

  pub refuse_ok :
      {B : Type 0} (c : Bool) (e : E) (k : Result E B) {b : B}
      → (refuse c e >> k) ≡ ok b
      → (c ≡ false) × (k ≡ ok b)
  refuse_ok true e k h = absurd (cc h)
  refuse_ok false e k h = (refl, h)

  pub refuse_last : (c : Bool) (e : E) → refuse c e ≡ ok tt → c ≡ false
  refuse_last true e h = absurd (cc h)
  refuse_last false e h = refl

  pub ok_or_ok : {A : Type 0} (o : Option A) (e : E) {a : A} → ok_or o e ≡ ok a → o ≡ some a
  ok_or_ok none e h = absurd (cc h)
  ok_or_ok (some a) e h = cc
