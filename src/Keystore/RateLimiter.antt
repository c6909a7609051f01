-- ===== src/Keystore/RateLimiter.antt =====
-- The rate limiter of src/core/security/keystore.rs. An `Instant` is a number of nanoseconds, and
-- the reading of the clock is an argument.
use Prim.Native.Nat.{min}
use amunchain.Base.{
  ℕ, ◌+◌, ◌-◌, ◌≤◌, ◌<◌, ◌≡◌, Bool, true, false, List, [], ◌∷◌, All, length, leb, if◌then◌else◌,
  arith, sat_add, Bool-cases, inl, inr, leb→le, u32_max,
}

pub record RateLimiter : Type 0 where
  pub window_start : ℕ
  pub count : ℕ
  pub limit_per_sec : ℕ

abbrev pub second : ℕ
second = 1_000_000_000

-- `RateLimiter::new`
unfoldable pub new_limiter : ℕ → ℕ → RateLimiter
new_limiter now limit_per_sec = record {
  window_start = now;
  count = 0;
  limit_per_sec = limit_per_sec;
}

-- The reset at the start of `RateLimiter::allow`; `duration_since` stops at zero.
unfoldable pub roll : ℕ → RateLimiter → RateLimiter
roll now r =
    if leb second (now - r.window_start) then record r { window_start = now; count = 0 } else r

-- `RateLimiter::allow`
unfoldable pub allow : ℕ → RateLimiter → Bool × RateLimiter
unfolding roll
allow now r =
    let r' = roll now r in
    if leb r'.limit_per_sec r'.count
    then (false, r')
    else (true, record r' { count = sat_add u32_max r'.count 1 })

-- The calls that a sequence of times gets through, and the limiter after them.
unfoldable pub count_allowed : List ℕ → RateLimiter → ℕ × RateLimiter
count_allowed [] r = (0, r)
count_allowed (now ∷ nows) r =
    let (yes', r1) = allow now r in
    let (n, r2) = count_allowed nows r1 in ((if yes' then 1 else 0) + n, r2)

allow-within :
    (now : ℕ) (r : RateLimiter)
    → r.limit_per_sec ≤ u32_max
    → now < r.window_start + second
    → r.count < r.limit_per_sec
    → allow now r ≡ (true, record r { count = r.count + 1 })
unfolding allow
allow-within now r l w c =
    let a : leb second (now - r.window_start) ≡ false = ground arith in
    let b : leb r.limit_per_sec r.count ≡ false = ground arith in
    let s : sat_add u32_max r.count 1 ≡ r.count + 1 = omega arith in rw (a, b, s, allow, roll)

allow-beyond :
    (now : ℕ) (r : RateLimiter)
    → now < r.window_start + second
    → r.limit_per_sec ≤ r.count
    → allow now r ≡ (false, r)
unfolding allow
allow-beyond now r w c =
    let a : leb second (now - r.window_start) ≡ false = ground arith in
    let b : leb r.limit_per_sec r.count ≡ true = ground arith in rw (a, b, allow, roll)

-- Calls within one window get through exactly as often as the limit leaves room, whatever their
-- order.
pub count_allowed_exact :
    (nows : List ℕ) (r : RateLimiter)
    → r.limit_per_sec ≤ u32_max
    → r.count ≤ r.limit_per_sec
    → All (λ now. now < r.window_start + second) nows
    → (count_allowed nows r).0 ≡ min (length nows) (r.limit_per_sec - r.count)
unfolding count_allowed
count_allowed_exact [] r l c h = omega arith
count_allowed_exact (now ∷ nows) r l c h = elim (Bool-cases (leb r.limit_per_sec r.count)) [
  | inl e ↦
      rw (allow-beyond now r h.0 (ground arith))
        (omega (arith, count_allowed_exact nows r l c h.1, leb→le r.limit_per_sec r.count e))
  | inr e ↦
      let more : r.count < r.limit_per_sec = ground arith in
      rw (allow-within now r l h.0 more) (
        omega
          (arith, count_allowed_exact nows (record r { count = r.count + 1 }) l (omega arith) h.1))
]
