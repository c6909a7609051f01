-- ===== src/Base/Words.antt =====
-- Unsigned machine integers as numbers: bounds and saturating arithmetic.
use Prim.Native.Nat.{ℕ, ◌+◌, ◌-◌, ◌*◌, ◌^◌, ◌<◌, min}
use mathlib.Core.List.{List}

-- The greatest `u32`, `u64` and `u128`.
abbrev pub u32_max : ℕ
u32_max = 2 ^ 32 - 1

abbrev pub u64_max : ℕ
u64_max = 2 ^ 64 - 1

abbrev pub u128_max : ℕ
u128_max = 2 ^ 128 - 1

-- `saturating_add` and `saturating_mul` at a greatest value; `saturating_sub` is `-`.
abbrev pub sat_add : ℕ → ℕ → ℕ → ℕ
sat_add top a b = min top (a + b)

abbrev pub sat_mul : ℕ → ℕ → ℕ → ℕ
sat_mul top a b = min top (a * b)

abbrev pub Bytes : Type 0
Bytes = List ℕ

-- `b` fits in a byte.
abbrev pub IsByte : ℕ → Type 0
IsByte b = b < 256
