-- ===== src/Ints.antt =====
-- Signed integers, and Rust's `i32`: wrapping to 32 bits, saturating operations, `clamp`. An `i32`
-- is an integer in its range.
use amunchain.Base.{
  ℕ, suc, ◌+◌, ◌-◌, ◌*◌, ◌%◌, ◌^◌, ◌≤◌, ◌≡◌, Bool, true, false, leb, ltb, if◌then◌else◌, arith, ◌⊎◌,
  inl, inr, refl,
}

-- `negsuc n` is -(n + 1).
pub data ℤ : Type 0 where
  pos negsuc : ℕ → ℤ

-- How far an integer lies above zero, and how far below.
abbrev pub above : ℤ → ℕ
above (pos n) = n
above (negsuc n) = 0

abbrev pub below : ℤ → ℕ
below (pos n) = 0
below (negsuc n) = suc n

-- The difference of two natural numbers.
abbrev pub diff : ℕ → ℕ → ℤ
diff m n = if ltb m n then negsuc (n - suc m) else pos (m - n)

infixl 65 ◌+ℤ◌ ◌-ℤ◌
infixl 70 ◌*ℤ◌
infix 50 ◌≤ℤ◌
unfoldable pub ◌+ℤ◌ : ℤ → ℤ → ℤ
x +ℤ y = diff (above x + above y) (below x + below y)

unfoldable pub ◌-ℤ◌ : ℤ → ℤ → ℤ
x -ℤ y = diff (above x + below y) (below x + above y)

unfoldable pub ◌*ℤ◌ : ℤ → ℤ → ℤ
x *ℤ y = diff (above x * above y + below x * below y) (above x * below y + below x * above y)

abbrev pub ◌≤ℤ◌ : ℤ → ℤ → Type 0
x ≤ℤ y = above x + below y ≤ above y + below x

abbrev pub leb_ℤ : ℤ → ℤ → Bool
leb_ℤ x y = leb (above x + below y) (above y + below x)

abbrev pub ltb_ℤ : ℤ → ℤ → Bool
ltb_ℤ x y = ltb (above x + below y) (above y + below x)

abbrev pub max_ℤ : ℤ → ℤ → ℤ
max_ℤ x y = if leb_ℤ x y then y else x

abbrev pub min_ℤ : ℤ → ℤ → ℤ
min_ℤ x y = if leb_ℤ x y then x else y

abbrev pub clamp : ℤ → ℤ → ℤ → ℤ
clamp lo hi x = min_ℤ hi (max_ℤ lo x)

abbrev pub i32_min : ℤ
i32_min = negsuc (2 ^ 31 - 1)

abbrev pub i32_max : ℤ
i32_max = pos (2 ^ 31 - 1)

-- `as i32` of an unsigned number, and the value that an overflow leaves in a release build.
abbrev pub to_i32 : ℕ → ℤ
to_i32 n = let r = n % 2 ^ 32 in if ltb r (2 ^ 31) then pos r else negsuc (2 ^ 32 - suc r)

unfoldable pub wrap_i32 : ℤ → ℤ
wrap_i32 x = to_i32 (above x + (2 ^ 32 - below x % 2 ^ 32))

-- `saturating_add`, `saturating_sub` and `saturating_mul`.
abbrev pub saturate : ℤ → ℤ
saturate x = clamp i32_min i32_max x

-- What the arithmetic tactics need to know of an integer's two parts.
pub diff_parts : (m n : ℕ) → above (diff m n) + n ≡ below (diff m n) + m
diff_parts m n = ground arith

pub one_part : (x : ℤ) → (above x ≡ 0) ⊎ (below x ≡ 0)
one_part (pos n) = inr refl
one_part (negsuc n) = inl refl

pub same_parts : (x y : ℤ) → above x + below y ≡ above y + below x → x ≡ y
same_parts x y h = ground arith

pub wrap_i32_same : (x : ℤ) → i32_min ≤ℤ x → x ≤ℤ i32_max → wrap_i32 x ≡ x
unfolding wrap_i32
wrap_i32_same (pos n) l u =
    let e : (n + 2 ^ 32) % 2 ^ 32 ≡ n = omega arith in
    let small : ltb n (2 ^ 31) ≡ true = ground arith in rw (e, small)
wrap_i32_same (negsuc n) l u =
    let e : (0 + (2 ^ 32 - suc n % 2 ^ 32)) % 2 ^ 32 ≡ 2 ^ 32 - suc n = omega arith in
    let large : ltb (2 ^ 32 - suc n) (2 ^ 31) ≡ false = ground arith in
    let back : 2 ^ 32 - suc (2 ^ 32 - suc n) ≡ n = omega arith in rw (e, large, back)
