-- ===== src/Hydro/Laws.antt =====
-- src/core/consensus/hydro.rs: the slot window, the order of hashes as numbers, and what a
-- transcript names.
use Prim.Native.Nat.Ordering.{lt}
use native.Mathlib.Nat.{mul-le-mul_right, pow-suc}
use amunchain.Base.{
  ℕ, suc, ◌+◌, ◌-◌, ◌*◌, ◌^◌, ◌≤◌, ◌<◌, ◌≡◌, ◌↔◌, refl, Bytes, [], ◌∷◌, length, All, IsByte, ok,
  arith, u64_max, split_front, ap, sym, subst,
}
use amunchain.Order.{bytes_cmp}
use amunchain.Types.{H256, H256_bytes_injective}
use amunchain.Signing.{to_be_bytes}
use amunchain.Signing.Injective.{length-to_be_bytes, to_be_bytes_injective}
use amunchain.Hydro.{
  HydroConfig, domain, build_vrf_transcript, check_time_window_abs, verify_difficulty,
}

-- The number that bytes write, the highest first.
unfoldable pub from_be_bytes : Bytes → ℕ
from_be_bytes [] = 0
from_be_bytes (b ∷ bs) = b * 256 ^ length bs + from_be_bytes bs

from_be_bytes_lt : (bs : Bytes) → All IsByte bs → from_be_bytes bs < 256 ^ length bs
unfolding from_be_bytes
from_be_bytes_lt [] h = omega arith
from_be_bytes_lt (b ∷ bs) h =
    let p : suc b * 256 ^ length bs ≤ 256 * 256 ^ length bs =
      mul-le-mul_right (256 ^ length bs) h.0 in
    omega (arith, from_be_bytes_lt bs h.1, p, pow-suc 256 (length bs))

-- The lexicographic order of arrays of one length is the order of their numbers.
bytes_cmp_numeric :
    (a b : Bytes)
    → All IsByte a
    → All IsByte b
    → length a ≡ length b
    → (bytes_cmp a b ≡ lt) ↔ (from_be_bytes a < from_be_bytes b)
unfolding from_be_bytes
bytes_cmp_numeric [] [] h k l = (λ e. absurd (cc e), λ e. absurd (omega (arith, e)))
bytes_cmp_numeric [] (y ∷ b) h k l = absurd (omega (arith, l))
bytes_cmp_numeric (x ∷ a) [] h k l = absurd (omega (arith, l))
bytes_cmp_numeric (x ∷ a) (y ∷ b) h k l =
    let len : length a ≡ length b = omega (arith, l) in
    let big = 256 ^ length a in
    let same : y * 256 ^ length b ≡ y * big = ap (λ n. y * 256 ^ n) (sym len) in
    let la : from_be_bytes a < big = from_be_bytes_lt a h.1 in
    let lb : from_be_bytes b < big =
      subst (λ n. from_be_bytes b < 256 ^ n) (sym len) (from_be_bytes_lt b k.1) in
    let up : x < y → suc x * big ≤ y * big = λ i. mul-le-mul_right big i in
    let down : y < x → suc y * big ≤ x * big = λ i. mul-le-mul_right big i in
    let level : x ≡ y → x * big ≡ y * big = λ i. ap (λ n. n * big) i in
    let rest = bytes_cmp_numeric a b h.1 k.1 len in
    ground (arith, same, la, lb, up, down, level, rest)

-- A hash passes exactly when the number that it writes is below the target's.
pub verify_difficulty_numeric :
    (hash : H256) (target : Bytes)
    → All IsByte hash.bytes
    → All IsByte target
    → length hash.bytes ≡ length target
    → (verify_difficulty hash target ≡ ok tt) ↔ (from_be_bytes hash.bytes < from_be_bytes target)
unfolding verify_difficulty
verify_difficulty_numeric hash target h k l =
    let (f, g) = bytes_cmp_numeric hash.bytes target h k l in
    (λ e. f (ground arith), λ e. rw (g e, verify_difficulty))

-- While the times stay below the greatest `u64`, a time passes exactly when it is at most the
-- allowed skew before the slot or after its end, and the answer is the time since genesis.
pub check_time_window_exact :
    (cfg : HydroConfig) (now start : ℕ)
    → start + cfg.slot_ms + cfg.skew_ms ≤ u64_max
    → (check_time_window_abs cfg now start ≡ ok (now - cfg.genesis_time_ms))
      ↔ ((start ≤ now + cfg.skew_ms) × (now ≤ start + cfg.slot_ms + cfg.skew_ms))
unfolding check_time_window_abs
check_time_window_exact cfg now start h = (λ e. ground arith, λ (p, q). ground arith)

-- Transcripts agree only for the same slot, parent and randomness, for slots below `2 ^ 64` and
-- hashes of one length.
pub build_vrf_transcript_injective :
    (c d : HydroConfig) (s t : ℕ) (p q : H256)
    → s < 2 ^ 64
    → t < 2 ^ 64
    → length p.bytes ≡ length q.bytes
    → build_vrf_transcript c s p ≡ build_vrf_transcript d t q
    → (s ≡ t) × (p ≡ q) × (c.epoch_randomness ≡ d.epoch_randomness)
unfolding build_vrf_transcript
build_vrf_transcript_injective c d s t p q hs ht l e =
    let (x, e1) = split_front domain domain _ _ refl e in
    let (a, e2) =
      split_front (to_be_bytes 8 s) (to_be_bytes 8 t) _ _
        (omega (arith, length-to_be_bytes 8 s, length-to_be_bytes 8 t)) e1 in
    let (b, e3) = split_front p.bytes q.bytes c.epoch_randomness d.epoch_randomness l e2 in
    (to_be_bytes_injective 8 s t (omega arith) (omega arith) a, H256_bytes_injective p q b, e3)
