-- ===== src/Hydro.antt =====
-- src/core/consensus/hydro.rs: the slot clock, the transcript for the random function and the test
-- of a hash against a target. Times are `u64` in milliseconds.
pub mod Laws
use Prim.Native.Nat.Ordering.{lt, eq, gt}
use amunchain.Base.{
  ℕ, ◌-◌, Bytes, Bool, ◌||◌, ◌++◌, Result, ok, err, ltb, if◌then◌else◌, sat_add, u64_max,
}
use amunchain.Order.{bytes_cmp}
use amunchain.Types.{H256}
use amunchain.Strings.{ascii}
use amunchain.Signing.{to_be_bytes}

pub data HydroError : Type 0 where
  time_window difficulty : HydroError

pub record HydroConfig : Type 0 where
  pub genesis_time_ms : ℕ
  pub slot_ms : ℕ
  pub skew_ms : ℕ
  pub epoch_randomness : Bytes

abbrev pub domain : Bytes
domain = ascii "Amunchain-Hydro-VRF-v1"

-- `HydroConfig::build_vrf_transcript`
unfoldable pub build_vrf_transcript : HydroConfig → ℕ → H256 → Bytes
build_vrf_transcript cfg slot parent_hash =
    domain ++ (to_be_bytes 8 slot ++ (parent_hash.bytes ++ cfg.epoch_randomness))

-- `HydroConfig::check_time_window_abs`
unfoldable pub check_time_window_abs : HydroConfig → ℕ → ℕ → Result HydroError ℕ
check_time_window_abs cfg current_abs_ms slot_start_abs_ms =
    let slot_end_abs_ms = sat_add u64_max slot_start_abs_ms cfg.slot_ms in
    let min_ok = slot_start_abs_ms - cfg.skew_ms in
    let max_ok = sat_add u64_max slot_end_abs_ms cfg.skew_ms in
    if ltb current_abs_ms min_ok || ltb max_ok current_abs_ms
    then err time_window
    else ok (current_abs_ms - cfg.genesis_time_ms)

-- `HydroConfig::verify_difficulty`: arrays of bytes compare lexicographically.
unfoldable pub verify_difficulty : H256 → Bytes → Result HydroError (Unit {0})
verify_difficulty hash target = elim (bytes_cmp hash.bytes target) [
  | lt ↦ ok tt
  | eq ↦ err difficulty
  | gt ↦ err difficulty
]
