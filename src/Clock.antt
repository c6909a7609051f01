-- ===== src/Clock.antt =====
-- The system's clocks as the program reads them: src/core/consensus/tide.rs,
-- src/networking/peer_registry.rs and src/networking/peer_score.rs. A reading is the number of
-- milliseconds since 1970, a `u128`, or `none` for a time before.
use amunchain.Base.{ℕ, ◌-◌, ◌%◌, ◌^◌, Option, none, some, ltb, unwrap_or, if◌then◌else◌}

-- `TideFinalizer::now_ms`: the cast to `u64` keeps the low bits.
unfoldable pub finalizer_now_ms : Option ℕ → ℕ
finalizer_now_ms reading = elim reading [ none ↦ 0 | some ms ↦ ms % 2 ^ 64 ]

-- `now_ms` of the peer registry.
unfoldable pub registry_now_ms : Option ℕ → ℕ
registry_now_ms reading = unwrap_or 0 reading % 2 ^ 64

-- `InstantExt::saturating_duration_since`, for instants counted from a common start.
abbrev checked_duration_since : ℕ → ℕ → Option ℕ
checked_duration_since now earlier = if ltb now earlier then none else some (now - earlier)

unfoldable pub saturating_duration_since : ℕ → ℕ → ℕ
saturating_duration_since now earlier = unwrap_or 0 (checked_duration_since now earlier)
