-- ===== src/Tide/Freshness.antt =====
-- `check_freshness` against the window that it stands for.
use amunchain.Base.{ℕ, ◌+◌, ◌≤◌, ◌<◌, ◌≡◌, ◌≢◌, ◌↔◌, ◌⊎◌, ok, err, arith, ◌^◌}
use amunchain.Tide.{check_freshness}
use amunchain.Tide.State.{TideConfig, TideError}

-- The window of a message that carries a timestamp: the clock works, the time to live is allowed,
-- and sender and receiver are at most the skew apart.
pub record InWindow (now : ℕ) (cfg : TideConfig) (sent_ts_ms ttl_ms : ℕ) : Type 0 where
  pub clock_set : now ≢ 0
  pub ttl_allowed : ttl_ms ≤ cfg.max_ttl_ms
  pub not_late : now ≤ sent_ts_ms + cfg.max_clock_skew_ms
  pub not_early : sent_ts_ms ≤ now + cfg.max_clock_skew_ms

-- For a 64-bit clock reading and a message with a timestamp the check passes exactly in the window,
-- which asks of the time to live only its cap, and whatever it refuses is the replay error.
pub check_freshness_window :
    (now : ℕ) (cfg : TideConfig) (sent_ts_ms ttl_ms : ℕ)
    → now < 2 ^ 64
    → sent_ts_ms ≢ 0
    → ((check_freshness now cfg sent_ts_ms ttl_ms ≡ ok tt) ↔ InWindow now cfg sent_ts_ms ttl_ms)
      × ((check_freshness now cfg sent_ts_ms ttl_ms ≡ ok tt)
          ⊎ (check_freshness now cfg sent_ts_ms ttl_ms ≡ err TideError.replay))
unfolding check_freshness
check_freshness_window now cfg sent_ts_ms ttl_ms n s =
    (((λ h. ground arith), (λ w. ground arith)), ground arith)
