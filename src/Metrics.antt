-- ===== src/Metrics.antt =====
-- src/monitoring/metrics.rs: the creation of the metrics. The `prometheus` crate is a parameter:
-- making a gauge or a counter from a name and a help text, and registering it.
use amunchain.Base.{Option, Result, ok, ok_or}
use amunchain.Strings.{Text, ascii}
use amunchain.Results.{◌>>=◌}

pub data MetricsError : Type 0 where
  prom : MetricsError

pub record Prometheus (Registry Gauge Counter : Type 0) : Type 0 where
  pub new_registry : Registry
  pub int_gauge : Text → Text → Option Gauge
  pub int_counter : Text → Text → Option Counter
  pub register_gauge : Gauge → Registry → Option Registry
  pub register_counter : Counter → Registry → Option Registry

pub record Metrics (Registry Gauge Counter : Type 0) : Type 0 where
  pub registry : Registry
  pub p2p_peers : Gauge
  pub block_height : Gauge
  pub transactions_total : Counter
  pub p2p_replay_dropped_total : Counter
  pub p2p_invalid_msg_total : Counter
  pub p2p_rate_limited_total : Counter
  pub p2p_reputation_throttled_total : Counter
  pub p2p_banned_total : Counter

-- `Metrics::new`
unfoldable pub new_metrics :
    {Registry Gauge Counter : Type 0}
    → Prometheus Registry Gauge Counter
    → Result MetricsError (Metrics Registry Gauge Counter)
new_metrics p = do
  peers ← ok_or (p.int_gauge (ascii "amunchain_p2p_peers") (ascii "Connected peers")) prom
  height ← ok_or (p.int_gauge (ascii "amunchain_block_height") (ascii "Current block height")) prom
  txs ←
      ok_or (p.int_counter (ascii "amunchain_transactions_total") (ascii "Total tx processed")) prom
  replay ←
      ok_or
        (p.int_counter (ascii "amunchain_p2p_replay_dropped_total")
          (ascii "Dropped replay messages"))
        prom
  invalid ←
      ok_or
        (p.int_counter (ascii "amunchain_p2p_invalid_msg_total") (ascii "Invalid decoded messages"))
        prom
  limited ←
      ok_or
        (p.int_counter (ascii "amunchain_p2p_rate_limited_total") (ascii "Rate-limited messages"))
        prom
  throttled ←
      ok_or
        (p.int_counter (ascii "amunchain_p2p_reputation_throttled_total")
          (ascii "Reputation-based throttled messages"))
        prom
  banned ←
      ok_or (p.int_counter (ascii "amunchain_p2p_banned_total") (ascii "Banned peer events")) prom
  r1 ← ok_or (p.register_gauge peers p.new_registry) prom
  r2 ← ok_or (p.register_gauge height r1) prom
  r3 ← ok_or (p.register_counter txs r2) prom
  r4 ← ok_or (p.register_counter replay r3) prom
  r5 ← ok_or (p.register_counter invalid r4) prom
  r6 ← ok_or (p.register_counter limited r5) prom
  r7 ← ok_or (p.register_counter throttled r6) prom
  r8 ← ok_or (p.register_counter banned r7) prom
  ok (record {
    registry = r8;
    p2p_peers = peers;
    block_height = height;
    transactions_total = txs;
    p2p_replay_dropped_total = replay;
    p2p_invalid_msg_total = invalid;
    p2p_rate_limited_total = limited;
    p2p_reputation_throttled_total = throttled;
    p2p_banned_total = banned;
  })
