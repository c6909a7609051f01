-- ===== src/PeerScore.antt =====
-- src/networking/peer_score.rs: scores of peers, for signed 32-bit integers. An `Instant` is a
-- number of nanoseconds and an argument. Where a debug build panics on an overflow, a release build
-- wraps, and so does the model.
pub mod Exact
pub mod Streak
use amunchain.Base.{
  ℕ, ◌-◌, ◌*◌, ◌/◌, Bytes, Bool, true, false, Option, none, some, [], if◌then◌else◌,
}
use amunchain.Order.{bytes_ord}
use amunchain.BtreeMap.{BtreeMap, get, get_or, insert}
use amunchain.Ints.{
  ℤ, pos, negsuc, ◌+ℤ◌, ◌-ℤ◌, ◌*ℤ◌, leb_ℤ, ltb_ℤ, max_ℤ, min_ℤ, clamp, saturate, to_i32, wrap_i32,
}
use amunchain.Keystore.RateLimiter.{second}

pub record ScoreParams : Type 0 where
  pub good_inc : ℤ
  pub bad_inc : ℤ
  pub decay_per_min : ℤ
  pub ban_threshold : ℤ

-- `ScoreParams::default`
abbrev pub default_params : ScoreParams
default_params = record {
  good_inc = pos 1;
  bad_inc = pos 5;
  decay_per_min = pos 1;
  ban_threshold = pos 200;
}

pub data Decision : Type 0 where
  allow throttle ban : Decision

pub record PeerState : Type 0 where
  pub score : ℤ
  pub last : ℕ

pub record PeerScore : Type 0 where
  pub params : ScoreParams
  pub peers : BtreeMap Bytes PeerState

unfoldable pub new_scores : ScoreParams → PeerScore
new_scores params = record { params = params; peers = [] }

unfoldable pub score_of : Bytes → PeerScore → ℤ
score_of peer s = elim (get peer s.peers) [ none ↦ pos 0 | some p ↦ p.score ]

unfoldable pub decision_from_score : ScoreParams → ℤ → Decision
unfolding wrap_i32
decision_from_score params score =
    if leb_ℤ score (wrap_i32 (pos 0 -ℤ params.ban_threshold))
    then ban
    else if ltb_ℤ score (pos 0)
    then throttle
    else allow

-- Whole minutes since `last`, as the `i32` that the code makes of them.
abbrev pub minutes_since : ℕ → ℕ → ℤ
minutes_since last now = to_i32 ((now - last) / second / 60)

-- The branches of `decay_inner` for the loss `d`.
unfoldable pub decayed : ℤ → ℤ → ℤ
unfolding wrap_i32
decayed d score =
    if ltb_ℤ (pos 0) score
    then max_ℤ (wrap_i32 (score -ℤ d)) (pos 0)
    else if ltb_ℤ score (pos 0)
    then min_ℤ (wrap_i32 (score +ℤ d)) (pos 0)
    else score

unfoldable pub decay_inner : ScoreParams → ℕ → PeerState → PeerState
unfolding decayed
decay_inner params now st =
    let mins = minutes_since st.last now in
    let d = saturate (params.decay_per_min *ℤ mins) in
    if leb_ℤ mins (pos 0) then st else record { score = decayed d st.score; last = now }

-- `clamp(-1000, 1000)`
abbrev pub bounded : ℤ → ℤ
bounded x = clamp (negsuc 999) (pos 1000) x

abbrev pub fresh_state : ℕ → PeerState
fresh_state now = record { score = pos 0; last = now }

abbrev pub put_peer : Bytes → PeerState → PeerScore → PeerScore
put_peer peer st s = record s { peers = insert peer st s.peers }

unfoldable pub observe_good : Bytes → ℕ → ℤ → PeerScore → Decision × PeerScore
unfolding decay_inner decision_from_score
observe_good peer now weight s =
    let st = decay_inner s.params now (get_or (fresh_state now) peer s.peers) in
    let gain = saturate (s.params.good_inc *ℤ max_ℤ weight (pos 1)) in
    let score = bounded (saturate (st.score +ℤ gain)) in
    (decision_from_score s.params score, put_peer peer (record st { score = score }) s)

unfoldable pub observe_bad : Bytes → ℕ → ℤ → PeerScore → Decision × PeerScore
unfolding decay_inner decision_from_score
observe_bad peer now weight s =
    let st = decay_inner s.params now (get_or (fresh_state now) peer s.peers) in
    let loss = saturate (s.params.bad_inc *ℤ max_ℤ weight (pos 1)) in
    let score = bounded (saturate (st.score -ℤ loss)) in
    (decision_from_score s.params score, put_peer peer (record st { score = score }) s)
