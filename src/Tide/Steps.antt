-- ===== src/Tide/Steps.antt =====
-- How the calls that process a vote can end, case by case.
use amunchain.Base.{
  ℕ, ◌≡◌, ◌≢◌, ap, ◌⊎◌, inl, inr, true, false, ◌&&◌, [], ok, err, ◌==◌, if◌then◌else◌, Bool-cases,
  Result-cases, arith,
}
use amunchain.Order.{◌=?◌, nat_ord}
use amunchain.BtreeMap.{BtreeMap, get, get_or, contains, insert, get-insert, get-insert_self}
use amunchain.Types.{ValidatorId, Vote, hash_ord, validator_ord}
use amunchain.Tide.{
  check_freshness, is_replayed, check_replay_counter, check_signature, process_vote_inner,
  process_vote_verified, round_votes, set_round, build_from, try_build_commit,
}
use amunchain.Tide.State.{
  TideError, TideConfig, TideFinalizer, Slashing, Outside, ReplayState, VoteMap, Votes, meta_ord,
  double_vote, unknown_validator,
}

-- Reading a round after one round was written.
pub round_votes-set_round :
    (h r h' r' : ℕ) (rm : VoteMap) (votes : Votes)
    → round_votes h' r' (set_round h r rm votes)
      ≡ (if h' =? h && r' =? r then rm else round_votes h' r' votes)
round_votes-set_round h r h' r' rm votes = ground (
  arith,
  get-insert h' h (insert r rm (get_or [] h votes)) votes,
  get-insert r' r rm (get_or [] h votes),
)

pub round_votes-set_round_self :
    (h r : ℕ) (rm : VoteMap) (votes : Votes) → round_votes h r (set_round h r rm votes) ≡ rm
round_votes-set_round_self h r rm votes = ground (arith, round_votes-set_round h r h r rm votes)

-- Writing back what was read changes no round.
pub round_votes-set_round_same :
    (h r h' r' : ℕ) (votes : Votes)
    → round_votes h' r' (set_round h r (round_votes h r votes) votes) ≡ round_votes h' r' votes
round_votes-set_round_same h r h' r' votes = elim (Bool-cases (h' =? h && r' =? r)) [
  | inl e ↦
      let p : h ≡ h' = ground arith in
      let q : r ≡ r' = ground arith in
      rw (round_votes-set_round h r h' r' (round_votes h r votes) votes, e) (cc)
  | inr e ↦ rw (round_votes-set_round h r h' r' (round_votes h r votes) votes, e)
]

-- Right after its round was written a commit is built from just that round.
pub try_build_commit-set_round :
    (cfg : TideConfig) (h r : ℕ) (rm : VoteMap) (votes : Votes)
    → try_build_commit cfg (set_round h r rm votes) h r ≡ build_from cfg h r rm
unfolding try_build_commit
try_build_commit-set_round cfg h r rm votes =
    rw (get-insert_self h (insert r rm (get_or [] h votes)) votes, try_build_commit)
      (rw (get-insert_self r rm (get_or [] h votes)))

-- The checks before `process_vote_inner` never report a double vote.
check_freshness_err :
    (now : ℕ) (cfg : TideConfig) (ts ttl : ℕ) (e : TideError)
    → check_freshness now cfg ts ttl ≡ err e
    → e ≢ double_vote
unfolding check_freshness
check_freshness_err now cfg ts ttl e h d = ground arith

check_signature_err :
    (out : Outside) (v : Vote) (e : TideError) → check_signature out v ≡ err e → e ≢ double_vote
unfolding check_signature
check_signature_err out v e h d = ground arith

-- What holds of a vote that reaches `process_vote_inner`.
pub record IsAccepted (out : Outside) (v : Vote) (cfg : TideConfig) : Type 0 where
  pub known : contains v.voter cfg.validators ≡ true
  pub authentic : check_signature out v ≡ ok tt
  pub epoch_set : (cfg.require_epoch && v.epoch == 0) ≡ false

-- The replay map after a message with a counter was let through.
abbrev pub recorded :
    ValidatorId → ℕ → ℕ → ℕ → BtreeMap ValidatorId ReplayState → BtreeMap ValidatorId ReplayState
recorded voter epoch ctr ts =
    insert voter (record { epoch = epoch; last_counter = ctr; last_sent_ts_ms = ts })

module _ {S : Type 0} ⦃slashes : Slashing S⦄ where
  -- The counter check refuses and changes nothing, or it accepts and records the message.
  pub check_replay_counter_cases :
      (voter : ValidatorId) (epoch ctr ts : ℕ) (t : TideFinalizer S)
      → (check_replay_counter voter epoch ctr ts t ≡ (err TideError.replay, t))
        ⊎ ((rp : BtreeMap ValidatorId ReplayState) × (check_replay_counter voter epoch ctr ts t
              ≡ (ok tt, record t { replay = rp }))
            × ((t.cfg.require_epoch && epoch == 0) ≡ false))
  unfolding check_replay_counter
  check_replay_counter_cases voter epoch ctr ts t =
      elim (Bool-cases (epoch == 0 && (ctr == 0 && ts == 0))) [
        | inl a ↦ elim (Bool-cases t.cfg.require_epoch) [
          | inl b ↦ inl (rw (a, b))
          | inr b ↦ inr (t.replay, rw (a, b), rw b)
        ]
        | inr a ↦ elim (Bool-cases (t.cfg.require_epoch && epoch == 0)) [
          | inl b ↦ inl (rw (a, b))
          | inr b ↦ elim (Bool-cases (is_replayed (get voter t.replay) epoch ctr ts)) [
            | inl c ↦ inl (rw (a, b, c))
            | inr c ↦ inr (recorded voter epoch ctr ts t.replay, rw (a, b, c), b)
          ]
        ]
      ]

  -- A vote is refused with the votes and the slashing untouched, or it is accepted and goes on
  -- to `process_vote_inner`; either way the replay map may have changed.
  pub process_vote_verified_cases :
      (out : Outside) (now : ℕ) (v : Vote) (t : TideFinalizer S)
      → ((e : TideError) × (rp : BtreeMap ValidatorId ReplayState) × (e ≢ double_vote)
          × (process_vote_verified out now v t ≡ (err e, record t { replay = rp })))
        ⊎ ((rp : BtreeMap ValidatorId ReplayState) × IsAccepted out v t.cfg
            × (process_vote_verified out now v t ≡ process_vote_inner v (record t { replay = rp })))
  unfolding process_vote_verified
  process_vote_verified_cases out now v t = elim (Bool-cases (contains v.voter t.cfg.validators)) [
    | inr k ↦ inl (unknown_validator, t.replay, λ d. cc, rw k)
    | inl k ↦ elim (Result-cases (check_freshness now t.cfg v.sent_ts_ms v.ttl_ms)) [
      | inr (e, f) ↦
          inl (e, t.replay, check_freshness_err now t.cfg v.sent_ts_ms v.ttl_ms e f, rw (k, f))
      | inl (_, f) ↦
          elim (check_replay_counter_cases v.voter v.epoch v.msg_counter v.sent_ts_ms t) [
            | inl c ↦ inl (TideError.replay, t.replay, λ d. cc, ground arith)
            | inr (rp, c, ep) ↦ elim (Result-cases (check_signature out v)) [
              | inr (e, s) ↦ inl (e, rp, check_signature_err out v e s, ground arith)
              | inl (_, s) ↦
                  inr (rp, record { known = k; authentic = s; epoch_set = ep }, ground arith)
            ]
          ]
    ]
  ]

  -- A vote that passes every check goes on to `process_vote_inner`.
  pub process_vote_passes :
      (out : Outside) (now : ℕ) (v : Vote) (t : TideFinalizer S)
      → contains v.voter t.cfg.validators ≡ true
      → check_freshness now t.cfg v.sent_ts_ms v.ttl_ms ≡ ok tt
      → (check_replay_counter v.voter v.epoch v.msg_counter v.sent_ts_ms t).0 ≡ ok tt
      → check_signature out v ≡ ok tt
      → (rp : BtreeMap ValidatorId ReplayState) × (process_vote_verified out now v t
          ≡ process_vote_inner v (record t { replay = rp }))
  unfolding process_vote_verified
  process_vote_passes out now v t k f c s =
      elim (check_replay_counter_cases v.voter v.epoch v.msg_counter v.sent_ts_ms t) [
        | inl refusal ↦ absurd (cc (ap (λ x. x.0) refusal, c))
        | inr (rp, accepted, _) ↦ (rp, ground arith)
      ]
