-- ===== src/Tide/Replay.antt =====
-- Replay protection by counters: what `check_replay_counter` remembers, and what it refuses.
use amunchain.Base.{
  ℕ, ◌≤◌, ◌≡◌, ◌≢◌, refl, sym, ap, ◌∙◌, inl, inr, true, [], ◌∷◌, List, Option, some, ok, err,
  Bool-cases, Result-cases, arith, All,
}
use amunchain.Order.{nat_ord}
use amunchain.BtreeMap.{BtreeMap, contains, get, get-insert_self, get-insert_ne}
use amunchain.Types.{ValidatorId, Vote, Commit, validator_ord}
use amunchain.Tide.{
  check_freshness, check_replay_counter, check_signature, process_vote_inner, process_vote_verified,
}
use amunchain.Tide.Steps.{recorded}
use amunchain.Tide.Agreement.{process_all}
use amunchain.Tide.State.{
  TideError, unknown_validator, TideFinalizer, Slashing, Outside, ReplayState,
}

-- The last message of the voter had the same epoch and at least this counter.
abbrev pub IsUsed : ValidatorId → ℕ → ℕ → BtreeMap ValidatorId ReplayState → Type 0
IsUsed voter epoch ctr replay =
    (prev : ReplayState) × (get voter replay ≡ some prev)
    × (prev.epoch ≡ epoch)
    × (ctr ≤ prev.last_counter)

module _ {S : Type 0} ⦃slashes : Slashing S⦄ where
  -- A used counter is refused, and nothing changes.
  check_replay_counter_used :
      (voter : ValidatorId) (epoch ctr ts : ℕ) (t : TideFinalizer S)
      → ctr ≢ 0
      → IsUsed voter epoch ctr t.replay
      → check_replay_counter voter epoch ctr ts t ≡ (err TideError.replay, t)
  unfolding check_replay_counter
  check_replay_counter_used voter epoch ctr ts t nz (prev, g, e, l) = ground arith

  -- A message with a counter that is let through uses its counter up.
  check_replay_counter_uses :
      (voter : ValidatorId) (epoch ctr ts : ℕ) (t : TideFinalizer S)
      → ctr ≢ 0
      → (check_replay_counter voter epoch ctr ts t).0 ≡ ok tt
      → check_replay_counter voter epoch ctr ts t
        ≡ (ok tt, record t { replay = recorded voter epoch ctr ts t.replay })
  unfolding check_replay_counter
  check_replay_counter_uses voter epoch ctr ts t nz h = ground arith

  -- A vote whose counter is used up is refused, and nothing changes.
  process_used :
      (out : Outside) (now : ℕ) (w : Vote) (t : TideFinalizer S)
      → w.msg_counter ≢ 0
      → IsUsed w.voter w.epoch w.msg_counter t.replay
      → (e : TideError) × (process_vote_verified out now w t ≡ (err e, t))
  unfolding process_vote_verified
  process_used out now w t nz u = elim (Bool-cases (contains w.voter t.cfg.validators)) [
    | inr k ↦ (unknown_validator, ground arith)
    | inl k ↦ elim (Result-cases (check_freshness now t.cfg w.sent_ts_ms w.ttl_ms)) [
      | inr (e, f) ↦ (e, ground arith)
      | inl (_, f) ↦ (
        TideError.replay,
        ground (arith, check_replay_counter_used w.voter w.epoch w.msg_counter w.sent_ts_ms t nz u),
      )
    ]
  ]

  process_vote_inner-replay :
      (v : Vote) (t : TideFinalizer S) → (process_vote_inner v t).1.replay ≡ t.replay
  unfolding process_vote_inner
  process_vote_inner-replay v t = ground arith

  -- A vote that gets past the counter check uses its counter up, whatever its signature.
  process_uses :
      (out : Outside) (now : ℕ) (v : Vote) (t : TideFinalizer S)
      → v.msg_counter ≢ 0
      → contains v.voter t.cfg.validators ≡ true
      → check_freshness now t.cfg v.sent_ts_ms v.ttl_ms ≡ ok tt
      → (check_replay_counter v.voter v.epoch v.msg_counter v.sent_ts_ms t).0 ≡ ok tt
      → (process_vote_verified out now v t).1.replay
        ≡ recorded v.voter v.epoch v.msg_counter v.sent_ts_ms t.replay
  unfolding process_vote_verified
  process_uses out now v t nz k f c =
      let rp = recorded v.voter v.epoch v.msg_counter v.sent_ts_ms t.replay in
      ground (
        arith,
        check_replay_counter_uses v.voter v.epoch v.msg_counter v.sent_ts_ms t nz c,
        process_vote_inner-replay v (record t { replay = rp }),
      )

  check_replay_counter_other :
      (voter j : ValidatorId) (epoch ctr ts : ℕ) (t : TideFinalizer S)
      → j ≢ voter
      → get j (check_replay_counter voter epoch ctr ts t).1.replay ≡ get j t.replay
  unfolding check_replay_counter
  check_replay_counter_other voter j epoch ctr ts t n = ground (
    arith,
    get-insert_ne j voter (record { epoch = epoch; last_counter = ctr; last_sent_ts_ms = ts })
        t.replay,
  )

  -- A vote by another voter leaves this voter's replay state alone.
  process_other :
      (out : Outside) (now : ℕ) (v : Vote) (t : TideFinalizer S) (j : ValidatorId)
      → j ≢ v.voter
      → get j (process_vote_verified out now v t).1.replay ≡ get j t.replay
  unfolding process_vote_verified
  process_other out now v t j n = ground (
    arith,
    check_replay_counter_other v.voter j v.epoch v.msg_counter v.sent_ts_ms t n,
    process_vote_inner-replay v
        (check_replay_counter v.voter v.epoch v.msg_counter v.sent_ts_ms t).1,
  )

  process_all_other :
      (out : Outside) (vs : List (ℕ × Vote)) (t : TideFinalizer S) (j : ValidatorId)
      → All (λ e. j ≢ e.1.voter) vs
      → get j (process_all out vs t).1.replay ≡ get j t.replay
  unfolding process_all
  process_all_other out [] t j a = refl
  process_all_other out ((now, v) ∷ vs) t j a =
      process_all_other out vs (process_vote_verified out now v t).1 j a.1
      ∙ process_other out now v t j a.0

  -- Once a vote has got past the counter check, votes by the same voter that carry a counter up to
  -- its own in the same epoch are refused and change nothing, until that voter is heard again.
  counter_spent :
      (out : Outside) (now : ℕ) (v : Vote) (t : TideFinalizer S)
      → v.msg_counter ≢ 0
      → contains v.voter t.cfg.validators ≡ true
      → check_freshness now t.cfg v.sent_ts_ms v.ttl_ms ≡ ok tt
      → (check_replay_counter v.voter v.epoch v.msg_counter v.sent_ts_ms t).0 ≡ ok tt
      → (others : List (ℕ × Vote)) → All (λ e. v.voter ≢ e.1.voter) others
      → (later : ℕ) (w : Vote) → w.voter ≡ v.voter
      → w.epoch ≡ v.epoch
      → w.msg_counter ≢ 0
      → w.msg_counter ≤ v.msg_counter
      → let t' = (process_all out others (process_vote_verified out now v t).1).1 in
        (e : TideError) × (process_vote_verified out later w t' ≡ (err e, t'))
  counter_spent out now v t nz k f c others a later w ev ee wnz le =
      process_used out later w _ wnz (
        record { epoch = v.epoch; last_counter = v.msg_counter; last_sent_ts_ms = v.sent_ts_ms },
        ap (λ j. get j (process_all out others (process_vote_verified out now v t).1).1.replay) ev
            ∙ process_all_other out others (process_vote_verified out now v t).1 v.voter a
            ∙ ap (get v.voter) (process_uses out now v t nz k f c)
            ∙ get-insert_self v.voter _ t.replay,
        sym ee,
        le,
      )

  pub accepted_checks :
      (out : Outside) (now : ℕ) (v : Vote) (t : TideFinalizer S) (r : Option Commit)
      → (process_vote_verified out now v t).0 ≡ ok r
      → (contains v.voter t.cfg.validators ≡ true)
        × (check_freshness now t.cfg v.sent_ts_ms v.ttl_ms ≡ ok tt)
        × ((check_replay_counter v.voter v.epoch v.msg_counter v.sent_ts_ms t).0 ≡ ok tt)
  unfolding process_vote_verified
  accepted_checks out now v t r h = (ground arith, ground arith, ground arith)

  -- After a vote with a counter was accepted, and while only other voters are heard, the same
  -- voter's votes in the same epoch with a counter up to that one are refused and change nothing.
  pub accepted_not_replayed :
      (out : Outside) (now : ℕ) (v : Vote) (t : TideFinalizer S) (r : Option Commit)
      → v.msg_counter ≢ 0
      → (process_vote_verified out now v t).0 ≡ ok r
      → (others : List (ℕ × Vote)) → All (λ e. v.voter ≢ e.1.voter) others
      → (later : ℕ) (w : Vote) → w.voter ≡ v.voter
      → w.epoch ≡ v.epoch
      → w.msg_counter ≢ 0
      → w.msg_counter ≤ v.msg_counter
      → let t' = (process_all out others (process_vote_verified out now v t).1).1 in
        (e : TideError) × (process_vote_verified out later w t' ≡ (err e, t'))
  accepted_not_replayed out now v t r nz h others a later w ev ee wnz le =
      let (k, f, c) = accepted_checks out now v t r h in
      counter_spent out now v t nz k f c others a later w ev ee wnz le

  -- A vote in a validator's name whose signature does not verify is refused, yet it spends the
  -- counter: the validator's own votes in that epoch with a counter up to the forged one are then
  -- refused, while only other voters are heard.
  pub forged_vote_blocks_voter :
      (out : Outside) (now : ℕ) (v : Vote) (t : TideFinalizer S) (bad : TideError)
      → v.msg_counter ≢ 0
      → contains v.voter t.cfg.validators ≡ true
      → check_freshness now t.cfg v.sent_ts_ms v.ttl_ms ≡ ok tt
      → (check_replay_counter v.voter v.epoch v.msg_counter v.sent_ts_ms t).0 ≡ ok tt
      → check_signature out v ≡ err bad
      → (others : List (ℕ × Vote)) → All (λ e. v.voter ≢ e.1.voter) others
      → (later : ℕ) (w : Vote) → w.voter ≡ v.voter
      → w.epoch ≡ v.epoch
      → w.msg_counter ≢ 0
      → w.msg_counter ≤ v.msg_counter
      → let t' = (process_all out others (process_vote_verified out now v t).1).1 in
        ((process_vote_verified out now v t).0 ≡ err bad)
        × ((e : TideError) × (process_vote_verified out later w t' ≡ (err e, t')))
  unfolding process_vote_verified
  forged_vote_blocks_voter out now v t bad nz k f c s others a later w ev ee wnz le = (
    ground (arith, check_replay_counter_uses v.voter v.epoch v.msg_counter v.sent_ts_ms t nz c),
    counter_spent out now v t nz k f c others a later w ev ee wnz le,
  )
