-- ===== src/Tide/Equivocation.antt =====
-- src/core/consensus/tide.rs: a validator's first vote of a round against its later ones.
use amunchain.Base.{ℕ, ◌≡◌, ◌≢◌, ◌⊎◌, Option, some, Result, ok, err}
use amunchain.Order.{nat_ord}
use amunchain.BtreeMap.{get}
use amunchain.Types.{ValidatorId, Vote, Commit, validator_ord}
use amunchain.Tide.{check_freshness, check_replay_counter, check_signature, round_votes, meta_of}
use amunchain.Tide.Effects.{Repeats}
use amunchain.Tide.State.{TideError, TideFinalizer, Slashing, Outside, Entry, double_vote}

-- Two votes that do not say the same.
abbrev pub Conflicts : Vote → Vote → Type 0
Conflicts v w = ¬ ((v.block_hash ≡ w.block_hash) × (meta_of v ≡ meta_of w))

-- What is stored for a voter in a round.
abbrev entry_at : {S : Type 0} → ValidatorId → ℕ → ℕ → TideFinalizer S → Option Entry
entry_at voter h r t = get voter (round_votes h r t.votes)

module _ {S : Type 0} ⦃slashes : Slashing S⦄ where
  -- The vote is reported as a double vote, or refused without a report by the check of its
  -- freshness, its counter or its signature.
  abbrev pub IsRejected :
      Outside
      → ℕ
      → Vote
      → TideFinalizer S
      → Result TideError (Option Commit) × TideFinalizer S
      → Type 0
  IsRejected out now w t (res, t') =
      ((res ≡ err double_vote) × (t'.slashing ≡ slashes.on_double_vote w.voter t.slashing))
      ⊎ ((e : TideError) × (res ≡ err e)
          × (t'.slashing ≡ t.slashing)
          × ((check_freshness now t.cfg w.sent_ts_ms w.ttl_ms ≢ ok tt)
              ⊎ (((check_replay_counter w.voter w.epoch w.msg_counter w.sent_ts_ms t).0 ≢ ok tt)
                  ⊎ (check_signature out w ≢ ok tt))))

  -- What is stored for the voter of `v` still says what `v` said.
  abbrev pub StillSays : Vote → TideFinalizer S → Type 0
  StillSays v t =
      (prev : Entry) × (entry_at v.voter v.height v.round t ≡ some prev) × Repeats prev v
