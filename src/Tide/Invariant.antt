-- ===== src/Tide/Invariant.antt =====
-- The invariant of the finalizer's state, under the calls that change it.
use amunchain.Base.{
  ℕ, ◌≡◌, ◌⊎◌, subst, sym, inl, inr, true, false, ◌&&◌, Option, Result, if◌then◌else◌, Bool-cases,
  arith, All,
}
use amunchain.Order.{nat_ord, ◌=?◌}
use amunchain.BtreeMap.{get, insert, IsSorted, insert-IsSorted, All-insert}
use amunchain.Types.{ValidatorId, Vote, Commit, validator_ord}
use amunchain.Tide.{process_vote_verified, round_votes, set_round, entry_of}
use amunchain.Tide.Steps.{IsAccepted, round_votes-set_round}
use amunchain.Tide.Effects.{VoteEffect, refused, conflicting, repeated, stored, process-VoteEffect}
use amunchain.Tide.State.{
  TideConfig, TideFinalizer, TideError, Slashing, Outside, Entry, VoteMap, Votes, new_finalizer,
}

-- The vote that an entry of a round keeps.
abbrev pub vote_at : ℕ → ℕ → ValidatorId × Entry → Vote
vote_at height round (vid, e) = record {
  height = height;
  round = round;
  epoch = e.meta.epoch;
  msg_counter = e.meta.msg_counter;
  sent_ts_ms = e.meta.sent_ts_ms;
  ttl_ms = e.meta.ttl_ms;
  block_hash = e.hash;
  voter = vid;
  signature = e.signature;
}

-- A stored round has one entry for each voter, and each entry was accepted: a validator's own
-- signature covers it.
abbrev pub IsGoodRound : Outside → TideConfig → ℕ → ℕ → VoteMap → Type 0
IsGoodRound out cfg h r rm = IsSorted rm × All (λ e. IsAccepted out (vote_at h r e) cfg) rm

pub record IsValid {S : Type 0} (out : Outside) (t : TideFinalizer S) : Type 0 where
  pub validators_sorted : IsSorted t.cfg.validators
  pub rounds : (h r : ℕ) → IsGoodRound out t.cfg h r (round_votes h r t.votes)

-- Writing a good round keeps all rounds good.
set_round-IsGoodRound :
    (out : Outside) (cfg : TideConfig) (h r : ℕ) (rm : VoteMap) (votes : Votes)
    → ((h' r' : ℕ) → IsGoodRound out cfg h' r' (round_votes h' r' votes))
    → IsGoodRound out cfg h r rm
    → (h' r' : ℕ) → IsGoodRound out cfg h' r' (round_votes h' r' (set_round h r rm votes))
set_round-IsGoodRound out cfg h r rm votes all good h' r' =
    subst (IsGoodRound out cfg h' r') (sym (round_votes-set_round h r h' r' rm votes))
      (pick (Bool-cases (h' =? h && r' =? r)))
  where
    pick :
        ((h' =? h && r' =? r) ≡ true) ⊎ ((h' =? h && r' =? r) ≡ false)
        → IsGoodRound out cfg h' r' (if h' =? h && r' =? r then rm else round_votes h' r' votes)
    pick (inl e) =
        let p : h ≡ h' = ground arith in
        let q : r ≡ r' = ground arith in
        rw e (
          subst (λ k. IsGoodRound out cfg k r' rm) p
            (subst (λ k. IsGoodRound out cfg h k rm) q good))
    pick (inr e) = rw e (all h' r')

pub insert-IsGoodRound :
    (out : Outside) (cfg : TideConfig) (v : Vote) (rm : VoteMap)
    → IsAccepted out v cfg
    → IsGoodRound out cfg v.height v.round rm
    → IsGoodRound out cfg v.height v.round (insert v.voter (entry_of v) rm)
insert-IsGoodRound out cfg v rm a (s, g) = (
  insert-IsSorted v.voter (entry_of v) rm s,
  All-insert (λ vid e. IsAccepted out (vote_at v.height v.round (vid, e)) cfg) v.voter (entry_of v)
      rm a g,
)

module _ {S : Type 0} ⦃slashes : Slashing S⦄ where
  effect-IsValid :
      (out : Outside) (v : Vote) (t : TideFinalizer S)
      (res : Result TideError (Option Commit) × TideFinalizer S)
      → VoteEffect out v t res
      → IsValid out t
      → IsValid out res.1
  effect-IsValid out v t res (refused e rp n h) i =
      rw h (record { validators_sorted = i.validators_sorted; rounds = i.rounds })
  effect-IsValid out v t res (conflicting prev rp a g d h) i = rw h (record {
    validators_sorted = i.validators_sorted;
    rounds =
        set_round-IsGoodRound out t.cfg v.height v.round _ t.votes i.rounds
          (i.rounds v.height v.round);
  })
  effect-IsValid out v t res (repeated prev rp a g d h) i = rw h (record {
    validators_sorted = i.validators_sorted;
    rounds =
        set_round-IsGoodRound out t.cfg v.height v.round _ t.votes i.rounds
          (i.rounds v.height v.round);
  })
  effect-IsValid out v t res (stored rp a g h) i = rw h (record {
    validators_sorted = i.validators_sorted;
    rounds =
        set_round-IsGoodRound out t.cfg v.height v.round _ t.votes i.rounds
          (insert-IsGoodRound out t.cfg v _ a (i.rounds v.height v.round));
  })

  -- A valid state stays valid, whatever the vote and the clock.
  pub process_vote_verified-IsValid :
      (out : Outside) (now : ℕ) (v : Vote) (t : TideFinalizer S)
      → IsValid out t
      → IsValid out (process_vote_verified out now v t).1
  process_vote_verified-IsValid out now v t =
      effect-IsValid out v t _ (process-VoteEffect out now v t)

  -- A new finalizer is valid.
  pub new_finalizer-IsValid :
      (out : Outside) (cfg : TideConfig) (s : S)
      → IsSorted cfg.validators
      → IsValid out (new_finalizer cfg s)
  unfolding new_finalizer get
  new_finalizer-IsValid out cfg s h = record { validators_sorted = h; rounds = λ h r. (tt, tt) }
