-- ===== src/Tide/Effects.antt =====
-- What one call of `process_vote_verified` does to the state, in four cases.
use amunchain.Base.{
  ℕ, ◌≡◌, ◌≢◌, inl, inr, Bool, true, false, not, ◌||◌, Option, none, some, Result, ok, err,
  Bool-cases, Option-cases, arith,
}
use amunchain.Order.{◌=?◌, =?_iff, nat_ord}
use amunchain.BtreeMap.{BtreeMap, get, insert}
use amunchain.Types.{ValidatorId, Vote, Commit, hash_ord, validator_ord}
use amunchain.Tide.{
  process_vote_inner, process_vote_verified, round_votes, set_round, build_from, entry_of, meta_of,
}
use amunchain.Tide.Steps.{IsAccepted, process_vote_verified_cases, try_build_commit-set_round}
use amunchain.Tide.State.{
  TideError, TideFinalizer, Slashing, Outside, ReplayState, Entry, VoteMap, meta_ord, double_vote,
}

-- An entry says what the vote says.
abbrev pub Repeats : Entry → Vote → Type 0
Repeats prev v = (prev.hash ≡ v.block_hash) × (prev.meta ≡ meta_of v)

abbrev pub differs : Entry → Vote → Bool
differs prev v = not (prev.hash =? v.block_hash) || not (prev.meta =? meta_of v)

pub differs-false : (prev : Entry) (v : Vote) → differs prev v ≡ false → Repeats prev v
differs-false prev v h = (
  (=?_iff prev.hash v.block_hash).0 (ground arith),
  (=?_iff prev.meta (meta_of v)).0 (ground arith),
)

pub differs-true : (prev : Entry) (v : Vote) → differs prev v ≡ true → ¬ (Repeats prev v)
differs-true prev v h (p, q) =
    ground (arith, (=?_iff prev.hash v.block_hash).1 p, (=?_iff prev.meta (meta_of v)).1 q)

-- The votes of a vote's round before it is processed.
abbrev pub own_round : {S : Type 0} → Vote → TideFinalizer S → VoteMap
own_round v t = round_votes v.height v.round t.votes

module _ {S : Type 0} ⦃slashes : Slashing S⦄ where
  pub data VoteEffect (out : Outside) (v : Vote) (t : TideFinalizer S)
      (res : Result TideError (Option Commit) × TideFinalizer S) : Type 0 where
    refused :
        (e : TideError) (rp : BtreeMap ValidatorId ReplayState)
        → e ≢ double_vote
        → res ≡ (err e, record t { replay = rp })
        → VoteEffect out v t res
    conflicting :
        (prev : Entry) (rp : BtreeMap ValidatorId ReplayState)
        → IsAccepted out v t.cfg
        → get v.voter (own_round v t) ≡ some prev
        → ¬ (Repeats prev v)
        → res ≡ (
          err double_vote,
          record t {
            replay = rp;
            slashing = slashes.on_double_vote v.voter t.slashing;
            votes = set_round v.height v.round (own_round v t) t.votes;
          },
        )
        → VoteEffect out v t res
    repeated :
        (prev : Entry) (rp : BtreeMap ValidatorId ReplayState)
        → IsAccepted out v t.cfg
        → get v.voter (own_round v t) ≡ some prev
        → Repeats prev v
        → res ≡ (
          ok none,
          record t { replay = rp; votes = set_round v.height v.round (own_round v t) t.votes },
        )
        → VoteEffect out v t res
    stored :
        (rp : BtreeMap ValidatorId ReplayState)
        → IsAccepted out v t.cfg
        → get v.voter (own_round v t) ≡ none
        → res ≡ (
          ok (build_from t.cfg v.height v.round (insert v.voter (entry_of v) (own_round v t))),
          record t {
            replay = rp;
            votes =
                set_round v.height v.round (insert v.voter (entry_of v) (own_round v t)) t.votes;
          },
        )
        → VoteEffect out v t res

  inner_effect :
      (out : Outside) (v : Vote) (t : TideFinalizer S) (rp : BtreeMap ValidatorId ReplayState)
      → IsAccepted out v t.cfg
      → VoteEffect out v t (process_vote_inner v (record t { replay = rp }))
  unfolding process_vote_inner
  inner_effect out v t rp a = elim (Option-cases (get v.voter (own_round v t))) [
    | inl new ↦ stored rp a new (
        ground (
          arith,
          try_build_commit-set_round t.cfg v.height v.round
              (insert v.voter (entry_of v) (own_round v t)) t.votes,
        ))
    | inr (prev, old) ↦ elim (Bool-cases (differs prev v)) [
      | inl d ↦
          conflicting prev rp a old (differs-true prev v d) (rw (old, process_vote_inner) (rw d))
      | inr d ↦
          repeated prev rp a old (differs-false prev v d) (rw (old, process_vote_inner) (rw d))
    ]
  ]

  -- Every call has one of the four effects.
  pub process-VoteEffect :
      (out : Outside) (now : ℕ) (v : Vote) (t : TideFinalizer S)
      → VoteEffect out v t (process_vote_verified out now v t)
  process-VoteEffect out now v t = elim (process_vote_verified_cases out now v t) [
    | inl (e, rp, n, h) ↦ refused e rp n h
    | inr (rp, a, h) ↦ rw h (inner_effect out v t rp a)
  ]
