-- ===== src/Tide/Justified.antt =====
-- What stands behind a commit that is built: its ballot, and enough stored votes for it.
use amunchain.Base.{
  ℕ, ◌≤◌, ◌≡◌, ◌⊎◌, refl, subst, sym, ap, ◌∙◌, inl, inr, true, false, ◌&&◌, [], ◌∷◌, List, Option,
  none, some, Result, ok, err, if◌then◌else◌, Bool-cases, Option-cases, arith, All,
}
use amunchain.Order.{nat_ord, pair_ord, ◌=?◌}
use amunchain.Types.{Commit, validator_ord, hash_ord}
use amunchain.Tide.{
  round_votes, set_round, threshold, build_from, find_quorum, count_votes, make_commit, gather,
}
use amunchain.Tide.Count.{Ballot, votes_for, find_quorum-votes_for}
use amunchain.Tide.Steps.{round_votes-set_round, round_votes-set_round_self}
use amunchain.Tide.State.{TideConfig, TideError, VoteMap, Votes, VoteMeta, meta_ord}

-- What a commit finalizes: a block, under the metadata that its votes share.
abbrev pub meta_in : Commit → VoteMeta
meta_in c = record {
  epoch = c.epoch;
  msg_counter = c.msg_counter;
  sent_ts_ms = c.sent_ts_ms;
  ttl_ms = c.ttl_ms;
}

abbrev pub ballot_of : Commit → Ballot
ballot_of c = (c.block_hash, meta_in c)

-- What `build_from` says of the commit that it returns.
pub record IsBuilt (cfg : TideConfig) (h r : ℕ) (rm : VoteMap) (c : Commit) : Type 0 where
  pub height_eq : c.height ≡ h
  pub round_eq : c.round ≡ r
  pub quorum : threshold cfg ≤ votes_for (ballot_of c) rm
  pub signatures_eq : c.signatures ≡ gather c.block_hash (meta_in c) rm []

pub build_from-IsBuilt :
    (cfg : TideConfig) (h r : ℕ) (rm : VoteMap) (c : Commit)
    → build_from cfg h r rm ≡ some c
    → IsBuilt cfg h r rm c
unfolding build_from make_commit
build_from-IsBuilt cfg h r rm c e =
    elim (Option-cases (find_quorum (threshold cfg) (count_votes rm []))) [
      | inl f ↦ absurd (cc (rw (f, build_from) at e))
      | inr ((hash, meta), f) ↦
          let p : make_commit h r hash meta rm ≡ c = cc (rw (f, build_from) at e) in
          subst (IsBuilt cfg h r rm) p (record {
            height_eq = refl;
            round_eq = refl;
            quorum = find_quorum-votes_for (threshold cfg) rm f;
            signatures_eq = refl;
          })
    ]

-- Enough stored votes stand behind the commit.
abbrev pub IsJustified : TideConfig → Votes → Commit → Type 0
IsJustified cfg votes c =
    threshold cfg ≤ votes_for (ballot_of c) (round_votes c.height c.round votes)

-- No ballot loses a vote.
abbrev pub Grows : Votes → Votes → Type 0
Grows votes votes' =
    (h r : ℕ) (k : Ballot)
    → votes_for k (round_votes h r votes) ≤ votes_for k (round_votes h r votes')

pub set_round-Grows :
    (h r : ℕ) (rm : VoteMap) (votes : Votes)
    → ((k : Ballot) → votes_for k (round_votes h r votes) ≤ votes_for k rm)
    → Grows votes (set_round h r rm votes)
set_round-Grows h r rm votes more h' r' k =
    rw (round_votes-set_round h r h' r' rm votes) (pick (Bool-cases (h' =? h && r' =? r)))
  where
    pick :
        ((h' =? h && r' =? r) ≡ true) ⊎ ((h' =? h && r' =? r) ≡ false)
        → votes_for k (round_votes h' r' votes)
          ≤ votes_for k (if h' =? h && r' =? r then rm else round_votes h' r' votes)
    pick (inl e) =
        let p : h ≡ h' = ground arith in
        let q : r ≡ r' = ground arith in
        rw e (
          subst (λ a. votes_for k (round_votes a r' votes) ≤ votes_for k rm) p
            (subst (λ b. votes_for k (round_votes h b votes) ≤ votes_for k rm) q (more k)))
    pick (inr e) = rw e (omega arith)

-- The commits that a call returns.
abbrev pub commits_of : Result TideError (Option Commit) → List Commit
commits_of (ok (some c)) = c ∷ []
commits_of (ok none) = []
commits_of (err e) = []

-- Two commits for the same height and round are for the same block and metadata.
abbrev pub Agrees : Commit → Commit → Type 0
Agrees c d = c.height ≡ d.height → c.round ≡ d.round → ballot_of c ≡ ballot_of d

-- A quorum stands behind the commit that is built from the round just written.
pub build_from-IsJustified :
    (cfg : TideConfig) (h r : ℕ) (rm : VoteMap) (votes : Votes)
    → All (IsJustified cfg (set_round h r rm votes)) (commits_of (ok (build_from cfg h r rm)))
build_from-IsJustified cfg h r rm votes = elim (Option-cases (build_from cfg h r rm)) [
  | inl e ↦ rw e tt
  | inr (c, e) ↦
      let b = build_from-IsBuilt cfg h r rm c e in
      rw e (
        subst (λ k. threshold cfg ≤ votes_for (ballot_of c) k)
            (sym (
              ap (λ k. round_votes k c.round (set_round h r rm votes)) b.height_eq
              ∙ ap (λ k. round_votes h k (set_round h r rm votes)) b.round_eq
              ∙ round_votes-set_round_self h r rm votes))
            b.quorum,
        tt,
      )
]
