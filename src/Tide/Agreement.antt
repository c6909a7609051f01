-- ===== src/Tide/Agreement.antt =====
-- The commits that a sequence of votes leads to, compared with one another.
use native.Mathlib.Nat.{le_trans}
use amunchain.Base.{
  ℕ, ◌≤◌, ◌≡◌, ◌≢◌, refl, subst, sym, ap, ◌∙◌, inl, inr, [], ◌∷◌, ◌++◌, List, Option, some, Result,
  Bool-cases, arith, All, All-append, All-imp, length, get_elem?, All-get_elem?,
}
use amunchain.Order.{nat_ord, pair_ord, ◌=?◌, =?_iff}
use amunchain.BtreeMap.Subset.{length-KeysIn}
use amunchain.Types.{Vote, Commit, validator_ord, hash_ord}
use amunchain.Tide.{process_vote_verified, round_votes, entry_of, threshold}
use amunchain.Tide.Count.{votes_for, votes_for_disjoint, votes_for-insert}
use amunchain.Tide.Effects.{
  VoteEffect, refused, conflicting, repeated, stored, process-VoteEffect, own_round,
}
use amunchain.Tide.Invariant.{IsValid, process_vote_verified-IsValid}
use amunchain.Tide.State.{TideFinalizer, TideError, Slashing, Outside, meta_ord}
use amunchain.Tide.Justified.{
  meta_in, ballot_of, IsJustified, Grows, set_round-Grows, commits_of, Agrees,
  build_from-IsJustified,
}

module _ {S : Type 0} where
  -- A valid round has no more voters than there are validators.
  length-round :
      (out : Outside) (t : TideFinalizer S) (h r : ℕ)
      → IsValid out t
      → length (round_votes h r t.votes) ≤ length t.cfg.validators
  length-round out t h r i =
      let (s, g) = i.rounds h r in
      length-KeysIn t.cfg.validators _ i.validators_sorted s (All-imp (λ e a. a.known) _ g)

  -- Two quorums among the validators intersect.
  justified_agree :
      (out : Outside) (t : TideFinalizer S) (c d : Commit)
      → IsValid out t
      → IsJustified t.cfg t.votes c
      → IsJustified t.cfg t.votes d
      → Agrees c d
  unfolding threshold
  justified_agree out t c d i p q eh er = elim (Bool-cases (ballot_of c =? ballot_of d)) [
    | inl e ↦ (=?_iff (ballot_of c) (ballot_of d)).0 e
    | inr e ↦
        let rm = round_votes d.height d.round t.votes in
        let differ : ballot_of c ≢ ballot_of d =
          λ same. cc (e, (=?_iff (ballot_of c) (ballot_of d)).1 same) in
        let p' : threshold t.cfg ≤ votes_for (ballot_of c) rm =
          subst (λ a. threshold t.cfg ≤ votes_for (ballot_of c) (round_votes a d.round t.votes)) eh
            (subst (λ b. threshold t.cfg ≤ votes_for (ballot_of c) (round_votes c.height b t.votes))
              er p) in
        absurd (
          omega (
            arith,
            votes_for_disjoint (ballot_of c) (ballot_of d) rm differ,
            length-round out t d.height d.round i,
          ))
  ]

module _ {S : Type 0} ⦃slashes : Slashing S⦄ where
  -- What one call, or a sequence of calls, leaves: the same validators, no vote lost, and a quorum
  -- behind every commit that it returned.
  record Progress (t t' : TideFinalizer S) (commits : List Commit) : Type 0 where
    cfg_eq : t'.cfg ≡ t.cfg
    grows : Grows t.votes t'.votes
    justified : All (IsJustified t.cfg t'.votes) commits

  Progress-trans :
      (t t' t'' : TideFinalizer S) (cs ds : List Commit)
      → Progress t t' cs
      → Progress t' t'' ds
      → Progress t t'' (cs ++ ds)
  Progress-trans t t' t'' cs ds p q = record {
    cfg_eq = q.cfg_eq ∙ p.cfg_eq;
    grows = λ h r k. le_trans (p.grows h r k) (q.grows h r k);
    justified =
        All-append _ cs ds
          (All-imp (λ c j. le_trans j (q.grows c.height c.round (ballot_of c))) cs p.justified)
          (subst (λ k. All (IsJustified k t''.votes) ds) p.cfg_eq q.justified);
  }

  effect-Progress :
      (out : Outside) (v : Vote) (t : TideFinalizer S)
      (res : Result TideError (Option Commit) × TideFinalizer S)
      → VoteEffect out v t res
      → Progress t res.1 (commits_of res.0)
  effect-Progress out v t res (refused e rp n h) =
      rw h (record { cfg_eq = refl; grows = λ a b k. omega arith; justified = tt })
  effect-Progress out v t res (conflicting prev rp a g d h) = rw h (record {
    cfg_eq = refl;
    grows = set_round-Grows v.height v.round _ t.votes (λ k. omega arith);
    justified = tt;
  })
  effect-Progress out v t res (repeated prev rp a g d h) = rw h (record {
    cfg_eq = refl;
    grows = set_round-Grows v.height v.round _ t.votes (λ k. omega arith);
    justified = tt;
  })
  effect-Progress out v t res (stored rp a g h) = rw h (record {
    cfg_eq = refl;
    grows =
        set_round-Grows v.height v.round _ t.votes
          (λ k. votes_for-insert k v.voter (entry_of v) (own_round v t) g);
    justified = build_from-IsJustified t.cfg v.height v.round _ t.votes;
  })

  -- The commits that a sequence of calls returns, in order, each call with its reading of the
  -- clock.
  unfoldable pub process_all :
      Outside → List (ℕ × Vote) → TideFinalizer S → List Commit × TideFinalizer S
  process_all out [] t = ([], t)
  process_all out ((now, v) ∷ vs) t =
      let (res, t') = process_vote_verified out now v t in
      let (commits, last) = process_all out vs t' in (commits_of res ++ commits, last)

  process_all-Progress :
      (out : Outside) (vs : List (ℕ × Vote)) (t : TideFinalizer S)
      → Progress t (process_all out vs t).1 (process_all out vs t).0
  unfolding process_all
  process_all-Progress out [] t = record {
    cfg_eq = refl;
    grows = λ a b k. omega arith;
    justified = tt;
  }
  process_all-Progress out ((now, v) ∷ vs) t =
      let one = effect-Progress out v t _ (process-VoteEffect out now v t) in
      let rest = process_all-Progress out vs (process_vote_verified out now v t).1 in
      Progress-trans t (process_vote_verified out now v t).1 _ _ _ one rest

  -- No call changes the settings.
  pub process_vote_verified-cfg :
      (out : Outside) (now : ℕ) (v : Vote) (t : TideFinalizer S)
      → (process_vote_verified out now v t).1.cfg ≡ t.cfg
  process_vote_verified-cfg out now v t =
      (effect-Progress out v t _ (process-VoteEffect out now v t)).cfg_eq

  pub process_all-cfg :
      (out : Outside) (vs : List (ℕ × Vote)) (t : TideFinalizer S)
      → (process_all out vs t).1.cfg ≡ t.cfg
  process_all-cfg out vs t = (process_all-Progress out vs t).cfg_eq

  pub process_all-IsValid :
      (out : Outside) (vs : List (ℕ × Vote)) (t : TideFinalizer S)
      → IsValid out t
      → IsValid out (process_all out vs t).1
  unfolding process_all
  process_all-IsValid out [] t i = i
  process_all-IsValid out ((now, v) ∷ vs) t i =
      process_all-IsValid out vs _ (process_vote_verified-IsValid out now v t i)

  commits_agree :
      (out : Outside) (vs : List (ℕ × Vote)) (t : TideFinalizer S)
      → IsValid out t
      → All (λ c. All (λ d. Agrees c d) (process_all out vs t).0) (process_all out vs t).0
  commits_agree out vs t i =
      let last = (process_all out vs t).1 in
      let p = process_all-Progress out vs t in
      let all : All (IsJustified last.cfg last.votes) (process_all out vs t).0 =
        subst (λ k. All (IsJustified k last.votes) (process_all out vs t).0) (sym p.cfg_eq)
          p.justified in
      let j = process_all-IsValid out vs t i in
      All-imp (λ c pc. All-imp (λ d pd. justified_agree out last c d j pc pd) _ all) _ all

  -- From a valid state, any two commits that a sequence of calls returns for one height and round
  -- finalize the same block under the same metadata, whatever the votes, their order and the clock.
  pub agreement :
      (out : Outside) (vs : List (ℕ × Vote)) (t : TideFinalizer S) (i j : ℕ) (c d : Commit)
      → IsValid out t
      → get_elem? (process_all out vs t).0 i ≡ some c
      → get_elem? (process_all out vs t).0 j ≡ some d
      → c.height ≡ d.height
      → c.round ≡ d.round
      → (c.block_hash ≡ d.block_hash) × (meta_in c ≡ meta_in d)
  agreement out vs t i j c d v gc gd eh er =
      let commits = (process_all out vs t).0 in
      let every = All-get_elem? _ commits i c (commits_agree out vs t v) gc in
      let same = All-get_elem? _ commits j d every gd eh er in
      (ap (λ b. b.0) same, ap (λ b. b.1) same)
