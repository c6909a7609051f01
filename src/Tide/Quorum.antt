-- ===== src/Tide/Quorum.antt =====
-- When `try_build_commit` builds a commit, in terms of the votes for each ballot.
use amunchain.Base.{
  ℕ, ◌≤◌, ◌<◌, ◌≡◌, ◌≢◌, ◌↔◌, refl, sym, ap, ◌∙◌, subst, inl, inr, [], ◌∷◌, none, some, All,
  Bool-cases, Option-cases, arith, leb→le, leb, length,
}
use amunchain.Order.{nat_ord, pair_ord, =?_iff}
use amunchain.BtreeMap.{get}
use amunchain.Types.{Commit, hash_ord}
use amunchain.Tide.{threshold, find_quorum, count_votes, build_from, try_build_commit, round_votes}
use amunchain.Tide.Count.{Ballot, votes_for, is_for, find_quorum_total}
use amunchain.Tide.Justified.{ballot_of, IsBuilt, build_from-IsBuilt}
use amunchain.Tide.State.{TideConfig, VoteMap, Votes, meta_ord}

build_from-none :
    (cfg : TideConfig) (h r : ℕ) (rm : VoteMap) (k : Ballot)
    → build_from cfg h r rm ≡ none
    → votes_for k rm < threshold cfg
unfolding build_from threshold
build_from-none cfg h r rm k e = elim (Bool-cases (leb (threshold cfg) (votes_for k rm))) [
  | inr l ↦ ground arith
  | inl l ↦ elim (Option-cases (find_quorum (threshold cfg) (count_votes rm []))) [
    | inr (b, f) ↦ absurd (cc (rw (f, build_from) at e))
    | inl f ↦ absurd (find_quorum_total (threshold cfg) k rm (omega arith) (leb→le _ _ l) f)
  ]
]

-- `try_build_commit` reads one round.
try_build_commit-build_from :
    (cfg : TideConfig) (votes : Votes) (h r : ℕ)
    → try_build_commit cfg votes h r ≡ build_from cfg h r (round_votes h r votes)
unfolding try_build_commit find_quorum count_votes get
try_build_commit-build_from cfg votes h r = elim (Option-cases (get h votes)) [
  | inl a ↦ rw (a, try_build_commit)
  | inr (hm, a) ↦ elim (Option-cases (get r hm)) [
    | inl b ↦ rw (a, try_build_commit) (rw b)
    | inr (rm, b) ↦ rw (a, try_build_commit) (rw b)
  ]
]

-- No commit is built exactly when every ballot is short of the threshold.
pub try_build_commit_exact :
    (cfg : TideConfig) (votes : Votes) (h r : ℕ)
    → (try_build_commit cfg votes h r ≡ none)
      ↔ ((k : Ballot) → votes_for k (round_votes h r votes) < threshold cfg)
try_build_commit_exact cfg votes h r =
    let e = try_build_commit-build_from cfg votes h r in
    let rm = round_votes h r votes in
    (
      λ n k. build_from-none cfg h r rm k (sym e ∙ n),
      λ short. elim (Option-cases (build_from cfg h r rm)) [
        | inl n ↦ e ∙ n
        | inr (c, b) ↦
            absurd (omega (arith, short (ballot_of c), (build_from-IsBuilt cfg h r rm c b).quorum))
      ],
    )

-- A commit that is built is for the asked height and round and for a ballot that reaches the
-- threshold, and carries the signatures that are stored for it.
pub try_build_commit-IsBuilt :
    (cfg : TideConfig) (votes : Votes) (h r : ℕ) (c : Commit)
    → try_build_commit cfg votes h r ≡ some c
    → IsBuilt cfg h r (round_votes h r votes) c
try_build_commit-IsBuilt cfg votes h r c s =
    build_from-IsBuilt cfg h r (round_votes h r votes) c
      (sym (try_build_commit-build_from cfg votes h r) ∙ s)

-- No two of the votes carry the same metadata.
abbrev pub MetasDiffer : VoteMap → Type 0
MetasDiffer [] = Unit
MetasDiffer ((vid, e) ∷ rm) = All (λ f. e.meta ≢ f.1.meta) rm × MetasDiffer rm

votes_for_absent : (k : Ballot) (rm : VoteMap) → All (λ f. k.1 ≢ f.1.meta) rm → votes_for k rm ≡ 0
unfolding votes_for
votes_for_absent k [] a = refl
votes_for_absent k ((vid, e) ∷ rm) a = elim (Bool-cases (is_for k e)) [
  | inl p ↦ absurd (a.0 (ap (λ b. b.1) ((=?_iff k (e.hash, e.meta)).0 p)))
  | inr p ↦ rw p (votes_for_absent k rm a.1)
]

votes_for_single : (k : Ballot) (rm : VoteMap) → MetasDiffer rm → votes_for k rm ≤ 1
unfolding votes_for
votes_for_single k [] a = omega arith
votes_for_single k ((vid, e) ∷ rm) a = elim (Bool-cases (is_for k e)) [
  | inl p ↦
      let q : k.1 ≡ e.meta = ap (λ b. b.1) ((=?_iff k (e.hash, e.meta)).0 p) in
      rw p
        (omega (arith, votes_for_absent k rm (subst (λ m. All (λ f. m ≢ f.1.meta) rm) (sym q) a.0)))
  | inr p ↦ rw p (votes_for_single k rm a.1)
]

-- With two validators or more, votes that each carry metadata of their own never make a commit,
-- even if all validators vote for one block.
pub own_metadata_blocks_commit :
    (cfg : TideConfig) (votes : Votes) (h r : ℕ)
    → 2 ≤ length cfg.validators
    → MetasDiffer (round_votes h r votes)
    → try_build_commit cfg votes h r ≡ none
unfolding threshold
own_metadata_blocks_commit cfg votes h r n m =
    (try_build_commit_exact cfg votes h r).1
      (λ k. omega (arith, votes_for_single k (round_votes h r votes) m))
