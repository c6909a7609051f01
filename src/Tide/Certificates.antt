-- ===== src/Tide/Certificates.antt =====
-- Commits that `process_vote_verified` returns, checked by `process_commit_verified`.
use amunchain.Base.{
  ℕ, ◌≤◌, ◌≡◌, refl, sym, ap, ◌∙◌, subst, inl, inr, true, false, ◌&&◌, [], ◌∷◌, Option, some,
  Result, ok, ◌==◌, length, All, Result-cases, arith,
}
use amunchain.Order.{pair_ord, =?_iff}
use amunchain.BtreeMap.{BtreeMap, contains, insert}
use amunchain.Types.{Signature, ValidatorId, Vote, Commit, validator_ord, hash_ord}
use amunchain.Tide.{
  check_freshness, check_signature, check_signatures, all_known, process_commit_verified, vote_in,
  process_vote_verified, threshold, build_from, entry_of,
}
use amunchain.Tide.Count.{is_for}
use amunchain.Tide.Gather.{length-select, All-select, gather-eq-select}
use amunchain.Tide.Steps.{IsAccepted}
use amunchain.Tide.Effects.{
  VoteEffect, refused, conflicting, repeated, stored, process-VoteEffect, own_round,
}
use amunchain.Tide.Invariant.{IsValid, IsGoodRound, vote_at, insert-IsGoodRound}
use amunchain.Tide.Justified.{ballot_of, meta_in, IsBuilt, build_from-IsBuilt}
use amunchain.Tide.State.{
  TideError, TideConfig, TideFinalizer, Slashing, Outside, Entry, VoteMap, meta_ord,
}

-- A signature that the loops of `process_commit_verified` let pass.
abbrev IsSigned : Outside → TideConfig → Commit → ValidatorId × Signature → Type 0
IsSigned out cfg c e =
    (contains e.0 cfg.validators ≡ true)
    × (check_signature out (vote_in c e.0 e.1) ≡ ok tt)
    × ((cfg.require_epoch && c.epoch == 0) ≡ false)

all_known-true :
    (out : Outside) (cfg : TideConfig) (c : Commit) (sigs : BtreeMap ValidatorId Signature)
    → All (IsSigned out cfg c) sigs
    → all_known cfg sigs ≡ true
unfolding all_known
all_known-true out cfg c [] a = refl
all_known-true out cfg c (e ∷ sigs) a = rw (a.0.0) (all_known-true out cfg c sigs a.1)

check_signatures_ok :
    (out : Outside) (cfg : TideConfig) (c : Commit) (sigs : BtreeMap ValidatorId Signature)
    → All (IsSigned out cfg c) sigs
    → check_signatures out c sigs ≡ ok tt
unfolding check_signatures
check_signatures_ok out cfg c [] a = refl
check_signatures_ok out cfg c (e ∷ sigs) a =
    rw (a.0.1, check_signatures) (check_signatures_ok out cfg c sigs a.1)

-- The vote that an entry for the commit's ballot keeps is the one that the commit shows.
vote_in-eq-vote_at :
    (cfg : TideConfig) (h r : ℕ) (rm : VoteMap) (c : Commit) (vid : ValidatorId) (e : Entry)
    → IsBuilt cfg h r rm c
    → ballot_of c ≡ (e.hash, e.meta)
    → vote_at h r (vid, e) ≡ vote_in c vid e.signature
vote_in-eq-vote_at cfg h r rm c vid e b q = sym (λ i. record {
  height = b.height_eq i;
  round = b.round_eq i;
  epoch = (q i).1.epoch;
  msg_counter = (q i).1.msg_counter;
  sent_ts_ms = (q i).1.sent_ts_ms;
  ttl_ms = (q i).1.ttl_ms;
  block_hash = (q i).0;
  voter = vid;
  signature = e.signature;
})

-- A commit built from a good round carries, for at least `threshold` validators, a signature
-- that verifies for the commit's own content.
built-IsSigned :
    (out : Outside) (cfg : TideConfig) (h r : ℕ) (rm : VoteMap) (c : Commit)
    → IsGoodRound out cfg h r rm
    → IsBuilt cfg h r rm c
    → All (IsSigned out cfg c) c.signatures × (threshold cfg ≤ length c.signatures)
built-IsSigned out cfg h r rm c (s, g) b =
    let e = b.signatures_eq ∙ gather-eq-select c.block_hash (meta_in c) rm s in
    (
      subst (All (IsSigned out cfg c)) (sym e) (
          All-select (IsSigned out cfg c) (λ e. IsAccepted out (vote_at h r e) cfg) (ballot_of c) rm
            each g),
      subst (λ l. threshold cfg ≤ length l) (sym e)
          (omega (arith, length-select (ballot_of c) rm, b.quorum)),
    )
  where
    each :
        (vid : ValidatorId) (e : Entry)
        → is_for (ballot_of c) e ≡ true
        → IsAccepted out (vote_at h r (vid, e)) cfg
        → IsSigned out cfg c (vid, e.signature)
    each vid e f a =
        let p =
          subst (λ v. IsAccepted out v cfg)
            (vote_in-eq-vote_at cfg h r rm c vid e b ((=?_iff (ballot_of c) (e.hash, e.meta)).0 f))
            a in
        (p.known, p.authentic, p.epoch_set)

-- Some signature is there, and with it the epoch rule.
epoch_of_signed :
    (out : Outside) (cfg : TideConfig) (c : Commit) (sigs : BtreeMap ValidatorId Signature)
    → All (IsSigned out cfg c) sigs
    → threshold cfg ≤ length sigs
    → (cfg.require_epoch && c.epoch == 0) ≡ false
unfolding threshold
epoch_of_signed out cfg c [] a q = absurd (omega arith)
epoch_of_signed out cfg c (e ∷ sigs) a q = a.0.2

built_accepted :
    (out : Outside) (cfg : TideConfig) (h r : ℕ) (rm : VoteMap) (c : Commit)
    → IsGoodRound out cfg h r rm
    → IsBuilt cfg h r rm c
    → (now : ℕ)
    → process_commit_verified out now c cfg ≡ check_freshness now cfg c.sent_ts_ms c.ttl_ms
unfolding process_commit_verified
built_accepted out cfg h r rm c g b now =
    let (signed, enough) = built-IsSigned out cfg h r rm c g b in
    elim (Result-cases (check_freshness now cfg c.sent_ts_ms c.ttl_ms)) [
      | inr (e, f) ↦ ground arith
      | inl (_, f) ↦ ground (
        arith,
        epoch_of_signed out cfg c c.signatures signed enough,
        all_known-true out cfg c c.signatures signed,
        check_signatures_ok out cfg c c.signatures signed,
      )
    ]

module _ {S : Type 0} ⦃slashes : Slashing S⦄ where
  effect_accepted :
      (out : Outside) (v : Vote) (t : TideFinalizer S)
      (res : Result TideError (Option Commit) × TideFinalizer S) (c : Commit)
      → VoteEffect out v t res
      → IsValid out t
      → res.0 ≡ ok (some c)
      → (now : ℕ)
      → process_commit_verified out now c t.cfg ≡ check_freshness now t.cfg c.sent_ts_ms c.ttl_ms
  effect_accepted out v t res c (refused e rp n h) i k = absurd (cc)
  effect_accepted out v t res c (conflicting prev rp a g d h) i k = absurd (cc)
  effect_accepted out v t res c (repeated prev rp a g d h) i k = absurd (cc)
  effect_accepted out v t res c (stored rp a g h) i k =
      let rm = insert v.voter (entry_of v) (own_round v t) in
      let built : build_from t.cfg v.height v.round rm ≡ some c = ground (arith, ap (λ x. x.0) h) in
      built_accepted out t.cfg v.height v.round rm c
        (insert-IsGoodRound out t.cfg v (own_round v t) a (i.rounds v.height v.round))
        (build_from-IsBuilt t.cfg v.height v.round rm c built)

  -- In a valid state, when processing a vote returns a commit, checking that commit under the same
  -- configuration gives exactly what its freshness check gives: signers, their number, the epoch
  -- rule and every signature pass.
  pub commit_is_certificate :
      (out : Outside) (now : ℕ) (v : Vote) (t : TideFinalizer S) (c : Commit)
      → IsValid out t
      → (process_vote_verified out now v t).0 ≡ ok (some c)
      → (later : ℕ)
      → process_commit_verified out later c t.cfg
        ≡ check_freshness later t.cfg c.sent_ts_ms c.ttl_ms
  commit_is_certificate out now v t c i k =
      effect_accepted out v t _ c (process-VoteEffect out now v t) i k
