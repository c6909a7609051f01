-- ===== src/Tide/Offences.antt =====
-- Double votes: who is reported to the slashing hook, and when.
use amunchain.Base.{ℕ, ◌≡◌, ◌≢◌, ◌⊎◌, refl, ap, ◌∙◌, inl, inr, true, Option, some, Result, ok, err}
use amunchain.BtreeMap.{get, All-get}
use amunchain.Types.{Vote, Commit, validator_ord}
use amunchain.Tide.{check_signature, process_vote_verified, process_vote_inner, set_round}
use amunchain.Tide.Steps.{IsAccepted}
use amunchain.Tide.Effects.{
  VoteEffect, refused, conflicting, repeated, stored, process-VoteEffect, own_round, differs,
}
use amunchain.Tide.Invariant.{IsValid, vote_at}
use amunchain.Tide.State.{TideError, TideFinalizer, Slashing, Outside, Entry, double_vote}

-- Proof of an offence: two votes by one validator for one height and round, both with signatures
-- that verify, which say different things.
pub record IsOffence (out : Outside) (v w : Vote) : Type 0 where
  pub same_voter : w.voter ≡ v.voter
  pub same_height : w.height ≡ v.height
  pub same_round : w.round ≡ v.round
  pub first_signed : check_signature out w ≡ ok tt
  pub second_signed : check_signature out v ≡ ok tt
  pub conflict : ¬ (
      (w.block_hash ≡ v.block_hash)
      × (w.epoch ≡ v.epoch)
      × (w.msg_counter ≡ v.msg_counter)
      × (w.sent_ts_ms ≡ v.sent_ts_ms)
      × (w.ttl_ms ≡ v.ttl_ms))

module _ {S : Type 0} ⦃slashes : Slashing S⦄ where
  -- What a call does to the slashing: nothing, or one report with its proof.
  abbrev pub SlashesJustly :
      Outside → Vote → TideFinalizer S → Result TideError (Option Commit) × TideFinalizer S → Type 0
  SlashesJustly out v t res =
      ((res.0 ≢ err double_vote) × (res.1.slashing ≡ t.slashing))
      ⊎ ((res.0 ≡ err double_vote)
          × (res.1.slashing ≡ slashes.on_double_vote v.voter t.slashing)
          × ((w : Vote) × IsOffence out v w))

  effect-SlashesJustly :
      (out : Outside) (v : Vote) (t : TideFinalizer S)
      (res : Result TideError (Option Commit) × TideFinalizer S)
      → VoteEffect out v t res
      → IsValid out t
      → SlashesJustly out v t res
  effect-SlashesJustly out v t res (refused e rp n h) i =
      inl (λ d. n (cc (ap (λ x. x.0) h ∙ refl, d)), ap (λ x. x.1.slashing) h)
  effect-SlashesJustly out v t res (repeated prev rp a g d h) i =
      inl (λ d. cc (ap (λ x. x.0) h, d), ap (λ x. x.1.slashing) h)
  effect-SlashesJustly out v t res (stored rp a g h) i =
      inl (λ d. cc (ap (λ x. x.0) h, d), ap (λ x. x.1.slashing) h)
  effect-SlashesJustly out v t res (conflicting prev rp a g d h) i = inr (
    ap (λ x. x.0) h,
    ap (λ x. x.1.slashing) h,
    (
      vote_at v.height v.round (v.voter, prev),
      record {
        same_voter = refl;
        same_height = refl;
        same_round = refl;
        first_signed =
            (All-get (λ vid e. IsAccepted out (vote_at v.height v.round (vid, e)) t.cfg) v.voter _
              (i.rounds v.height v.round).1 g).authentic;
        second_signed = a.authentic;
        conflict = λ s. d (
          s.0,
          λ k. record { epoch = s.1 k; msg_counter = s.2 k; sent_ts_ms = s.3 k; ttl_ms = s.4 k },
        );
      },
    ),
  )

  -- In a valid state a call reports nobody and leaves the slashing alone, or it returns the
  -- double-vote error and reports the voter once, and two votes signed by that validator for the
  -- same height and round that differ prove the offence.
  pub slashing_is_just :
      (out : Outside) (now : ℕ) (v : Vote) (t : TideFinalizer S)
      → IsValid out t
      → SlashesJustly out v t (process_vote_verified out now v t)
  slashing_is_just out now v t i = effect-SlashesJustly out v t _ (process-VoteEffect out now v t) i

  pub conflict_inner :
      (v : Vote) (prev : Entry) (t : TideFinalizer S)
      → get v.voter (own_round v t) ≡ some prev
      → differs prev v ≡ true
      → process_vote_inner v t ≡ (
        err double_vote,
        record t {
          slashing = slashes.on_double_vote v.voter t.slashing;
          votes = set_round v.height v.round (own_round v t) t.votes;
        },
      )
  unfolding process_vote_inner
  conflict_inner v prev t g other = rw (g, process_vote_inner) (rw other)
