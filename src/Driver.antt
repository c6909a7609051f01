-- ===== src/Driver.antt =====
-- src/core/consensus/driver.rs: the driver that feeds inbound messages to the finalizer. The
-- results of the calls are dropped, as in the source.
use amunchain.Base.{
  ℕ, ◌≡◌, ◌≢◌, ◌⊎◌, ◌&&◌, ◌==◌, ◌∙◌, refl, sym, ap, subst, All, All-imp, inl, inr, arith, Bool,
  true, false, List, [], ◌∷◌, Result, ok, err, if◌then◌else◌,
}
use amunchain.BtreeMap.{BtreeSet, IsSorted, contains}
use amunchain.Types.{ValidatorId, Vote, ConsensusMsg, vote, commit, validator_ord}
use amunchain.Tide.{process_vote_verified, process_commit_verified, check_signature, round_votes}
use amunchain.Tide.Agreement.{process_vote_verified-cfg}
use amunchain.Tide.Invariant.{
  IsValid, process_vote_verified-IsValid, new_finalizer-IsValid, vote_at,
}
use amunchain.Tide.State.{TideFinalizer, Outside, noop_slashing, new_config, new_finalizer}

pub data DriverError : Type 0 where
  invalid_validators : DriverError

-- `ConsensusDriver`, with `TideFinalizer<NoopSlashing>`.
pub record ConsensusDriver : Type 0 where
  pub tide : TideFinalizer (Unit {0})

abbrev is_empty {ℓ} : {A : Type ℓ} → List A → Bool
is_empty [] = true
is_empty (x ∷ xs) = false

-- `ConsensusDriver::new`
unfoldable pub new : Bool → BtreeSet ValidatorId → Result DriverError ConsensusDriver
unfolding new_config new_finalizer
new production validators =
    if is_empty validators
    then err invalid_validators
    else ok (record { tide = new_finalizer (new_config production validators) tt })

-- `ConsensusDriver::on_msg`; a commit is checked and changes nothing.
unfoldable pub on_msg : Outside → ℕ → ConsensusMsg → ConsensusDriver → ConsensusDriver
on_msg out now (vote v) d =
    let (dropped, tide) = process_vote_verified out now v d.tide in record { tide = tide }
on_msg out now (commit c) d = let dropped = process_commit_verified out now c d.tide.cfg in d

-- A sequence of messages, each with the reading of the clock when it is handled.
unfoldable pub on_msgs : Outside → List (ℕ × ConsensusMsg) → ConsensusDriver → ConsensusDriver
on_msgs out [] d = d
on_msgs out ((now, m) ∷ ms) d = on_msgs out ms (on_msg out now m d)

on_msg-IsValid :
    (out : Outside) (now : ℕ) (m : ConsensusMsg) (d : ConsensusDriver)
    → IsValid out d.tide
    → IsValid out (on_msg out now m d).tide
unfolding on_msg
on_msg-IsValid out now (vote v) d i = process_vote_verified-IsValid out now v d.tide i
on_msg-IsValid out now (commit c) d i = i

on_msgs-IsValid :
    (out : Outside) (ms : List (ℕ × ConsensusMsg)) (d : ConsensusDriver)
    → IsValid out d.tide
    → IsValid out (on_msgs out ms d).tide
unfolding on_msgs
on_msgs-IsValid out [] d i = i
on_msgs-IsValid out ((now, m) ∷ ms) d i =
    on_msgs-IsValid out ms (on_msg out now m d) (on_msg-IsValid out now m d i)

on_msg-cfg :
    (out : Outside) (now : ℕ) (m : ConsensusMsg) (d : ConsensusDriver)
    → (on_msg out now m d).tide.cfg ≡ d.tide.cfg
unfolding on_msg
on_msg-cfg out now (vote v) d = process_vote_verified-cfg out now v d.tide
on_msg-cfg out now (commit c) d = refl

on_msgs-cfg :
    (out : Outside) (ms : List (ℕ × ConsensusMsg)) (d : ConsensusDriver)
    → (on_msgs out ms d).tide.cfg ≡ d.tide.cfg
unfolding on_msgs
on_msgs-cfg out [] d = refl
on_msgs-cfg out ((now, m) ∷ ms) d = on_msgs-cfg out ms (on_msg out now m d) ∙ on_msg-cfg out now m d

-- What a stored entry is evidence of: its voter is one of the given validators, whose own signature
-- covers the vote, and in production the vote names an epoch.
pub record IsVoteOf (out : Outside) (production : Bool) (validators : BtreeSet ValidatorId)
    (v : Vote) : Type 0 where
  pub voter_given : contains v.voter validators ≡ true
  pub vote_signed : check_signature out v ≡ ok tt
  pub epoch_named : (production ≡ false) ⊎ (v.epoch ≢ 0)

abbrev pub HoldsVotesOf : Outside → Bool → BtreeSet ValidatorId → TideFinalizer (Unit {0}) → Type 0
HoldsVotesOf out production validators t =
    (h r : ℕ)
    → IsSorted (round_votes h r t.votes)
      × All (λ e. IsVoteOf out production validators (vote_at h r e)) (round_votes h r t.votes)

epoch_cases :
    (production : Bool) (epoch : ℕ)
    → (production && epoch == 0) ≡ false
    → (production ≡ false) ⊎ (epoch ≢ 0)
epoch_cases false epoch h = inl refl
epoch_cases true epoch h = inr (λ z. ground (arith, h, z))

new_config-HoldsVotesOf :
    (out : Outside) (production : Bool) (validators : BtreeSet ValidatorId)
    (t : TideFinalizer (Unit {0}))
    → t.cfg ≡ new_config production validators
    → IsValid out t
    → HoldsVotesOf out production validators t
unfolding new_config
new_config-HoldsVotesOf out production validators t e i h r =
    let (sorted, all) = i.rounds h r in
    (
      sorted,
      All-imp
          (λ x a. record {
            voter_given = ap (λ k. contains x.0 k.validators) (sym e) ∙ a.known;
            vote_signed = a.authentic;
            epoch_named =
                epoch_cases production x.1.meta.epoch
                  (ap (λ k. k.require_epoch && x.1.meta.epoch == 0) (sym e) ∙ a.epoch_set);
          })
          _ all,
    )

-- A driver that was created for a set of validators holds, after any messages at any times, for
-- each height and round at most one vote of each voter; every voter is one of exactly the
-- validators that were given, the voter's own signature covers the vote, and a production driver
-- holds no vote of epoch 0.
pub driver-HoldsVotesOf :
    (out : Outside) (production : Bool) (validators : BtreeSet ValidatorId) (d : ConsensusDriver)
    → IsSorted validators
    → new production validators ≡ ok d
    → (ms : List (ℕ × ConsensusMsg))
    → HoldsVotesOf out production validators (on_msgs out ms d).tide
unfolding new new_finalizer
driver-HoldsVotesOf out production [] d s h ms = absurd (cc)
driver-HoldsVotesOf out production (v ∷ vs) d s h ms =
    let cfg = new_config production (v ∷ vs) in
    let start : ConsensusDriver = record { tide = new_finalizer cfg tt } in
    let made : start ≡ d = cc h in
    let kept : (on_msgs out ms d).tide.cfg ≡ cfg =
      on_msgs-cfg out ms d ∙ sym (ap (λ (x : ConsensusDriver). x.tide.cfg) made) in
    new_config-HoldsVotesOf out production (v ∷ vs) (on_msgs out ms d).tide kept (
      on_msgs-IsValid out ms d (
        subst (λ (x : ConsensusDriver). IsValid out x.tide) made
          (new_finalizer-IsValid out cfg tt s)))
