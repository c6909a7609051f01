-- ===== src/Tests/Consensus.antt =====
-- The theorems on voting, applied to three validators.
use amunchain.Base.{
  ◌≡◌, ◌≢◌, ◌<◌, refl, ℕ, List, [], ◌∷◌, none, some, ok, err, arith, All, get_elem?, ap, false, ◌↔◌,
  ◌⊎◌,
}
use amunchain.Order.{pair_ord}
use amunchain.BtreeMap.{get, insert}
use amunchain.Types.{ValidatorId, Vote, validator_ord, hash_ord, as_public_key_bytes, vote}
use amunchain.Types.Codec.{encode_canonical}
use amunchain.Keystore.{verify_pubkey_bytes}
use amunchain.Signing.{
  vote_signing_bytes_auto, vote_signing_bytes_v1, vote_signing_bytes_v2, to_be_bytes,
}
use amunchain.Tide.{
  process_vote_verified, process_commit_verified, round_votes, threshold, try_build_commit,
  build_from, find_quorum, count_votes, gather, make_commit, check_freshness, check_replay_counter,
  is_replayed, check_signature, process_vote_inner, entry_of,
}
use amunchain.Tide.State.{
  TideError, replay, bad_signature, TideFinalizer, VoteMeta, Votes, meta_ord, noop_slashing,
  new_finalizer, new_config,
}
use amunchain.Tide.Invariant.{IsValid, new_finalizer-IsValid, process_vote_verified-IsValid}
use amunchain.Tide.Agreement.{agreement, process_all}
use amunchain.Tide.Justified.{meta_in}
use amunchain.Tide.Count.{Ballot, votes_for}
use amunchain.Base.{All, ◌<◌}
use amunchain.Tide.Certificates.{commit_is_certificate}
use amunchain.Tide.Quorum.{try_build_commit_exact, own_metadata_blocks_commit, MetasDiffer}
use amunchain.Tide.Offences.{slashing_is_just, SlashesJustly}
use amunchain.Tide.Replay.{accepted_not_replayed, forged_vote_blocks_voter}
use amunchain.Tide.Freshness.{check_freshness_window, InWindow}
use amunchain.Driver.{HoldsVotesOf, driver-HoldsVotesOf, ConsensusDriver, new, on_msgs}
use amunchain.Tests.{outside, fresh, ballot, settings, validator, three, decided, three-IsSorted}

fresh-IsValid : IsValid outside fresh
unfolding new_finalizer
fresh-IsValid = new_finalizer-IsValid outside settings tt three-IsSorted

abbrev first : Vote
first = ballot 0 0 0 7 1 1

abbrev votes : List (ℕ × Vote)
votes = (5, first) ∷ (6, ballot 0 0 0 7 2 1) ∷ (7, ballot 0 0 0 7 3 1) ∷ []

-- Two of the votes.
abbrev two : TideFinalizer (Unit {0})
two = record fresh {
  votes =
      (
        1,
        (0, (validator 1, entry_of first) ∷ (validator 2, entry_of (ballot 0 0 0 7 2 1)) ∷ []) ∷ [],
      )
      ∷ [];
}

decided_first : get_elem? (process_all outside votes fresh).0 0 ≡ some decided
unfolding process_all process_vote_verified check_freshness check_replay_counter check_signature
    as_public_key_bytes vote_signing_bytes_auto vote_signing_bytes_v1 encode_canonical
    verify_pubkey_bytes process_vote_inner try_build_commit build_from find_quorum count_votes
    threshold gather make_commit get insert validator_ord hash_ord meta_ord pair_ord is_replayed
    vote_signing_bytes_v2 to_be_bytes
decided_first = refl

agreement_example : (decided.block_hash ≡ decided.block_hash) × (meta_in decided ≡ meta_in decided)
agreement_example =
    agreement outside votes fresh 0 0 decided decided fresh-IsValid decided_first decided_first refl
      refl

two-IsValid : IsValid outside two
unfolding process_all process_vote_verified check_freshness check_replay_counter check_signature
    as_public_key_bytes vote_signing_bytes_auto vote_signing_bytes_v1 encode_canonical
    verify_pubkey_bytes process_vote_inner try_build_commit build_from find_quorum count_votes
    threshold gather make_commit get insert validator_ord hash_ord meta_ord pair_ord is_replayed
    vote_signing_bytes_v2 to_be_bytes
two-IsValid =
    process_vote_verified-IsValid outside 6 (ballot 0 0 0 7 2 1) _
      (process_vote_verified-IsValid outside 5 first fresh fresh-IsValid)

third_decides : (process_vote_verified outside 7 (ballot 0 0 0 7 3 1) two).0 ≡ ok (some decided)
unfolding process_all process_vote_verified check_freshness check_replay_counter check_signature
    as_public_key_bytes vote_signing_bytes_auto vote_signing_bytes_v1 encode_canonical
    verify_pubkey_bytes process_vote_inner try_build_commit build_from find_quorum count_votes
    threshold gather make_commit get insert validator_ord hash_ord meta_ord pair_ord is_replayed
    vote_signing_bytes_v2 to_be_bytes
third_decides = refl

commit_is_certificate_example :
    process_commit_verified outside 9 decided settings ≡ check_freshness 9 settings 0 0
commit_is_certificate_example =
    commit_is_certificate outside 7 (ballot 0 0 0 7 3 1) two decided two-IsValid third_decides 9

process_vote_verified-IsValid_example :
    IsValid outside (process_vote_verified outside 5 first fresh).1
process_vote_verified-IsValid_example =
    process_vote_verified-IsValid outside 5 first fresh fresh-IsValid

try_build_commit_exact_example :
    (try_build_commit settings two.votes 1 0 ≡ none)
    ↔ ((k : Ballot) → votes_for k (round_votes 1 0 two.votes) < threshold settings)
try_build_commit_exact_example = try_build_commit_exact settings two.votes 1 0

slashing_is_just_example :
    SlashesJustly outside
      (ballot 0 0 0 8 1 1)
      two
      (process_vote_verified outside 7 (ballot 0 0 0 8 1 1) two)
slashing_is_just_example = slashing_is_just outside 7 (ballot 0 0 0 8 1 1) two two-IsValid

abbrev full : Votes
full =
    (
      1,
      (
        0,
        (validator 1, entry_of first)
            ∷ (validator 2, entry_of first)
            ∷ (validator 3, entry_of first)
            ∷ [],
      )
          ∷ [],
    )
    ∷ []

full_decides : try_build_commit settings full 1 0 ≡ some decided
unfolding process_all process_vote_verified check_freshness check_replay_counter check_signature
    as_public_key_bytes vote_signing_bytes_auto vote_signing_bytes_v1 encode_canonical
    verify_pubkey_bytes process_vote_inner try_build_commit build_from find_quorum count_votes
    threshold gather make_commit get insert validator_ord hash_ord meta_ord pair_ord is_replayed
    vote_signing_bytes_v2 to_be_bytes
full_decides = refl

-- Another block in the same round.
abbrev other : Vote
other = ballot 0 0 0 8 1 1

-- A vote with a counter, one that repeats the counter, and one whose signature does not verify.
abbrev counted : Vote
counted = ballot 1 5 0 7 1 1

abbrev forged : Vote
forged = ballot 1 9 0 7 1 0

abbrev between : List (ℕ × Vote)
between = (6, ballot 0 0 0 7 2 1) ∷ []

counted_accepted : (process_vote_verified outside 5 counted fresh).0 ≡ ok none
unfolding process_all process_vote_verified check_freshness check_replay_counter check_signature
    as_public_key_bytes vote_signing_bytes_auto vote_signing_bytes_v1 encode_canonical
    verify_pubkey_bytes process_vote_inner try_build_commit build_from find_quorum count_votes
    threshold gather make_commit get insert validator_ord hash_ord meta_ord pair_ord is_replayed
    vote_signing_bytes_v2 to_be_bytes
counted_accepted = refl

others_differ : All (λ (e : ℕ × Vote). (validator 1 ≢ e.1.voter)) between
others_differ = (λ e. cc (ap (λ (v : ValidatorId). get_elem? v.bytes 0) e), tt)

accepted_not_replayed_example :
    let t' = (process_all outside between (process_vote_verified outside 5 counted fresh).1).1 in
    (e : TideError) × (process_vote_verified outside 8 counted t' ≡ (err e, t'))
accepted_not_replayed_example =
    accepted_not_replayed outside 5 counted fresh none (λ e. omega (arith, e)) counted_accepted
      between others_differ 8 counted refl refl (λ e. omega (arith, e)) (omega arith)

forged_vote_blocks_voter_example :
    let t' = (process_all outside between (process_vote_verified outside 5 forged fresh).1).1 in
    ((process_vote_verified outside 5 forged fresh).0 ≡ err bad_signature)
    × ((e : TideError) × (process_vote_verified outside 8 counted t' ≡ (err e, t')))
unfolding process_all process_vote_verified check_freshness check_replay_counter check_signature
    as_public_key_bytes vote_signing_bytes_auto vote_signing_bytes_v1 encode_canonical
    verify_pubkey_bytes process_vote_inner try_build_commit build_from find_quorum count_votes
    threshold gather make_commit get insert validator_ord hash_ord meta_ord pair_ord is_replayed
    vote_signing_bytes_v2 to_be_bytes
forged_vote_blocks_voter_example =
    forged_vote_blocks_voter outside 5 forged fresh bad_signature (λ e. omega (arith, e)) refl refl
      refl refl between others_differ 8 counted refl refl (λ e. omega (arith, e)) (omega arith)

-- Every validator votes for the block, each with a counter of its own.
abbrev scattered : Votes
scattered =
    (
      1,
      (
        0,
        (validator 1, entry_of (ballot 1 1 0 7 1 1))
            ∷ (validator 2, entry_of (ballot 1 2 0 7 2 1))
            ∷ [],
      )
          ∷ [],
    )
    ∷ []

scattered-MetasDiffer : MetasDiffer (round_votes 1 0 scattered)
unfolding process_all process_vote_verified check_freshness check_replay_counter check_signature
    as_public_key_bytes vote_signing_bytes_auto vote_signing_bytes_v1 encode_canonical
    verify_pubkey_bytes process_vote_inner try_build_commit build_from find_quorum count_votes
    threshold gather make_commit get insert validator_ord hash_ord meta_ord pair_ord is_replayed
    vote_signing_bytes_v2 to_be_bytes
scattered-MetasDiffer = ((λ e. omega (arith, ap (λ (m : VoteMeta). m.msg_counter) e), tt), (tt, tt))

own_metadata_blocks_commit_example : try_build_commit settings scattered 1 0 ≡ none
own_metadata_blocks_commit_example =
    own_metadata_blocks_commit settings scattered 1 0 (omega arith) scattered-MetasDiffer

check_freshness_window_example :
    ((check_freshness 100_000 settings 95_000 1_000 ≡ ok tt)
      ↔ InWindow 100_000 settings 95_000 1_000)
    × ((check_freshness 100_000 settings 95_000 1_000 ≡ ok tt)
        ⊎ (check_freshness 100_000 settings 95_000 1_000 ≡ err replay))
check_freshness_window_example =
    check_freshness_window 100_000 settings 95_000 1_000 (omega arith) (λ e. omega (arith, e))

abbrev driver : ConsensusDriver
driver = record { tide = fresh }

driver_made : new false three ≡ ok driver
unfolding new new_config new_finalizer
driver_made = refl

driver-HoldsVotesOf_example :
    HoldsVotesOf outside false three
      (on_msgs outside ((5, vote first) ∷ (6, vote other) ∷ []) driver).tide
driver-HoldsVotesOf_example =
    driver-HoldsVotesOf outside false three driver three-IsSorted driver_made
      ((5, vote first) ∷ (6, vote other) ∷ [])
