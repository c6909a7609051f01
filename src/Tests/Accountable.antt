-- ===== src/Tests/Accountable.antt =====
-- The theorems on two accepted commits, applied to commits of three validators.
use amunchain.Base.{◌≡◌, ◌<◌, refl, [], ◌∷◌, ok, arith, All}
use amunchain.Order.{pair_ord}
use amunchain.BtreeMap.{IsSorted, get}
use amunchain.Types.{ValidatorId, Commit, validator_ord, hash_ord, as_public_key_bytes}
use amunchain.Types.Codec.{encode_canonical}
use amunchain.Keystore.{verify_pubkey_bytes}
use amunchain.Signing.{
  vote_signing_bytes_auto, vote_signing_bytes_v1, vote_signing_bytes_v2, to_be_bytes,
}
use amunchain.Tide.{process_commit_verified, threshold, check_freshness, check_signature}
use amunchain.Tide.State.{meta_ord, noop_slashing}
use amunchain.Tide.Accountable.{commits_accountable, honest_commits_agree, Signer, Signs}
use amunchain.Tide.{all_known, check_signatures}
use amunchain.Types.{Signature}
use amunchain.BtreeMap.{BtreeMap, BtreeSet}
use amunchain.Base.{length, All, ◌*◌, ◌<◌}
use amunchain.Tests.{outside, settings, validator, block, three, decided, three-IsSorted}

-- A commit for another block, with signatures of the same validators.
abbrev rival : Commit
rival = record decided { block_hash = block 8 }

decided-IsSorted : IsSorted decided.signatures
unfolding validator_ord
decided-IsSorted = ((refl, (refl, tt)), ((refl, tt), (tt, tt)))

passes : process_commit_verified outside 9 decided settings ≡ ok tt
unfolding process_commit_verified check_signatures check_signature all_known check_freshness
    threshold vote_signing_bytes_auto vote_signing_bytes_v1 vote_signing_bytes_v2 to_be_bytes
    encode_canonical as_public_key_bytes verify_pubkey_bytes validator_ord get
passes = refl

rival_passes : process_commit_verified outside 9 rival settings ≡ ok tt
unfolding process_commit_verified check_signatures check_signature all_known check_freshness
    threshold vote_signing_bytes_auto vote_signing_bytes_v1 vote_signing_bytes_v2 to_be_bytes
    encode_canonical as_public_key_bytes verify_pubkey_bytes validator_ord get
rival_passes = refl

commits_accountable_example :
    (both : BtreeMap ValidatorId Signature) × IsSorted both
    × (length three < 3 * length both)
    × All
        (λ e.
          Signer outside settings decided e × (sig' : Signature) × Signs outside rival (e.0, sig'))
        both
commits_accountable_example =
    commits_accountable outside 9 9 decided rival settings three-IsSorted decided-IsSorted
      decided-IsSorted passes rival_passes

-- The same block under the metadata of another time; the third validator is faulty.
abbrev again : Commit
again = record decided { sent_ts_ms = 9 }

again_passes : process_commit_verified outside 9 again settings ≡ ok tt
unfolding process_commit_verified check_signatures check_signature all_known check_freshness
    threshold vote_signing_bytes_auto vote_signing_bytes_v1 vote_signing_bytes_v2 to_be_bytes
    encode_canonical as_public_key_bytes verify_pubkey_bytes validator_ord get
again_passes = refl

abbrev third_faulty : BtreeSet ValidatorId
third_faulty = (validator 3, tt) ∷ []

honest_commits_agree_example : decided.block_hash ≡ again.block_hash
honest_commits_agree_example =
    honest_commits_agree outside 9 9 decided again settings third_faulty three-IsSorted
      decided-IsSorted decided-IsSorted (tt, tt) (omega arith)
      (λ vid sig sig' known free signed signed'. refl) passes again_passes
