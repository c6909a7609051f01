-- ===== src/Tests.antt =====
-- Concrete validators, votes and collaborators on which the theorems are run.
mod Consensus
mod Accountable
mod Memory
mod Chain
mod Ledger
mod Registry
mod Keys
mod Node
mod Scores
use amunchain.Base.{
  ℕ, zero, suc, ◌≡◌, refl, Bytes, Bool, true, false, List, [], ◌∷◌, Option, none, some, length, leb,
  ◌==◌, if◌then◌else◌, arith,
}
use amunchain.Order.{Ord}
use amunchain.BtreeMap.{BtreeSet, IsSorted}
use amunchain.Types.{H256, Signature, ValidatorId, Vote, Commit, validator_ord}
use amunchain.Types.Codec.{Bincode, RoundTrips}
use amunchain.Tide.State.{TideConfig, TideFinalizer, Outside, new_config, new_finalizer}

abbrev pub replicate : ℕ → ℕ → Bytes
replicate zero b = []
replicate (suc n) b = b ∷ replicate n b

-- An encoder that keeps the bytes.
abbrev pub plain : Bincode Bytes
plain = record {
  to_bytes = λ v. some v;
  from_bytes = λ max bytes. if leb (length bytes) max then some bytes else none;
}

pub plain-RoundTrips : RoundTrips plain
plain-RoundTrips = record { reads_back = λ v bytes max h l. ground arith }

-- Signatures that begin with a one verify.
abbrev pub starts_with_one : Bytes → Bool
starts_with_one [] = false
starts_with_one (b ∷ bs) = b == 1

abbrev pub outside : Outside
outside = record { bincode = plain; verify = λ pk msg sig. starts_with_one sig }

abbrev pub validator : ℕ → ValidatorId
validator n = record { bytes = replicate 32 n }

abbrev pub signature : ℕ → Signature
signature n = record { bytes = replicate 64 n }

abbrev pub block : ℕ → H256
block n = record { bytes = replicate 32 n }

abbrev pub three : BtreeSet ValidatorId
three = (validator 1, tt) ∷ (validator 2, tt) ∷ (validator 3, tt) ∷ []

abbrev pub settings : TideConfig
settings = record {
  validators = three;
  max_clock_skew_ms = 10_000;
  max_ttl_ms = 60_000;
  require_epoch = false;
}

abbrev pub fresh : TideFinalizer (Unit {0})
fresh = record { cfg = settings; slashing = tt; votes = []; replay = [] }

-- A vote at height 1 and round 0: epoch, counter, time stamp, block, voter and signature.
abbrev pub ballot : ℕ → ℕ → ℕ → ℕ → ℕ → ℕ → Vote
ballot epoch counter sent b voter sig = record {
  height = 1;
  round = 0;
  epoch = epoch;
  msg_counter = counter;
  sent_ts_ms = sent;
  ttl_ms = 0;
  block_hash = block b;
  voter = validator voter;
  signature = signature sig;
}

abbrev pub decided : Commit
decided = record {
  height = 1;
  round = 0;
  epoch = 0;
  msg_counter = 0;
  sent_ts_ms = 0;
  ttl_ms = 0;
  block_hash = block 7;
  signatures =
      (validator 1, signature 1) ∷ (validator 2, signature 1) ∷ (validator 3, signature 1) ∷ [];
}

pub three-IsSorted : IsSorted three
unfolding validator_ord
three-IsSorted = ((refl, (refl, tt)), ((refl, tt), (tt, tt)))
