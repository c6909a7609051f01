-- ===== src/Tide/State.antt =====
-- The data of src/core/consensus/tide.rs, and its calls as actions on the finalizer's state.
use amunchain.Base.{ℕ, ◌≡◌, Bytes, Bool, [], Result, ok, err, if◌then◌else◌}
use amunchain.Order.{Ord, via_ord, pair_ord, nat_ord}
use amunchain.BtreeMap.{BtreeMap, BtreeSet}
use amunchain.Types.{H256, Signature, ValidatorId, validator_ord}
use amunchain.Types.Codec.{Bincode}
use amunchain.Keystore.{Verifier}

pub data TideError : Type 0 where
  replay unknown_validator bad_signature double_vote not_enough_votes signing keystore : TideError

-- The `Slashing` trait. `&self` with interior state becomes a new value.
pub record Slashing (S : Type 0) : Type 0 where
  pub on_double_vote : ValidatorId → S → S

-- `NoopSlashing`
instance abbrev pub noop_slashing : Slashing (Unit {0})
noop_slashing = record { on_double_vote = λ offender s. s }

pub record TideConfig : Type 0 where
  pub validators : BtreeSet ValidatorId
  pub max_clock_skew_ms : ℕ
  pub max_ttl_ms : ℕ
  pub require_epoch : Bool

-- `TideConfig::new`; `production` is the cargo feature of that name.
unfoldable pub new_config : Bool → BtreeSet ValidatorId → TideConfig
new_config production validators = record {
  validators = validators;
  max_clock_skew_ms = 10_000;
  max_ttl_ms = 60_000;
  require_epoch = production;
}

pub record VoteMeta : Type 0 where
  pub epoch : ℕ
  pub msg_counter : ℕ
  pub sent_ts_ms : ℕ
  pub ttl_ms : ℕ

-- The derived order compares the fields in turn.
abbrev pub meta_fields : VoteMeta → ℕ × (ℕ × (ℕ × ℕ))
meta_fields m = (m.epoch, (m.msg_counter, (m.sent_ts_ms, m.ttl_ms)))

pub meta_fields_injective : (x y : VoteMeta) → meta_fields x ≡ meta_fields y → x ≡ y
meta_fields_injective x y e = λ i. record {
  epoch = (e i).0;
  msg_counter = (e i).1.0;
  sent_ts_ms = (e i).1.1.0;
  ttl_ms = (e i).1.1.1;
}

instance unfoldable pub meta_ord : Ord VoteMeta
meta_ord = via_ord meta_fields meta_fields_injective

pub record ReplayState : Type 0 where
  pub epoch : ℕ
  pub last_counter : ℕ
  pub last_sent_ts_ms : ℕ

-- `(H256, Signature, VoteMeta)`
pub record Entry : Type 0 where
  pub hash : H256
  pub signature : Signature
  pub meta : VoteMeta

abbrev pub VoteMap : Type 0
VoteMap = BtreeMap ValidatorId Entry

abbrev pub Votes : Type 0
Votes = BtreeMap ℕ (BtreeMap ℕ VoteMap)

pub record TideFinalizer (S : Type 0) : Type 0 where
  pub cfg : TideConfig
  pub slashing : S
  pub votes : Votes
  pub replay : BtreeMap ValidatorId ReplayState

-- `TideFinalizer::new`
unfoldable pub new_finalizer : {S : Type 0} → TideConfig → S → TideFinalizer S
new_finalizer cfg slashing = record { cfg = cfg; slashing = slashing; votes = []; replay = [] }

-- What the code calls in other crates and in the system.
pub record Outside : Type 0 where
  pub bincode : Bincode Bytes
  pub verify : Verifier

abbrev pub Action : Type 0 → Type 0 → Type 0
Action S A = TideFinalizer S → Result TideError A × TideFinalizer S

module _ {S : Type 0} where
  infixl 5 ◌>>=◌ ◌>>◌
  abbrev pub ◌>>=◌ : {A B : Type 0} → Action S A → (A → Action S B) → Action S B
  ◌>>=◌ m f t = let (r, t') = m t in elim r [ ok a ↦ f a t' | err e ↦ (err e, t') ]

  abbrev pub ◌>>◌ : {B : Type 0} → Action S (Unit {0}) → Action S B → Action S B
  m >> k = m >>= λ _. k

  -- `?` on a computed result.
  abbrev pub lift : {A : Type 0} → Result TideError A → Action S A
  lift r t = (r, t)

  abbrev pub gets : {A : Type 0} → (TideFinalizer S → A) → Action S A
  gets f t = (ok (f t), t)

  -- `if !condition { return Err(e) }`
  abbrev pub ensure : Bool → TideError → Action S (Unit {0})
  ensure c e = lift (if c then ok tt else err e)
