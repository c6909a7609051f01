-- ===== src/Types.antt =====
-- src/core/types.rs: hashes, signatures, validator identities and the consensus messages, and the
-- canonical encoding helpers. A `u8`, `u32` or `u64` is a number, with its range in `IsInRange`.
-- The configuration of a node is in Types/Config.
pub mod Codec
pub mod Config
use amunchain.Base.{
  ℕ, ◌^◌, ◌<◌, ◌≡◌, ap, Bytes, Option, none, some, not, length, ◌==◌, if◌then◌else◌,
}
use amunchain.Order.{Ord, via_ord, bytes_ord}
use amunchain.BtreeMap.{BtreeMap}

-- `struct H256([u8; 32])`
pub record H256 : Type 0 where
  pub bytes : Bytes

-- `struct Signature(pub Vec<u8>)`
pub record Signature : Type 0 where
  pub bytes : Bytes

-- `struct ValidatorId(pub Vec<u8>)`
pub record ValidatorId : Type 0 where
  pub bytes : Bytes

-- The derived orders compare the one field.
pub H256_bytes_injective : (x y : H256) → x.bytes ≡ y.bytes → x ≡ y
H256_bytes_injective x y e = λ i. record { bytes = e i }

pub ValidatorId_bytes_injective : (x y : ValidatorId) → x.bytes ≡ y.bytes → x ≡ y
ValidatorId_bytes_injective x y e = λ i. record { bytes = e i }

instance unfoldable pub hash_ord : Ord H256
hash_ord = via_ord (λ (h : H256). h.bytes) H256_bytes_injective

instance unfoldable pub validator_ord : Ord ValidatorId
validator_ord = via_ord (λ (v : ValidatorId). v.bytes) ValidatorId_bytes_injective

-- `ValidatorId::as_public_key_bytes`
unfoldable pub as_public_key_bytes : ValidatorId → Option Bytes
as_public_key_bytes v = if not (length v.bytes == 32) then none else some v.bytes

pub record Vote : Type 0 where
  pub height : ℕ
  pub round : ℕ
  pub epoch : ℕ
  pub msg_counter : ℕ
  pub sent_ts_ms : ℕ
  pub ttl_ms : ℕ
  pub block_hash : H256
  pub voter : ValidatorId
  pub signature : Signature

pub record Commit : Type 0 where
  pub height : ℕ
  pub round : ℕ
  pub epoch : ℕ
  pub msg_counter : ℕ
  pub sent_ts_ms : ℕ
  pub ttl_ms : ℕ
  pub block_hash : H256
  pub signatures : BtreeMap ValidatorId Signature

pub data ConsensusMsg : Type 0 where
  vote : Vote → ConsensusMsg
  commit : Commit → ConsensusMsg

-- The ranges of a vote's fields.
pub record IsInRange (v : Vote) : Type 0 where
  pub height_lt : v.height < 2 ^ 64
  pub round_lt : v.round < 2 ^ 64
  pub epoch_lt : v.epoch < 2 ^ 64
  pub msg_counter_lt : v.msg_counter < 2 ^ 64
  pub sent_ts_ms_lt : v.sent_ts_ms < 2 ^ 64
  pub ttl_ms_lt : v.ttl_ms < 2 ^ 32
  pub hash_length : length v.block_hash.bytes ≡ 32
