-- ===== src/Signing.antt =====
-- src/core/consensus/signing.rs: the domain-separated bytes that a vote's signature covers. The
-- encoding of the voter's key by `bincode` is a parameter.
pub mod Injective
use amunchain.Base.{
  ℕ, zero, suc, ◌/◌, ◌%◌, Bytes, List, [], ◌∷◌, ◌++◌, Result, ok, err, ◌==◌, ◌&&◌, if◌then◌else◌,
}
use amunchain.Strings.{ascii}
use amunchain.Types.{H256, ValidatorId, Vote}
use amunchain.Types.Codec.{Bincode, encode_canonical}

pub data SigningError : Type 0 where
  codec : SigningError

-- `to_be_bytes` of an unsigned integer of `w` bytes.
unfoldable pub to_be_bytes : ℕ → ℕ → Bytes
to_be_bytes zero n = []
to_be_bytes (suc w) n = to_be_bytes w (n / 256) ++ (n % 256) ∷ []

abbrev pub domain_v1 : Bytes
domain_v1 = ascii "Amunchain-Tide-Vote-v1"

abbrev pub domain_v2 : Bytes
domain_v2 = ascii "Amunchain-Tide-Vote-v2"

module _ (bincode : Bincode Bytes) where
  unfoldable pub vote_signing_bytes_v1 :
      (height round : ℕ) (block_hash : H256) (voter : ValidatorId) → Result SigningError Bytes
  unfolding encode_canonical
  vote_signing_bytes_v1 height round block_hash voter =
      elim (encode_canonical bincode voter.bytes) [
        | ok vb ↦ ok (
            domain_v1
            ++ (to_be_bytes 8 height ++ (to_be_bytes 8 round ++ (block_hash.bytes ++ vb))))
        | err _ ↦ err codec
      ]

  unfoldable pub vote_signing_bytes_v2 :
      (height round epoch msg_counter sent_ts_ms ttl_ms : ℕ) (block_hash : H256)
      (voter : ValidatorId)
      → Result SigningError Bytes
  unfolding encode_canonical
  vote_signing_bytes_v2 height round epoch msg_counter sent_ts_ms ttl_ms block_hash voter =
      elim (encode_canonical bincode voter.bytes) [
        | ok vb ↦ ok (
            domain_v2
            ++ (to_be_bytes 8 height
                ++ (to_be_bytes 8 round
                    ++ (to_be_bytes 8 epoch
                        ++ (to_be_bytes 8 msg_counter
                            ++ (to_be_bytes 8 sent_ts_ms
                                ++ (to_be_bytes 4 ttl_ms ++ (block_hash.bytes ++ vb))))))))
        | err _ ↦ err codec
      ]

  unfoldable pub vote_signing_bytes_auto :
      (height round epoch msg_counter sent_ts_ms ttl_ms : ℕ) (block_hash : H256)
      (voter : ValidatorId)
      → Result SigningError Bytes
  vote_signing_bytes_auto height round epoch msg_counter sent_ts_ms ttl_ms block_hash voter =
      if epoch == 0 && (msg_counter == 0 && (sent_ts_ms == 0 && ttl_ms == 0))
      then vote_signing_bytes_v1 height round block_hash voter
      else vote_signing_bytes_v2 height round epoch msg_counter sent_ts_ms ttl_ms block_hash voter

  -- The bytes that a vote's signature covers.
  abbrev pub vote_bytes : Vote → Result SigningError Bytes
  vote_bytes v =
      vote_signing_bytes_auto v.height v.round v.epoch v.msg_counter v.sent_ts_ms v.ttl_ms
        v.block_hash v.voter
