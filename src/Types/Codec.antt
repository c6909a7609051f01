-- ===== src/Types/Codec.antt =====
-- `encode_canonical` and `decode_canonical_limited` of src/core/types.rs, around the `bincode`
-- crate, which is a parameter: what its configured serializer and deserializer return.
use amunchain.Base.{
  ℕ, ◌≤◌, ◌≡◌, Bytes, Option, none, some, Result, ok, err, length, ltb, leb, if◌then◌else◌, arith,
}

pub data CodecError : Type 0 where
  serialize deserialize too_large : CodecError

-- `bincode_opts()` at a type: serialize, and deserialize under a limit in bytes. `none` is an
-- error.
pub record Bincode (T : Type 0) : Type 0 where
  pub to_bytes : T → Option Bytes
  pub from_bytes : ℕ → Bytes → Option T

-- What the crate documents: a value that serializes within the limit is read back, and only from
-- its own bytes, since trailing bytes are rejected and integers have a fixed width.
pub record RoundTrips {T : Type 0} (b : Bincode T) : Type 0 where
  pub reads_back :
      (v : T) (bytes : Bytes) (max : ℕ)
      → b.to_bytes v ≡ some bytes
      → length bytes ≤ max
      → b.from_bytes max bytes ≡ some v

module _ {T : Type 0} (b : Bincode T) where
  unfoldable pub encode_canonical : T → Result CodecError Bytes
  encode_canonical v = elim (b.to_bytes v) [ none ↦ err serialize | some bytes ↦ ok bytes ]

  unfoldable pub decode_canonical_limited : Bytes → ℕ → Result CodecError T
  decode_canonical_limited bytes max =
      if ltb max (length bytes)
      then err too_large
      else elim (b.from_bytes max bytes) [ none ↦ err deserialize | some v ↦ ok v ]

  -- Whatever was encoded is decoded to the same value under every cap that its bytes meet, and
  -- refused as too large under every other cap.
  pub decode-encode :
      (v : T) (bytes : Bytes) (max : ℕ)
      → RoundTrips b
      → encode_canonical v ≡ ok bytes
      → decode_canonical_limited bytes max
        ≡ (if leb (length bytes) max then ok v else err too_large)
  unfolding encode_canonical decode_canonical_limited
  decode-encode v bytes max r h = ground (arith, r.reads_back v bytes max)
