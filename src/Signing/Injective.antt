-- ===== src/Signing/Injective.antt =====
-- src/core/consensus/signing.rs: what the signed bytes say of the vote.
use native.Mathlib.Nat.{pow-suc}
use amunchain.Base.{
  Option-cases, if◌then◌else◌, ℕ, zero, suc, ◌≢◌, Bool, ◌*◌, ◌/◌, ◌%◌, ◌^◌, ◌<◌, ◌≡◌, refl, sym,
  ◌∙◌, Bytes, List, [], ◌∷◌, ◌++◌, ok, some, length, length-append, split_front, arith, Bool-cases,
  inl, inr, ◌==◌, ◌&&◌, true,
}
use amunchain.Types.{Vote, IsInRange, H256_bytes_injective, ValidatorId_bytes_injective}
use amunchain.Types.Codec.{Bincode, encode_canonical, RoundTrips}
use amunchain.Signing.{
  to_be_bytes, vote_signing_bytes_v1, vote_signing_bytes_v2, vote_signing_bytes_auto, vote_bytes,
  domain_v1, domain_v2,
}

-- Fields written one after the other in front of a rest.
abbrev join : List Bytes → Bytes → Bytes
join [] r = r
join (x ∷ xs) r = x ++ join xs r

abbrev SameLengths : List Bytes → List Bytes → Type 0
SameLengths [] [] = Unit
SameLengths (x ∷ xs) (y ∷ ys) = (length x ≡ length y) × SameLengths xs ys
SameLengths _ _ = ⊥

abbrev SameFields : List Bytes → List Bytes → Type 0
SameFields [] [] = Unit
SameFields (x ∷ xs) (y ∷ ys) = (x ≡ y) × SameFields xs ys
SameFields _ _ = ⊥

split_fields :
    (xs ys : List Bytes) (r s : Bytes)
    → SameLengths xs ys
    → join xs r ≡ join ys s
    → SameFields xs ys × (r ≡ s)
split_fields [] [] r s l h = (tt, h)
split_fields [] (y ∷ ys) r s l h = absurd l
split_fields (x ∷ xs) [] r s l h = absurd l
split_fields (x ∷ xs) (y ∷ ys) r s l h =
    let (e, t) = split_front x y (join xs r) (join ys s) l.0 h in
    let (es, f) = split_fields xs ys r s l.1 t in ((e, es), f)

pub length-to_be_bytes : (w n : ℕ) → length (to_be_bytes w n) ≡ w
unfolding to_be_bytes
length-to_be_bytes zero n = refl
length-to_be_bytes (suc w) n = omega (
  arith,
  length-append (to_be_bytes w (n / 256)) ((n % 256) ∷ []),
  length-to_be_bytes w (n / 256),
)

-- An integer that fits is determined by its bytes.
pub to_be_bytes_injective :
    (w a b : ℕ) → a < 256 ^ w → b < 256 ^ w → to_be_bytes w a ≡ to_be_bytes w b → a ≡ b
unfolding to_be_bytes
to_be_bytes_injective zero a b ha hb h = omega arith
to_be_bytes_injective (suc w) a b ha hb h =
    let p : 256 ^ suc w ≡ 256 ^ w * 256 = pow-suc 256 w in
    let (front, back) =
      split_front (to_be_bytes w (a / 256)) (to_be_bytes w (b / 256)) ((a % 256) ∷ [])
        ((b % 256) ∷ [])
        (omega (arith, length-to_be_bytes w (a / 256), length-to_be_bytes w (b / 256))) h in
    let low : a % 256 ≡ b % 256 = cc in
    let high : a / 256 ≡ b / 256 =
      to_be_bytes_injective w (a / 256) (b / 256) (omega arith) (omega arith) front in
    omega arith

-- What a signature speaks about: everything in the vote but the signature itself.
pub record SameContent (v w : Vote) : Type 0 where
  pub height_eq : v.height ≡ w.height
  pub round_eq : v.round ≡ w.round
  pub epoch_eq : v.epoch ≡ w.epoch
  pub msg_counter_eq : v.msg_counter ≡ w.msg_counter
  pub sent_ts_ms_eq : v.sent_ts_ms ≡ w.sent_ts_ms
  pub ttl_ms_eq : v.ttl_ms ≡ w.ttl_ms
  pub block_hash_eq : v.block_hash ≡ w.block_hash
  pub voter_eq : v.voter ≡ w.voter

-- The fixed-width fields of the two layouts, in front of the encoded voter.
abbrev fields_v1 : Vote → List Bytes
fields_v1 v = domain_v1 ∷ to_be_bytes 8 v.height ∷ to_be_bytes 8 v.round ∷ v.block_hash.bytes ∷ []

abbrev fields_v2 : Vote → List Bytes
fields_v2 v =
    domain_v2
    ∷ to_be_bytes 8 v.height
    ∷ to_be_bytes 8 v.round
    ∷ to_be_bytes 8 v.epoch
    ∷ to_be_bytes 8 v.msg_counter
    ∷ to_be_bytes 8 v.sent_ts_ms
    ∷ to_be_bytes 4 v.ttl_ms
    ∷ v.block_hash.bytes
    ∷ []

abbrev is_legacy : Vote → Bool
is_legacy v = v.epoch == 0 && (v.msg_counter == 0 && (v.sent_ts_ms == 0 && v.ttl_ms == 0))

domain_ne : domain_v1 ≢ domain_v2
domain_ne h = ground arith

u64_inj : (a b : ℕ) → a < 2 ^ 64 → b < 2 ^ 64 → to_be_bytes 8 a ≡ to_be_bytes 8 b → a ≡ b
u64_inj = to_be_bytes_injective 8

u32_inj : (a b : ℕ) → a < 2 ^ 32 → b < 2 ^ 32 → to_be_bytes 4 a ≡ to_be_bytes 4 b → a ≡ b
u32_inj = to_be_bytes_injective 4

lengths_v1 : (v w : Vote) → IsInRange v → IsInRange w → SameLengths (fields_v1 v) (fields_v1 w)
lengths_v1 v w r s = omega (arith, length-to_be_bytes)

lengths_v2 : (v w : Vote) → IsInRange v → IsInRange w → SameLengths (fields_v2 v) (fields_v2 w)
lengths_v2 v w r s = omega (arith, length-to_be_bytes)

legacy_fields :
    (v : Vote)
    → is_legacy v ≡ true
    → (v.epoch ≡ 0) × (v.msg_counter ≡ 0) × (v.sent_ts_ms ≡ 0) × (v.ttl_ms ≡ 0)
legacy_fields v h = ground arith

layouts_differ : (v w : Vote) (r s : Bytes) → join (fields_v1 v) r ≢ join (fields_v2 w) s
layouts_differ v w r s h = domain_ne (split_front domain_v1 domain_v2 _ _ refl h).0

module _ (v w : Vote) (rv : IsInRange v) (sw : IsInRange w) (voters : v.voter ≡ w.voter) where
  same_v1 :
      is_legacy v ≡ true
      → is_legacy w ≡ true
      → SameFields (fields_v1 v) (fields_v1 w)
      → SameContent v w
  same_v1 a b f = record {
    height_eq = u64_inj _ _ rv.height_lt sw.height_lt f.1.0;
    round_eq = u64_inj _ _ rv.round_lt sw.round_lt f.1.1.0;
    epoch_eq = omega (arith, legacy_fields v a, legacy_fields w b);
    msg_counter_eq = omega (arith, legacy_fields v a, legacy_fields w b);
    sent_ts_ms_eq = omega (arith, legacy_fields v a, legacy_fields w b);
    ttl_ms_eq = omega (arith, legacy_fields v a, legacy_fields w b);
    block_hash_eq = H256_bytes_injective v.block_hash w.block_hash f.1.1.1.0;
    voter_eq = voters;
  }

  same_v2 : SameFields (fields_v2 v) (fields_v2 w) → SameContent v w
  same_v2 f = record {
    height_eq = u64_inj _ _ rv.height_lt sw.height_lt f.1.0;
    round_eq = u64_inj _ _ rv.round_lt sw.round_lt f.1.1.0;
    epoch_eq = u64_inj _ _ rv.epoch_lt sw.epoch_lt f.1.1.1.0;
    msg_counter_eq = u64_inj _ _ rv.msg_counter_lt sw.msg_counter_lt f.1.1.1.1.0;
    sent_ts_ms_eq = u64_inj _ _ rv.sent_ts_ms_lt sw.sent_ts_ms_lt f.1.1.1.1.1.0;
    ttl_ms_eq = u32_inj _ _ rv.ttl_ms_lt sw.ttl_ms_lt f.1.1.1.1.1.1.0;
    block_hash_eq = H256_bytes_injective v.block_hash w.block_hash f.1.1.1.1.1.1.1.0;
    voter_eq = voters;
  }

module _ (bincode : Bincode Bytes) (laws : RoundTrips bincode) where
  encode_injective :
      (x y bytes : Bytes)
      → bincode.to_bytes x ≡ some bytes
      → bincode.to_bytes y ≡ some bytes
      → x ≡ y
  encode_injective x y bytes hx hy =
      let p = laws.reads_back x bytes (length bytes) hx (omega arith) in
      let q = laws.reads_back y bytes (length bytes) hy (omega arith) in cc

  abbrev fields : Vote → List Bytes
  fields v = if is_legacy v then fields_v1 v else fields_v2 v

  -- The signed bytes are the layout's fields and the encoded voter.
  vote_layout :
      (v : Vote) {m : Bytes}
      → vote_bytes bincode v ≡ ok m
      → (vb : Bytes) × (bincode.to_bytes v.voter.bytes ≡ some vb) × (m ≡ join (fields v) vb)
  unfolding vote_signing_bytes_auto vote_signing_bytes_v1 vote_signing_bytes_v2 encode_canonical
  vote_layout v h = elim (Option-cases (bincode.to_bytes v.voter.bytes)) [
    | inl e ↦ ground arith
    | inr (vb, e) ↦ elim (Bool-cases (is_legacy v)) [
      | inl l ↦ (vb, e, ground arith)
      | inr l ↦ (vb, e, ground arith)
    ]
  ]

  same_content :
      (v w : Vote)
      → IsInRange v
      → IsInRange w
      → (vb wb : Bytes) → bincode.to_bytes v.voter.bytes ≡ some vb
      → bincode.to_bytes w.voter.bytes ≡ some wb
      → join (fields v) vb ≡ join (fields w) wb
      → SameContent v w
  same_content v w rv sw vb wb ev ew h = elim (Bool-cases (is_legacy v)) [
    | inl a ↦ elim (Bool-cases (is_legacy w)) [
      | inl b ↦
          let (f, r) =
            split_fields (fields_v1 v) (fields_v1 w) vb wb (lengths_v1 v w rv sw)
              (rw (a, b) at h) in
          same_v1 v w rv sw (voters r) a b f
      | inr b ↦ absurd (layouts_differ v w vb wb (rw (a, b) at h))
    ]
    | inr a ↦ elim (Bool-cases (is_legacy w)) [
      | inl b ↦ absurd (layouts_differ w v wb vb (sym (rw (a, b) at h)))
      | inr b ↦
          let (f, r) =
            split_fields (fields_v2 v) (fields_v2 w) vb wb (lengths_v2 v w rv sw)
              (rw (a, b) at h) in
          same_v2 v w rv sw (voters r) f
    ]
  ]
    where
      voters : vb ≡ wb → v.voter ≡ w.voter
      voters r =
          ValidatorId_bytes_injective v.voter w.voter
            (encode_injective v.voter.bytes w.voter.bytes wb (cc) ew)

  -- Two votes with fields in range whose signatures cover the same bytes agree on everything that
  -- they say: the legacy and the sealed layout cannot be confused, nor can one field be read as
  -- part of another.
  pub vote_bytes_injective :
      (v w : Vote) (m : Bytes)
      → IsInRange v
      → IsInRange w
      → vote_bytes bincode v ≡ ok m
      → vote_bytes bincode w ≡ ok m
      → SameContent v w
  vote_bytes_injective v w m rv sw hv hw =
      let (vb, ev, lv) = vote_layout v hv in
      let (wb, ew, lw) = vote_layout w hw in same_content v w rv sw vb wb ev ew (sym lv ∙ lw)
