-- ===== src/Keystore/Granted.antt =====
-- src/core/security/keystore.rs: how many signatures a keystore gives, and what they are worth to
-- the consensus code.
use Prim.Native.Nat.{min}
use amunchain.Base.{
  ok_inj, err≢ok, ℕ, ◌+◌, ◌≤◌, ◌<◌, ◌≡◌, ◌∙◌, refl, sym, ap, Bytes, true, false, some, List, [],
  ◌∷◌, inl, inr, Bool-cases, Result, ok, err, if◌then◌else◌, map, length, All, arith, u32_max,
  length-map,
}
use amunchain.Strings.{Text}
use amunchain.Disk.{Disk}
use amunchain.Types.{Signature, Vote, as_public_key_bytes}
use amunchain.Signing.{vote_bytes}
use amunchain.Keystore.{KeystoreError, Verifier, verify_pubkey_bytes}
use amunchain.Keystore.RateLimiter.{
  RateLimiter, new_limiter, allow, second, count_allowed, count_allowed_exact,
}
use amunchain.Keystore.KeyFile.{Ring}
use amunchain.Keystore.Backend.{FileEd25519Backend, file_backend}
use amunchain.Keystore.Sign.{Keystore, keystore_sign, keystore_public_key}
use amunchain.Keystore.Reopened.{sign_all}
use amunchain.Tide.State.{Outside}
use amunchain.Tide.{check_signature}

-- Ed25519 as its documentation has it: keys of 32 bytes, signatures of 64, and a pair's signature
-- verifies under its public key.
pub record IsEd25519 {Keypair : Type 0} (ring : Ring Keypair) (verify : Verifier) : Type 0 where
  pub key_length : (kp : Keypair) → length (ring.public_key_of kp) ≡ 32
  pub signature_length : (kp : Keypair) (msg : Bytes) → length (ring.sign_with kp msg) ≡ 64
  pub verifies :
      (kp : Keypair) (msg : Bytes)
      → verify (ring.public_key_of kp) msg (ring.sign_with kp msg) ≡ true

module _ {Keypair : Type 0} (ring : Ring Keypair) (hex_encode : Bytes → Text) where
  abbrev signed_at :
      ℕ
      → Bytes
      → Keystore (FileEd25519Backend Keypair)
      → Disk
      → Result KeystoreError Signature × Keystore (FileEd25519Backend Keypair) × Disk
  signed_at now msg k d = keystore_sign (file_backend ring) ring.sha256 hex_encode now msg k d

  abbrev ones : Result KeystoreError Signature → ℕ
  ones (ok _) = 1
  ones (err _) = 0

  -- One call of a keystore whose lock is sound follows its limiter.
  keystore_sign-limiter :
      (now : ℕ) (msg : Bytes) (k : Keystore (FileEd25519Backend Keypair)) (d : Disk)
      → k.is_poisoned ≡ false
      → (ones (signed_at now msg k d).0 ≡ (if (allow now k.limiter).0 then 1 else 0))
        × ((signed_at now msg k d).1.limiter ≡ (allow now k.limiter).1)
        × ((signed_at now msg k d).1.is_poisoned ≡ false)
  unfolding keystore_sign file_backend
  keystore_sign-limiter now msg k d p = elim (Bool-cases (allow now k.limiter).0) [
    | inl a ↦ (rw (keystore_sign, p, a), rw (keystore_sign, p, a), rw (keystore_sign, p, a))
    | inr a ↦ (rw (keystore_sign, p, a), rw (keystore_sign, p, a), rw (keystore_sign, p, a))
  ]

  sign_all-count :
      (calls : List (ℕ × Bytes)) (k : Keystore (FileEd25519Backend Keypair)) (d : Disk)
      → k.is_poisoned ≡ false
      → (sign_all (file_backend ring) ring.sha256 hex_encode calls k d).0
        ≡ (count_allowed (map (λ c. c.0) calls) k.limiter).0
  unfolding sign_all count_allowed
  sign_all-count [] k d p = refl
  sign_all-count ((now, msg) ∷ more) k d p =
      let (_, k1, d1) = signed_at now msg k d in
      let (one, lim, p1) = keystore_sign-limiter now msg k d p in
      let rest =
        sign_all-count more k1 d1 p1 ∙ ap (λ l. (count_allowed (map (λ c. c.0) more) l).0) lim in
      rw (one, rest)

  times_early :
      (bound : ℕ) (calls : List (ℕ × Bytes))
      → All (λ c. c.0 < bound) calls
      → All (λ now. now < bound) (map (λ c. c.0) calls)
  times_early bound [] h = tt
  times_early bound (c ∷ calls) (e, h) = (e, times_early bound calls h)

  -- Of the calls before the end of the first second of a new limiter, as many get a signature as
  -- its limit allows, and all of them up to the limit, whatever happens on the disk; if the
  -- limiter's lock is not poisoned and the limit fits in 32 bits.
  pub sign_all-exact :
      (calls : List (ℕ × Bytes)) (k : Keystore (FileEd25519Backend Keypair)) (d : Disk)
      (now limit : ℕ)
      → k.is_poisoned ≡ false
      → k.limiter ≡ new_limiter now limit
      → limit ≤ u32_max
      → All (λ c. c.0 < now + second) calls
      → (sign_all (file_backend ring) ring.sha256 hex_encode calls k d).0 ≡ min (length calls) limit
  unfolding new_limiter
  sign_all-exact calls k d now limit p l small early =
      let times = map (λ (c : ℕ × Bytes). c.0) calls in
      let fresh : RateLimiter = new_limiter now limit in
      let exact = count_allowed_exact times fresh small (omega arith) (times_early _ calls early) in
      sign_all-count calls k d p
      ∙ (rw (l) (exact ∙ rw (length-map (λ (c : ℕ × Bytes). c.0) calls, new_limiter) (omega arith)))

  keystore_sign-signature :
      (now : ℕ) (msg : Bytes) (k : Keystore (FileEd25519Backend Keypair)) (d : Disk)
      (sig : Signature)
      → (signed_at now msg k d).0 ≡ ok sig
      → sig.bytes ≡ ring.sign_with k.backend.keypair msg
  unfolding keystore_sign file_backend
  keystore_sign-signature now msg k d sig h = elim (Bool-cases k.is_poisoned) [
    | inl p ↦ absurd (err≢ok (rw (keystore_sign, p) at h))
    | inr p ↦ elim (Bool-cases (allow now k.limiter).0) [
      | inl a ↦ sym (ap (λ s. s.bytes) (ok_inj (rw (keystore_sign, p, a) at h)))
      | inr a ↦ absurd (err≢ok (rw (keystore_sign, p, a) at h))
    ]
  ]

  verify_pubkey_bytes-ok :
      (verify : Verifier) (pk msg : Bytes) (sig : Signature)
      → length sig.bytes ≡ 64
      → verify pk msg sig.bytes ≡ true
      → verify_pubkey_bytes verify pk msg sig ≡ ok tt
  unfolding verify_pubkey_bytes
  verify_pubkey_bytes-ok verify pk msg sig l v = ground (arith, l, v)

  -- A vote whose signature a keystore gave over the vote's bytes, with the keystore's public key as
  -- the voter, passes the signature check of the finality gadget, if Ed25519 verifies what it
  -- signed, with keys of 32 and signatures of 64 bytes.
  pub check_signature-keystore_sign :
      (out : Outside)
      → IsEd25519 ring out.verify
      → (now : ℕ) (k : Keystore (FileEd25519Backend Keypair)) (d : Disk) (v : Vote) (bytes : Bytes)
      → vote_bytes out.bincode v ≡ ok bytes
      → v.voter.bytes ≡ keystore_public_key (file_backend ring) k
      → (keystore_sign (file_backend ring) ring.sha256 hex_encode now bytes k d).0 ≡ ok v.signature
      → check_signature out v ≡ ok tt
  unfolding check_signature as_public_key_bytes keystore_public_key file_backend
  check_signature-keystore_sign out sound now k d v bytes signed voter h =
      let kp = k.backend.keypair in
      let same = keystore_sign-signature now bytes k d v.signature h in
      let long : length v.voter.bytes ≡ 32 = ap (λ b. length b) voter ∙ sound.key_length kp in
      let key : as_public_key_bytes v.voter ≡ some v.voter.bytes = ground (arith, long) in
      let good : verify_pubkey_bytes out.verify v.voter.bytes bytes v.signature ≡ ok tt =
        verify_pubkey_bytes-ok out.verify v.voter.bytes bytes v.signature
          (ap (λ b. length b) same ∙ sound.signature_length kp bytes)
          (rw (voter, same) (sound.verifies kp bytes)) in
      rw (check_signature, key, signed, good)
