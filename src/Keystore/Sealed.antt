-- ===== src/Keystore/Sealed.antt =====
-- src/core/security/keystore.rs: key files that are encrypted and decrypted again.
use amunchain.Base.{
  ◌+◌, ◌≤◌, ◌≡◌, Bytes, false, some, ◌++◌, ok, ok_or, length, take-append, drop-append,
  length-append, ltb, arith,
}
use amunchain.Order.{bytes_ord}
use amunchain.Paths.{Env}
use amunchain.Results.{bind_ok, ok_or_ok}
use amunchain.Keystore.{crypto}
use amunchain.Keystore.KeyFile.{
  Ring, Entropy, key_file_magic, pbkdf2_iters, derive_aes256gcm_key, encrypt_pkcs8, decrypt_pkcs8,
}

-- AES-256-GCM opens what it sealed, under the same key and nonce, and appends a tag of 16 bytes.
pub record IsAead {Keypair : Type 0} (ring : Ring Keypair) : Type 0 where
  pub opens :
      (key nonce plain sealed : Bytes)
      → ring.seal key nonce plain ≡ some sealed
      → ring.unseal key nonce sealed ≡ some plain
  pub grows :
      (key nonce plain sealed : Bytes)
      → ring.seal key nonce plain ≡ some sealed
      → length sealed ≡ length plain + 16

-- The random generator fills the arrays that it is given.
pub record IsFilled (rng : Entropy) : Type 0 where
  pub salt_length : (salt : Bytes) → rng.salt ≡ some salt → length salt ≡ 16
  pub nonce_length : (nonce : Bytes) → rng.nonce ≡ some nonce → length nonce ≡ 12

module _ {Keypair : Type 0} (ring : Ring Keypair) (aead : IsAead ring) where
  -- A file of the right layout is opened with the derived key.
  decrypt_pkcs8-layout :
      (env : Env) (pass salt nonce sealed : Bytes)
      → length salt ≡ 16
      → length nonce ≡ 12
      → 16 ≤ length sealed
      → decrypt_pkcs8 ring env pass (key_file_magic ++ (salt ++ (nonce ++ sealed)))
        ≡ ok_or (ring.unseal (ring.derive (pbkdf2_iters env) salt pass) nonce sealed) crypto
  unfolding decrypt_pkcs8 derive_aes256gcm_key
  decrypt_pkcs8-layout env pass salt nonce sealed hs hn hl =
      let rest = nonce ++ sealed in
      let long : ltb (length (key_file_magic ++ (salt ++ rest))) 52 ≡ false =
        ground (arith, length-append salt rest, length-append nonce sealed) in
      rw (
        long,
        take-append 16 salt rest hs,
        drop-append 16 salt rest hs,
        take-append 12 nonce sealed hn,
        drop-append 12 nonce sealed hn,
      )

  -- What encryption gives: the file's parts.
  pub encrypt_pkcs8-layout :
      (env : Env) (rng : Entropy) (pass plain file : Bytes)
      → encrypt_pkcs8 ring env rng pass plain ≡ ok file
      → (salt : Bytes) × (nonce : Bytes) × (sealed : Bytes) × (rng.salt ≡ some salt)
        × (rng.nonce ≡ some nonce)
        × (ring.seal (ring.derive (pbkdf2_iters env) salt pass) nonce plain ≡ some sealed)
        × (file ≡ key_file_magic ++ (salt ++ (nonce ++ sealed)))
  unfolding encrypt_pkcs8 derive_aes256gcm_key
  encrypt_pkcs8-layout env rng pass plain file h =
      let (salt, hs, h1) = bind_ok (ok_or rng.salt crypto) _ h in
      let (nonce, hn, h2) = bind_ok (ok_or rng.nonce crypto) _ h1 in
      let key = ring.derive (pbkdf2_iters env) salt pass in
      let (sealed, he, h3) = bind_ok (ok_or (ring.seal key nonce plain) crypto) _ h2 in
      let same : file ≡ key_file_magic ++ (salt ++ (nonce ++ sealed)) = cc h3 in
      (
        salt,
        nonce,
        sealed,
        ok_or_ok rng.salt crypto hs,
        ok_or_ok rng.nonce crypto hn,
        ok_or_ok (ring.seal key nonce plain) crypto he,
        same,
      )

  -- Decrypting an encrypted key gives the key back: for every passphrase, key and environment, and
  -- every later environment with the same number of iterations, if encryption succeeded, the random
  -- arrays were filled and the cipher opens what it sealed.
  pub decrypt_pkcs8-encrypt_pkcs8 :
      (env later : Env) (rng : Entropy) (pass plain file : Bytes)
      → IsFilled rng
      → pbkdf2_iters later ≡ pbkdf2_iters env
      → encrypt_pkcs8 ring env rng pass plain ≡ ok file
      → decrypt_pkcs8 ring later pass file ≡ ok plain
  decrypt_pkcs8-encrypt_pkcs8 env later rng pass plain file filled same h =
      let (salt, nonce, sealed, hs, hn, he, hf) = encrypt_pkcs8-layout env rng pass plain file h in
      let key = ring.derive (pbkdf2_iters env) salt pass in
      rw (
        hf,
        decrypt_pkcs8-layout later pass salt nonce sealed (filled.salt_length salt hs)
            (filled.nonce_length nonce hn) (omega (arith, aead.grows key nonce plain sealed he)),
        same,
        aead.opens key nonce plain sealed he,
      )
