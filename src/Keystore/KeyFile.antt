-- ===== src/Keystore/KeyFile.antt =====
-- The format of a key file in src/core/security/keystore.rs: `AMUNKEY1`, salt, nonce and the sealed
-- PKCS#8 bytes. The `ring` crate, the environment and what its random generator fills are
-- parameters; that sensitive buffers are overwritten is not represented.
use Prim.Native.Nat.{min, max}
use amunchain.Base.{
  ℕ, ◌+◌, Bytes, not, Option, none, some, List, [], ◌∷◌, ◌++◌, Result, ok, err, ok_or, length, take,
  drop, ltb, unwrap_or, if◌then◌else◌, u32_max,
}
use amunchain.Order.{◌=?◌, bytes_ord}
use amunchain.Strings.{Text, ascii, trim, parse_unsigned}
use amunchain.Paths.{Env}
use amunchain.Results.{◌>>=◌}
use amunchain.Keystore.{KeystoreError, invalid_key, crypto}

-- What the keystore calls of `ring`: PBKDF2 for a number of iterations, a salt and a passphrase;
-- AES-256-GCM under a key and a nonce, its tag appended, where `none` is any of its errors; and
-- Ed25519.
pub record Ring (Keypair : Type 0) : Type 0 where
  pub derive : ℕ → Bytes → Bytes → Bytes
  pub seal : Bytes → Bytes → Bytes → Option Bytes
  pub unseal : Bytes → Bytes → Bytes → Option Bytes
  pub from_pkcs8 : Bytes → Option Keypair
  pub public_key_of : Keypair → Bytes
  pub sign_with : Keypair → Bytes → Bytes
  pub sha256 : Bytes → Bytes

-- What one run gets from `SystemRandom`: the two fills and the generated key, `none` for an error.
pub record Entropy : Type 0 where
  pub salt : Option Bytes
  pub nonce : Option Bytes
  pub pkcs8 : Option Bytes

abbrev pub key_file_magic : Bytes
key_file_magic = ascii "AMUNKEY1"

abbrev pub key_salt_len : ℕ
key_salt_len = 16

abbrev pub key_nonce_len : ℕ
key_nonce_len = 12

abbrev pbkdf2_iters_default : ℕ
pbkdf2_iters_default = 100_000

unfoldable pub env_first : Env → List Text → Option Text
unfolding trim
env_first env [] = none
env_first env (k ∷ ks) =
    let rest = env_first env ks in
    elim (env k) [ none ↦ rest | some v ↦ elim (trim v) [ [] ↦ rest | c ∷ cs ↦ some v ] ]

-- The value is never zero, so `NonZeroU32::new` succeeds.
unfoldable pub pbkdf2_iters : Env → ℕ
unfolding env_first parse_unsigned
pbkdf2_iters env =
    let found = env_first env (ascii "AMUNCHAIN_PBKDF2_ITERS" ∷ ascii "NEXUS_PBKDF2_ITERS" ∷ []) in
    let iters =
      unwrap_or pbkdf2_iters_default
        (elim found [ none ↦ none | some v ↦ parse_unsigned u32_max v ]) in
    min 10_000_000 (max 10_000 iters)

module _ {Keypair : Type 0} (ring : Ring Keypair) (env : Env) where
  unfoldable pub derive_aes256gcm_key : Bytes → Bytes → Result KeystoreError Bytes
  unfolding pbkdf2_iters
  derive_aes256gcm_key passphrase salt = ok (ring.derive (pbkdf2_iters env) salt passphrase)

  unfoldable pub encrypt_pkcs8 : Entropy → Bytes → Bytes → Result KeystoreError Bytes
  unfolding derive_aes256gcm_key
  encrypt_pkcs8 rng passphrase plaintext = do
    salt ← ok_or rng.salt crypto
    nonce ← ok_or rng.nonce crypto
    key ← derive_aes256gcm_key passphrase salt
    sealed ← ok_or (ring.seal key nonce plaintext) crypto
    ok (key_file_magic ++ (salt ++ (nonce ++ sealed)))

  unfoldable pub decrypt_pkcs8 : Bytes → Bytes → Result KeystoreError Bytes
  unfolding derive_aes256gcm_key
  decrypt_pkcs8 passphrase bytes =
      let rest = drop 8 bytes in
      if ltb (length bytes) (8 + key_salt_len + key_nonce_len + 16)
      then err invalid_key
      else if not (take 8 bytes =? key_file_magic)
      then ok bytes
      else do
        key ← derive_aes256gcm_key passphrase (take key_salt_len rest)
        let nonce = take key_nonce_len (drop key_salt_len rest)
        let sealed = drop key_nonce_len (drop key_salt_len rest)
        ok_or (ring.unseal key nonce sealed) crypto
