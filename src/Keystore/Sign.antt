-- ===== src/Keystore/Sign.antt =====
-- The keystore of src/core/security/keystore.rs: a signer behind the rate limit and the audit log.
use amunchain.Base.{ℕ, Bytes, Bool, false, Result, ok, err, if◌then◌else◌}
use amunchain.Strings.{Text, ascii}
use amunchain.Paths.{FilePath, Env, push}
use amunchain.Disk.{Disk, Io, ◌>>=◌, lift}
use amunchain.Types.{Signature}
use amunchain.Keystore.{KeystoreError, rate_limited}
use amunchain.Keystore.RateLimiter.{RateLimiter, new_limiter, allow}
use amunchain.Keystore.KeyFile.{Ring, Entropy}
use amunchain.Keystore.Backend.{SignerBackend, FileEd25519Backend, load_or_create}
use amunchain.Keystore.Audit.{append_audit}

-- `is_poisoned` is set when a holder of the limiter's lock panicked.
pub record Keystore (B : Type 0) : Type 0 where
  pub backend : B
  pub limiter : RateLimiter
  pub is_poisoned : Bool
  pub audit_path : FilePath

abbrev pub key_path_in : Text → FilePath
key_path_in data_dir = push (ascii "validator.key") data_dir

abbrev pub audit_path_in : Text → FilePath
audit_path_in data_dir = push (ascii "audit.log") data_dir

-- The fields that `Keystore::open` sets.
abbrev pub keystore_of : {B : Type 0} → ℕ → Text → B → Keystore B
keystore_of now data_dir backend = record {
  backend = backend;
  limiter = new_limiter now 10_000;
  is_poisoned = false;
  audit_path = audit_path_in data_dir;
}

-- `Keystore::open` at the time `now`.
unfoldable pub open_keystore :
    {Keypair : Type 0}
    → Ring Keypair
    → Env
    → Entropy
    → ℕ
    → Text
    → Io KeystoreError (Keystore (FileEd25519Backend Keypair))
unfolding load_or_create new_limiter push
open_keystore ring env rng now data_dir = do
  backend ← load_or_create ring env rng (key_path_in data_dir)
  lift (ok (keystore_of now data_dir backend))

module _ {B : Type 0} (signer : SignerBackend B) where
  -- `Keystore::public_key`
  unfoldable pub keystore_public_key : Keystore B → Bytes
  keystore_public_key k = signer.public_key k.backend

  -- `Keystore::sign` at the time `now`; an error of the audit log is dropped.
  unfoldable pub keystore_sign :
      (Bytes → Bytes)
      → (Bytes → Text)
      → ℕ
      → Bytes
      → Keystore B
      → Disk
      → Result KeystoreError Signature × Keystore B × Disk
  unfolding allow append_audit
  keystore_sign sha256 hex_encode now msg k d =
      let (yes', limiter) = allow now k.limiter in
      let k' : Keystore B = record k { limiter = limiter } in
      if k.is_poisoned
      then (err rate_limited, k, d)
      else if yes'
      then (
        signer.sign k.backend msg,
        k',
        (append_audit sha256 hex_encode k.audit_path (ascii "sign") msg d).1,
      )
      else (err rate_limited, k', d)
