-- ===== src/Keystore.antt =====
-- src/core/security/keystore.rs: verification of Ed25519 signatures.
pub mod RateLimiter
pub mod KeyFile
pub mod Backend
pub mod Audit
pub mod Sign
pub mod Sealed
pub mod Atomic
pub mod Restart
pub mod Audited
pub mod Reopened
pub mod Granted
use amunchain.Base.{Bytes, Bool, true, false, not, ◌==◌, length, if◌then◌else◌, Result, ok, err}
use amunchain.Types.{Signature}

pub data KeystoreError : Type 0 where
  io invalid_key missing_passphrase crypto rate_limited bad_signature : KeystoreError

-- `UnparsedPublicKey::verify` of the `ring` crate: public key, message, signature.
abbrev pub Verifier : Type 0
Verifier = Bytes → Bytes → Bytes → Bool

unfoldable pub verify_pubkey_bytes :
    Verifier → Bytes → Bytes → Signature → Result KeystoreError (Unit {0})
verify_pubkey_bytes verify pk_bytes msg sig =
    if not (length sig.bytes == 64)
    then err bad_signature
    else if verify pk_bytes msg sig.bytes
    then ok tt
    else err bad_signature

-- The caller's array of 64 bytes becomes a vector.
unfoldable pub verify_sig_bytes64 :
    Verifier → Bytes → Bytes → Bytes → Result KeystoreError (Unit {0})
verify_sig_bytes64 verify pk_bytes msg sig64 =
    verify_pubkey_bytes verify pk_bytes msg (record { bytes = sig64 })
