-- ===== src/Keystore/Reopened.antt =====
-- src/core/security/keystore.rs: a keystore that is opened, signs messages and is opened again.
use amunchain.Base.{
  ok_inj, ℕ, ◌+◌, ◌≡◌, ◌∙◌, refl, sym, ap, subst, Bytes, false, List, [], ◌∷◌, inl, inr, Bool-cases,
  ok, err, append_nil,
}
use amunchain.Order.{◌=?◌, bytes_ord}
use amunchain.Strings.{Text, ascii, decimal}
use amunchain.Paths.{FilePath, Env, set_extension, split_last}
use amunchain.Paths.Laws.{push-apart, set_extension-other}
use amunchain.Disk.{Disk, lift, ◌>>=◌}
use amunchain.Disk.Laws.{bind_done}
use amunchain.Keystore.{KeystoreError}
use amunchain.Keystore.RateLimiter.{allow}
use amunchain.Keystore.KeyFile.{Ring, Entropy, pbkdf2_iters}
use amunchain.Keystore.Sealed.{IsAead, IsFilled}
use amunchain.Keystore.Backend.{
  SignerBackend, FileEd25519Backend, file_backend, passphrase, load_or_create,
}
use amunchain.Keystore.Restart.{IsDer, load_or_create-keeps}
use amunchain.Keystore.Audit.{rotated}
use amunchain.Keystore.Audited.{IsApart, append_audit-other}
use amunchain.Keystore.Sign.{
  Keystore, keystore_sign, keystore_public_key, open_keystore, keystore_of, key_path_in,
  audit_path_in,
}

module _ {B : Type 0} (signer : SignerBackend B) (sha256 : Bytes → Bytes)
    (hex_encode : Bytes → Text) where
  -- A sequence of messages with the times at which they are signed: how many got a signature, and
  -- the keystore and the disk after them.
  unfoldable pub sign_all : List (ℕ × Bytes) → Keystore B → Disk → ℕ × Keystore B × Disk
  unfolding keystore_sign
  sign_all [] k d = (0, k, d)
  sign_all ((now, msg) ∷ more) k d =
      let (r, k1, d1) = keystore_sign signer sha256 hex_encode now msg k d in
      let (n, k2, d2) = sign_all more k1 d1 in ((elim r [ ok _ ↦ 1 | err _ ↦ 0 ]) + n, k2, d2)

  keystore_sign-other :
      (now : ℕ) (msg : Bytes) (k : Keystore B) (d : Disk) (q : FilePath)
      → IsApart q k.audit_path
      → let (_, k', d') = keystore_sign signer sha256 hex_encode now msg k d in
        (d'.files q ≡ d.files q) × (k'.audit_path ≡ k.audit_path)
  unfolding keystore_sign
  keystore_sign-other now msg k d q apart = elim (Bool-cases k.is_poisoned) [
    | inl p ↦ (rw (keystore_sign, p), rw (keystore_sign, p))
    | inr p ↦ elim (Bool-cases (allow now k.limiter).0) [
      | inl a ↦
          let same =
            append_audit-other k.audit_path q apart sha256 hex_encode (ascii "sign") msg d in
          (rw (keystore_sign, p, a) same, rw (keystore_sign, p, a))
      | inr a ↦ (rw (keystore_sign, p, a), rw (keystore_sign, p, a))
    ]
  ]

  pub sign_all-other :
      (calls : List (ℕ × Bytes)) (k : Keystore B) (d : Disk) (q : FilePath)
      → IsApart q k.audit_path
      → (sign_all calls k d).2.files q ≡ d.files q
  unfolding sign_all
  sign_all-other [] k d q apart = refl
  sign_all-other ((now, msg) ∷ more) k d q apart =
      let (_, k1, d1) = keystore_sign signer sha256 hex_encode now msg k d in
      let (same, path) = keystore_sign-other now msg k d q apart in
      let apart1 : IsApart q k1.audit_path = rw (path) apart in
      sign_all-other more k1 d1 q apart1 ∙ same

-- The files that `Keystore::open` uses in a directory.
key_path-IsApart : (dir : Text) → IsApart (key_path_in dir) (audit_path_in dir)
unfolding rotated
key_path-IsApart dir = (
  subst (λ p. (key_path_in dir =? p) ≡ false) (append_nil (audit_path_in dir))
      (push-apart dir (ascii "validator.key") (ascii "audit.log") [] refl),
  λ i. push-apart dir (ascii "validator.key") (ascii "audit.log") (46 ∷ decimal i) refl,
)

key_path-other :
    (dir : Text) → (key_path_in dir =? set_extension (ascii "tmp") (key_path_in dir)) ≡ false
unfolding split_last
key_path-other dir = set_extension-other dir (ascii "tmp") (ascii "validator.key") refl refl

module _ {Keypair : Type 0} (ring : Ring Keypair) where
  open_keystore-ok :
      (env : Env) (rng : Entropy) (now : ℕ) (dir : Text) (d : Disk)
      (k : Keystore (FileEd25519Backend Keypair))
      → (open_keystore ring env rng now dir d).0 ≡ ok k
      → let loaded = load_or_create ring env rng (key_path_in dir) d in
        (loaded.0 ≡ ok k.backend)
        × (k.audit_path ≡ audit_path_in dir)
        × ((open_keystore ring env rng now dir d).1 ≡ loaded.1)
  unfolding open_keystore
  open_keystore-ok env rng now dir d k h =
      let pack =
        λ (b : FileEd25519Backend Keypair). lift {E = KeystoreError} (ok (keystore_of now dir b)) in
      let (b, e, r) = bind_done (load_or_create ring env rng (key_path_in dir)) pack d h in
      let same : keystore_of now dir b ≡ k = ok_inj (sym (ap (λ x. x.0) r) ∙ h) in
      (e ∙ ap (λ x. ok x.backend) same, sym (ap (λ x. x.audit_path) same), ap (λ x. x.1) r)

  open_keystore-of :
      (env : Env) (rng : Entropy) (now : ℕ) (dir : Text) (d : Disk) (b : FileEd25519Backend Keypair)
      → (load_or_create ring env rng (key_path_in dir) d).0 ≡ ok b
      → (open_keystore ring env rng now dir d).0 ≡ ok (keystore_of now dir b)
  unfolding open_keystore
  open_keystore-of env rng now dir d b h = rw (◌>>=◌, h)

  -- A keystore that was opened, signed any messages at any times and is opened again with the same
  -- passphrase and number of iterations has the same public key, whichever calls on the disk failed
  -- before, if the second opening reads the key without error, the cipher opens what it sealed, the
  -- random arrays were filled and no PKCS#8 key starts like an encrypted file.
  pub reopened-keystore_public_key :
      (hex_encode : Bytes → Text) (env later : Env) (rng rng' : Entropy) (now now' : ℕ) (dir : Text)
      (d : Disk) (k : Keystore (FileEd25519Backend Keypair)) (calls : List (ℕ × Bytes))
      → IsAead ring
      → IsDer ring
      → IsFilled rng
      → passphrase later ≡ passphrase env
      → pbkdf2_iters later ≡ pbkdf2_iters env
      → (open_keystore ring env rng now dir d).0 ≡ ok k
      → let signer = file_backend ring in
        let opened = open_keystore ring env rng now dir d in
        let (_, _, after) = sign_all signer ring.sha256 hex_encode calls k opened.1 in
        let again =
          open_keystore ring later rng' now' dir (record { files = after.files; faults = [] }) in
        (k' : Keystore (FileEd25519Backend Keypair)) × (again.0 ≡ ok k')
        × (keystore_public_key signer k' ≡ keystore_public_key signer k)
  unfolding keystore_public_key
  reopened-keystore_public_key hex_encode env later rng rng' now now' dir d k calls aead der filled
        p i h =
      let signer = file_backend ring in
      let d1 = (open_keystore ring env rng now dir d).1 in
      let path = key_path_in dir in
      let (loaded, audit, disk) = open_keystore-ok env rng now dir d k h in
      let after = (sign_all signer ring.sha256 hex_encode calls k d1).2 in
      let apart : IsApart path k.audit_path = rw (audit) (key_path-IsApart dir) in
      let kept =
        sign_all-other signer ring.sha256 hex_encode calls k d1 path apart
        ∙ ap (λ x. x.files path) disk in
      let again =
        load_or_create-keeps ring aead der env later rng rng' path d after.files k.backend filled
          (key_path-other dir) p i loaded kept in
      (
        keystore_of now' dir k.backend,
        open_keystore-of later rng' now' dir (record { files = after.files; faults = [] }) k.backend
            again,
        refl,
      )
