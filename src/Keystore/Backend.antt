-- ===== src/Keystore/Backend.antt =====
-- The file-backed signer of src/core/security/keystore.rs: how the key is written, loaded and
-- created.
use amunchain.Base.{Bytes, Option, none, some, [], ◌∷◌, Result, ok, err, ok_or, if◌then◌else◌}
use amunchain.Strings.{Text, ascii, as_bytes, starts_with}
use amunchain.Paths.{FilePath, Env, parent, set_extension}
use amunchain.Disk.{
  Io, ◌>>=◌, ◌>>◌, lift, must, best_effort, exists, create_dir_all, read_file, open_truncated,
  write_all, sync_all, rename,
}
use amunchain.Types.{Signature}
use amunchain.Keystore.{KeystoreError, io, invalid_key, missing_passphrase}
use amunchain.Keystore.KeyFile.{
  Ring, Entropy, key_file_magic, env_first, encrypt_pkcs8, decrypt_pkcs8,
}

-- The trait, for signers of the type `B`.
pub record SignerBackend (B : Type 0) : Type 0 where
  pub public_key : B → Bytes
  pub sign : B → Bytes → Result KeystoreError Signature

pub record FileEd25519Backend (Keypair : Type 0) : Type 0 where
  pub keypair : Keypair

-- `create_dir_all` on the parent, where there is one.
unfoldable pub ensure_parent : FilePath → Io KeystoreError (Unit {0})
unfolding parent create_dir_all
ensure_parent path = elim (parent path) [
  | none ↦ lift (ok tt)
  | some dir ↦ must io (create_dir_all dir)
]

-- `atomic_write_private`; permissions are not represented.
unfoldable pub atomic_write_private : FilePath → Bytes → Io KeystoreError (Unit {0})
unfolding ensure_parent set_extension open_truncated write_all sync_all rename
atomic_write_private path bytes =
    let tmp = set_extension (ascii "tmp") path in
    do
      ensure_parent path
      must io (open_truncated tmp)
      must io (write_all tmp bytes)
      best_effort (sync_all tmp)
      must io (rename tmp path)

unfoldable pub passphrase : Env → Option Text
unfolding env_first
passphrase env =
    env_first env (ascii "AMUNCHAIN_KEY_PASSPHRASE" ∷ ascii "NEXUS_KEY_PASSPHRASE" ∷ [])

module _ {Keypair : Type 0} (ring : Ring Keypair) where
  unfoldable pub parse_key : Bytes → Io KeystoreError (FileEd25519Backend Keypair)
  parse_key pkcs8 d = elim (ring.from_pkcs8 pkcs8) [
    | none ↦ (err invalid_key, d)
    | some kp ↦ (ok (record { keypair = kp }), d)
  ]

  module _ (env : Env) where
    -- The PKCS#8 bytes in a key file.
    unfoldable pub unlock : Bytes → Result KeystoreError Bytes
    unfolding passphrase decrypt_pkcs8
    unlock bytes =
        if starts_with key_file_magic bytes
        then elim (passphrase env) [
          | none ↦ err missing_passphrase
          | some p ↦ decrypt_pkcs8 ring env (as_bytes p) bytes
        ]
        else ok bytes

    -- What is written for new PKCS#8 bytes.
    unfoldable pub lock : Entropy → Bytes → Result KeystoreError Bytes
    unfolding passphrase encrypt_pkcs8
    lock rng pkcs8 = elim (passphrase env) [
      | none ↦ ok pkcs8
      | some p ↦ encrypt_pkcs8 ring env rng (as_bytes p) pkcs8
    ]

    -- The two parts of `load_or_create`.
    unfoldable pub load_key : FilePath → Io KeystoreError (FileEd25519Backend Keypair)
    unfolding unlock read_file parse_key
    load_key path = do
      bytes ← must io (read_file path)
      pkcs8 ← lift (unlock bytes)
      parse_key pkcs8

    unfoldable pub create_key : Entropy → FilePath → Io KeystoreError (FileEd25519Backend Keypair)
    unfolding lock atomic_write_private parse_key
    create_key rng path = do
      pkcs8 ← lift (ok_or rng.pkcs8 invalid_key)
      on_disk ← lift (lock rng pkcs8)
      atomic_write_private path on_disk
      parse_key pkcs8

    unfoldable pub load_or_create :
        Entropy → FilePath → Io KeystoreError (FileEd25519Backend Keypair)
    unfolding exists load_key create_key
    load_or_create rng path d = if exists path d then load_key path d else create_key rng path d

  -- The trait's functions at the file-backed signer.
  unfoldable pub file_backend : SignerBackend (FileEd25519Backend Keypair)
  file_backend = record {
    public_key = λ b. ring.public_key_of b.keypair;
    sign = λ b msg. ok (record { bytes = ring.sign_with b.keypair msg });
  }
