-- ===== src/Keystore/Restart.antt =====
-- src/core/security/keystore.rs: the key that a later start of the node gets.
use amunchain.Base.{
  ok_inj, err≢ok, ◌≡◌, refl, ◌∙◌, sym, ap, Bytes, true, false, Option, some, [], ◌++◌, ok, ok_or,
  Option-cases, Bool-cases, inl, inr,
}
use amunchain.Order.{◌=?◌, bytes_ord}
use amunchain.Strings.{ascii, as_bytes, starts_with, strip_prefix-append}
use amunchain.Paths.{FilePath, Env, set_extension}
use amunchain.Disk.{Disk, ◌>>=◌, lift, must, outcome, exists, read_file}
use amunchain.Disk.Laws.{bind_done, must_done, read_file-files, read_file-contents}
use amunchain.Keystore.{io, invalid_key}
use amunchain.Keystore.KeyFile.{
  Ring, Entropy, key_file_magic, pbkdf2_iters, derive_aes256gcm_key, encrypt_pkcs8, decrypt_pkcs8,
}
use amunchain.Keystore.Sealed.{IsAead, IsFilled, decrypt_pkcs8-encrypt_pkcs8, encrypt_pkcs8-layout}
use amunchain.Keystore.Backend.{
  FileEd25519Backend, passphrase, unlock, lock, parse_key, load_key, create_key, load_or_create,
  atomic_write_private,
}
use amunchain.Keystore.Atomic.{atomic_write_private-AllOrNothing}

module _ {Keypair : Type 0} (ring : Ring Keypair) where
  -- PKCS#8 is DER: a key that parses does not start like an encrypted file.
  abbrev pub IsDer : Type 0
  IsDer =
      (pkcs8 : Bytes) (kp : Keypair)
      → ring.from_pkcs8 pkcs8 ≡ some kp
      → starts_with key_file_magic pkcs8 ≡ false

  -- The file opens to the signer's key.
  abbrev pub Holds : Env → Bytes → FileEd25519Backend Keypair → Type 0
  Holds env file b =
      (pkcs8 : Bytes) × (unlock ring env file ≡ ok pkcs8) × (ring.from_pkcs8 pkcs8 ≡ some b.keypair)

  parse_key-ok :
      (pkcs8 : Bytes) (d : Disk) (b : FileEd25519Backend Keypair)
      → (parse_key ring pkcs8 d).0 ≡ ok b
      → (ring.from_pkcs8 pkcs8 ≡ some b.keypair) × ((parse_key ring pkcs8 d).1 ≡ d)
  unfolding parse_key
  parse_key-ok pkcs8 d b h = elim (Option-cases (ring.from_pkcs8 pkcs8)) [
    | inl e ↦ absurd (err≢ok (rw (parse_key, e) at h))
    | inr (kp, e) ↦
        (e ∙ ap (λ x. some x.keypair) (ok_inj (rw (parse_key, e) at h)), rw (parse_key, e))
  ]

  -- Both ways of getting a key leave a file that holds it.
  load_key-Holds :
      (env : Env) (path : FilePath) (d : Disk) (b : FileEd25519Backend Keypair)
      → (load_key ring env path d).0 ≡ ok b
      → (file : Bytes) × ((load_key ring env path d).1.files path ≡ some file) × Holds env file b
  unfolding load_key
  load_key-Holds env path d b h =
      let after = λ (bytes : Bytes). lift (unlock ring env bytes) >>= parse_key ring in
      let (file, h1, r1) = bind_done (must io (read_file path)) after d h in
      let stored = read_file-contents path d file (must_done io (read_file path) d h1) in
      let d1 = (read_file path d).1 in
      let k1 : (after file d1).0 ≡ ok b = sym (ap (λ x. x.0) r1) ∙ h in
      let (pkcs8, h2, r2) = bind_done (lift (unlock ring env file)) (parse_key ring) d1 k1 in
      let (key, same) = parse_key-ok pkcs8 d1 b (sym (ap (λ x. x.0) r2) ∙ k1) in
      let end' : (load_key ring env path d).1 ≡ d1 = ap (λ x. x.1) r1 ∙ (ap (λ x. x.1) r2 ∙ same) in
      (
        file,
        ap (λ x. x.files path) end' ∙ (ap (λ f. f path) (read_file-files path d) ∙ stored),
        (pkcs8, h2, key),
      )

  module _ (aead : IsAead ring) (der : IsDer) where
    unlock-lock :
        (env : Env) (rng : Entropy) (pkcs8 file : Bytes) (kp : Keypair)
        → IsFilled rng
        → ring.from_pkcs8 pkcs8 ≡ some kp
        → lock ring env rng pkcs8 ≡ ok file
        → unlock ring env file ≡ ok pkcs8
    unfolding lock unlock
    unlock-lock env rng pkcs8 file kp filled key h = elim (Option-cases (passphrase env)) [
      | inl e ↦
          let same : pkcs8 ≡ file = ok_inj (rw (lock, e) at h) in
          rw (unlock, sym same, der pkcs8 kp key)
      | inr (p, e) ↦
          let made : encrypt_pkcs8 ring env rng (as_bytes p) pkcs8 ≡ ok file = rw (lock, e) at h in
          let (salt, nonce, sealed, _, _, _, layout) =
            encrypt_pkcs8-layout ring aead env rng (as_bytes p) pkcs8 file made in
          let marked : starts_with key_file_magic file ≡ true =
            rw (layout, strip_prefix-append key_file_magic (salt ++ (nonce ++ sealed))) in
          rw (unlock, marked, e)
            (decrypt_pkcs8-encrypt_pkcs8 ring aead env env rng (as_bytes p) pkcs8 file filled refl
              made)
    ]

    create_key-Holds :
        (env : Env) (rng : Entropy) (path : FilePath) (d : Disk) (b : FileEd25519Backend Keypair)
        → IsFilled rng
        → (path =? set_extension (ascii "tmp") path) ≡ false
        → (create_key ring env rng path d).0 ≡ ok b
        → (file : Bytes) × ((create_key ring env rng path d).1.files path ≡ some file)
          × Holds env file b
    unfolding create_key
    create_key-Holds env rng path d b filled other h =
        let finish = λ (pkcs8 : Bytes) (x : Unit {0}). parse_key ring pkcs8 in
        let write =
          λ (pkcs8 : Bytes) (file : Bytes). atomic_write_private path file >>= finish pkcs8 in
        let seal = λ (pkcs8 : Bytes). lift (lock ring env rng pkcs8) >>= write pkcs8 in
        let (pkcs8, h1, r1) = bind_done (lift (ok_or rng.pkcs8 invalid_key)) seal d h in
        let k1 : (seal pkcs8 d).0 ≡ ok b = sym (ap (λ x. x.0) r1) ∙ h in
        let (file, h2, r2) = bind_done (lift (lock ring env rng pkcs8)) (write pkcs8) d k1 in
        let k2 : (write pkcs8 file d).0 ≡ ok b = sym (ap (λ x. x.0) r2) ∙ k1 in
        let (u, h3, r3) = bind_done (atomic_write_private path file) (finish pkcs8) d k2 in
        let d1 = (atomic_write_private path file d).1 in
        let k3 : (parse_key ring pkcs8 d1).0 ≡ ok b = sym (ap (λ x. x.0) r3) ∙ k2 in
        let (key, same) = parse_key-ok pkcs8 d1 b k3 in
        let end' : (create_key ring env rng path d).1 ≡ d1 =
          ap (λ x. x.1) r1 ∙ (ap (λ x. x.1) r2 ∙ (ap (λ x. x.1) r3 ∙ same)) in
        let written : d1.files path ≡ some file =
          elim (atomic_write_private-AllOrNothing path file d other) [
            | inl (_, w) ↦ w
            | inr (e, _) ↦ absurd (err≢ok (sym e ∙ h3))
          ] in
        (
          file,
          ap (λ x. x.files path) end' ∙ written,
          (pkcs8, unlock-lock env rng pkcs8 file b.keypair filled key h2, key),
        )

    load_or_create-Holds :
        (env : Env) (rng : Entropy) (path : FilePath) (d : Disk) (b : FileEd25519Backend Keypair)
        → IsFilled rng
        → (path =? set_extension (ascii "tmp") path) ≡ false
        → (load_or_create ring env rng path d).0 ≡ ok b
        → (file : Bytes) × ((load_or_create ring env rng path d).1.files path ≡ some file)
          × Holds env file b
    unfolding load_or_create
    load_or_create-Holds env rng path d b filled other h = elim (Bool-cases (exists path d)) [
      | inl e ↦ rw (load_or_create, e) (load_key-Holds env path d b (rw (load_or_create, e) at h))
      | inr e ↦
          rw (load_or_create, e)
            (create_key-Holds env rng path d b filled other (rw (load_or_create, e) at h))
    ]

  decrypt_pkcs8-later :
      (env later : Env) (pass file : Bytes)
      → pbkdf2_iters later ≡ pbkdf2_iters env
      → decrypt_pkcs8 ring later pass file ≡ decrypt_pkcs8 ring env pass file
  unfolding decrypt_pkcs8 derive_aes256gcm_key
  decrypt_pkcs8-later env later pass file i = rw (decrypt_pkcs8, derive_aes256gcm_key, i)

  unlock-later :
      (env later : Env) (file : Bytes)
      → passphrase later ≡ passphrase env
      → pbkdf2_iters later ≡ pbkdf2_iters env
      → unlock ring later file ≡ unlock ring env file
  unfolding unlock
  unlock-later env later file p i = elim (Option-cases (passphrase env)) [
    | inl e ↦ rw (unlock, p, e)
    | inr (w, e) ↦ rw (unlock, p, e, decrypt_pkcs8-later env later (as_bytes w) file i)
  ]

  -- The way back: a file that holds a key gives it to a start with the same passphrase.
  Holds-later :
      (env later : Env) (file : Bytes) (b : FileEd25519Backend Keypair)
      → passphrase later ≡ passphrase env
      → pbkdf2_iters later ≡ pbkdf2_iters env
      → Holds env file b
      → Holds later file b
  Holds-later env later file b p i (pkcs8, u, k) = (pkcs8, unlock-later env later file p i ∙ u, k)

  load_or_create-stored :
      (env : Env) (rng : Entropy) (path : FilePath) (files : FilePath → Option Bytes) (file : Bytes)
      (b : FileEd25519Backend Keypair)
      → files path ≡ some file
      → Holds env file b
      → (load_or_create ring env rng path (record { files = files; faults = [] })).0 ≡ ok b
  unfolding load_or_create exists load_key read_file outcome parse_key
  load_or_create-stored env rng path files file b h (pkcs8, u, k) = rw (h, u, parse_key, k)

  -- A node that got its key, from a file that it created or found, and starts again with the same
  -- passphrase and the same number of iterations finds the same key, whatever failed in the first
  -- start and whatever random bytes the second gets, if the key's file is what the first start left
  -- and the second start reads it without error.
  pub load_or_create-keeps :
      IsAead ring
      → IsDer
      → (env later : Env) (rng rng' : Entropy) (path : FilePath) (d : Disk)
        (files : FilePath → Option Bytes) (b : FileEd25519Backend Keypair)
      → IsFilled rng
      → (path =? set_extension (ascii "tmp") path) ≡ false
      → passphrase later ≡ passphrase env
      → pbkdf2_iters later ≡ pbkdf2_iters env
      → (load_or_create ring env rng path d).0 ≡ ok b
      → files path ≡ (load_or_create ring env rng path d).1.files path
      → (load_or_create ring later rng' path (record { files = files; faults = [] })).0 ≡ ok b
  load_or_create-keeps aead der env later rng rng' path d files b filled other p i h same =
      let (file, stored, held) = load_or_create-Holds aead der env rng path d b filled other h in
      load_or_create-stored later rng' path files file b (same ∙ stored)
        (Holds-later env later file b p i held)
