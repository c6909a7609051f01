-- ===== src/Tests/Keys.antt =====
-- The theorems on the keystore, applied to a toy cipher and toy signatures.
use Prim.Native.Nat.{min}
use amunchain.Base.{
  ◌+◌, ◌-◌, ◌≡◌, refl, Bytes, none, some, [], ◌∷◌, ◌++◌, ok, if◌then◌else◌, length, length-append,
  take, take-append, arith, some_inj, none≢some, Bool-cases, inl, inr, ap, subst,
}
use amunchain.Order.{◌=?◌, bytes_ord}
use amunchain.Strings.{ascii, trim, starts_with, strip_prefix, parse_unsigned}
use amunchain.Paths.{FilePath, Env, push, parent, set_extension, split_last}
use amunchain.Disk.{
  place, Disk, outcome, exists, create_dir_all, open_truncated, write_all, sync_all, rename,
}
use amunchain.Types.{Vote}
use amunchain.Keystore.RateLimiter.{new_limiter, allow, roll}
use amunchain.Keystore.KeyFile.{
  Ring, Entropy, key_file_magic, env_first, pbkdf2_iters, derive_aes256gcm_key, encrypt_pkcs8,
  decrypt_pkcs8,
}
use amunchain.Keystore.Sealed.{IsAead, IsFilled, decrypt_pkcs8-encrypt_pkcs8}
use amunchain.Keystore.Backend.{
  FileEd25519Backend, file_backend, ensure_parent, atomic_write_private, passphrase, lock,
  parse_key, create_key, load_or_create,
}
use amunchain.Keystore.Atomic.{AllOrNothing, atomic_write_private-AllOrNothing}
use amunchain.Keystore.Restart.{IsDer}
use amunchain.Keystore.Sign.{
  key_path_in, Keystore, keystore_of, open_keystore, keystore_sign, keystore_public_key,
}
use amunchain.Keystore.Reopened.{sign_all, reopened-keystore_public_key}
use amunchain.Keystore.Granted.{IsEd25519, sign_all-exact, check_signature-keystore_sign}
use amunchain.Types.Codec.{encode_canonical}
use amunchain.Signing.{domain_v2, to_be_bytes, vote_signing_bytes_auto, vote_signing_bytes_v2}
use amunchain.Tide.{check_signature}
use amunchain.Keygen.{keygen}
use amunchain.Tests.{replicate, outside, ballot}

abbrev tag : Bytes
tag = replicate 16 0

-- The cipher appends the tag, and a key pair is its PKCS#8 bytes.
abbrev toy : Ring Bytes
toy = record {
  derive = λ iters salt pass. pass;
  seal = λ key nonce plain. some (plain ++ tag);
  unseal = λ key nonce sealed. some (take (length sealed - 16) sealed);
  from_pkcs8 = λ b. if starts_with key_file_magic b then none else some b;
  public_key_of = λ kp. replicate 32 2;
  sign_with = λ kp msg. replicate 64 1;
  sha256 = λ msg. msg;
}

toy-IsAead : IsAead toy
toy-IsAead = record {
  opens = λ key nonce plain sealed h.
      let same : plain ++ tag ≡ sealed = some_inj h in
      let short : length plain ≡ length (plain ++ tag) - 16 =
        omega (arith, length-append plain tag) in
      subst (λ s. some (take (length s - 16) s) ≡ some plain) same
        (ap some (take-append (length (plain ++ tag) - 16) plain tag short));
  grows = λ key nonce plain sealed h.
      let same : plain ++ tag ≡ sealed = some_inj h in
      subst (λ s. length s ≡ length plain + 16) same (length-append plain tag);
}

toy-IsDer : IsDer toy
toy-IsDer pkcs8 kp h = elim (Bool-cases (starts_with key_file_magic pkcs8)) [
  | inr e ↦ e
  | inl e ↦ absurd (none≢some (rw e at h))
]

abbrev rng : Entropy
rng = record {
  salt = some (replicate 16 1);
  nonce = some (replicate 12 2);
  pkcs8 = some (48 ∷ 1 ∷ 2 ∷ []);
}

rng-IsFilled : IsFilled rng
rng-IsFilled = record {
  salt_length = λ salt h. subst (λ s. length s ≡ 16) (some_inj h) refl;
  nonce_length = λ nonce h. subst (λ s. length s ≡ 12) (some_inj h) refl;
}

-- The passphrase under its new and under its old name.
abbrev env : Env
env k = if k =? ascii "AMUNCHAIN_KEY_PASSPHRASE" then some (ascii "pw") else none

abbrev old_env : Env
old_env k = if k =? ascii "NEXUS_KEY_PASSPHRASE" then some (ascii "pw") else none

abbrev key_file : Bytes
key_file = key_file_magic ++ (replicate 16 1 ++ (replicate 12 2 ++ (48 ∷ 1 ∷ 2 ∷ tag)))

decrypt_pkcs8-encrypt_pkcs8_example :
    decrypt_pkcs8 toy old_env (ascii "pw") key_file ≡ ok (48 ∷ 1 ∷ 2 ∷ [])
unfolding encrypt_pkcs8 derive_aes256gcm_key pbkdf2_iters env_first trim parse_unsigned
decrypt_pkcs8-encrypt_pkcs8_example =
    decrypt_pkcs8-encrypt_pkcs8 toy toy-IsAead env old_env rng (ascii "pw") (48 ∷ 1 ∷ 2 ∷ [])
      key_file rng-IsFilled refl refl

-- The write of the temporary file fails after three bytes.
abbrev full_disk : Disk
full_disk = record { files = λ _. none; faults = none ∷ none ∷ some 3 ∷ [] }

abbrev key_path : FilePath
key_path = ascii "data/validator.key"

atomic_write_private-AllOrNothing_example :
    AllOrNothing key_path key_file none (atomic_write_private key_path key_file full_disk)
unfolding set_extension split_last
atomic_write_private-AllOrNothing_example =
    atomic_write_private-AllOrNothing key_path key_file full_disk refl

-- An opened keystore, on a disk where the parent directory could not be synchronised.
abbrev start_disk : Disk
start_disk = record { files = λ _. none; faults = none ∷ none ∷ none ∷ some 0 ∷ [] }

abbrev opened_keys : Keystore (FileEd25519Backend Bytes)
opened_keys = keystore_of 5 (ascii "data") (record { keypair = 48 ∷ 1 ∷ 2 ∷ [] })

start_disk-opened : (open_keystore toy env rng 5 (ascii "data") start_disk).0 ≡ ok opened_keys
unfolding open_keystore load_or_create create_key lock encrypt_pkcs8 derive_aes256gcm_key passphrase
    env_first trim atomic_write_private ensure_parent parent set_extension split_last push
    open_truncated write_all sync_all rename create_dir_all outcome parse_key exists pbkdf2_iters
    parse_unsigned strip_prefix
start_disk-opened = refl

reopened-keystore_public_key_example :
    let opened = open_keystore toy env rng 5 (ascii "data") start_disk in
    let (_, _, after) =
      sign_all
        (file_backend toy)
        toy.sha256
        (λ b. b)
        ((6, []) ∷ (7, 1 ∷ []) ∷ [])
        opened_keys
        opened.1 in
    let again =
      open_keystore toy old_env rng 9
        (ascii "data")
        (record { files = after.files; faults = [] }) in
    (k' : Keystore (FileEd25519Backend Bytes)) × (again.0 ≡ ok k')
    × (keystore_public_key (file_backend toy) k'
        ≡ keystore_public_key (file_backend toy) opened_keys)
unfolding passphrase env_first trim pbkdf2_iters
reopened-keystore_public_key_example =
    reopened-keystore_public_key toy (λ b. b) env old_env rng rng 5 9 (ascii "data") start_disk
      opened_keys ((6, []) ∷ (7, 1 ∷ []) ∷ []) toy-IsAead toy-IsDer rng-IsFilled refl refl
      start_disk-opened

abbrev limited_keys : Keystore (FileEd25519Backend Bytes)
limited_keys = record opened_keys { limiter = new_limiter 5 2 }

sign_all-exact_example :
    (sign_all
      (file_backend toy)
      toy.sha256
      (λ b. b)
      ((6, []) ∷ (7, []) ∷ (8, []) ∷ [])
      limited_keys
      start_disk).0
    ≡ min 3 2
sign_all-exact_example =
    sign_all-exact toy (λ b. b) ((6, []) ∷ (7, []) ∷ (8, []) ∷ []) limited_keys start_disk 5 2 refl
      refl (omega arith) (omega arith, (omega arith, (omega arith, tt)))

toy-IsEd25519 : IsEd25519 toy outside.verify
toy-IsEd25519 = record {
  key_length = λ kp. refl;
  signature_length = λ kp msg. refl;
  verifies = λ kp msg. refl;
}

abbrev own_vote : Vote
own_vote = ballot 1 1 9 1 2 1

abbrev own_bytes : Bytes
own_bytes =
    domain_v2
    ++ (to_be_bytes 8 1
        ++ (to_be_bytes 8 0
            ++ (to_be_bytes 8 1
                ++ (to_be_bytes 8 1
                    ++ (to_be_bytes 8 9
                        ++ (to_be_bytes 4 0 ++ (replicate 32 1 ++ replicate 32 2)))))))

check_signature-keystore_sign_example : check_signature outside own_vote ≡ ok tt
unfolding vote_signing_bytes_auto vote_signing_bytes_v2 encode_canonical keystore_public_key
    file_backend keystore_sign allow roll new_limiter
check_signature-keystore_sign_example =
    check_signature-keystore_sign toy (λ b. b) outside toy-IsEd25519 6 opened_keys start_disk
      own_vote own_bytes refl refl refl

-- The key generator replaces a key that is there, and the keystore then has the new one.
abbrev old_key : Disk
old_key = record {
  files = place (key_path_in (ascii "data")) (some (48 ∷ 9 ∷ [])) (λ _. none);
  faults = [];
}

replaced_key :
    (keygen toy (λ b. b) rng (ascii "keygen" ∷ []) old_key).1.files (key_path_in (ascii "data"))
    ≡ some (48 ∷ 1 ∷ 2 ∷ [])
unfolding keygen create_dir_all open_truncated write_all outcome push split_last strip_prefix
replaced_key = refl
