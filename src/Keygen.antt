-- ===== src/Keygen.antt =====
-- src/bin/keygen.rs: the key generator. Its errors carry no meaning beyond the message, and what it
-- prints is its value; file permissions are not represented.
use amunchain.Base.{Bytes, List, ok, ok_or, unwrap_or, get_elem?}
use amunchain.Strings.{Text, ascii}
use amunchain.Paths.{FilePath, push}
use amunchain.Disk.{Io, ◌>>=◌, ◌>>◌, lift, must, create_dir_all, open_truncated, write_all}
use amunchain.Keystore.KeyFile.{Ring, Entropy}

-- The directory that the first argument names.
abbrev pub out_dir_of : List Text → FilePath
out_dir_of args = unwrap_or (ascii "data") (get_elem? args 1)

-- `main`: the public key in hexadecimal notation, after the private key was written.
unfoldable pub keygen :
    {Keypair : Type 0} → Ring Keypair → (Bytes → Text) → Entropy → List Text → Io (Unit {0}) Text
unfolding create_dir_all push open_truncated write_all
keygen ring hex_encode rng args =
    let key_path = push (ascii "validator.key") (out_dir_of args) in
    do
      must tt (create_dir_all (out_dir_of args))
      pkcs8 ← lift (ok_or rng.pkcs8 tt)
      must tt (open_truncated key_path)
      must tt (write_all key_path pkcs8)
      kp ← lift (ok_or (ring.from_pkcs8 pkcs8) tt)
      lift (ok (hex_encode (ring.public_key_of kp)))
