-- ===== src/P2pIdentity.antt =====
-- src/networking/p2p_identity.rs: the network identity in a file. libp2p's keys, their protobuf
-- encoding and the newly generated key are parameters.
pub mod Kept
use amunchain.Base.{
  Bytes, Bool, true, false, Option, none, some, Result, ok, err, ok_or, if◌then◌else◌,
}
use amunchain.Strings.{ascii}
use amunchain.Paths.{FilePath, push}
use amunchain.Disk.{
  Disk, Io, ◌>>=◌, ◌>>◌, lift, must, exists, create_dir_all, read_file, open_truncated, write_all,
  sync_all, rename,
}

pub data IdentityError : Type 0 where
  io decode : IdentityError

-- What the code calls of libp2p's `identity`.
pub record Libp2pKeys (PeerId Keypair : Type 0) : Type 0 where
  pub from_protobuf : Bytes → Option Keypair
  pub to_protobuf : Keypair → Option Bytes
  pub peer_id_of : Keypair → PeerId

abbrev pub identity_path : FilePath → FilePath
identity_path dir = push (ascii "p2p_identity.key") dir

abbrev pub identity_tmp : FilePath → FilePath
identity_tmp dir = push (ascii "p2p_identity.key.tmp") dir

-- The write to a temporary file and its renaming.
unfoldable pub write_identity : FilePath → FilePath → Bytes → Io IdentityError (Unit {0})
unfolding open_truncated write_all sync_all rename
write_identity path tmp bytes = do
  must io (open_truncated tmp)
  must io (write_all tmp bytes)
  must io (sync_all tmp)
  must io (rename tmp path)

module _ {PeerId Keypair : Type 0} (keys : Libp2pKeys PeerId Keypair) where
  abbrev pub with_id : Keypair → PeerId × Keypair
  with_id kp = (keys.peer_id_of kp, kp)

  unfoldable pub load_identity : FilePath → Io IdentityError (PeerId × Keypair)
  unfolding read_file
  load_identity path = do
    bytes ← must io (read_file path)
    kp ← lift (ok_or (keys.from_protobuf bytes) decode)
    lift (ok (with_id kp))

  unfoldable pub create_identity :
      Keypair → FilePath → FilePath → Io IdentityError (PeerId × Keypair)
  unfolding write_identity
  create_identity kp path tmp = do
    bytes ← lift (ok_or (keys.to_protobuf kp) decode)
    write_identity path tmp bytes
    lift (ok (with_id kp))

  -- The second part of `load_or_create_identity`, and the whole.
  unfoldable pub find_identity : Keypair → FilePath → Io IdentityError (PeerId × Keypair)
  unfolding exists load_identity create_identity push
  find_identity new_key dir d =
      if exists (identity_path dir) d
      then load_identity (identity_path dir) d
      else create_identity new_key (identity_path dir) (identity_tmp dir) d

  unfoldable pub load_or_create_identity : Keypair → FilePath → Io IdentityError (PeerId × Keypair)
  unfolding create_dir_all find_identity
  load_or_create_identity new_key dir = do must io (create_dir_all dir); find_identity new_key dir
