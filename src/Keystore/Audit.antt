-- ===== src/Keystore/Audit.antt =====
-- The audit log of src/core/security/keystore.rs. The digest and its hexadecimal notation by the
-- `hex` crate are parameters.
use amunchain.Base.{ℕ, zero, suc, ◌*◌, Bytes, none, some, ◌∷◌, ◌++◌, leb, ◌==◌, if◌then◌else◌}
use amunchain.Strings.{Text, ascii, as_bytes, decimal}
use amunchain.Paths.{FilePath}
use amunchain.Disk.{Disk, Io, ◌>>◌, must, exists, file_length, open_append, write_all, rename}
use amunchain.Keystore.{KeystoreError, io}

abbrev pub max_audit_bytes : ℕ
max_audit_bytes = 32 * 1024 * 1024

abbrev pub audit_rotate_keep : ℕ
audit_rotate_keep = 3

-- The path of the `i`th older log.
unfoldable pub rotated : FilePath → ℕ → FilePath
unfolding decimal
rotated path i = path ++ (46 ∷ decimal i)

-- The loop of the rotation, from the oldest log.
unfoldable pub rotate_logs : FilePath → ℕ → Disk → Disk
unfolding rotated rename exists
rotate_logs path zero d = d
rotate_logs path (suc i) d =
    let dst = rotated path (suc i) in
    let src = if i == 0 then path else rotated path i in
    rotate_logs path i (if exists src d then (rename src dst d).1 else d)

unfoldable pub rotate_audit_if_needed : FilePath → Disk → Disk
unfolding file_length rotate_logs
rotate_audit_if_needed path d =
    let (size, d') = file_length path d in
    elim size [
      | none ↦ d'
      | some n ↦ if leb n max_audit_bytes then d' else rotate_logs path audit_rotate_keep d'
    ]

module _ (sha256 : Bytes → Bytes) (hex_encode : Bytes → Text) where
  -- The line that a message leaves.
  unfoldable pub audit_line : Text → Bytes → Bytes
  unfolding as_bytes
  audit_line action msg = as_bytes (
      ascii "{\"action\":\""
      ++ (action ++ (ascii "\",\"msg_sha256\":\"" ++ (hex_encode (sha256 msg) ++ ascii "\"}\n"))))

  unfoldable pub append_audit : FilePath → Text → Bytes → Io KeystoreError (Unit {0})
  unfolding rotate_audit_if_needed audit_line open_append write_all
  append_audit path action msg d =
      (must io (open_append path) >> must io (write_all path (audit_line action msg)))
        (rotate_audit_if_needed path d)
