-- ===== src/Keystore/Audited.antt =====
-- src/core/security/keystore.rs: the files that the audit log touches.
use amunchain.Base.{
  ℕ, zero, suc, ◌≡◌, ◌∙◌, refl, ap, Bytes, false, inl, inr, Bool-cases, Option-cases, ◌==◌,
  if◌then◌else◌, leb,
}
use amunchain.Order.{◌=?◌, bytes_ord}
use amunchain.Strings.{Text}
use amunchain.Paths.{FilePath}
use amunchain.Disk.{Disk, must, exists, open_append, write_all, file_length, rename}
use amunchain.Disk.Laws.{
  must_bind, rename-other, file_length-files, open_append-other, write_all-other,
}
use amunchain.Keystore.{io}
use amunchain.Keystore.Audit.{
  rotated, rotate_logs, rotate_audit_if_needed, audit_line, append_audit, max_audit_bytes,
}

-- `q` is neither the audit log nor one of its older logs.
abbrev pub IsApart : FilePath → FilePath → Type 0
IsApart q path = ((q =? path) ≡ false) × ((i : ℕ) → (q =? rotated path i) ≡ false)

module _ (path q : FilePath) (apart : IsApart q path) where
  rotate_one-other :
      (i : ℕ) (d : Disk)
      → let src = if i == 0 then path else rotated path i in
        (if exists src d then (rename src (rotated path (suc i)) d).1 else d).files q ≡ d.files q
  rotate_one-other i d =
      let src = if i == 0 then path else rotated path i in
      let dst = rotated path (suc i) in
      let away : (q =? src) ≡ false = elim (Bool-cases (i == 0)) [
        | inl e ↦ rw (e) (apart.0)
        | inr e ↦ rw (e) (apart.1 i)
      ] in
      elim (Bool-cases (exists src d)) [
        | inl e ↦ rw (e) (rename-other src dst q d away (apart.1 (suc i)))
        | inr e ↦ rw (e)
      ]

  rotate_logs-other : (n : ℕ) (d : Disk) → (rotate_logs path n d).files q ≡ d.files q
  unfolding rotate_logs
  rotate_logs-other zero d = refl
  rotate_logs-other (suc i) d =
      let src = if i == 0 then path else rotated path i in
      let d1 = if exists src d then (rename src (rotated path (suc i)) d).1 else d in
      rotate_logs-other i d1 ∙ rotate_one-other i d

  rotate_audit_if_needed-other : (d : Disk) → (rotate_audit_if_needed path d).files q ≡ d.files q
  unfolding rotate_audit_if_needed
  rotate_audit_if_needed-other d =
      let d1 = (file_length path d).1 in
      let same : d1.files q ≡ d.files q = ap (λ f. f q) (file_length-files path d) in
      elim (Option-cases (file_length path d).0) [
        | inl e ↦ rw (rotate_audit_if_needed, e) same
        | inr (n, e) ↦ elim (Bool-cases (leb n max_audit_bytes)) [
          | inl small ↦ rw (rotate_audit_if_needed, e, small) same
          | inr large ↦ rw (rotate_audit_if_needed, e, large) (rotate_logs-other 3 d1 ∙ same)
        ]
      ]

  -- An entry in the audit log leaves every file but the log and its older logs alone.
  pub append_audit-other :
      (sha256 : Bytes → Bytes) (hex_encode : Bytes → Text) (action : Text) (msg : Bytes) (d : Disk)
      → (append_audit sha256 hex_encode path action msg d).1.files q ≡ d.files q
  unfolding append_audit
  append_audit-other sha256 hex_encode action msg d =
      let line = audit_line sha256 hex_encode action msg in
      let d1 = rotate_audit_if_needed path d in
      let d2 = (open_append path d1).1 in
      let opened = open_append-other path q d1 apart.0 ∙ rotate_audit_if_needed-other d in
      elim (must_bind io (open_append path) (λ x. must io (write_all path line)) d1) [
        | inl (_, r) ↦ ap (λ x. x.1.files q) r ∙ opened
        | inr (_, _, r) ↦
            ap (λ x. x.1.files q) r ∙ (write_all-other path q line d2 apart.0 ∙ opened)
      ]
