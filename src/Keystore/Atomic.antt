-- ===== src/Keystore/Atomic.antt =====
-- src/core/security/keystore.rs: what `atomic_write_private` leaves on the disk.
use amunchain.Base.{
  ◌≡◌, ◌∙◌, ◌⊎◌, inl, inr, refl, sym, ap, Bytes, false, Option, none, some, [], Result, ok, err,
  Option-cases,
}
use amunchain.Order.{◌=?◌, bytes_ord}
use amunchain.Strings.{ascii}
use amunchain.Paths.{FilePath, parent, set_extension}
use amunchain.Disk.{
  Disk, Io, ◌>>=◌, ◌>>◌, must, best_effort, place, contents, create_dir_all, open_truncated,
  write_all, sync_all, rename,
}
use amunchain.Disk.Laws.{
  must_bind, place_same, create_dir_all-files, sync_all-files, open_truncated-other,
  open_truncated-empty, write_all-other, write_all-contents, rename-cases,
}
use amunchain.Keystore.{KeystoreError, io}
use amunchain.Keystore.Backend.{ensure_parent, atomic_write_private}

-- After a write of `bytes` to `path`: either the file has them and the call says so, or the call
-- reports an error and the file is as it was before.
abbrev pub AllOrNothing :
    FilePath → Bytes → Option Bytes → Result KeystoreError (Unit {0}) × Disk → Type 0
AllOrNothing path bytes before after =
    ((after.0 ≡ ok tt) × (after.1.files path ≡ some bytes))
    ⊎ ((after.0 ≡ err io) × (after.1.files path ≡ before))

ensure_parent-cases :
    (path : FilePath) (k : Unit {0} → Io KeystoreError (Unit {0})) (d : Disk)
    → (d' : Disk) × (d'.files ≡ d.files)
      × (((ensure_parent path >>= k) d ≡ (err io, d')) ⊎ ((ensure_parent path >>= k) d ≡ k tt d'))
unfolding ensure_parent
ensure_parent-cases path k d = elim (Option-cases (parent path)) [
  | inl h ↦ (d, refl, inr (rw (ensure_parent, h)))
  | inr (dir, h) ↦ elim (must_bind io (create_dir_all dir) k d) [
    | inl (e, r) ↦
        ((create_dir_all dir d).1, create_dir_all-files dir d, inl (rw (ensure_parent, h) r))
    | inr (a, e, r) ↦
        ((create_dir_all dir d).1, create_dir_all-files dir d, inr (rw (ensure_parent, h) r))
  ]
]

module _ (path : FilePath) (bytes : Bytes) where
  failed :
      (d' : Disk) {before : Option Bytes} {x : Result KeystoreError (Unit {0}) × Disk}
      → x ≡ (err io, d')
      → d'.files path ≡ before
      → AllOrNothing path bytes before x
  failed d' r f = inr (ap (λ x. x.0) r, ap (λ x. x.1.files path) r ∙ f)

  went_on :
      {before now : Option Bytes} {x y : Result KeystoreError (Unit {0}) × Disk}
      → x ≡ y
      → now ≡ before
      → AllOrNothing path bytes now y
      → AllOrNothing path bytes before x
  went_on r f (inl (a, b)) = inl (ap (λ x. x.0) r ∙ a, ap (λ x. x.1.files path) r ∙ b)
  went_on r f (inr (a, b)) = inr (ap (λ x. x.0) r ∙ a, ap (λ x. x.1.files path) r ∙ (b ∙ f))

  -- The last call, from a temporary file that is complete.
  rename-AllOrNothing :
      (tmp : FilePath) (d : Disk)
      → d.files tmp ≡ some bytes
      → AllOrNothing path bytes (d.files path) (must io (rename tmp path) d)
  rename-AllOrNothing tmp d h = elim (rename-cases tmp path d) [
    | inl (r, f) ↦ inr (rw (must, r), rw (must, f))
    | inr (c, s, r, f) ↦
        let moved = place_same path (some c) (place tmp none d.files) in
        inl (rw (must, r), ap (λ files. files path) f ∙ (moved ∙ (sym s ∙ h)))
  ]

  -- The calls on the temporary file, from one that is open and empty.
  fill-AllOrNothing :
      (tmp : FilePath) (d : Disk)
      → (path =? tmp) ≡ false
      → d.files tmp ≡ some []
      → AllOrNothing path bytes (d.files path) (
          (must io (write_all tmp bytes)
              >> (best_effort (sync_all tmp) >> must io (rename tmp path)))
            d)
  fill-AllOrNothing tmp d other empty =
      let rest = λ (x : Unit {0}). best_effort (sync_all tmp) >> must io (rename tmp path) in
      let d1 = (write_all tmp bytes d).1 in
      let same = write_all-other tmp path bytes d other in
      elim (must_bind io (write_all tmp bytes) rest d) [
        | inl (e, r) ↦ failed d1 r same
        | inr (u, e, r) ↦
            let synced = sync_all-files tmp d1 in
            let full : d1.files tmp ≡ some bytes =
              write_all-contents tmp bytes d e ∙ (rw (contents, empty)) in
            went_on r (ap (λ f. f path) synced ∙ same)
              (rename-AllOrNothing tmp (sync_all tmp d1).1 (ap (λ f. f tmp) synced ∙ full))
      ]

  -- Writing the private key replaces the file by the new content, or reports an error and leaves
  -- the file as it was: for every disk and whichever of the calls fail, if the temporary path is
  -- another one.
  pub atomic_write_private-AllOrNothing :
      (d : Disk)
      → (path =? set_extension (ascii "tmp") path) ≡ false
      → AllOrNothing path bytes (d.files path) (atomic_write_private path bytes d)
  unfolding atomic_write_private
  atomic_write_private-AllOrNothing d other =
      let tmp = set_extension (ascii "tmp") path in
      let write = λ (x : Unit {0}).
        must io (write_all tmp bytes)
        >> (best_effort (sync_all tmp) >> must io (rename tmp path)) in
      let start = λ (x : Unit {0}). must io (open_truncated tmp) >>= write in
      let (d0, f0, s0) = ensure_parent-cases path start d in
      let same = open_truncated-other tmp path d0 other in
      elim s0 [
        | inl r ↦ failed d0 r (ap (λ f. f path) f0)
        | inr r ↦ elim (must_bind io (open_truncated tmp) write d0) [
          | inl (e1, r1) ↦ failed (open_truncated tmp d0).1 (r ∙ r1) (same ∙ ap (λ f. f path) f0)
          | inr (u1, e1, r1) ↦ went_on (r ∙ r1) (same ∙ ap (λ f. f path) f0) (
              fill-AllOrNothing tmp (open_truncated tmp d0).1 other
                (open_truncated-empty tmp d0 e1))
        ]
      ]
