-- ===== src/Disk/Laws.antt =====
-- What calls on a disk change and what they leave alone, whichever of them fail.
use amunchain.Base.{
  ℕ, ◌≡◌, ◌⊎◌, inl, inr, false, Option, none, some, refl, ℕ, Bytes, List, [], ◌∷◌, ◌++◌, ap, ok,
  err, Option-cases, none≢some, err≢ok, ok_inj, Result-cases, ◌∙◌,
}
use amunchain.Order.{◌=?◌, =?_refl, bytes_ord}
use amunchain.Paths.{FilePath}
use amunchain.Disk.{
  Disk, Io, ◌>>=◌, must, place, contents, outcome, create_dir_all, sync_all, read_file, file_length,
  open_truncated, open_append, write_all, rename,
}

-- A chain whose first call failed, or went on.
pub must_bind :
    {E A B : Type 0} (e : E) (m : Disk → Option A × Disk) (k : A → Io E B) (d : Disk)
    → (((m d).0 ≡ none) × ((must e m >>= k) d ≡ (err e, (m d).1)))
      ⊎ ((a : A) × ((m d).0 ≡ some a) × ((must e m >>= k) d ≡ k a (m d).1))
must_bind e m k d = elim (Option-cases (m d).0) [
  | inl h ↦ inl (h, rw (h))
  | inr (a, h) ↦ inr (a, h, rw (h))
]

-- A chain that succeeded went through its first part.
pub bind_done :
    {E A B : Type 0} (m : Io E A) (k : A → Io E B) (d : Disk) {b : B}
    → ((m >>= k) d).0 ≡ ok b
    → (a : A) × ((m d).0 ≡ ok a) × ((m >>= k) d ≡ k a (m d).1)
bind_done m k d h = elim (Result-cases (m d).0) [
  | inl (a, e) ↦ (a, e, rw (◌>>=◌, e))
  | inr (x, e) ↦ absurd (err≢ok (rw (◌>>=◌, e) at h))
]

pub must_done :
    {E A : Type 0} (e : E) (m : Disk → Option A × Disk) (d : Disk) {a : A}
    → (must e m d).0 ≡ ok a
    → (m d).0 ≡ some a
must_done e m d h = elim (Option-cases (m d).0) [
  | inl n ↦ absurd (err≢ok (rw n at h))
  | inr (a', n) ↦ n ∙ ap some (ok_inj (rw n at h))
]

pub place_same :
    (p : FilePath) (c : Option Bytes) (files : FilePath → Option Bytes) → place p c files p ≡ c
place_same p c files = rw (=?_refl p)

pub place_other :
    (p q : FilePath) (c : Option Bytes) (files : FilePath → Option Bytes)
    → (q =? p) ≡ false
    → place p c files q ≡ files q
place_other p q c files h = rw (h)

-- The next outcome and the disk after it, in one form.
abbrev Outcome : Disk → Option ℕ → Type 0
Outcome d f = (fs : List (Option ℕ)) × (outcome d ≡ (f, record d { faults = fs }))

Outcome-of :
    (files : FilePath → Option Bytes) (faults : List (Option ℕ))
    → let d : Disk = record { files = files; faults = faults } in
      Outcome d none ⊎ ((k : ℕ) × Outcome d (some k))
unfolding outcome
Outcome-of files [] = inl ([], refl)
Outcome-of files (none ∷ fs) = inl (fs, refl)
Outcome-of files (some k ∷ fs) = inr (k, (fs, refl))

Outcome-cases : (d : Disk) → Outcome d none ⊎ ((k : ℕ) × Outcome d (some k))
Outcome-cases d = Outcome-of d.files d.faults

pub create_dir_all-files : (dir : FilePath) (d : Disk) → (create_dir_all dir d).1.files ≡ d.files
unfolding create_dir_all
create_dir_all-files dir d = elim (Outcome-cases d) [
  | inl (fs, e) ↦ rw (e, create_dir_all)
  | inr (k, (fs, e)) ↦ rw (e, create_dir_all)
]

pub sync_all-files : (p : FilePath) (d : Disk) → (sync_all p d).1.files ≡ d.files
unfolding sync_all
sync_all-files p d = elim (Outcome-cases d) [
  | inl (fs, e) ↦ rw (e, sync_all)
  | inr (k, (fs, e)) ↦ rw (e, sync_all)
]

pub read_file-files : (p : FilePath) (d : Disk) → (read_file p d).1.files ≡ d.files
unfolding read_file
read_file-files p d = elim (Outcome-cases d) [
  | inl (fs, e) ↦ rw (e, read_file)
  | inr (k, (fs, e)) ↦ rw (e, read_file)
]

pub read_file-contents :
    (p : FilePath) (d : Disk) (c : Bytes) → (read_file p d).0 ≡ some c → d.files p ≡ some c
unfolding read_file
read_file-contents p d c h = elim (Outcome-cases d) [
  | inl (fs, e) ↦ rw (e, read_file) at h
  | inr (k, (fs, e)) ↦ absurd (none≢some (rw (e, read_file) at h))
]

-- Opening a file for writing changes no other file, and on success the file is empty.
pub open_truncated-other :
    (p q : FilePath) (d : Disk) → (q =? p) ≡ false → (open_truncated p d).1.files q ≡ d.files q
unfolding open_truncated
open_truncated-other p q d h = elim (Outcome-cases d) [
  | inl (fs, e) ↦ rw (e, open_truncated, h)
  | inr (k, (fs, e)) ↦ rw (e, open_truncated, e)
]

pub open_truncated-empty :
    (p : FilePath) (d : Disk)
    → (open_truncated p d).0 ≡ some tt
    → (open_truncated p d).1.files p ≡ some []
unfolding open_truncated
open_truncated-empty p d h = elim (Outcome-cases d) [
  | inl (fs, e) ↦ rw (e, open_truncated, =?_refl p)
  | inr (k, (fs, e)) ↦ absurd (none≢some (rw (e, open_truncated) at h))
]

pub write_all-other :
    (p q : FilePath) (bytes : Bytes) (d : Disk)
    → (q =? p) ≡ false
    → (write_all p bytes d).1.files q ≡ d.files q
unfolding write_all
write_all-other p q bytes d h = elim (Outcome-cases d) [
  | inl (fs, e) ↦ rw (e, write_all, h)
  | inr (k, (fs, e)) ↦ rw (e, write_all, h)
]

pub write_all-contents :
    (p : FilePath) (bytes : Bytes) (d : Disk)
    → (write_all p bytes d).0 ≡ some tt
    → (write_all p bytes d).1.files p ≡ some (contents p d ++ bytes)
unfolding write_all
write_all-contents p bytes d h = elim (Outcome-cases d) [
  | inl (fs, e) ↦ rw (e, write_all, =?_refl p)
  | inr (k, (fs, e)) ↦ absurd (none≢some (rw (e, write_all) at h))
]

-- A rename that fails changes nothing; one that succeeds moves the content.
pub rename-cases :
    (src dst : FilePath) (d : Disk)
    → (((rename src dst d).0 ≡ none) × ((rename src dst d).1.files ≡ d.files))
      ⊎ ((c : Bytes) × (d.files src ≡ some c)
          × ((rename src dst d).0 ≡ some tt)
          × ((rename src dst d).1.files ≡ place dst (some c) (place src none d.files)))
unfolding rename
rename-cases src dst d = elim (Outcome-cases d) [
  | inr (k, (fs, e)) ↦
      let done : rename src dst d ≡ (none, record d { faults = fs }) = rw (rename, e, e) in
      inl (ap (λ r. r.0) done, ap (λ r. r.1.files) done)
  | inl (fs, e) ↦ elim (Option-cases (d.files src)) [
    | inl h ↦
        let done : rename src dst d ≡ (none, record d { faults = fs }) = rw (rename, e, h, e) in
        inl (ap (λ r. r.0) done, ap (λ r. r.1.files) done)
    | inr (c, h) ↦
        let moved = place dst (some c) (place src none d.files) in
        let done : rename src dst d ≡ (some tt, record { files = moved; faults = fs }) =
          rw (rename, e, h, e) in
        inr (c, h, ap (λ r. r.0) done, ap (λ r. r.1.files) done)
  ]
]

pub rename-other :
    (src dst q : FilePath) (d : Disk)
    → (q =? src) ≡ false
    → (q =? dst) ≡ false
    → (rename src dst d).1.files q ≡ d.files q
rename-other src dst q d hs hd = elim (rename-cases src dst d) [
  | inl (_, f) ↦ ap (λ files. files q) f
  | inr (c, _, _, f) ↦
      let moved = place src none d.files in
      ap (λ files. files q) f
      ∙ (place_other dst q (some c) moved hd ∙ place_other src q none d.files hs)
]

pub file_length-files : (p : FilePath) (d : Disk) → (file_length p d).1.files ≡ d.files
unfolding file_length
file_length-files p d = elim (Outcome-cases d) [
  | inl (fs, e) ↦ rw (e, file_length)
  | inr (k, (fs, e)) ↦ rw (e, file_length)
]

pub open_append-other :
    (p q : FilePath) (d : Disk) → (q =? p) ≡ false → (open_append p d).1.files q ≡ d.files q
unfolding open_append
open_append-other p q d h = elim (Outcome-cases d) [
  | inl (fs, e) ↦ rw (e, open_append, h)
  | inr (k, (fs, e)) ↦ rw (e, open_append, e)
]
