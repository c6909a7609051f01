-- ===== src/Disk.antt =====
-- `std::fs` as the sources use it. A disk has the contents of its files and the outcomes of the
-- calls to come: a call takes the next one, where `some k` is an error, after `k` bytes for a
-- write. When none is left, calls succeed. Directories and permissions are not represented.
pub mod Laws
use amunchain.Base.{
  ℕ, Bytes, Bool, true, false, Option, none, some, is_some, List, [], ◌∷◌, ◌++◌, Result, ok, err,
  take, length, if◌then◌else◌,
}
use amunchain.Order.{◌=?◌, bytes_ord}
use amunchain.Paths.{FilePath}

pub record Disk : Type 0 where
  pub files : FilePath → Option Bytes
  pub faults : List (Option ℕ)

-- One file with a new content, or none.
abbrev pub place : FilePath → Option Bytes → (FilePath → Option Bytes) → FilePath → Option Bytes
place p c files q = if q =? p then c else files q

-- A call that may fail, as a function from the disk to its value and the new disk.
abbrev pub Io : Type 0 → Type 0 → Type 0
Io E A = Disk → Result E A × Disk

module _ {E : Type 0} where
  infixl 5 ◌>>=◌ ◌>>◌
  abbrev pub ◌>>=◌ : {A B : Type 0} → Io E A → (A → Io E B) → Io E B
  ◌>>=◌ m f d = let (r, d') = m d in elim r [ ok a ↦ f a d' | err e ↦ (err e, d') ]

  abbrev pub ◌>>◌ : {B : Type 0} → Io E (Unit {0}) → Io E B → Io E B
  m >> k = m >>= λ _. k

  abbrev pub lift : {A : Type 0} → Result E A → Io E A
  lift r d = (r, d)

  -- A call of the system under an error of the caller's, and one whose error is dropped.
  abbrev pub must : {A : Type 0} → E → (Disk → Option A × Disk) → Io E A
  must e m d = let (r, d') = m d in (elim r [ none ↦ err e | some a ↦ ok a ], d')

  abbrev pub best_effort : {A : Type 0} → (Disk → Option A × Disk) → Io E (Unit {0})
  best_effort m d = let (r, d') = m d in (ok tt, d')

-- The next outcome.
unfoldable pub outcome : Disk → Option ℕ × Disk
outcome d = elim d.faults [ [] ↦ (none, d) | f ∷ fs ↦ (f, record d { faults = fs }) ]

-- `Path::exists`
unfoldable pub exists : FilePath → Disk → Bool
exists p d = is_some (d.files p)

-- `fs::create_dir_all`
unfoldable pub create_dir_all : FilePath → Disk → Option (Unit {0}) × Disk
unfolding outcome
create_dir_all dir d = let (f, d') = outcome d in (elim f [ none ↦ some tt | some k ↦ none ], d')

-- `fs::read`
unfoldable pub read_file : FilePath → Disk → Option Bytes × Disk
unfolding outcome
read_file p d = let (f, d') = outcome d in (elim f [ none ↦ d.files p | some k ↦ none ], d')

-- The length that `fs::metadata` reports.
unfoldable pub file_length : FilePath → Disk → Option ℕ × Disk
unfolding outcome
file_length p d =
    let (f, d') = outcome d in
    let size : Option ℕ = elim (d.files p) [ none ↦ none | some c ↦ some (length c) ] in
    (elim f [ none ↦ size | some k ↦ none ], d')

-- Opening with `create` and `truncate`, and with `create` and `append`.
unfoldable pub open_truncated : FilePath → Disk → Option (Unit {0}) × Disk
unfolding outcome
open_truncated p d =
    let (f, d') = outcome d in
    elim f [
      | some k ↦ (none, d')
      | none ↦ (some tt, record d' { files = place p (some []) d.files })
    ]

-- The bytes of a file; an absent one counts as empty.
abbrev pub contents : FilePath → Disk → Bytes
contents p d = elim (d.files p) [ none ↦ [] | some c ↦ c ]

unfoldable pub open_append : FilePath → Disk → Option (Unit {0}) × Disk
unfolding outcome
open_append p d =
    let (f, d') = outcome d in
    elim f [
      | some k ↦ (none, d')
      | none ↦ (some tt, record d' { files = place p (some (contents p d)) d.files })
    ]

-- `write_all` at the end of an open file; what was written before an error stays.
unfoldable pub write_all : FilePath → Bytes → Disk → Option (Unit {0}) × Disk
unfolding outcome
write_all p bytes d =
    let (f, d') = outcome d in
    elim f [
      | some k ↦ (none, record d' { files = place p (some (contents p d ++ take k bytes)) d.files })
      | none ↦ (some tt, record d' { files = place p (some (contents p d ++ bytes)) d.files })
    ]

-- `sync_all`
unfoldable pub sync_all : FilePath → Disk → Option (Unit {0}) × Disk
unfolding outcome
sync_all p d = let (f, d') = outcome d in (elim f [ none ↦ some tt | some k ↦ none ], d')

-- `fs::rename` replaces the target in one step, or fails and changes nothing.
unfoldable pub rename : FilePath → FilePath → Disk → Option (Unit {0}) × Disk
unfolding outcome
rename src dst d =
    let (f, d') = outcome d in
    elim f [
      | some k ↦ (none, d')
      | none ↦ elim (d.files src) [
        | none ↦ (none, d')
        | some c ↦ (some tt, record d' { files = place dst (some c) (place src none d.files) })
      ]
    ]
