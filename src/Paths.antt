-- ===== src/Paths.antt =====
-- What the sources use of `std::path` and `std::env`: paths as strings with the separator `/`, for
-- paths that end in a file name other than `..`.
pub mod Laws
use amunchain.Base.{
  ℕ, Bool, true, false, Option, none, some, List, [], ◌∷◌, ◌++◌, ◌==◌, if◌then◌else◌,
}
use amunchain.Strings.{Text}

abbrev pub FilePath : Type 0
FilePath = Text

-- The environment variables whose value is valid Unicode.
abbrev pub Env : Type 0
Env = Text → Option Text

-- What stands before and after the last `c`.
unfoldable pub split_last : ℕ → Text → Option (Text × Text)
split_last c [] = none
split_last c (x ∷ xs) = elim (split_last c xs) [
  | some (a, b) ↦ some (x ∷ a, b)
  | none ↦ if x == c then some ([], xs) else none
]

-- `PathBuf::push` with a plain file name.
unfoldable pub push : Text → FilePath → FilePath
unfolding split_last
push name [] = name
push name (x ∷ xs) = elim (split_last 47 (x ∷ xs)) [
  | some (dir, []) ↦ (x ∷ xs) ++ name
  | _ ↦ (x ∷ xs) ++ (47 ∷ name)
]

-- `Path::parent`
unfoldable pub parent : FilePath → Option FilePath
unfolding split_last
parent [] = none
parent (x ∷ xs) = elim (split_last 47 (x ∷ xs)) [
  | none ↦ some []
  | some ([], name) ↦ some (47 ∷ [])
  | some (d ∷ dir, name) ↦ some (d ∷ dir)
]

-- `Path::file_stem`, of a file name: a dot at its start does not count.
abbrev pub file_stem : Text → Text
file_stem name = elim (split_last 46 name) [
  | none ↦ name
  | some ([], rest) ↦ name
  | some (x ∷ stem, rest) ↦ x ∷ stem
]

-- `PathBuf::set_extension`
unfoldable pub set_extension : Text → FilePath → FilePath
unfolding split_last
set_extension ext path = elim (split_last 47 path) [
  | none ↦ file_stem path ++ (46 ∷ ext)
  | some (dir, name) ↦ dir ++ (47 ∷ file_stem name ++ (46 ∷ ext))
]
