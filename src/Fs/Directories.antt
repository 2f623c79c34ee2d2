-- ===== src/Fs/Directories.antt =====
-- `std::fs::read_dir`, and directories: one is there if a file is below it.
use mitos_pkg.Prelude.{
  ℕ, String, string_eq, Bool, true, false, not, List, [], ◌∷◌, Option, none, some, ok, ◌≡◌, arith,
  ◌==◌, if◌then◌else◌, contains,
}
use mitos_pkg.Prelude.HashMap.{HashMap}
use mitos_pkg.Error.{FilePath, ErrorKind}
use mitos_pkg.Fs.{Fs, FsCall, FsCall.reading_dir, Io, Bytes, calling, tick}

-- the component of a path behind the directory
abbrev below : FilePath → FilePath → Option String
below [] [] = none
below [] (x ∷ p) = some x
below (d ∷ dir) [] = none
below (d ∷ dir) (x ∷ p) = let rest = below dir p in if x == d then rest else none

abbrev children : FilePath → HashMap FilePath Bytes → List String
children dir [] = []
children dir ((p, b) ∷ m) =
    let rest = children dir m in
    elim (below dir p) [
      | none ↦ rest
      | some name ↦ if contains rest name then rest else name ∷ rest
    ]

abbrev is_empty : List String → Bool
is_empty [] = true
is_empty (_ ∷ _) = false

unfoldable pub is_dir : FilePath → Fs → Bool
is_dir dir fs = not (is_empty (children dir fs.files))

module _ (fails : ℕ → FsCall → Option ErrorKind) where
  -- the names of the entries; one that cannot be read is a failure of the call
  unfoldable pub read_dir : FilePath → Io (List String)
  unfolding tick
  read_dir dir = calling fails (reading_dir dir) (λ fs. (ok (children dir fs.files), fs))

  pub read_dir_files : (dir : FilePath) (fs : Fs) → (read_dir dir fs).1.files ≡ fs.files
  unfolding read_dir tick
  read_dir_files dir fs = ground arith
