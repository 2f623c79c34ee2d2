-- ===== src/Fs.antt =====
-- The part of `std::fs` that the program calls: regular files by their paths. A call that the
-- operating system can refuse asks `fails`, a parameter, which sees the time and the call; so every
-- pattern of failures is covered. Directories are not kept: `create_dir_all` only can fail.
pub mod Kept
pub mod Allowed
pub mod Paths
pub mod Directories
use mitos_pkg.Prelude.{
  ◌++◌, cond, ℕ, suc, string_eq, list_eq, Bool, true, false, ◌&&◌, List, [], ◌∷◌, Option, none,
  some, ok, err, ◌==◌,
}
use mathlib.Core.Option
use mitos_pkg.Prelude.HashMap
use mitos_pkg.Prelude.HashMap.{HashMap}
use mitos_pkg.Error.{FilePath, PkgResult, io, ErrorKind, ErrorKind.not_found, already_exists}

abbrev pub Bytes : Type 0
Bytes = List ℕ

pub data FsCall : Type 0 where
  removing_dir creating_dir removing reading writing appending creating reading_dir :
      FilePath → FsCall
  renaming : (src dest : FilePath) → FsCall

pub record Fs : Type 0 where
  pub files : HashMap FilePath Bytes
  pub time : ℕ

-- `Path::starts_with`
abbrev pub starts_with : FilePath → FilePath → Bool
starts_with p [] = true
starts_with [] (_ ∷ _) = false
starts_with (x ∷ p) (d ∷ dir) = x == d && starts_with p dir

abbrev pub outside : FilePath → HashMap FilePath Bytes → HashMap FilePath Bytes
outside dir [] = []
outside dir ((p, b) ∷ m) = let rest = outside dir m in cond (starts_with p dir) rest ((p, b) ∷ rest)

-- `Path::parent`
abbrev pub parent : FilePath → Option FilePath
parent [] = none
parent (x ∷ []) = some []
parent (x ∷ y ∷ p) = Option.map (λ d. x ∷ d) (parent (y ∷ p))

-- `Path::exists`, on a path of a regular file
unfoldable pub exists : FilePath → Fs → Bool
exists p fs = HashMap.contains_key p fs.files

-- A computation that can fail and changes the file system.
abbrev pub Io {ℓ} : Type ℓ → Type ℓ
Io A = Fs → PkgResult A × Fs

infixl 4 ◌>>>◌
unfoldable pub ◌>>>◌ {ℓ κ} : {A : Type ℓ} {B : Type κ} → Io A → (A → Io B) → Io B
(m >>> f) fs = let (r, fs1) = m fs in elim r [ ok a ↦ f a fs1 | err e ↦ (err e, fs1) ]

unfoldable pub done {ℓ} : {A : Type ℓ} → PkgResult A → Io A
done r fs = (r, fs)

-- `if let Err(e) = m { undo; return Err(e); }`
unfoldable pub on_error {ℓ} : {A : Type ℓ} → (Fs → Fs) → Io A → Io A
on_error undo m fs =
    let (r, fs1) = m fs in elim r [ ok a ↦ (ok a, fs1) | err e ↦ (err e, undo fs1) ]

-- `let _ = ...`
abbrev pub ignore {ℓ} : {A : Type ℓ} → Io A → Fs → Fs
ignore m fs = (m fs).1

unfoldable pub ignoring {ℓ} : {A : Type ℓ} → Io A → Io {0} Unit
ignoring m fs = (ok tt, ignore m fs)

pub tick : Fs → Fs
tick fs = record fs { time = suc fs.time }

module _ (fails : ℕ → FsCall → Option ErrorKind) where
  abbrev pub calling {ℓ} : {A : Type ℓ} → FsCall → Io A → Io A
  calling c m fs = elim (fails fs.time c) [ some k ↦ (err (io k), tick fs) | none ↦ m (tick fs) ]

  unfoldable pub create_dir_all : FilePath → Io {0} Unit
  unfolding tick
  create_dir_all dir = calling (creating_dir dir) (λ fs. (ok tt, fs))

  unfoldable pub remove_dir_all : FilePath → Io {0} Unit
  unfolding tick
  remove_dir_all dir =
      calling (removing_dir dir) (λ fs. (ok tt, record fs { files = outside dir fs.files }))

  unfoldable pub remove_file : FilePath → Io {0} Unit
  unfolding tick
  remove_file p = calling (removing p) (λ fs. elim (HashMap.get p fs.files) [
    | none ↦ (err (io not_found), fs)
    | some _ ↦ (ok tt, record fs { files = HashMap.remove p fs.files })
  ])

  unfoldable pub rename : FilePath → FilePath → Io {0} Unit
  unfolding tick
  rename src dest = calling (renaming src dest) (λ fs. elim (HashMap.get src fs.files) [
    | none ↦ (err (io not_found), fs)
    | some b ↦ (ok tt, record fs { files = HashMap.insert dest b (HashMap.remove src fs.files) })
  ])

  unfoldable pub write : FilePath → Bytes → Io {0} Unit
  unfolding tick
  write p b = calling (writing p) (λ fs. (ok tt, record fs { files = HashMap.insert p b fs.files }))

  unfoldable pub read : FilePath → Io Bytes
  unfolding tick
  read p = calling (reading p) (λ fs. elim (HashMap.get p fs.files) [
    | none ↦ (err (io not_found), fs)
    | some b ↦ (ok b, fs)
  ])

  -- `OpenOptions::new().create(true).append(true).open(p)`, and the write
  unfoldable pub append_to : FilePath → Bytes → Io {0} Unit
  unfolding tick
  append_to p b = calling (appending p) (λ fs.
      (ok tt, record fs { files = HashMap.insert p (HashMap.get_or p [] fs.files ++ b) fs.files }))

  -- `File::options().write(true).create_new(true).open(p)`
  unfoldable pub create_new : FilePath → Io {0} Unit
  unfolding tick
  create_new p = calling (creating p) (λ fs. elim (HashMap.get p fs.files) [
    | none ↦ (ok tt, record fs { files = HashMap.insert p [] fs.files })
    | some _ ↦ (err (io already_exists), fs)
  ])

  -- `if let Some(parent) = path.parent() { create_dir_all(parent)?; }`
  unfoldable pub make_parent : FilePath → Io {0} Unit
  unfolding create_dir_all
  make_parent p = elim (parent p) [ none ↦ done (ok tt) | some dir ↦ create_dir_all dir ]

  -- `rename` into a directory that is made if it is missing
  unfoldable pub move_into : FilePath → FilePath → Io {0} Unit
  unfolding make_parent rename
  move_into src dest = make_parent dest >>> λ _. rename src dest
