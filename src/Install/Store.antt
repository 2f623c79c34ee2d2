-- ===== src/Install/Store.antt =====
-- `load` and `save` of src/database/packages.rs and src/database/files.rs. The JSON text of a
-- database (the `serde_json` crate) is a parameter.
use mitos_pkg.Prelude.{ℕ, [], Option, ok, if◌then◌else◌}
use mitos_pkg.Error.{FilePath, PkgResult, ErrorKind}
use mitos_pkg.Fs.{make_parent, FsCall, Io, Bytes, ◌>>>◌, done, read, write, rename, exists}
use mitos_pkg.Semver.{Semver}
use mitos_pkg.Database.Packages.{InstalledDb}
use mitos_pkg.Database.Files.{FileDb}

-- What the JSON crate does with the two databases, and how a path gets its extension `json.tmp`.
pub record Json (sv : Semver) : Type 0 where
  pub packages_text : InstalledDb sv → PkgResult Bytes
  pub packages_of : Bytes → PkgResult (InstalledDb sv)
  pub owners_text : FileDb → PkgResult Bytes
  pub owners_of : Bytes → PkgResult FileDb
  pub tmp_path : FilePath → FilePath

module _ (sv : Semver) (json : Json sv) (fails : ℕ → FsCall → Option ErrorKind) where
  -- `save`: the text goes to a file beside the database, which then takes its place.
  unfoldable pub save_text : FilePath → PkgResult Bytes → Io {0} Unit
  unfolding make_parent write rename
  save_text path text = make_parent fails path >>> λ _. done text >>> λ bytes.
      write fails (json.tmp_path path) bytes >>> λ _. rename fails (json.tmp_path path) path

  unfoldable pub save_packages : InstalledDb sv → Io {0} Unit
  unfolding save_text
  save_packages db = save_text db.path (json.packages_text db)

  unfoldable pub save_files : FileDb → Io {0} Unit
  unfolding save_text
  save_files db = save_text db.path (json.owners_text db)

  unfoldable pub load_packages : FilePath → Io (InstalledDb sv)
  unfolding exists read
  load_packages path fs =
      if exists path fs
      then (read fails path >>> λ text.
            done (json.packages_of text) >>> λ db. done (ok (record db { path = path })))
          fs
      else (ok (record { packages = []; path = path }), fs)

  unfoldable pub load_files : FilePath → Io FileDb
  unfolding exists read
  load_files path fs =
      if exists path fs
      then (read fails path >>> λ text.
            done (json.owners_of text) >>> λ db. done (ok (record db { path = path })))
          fs
      else (ok (record { owners = []; path = path }), fs)
