-- ===== src/Database/Packages.antt =====
-- src/database/packages.rs: the records of installed packages, and the operations on the map of them.
-- `load` and `save` are in `Install.Store`.
use mitos_pkg.Prelude.{String, string_eq, Bool, List, Option}
use mitos_pkg.Prelude.HashMap
use mitos_pkg.Prelude.HashMap.{HashMap}
use mitos_pkg.Semver.{Semver}
use mitos_pkg.Dependency.Version.{Dependency}
use mitos_pkg.Package.Manifest.{Hooks}
use mitos_pkg.Error.{FilePath}

module _ (sv : Semver) where
  pub record InstalledPackage : Type 0 where
    pub name : String
    pub version : sv.Version
    pub description : String
    pub dependencies : List (Dependency sv)
    pub provides : List String
    pub conflicts : List String
    pub installed_files : List FilePath
    pub explicit : Bool
    pub held : Bool
    pub arch : List String
    pub essential : Bool
    pub hooks : Hooks
    pub payload_sha256 : String

  pub record InstalledDb : Type 0 where
    pub packages : HashMap String InstalledPackage
    pub path : FilePath

  abbrev pub get : InstalledDb → String → Option InstalledPackage
  get db name = HashMap.get name db.packages

  -- A write through `get_mut`.
  unfoldable pub modify : InstalledDb → String → (InstalledPackage → InstalledPackage) → InstalledDb
  modify db name f = record db { packages = HashMap.update name f db.packages }

  unfoldable pub insert : InstalledDb → InstalledPackage → InstalledDb
  insert db pkg = record db { packages = HashMap.insert pkg.name pkg db.packages }

  unfoldable pub remove : InstalledDb → String → InstalledDb
  remove db name = record db { packages = HashMap.remove name db.packages }

  unfoldable pub is_installed : InstalledDb → String → Bool
  is_installed db name = HashMap.contains_key name db.packages
