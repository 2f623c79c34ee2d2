-- ===== src/Install/Transaction/Databases.antt =====
-- What `install` and `remove` of src/install/transaction.rs do to the two databases in memory.
use mitos_pkg.Prelude.{
  String, string_eq, list_eq, ◌≡◌, ◌⊎◌, inl, inr, Bool, List, some, err, arith, Option-cases,
  Result-cases,
}
use mitos_pkg.Error.{FilePath, PkgError, not_installed}
use mitos_pkg.Semver.{Semver}
use mitos_pkg.Package.Manifest.{Manifest}
use mitos_pkg.Database.Files.{claim, release}
use mitos_pkg.Database.Packages
use mitos_pkg.Database.Packages.{InstalledPackage, InstalledDb}
use mitos_pkg.Install.Transaction.{
  Os, World, install, remove, installed_record, place, take_away, commit, backup_dir,
}

module _ (sv : Semver) (os : Os sv) (install_root : FilePath) where
  -- what `remove` leaves: its result, and the databases
  pub record Removed (name : String) (w w1 : World sv) : Type 0 where
    pub pkg : InstalledPackage sv
    pub installed : Packages.get sv w.packages name ≡ some pkg
    pub packages_after : w1.packages ≡ Packages.remove sv w.packages name
    pub files_after : w1.files ≡ release w.files pkg.installed_files

  -- Either `remove` fails and the databases are as they were, or the package is off them.
  pub remove-Removed :
      (name : String) (w : World sv)
      → (((e : PkgError) × ((remove sv os install_root name w).0 ≡ err e))
          × ((remove sv os install_root name w).1.packages ≡ w.packages)
          × ((remove sv os install_root name w).1.files ≡ w.files))
        ⊎ Removed name w (remove sv os install_root name w).1
  unfolding remove commit
  remove-Removed name w = elim (Option-cases (Packages.get sv w.packages name)) [
    | inl e ↦ inl ((not_installed name, ground arith), ground arith, ground arith)
    | inr (pkg, e) ↦
        elim (Result-cases
          (take_away sv os install_root (backup_dir sv os install_root name) pkg w.fs).0) [
            | inl (t, k) ↦ inr (record {
              pkg = pkg;
              installed = e;
              packages_after = ground (arith);
              files_after = ground arith;
            })
            | inr (x, k) ↦ inl ((x, ground arith), ground arith, ground arith)
          ]
  ]

  -- what `install` leaves
  pub record Installed (manifest : Manifest sv) (explicit held : Bool) (w w1 : World sv)
      : Type 0 where
    pub written : List FilePath
    pub packages_after :
        w1.packages
        ≡ Packages.insert sv w.packages
            (installed_record sv os install_root manifest written explicit held)
    pub files_after : w1.files ≡ claim w.files written manifest.name

  -- Either `install` fails and the databases are as they were, or the package is on them.
  pub install-Installed :
      (archive : FilePath) (manifest : Manifest sv) (explicit held : Bool) (w : World sv)
      → (((e : PkgError) × ((install sv os install_root archive manifest explicit held w).0
              ≡ err e))
          × ((install sv os install_root archive manifest explicit held w).1.packages ≡ w.packages)
          × ((install sv os install_root archive manifest explicit held w).1.files ≡ w.files))
        ⊎ Installed manifest explicit held w
            (install sv os install_root archive manifest explicit held w).1
  unfolding install commit
  install-Installed archive manifest explicit held w =
      elim (Result-cases (place sv os install_root w.files archive manifest w.fs).0) [
        | inl (written, k) ↦ inr (record {
          written = written;
          packages_after = ground arith;
          files_after = ground arith;
        })
        | inr (x, k) ↦ inl ((x, ground arith), ground arith, ground arith)
      ]
