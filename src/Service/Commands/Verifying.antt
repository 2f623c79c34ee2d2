-- ===== src/Service/Commands/Verifying.antt =====
-- The commands of src/service/lifecycle.rs that only read: `verify`, `list`, `search`, `history`.
pub mod Intact
use mitos_pkg.Prelude.{
  ◌>>=◌, ℕ, String, string_eq, Bool, true, false, not, List, [], ◌∷◌, ◌++◌, Option, none, some, ok,
  err, ok_or, ◌>>=◌, ◌==◌, if◌then◌else◌, length, eqb,
}
use mitos_pkg.Prelude.HashMap
use mitos_pkg.Prelude.HashMap.{HashMap}
use mitos_pkg.Error.{FilePath, PkgResult, PkgError, format, not_installed}
use mitos_pkg.Semver.{Semver}
use mitos_pkg.Fs.Paths.{join}
use mitos_pkg.Fs.{Fs, Io, ◌>>>◌, done, exists}
use mitos_pkg.Config.{history_path}
use mitos_pkg.Package.Arch.{eq_ignore_ascii_case}
use mitos_pkg.Security.Checksum.{hash_file, aggregate_hash, le_string}
use mitos_pkg.Database.Packages
use mitos_pkg.Database.Packages.{InstalledPackage}
use mitos_pkg.Database.History.{HistoryEntry, read_recent}
use mitos_pkg.Service.Progress.{VerifyIssue}
use mitos_pkg.Service.State.{Outside, State, Command, on_fs}

module _ (sv : Semver) (out : Outside sv) where
  abbrev pub issue : String → Option FilePath → String → VerifyIssue
  issue name path problem = record { pkg = name; path = path; problem = problem }

  -- What the loop over the files finds: the hashes, and the issues.
  abbrev pub Found : Type 0
  Found = List (FilePath × String) × List VerifyIssue

  -- one round of the loop: at most one hash or one issue
  unfoldable pub check_file : FilePath → String → FilePath → Fs → Found × Fs
  check_file root name rel fs =
      let (r, fs1) = hash_file out.os.fails out.os.hash_bytes out.os.as_bytes (join root rel) fs in
      if not (exists (join root rel) fs)
      then (([], issue name (some rel) "missing" ∷ []), fs)
      else elim r [
        | ok hash ↦ (((rel, hash) ∷ [], []), fs1)
        | err e ↦
            (([], issue name (some rel) (format ("unreadable: " ∷ out.to_string e ∷ [])) ∷ []), fs1)
      ]

  unfoldable pub check_files : FilePath → String → List FilePath → Fs → Found × Fs
  check_files root name [] fs = (([], []), fs)
  check_files root name (rel ∷ files) fs =
      let (one, fs1) = check_file root name rel fs in
      let (others, fs2) = check_files root name files fs1 in
      ((one.0 ++ others.0, one.1 ++ others.1), fs2)

  -- the comparison of the aggregate
  unfoldable pub check_aggregate : InstalledPackage sv → List (FilePath × String) → List VerifyIssue
  check_aggregate pkg entries =
      if pkg.payload_sha256 == ""
      then []
      else if eqb (length entries) (length pkg.installed_files)
      then (if eq_ignore_ascii_case
            (aggregate_hash out.os.fails out.os.hash_bytes out.os.as_bytes entries)
            pkg.payload_sha256
          then []
          else issue pkg.name none "one or more files modified since install (checksum mismatch)"
            ∷ [])
      else []

  unfoldable pub verify_one : FilePath → InstalledPackage sv → Fs → List VerifyIssue × Fs
  verify_one root pkg fs =
      let (found, fs1) = check_files root pkg.name pkg.installed_files fs in
      (found.1 ++ check_aggregate pkg found.0, fs1)

  unfoldable pub verify_all : FilePath → List (InstalledPackage sv) → Fs → List VerifyIssue × Fs
  verify_all root [] fs = ([], fs)
  verify_all root (pkg ∷ pkgs) fs =
      let (issues, fs1) = verify_one root pkg fs in
      let (others, fs2) = verify_all root pkgs fs1 in (issues ++ others, fs2)

  abbrev pub targets : Option String → State sv → PkgResult (List (InstalledPackage sv))
  targets none s = ok (HashMap.values s.packages.packages)
  targets (some n) s =
      ok_or (Packages.get sv s.packages n) (not_installed n) >>= λ pkg. ok (pkg ∷ [])

  unfoldable pub verify_targets :
      PkgResult (List (InstalledPackage sv)) → Command sv (List VerifyIssue)
  verify_targets (err e) s = (some (err e), s)
  verify_targets (ok pkgs) s =
      let (issues, fs) = verify_all s.config.install_root pkgs s.fs in
      (some (ok issues), record s { fs = fs })

  unfoldable pub verify : Option String → Command sv (List VerifyIssue)
  verify name s = verify_targets (targets name s) s

  -- `sort_by` of the names
  abbrev insert_by_name :
      String × InstalledPackage sv
      → List (String × InstalledPackage sv)
      → List (String × InstalledPackage sv)
  insert_by_name x [] = x ∷ []
  insert_by_name x (y ∷ items) =
      let rest = insert_by_name x items in if le_string x.0 y.0 then x ∷ y ∷ items else y ∷ rest

  abbrev sort_by_name : HashMap String (InstalledPackage sv) → List (String × InstalledPackage sv)
  sort_by_name [] = []
  sort_by_name (x ∷ items) = insert_by_name x (sort_by_name items)

  unfoldable pub list : State sv → List (String × InstalledPackage sv)
  list s = sort_by_name s.packages.packages

  unfoldable pub history : ℕ → Command sv (List HistoryEntry)
  history limit s =
      on_fs sv (read_recent out.entry_json out.os.fails (history_path s.config) limit) s
