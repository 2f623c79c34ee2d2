-- ===== src/Install/Transaction.antt =====
-- src/install/transaction.rs. Everything outside the program is gathered in `Os`.
pub mod Confined
pub mod Untouched
pub mod Undone
pub mod Databases
use mitos_pkg.Prelude.{
  ℕ, String, Bool, List, [], ◌∷◌, ◌++◌, Option, none, some, ok, err, if◌then◌else◌, ok_or, ◌>>=◌,
}
use mitos_pkg.Error.{FilePath, PkgResult, ErrorKind, checksum_mismatch, not_installed}
use mitos_pkg.Semver.{Semver}
use mitos_pkg.Fs.Paths.{join, join_text}
use mitos_pkg.Package.Archive.{Entry}
use mitos_pkg.Fs.{
  FsCall, Fs, Io, Bytes, ◌>>>◌, done, ignore, remove_dir_all, move_into, exists, ignoring, on_error,
}
use mitos_pkg.Package.Arch.{eq_ignore_ascii_case}
use mitos_pkg.Package.Manifest.{Manifest}
use mitos_pkg.Security.Checksum.{hash_files}
use mitos_pkg.Database.Files.{FileDb, check_no_conflicts, claim, release}
use mitos_pkg.Database.Packages
use mitos_pkg.Database.Packages.{InstalledPackage, InstalledDb}
use mitos_pkg.Install.Hooks.{
  Command, Status, run, pre_install, post_install, pre_remove, post_remove,
}
use mitos_pkg.Install.Rollback.{undo_install, undo_removal}
use mitos_pkg.Install.Extractor.{extract_into}
use mitos_pkg.Install.Store.{Json, save_packages, save_files}

-- the operating system and the crates
pub record Os (sv : Semver) : Type 0 where
  pub fails : ℕ → FsCall → Option ErrorKind
  pub entries : Bytes → PkgResult (List (PkgResult Entry))
  -- what the `tar` crate makes of an entry that is neither a regular file nor a directory
  pub unpack_other : Entry → FilePath → Io {0} Unit
  pub json : Json sv
  pub hash_bytes : Bytes → String
  pub as_bytes : String → Bytes
  pub status : Command → Fs → Status × Fs

-- What a transaction changes: the two databases it borrows, and the file system.
pub record World (sv : Semver) : Type 0 where
  pub packages : InstalledDb sv
  pub files : FileDb
  pub fs : Fs

module _ (sv : Semver) (os : Os sv) (install_root : FilePath) where
  unfoldable pub staging_dir : String → FilePath
  staging_dir package_name = join_text (install_root ++ (".mitos-pkg-staging" ∷ [])) package_name

  unfoldable pub backup_dir : String → FilePath
  backup_dir name = join_text (install_root ++ (".mitos-pkg-backup" ∷ [])) name

  -- A failed step discards the staging directory.
  unfoldable pub or_discard {ℓ} : {A : Type ℓ} → FilePath → Io A → Io A
  unfolding on_error remove_dir_all
  or_discard dir m = on_error (ignore (remove_dir_all os.fails dir)) m

  unfoldable pub activate : FilePath → List FilePath → List FilePath → Io {0} Unit
  unfolding move_into undo_install on_error
  activate staging [] moved = done (ok tt)
  activate staging (rel ∷ written) moved =
      on_error (undo_install os.fails install_root moved)
        (move_into os.fails (join staging rel) (join install_root rel))
      >>> λ _. activate staging written (moved ++ (rel ∷ []))

  unfoldable pub check_payload : FilePath → Manifest sv → List FilePath → Io {0} Unit
  unfolding hash_files eq_ignore_ascii_case
  check_payload staging manifest written =
      hash_files os.fails os.hash_bytes os.as_bytes staging written >>> λ actual. done (
        if eq_ignore_ascii_case actual manifest.payload_sha256
        then ok tt
        else err (checksum_mismatch manifest.name manifest.payload_sha256 actual))

  unfoldable pub run_pre_install : FilePath → Manifest sv → Io {0} Unit
  unfolding run
  run_pre_install staging manifest = elim manifest.hooks.pre_install [
    | none ↦ done (ok tt)
    | some script ↦
        run os.status pre_install (join_text staging script) install_root manifest.name
          (sv.show_version manifest.version)
  ]

  unfoldable pub run_post_install : Manifest sv → List FilePath → Io {0} Unit
  unfolding run undo_install on_error
  run_post_install manifest written = elim manifest.hooks.post_install [
    | none ↦ done (ok tt)
    | some script ↦ on_error (undo_install os.fails install_root written) (
        run os.status post_install (join_text install_root script) install_root manifest.name
          (sv.show_version manifest.version))
  ]

  -- `install` from the staged files' conflict check on, up to the post_install hook
  unfoldable pub after_check : Manifest sv → List FilePath → PkgResult {0} Unit → Io (List FilePath)
  unfolding or_discard run_pre_install activate run_post_install
  after_check manifest written conflicts =
      let staging = staging_dir manifest.name in
      or_discard staging (done conflicts) >>> λ _.
      or_discard staging (run_pre_install staging manifest) >>> λ _.
      or_discard staging (activate staging written []) >>> λ _.
      ignoring (remove_dir_all os.fails staging) >>> λ _.
      run_post_install manifest written >>> λ _. done (ok written)

  -- `install` from the check of the extracted files on
  unfoldable pub settle : FileDb → Manifest sv → List FilePath → Io (List FilePath)
  unfolding or_discard check_payload check_no_conflicts after_check
  settle files manifest written =
      let staging = staging_dir manifest.name in
      or_discard staging (check_payload staging manifest written) >>> λ _.
      after_check manifest written (check_no_conflicts files written manifest.name)

  -- `install` up to the changes of the databases
  unfoldable pub place : FileDb → FilePath → Manifest sv → Io (List FilePath)
  unfolding settle extract_into remove_dir_all
  place files archive_path manifest =
      let staging = staging_dir manifest.name in
      ignoring (remove_dir_all os.fails staging) >>> λ _.
      extract_into os.fails os.entries os.unpack_other archive_path staging >>> λ written.
      settle files manifest written

  abbrev pub installed_record : Manifest sv → List FilePath → Bool → Bool → InstalledPackage sv
  installed_record manifest written explicit held = record {
    name = manifest.name;
    version = manifest.version;
    description = manifest.description;
    dependencies = manifest.dependencies;
    provides = manifest.provides;
    conflicts = manifest.conflicts;
    installed_files = written;
    explicit = explicit;
    held = held;
    arch = manifest.arch;
    essential = manifest.essential;
    hooks = manifest.hooks;
    payload_sha256 = manifest.payload_sha256;
  }

  -- The databases in memory change, then both are saved.
  unfoldable pub commit : InstalledDb sv → FileDb → Fs → PkgResult {0} Unit × World sv
  unfolding save_packages save_files
  commit packages files fs =
      let (r, fs1) =
        (save_packages sv os.json os.fails packages >>> λ _. save_files sv os.json os.fails files)
          fs in
      (r, record { packages = packages; files = files; fs = fs1 })

  unfoldable pub install :
      FilePath → Manifest sv → Bool → Bool → World sv → PkgResult {0} Unit × World sv
  unfolding place commit claim Packages.insert
  install archive_path manifest explicit held w =
      let (r, fs1) = place w.files archive_path manifest w.fs in
      elim r [
        | err e ↦ (err e, record w { fs = fs1 })
        | ok written ↦
            commit (Packages.insert sv w.packages (installed_record manifest written explicit held))
              (claim w.files written manifest.name) fs1
      ]

  unfoldable pub backup_and_remove : FilePath → List FilePath → Io {0} Unit
  unfolding exists move_into
  backup_and_remove backup [] = done (ok tt)
  backup_and_remove backup (rel ∷ files) =
      (λ fs.
        if exists (join install_root rel) fs
        then move_into os.fails (join install_root rel) (join backup rel) fs
        else (ok tt, fs))
      >>> λ _. backup_and_remove backup files

  unfoldable pub run_pre_remove : InstalledPackage sv → Io {0} Unit
  unfolding run
  run_pre_remove pkg = elim pkg.hooks.pre_remove [
    | none ↦ done (ok tt)
    | some script ↦
        run os.status pre_remove (join_text install_root script) install_root pkg.name
          (sv.show_version pkg.version)
  ]

  unfoldable pub run_post_remove : FilePath → InstalledPackage sv → Io {0} Unit
  unfolding run
  run_post_remove backup pkg = elim pkg.hooks.post_remove [
    | none ↦ done (ok tt)
    | some script ↦
        run os.status post_remove (join_text backup script) install_root pkg.name
          (sv.show_version pkg.version)
  ]

  -- `remove` up to the changes of the databases
  unfoldable pub take_away : FilePath → InstalledPackage sv → Io {0} Unit
  unfolding run_pre_remove backup_and_remove undo_removal run_post_remove remove_dir_all
  take_away backup pkg = run_pre_remove pkg >>> λ _. λ fs.
      let (r, fs1) = backup_and_remove backup pkg.installed_files fs in
      elim r [
        | err e ↦
            let fs2 = ignore (undo_removal os.fails install_root backup pkg.installed_files) fs1 in
            (err e, ignore (remove_dir_all os.fails backup) fs2)
        | ok _ ↦
            let fs2 = ignore (run_post_remove backup pkg) fs1 in
            (ok tt, ignore (remove_dir_all os.fails backup) fs2)
      ]

  unfoldable pub remove : String → World sv → PkgResult {0} Unit × World sv
  unfolding take_away commit release Packages.remove
  remove name w = elim (Packages.get sv w.packages name) [
    | none ↦ (err (not_installed name), w)
    | some pkg ↦
        let (r, fs1) = take_away (backup_dir name) pkg w.fs in
        elim r [
          | err e ↦ (err e, record w { fs = fs1 })
          | ok _ ↦
              commit (Packages.remove sv w.packages name) (release w.files pkg.installed_files) fs1
        ]
  ]
