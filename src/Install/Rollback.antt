-- ===== src/Install/Rollback.antt =====
-- src/install/rollback.rs
use mitos_pkg.Prelude.{ℕ, List, [], ◌∷◌, Option, ok, if◌then◌else◌}
use mitos_pkg.Error.{FilePath, ErrorKind}
use mitos_pkg.Fs.Paths.{join}
use mitos_pkg.Fs.{FsCall, Fs, Io, ◌>>>◌, done, ignore, exists, remove_file, move_into}

module _ (fails : ℕ → FsCall → Option ErrorKind) where
  -- A file that cannot be removed is skipped; the warning on stderr is left out.
  unfoldable pub undo_install : FilePath → List FilePath → Fs → Fs
  unfolding remove_file
  undo_install install_root [] fs = fs
  undo_install install_root (rel ∷ written) fs =
      undo_install install_root written (ignore (remove_file fails (join install_root rel)) fs)

  unfoldable pub undo_removal : FilePath → FilePath → List FilePath → Io {0} Unit
  unfolding move_into exists
  undo_removal install_root backup_dir [] = done (ok tt)
  undo_removal install_root backup_dir (rel ∷ files) =
      (λ fs.
        if exists (join backup_dir rel) fs
        then move_into fails (join backup_dir rel) (join install_root rel) fs
        else (ok tt, fs))
      >>> λ _. undo_removal install_root backup_dir files
