-- ===== src/Service/Lock.antt =====
-- src/service/lock.rs: the lock file that a command holds while it changes the databases.
pub mod Exclusive
use mitos_pkg.Prelude.{ℕ, String, List, [], ◌∷◌, ◌++◌, Option, ok, err}
use mitos_pkg.Error.{FilePath, PkgError, ErrorKind, io, already_exists, locked}
use mitos_pkg.Fs.{FsCall, Fs, Io, ◌>>>◌, ignore, create_dir_all, create_new, remove_file}

abbrev pub lock_path : FilePath → FilePath
lock_path db_dir = db_dir ++ (".mitos-pkg.lock" ∷ [])

-- the error of a failed `open`
unfoldable pub lock_error : FilePath → PkgError → PkgError
lock_error path (io already_exists) = locked path
lock_error path e = e

module _ (fails : ℕ → FsCall → Option ErrorKind) where
  unfoldable pub open_lock : FilePath → Io {0} Unit
  unfolding create_new lock_error
  open_lock path fs =
      let (r, fs1) = create_new fails path fs in
      elim r [ ok _ ↦ (ok tt, fs1) | err e ↦ (err (lock_error path e), fs1) ]

  unfoldable pub acquire : FilePath → Io {0} Unit
  unfolding create_dir_all open_lock
  acquire db_dir = create_dir_all fails db_dir >>> λ _. open_lock (lock_path db_dir)

  -- `Drop for Lock`
  unfoldable pub unlock : FilePath → Fs → Fs
  unfolding remove_file
  unlock db_dir fs = ignore (remove_file fails (lock_path db_dir)) fs
