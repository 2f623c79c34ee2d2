-- ===== src/Service/Lock/Exclusive.antt =====
-- The lock of src/service/lock.rs has one holder at a time.
use mitos_pkg.Prelude.{
  ℕ, string_eq, list_eq, [], Option, none, some, ok, ◌≡◌, sym, ◌∙◌, ◌≢◌, inl, inr, arith, ==_refl,
  Result-cases,
}
use mitos_pkg.Prelude.HashMap
use mitos_pkg.Error.{FilePath, ErrorKind}
use mitos_pkg.Fs.{◌>>>◌, FsCall, Fs, removing, create_dir_all, create_new}
use mitos_pkg.Fs.Kept.{>>>-ok, create_dir_all-Keeps, create_new-fresh, remove_file-none}
use mitos_pkg.Service.Lock.{lock_path, open_lock, acquire, unlock}

module _ (fails : ℕ → FsCall → Option ErrorKind) (db_dir : FilePath) where
  open_lock-fresh :
      (fs : Fs)
      → (open_lock fails (lock_path db_dir) fs).0 ≡ ok tt
      → HashMap.get (lock_path db_dir) fs.files ≡ none
  unfolding open_lock
  open_lock-fresh fs h = elim (Result-cases (create_new fails (lock_path db_dir) fs).0) [
    | inl (_, q) ↦ (create_new-fresh fails (lock_path db_dir) fs q).0
    | inr (e, q) ↦ absurd (ground arith)
  ]

  open_lock-held :
      (fs : Fs)
      → (open_lock fails (lock_path db_dir) fs).0 ≡ ok tt
      → HashMap.get (lock_path db_dir) (open_lock fails (lock_path db_dir) fs).1.files ≡ some []
  unfolding open_lock
  open_lock-held fs h = elim (Result-cases (create_new fails (lock_path db_dir) fs).0) [
    | inl (_, q) ↦ ground (arith, create_new-fresh fails (lock_path db_dir) fs q)
    | inr (e, q) ↦ absurd (ground arith)
  ]

  acquire_fresh :
      (fs : Fs)
      → (acquire fails db_dir fs).0 ≡ ok tt
      → HashMap.get (lock_path db_dir) fs.files ≡ none
  unfolding acquire
  acquire_fresh fs h =
      let (_, _, q) = >>>-ok (create_dir_all fails db_dir) _ fs tt h in
      sym ((create_dir_all-Keeps fails (lock_path db_dir) db_dir).kept fs) ∙ open_lock-fresh _ q

  acquire_held :
      (fs : Fs)
      → (acquire fails db_dir fs).0 ≡ ok tt
      → HashMap.get (lock_path db_dir) (acquire fails db_dir fs).1.files ≡ some []
  unfolding acquire ◌>>>◌
  acquire_held fs h = elim (Result-cases (create_dir_all fails db_dir fs).0) [
    | inl (_, q) ↦ ground (arith, open_lock-held (create_dir_all fails db_dir fs).1, q)
    | inr (e, q) ↦ absurd (ground arith)
  ]

  -- While the lock is held, that is as long as the file at its path is the one that `acquire` made,
  -- `acquire` does not succeed again; once it is released, if the system lets the file be removed, the
  -- path is free.
  pub acquire_exclusive :
      (fs : Fs)
      → (acquire fails db_dir fs).0 ≡ ok tt
      → ((later : Fs)
          → HashMap.get (lock_path db_dir) later.files
            ≡ HashMap.get (lock_path db_dir) (acquire fails db_dir fs).1.files
          → (acquire fails db_dir later).0 ≢ ok tt)
        × (((t : ℕ) (q : FilePath) → fails t (removing q) ≡ none)
            → (later : Fs)
            → HashMap.get (lock_path db_dir) (unlock fails db_dir later).files ≡ none)
  unfolding unlock
  acquire_exclusive fs h = (
    λ later same again.
        absurd (held_not_fresh later (same ∙ acquire_held fs h) (acquire_fresh later again)),
    λ free later.
        remove_file-none fails (lock_path db_dir) (lock_path db_dir) later free
          (inr (==_refl (lock_path db_dir))),
  )
    where
      held_not_fresh :
          (later : Fs)
          → HashMap.get (lock_path db_dir) later.files ≡ some []
          → ¬ (HashMap.get (lock_path db_dir) later.files ≡ none)
      held_not_fresh later held fresh = cc
