-- ===== src/Service/Commands/Opening.antt =====
-- `open` and `clean` of src/service/lifecycle.rs.
use mitos_pkg.Prelude.{ℕ, ◌+◌, ◌%◌, ◌^◌, String, List, [], ◌∷◌, ◌++◌, ok, err, if◌then◌else◌}
use mitos_pkg.Error.{FilePath}
use mitos_pkg.Semver.{Semver}
use mitos_pkg.Config.{Config, packages_db_path, files_db_path, index_cache_path}
use mitos_pkg.Fs.{Io, ◌>>>◌, done, remove_file, remove_dir_all}
use mitos_pkg.Fs.Directories.{is_dir, read_dir}
use mitos_pkg.Install.Store.{load_packages, load_files}
use mitos_pkg.Repository.Cache.{load}
use mitos_pkg.Security.KeyDirectory.{load_dir}
use mitos_pkg.Service.State.{Outside, State, Command, on_fs}

-- `unwrap_or_default()`
abbrev or_default {ℓ} : {A : Type ℓ} → A → Io A → Io A
or_default a m fs = let (r, fs1) = m fs in (elim r [ ok x ↦ ok x | err e ↦ ok a ], fs1)

module _ (sv : Semver) (out : Outside sv) where
  -- `open` is a word of the language; the state holds the file system that it was opened on
  unfoldable pub open_service : Config → Io (State sv)
  open_service config fs =
      (load_packages sv out.os.json out.os.fails (packages_db_path config) >>> λ packages.
      load_files sv out.os.json out.os.fails (files_db_path config) >>> λ files.
      or_default (record { packages = [] })
        (load sv out.os.fails out.index_of (index_cache_path config))
      >>> λ index.
          or_default (record { keys = [] })
            (load_dir out.os.fails out.hex_decode config.trusted_keys_dir)
          >>> λ keystore. λ fs1. (
            ok (record {
              config = config;
              packages = packages;
              files = files;
              index = index;
              keystore = keystore;
              fs = fs1;
              fetches = 0;
              events = [];
            }),
            fs1,
          ))
        fs

  -- one entry of the loop: a directory goes with all that is in it
  unfoldable pub remove_entry : FilePath → Io {0} Unit
  remove_entry path fs =
      (if is_dir path fs then remove_dir_all out.os.fails path else remove_file out.os.fails path)
        fs

  -- the loop; `freed` is an `u64`
  unfoldable pub clean_entries : FilePath → List String → ℕ → Io ℕ
  clean_entries dir [] freed fs = (ok freed, fs)
  clean_entries dir (name ∷ names) freed fs =
      (done (out.entry_len fs (dir ++ (name ∷ []))) >>> λ len.
      remove_entry (dir ++ (name ∷ [])) >>> λ _. clean_entries dir names ((freed + len) % 2 ^ 64))
        fs

  unfoldable pub clean_dir : FilePath → Io ℕ
  clean_dir dir fs =
      if is_dir dir fs
      then (read_dir out.os.fails dir >>> λ names. clean_entries dir names 0) fs
      else (ok 0, fs)

  unfoldable pub clean : Command sv ℕ
  clean s = on_fs sv (clean_dir (s.config.cache_dir ++ ("downloads" ∷ []))) s
