-- ===== src/Examples/Opening.antt =====
-- Opening and cleaning, on a small disk.
use mitos_pkg.Prelude.{String, string_eq, list_eq, List, [], ◌∷◌, some, none, ok, ◌≡◌, refl}
use mitos_pkg.Prelude.HashMap
use mitos_pkg.Fs.{Fs, Bytes}
use mitos_pkg.Config.{default_config, packages_db_path, files_db_path}
use mitos_pkg.Service.State.{State}
use mitos_pkg.Service.Commands.Opening.{open_service, clean}
use mitos_pkg.Examples.{numbers, small_index}
use mitos_pkg.Examples.Commanding.{outside, state}
use mitos_pkg.Security.Keys.{KeyStore, find}
use mitos_pkg.Security.KeyDirectory.{load_dir}
use mitos_pkg.Security.KeyDirectory.Loaded.{IsKeyFile, load_dir-IsKeyFile}

abbrev key : Bytes
key =
    1 ∷ 2 ∷ 3 ∷ 4 ∷ 5 ∷ 6 ∷ 7 ∷ 8 ∷ 1 ∷ 2 ∷ 3 ∷ 4 ∷ 5 ∷ 6 ∷ 7 ∷ 8 ∷ 1 ∷ 2 ∷ 3 ∷ 4 ∷ 5 ∷ 6 ∷ 7 ∷ 8
    ∷ 1 ∷ 2 ∷ 3 ∷ 4 ∷ 5 ∷ 6 ∷ 7 ∷ 8 ∷ []

-- a file that is no key, and a key
abbrev key_disk : Fs
key_disk = record {
  files =
      ("keys" ∷ "README" ∷ [], 1 ∷ []) ∷ ("keys" ∷ "mitos.pub" ∷ [], b'0' ∷ b'1' ∷ 10 ∷ []) ∷ [];
  time = 0;
}

abbrev key_store : KeyStore
key_store = record { keys = ("mitos", key) ∷ [] }

keys_loaded :
    (load_dir (λ time call. none) (λ text. some key) ("keys" ∷ []) key_disk).0 ≡ ok key_store
unfolding load_dir mitos_pkg.Fs.Directories.is_dir string_eq mitos_pkg.Fs.◌>>>◌
    mitos_pkg.Fs.Directories.read_dir mitos_pkg.Security.KeyDirectory.load_entries
    mitos_pkg.Security.KeyDirectory.load_entry mitos_pkg.Security.KeyDirectory.load_key
    mitos_pkg.Fs.read HashMap.get list_eq mitos_pkg.Fs.done mitos_pkg.Prelude.Text.from_utf8
    HashMap.insert
keys_loaded = refl

mitos_found : find key_store "mitos" ≡ some key
unfolding find HashMap.get string_eq
mitos_found = refl

load_dir-IsKeyFile_example :
    IsKeyFile (λ time call. none) (λ text. some key) ("keys" ∷ []) key_disk.files "mitos" key
load_dir-IsKeyFile_example =
    load_dir-IsKeyFile (λ time call. none) (λ text. some key) ("keys" ∷ []) "mitos" key key_store
      key_disk keys_loaded mitos_found

-- an archive in the cache, beside the index
abbrev cached : State numbers
cached = record state {
  fs = record {
    files =
        ("var" ∷ "cache" ∷ "mitos-pkg" ∷ "downloads" ∷ "app.mpkg" ∷ [], 1 ∷ [])
        ∷ ("var" ∷ "cache" ∷ "mitos-pkg" ∷ "index.json" ∷ [], 2 ∷ [])
        ∷ [];
    time = 0;
  };
}

bytes_freed : (clean numbers outside cached).0 ≡ some (ok 1)
unfolding clean mitos_pkg.Service.State.on_fs mitos_pkg.Service.Commands.Opening.clean_dir
    mitos_pkg.Fs.Directories.is_dir string_eq mitos_pkg.Fs.◌>>>◌ mitos_pkg.Fs.Directories.read_dir
    mitos_pkg.Service.Commands.Opening.clean_entries mitos_pkg.Fs.done
    mitos_pkg.Service.Commands.Opening.remove_entry mitos_pkg.Fs.remove_file HashMap.get list_eq
bytes_freed = refl

archive_gone :
    (clean numbers outside cached).1.fs.files
    ≡ ("var" ∷ "cache" ∷ "mitos-pkg" ∷ "index.json" ∷ [], 2 ∷ []) ∷ []
unfolding clean mitos_pkg.Service.State.on_fs mitos_pkg.Service.Commands.Opening.clean_dir
    mitos_pkg.Fs.Directories.is_dir string_eq mitos_pkg.Fs.◌>>>◌ mitos_pkg.Fs.Directories.read_dir
    mitos_pkg.Service.Commands.Opening.clean_entries mitos_pkg.Fs.done
    mitos_pkg.Service.Commands.Opening.remove_entry mitos_pkg.Fs.remove_file HashMap.get list_eq
    HashMap.remove
archive_gone = refl

-- with no databases and no keys on the disk, and the index that the cache file gives
opened :
    (open_service numbers outside default_config cached.fs).0
    ≡ ok (record {
      config = default_config;
      packages = record { packages = []; path = packages_db_path default_config };
      files = record { owners = []; path = files_db_path default_config };
      index = small_index;
      keystore = record { keys = [] };
      fs = record cached.fs { time = 1 };
      fetches = 0;
      events = [];
    })
unfolding open_service mitos_pkg.Fs.◌>>>◌ mitos_pkg.Install.Store.load_packages HashMap.contains_key
    list_eq packages_db_path string_eq mitos_pkg.Install.Store.load_files files_db_path
    mitos_pkg.Repository.Cache.load mitos_pkg.Config.index_cache_path mitos_pkg.Fs.done
    mitos_pkg.Prelude.Text.from_utf8 load_dir mitos_pkg.Fs.Directories.is_dir
opened = refl
