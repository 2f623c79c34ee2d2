-- ===== src/Config.antt =====
-- src/config/files.rs. Parsing the JSON text of a configuration is a parameter of `load_or_default`.
use mitos_pkg.Prelude.{ℕ, String, List, [], ◌∷◌, ◌++◌, Option, none, ok, if◌then◌else◌}
use mitos_pkg.Prelude.Int.{ℤ, pos}
use mitos_pkg.Error.{FilePath, PkgResult, ErrorKind}
use mitos_pkg.Fs.{FsCall, Io, Bytes, ◌>>>◌, done, read, exists}

pub data RepoSource : Type 0 where
  plain : String → RepoSource
  detailed :
      (url : String) (signer : Option String) (mirrors : List String) (priority : ℤ) → RepoSource

unfoldable pub url : RepoSource → String
url (plain u) = u
url (detailed u _ _ _) = u

unfoldable pub signer : RepoSource → Option String
signer (plain _) = none
signer (detailed _ s _ _) = s

unfoldable pub mirrors : RepoSource → List String
mirrors (plain _) = []
mirrors (detailed _ _ m _) = m

unfoldable pub priority : RepoSource → ℤ
priority (plain _) = pos 0
priority (detailed _ _ _ p) = p

unfoldable pub urls : RepoSource → List String
unfolding url mirrors
urls r = url r ∷ mirrors r

pub record Config : Type 0 where
  pub install_root : FilePath
  pub db_dir : FilePath
  pub cache_dir : FilePath
  pub trusted_keys_dir : FilePath
  pub repositories : List RepoSource
  pub target_arch : Option String
  pub daemon_socket : FilePath

abbrev pub default_daemon_socket : FilePath
default_daemon_socket = "run" ∷ "mitos-pkg" ∷ "pkgd.sock" ∷ []

abbrev pub default_config : Config
default_config = record {
  install_root = [];
  db_dir = "var" ∷ "lib" ∷ "mitos-pkg" ∷ [];
  cache_dir = "var" ∷ "cache" ∷ "mitos-pkg" ∷ [];
  trusted_keys_dir = "etc" ∷ "mitos-pkg" ∷ "trusted-keys" ∷ [];
  repositories = plain "https://packages.mitos-os.org/index.json" ∷ [];
  target_arch = none;
  daemon_socket = default_daemon_socket;
}

unfoldable pub load_or_default :
    (ℕ → FsCall → Option ErrorKind) → (Bytes → PkgResult Config) → FilePath → Io Config
unfolding read exists
load_or_default fails config_of path fs =
    if exists path fs
    then (read fails path >>> λ text. done (config_of text)) fs
    else (ok default_config, fs)

unfoldable pub packages_db_path : Config → FilePath
packages_db_path c = c.db_dir ++ ("packages.json" ∷ [])

unfoldable pub files_db_path : Config → FilePath
files_db_path c = c.db_dir ++ ("files.json" ∷ [])

unfoldable pub history_path : Config → FilePath
history_path c = c.db_dir ++ ("history.jsonl" ∷ [])

unfoldable pub index_cache_path : Config → FilePath
index_cache_path c = c.cache_dir ++ ("index.json" ∷ [])

unfoldable pub download_cache_path : Config → String → FilePath
download_cache_path c filename = c.cache_dir ++ ("downloads" ∷ filename ∷ [])
