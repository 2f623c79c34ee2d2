-- ===== src/Service/State.antt =====
-- The state of `PackageService` (src/service/lifecycle.rs) with what is around it, and how its commands
-- compose: a command can panic (none), fail, or return, and changes the state in each case.
pub mod Steps
pub mod Same
use mitos_pkg.Prelude.{
  Result, ℕ, suc, String, List, [], ◌∷◌, ◌++◌, Option, none, some, ok, err, ◌+◌,
}
use mitos_pkg.Prelude.Text.{Text}
use mitos_pkg.Error.{FilePath, PkgResult, PkgError, ErrorKind}
use mitos_pkg.Semver.{Semver}
use mitos_pkg.Fs.{Fs, Io, Bytes, FsCall}
use mitos_pkg.Config.{Config, history_path}
use mitos_pkg.Package.Manifest.{Manifest}
use mitos_pkg.Package.Signature.{Crypto}
use mitos_pkg.Security.Keys.{KeyStore}
use mitos_pkg.Repository.Index.{RepositoryIndex}
use mitos_pkg.Repository.Download.{Fetcher}
use mitos_pkg.Database.Packages.{InstalledDb}
use mitos_pkg.Database.Files.{FileDb}
use mitos_pkg.Database.History.{HistoryEntry, EntryJson, append, new_entry}
use mitos_pkg.Database.History.Clock.{now_rfc3339}
use mitos_pkg.Install.Transaction.{Os, World}
use mitos_pkg.Service.Lock.{acquire, unlock}
use mitos_pkg.Service.Progress.{ProgressEvent}

-- what the commands use beyond the operating system: the network, the crates and the clock
pub record Outside (sv : Semver) : Type 0 where
  pub os : Os sv
  pub crypto : Crypto
  pub fetch : Fetcher
  pub entry_json : EntryJson
  pub manifest_of : Text → Result (Manifest sv) String
  pub index_of : Bytes → PkgResult (RepositoryIndex sv)
  pub index_text : RepositoryIndex sv → PkgResult Bytes
  -- `String::from_utf8_lossy(bytes).trim()`, `Path::new(spec)`
  pub signature_text : Bytes → String
  pub path_of : String → FilePath
  -- `to_string` of an error
  pub to_string : PkgError → String
  -- `hex::decode`, and the length in the metadata of an entry of a directory
  pub hex_decode : Text → Option Bytes
  pub entry_len : Fs → FilePath → PkgResult ℕ
  -- what `statvfs` says, the architecture of the process, the seconds since the epoch
  pub available_bytes : Fs → FilePath → PkgResult ℕ
  pub host_arch : String
  pub now : Fs → ℕ

-- The service, the file system, how many fetches were made, and the progress events so far.
pub record State (sv : Semver) : Type 0 where
  pub config : Config
  pub packages : InstalledDb sv
  pub files : FileDb
  pub index : RepositoryIndex sv
  pub keystore : KeyStore
  pub fs : Fs
  pub fetches : ℕ
  pub events : List ProgressEvent

module _ (sv : Semver) where
  abbrev pub Command {ℓ} : Type ℓ → Type ℓ
  Command A = State sv → Option (PkgResult A) × State sv

  infixl 4 ◌>->◌
  unfoldable pub ◌>->◌ {ℓ κ} : {A : Type ℓ} {B : Type κ} → Command A → (A → Command B) → Command B
  (m >-> f) s =
      let (r, s1) = m s in
      elim r [ none ↦ (none, s1) | some (err e) ↦ (some (err e), s1) | some (ok a) ↦ f a s1 ]

  unfoldable pub give {ℓ} : {A : Type ℓ} → PkgResult A → Command A
  give r s = (some r, s)

  -- a result that may be a panic
  unfoldable pub give_or_panic {ℓ} : {A : Type ℓ} → Option (PkgResult A) → Command A
  give_or_panic o s = (o, s)

  unfoldable pub on_fs {ℓ} : {A : Type ℓ} → Io A → Command A
  on_fs m s = let (r, fs) = m s.fs in (some r, record s { fs = fs })

  unfoldable pub emit : ProgressEvent → Command {0} Unit
  emit event s = (some (ok tt), record s { events = s.events ++ (event ∷ []) })

  -- a method of `Transaction` on the two databases
  unfoldable pub transact : (World sv → PkgResult {0} Unit × World sv) → Command {0} Unit
  transact t s =
      let (r, w) = t (record { packages = s.packages; files = s.files; fs = s.fs }) in
      (some r, record s { packages = w.packages; files = w.files; fs = w.fs })

  module _ (out : Outside sv) where
    -- `let _lock = Lock::acquire(...)?`: the lock is dropped at the end, also of a failure or a panic.
    unfoldable pub with_lock {ℓ} : {A : Type ℓ} → Command A → Command A
    with_lock m s =
        (on_fs (acquire out.os.fails s.config.db_dir) >-> λ _. λ s1.
            let (r, s2) = m s1 in (r, record s2 { fs = unlock out.os.fails s.config.db_dir s2.fs }))
          s

    -- `history::append`, of an entry that `HistoryEntry::new` makes and `f` completes
    unfoldable pub record_entry : String → String → (HistoryEntry → HistoryEntry) → Command {0} Unit
    record_entry operation name f s = (
      some (ok tt),
      record s {
        fs =
            append out.entry_json out.os.fails (history_path s.config)
              (f (new_entry (now_rfc3339 (out.now s.fs)) operation name)) s.fs;
      },
    )
