-- ===== src/Daemon/Protocol.antt =====
-- The messages of src/daemon/protocol.rs.
use mitos_pkg.Prelude.{ℕ, String, Bool, List, Option}
use mitos_pkg.Error.{FilePath}
use mitos_pkg.Semver.{Semver}
use mitos_pkg.Repository.Metadata.{PackageMetadata}
use mitos_pkg.Database.Packages.{InstalledPackage}
use mitos_pkg.Database.History.{HistoryEntry}
use mitos_pkg.Service.Progress.{ProgressEvent, InfoView, VerifyIssue}

abbrev pub default_history_limit : ℕ
default_history_limit = 20

pub data Request : Type 0 where
  ping : Request
  install : (spec : String) (dry_run : Bool) → Request
  install_local : (path : FilePath) (signature : Option String) (dry_run : Bool) → Request
  remove : (name : String) (cascade force dry_run : Bool) → Request
  upgrade : (name : Option String) (ignore_hold dry_run : Bool) → Request
  hold unhold : (name : String) → Request
  autoremove list : Request
  search : (query : String) → Request
  info : (name : String) → Request
  verify : (name : Option String) → Request
  history : (limit : ℕ) → Request
  update clean : Request

module _ (sv : Semver) where
  pub data ResponsePayload : Type 0 where
    pong unit : ResponsePayload
    installed : (packages : List (String × sv.Version)) (dry_run : Bool) → ResponsePayload
    removed : (names : List String) (dry_run : Bool) → ResponsePayload
    upgraded :
        (changes : List (String × sv.Version × sv.Version)) (dry_run : Bool) → ResponsePayload
    listed : (packages : List (String × InstalledPackage sv)) → ResponsePayload
    searched : (matches : List (PackageMetadata sv)) → ResponsePayload
    shown : InfoView sv → ResponsePayload
    verified : (issues : List VerifyIssue) → ResponsePayload
    recent : (entries : List HistoryEntry) → ResponsePayload
    freed : (bytes : ℕ) → ResponsePayload

  pub data Message : Type 0 where
    progress : ProgressEvent → Message
    success : ResponsePayload → Message
    failure : (message : String) → Message
