-- ===== src/Daemon/Server.antt =====
-- `dispatch` and `handle_connection` of src/daemon/server.rs, on an interface of the service: each
-- operation takes the state of the service and gives its result, none if it panics, the new state, and
-- the progress events it emits in order. The service stands behind a lock: a panic of an operation that
-- holds it for writing poisons it, and then every request that takes it panics. The thread of a
-- connection ends with a panic, and the connection is closed. The socket is left out.
pub mod Wired
use mitos_pkg.Prelude.{
  true, if◌then◌else◌, ℕ, zero, suc, String, Bool, false, List, [], ◌∷◌, ◌++◌, Option, none, some,
  ok, err, ◌>>=◌,
}
use mitos_pkg.Error.{FilePath, PkgError, PkgResult, ErrorKind}
use mitos_pkg.Fs.{Bytes}
use mitos_pkg.Semver.{Semver}
use mitos_pkg.Repository.Metadata.{PackageMetadata}
use mitos_pkg.Database.Packages.{InstalledPackage}
use mitos_pkg.Database.History.{HistoryEntry}
use mitos_pkg.Service.Progress.{ProgressEvent, InfoView, VerifyIssue}
use mitos_pkg.Daemon.Wire.{Codec, Reader, write_json_line, read_json_line}
use mitos_pkg.Daemon.Protocol
use mitos_pkg.Daemon.Protocol.{Request, ResponsePayload, Message}

-- What an operation gives that reports progress.
pub record Outcome (S : Type 0) (A : Type 0) : Type 0 where
  pub result : Option (PkgResult A)
  pub after : S
  pub events : List ProgressEvent

pub record PackageService (sv : Semver) : Type 1 where
  pub S : Type 0
  pub install : String → Option String → Bool → S → Outcome S (List (String × sv.Version))
  pub install_local : FilePath → Option String → Bool → S → Outcome S (List (String × sv.Version))
  pub remove : String → Bool → Bool → Bool → S → Outcome S (List String)
  pub upgrade :
      Option String → Bool → Bool → S → Outcome S (List (String × sv.Version × sv.Version))
  pub hold : String → S → Option (PkgResult {0} Unit) × S
  pub unhold : String → S → Option (PkgResult {0} Unit) × S
  pub autoremove : S → Outcome S (List String)
  pub update : S → Outcome S Unit
  pub clean : S → Option (PkgResult ℕ) × S
  pub list : S → List (String × InstalledPackage sv)
  pub search : String → S → List (PackageMetadata sv)
  pub info : String → S → PkgResult (InfoView sv)
  pub verify : Option String → S → Option (PkgResult (List VerifyIssue)) × S
  pub history : ℕ → S → Option (PkgResult (List HistoryEntry)) × S
  -- `PkgError::to_string`
  pub to_string : PkgError → String

-- `RwLock` of the service
pub record Shared (S : Type 0) : Type 0 where
  pub state : S
  pub poisoned : Bool

-- `.map(...)` on a result that may be a panic
abbrev pub answering : {A B : Type 0} → (A → B) → Option (PkgResult A) → Option (PkgResult B)
answering payload none = none
answering payload (some r) = some (r >>= λ a. ok (payload a))

abbrev pub is_panic : {A : Type 0} → Option A → Bool
is_panic none = true
is_panic (some _) = false

module _ (sv : Semver) (service : PackageService sv) where
  abbrev pub Reply : Type 0
  Reply = Outcome (Shared service.S) (ResponsePayload sv)

  -- `service.write().expect(...)`, and an operation behind it
  unfoldable pub writing :
      {A : Type 0}
      → (A → ResponsePayload sv)
      → (service.S → Outcome service.S A)
      → Shared service.S
      → Reply
  writing payload operation shared =
      let o = operation shared.state in
      if shared.poisoned then record { result = none; after = shared; events = [] } else record {
        result = answering payload o.result;
        after = record { state = o.after; poisoned = is_panic o.result };
        events = o.events;
      }

  -- `service.read().expect(...)`: a panic behind it does not poison the lock.
  unfoldable pub reading :
      {A : Type 0}
      → (A → ResponsePayload sv)
      → (service.S → Option (PkgResult A) × service.S)
      → Shared service.S
      → Reply
  reading payload operation shared =
      let (r, s) = operation shared.state in
      if shared.poisoned then record { result = none; after = shared; events = [] } else record {
        result = answering payload r;
        after = record { state = s; poisoned = false };
        events = [];
      }

  -- an operation without progress
  abbrev pub quietly : {A : Type 0} → Option (PkgResult A) × service.S → Outcome service.S A
  quietly (r, s) = record { result = r; after = s; events = [] }

  -- the `match` of `dispatch`
  unfoldable pub perform : Request → Shared service.S → Reply
  unfolding writing reading
  perform Protocol.ping shared = record {
    result = some (ok Protocol.pong);
    after = shared;
    events = [];
  }
  perform (Protocol.install spec dry_run) shared =
      writing (λ packages. Protocol.installed packages dry_run)
        (λ s. service.install spec none dry_run s) shared
  perform (Protocol.install_local path signature dry_run) shared =
      writing (λ packages. Protocol.installed packages dry_run)
        (λ s. service.install_local path signature dry_run s) shared
  perform (Protocol.remove name cascade force dry_run) shared =
      writing (λ names. Protocol.removed names dry_run)
        (λ s. service.remove name cascade force dry_run s) shared
  perform (Protocol.upgrade name ignore_hold dry_run) shared =
      writing (λ changes. Protocol.upgraded changes dry_run)
        (λ s. service.upgrade name ignore_hold dry_run s) shared
  perform (Protocol.hold name) shared =
      writing (λ _. Protocol.unit) (λ s. quietly (service.hold name s)) shared
  perform (Protocol.unhold name) shared =
      writing (λ _. Protocol.unit) (λ s. quietly (service.unhold name s)) shared
  perform Protocol.autoremove shared =
      writing (λ names. Protocol.removed names false) (λ s. service.autoremove s) shared
  perform Protocol.update shared = writing (λ _. Protocol.unit) (λ s. service.update s) shared
  perform Protocol.clean shared =
      reading (λ bytes. Protocol.freed bytes) (λ s. service.clean s) shared
  perform Protocol.list shared =
      reading (λ packages. Protocol.listed packages) (λ s. (some (ok (service.list s)), s)) shared
  perform (Protocol.search query) shared =
      reading (λ found. Protocol.searched found) (λ s. (some (ok (service.search query s)), s))
        shared
  perform (Protocol.info name) shared =
      reading (λ view. Protocol.shown view) (λ s. (some (service.info name s), s)) shared
  perform (Protocol.verify name) shared =
      reading (λ issues. Protocol.verified issues) (λ s. service.verify name s) shared
  perform (Protocol.history limit) shared =
      reading (λ entries. Protocol.recent entries) (λ s. service.history limit s) shared

  -- A panic sends no last message.
  abbrev pub final_messages : Option (PkgResult (ResponsePayload sv)) → List (Message sv)
  final_messages none = []
  final_messages (some (ok payload)) = Protocol.success payload ∷ []
  final_messages (some (err e)) = Protocol.failure (service.to_string e) ∷ []

  abbrev pub progress_messages : List ProgressEvent → List (Message sv)
  progress_messages [] = []
  progress_messages (event ∷ events) = Protocol.progress event ∷ progress_messages events

  -- The messages that are written, whether it panics, and the service after.
  unfoldable pub dispatch :
      Request → Shared service.S → (List (Message sv) × Bool) × Shared service.S
  unfolding perform
  dispatch request shared =
      let reply = perform request shared in
      (
        (progress_messages reply.events ++ final_messages reply.result, is_panic reply.result),
        reply.after,
      )

  -- the messages of an answer, each on a line; a line that cannot be written is dropped
  unfoldable pub send_all :
      Codec (Message sv) → (Bytes → Option ErrorKind) → List (Message sv) → Bytes → Bytes
  unfolding write_json_line
  send_all messages refuses [] sent = sent
  send_all messages refuses (message ∷ rest) sent =
      send_all messages refuses rest (write_json_line messages refuses message sent).1

  -- The loop of `handle_connection`, on its reader and what it wrote so far: what it has written in the
  -- end, and the service. None if the fuel runs out; `malformed` is the text for an error.
  unfoldable pub handle_connection :
      Codec Request
      → Codec (Message sv)
      → (Bytes → Option ErrorKind)
      → (ErrorKind → String)
      → ℕ
      → Reader
      → Shared service.S
      → Bytes
      → Option (Bytes × Shared service.S)
  unfolding read_json_line dispatch send_all
  handle_connection requests messages refuses malformed zero r shared sent = none
  handle_connection requests messages refuses malformed (suc fuel) r shared sent =
      let (request, r1) = read_json_line requests r in
      elim request [
        | ok none ↦ some (sent, shared)
        | err k ↦
            some (send_all messages refuses (Protocol.failure (malformed k) ∷ []) sent, shared)
        | ok (some q) ↦
            let ((answer, panicked), shared1) = dispatch q shared in
            let written = send_all messages refuses answer sent in
            let rest =
              handle_connection requests messages refuses malformed fuel r1 shared1 written in
            if panicked then some (written, shared1) else rest
      ]
