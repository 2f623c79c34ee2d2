-- ===== src/Daemon/Client.antt =====
-- src/daemon/client.rs. A connection is the bytes that were sent on it and the reader of what arrives. A
-- call gives its result and the progress events that `on_progress` gets, in order.
pub mod Served
pub mod Methods
use mitos_pkg.Prelude.{
  ℕ, zero, suc, String, Bool, true, false, List, [], ◌∷◌, Option, none, some, Result, ok, err,
  length,
}
use mitos_pkg.Error.{FilePath, PkgError, PkgResult, ErrorKind, unexpected_eof}
use mitos_pkg.Fs.{Bytes}
use mitos_pkg.Semver.{Semver}
use mitos_pkg.Repository.Metadata.{PackageMetadata}
use mitos_pkg.Database.Packages.{InstalledPackage}
use mitos_pkg.Database.History.{HistoryEntry}
use mitos_pkg.Service.Progress.{ProgressEvent, InfoView, VerifyIssue}
use mitos_pkg.Daemon.Protocol
use mitos_pkg.Daemon.Protocol.{Request, ResponsePayload, Message}
use mitos_pkg.Daemon.Wire.{Codec, Reader, write_json_line, read_json_line}

pub data ClientError : Type 0 where
  io : ErrorKind → ClientError
  daemon : String → ClientError
  unexpected_response : ClientError

abbrev pub ClientResult {ℓ} : Type ℓ → Type ℓ
ClientResult A = Result A ClientError

-- The result of a call for that of the service: an error arrives as its text, and a panic as the end of
-- the stream.
abbrev pub returned : {A : Type 0} → (PkgError → String) → Option (PkgResult A) → ClientResult A
returned text (some (ok a)) = ok a
returned text (some (err e)) = err (daemon (text e))
returned text none = err (io unexpected_eof)

pub record DaemonClient : Type 0 where
  pub sent : Bytes
  pub incoming : Reader

pub record Called (A : Type 0) : Type 0 where
  pub result : ClientResult A
  pub events : List ProgressEvent
  pub after : DaemonClient

abbrev pub failed : {A : Type 0} → ClientError → DaemonClient → Called A
failed e c = record { result = err e; events = []; after = c }

module _ (sv : Semver) (requests : Codec Request) (messages : Codec (Message sv))
    (refuses : Bytes → Option ErrorKind) where
  abbrev pub with_event : ProgressEvent → Called (ResponsePayload sv) → Called (ResponsePayload sv)
  with_event event c = record c { events = event ∷ c.events }

  -- The loop of `call`; none if the fuel runs out.
  unfoldable pub await : ℕ → DaemonClient → Option (Called (ResponsePayload sv))
  unfolding read_json_line
  await zero c = none
  await (suc fuel) c =
      let (message, incoming) = read_json_line messages c.incoming in
      let c1 = record c { incoming = incoming } in
      let rest = await fuel c1 in
      elim message [
        | err k ↦ some (failed (io k) c1)
        | ok none ↦ some (failed (io unexpected_eof) c1)
        | ok (some (Protocol.progress event)) ↦ elim rest [
          | none ↦ none
          | some later ↦ some (with_event event later)
        ]
        | ok (some (Protocol.success payload)) ↦
            some (record { result = ok payload; events = []; after = c1 })
        | ok (some (Protocol.failure message)) ↦ some (failed (daemon message) c1)
      ]

  -- The fuel is one more than the lines that arrive.
  unfoldable pub call : Request → DaemonClient → Option (Called (ResponsePayload sv))
  unfolding write_json_line await
  call request c =
      let (r, sent) = write_json_line requests refuses request c.sent in
      let c1 = record c { sent = sent } in
      let reply = await (suc (length c.incoming)) c1 in
      elim r [ err k ↦ some (failed (io k) c1) | ok _ ↦ reply ]

  -- Progress is dropped.
  abbrev pub quiet : Called (ResponsePayload sv) → Called (ResponsePayload sv)
  quiet c = record c { events = [] }

  unfoldable pub call_quiet : Request → DaemonClient → Option (Called (ResponsePayload sv))
  unfolding call
  call_quiet request c = elim (call request c) [ none ↦ none | some d ↦ some (quiet d) ]

  -- the `match` of a method on the payload
  unfoldable pub taking :
      {A : Type 0}
      → (ResponsePayload sv → Option A)
      → ClientResult (ResponsePayload sv)
      → ClientResult A
  taking pick (err e) = err e
  taking pick (ok payload) = elim (pick payload) [ none ↦ err unexpected_response | some a ↦ ok a ]

  unfoldable pub expecting :
      {A : Type 0}
      → (ResponsePayload sv → Option A)
      → Option (Called (ResponsePayload sv))
      → Option (Called A)
  unfolding taking
  expecting pick none = none
  expecting pick (some c) =
      some (record { result = taking pick c.result; events = c.events; after = c.after })

  abbrev pub pong_of : ResponsePayload sv → Option {0} Unit
  pong_of Protocol.pong = some tt
  pong_of _ = none

  abbrev pub unit_of : ResponsePayload sv → Option {0} Unit
  unit_of Protocol.unit = some tt
  unit_of _ = none

  abbrev pub installed_of : ResponsePayload sv → Option (List (String × sv.Version))
  installed_of (Protocol.installed packages _) = some packages
  installed_of _ = none

  abbrev pub removed_of : ResponsePayload sv → Option (List String)
  removed_of (Protocol.removed names _) = some names
  removed_of _ = none

  abbrev pub upgraded_of : ResponsePayload sv → Option (List (String × sv.Version × sv.Version))
  upgraded_of (Protocol.upgraded changes _) = some changes
  upgraded_of _ = none

  abbrev pub listed_of : ResponsePayload sv → Option (List (String × InstalledPackage sv))
  listed_of (Protocol.listed packages) = some packages
  listed_of _ = none

  abbrev pub searched_of : ResponsePayload sv → Option (List (PackageMetadata sv))
  searched_of (Protocol.searched matches) = some matches
  searched_of _ = none

  abbrev pub shown_of : ResponsePayload sv → Option (InfoView sv)
  shown_of (Protocol.shown view) = some view
  shown_of _ = none

  abbrev pub verified_of : ResponsePayload sv → Option (List VerifyIssue)
  verified_of (Protocol.verified issues) = some issues
  verified_of _ = none

  abbrev pub recent_of : ResponsePayload sv → Option (List HistoryEntry)
  recent_of (Protocol.recent entries) = some entries
  recent_of _ = none

  abbrev pub freed_of : ResponsePayload sv → Option ℕ
  freed_of (Protocol.freed bytes) = some bytes
  freed_of _ = none

  unfoldable pub ping : DaemonClient → Option (Called (Unit {0}))
  unfolding expecting call_quiet
  ping c = expecting pong_of (call_quiet Protocol.ping c)

  unfoldable pub install : String → DaemonClient → Option (Called (List (String × sv.Version)))
  unfolding expecting call
  install spec c = expecting installed_of (call (Protocol.install spec false) c)

  unfoldable pub install_dry_run :
      String → DaemonClient → Option (Called (List (String × sv.Version)))
  unfolding expecting call_quiet
  install_dry_run spec c = expecting installed_of (call_quiet (Protocol.install spec true) c)

  unfoldable pub install_local :
      FilePath → Option String → DaemonClient → Option (Called (List (String × sv.Version)))
  unfolding expecting call
  install_local path signature c =
      expecting installed_of (call (Protocol.install_local path signature false) c)

  unfoldable pub remove : String → Bool → Bool → DaemonClient → Option (Called (List String))
  unfolding expecting call
  remove name cascade force c =
      expecting removed_of (call (Protocol.remove name cascade force false) c)

  unfoldable pub remove_dry_run :
      String → Bool → Bool → DaemonClient → Option (Called (List String))
  unfolding expecting call_quiet
  remove_dry_run name cascade force c =
      expecting removed_of (call_quiet (Protocol.remove name cascade force true) c)

  unfoldable pub upgrade :
      Option String
      → Bool
      → DaemonClient
      → Option (Called (List (String × sv.Version × sv.Version)))
  unfolding expecting call
  upgrade name ignore_hold c =
      expecting upgraded_of (call (Protocol.upgrade name ignore_hold false) c)

  unfoldable pub upgrade_dry_run :
      Option String
      → Bool
      → DaemonClient
      → Option (Called (List (String × sv.Version × sv.Version)))
  unfolding expecting call_quiet
  upgrade_dry_run name ignore_hold c =
      expecting upgraded_of (call_quiet (Protocol.upgrade name ignore_hold true) c)

  unfoldable pub hold : String → DaemonClient → Option (Called (Unit {0}))
  unfolding expecting call_quiet
  hold name c = expecting unit_of (call_quiet (Protocol.hold name) c)

  unfoldable pub unhold : String → DaemonClient → Option (Called (Unit {0}))
  unfolding expecting call_quiet
  unhold name c = expecting unit_of (call_quiet (Protocol.unhold name) c)

  unfoldable pub autoremove : DaemonClient → Option (Called (List String))
  unfolding expecting call
  autoremove c = expecting removed_of (call Protocol.autoremove c)

  unfoldable pub update : DaemonClient → Option (Called (Unit {0}))
  unfolding expecting call
  update c = expecting unit_of (call Protocol.update c)

  unfoldable pub clean : DaemonClient → Option (Called ℕ)
  unfolding expecting call_quiet
  clean c = expecting freed_of (call_quiet Protocol.clean c)

  unfoldable pub list : DaemonClient → Option (Called (List (String × InstalledPackage sv)))
  unfolding expecting call_quiet
  list c = expecting listed_of (call_quiet Protocol.list c)

  unfoldable pub search : String → DaemonClient → Option (Called (List (PackageMetadata sv)))
  unfolding expecting call_quiet
  search query c = expecting searched_of (call_quiet (Protocol.search query) c)

  unfoldable pub info : String → DaemonClient → Option (Called (InfoView sv))
  unfolding expecting call_quiet
  info name c = expecting shown_of (call_quiet (Protocol.info name) c)

  unfoldable pub verify : Option String → DaemonClient → Option (Called (List VerifyIssue))
  unfolding expecting call_quiet
  verify name c = expecting verified_of (call_quiet (Protocol.verify name) c)

  unfoldable pub history : ℕ → DaemonClient → Option (Called (List HistoryEntry))
  unfolding expecting call_quiet
  history limit c = expecting recent_of (call_quiet (Protocol.history limit) c)
