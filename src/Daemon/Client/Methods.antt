-- ===== src/Daemon/Client/Methods.antt =====
-- The methods of src/daemon/client.rs on a connection to src/daemon/server.rs.
use mitos_pkg.Prelude.{
  arith, ℕ, ◌≡◌, refl, ap, ◌∙◌, String, Bool, List, [], Option, some, ok, err, true, false, none,
}
use mitos_pkg.Error.{FilePath, PkgResult}
use mitos_pkg.Fs.{Bytes}
use mitos_pkg.Semver.{Semver}
use mitos_pkg.Service.Progress.{ProgressEvent}
use mitos_pkg.Daemon.Protocol
use mitos_pkg.Daemon.Protocol.{Request, ResponsePayload, Message}
use mitos_pkg.Daemon.Wire.{Codec}
use mitos_pkg.Daemon.Server.{PackageService, perform, answering, writing, reading}
use mitos_pkg.Daemon.Client
use mitos_pkg.Daemon.Client.{ErrorKind}

module _ (sv : Semver) (requests : Codec Request) (messages : Codec (Message sv))
    (refuses : Bytes → Option ErrorKind) (service : PackageService sv) where
  -- A call returns the result of the service, with these events.
  pub record Gives {A : Type 0} (called : Option (Client.Called A)) (r : Option (PkgResult A))
      (events : List ProgressEvent) : Type 0 where
    pub after : Client.DaemonClient
    pub gives :
        called
        ≡ some (record {
          result = Client.returned service.to_string r;
          events = events;
          after = after;
        })

  expecting-Gives :
      {A : Type 0} (pick : ResponsePayload sv → Option A) (payload : A → ResponsePayload sv)
      (reply : Option (Client.Called (ResponsePayload sv))) (r : Option (PkgResult A))
      (events : List ProgressEvent)
      → ((a : A) → pick (payload a) ≡ some a)
      → Gives reply (answering payload r) events
      → Gives (Client.expecting sv requests messages refuses pick reply) r events
  unfolding Client.expecting Client.taking
  expecting-Gives pick payload reply (some (ok a)) events law given = record {
    after = given.after;
    gives =
        ap (Client.expecting sv requests messages refuses pick) given.gives ∙ ground (arith, law a);
  }
  expecting-Gives pick payload reply none events law given = record {
    after = given.after;
    gives = ap (Client.expecting sv requests messages refuses pick) given.gives;
  }
  expecting-Gives pick payload reply (some (err e)) events law given = record {
    after = given.after;
    gives = ap (Client.expecting sv requests messages refuses pick) given.gives;
  }

  module _ (s : service.S) (at_server : Request → Client.DaemonClient) where
    -- Each method gives what the operation of the service for its request gives. A method without a callback gives no events.
    pub record IsFaithful : Type 0 where
      pub install_gives :
          (spec : String)
          → Gives
              (Client.install sv requests messages refuses spec
                (at_server (Protocol.install spec false)))
              (service.install spec none false s).result
              (service.install spec none false s).events
      pub install_dry_run_gives :
          (spec : String)
          → Gives
              (Client.install_dry_run sv requests messages refuses spec
                (at_server (Protocol.install spec true)))
              (service.install spec none true s).result
              []
      pub install_local_gives :
          (path : FilePath) (signature : Option String)
          → Gives
              (Client.install_local sv requests messages refuses path signature
                (at_server (Protocol.install_local path signature false)))
              (service.install_local path signature false s).result
              (service.install_local path signature false s).events
      pub remove_gives :
          (name : String) (cascade force : Bool)
          → Gives
              (Client.remove sv requests messages refuses name cascade force
                (at_server (Protocol.remove name cascade force false)))
              (service.remove name cascade force false s).result
              (service.remove name cascade force false s).events
      pub remove_dry_run_gives :
          (name : String) (cascade force : Bool)
          → Gives
              (Client.remove_dry_run sv requests messages refuses name cascade force
                (at_server (Protocol.remove name cascade force true)))
              (service.remove name cascade force true s).result
              []
      pub upgrade_gives :
          (name : Option String) (ignore_hold : Bool)
          → Gives
              (Client.upgrade sv requests messages refuses name ignore_hold
                (at_server (Protocol.upgrade name ignore_hold false)))
              (service.upgrade name ignore_hold false s).result
              (service.upgrade name ignore_hold false s).events
      pub upgrade_dry_run_gives :
          (name : Option String) (ignore_hold : Bool)
          → Gives
              (Client.upgrade_dry_run sv requests messages refuses name ignore_hold
                (at_server (Protocol.upgrade name ignore_hold true)))
              (service.upgrade name ignore_hold true s).result
              []
      pub autoremove_gives :
          Gives
            (Client.autoremove sv requests messages refuses (at_server Protocol.autoremove))
            (service.autoremove s).result
            (service.autoremove s).events
      pub update_gives :
          Gives
            (Client.update sv requests messages refuses (at_server Protocol.update))
            (service.update s).result
            (service.update s).events
      pub hold_gives :
          (name : String)
          → Gives
              (Client.hold sv requests messages refuses name (at_server (Protocol.hold name)))
              (service.hold name s).0
              []
      pub unhold_gives :
          (name : String)
          → Gives
              (Client.unhold sv requests messages refuses name (at_server (Protocol.unhold name)))
              (service.unhold name s).0
              []
      pub clean_gives :
          Gives
            (Client.clean sv requests messages refuses (at_server Protocol.clean))
            (service.clean s).0
            []
      pub ping_gives :
          Gives
            (Client.ping sv requests messages refuses (at_server Protocol.ping))
            (some (ok tt))
            []
      pub list_gives :
          Gives
            (Client.list sv requests messages refuses (at_server Protocol.list))
            (some (ok (service.list s)))
            []
      pub search_gives :
          (query : String)
          → Gives
              (Client.search sv requests messages refuses query (at_server (Protocol.search query)))
              (some (ok (service.search query s)))
              []
      pub info_gives :
          (name : String)
          → Gives
              (Client.info sv requests messages refuses name (at_server (Protocol.info name)))
              (some (service.info name s))
              []
      pub verify_gives :
          (name : Option String)
          → Gives
              (Client.verify sv requests messages refuses name (at_server (Protocol.verify name)))
              (service.verify name s).0
              []
      pub history_gives :
          (limit : ℕ)
          → Gives
              (Client.history sv requests messages refuses limit
                (at_server (Protocol.history limit)))
              (service.history limit s).0
              []

    quiet_answer :
        (request : Request)
        → Gives
            (Client.call sv requests messages refuses request (at_server request))
            (perform sv service request (record { state = s; poisoned = false })).result
            (perform sv service request (record { state = s; poisoned = false })).events
        → Gives
            (Client.call_quiet sv requests messages refuses request (at_server request))
            (perform sv service request (record { state = s; poisoned = false })).result
            []
    unfolding Client.call_quiet
    quiet_answer request given = record { after = given.after; gives = ground (arith, given.gives) }

    -- If on some connection `call` returns for each request what the service gives, an error as its text,
    -- as it does on an answer of the daemon, then each method of the client returns exactly the value that
    -- the operation of the service returned, or the text of its error, never an unexpected response; the
    -- methods with a callback pass on the progress events of the operation in their order.
    pub client-IsFaithful :
        ((request : Request)
          → Gives
              (Client.call sv requests messages refuses request (at_server request))
              (perform sv service request (record { state = s; poisoned = false })).result
              (perform sv service request (record { state = s; poisoned = false })).events)
        → IsFaithful
    unfolding writing reading Client.install Client.install_dry_run Client.install_local
        Client.remove Client.remove_dry_run Client.upgrade Client.upgrade_dry_run Client.autoremove
        Client.update Client.hold Client.unhold Client.clean Client.ping Client.list Client.search
        Client.info Client.verify Client.history perform
    client-IsFaithful call_answer = record {
      install_gives = λ spec.
          expecting-Gives (Client.installed_of sv requests messages refuses)
            (λ packages. Protocol.installed packages false) _
            (service.install spec none false s).result (service.install spec none false s).events
            (λ _. refl) (call_answer (Protocol.install spec false));
      install_dry_run_gives = λ spec.
          expecting-Gives (Client.installed_of sv requests messages refuses)
            (λ packages. Protocol.installed packages true) _
            (service.install spec none true s).result [] (λ _. refl)
            (quiet_answer (Protocol.install spec true) (call_answer (Protocol.install spec true)));
      install_local_gives = λ path signature.
          expecting-Gives (Client.installed_of sv requests messages refuses)
            (λ packages. Protocol.installed packages false) _
            (service.install_local path signature false s).result
            (service.install_local path signature false s).events (λ _. refl)
            (call_answer (Protocol.install_local path signature false));
      remove_gives = λ name cascade force.
          expecting-Gives (Client.removed_of sv requests messages refuses)
            (λ names. Protocol.removed names false) _
            (service.remove name cascade force false s).result
            (service.remove name cascade force false s).events (λ _. refl)
            (call_answer (Protocol.remove name cascade force false));
      remove_dry_run_gives = λ name cascade force.
          expecting-Gives (Client.removed_of sv requests messages refuses)
            (λ names. Protocol.removed names true) _
            (service.remove name cascade force true s).result [] (λ _. refl)
            (quiet_answer (Protocol.remove name cascade force true)
              (call_answer (Protocol.remove name cascade force true)));
      upgrade_gives = λ name ignore_hold.
          expecting-Gives (Client.upgraded_of sv requests messages refuses)
            (λ changes. Protocol.upgraded changes false) _
            (service.upgrade name ignore_hold false s).result
            (service.upgrade name ignore_hold false s).events (λ _. refl)
            (call_answer (Protocol.upgrade name ignore_hold false));
      upgrade_dry_run_gives = λ name ignore_hold.
          expecting-Gives (Client.upgraded_of sv requests messages refuses)
            (λ changes. Protocol.upgraded changes true) _
            (service.upgrade name ignore_hold true s).result [] (λ _. refl)
            (quiet_answer (Protocol.upgrade name ignore_hold true)
              (call_answer (Protocol.upgrade name ignore_hold true)));
      autoremove_gives =
          expecting-Gives (Client.removed_of sv requests messages refuses)
            (λ names. Protocol.removed names false) _ (service.autoremove s).result
            (service.autoremove s).events (λ _. refl) (call_answer Protocol.autoremove);
      update_gives =
          expecting-Gives (Client.unit_of sv requests messages refuses) (λ _. Protocol.unit) _
            (service.update s).result (service.update s).events (λ _. refl)
            (call_answer Protocol.update);
      hold_gives = λ name.
          expecting-Gives (Client.unit_of sv requests messages refuses) (λ _. Protocol.unit) _
            (service.hold name s).0 [] (λ _. refl)
            (quiet_answer (Protocol.hold name) (call_answer (Protocol.hold name)));
      unhold_gives = λ name.
          expecting-Gives (Client.unit_of sv requests messages refuses) (λ _. Protocol.unit) _
            (service.unhold name s).0 [] (λ _. refl)
            (quiet_answer (Protocol.unhold name) (call_answer (Protocol.unhold name)));
      clean_gives =
          expecting-Gives (Client.freed_of sv requests messages refuses)
            (λ bytes. Protocol.freed bytes) _ (service.clean s).0 [] (λ _. refl)
            (quiet_answer Protocol.clean (call_answer Protocol.clean));
      ping_gives =
          expecting-Gives (Client.pong_of sv requests messages refuses) (λ _. Protocol.pong) _
            (some (ok tt)) [] (λ _. refl) (quiet_answer Protocol.ping (call_answer Protocol.ping));
      list_gives =
          expecting-Gives (Client.listed_of sv requests messages refuses)
            (λ packages. Protocol.listed packages) _ (some (ok (service.list s))) [] (λ _. refl)
            (quiet_answer Protocol.list (call_answer Protocol.list));
      search_gives = λ query.
          expecting-Gives (Client.searched_of sv requests messages refuses)
            (λ matches. Protocol.searched matches) _ (some (ok (service.search query s))) []
            (λ _. refl)
            (quiet_answer (Protocol.search query) (call_answer (Protocol.search query)));
      info_gives = λ name.
          expecting-Gives (Client.shown_of sv requests messages refuses)
            (λ view. Protocol.shown view) _ (some (service.info name s)) [] (λ _. refl)
            (quiet_answer (Protocol.info name) (call_answer (Protocol.info name)));
      verify_gives = λ name.
          expecting-Gives (Client.verified_of sv requests messages refuses)
            (λ issues. Protocol.verified issues) _ (service.verify name s).0 [] (λ _. refl)
            (quiet_answer (Protocol.verify name) (call_answer (Protocol.verify name)));
      history_gives = λ limit.
          expecting-Gives (Client.recent_of sv requests messages refuses)
            (λ entries. Protocol.recent entries) _ (service.history limit s).0 [] (λ _. refl)
            (quiet_answer (Protocol.history limit) (call_answer (Protocol.history limit)));
    }
