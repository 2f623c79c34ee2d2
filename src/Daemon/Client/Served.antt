-- ===== src/Daemon/Client/Served.antt =====
-- `call` of src/daemon/client.rs on a connection that `handle_connection` of src/daemon/server.rs serves.
use mitos_pkg.Prelude.{
  inr, inl, Bool-cases, ℕ, zero, suc, ◌≤◌, ◌<◌, ◌≡◌, refl, sym, ap, ◌∙◌, String, List, [], ◌∷◌,
  ◌++◌, Option, none, some, ok, err, length, arith,
}
use mathlib.Core.List.{append-nil, append_assoc}
use mitos_pkg.Prelude.Text.{lines_inclusive}
use mitos_pkg.Prelude.Text.Framed.{with_newline}
use mitos_pkg.Error.{ErrorKind, PkgResult}
use mitos_pkg.Fs.{Bytes}
use mitos_pkg.Semver.{Semver}
use mitos_pkg.Service.Progress.{ProgressEvent}
use mitos_pkg.Daemon.Protocol
use mitos_pkg.Daemon.Protocol.{Request, ResponsePayload, Message}
use mitos_pkg.Daemon.Wire.{IoResult, Codec, received, write_json_line, read_json_line}
use mitos_pkg.Daemon.Wire.Framed.{IsFramed, write_framed, received-framed, read_framed}
use mitos_pkg.Daemon.Server.{
  PackageService, perform, dispatch, final_messages, Shared, progress_messages, send_all,
  handle_connection,
}
use mitos_pkg.Daemon.Client

module _ (sv : Semver) (requests : Codec Request) (messages : Codec (Message sv))
    (service : PackageService sv) where
  abbrev takes : Bytes → Option ErrorKind
  takes sent = none

  abbrev pub AllFramed : List (Message sv) → Type 0
  AllFramed [] = Unit
  AllFramed (m ∷ ms) = IsFramed messages m × AllFramed ms

  -- the lines of the messages
  abbrev lines_of : (ms : List (Message sv)) → AllFramed ms → Bytes
  lines_of [] all = []
  lines_of (m ∷ ms) all = with_newline all.0.line ++ lines_of ms all.1

  send_all-lines :
      (ms : List (Message sv)) (all : AllFramed ms) (sent : Bytes)
      → send_all sv service messages takes ms sent ≡ sent ++ lines_of ms all
  unfolding send_all
  send_all-lines [] all sent = sym (append-nil sent)
  send_all-lines (m ∷ ms) all sent =
      send_all-lines ms all.1 (write_json_line messages takes m sent).1
      ∙ ap (λ (w : IoResult {0} Unit × Bytes). w.1 ++ lines_of ms all.1)
          (write_framed messages m all.0 takes sent refl)
      ∙ append_assoc sent (with_newline all.0.line) (lines_of ms all.1)

  read_first :
      (m : Message sv) (ms : List (Message sv)) (all : AllFramed (m ∷ ms)) (more : Bytes)
      → read_json_line messages (received (lines_of (m ∷ ms) all ++ more))
        ≡ (ok (some m), received (lines_of ms all.1 ++ more))
  read_first m ms all more =
      ap (λ bytes. read_json_line messages (received bytes))
        (append_assoc (with_newline all.0.line) (lines_of ms all.1) more)
      ∙ ap (read_json_line messages) (received-framed messages m all.0 (lines_of ms all.1 ++ more))
      ∙ read_framed messages m all.0 (received (lines_of ms all.1 ++ more))

  -- the messages of an answer
  abbrev pub answer_messages :
      List ProgressEvent → Option (PkgResult (ResponsePayload sv)) → List (Message sv)
  answer_messages events r = progress_messages sv service events ++ final_messages sv service r

  module _ (refuses : Bytes → Option ErrorKind) where
    await-answer :
        (events : List ProgressEvent) (r : Option (PkgResult (ResponsePayload sv)))
        (all : AllFramed (answer_messages events r)) (fuel : ℕ) (sent : Bytes)
        → length events < fuel
        → Client.await sv requests messages refuses fuel (record {
          sent = sent;
          incoming = received (lines_of (answer_messages events r) all ++ []);
        })
          ≡ some (record {
            result = Client.returned service.to_string r;
            events = events;
            after = record { sent = sent; incoming = received [] };
          })
    unfolding Client.await received read_json_line lines_inclusive
    await-answer [] none all (suc fuel) sent h = refl
    await-answer [] (some (ok p)) all (suc fuel) sent h =
        ground (arith, read_first (Protocol.success p) [] all [])
    await-answer [] (some (err e)) all (suc fuel) sent h =
        ground (arith, read_first (Protocol.failure (service.to_string e)) [] all [])
    await-answer (event ∷ events) r all (suc fuel) sent h = ground (
      arith,
      read_first (Protocol.progress event) (answer_messages events r) all [],
      await-answer events r all.1 fuel sent (omega arith),
    )
    await-answer events r all zero sent h = absurd (omega arith)

  length-answer :
      (ms : List (Message sv)) (all : AllFramed ms) (more : Bytes)
      → length ms ≤ length (received (lines_of ms all ++ more))
  length-answer [] all more = omega arith
  length-answer (m ∷ ms) all more =
      rw
        (
          append_assoc (with_newline all.0.line) (lines_of ms all.1) more,
          received-framed messages m all.0 (lines_of ms all.1 ++ more),
        )
        (omega (arith, length-answer ms all.1 more))

  length-events :
      (events : List ProgressEvent) (ms : List (Message sv))
      → length events ≤ length (progress_messages sv service events ++ ms)
  length-events [] ms = omega arith
  length-events (e ∷ events) ms = omega (arith, length-events events ms)

  -- what the server writes in answer to a request
  abbrev pub answer : Request → Shared service.S → Bytes
  answer request shared =
      send_all sv service messages takes (dispatch sv service request shared).0.0 []

  module _ (request : Request) (framed : IsFramed requests request) where
    -- the connection after the call
    abbrev pub finished : Client.DaemonClient
    finished = record { sent = with_newline framed.line; incoming = [] }

    call-lines :
        (events : List ProgressEvent) (r : Option (PkgResult (ResponsePayload sv)))
        (all : AllFramed (answer_messages events r))
        → Client.call sv requests messages takes request (record {
          sent = [];
          incoming = received (lines_of (answer_messages events r) all ++ []);
        })
          ≡ some (record {
            result = Client.returned service.to_string r;
            events = events;
            after = finished;
          })
    unfolding Client.call received lines_inclusive
    call-lines events r all =
        let lines = lines_of (answer_messages events r) all ++ [] in
        let enough : length events < suc (length (received lines)) = omega (
          arith,
          length-answer (answer_messages events r) all [],
          length-events events (final_messages sv service r),
        ) in
        ground (
          arith,
          write_framed requests request framed takes [] refl,
          await-answer takes events r all (suc (length (received lines))) (with_newline framed.line)
              enough,
        )

    call-answered :
        (shared : Shared service.S)
        → AllFramed (
            answer_messages
              (perform sv service request shared).events
              (perform sv service request shared).result)
        → Client.call sv requests messages takes request
            (record { sent = []; incoming = received (answer request shared) })
          ≡ some (record {
            result = Client.returned service.to_string (perform sv service request shared).result;
            events = (perform sv service request shared).events;
            after = finished;
          })
    unfolding dispatch
    call-answered shared all =
        ap
          (λ bytes.
            Client.call sv requests messages takes request
              (record { sent = []; incoming = received bytes }))
          (send_all-lines (dispatch sv service request shared).0.0 all [] ∙ sym (append-nil _))
        ∙ call-lines (perform sv service request shared).events
            (perform sv service request shared).result all

    handle-answers :
        (malformed : ErrorKind → String) (shared : Shared service.S)
        → handle_connection sv service requests messages takes malformed 2
            (received (with_newline framed.line))
            shared
            []
          ≡ some (answer request shared, (dispatch sv service request shared).1)
    unfolding handle_connection received lines_inclusive read_json_line
    handle-answers malformed shared =
        ap (λ r. handle_connection sv service requests messages takes malformed 2 r shared [])
          (ap received (sym (append-nil (with_newline framed.line)))
            ∙ received-framed requests request framed [])
        ∙ elim (Bool-cases (dispatch sv service request shared).0.1) [
          | inl e ↦ ground (arith, read_framed requests request framed [])
          | inr e ↦ ground (arith, read_framed requests request framed [])
        ]

    -- If JSON writes the request, and each message of the answer to it, on one line and reads it again,
    -- and no write is refused: the daemon, given what `call` sends for the request, answers and waits for
    -- more, or ends with a panic, the service being where the request leaves it; and `call`, given that
    -- answer, returns what the service returned, an error as its text and a panic as the end of the
    -- stream, and passes on the progress events in their order.
    pub call-handle_connection :
        (malformed : ErrorKind → String) (shared : Shared service.S)
        → AllFramed (
            answer_messages
              (perform sv service request shared).events
              (perform sv service request shared).result)
        → (bytes : Bytes) × (handle_connection sv service requests messages takes malformed 2
              (received finished.sent)
              shared
              []
            ≡ some (bytes, (perform sv service request shared).after))
          × (Client.call sv requests messages takes request
                (record { sent = []; incoming = received bytes })
              ≡ some (record {
                result =
                    Client.returned service.to_string (perform sv service request shared).result;
                events = (perform sv service request shared).events;
                after = finished;
              }))
    unfolding dispatch
    call-handle_connection malformed shared all =
        (answer request shared, handle-answers malformed shared, call-answered shared all)
