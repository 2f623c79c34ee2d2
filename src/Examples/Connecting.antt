-- ===== src/Examples/Connecting.antt =====
-- A connection between the client and the daemon.
use mitos_pkg.Prelude.{
  ◌≡◌, refl, ℕ, String, Bool, true, false, List, [], ◌∷◌, ◌++◌, Option, none, some, ok, err, eqb,
  if◌then◌else◌,
}
use mitos_pkg.Prelude.Text.{Text, newline, from_utf8, trim_start, trim_end}
use mitos_pkg.Error.{ErrorKind, not_installed}
use mitos_pkg.Fs.{Bytes}
use mitos_pkg.Service.Progress.{resolving}
use mitos_pkg.Daemon.Protocol
use mitos_pkg.Daemon.Protocol.{Request, ResponsePayload, Message}
use mitos_pkg.Daemon.Wire.{Codec, Reader, received, write_json_line, read_json_line}
use mitos_pkg.Daemon.Wire.Framed.{IsFramed, read_json_line-write_json_line}
use mitos_pkg.Daemon.Server.{Shared, PackageService, perform, handle_connection}
use mitos_pkg.Daemon.Client
use mitos_pkg.Daemon.Client.Served.{AllFramed, answer_messages, finished, call-handle_connection}
use mitos_pkg.Daemon.Client.Methods.{Gives, IsFaithful, client-IsFaithful}
use mitos_pkg.Examples.{numbers}
use mitos_pkg.Examples.Serving.{counting}

abbrev install_app : Request
install_app = Protocol.install "app" false

abbrev four : Shared ℕ
four = record { state = 4; poisoned = false }

abbrev requests : Codec Request
requests = record { encode = λ q. some (b'q' ∷ []); decode = λ text. some install_app }

q_valid : from_utf8 (b'q' ∷ []) ≡ some (b'q' ∷ [])
unfolding from_utf8
q_valid = refl

q_start : trim_start (b'q' ∷ []) ≡ b'q' ∷ []
unfolding trim_start
q_start = refl

q_end : trim_end (b'q' ∷ []) ≡ b'q' ∷ []
unfolding trim_end
q_end = refl

abbrev install_app-IsFramed : IsFramed requests install_app
install_app-IsFramed = record {
  line = b'q' ∷ [];
  encodes = refl;
  line_in = ((refl, refl), tt);
  first = b'q';
  others = [];
  valid = q_valid;
  no_space_before = q_start;
  no_space_behind = q_end;
  decodes = refl;
}

-- progress is p, the rest is s
abbrev letter : Message numbers → Bytes
letter (Protocol.progress event) = b'p' ∷ []
letter _ = b's' ∷ []

abbrev message_of : Text → Option (Message numbers)
message_of [] = none
message_of (c ∷ text) =
    if eqb c b'p'
    then some (Protocol.progress (resolving "app"))
    else some (Protocol.success (Protocol.installed (("app", 1) ∷ []) false))

abbrev messages : Codec (Message numbers)
messages = record { encode = λ m. some (letter m); decode = message_of }

answered : AllFramed numbers requests messages counting (
    answer_messages numbers requests messages counting
      (perform numbers counting install_app four).events
      (perform numbers counting install_app four).result)
unfolding perform from_utf8 trim_start trim_end
answered = (
  record {
    line = b'p' ∷ [];
    encodes = refl;
    line_in = ((refl, refl), tt);
    first = b'p';
    others = [];
    valid = refl;
    no_space_before = refl;
    no_space_behind = refl;
    decodes = refl;
  },
  (
    record {
      line = b's' ∷ [];
      encodes = refl;
      line_in = ((refl, refl), tt);
      first = b's';
      others = [];
      valid = refl;
      no_space_before = refl;
      no_space_behind = refl;
      decodes = refl;
    },
    tt,
  ),
)

abbrev accepting : Bytes → Option ErrorKind
accepting sent = none

read_json_line-write_json_line_example :
    read_json_line requests
      (received ((write_json_line requests accepting install_app []).1 ++ (b'r' ∷ [])))
    ≡ (ok (some install_app), received (b'r' ∷ []))
read_json_line-write_json_line_example =
    read_json_line-write_json_line requests install_app install_app-IsFramed accepting (b'r' ∷ [])
      refl

call-handle_connection_example :
    (bytes : Bytes) × (handle_connection numbers counting requests messages accepting
        (λ k. "malformed")
        2
        (received
          (finished numbers requests messages counting install_app install_app-IsFramed).sent)
        four
        []
      ≡ some (bytes, record { state = 5; poisoned = false }))
    × (Client.call numbers requests messages accepting install_app
          (record { sent = []; incoming = received bytes })
        ≡ some (record {
          result = ok (Protocol.installed (("app", 1) ∷ []) false);
          events = resolving "app" ∷ [];
          after = finished numbers requests messages counting install_app install_app-IsFramed;
        }))
unfolding perform
call-handle_connection_example =
    call-handle_connection numbers requests messages counting install_app install_app-IsFramed
      (λ k. "malformed") four answered

-- A service whose results are always the same, and the answers that the daemon gives for it, by a letter.
abbrev steady : PackageService numbers
steady = record counting {
  install = λ spec signature dry_run s. record {
    result = some (ok []);
    after = s;
    events = resolving "app" ∷ [];
  };
  remove = λ name cascade force dry_run s. record {
    result = some (err (not_installed "app"));
    after = s;
    events = [];
  };
}

abbrev replies : List (ℕ × Message numbers)
replies =
    (b'p', Protocol.progress (resolving "app"))
    ∷ (b'a', Protocol.success Protocol.pong)
    ∷ (b'b', Protocol.success (Protocol.installed [] true))
    ∷ (b'c', Protocol.success (Protocol.installed [] false))
    ∷ (b'd', Protocol.failure "error")
    ∷ (b'e', Protocol.success (Protocol.upgraded [] true))
    ∷ (b'f', Protocol.success (Protocol.upgraded [] false))
    ∷ (b'g', Protocol.success Protocol.unit)
    ∷ (b'h', Protocol.success (Protocol.removed [] false))
    ∷ (b'i', Protocol.success (Protocol.listed []))
    ∷ (b'j', Protocol.success (Protocol.searched []))
    ∷ (b'k', Protocol.success (Protocol.verified []))
    ∷ (b'l', Protocol.success (Protocol.recent []))
    ∷ (b'm', Protocol.success (Protocol.freed 0))
    ∷ []

abbrev reply_in : List (ℕ × Message numbers) → ℕ → Option (Message numbers)
reply_in [] c = none
reply_in ((k, message) ∷ rest) c = if eqb c k then some message else reply_in rest c

abbrev reply_of : Text → Option (Message numbers)
reply_of [] = none
reply_of (c ∷ text) = reply_in replies c

abbrev by_letter : Codec (Message numbers)
by_letter = record { encode = λ m. none; decode = reply_of }

-- the lines of the answer to each request
abbrev letters : Request → Bytes
letters Protocol.ping = b'a' ∷ []
letters (Protocol.install spec true) = b'p' ∷ b'b' ∷ []
letters (Protocol.install spec false) = b'p' ∷ b'c' ∷ []
letters (Protocol.install_local path signature true) = b'b' ∷ []
letters (Protocol.install_local path signature false) = b'c' ∷ []
letters (Protocol.remove name cascade force dry_run) = b'd' ∷ []
letters (Protocol.upgrade name ignore_hold true) = b'e' ∷ []
letters (Protocol.upgrade name ignore_hold false) = b'f' ∷ []
letters (Protocol.hold name) = b'g' ∷ []
letters (Protocol.unhold name) = b'g' ∷ []
letters Protocol.autoremove = b'h' ∷ []
letters Protocol.list = b'i' ∷ []
letters (Protocol.search query) = b'j' ∷ []
letters (Protocol.info name) = b'd' ∷ []
letters (Protocol.verify name) = b'k' ∷ []
letters (Protocol.history limit) = b'l' ∷ []
letters Protocol.update = b'g' ∷ []
letters Protocol.clean = b'm' ∷ []

abbrev lines_of : Bytes → Reader
lines_of [] = []
lines_of (c ∷ cs) = ok (c ∷ newline ∷ []) ∷ lines_of cs

abbrev at_server : Request → Client.DaemonClient
at_server q = record { sent = []; incoming = lines_of (letters q) }

abbrev after : Client.DaemonClient
after = record { sent = b'q' ∷ newline ∷ []; incoming = [] }

abbrev Answers : Request → Type 0
Answers q =
    Gives numbers requests by_letter accepting steady
      (Client.call numbers requests by_letter accepting q (at_server q))
      (perform numbers steady q four).result (perform numbers steady q four).events

answers : (q : Request) → Answers q
unfolding Client.call from_utf8 mitos_pkg.Prelude.Text.trim perform
answers Protocol.ping = record { after = after; gives = refl }
answers (Protocol.install spec true) = record { after = after; gives = refl }
answers (Protocol.install spec false) = record { after = after; gives = refl }
answers (Protocol.install_local path signature true) = record { after = after; gives = refl }
answers (Protocol.install_local path signature false) = record { after = after; gives = refl }
answers (Protocol.remove name cascade force dry_run) = record { after = after; gives = refl }
answers (Protocol.upgrade name ignore_hold true) = record { after = after; gives = refl }
answers (Protocol.upgrade name ignore_hold false) = record { after = after; gives = refl }
answers (Protocol.hold name) = record { after = after; gives = refl }
answers (Protocol.unhold name) = record { after = after; gives = refl }
answers Protocol.autoremove = record { after = after; gives = refl }
answers Protocol.list = record { after = after; gives = refl }
answers (Protocol.search query) = record { after = after; gives = refl }
answers (Protocol.info name) = record { after = after; gives = refl }
answers (Protocol.verify name) = record { after = after; gives = refl }
answers (Protocol.history limit) = record { after = after; gives = refl }
answers Protocol.update = record { after = after; gives = refl }
answers Protocol.clean = record { after = after; gives = refl }

client-IsFaithful_example : IsFaithful numbers requests by_letter accepting steady 4 at_server
client-IsFaithful_example =
    client-IsFaithful numbers requests by_letter accepting steady 4 at_server answers
