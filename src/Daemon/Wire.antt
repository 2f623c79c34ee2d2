-- ===== src/Daemon/Wire.antt =====
-- `write_json_line` and `read_json_line` of src/daemon/protocol.rs. The JSON form of a value (the
-- `serde_json` crate) is a parameter. A writer is the bytes that went out so far, and may refuse more.
-- A reader is the list of what its calls of `read_line` return, up to the end of the stream.
pub mod Framed
use mitos_pkg.Prelude.{List, [], ◌∷◌, ◌++◌, Option, none, some, Result, ok, err, if◌then◌else◌}
use mitos_pkg.Prelude.Text.{Text, newline, from_utf8, trim, is_nil, lines_inclusive}
use mitos_pkg.Error.{ErrorKind, invalid_data}
use mitos_pkg.Fs.{Bytes}

-- `std::io::Result`
abbrev pub IoResult {ℓ} : Type ℓ → Type ℓ
IoResult A = Result A ErrorKind

pub record Codec (T : Type 0) : Type 0 where
  pub encode : T → Option Bytes
  pub decode : Text → Option T

abbrev pub Reader : Type 0
Reader = List (IoResult Bytes)

-- the reader of a stream on which the bytes arrive
abbrev pub received_lines : List Bytes → Reader
received_lines [] = []
received_lines (line ∷ lines) = ok line ∷ received_lines lines

unfoldable pub received : Bytes → Reader
unfolding lines_inclusive
received bytes = received_lines (lines_inclusive bytes)

module _ {T : Type 0} (codec : Codec T) where
  -- `refuses` says whether the writer takes the line.
  unfoldable pub write_json_line :
      (Bytes → Option ErrorKind) → T → Bytes → IoResult {0} Unit × Bytes
  write_json_line refuses value sent = elim (codec.encode value) [
    | none ↦ (err invalid_data, sent)
    | some line ↦ elim (refuses sent) [
      | some k ↦ (err k, sent)
      | none ↦ (ok tt, sent ++ (line ++ (newline ∷ [])))
    ]
  ]

  -- A line is not empty before the end of the stream.
  unfoldable pub read_json_line : Reader → IoResult (Option T) × Reader
  read_json_line [] = (ok none, [])
  read_json_line (err k ∷ r) = (err k, r)
  read_json_line (ok line ∷ r) =
      let rest = read_json_line r in
      elim (from_utf8 line) [
        | none ↦ (err invalid_data, r)
        | some text ↦ if is_nil (trim text) then rest else elim (codec.decode (trim text)) [
          | none ↦ (err invalid_data, r)
          | some value ↦ (ok (some value), r)
        ]
      ]
