-- ===== src/Daemon/Wire/Framed.antt =====
-- What `write_json_line` of src/daemon/protocol.rs sends, `read_json_line` reads.
use mitos_pkg.Prelude.{ℕ, ◌≡◌, refl, ap, ◌∙◌, [], ◌∷◌, ◌++◌, Option, none, some, ok, arith}
use mitos_pkg.Prelude.Text.{Text, newline, from_utf8, trim_start, trim_end}
use mitos_pkg.Prelude.Text.Framed.{
  IsLine, with_newline, from_utf8-append, trim-with_newline, lines_inclusive-line,
}
use mitos_pkg.Error.{ErrorKind}
use mitos_pkg.Fs.{Bytes}
use mitos_pkg.Daemon.Wire.{
  Codec, Reader, IoResult, received, received_lines, write_json_line, read_json_line,
}

-- What the JSON crate promises of a value: it becomes one line of valid UTF-8, with no newline or
-- carriage return, no white space at its ends and not empty, and that line is read as the value again.
pub record IsFramed {T : Type 0} (codec : Codec T) (value : T) : Type 0 where
  pub line : Bytes
  pub encodes : codec.encode value ≡ some line
  pub line_in : IsLine line
  pub first : ℕ
  pub others : Text
  pub valid : from_utf8 line ≡ some (first ∷ others)
  pub no_space_before : trim_start (first ∷ others) ≡ first ∷ others
  pub no_space_behind : trim_end (first ∷ others) ≡ first ∷ others
  pub decodes : codec.decode (first ∷ others) ≡ some value

newline-valid : from_utf8 (newline ∷ []) ≡ some (newline ∷ [])
unfolding from_utf8
newline-valid = refl

module _ {T : Type 0} (codec : Codec T) (value : T) (framed : IsFramed codec value) where
  open framed use {line, first, others}

  pub write_framed :
      (refuses : Bytes → Option ErrorKind) (sent : Bytes)
      → refuses sent ≡ none
      → write_json_line codec refuses value sent ≡ (ok tt, sent ++ with_newline line)
  unfolding write_json_line
  write_framed refuses sent takes = rw (write_json_line, framed.encodes, takes) refl

  pub received-framed :
      (more : Bytes) → received (with_newline line ++ more) ≡ ok (with_newline line) ∷ received more
  unfolding received
  received-framed more = ap received_lines (lines_inclusive-line line more framed.line_in)

  pub read_framed :
      (r : Reader) → read_json_line codec (ok (with_newline line) ∷ r) ≡ (ok (some value), r)
  unfolding read_json_line
  read_framed r = ground (
    arith,
    from_utf8-append (newline ∷ []) (newline ∷ []) newline-valid line (first ∷ others) framed.valid,
    trim-with_newline first others framed.no_space_before framed.no_space_behind,
    framed.decodes,
  )

  -- A value that the writer takes is the next one that the other side reads, and behind it comes what
  -- was sent later.
  pub read_json_line-write_json_line :
      (refuses : Bytes → Option ErrorKind) (more : Bytes)
      → refuses [] ≡ none
      → read_json_line codec (received ((write_json_line codec refuses value []).1 ++ more))
        ≡ (ok (some value), received more)
  read_json_line-write_json_line refuses more takes =
      ap (λ (w : IoResult {0} Unit × Bytes). read_json_line codec (received (w.1 ++ more)))
        (write_framed refuses [] takes)
      ∙ ap (read_json_line codec) (received-framed more)
      ∙ read_framed (received more)
