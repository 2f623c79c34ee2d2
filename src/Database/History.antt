-- ===== src/Database/History.antt =====
-- src/database/history.rs: the log of the operations, one line of JSON for each. The JSON form of an
-- entry (the `serde_json` crate) is a parameter; the warnings on stderr are left out.
pub mod Clock
pub mod Calendar
pub mod Recent
use mitos_pkg.Prelude.{
  ℕ, zero, suc, ◌-◌, String, List, [], ◌∷◌, ◌++◌, Option, none, some, ok, err, if◌then◌else◌,
  length, ◌>>=◌,
}
use mitos_pkg.Prelude.Text.{Text, newline, from_utf8, is_nil, trim, lines}
use mitos_pkg.Error.{FilePath, PkgResult, ErrorKind, io, invalid_data}
use mitos_pkg.Fs.{FsCall, Fs, Io, Bytes, ◌>>>◌, done, ignore, make_parent, read, exists, append_to}

pub record HistoryEntry : Type 0 where
  pub timestamp : String
  pub operation : String
  pub pkg : String
  pub from_version : Option String
  pub to_version : Option String

-- `HistoryEntry::new`, at the given time
unfoldable pub new_entry : String → String → String → HistoryEntry
new_entry now operation pkg = record {
  timestamp = now;
  operation = operation;
  pkg = pkg;
  from_version = none;
  to_version = none;
}

unfoldable pub with_versions : Option String → Option String → HistoryEntry → HistoryEntry
with_versions from to entry = record entry { from_version = from; to_version = to }

-- `serde_json::to_string` and `from_str` on entries
pub record EntryJson : Type 0 where
  pub to_line : HistoryEntry → Option Bytes
  pub of_line : Text → Option HistoryEntry

-- `split_off(len - n)`, with the subtraction that stops at 0: the last `n` elements
abbrev pub drop {ℓ} : {A : Type ℓ} → ℕ → List A → List A
drop zero xs = xs
drop (suc n) [] = []
drop (suc n) (x ∷ xs) = drop n xs

abbrev pub last_of {ℓ} : {A : Type ℓ} → ℕ → List A → List A
last_of n xs = drop (length xs - n) xs

module _ (json : EntryJson) where
  -- the loop of `read_recent`
  unfoldable pub entries_of : List Bytes → PkgResult (List HistoryEntry)
  entries_of [] = ok []
  entries_of (line ∷ lines) =
      let rest = entries_of lines in
      elim (from_utf8 line) [
        | none ↦ err (io invalid_data)
        | some text ↦ if is_nil (trim text) then rest else elim (json.of_line text) [
          | none ↦ rest
          | some entry ↦ rest >>= λ all. ok (entry ∷ all)
        ]
      ]

  module _ (fails : ℕ → FsCall → Option ErrorKind) where
    -- `append(path, entry)`: a failure changes nothing.
    unfoldable pub append : FilePath → HistoryEntry → Fs → Fs
    unfolding make_parent append_to
    append path entry fs = elim (json.to_line entry) [
      | none ↦ fs
      | some line ↦
          ignore (make_parent fails path >>> λ _. append_to fails path (line ++ (newline ∷ []))) fs
    ]

    unfoldable pub read_recent : FilePath → ℕ → Io (List HistoryEntry)
    unfolding exists read entries_of
    read_recent path limit fs =
        if exists path fs
        then (read fails path >>> λ contents.
              done (entries_of (lines contents)) >>> λ all. done (ok (last_of limit all)))
            fs
        else (ok [], fs)
