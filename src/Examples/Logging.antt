-- ===== src/Examples/Logging.antt =====
-- The log and its dates, on small inputs.
use mitos_pkg.Prelude.{
  ◌+◌, ◌≤◌, string_eq, list_eq, List, [], ◌∷◌, ◌++◌, none, some, ok, ◌≡◌, ◌⊎◌, refl, length,
}
use mitos_pkg.Prelude.Int.{pos, negsuc}
use mitos_pkg.Prelude.HashMap
use mitos_pkg.Prelude.Text.Framed
use mitos_pkg.Prelude.Text.{lines, from_utf8, trim}
use mitos_pkg.Error.{FilePath}
use mitos_pkg.Fs.{Fs}
use mitos_pkg.Database.History.{HistoryEntry, EntryJson, append, read_recent, entries_of, last_of}
use mitos_pkg.Database.History.Clock.{civil_from_days, now_rfc3339}
use mitos_pkg.Database.History.Calendar.{IsDate, civil_from_days-IsDate}
use mitos_pkg.Database.History.Recent.{IsWritten, read_recent-append, read_recent-recent}

-- 2024-01-01, and the last second of 2023
civil_from_days-IsDate_example : IsDate (civil_from_days (pos 19723)) (19723 + 719163)
civil_from_days-IsDate_example = civil_from_days-IsDate 19723

new_year : (civil_from_days (pos 19723)) ≡ record { year = pos 2024; month = 1; day = 1 }
unfolding civil_from_days
new_year = refl

before_epoch : (civil_from_days (negsuc 0)) ≡ record { year = pos 1969; month = 12; day = 31 }
unfolding civil_from_days
before_epoch = refl

old_years_night : now_rfc3339 1704067199 ≡ "2023-12-31T23:59:59Z"
unfolding now_rfc3339 mitos_pkg.Error.format
old_years_night = refl

abbrev entry : HistoryEntry
entry = record {
  timestamp = "t";
  operation = "install";
  pkg = "app";
  from_version = none;
  to_version = some "1";
}

-- every entry is written as {}
abbrev braces : EntryJson
braces = record { to_line = λ e. some (b'{' ∷ b'}' ∷ []); of_line = λ text. some entry }

braces-IsWritten : IsWritten braces entry (b'{' ∷ b'}' ∷ [])
unfolding from_utf8 trim
braces-IsWritten = record {
  writes = refl;
  line_in = ((refl, refl), ((refl, refl), tt));
  text = b'{' ∷ b'}' ∷ [];
  valid = refl;
  not_blank = refl;
  reads = refl;
}

abbrev log_path : FilePath
log_path = "history.jsonl" ∷ []

abbrev logged : Fs
logged = record { files = (log_path, b'{' ∷ b'}' ∷ 10 ∷ []) ∷ []; time = 0 }

one_entry : entries_of braces (lines (HashMap.get_or log_path [] logged.files)) ≡ ok (entry ∷ [])
unfolding entries_of lines HashMap.get list_eq string_eq from_utf8 trim
one_entry = refl

whole : Framed.IsWhole (HashMap.get_or log_path [] logged.files)
unfolding HashMap.get list_eq string_eq
whole = refl

read_recent-append_example :
    (read_recent braces
      (λ t c. none)
      log_path
      1
      (append braces (λ t c. none) log_path entry logged)).0
    ≡ ok (last_of 1 ((entry ∷ []) ++ (entry ∷ [])))
read_recent-append_example =
    read_recent-append braces (λ t c. none) log_path 1 entry (b'{' ∷ b'}' ∷ []) (entry ∷ []) logged
      (λ t c. refl) braces-IsWritten whole one_entry

two_recent : (read_recent braces (λ t c. none) log_path 2 logged).0 ≡ ok (entry ∷ [])
unfolding read_recent HashMap.contains_key list_eq string_eq mitos_pkg.Fs.◌>>>◌ mitos_pkg.Fs.done
    lines from_utf8 trim
two_recent = refl

read_recent-recent_example :
    (older : List HistoryEntry) × (entries_of braces
        (lines (HashMap.get_or log_path [] logged.files))
      ≡ ok (older ++ (entry ∷ [])))
    × (length (entry ∷ []) ≤ 2)
    × ((length (entry ∷ []) ≡ 2) ⊎ (older ≡ []))
read_recent-recent_example =
    read_recent-recent braces (λ t c. none) log_path 2 (entry ∷ []) logged two_recent
