-- ===== src/Database/History/Recent.antt =====
-- What is appended to the log of src/database/history.rs is read back.
use mitos_pkg.Prelude.{
  leb, ◌⊎◌, zero, suc, string_eq, list_eq, ◌-◌, Bool-cases, inl, inr, >>=-ok, ℕ, ◌≤◌, ◌≡◌, refl,
  sym, ap, ◌∙◌, false, List, [], ◌∷◌, ◌++◌, Option, none, some, ok, length, arith, Option-cases,
}
use mitos_pkg.Prelude.HashMap
use mitos_pkg.Prelude.Text.{Text, from_utf8, is_nil, trim, lines}
use mitos_pkg.Prelude.Text.Framed.{IsLine, IsWhole, with_newline, lines-append}
use mitos_pkg.Error.{FilePath, ErrorKind}
use mitos_pkg.Fs.{FsCall, Fs, Bytes, ◌>>>◌, done, read, exists}
use mitos_pkg.Fs.Kept.{>>>-ok, read-ok}
use mitos_pkg.Fs.Allowed.{append_to-grows, read-allowed}
use mitos_pkg.Database.History.{
  HistoryEntry, EntryJson, last_of, entries_of, append, read_recent, drop,
}

-- What the JSON crate promises of an entry: it becomes one line of valid UTF-8, with no newline or
-- carriage return and not blank, and that line is read as the entry again.
pub record IsWritten (json : EntryJson) (entry : HistoryEntry) (line : Bytes) : Type 0 where
  pub writes : json.to_line entry ≡ some line
  pub line_in : IsLine line
  pub text : Text
  pub valid : from_utf8 line ≡ some text
  pub not_blank : is_nil (trim text) ≡ false
  pub reads : json.of_line text ≡ some entry

module _ (json : EntryJson) where
  entries_of-append :
      (ls : List Bytes) (entry : HistoryEntry) (line : Bytes) (all : List HistoryEntry)
      → IsWritten json entry line
      → entries_of json ls ≡ ok all
      → entries_of json (ls ++ (line ∷ [])) ≡ ok (all ++ (entry ∷ []))
  unfolding entries_of
  entries_of-append [] entry line all w h = ground (arith, w.valid, w.not_blank, w.reads)
  entries_of-append (l ∷ ls) entry line all w h = elim (Option-cases (from_utf8 l)) [
    | inl e ↦ absurd (ground arith)
    | inr (t, e) ↦ elim (Bool-cases (is_nil (trim t))) [
      | inl blank ↦ ground (arith, entries_of-append ls entry line all w)
      | inr shown ↦ elim (Option-cases (json.of_line t)) [
        | inl bad ↦ ground (arith, entries_of-append ls entry line all w)
        | inr (first, good) ↦
            let (rest, p, q) =
              >>=-ok (entries_of json ls) (λ all. ok (first ∷ all)) {t = all} (ground arith) in
            ground (arith, q, p, entries_of-append ls entry line rest w p)
      ]
    ]
  ]

  module _ (fails : ℕ → FsCall → Option ErrorKind) (path : FilePath) where
    -- where nothing refuses the call
    append-grows :
        (entry : HistoryEntry) (line : Bytes) (fs : Fs)
        → ((t : ℕ) (c : FsCall) → fails t c ≡ none)
        → IsWritten json entry line
        → HashMap.get path (append json fails path entry fs).files
          ≡ some (HashMap.get_or path [] fs.files ++ with_newline line)
    unfolding append
    append-grows entry line fs free w =
        ground (arith, w.writes, append_to-grows fails free path (with_newline line) fs)

    read_recent-contents :
        (limit : ℕ) (contents : Bytes) (all : List HistoryEntry) (fs : Fs)
        → ((t : ℕ) (c : FsCall) → fails t c ≡ none)
        → HashMap.get path fs.files ≡ some contents
        → entries_of json (lines contents) ≡ ok all
        → (read_recent json fails path limit fs).0 ≡ ok (last_of limit all)
    unfolding read_recent ◌>>>◌ done exists HashMap.contains_key
    read_recent-contents limit contents all fs free g h =
        ground (arith, read-allowed fails free path contents fs g)

length-drop {ℓ} : {A : Type ℓ} (n : ℕ) (xs : List A) → length (drop n xs) ≡ length xs - n
length-drop zero xs = omega arith
length-drop (suc n) [] = omega arith
length-drop (suc n) (x ∷ xs) = omega (arith, length-drop n xs)

split-drop {ℓ} :
    {A : Type ℓ} (n : ℕ) (xs : List A)
    → (older : List A) × (xs ≡ older ++ drop n xs) × (n ≡ 0 → older ≡ [])
split-drop zero xs = ([], refl, λ _. refl)
split-drop (suc n) [] = ([], refl, λ _. refl)
split-drop (suc n) (x ∷ xs) =
    let (older, e, _) = split-drop n xs in
    (x ∷ older, ap (λ ys. x ∷ ys) e, λ z. absurd (omega arith))

module _ (json : EntryJson) (fails : ℕ → FsCall → Option ErrorKind) (path : FilePath) where
  -- If the log holds whole lines that `read_recent` can read, JSON writes and reads the entry, and the
  -- operating system refuses no call, then after `append`, `read_recent` returns the last entries, at
  -- most `limit` of them, of those that were there followed by the new one.
  pub read_recent-append :
      (limit : ℕ) (entry : HistoryEntry) (line : Bytes) (all : List HistoryEntry) (fs : Fs)
      → ((t : ℕ) (c : FsCall) → fails t c ≡ none)
      → IsWritten json entry line
      → IsWhole (HashMap.get_or path [] fs.files)
      → entries_of json (lines (HashMap.get_or path [] fs.files)) ≡ ok all
      → (read_recent json fails path limit (append json fails path entry fs)).0
        ≡ ok (last_of limit (all ++ (entry ∷ [])))
  read_recent-append limit entry line all fs free w whole old =
      read_recent-contents json fails path limit _ _ (append json fails path entry fs) free
        (append-grows json fails path entry line fs free w)
        (ap (entries_of json) (lines-append _ line whole w.line_in)
          ∙ entries_of-append json _ entry line all w old)

  empty_log : entries_of json (lines []) ≡ ok []
  unfolding entries_of lines
  empty_log = refl

  absent-log :
      (m : HashMap.HashMap FilePath Bytes)
      → HashMap.get path m ≡ none
      → HashMap.get_or path [] m ≡ []
  absent-log m e = ground arith

  present-log :
      (b : Bytes) (m : HashMap.HashMap FilePath Bytes)
      → HashMap.get path m ≡ some b
      → HashMap.get_or path [] m ≡ b
  present-log b m e = ground arith

  read_recent-read :
      (limit : ℕ) (recent : List HistoryEntry) (contents : Bytes) (fs : Fs)
      → HashMap.get path fs.files ≡ some contents
      → (read_recent json fails path limit fs).0 ≡ ok recent
      → (all : List HistoryEntry) × (entries_of json (lines contents) ≡ ok all)
        × (recent ≡ last_of limit all)
  unfolding read_recent exists HashMap.contains_key done
  read_recent-read limit recent contents fs e h =
      let (text, p, q) =
        >>>-ok (read fails path)
          (λ text. done (entries_of json (lines text)) >>> λ all. done (ok (last_of limit all))) fs
          recent (ground arith) in
      let found : HashMap.get path fs.files ≡ some text = read-ok fails path text fs p in
      let (all, r, t) =
        >>>-ok (done (entries_of json (lines text))) (λ all. done (ok (last_of limit all)))
          (read fails path fs).1 recent q in
      (all, ground (arith, r), ground (arith, t))

  pub read_recent-recent :
      (limit : ℕ) (recent : List HistoryEntry) (fs : Fs)
      → (read_recent json fails path limit fs).0 ≡ ok recent
      → (older : List HistoryEntry) × (entries_of json (lines (HashMap.get_or path [] fs.files))
          ≡ ok (older ++ recent))
        × (length recent ≤ limit)
        × ((length recent ≡ limit) ⊎ (older ≡ []))
  unfolding read_recent exists HashMap.contains_key
  read_recent-recent limit recent fs h = elim (Option-cases (HashMap.get path fs.files)) [
    | inl e ↦ (
      [],
      ap (λ b. entries_of json (lines b)) (absent-log fs.files e) ∙ ground (arith, empty_log),
      ground arith,
      inr refl,
    )
    | inr (contents, e) ↦
        let (all, r, q) = read_recent-read limit recent contents fs e h in
        let (older, s, none_older) = split-drop (length all - limit) all in
        (
          older,
          ap (λ b. entries_of json (lines b)) (present-log contents fs.files e)
              ∙ r
              ∙ ap ok (s ∙ ap (λ l. older ++ l) (sym q)),
          rw q (omega (arith, length-drop (length all - limit) all)),
          elim (Bool-cases (leb (length all) limit)) [
            | inl p ↦ inr (none_older (ground arith))
            | inr p ↦ inl (rw q (ground (arith, length-drop (length all - limit) all)))
          ],
        )
  ]
