-- ===== src/Prelude/Text/Framed.antt =====
-- A line written to a stream is read back as it was.
use mitos_pkg.Prelude.{
  ℕ, zero, suc, ◌≡◌, refl, ap, ◌∙◌, Bool, sym, ◌&&◌, subst, true, false, List, [], ◌∷◌, ◌++◌,
  Option, none, some, ◌-◌, if◌then◌else◌, length, ◌≤◌, eqb, arith, Bool-cases, inl, inr,
}
use mathlib.Core.Option.{some_inj}
use mitos_pkg.Prelude.Text.{
  Text, emit, newline, utf8_from, from_utf8, is_whitespace, trim_start, trim_end, trim,
  lines_inclusive, lines, break_line,
}

-- Neither a newline nor a carriage return is among the bytes.
abbrev pub IsLine : List ℕ → Type 0
IsLine [] = Unit
IsLine (b ∷ bytes) = ((eqb b newline ≡ false) × (eqb b 13 ≡ false)) × IsLine bytes

abbrev pub with_newline : List ℕ → List ℕ
with_newline line = line ++ (newline ∷ [])

-- Whole lines: no bytes, or bytes of which the last is a newline.
abbrev pub IsWhole : List ℕ → Type 0
IsWhole [] = Unit
IsWhole (b ∷ []) = eqb b newline ≡ true
IsWhole (b ∷ c ∷ bytes) = IsWhole (c ∷ bytes)

-- If `o` is a text, then `o1` is that text followed by `u`.
record Appends (u : Text) (o o1 : Option Text) : Type 0 where
  followed : (t : Text) → o ≡ some t → o1 ≡ some (t ++ u)

none-Appends : (u : Text) (o : Option Text) → Appends u none o
none-Appends u o = record { followed = λ t h. cc }

emit-Appends :
    {u : Text} {o o1 : Option Text} (c : ℕ) → Appends u o o1 → Appends u (emit c o) (emit c o1)
emit-Appends {o = none} c a = record { followed = λ t h. cc }
emit-Appends {o = some s} c a = record { followed = λ t h. ground (arith, a.followed s refl) }

if-Appends :
    {u : Text} {o o1 p p1 : Option Text} (b : Bool)
    → Appends u o o1
    → Appends u p p1
    → Appends u (if b then o else p) (if b then o1 else p1)
if-Appends true x y = x
if-Appends false x y = y

-- At a first byte only the bytes matter.
utf8_from-first : (lo hi part : ℕ) (bytes : List ℕ) → utf8_from 0 lo hi part bytes ≡ from_utf8 bytes
unfolding utf8_from from_utf8
utf8_from-first lo hi part [] = refl
utf8_from-first lo hi part (b ∷ bytes) = refl

module _ (more : List ℕ) (u : Text) (k : from_utf8 more ≡ some u) where
  utf8_from-Appends :
      (left lo hi part : ℕ) (bytes : List ℕ)
      → Appends u (utf8_from left lo hi part bytes) (utf8_from left lo hi part (bytes ++ more))
  unfolding utf8_from from_utf8
  utf8_from-Appends zero lo hi part [] = record {
    followed = λ t h.
        utf8_from-first lo hi part more
        ∙ subst (λ s. from_utf8 more ≡ some (s ++ u)) (some_inj.0 h) k;
  }
  utf8_from-Appends (suc left) lo hi part [] = none-Appends _ _
  utf8_from-Appends zero lo hi part (b ∷ bytes) =
      if-Appends _ (emit-Appends b (utf8_from-Appends 0 128 191 0 bytes)) (
        if-Appends _ (utf8_from-Appends 1 128 191 (b - 192) bytes) (
          if-Appends _ (utf8_from-Appends 2 _ _ (b - 224) bytes)
            (if-Appends _ (utf8_from-Appends 3 _ _ (b - 240) bytes) (none-Appends _ _))))
  utf8_from-Appends (suc left) lo hi part (b ∷ bytes) =
      if-Appends _
        (if-Appends _ (emit-Appends _ (utf8_from-Appends 0 128 191 0 bytes))
          (utf8_from-Appends left 128 191 _ bytes))
        (none-Appends _ _)

  pub from_utf8-append :
      (bytes : List ℕ) (t : Text)
      → from_utf8 bytes ≡ some t
      → from_utf8 (bytes ++ more) ≡ some (t ++ u)
  unfolding from_utf8
  from_utf8-append bytes t h = (utf8_from-Appends 0 128 191 0 bytes).followed t h

trim_end-newline : (t : Text) → trim_end (with_newline t) ≡ trim_end t
unfolding trim_end is_whitespace
trim_end-newline [] = refl
trim_end-newline (c ∷ t) = rw (trim_end-newline t) refl

length-trim_start : (t : Text) → length (trim_start t) ≤ length t
unfolding trim_start
length-trim_start [] = omega arith
length-trim_start (c ∷ t) = ground (arith, length-trim_start t)

trim_start-newline :
    (c : ℕ) (t : Text)
    → trim_start (c ∷ t) ≡ c ∷ t
    → trim_start (with_newline (c ∷ t)) ≡ with_newline (c ∷ t)
unfolding trim_start
trim_start-newline c t h = ground (arith, length-trim_start t, ap length h)

-- A text that `trim` leaves as it is, with a newline behind it, is trimmed to that text.
pub trim-with_newline :
    (c : ℕ) (t : Text)
    → trim_start (c ∷ t) ≡ c ∷ t
    → trim_end (c ∷ t) ≡ c ∷ t
    → trim (with_newline (c ∷ t)) ≡ c ∷ t
unfolding trim
trim-with_newline c t s e = rw (trim_start-newline c t s) (trim_end-newline (c ∷ t) ∙ e)

-- The first of several lines.
pub lines_inclusive-line :
    (line more : List ℕ)
    → IsLine line
    → lines_inclusive (with_newline line ++ more) ≡ with_newline line ∷ lines_inclusive more
unfolding lines_inclusive
lines_inclusive-line [] more h = refl
lines_inclusive-line (b ∷ line) more h = rw (lines_inclusive-line line more h.1, h.0.0) refl

lines-line : (line : List ℕ) → IsLine line → lines (with_newline line) ≡ line ∷ []
unfolding lines
lines-line [] h = refl
lines-line (b ∷ line) h = rw (lines-line line h.1, h.0.0, h.0.1) refl

break_line-append :
    (b : ℕ) (before : Bool) (first : List ℕ) (rest : List (List ℕ)) (line : List ℕ)
    → break_line b before ((first ∷ rest) ++ (line ∷ []))
      ≡ break_line b before (first ∷ rest) ++ (line ∷ [])
break_line-append b before first rest line = ground arith

lines-cons :
    (b : ℕ) (bytes : List ℕ)
    → (first : List ℕ) × (rest : List (List ℕ)) × (lines (b ∷ bytes) ≡ first ∷ rest)
unfolding lines
lines-cons b [] = elim (Bool-cases (eqb b newline)) [
  | inl e ↦ ([], [], rw e refl)
  | inr e ↦ (b ∷ [], [], ground arith)
]
lines-cons b (c ∷ bytes) =
    let (first, rest, e) = lines-cons c bytes in
    elim (Bool-cases (eqb b newline)) [
      | inl p ↦ ([], lines (c ∷ bytes), rw p refl)
      | inr p ↦ elim (Bool-cases (eqb b 13 && eqb c newline)) [
        | inl q ↦ (first, rest, rw (p, q) e)
        | inr q ↦ (b ∷ first, rest, rw (p, q, e) refl)
      ]
    ]

-- Behind whole lines, one more line is one more line.
pub lines-append :
    (bytes line : List ℕ)
    → IsWhole bytes
    → IsLine line
    → lines (bytes ++ with_newline line) ≡ lines bytes ++ (line ∷ [])
unfolding lines
lines-append [] line w h = lines-line line h
lines-append (b ∷ []) line w h = rw (lines-line line h, w) refl
lines-append (b ∷ c ∷ bytes) line w h =
    let (first, rest, e) = lines-cons c bytes in
    let shown : lines (c ∷ bytes) ≡ first ∷ rest = e in
    let again : lines (c ∷ bytes ++ with_newline line) ≡ lines (c ∷ bytes) ++ (line ∷ []) =
      lines-append (c ∷ bytes) line w h in
    ap (break_line b (eqb c newline)) (again ∙ ap (λ ls. ls ++ (line ∷ [])) shown)
    ∙ break_line-append b (eqb c newline) first rest line
    ∙ ap (λ ls. break_line b (eqb c newline) ls ++ (line ∷ [])) (sym shown)
