-- ===== src/Prelude/Text.antt =====
-- The parts of Rust's text handling that the program calls: UTF-8, `trim`, and reading by lines.
-- A text is the list of its code points.
pub mod Framed
use Prim.Native.Nat.{ℕ, zero, suc, ◌+◌, ◌-◌, ◌*◌}
use mathlib.Core.Bool.{Bool, true, false, not, ◌&&◌, ◌||◌}
use mathlib.Core.Option.{Option, none, some}
use mathlib.Core.List.{List, [], ◌∷◌, ◌++◌}
use mitos_pkg.Prelude.Tests.{ltb, leb, eqb, if◌then◌else◌}

abbrev pub Text : Type 0
Text = List ℕ

abbrev pub newline : ℕ
newline = 10

abbrev pub is_nil {ℓ} : {A : Type ℓ} → List A → Bool
is_nil [] = true
is_nil _ = false

abbrev pub emit : ℕ → Option Text → Option Text
emit c none = none
emit c (some t) = some (c ∷ t)

abbrev between : ℕ → ℕ → ℕ → Bool
between lo hi b = leb lo b && leb b hi

-- `str::from_utf8`: `left` bytes of a code point are to come, the next one from `lo` to `hi`, and
-- `part` is its value so far. At a first byte `left` is 0.
unfoldable pub utf8_from : ℕ → ℕ → ℕ → ℕ → List ℕ → Option Text
utf8_from zero lo hi part [] = some []
utf8_from (suc left) lo hi part [] = none
utf8_from zero lo hi part (b ∷ bytes) =
    if ltb b 128
    then emit b (utf8_from 0 128 191 0 bytes)
    else if between 194 223 b
    then utf8_from 1 128 191 (b - 192) bytes
    else if between 224 239 b
    then utf8_from 2 (if eqb b 224 then 160 else 128) (if eqb b 237 then 159 else 191) (b - 224)
        bytes
    else if between 240 244 b
    then utf8_from 3 (if eqb b 240 then 144 else 128) (if eqb b 244 then 143 else 191) (b - 240)
        bytes
    else none
utf8_from (suc left) lo hi part (b ∷ bytes) =
    let whole = part * 64 + (b - 128) in
    if between lo hi b
    then (if eqb left 0
        then emit whole (utf8_from 0 128 191 0 bytes)
        else utf8_from left 128 191 whole bytes)
    else none

unfoldable pub from_utf8 : List ℕ → Option Text
unfolding utf8_from
from_utf8 bytes = utf8_from 0 128 191 0 bytes

-- `char::is_whitespace`
unfoldable pub is_whitespace : ℕ → Bool
is_whitespace c =
    between 9 13 c
    || eqb c 32
    || eqb c 133
    || eqb c 160
    || eqb c 5760
    || between 8192 8202 c
    || between 8232 8233 c
    || eqb c 8239
    || eqb c 8287
    || eqb c 12288

unfoldable pub trim_start : Text → Text
unfolding is_whitespace
trim_start [] = []
trim_start (c ∷ t) = let rest = trim_start t in if is_whitespace c then rest else c ∷ t

unfoldable pub trim_end : Text → Text
unfolding is_whitespace
trim_end [] = []
trim_end (c ∷ t) = let rest = trim_end t in if is_nil rest && is_whitespace c then [] else c ∷ rest

-- `str::trim`
unfoldable pub trim : Text → Text
unfolding trim_start trim_end
trim t = trim_end (trim_start t)

abbrev pub onto_first : ℕ → List (List ℕ) → List (List ℕ)
onto_first b [] = (b ∷ []) ∷ []
onto_first b (line ∷ lines) = (b ∷ line) ∷ lines

-- What the calls of `BufRead::read_line` return: lines with their newlines, the last perhaps without.
unfoldable pub lines_inclusive : List ℕ → List (List ℕ)
lines_inclusive [] = []
lines_inclusive (b ∷ bytes) =
    let rest = lines_inclusive bytes in if eqb b newline then (b ∷ []) ∷ rest else onto_first b rest

abbrev pub at_newline : List ℕ → Bool
at_newline [] = false
at_newline (b ∷ _) = eqb b newline

-- a byte in front of the lines of the bytes behind it
abbrev pub break_line : ℕ → Bool → List (List ℕ) → List (List ℕ)
break_line b before_newline rest =
    if eqb b newline
    then [] ∷ rest
    else if eqb b 13 && before_newline
    then rest
    else onto_first b rest

-- What `BufRead::lines` iterates over: without the newlines and the carriage returns before them.
unfoldable pub lines : List ℕ → List (List ℕ)
lines [] = []
lines (b ∷ bytes) = break_line b (at_newline bytes) (lines bytes)
