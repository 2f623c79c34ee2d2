-- ===== src/Database/History/Clock.antt =====
-- `now_rfc3339` and `civil_from_days` of src/database/history.rs, the time given as the seconds since the
-- epoch. `i64` does not overflow on the days of an `u64` of seconds.
use mitos_pkg.Prelude.{
  ℕ, zero, suc, ◌+◌, ◌-◌, ◌*◌, ◌/◌, ◌%◌, ltb, leb, if◌then◌else◌, String, ◌<>◌, List, [], ◌∷◌,
}
use mitos_pkg.Prelude.Int.{ℤ, pos, negsuc}
use mitos_pkg.Error.{format}

-- (year, month, day)
pub record Civil : Type 0 where
  pub year : ℤ
  pub month : ℕ
  pub day : ℕ

-- the last lines of `civil_from_days`: `yoe` is the year of the period, `doy` the day of that year, which
-- begins in March, `mp` its month, and `year_of` adds the years before the period.
unfoldable pub civil_of : (ℕ → ℤ) → ℕ → ℕ → ℕ → Civil
civil_of year_of yoe doy mp =
    let d = doy - (153 * mp + 2) / 5 + 1 in
    let m = if ltb mp 10 then mp + 3 else mp - 9 in
    record { year = year_of (if leb m 2 then yoe + 1 else yoe); month = m; day = d }

abbrev pub year_of_era : ℕ → ℕ
year_of_era doe = (doe - doe / 1460 + doe / 36524 - doe / 146096) / 365

abbrev pub day_of_year : ℕ → ℕ → ℕ
day_of_year doe yoe = doe - (365 * yoe + yoe / 4 - yoe / 100)

-- from the day of a period of 400 years on
unfoldable pub civil_of_era : (ℕ → ℤ) → ℕ → Civil
unfolding civil_of
civil_of_era year_of doe =
    let yoe = year_of_era doe in
    let doy = day_of_year doe yoe in civil_of year_of yoe doy ((5 * doy + 2) / 153)

-- `a - b`
abbrev minus : ℕ → ℕ → ℤ
minus a b = if leb b a then pos (a - b) else negsuc (b - a - 1)

-- `z` is the shifted day, not negative
unfoldable pub civil_since : ℕ → Civil
unfolding civil_of_era
civil_since z =
    let era = z / 146097 in civil_of_era (λ yoe. pos (yoe + era * 400)) (z - era * 146097)

-- `k` days before the shifted epoch: the division rounds towards zero.
unfoldable pub civil_before : ℕ → Civil
unfolding civil_of_era
civil_before k =
    let era = (k + 146096) / 146097 in
    civil_of_era (λ yoe. minus yoe (era * 400)) (era * 146097 - k)

unfoldable pub civil_from_days : ℤ → Civil
unfolding civil_since civil_before
civil_from_days (pos n) = civil_since (n + 719468)
civil_from_days (negsuc n) =
    if leb (suc n) 719468 then civil_since (719468 - suc n) else civil_before (suc n - 719468)

abbrev digit_in : List String → ℕ → String
digit_in [] n = ""
digit_in (d ∷ ds) zero = d
digit_in (d ∷ ds) (suc n) = digit_in ds n

abbrev digit : ℕ → String
digit = digit_in ("0" ∷ "1" ∷ "2" ∷ "3" ∷ "4" ∷ "5" ∷ "6" ∷ "7" ∷ "8" ∷ "9" ∷ [])

-- The decimal digits of `n` in front of `s`, with zeros up to `width` digits; `fuel` is at least `n`.
pub decimal : ℕ → ℕ → ℕ → String → String
decimal zero width n s = s
decimal (suc fuel) width n s =
    let shorter = decimal fuel (width - 1) (n / 10) (digit (n % 10) <> s) in
    if leb n 0 then (if leb width 0 then s else shorter) else shorter

-- `{n:0width}`
unfoldable pub padded : ℕ → ℕ → String
unfolding decimal
padded width n = decimal (n + width) width n ""

unfoldable pub padded_ℤ : ℕ → ℤ → String
unfolding padded
padded_ℤ width (pos n) = padded width n
padded_ℤ width (negsuc n) = "-" <> padded (width - 1) (suc n)

unfoldable pub now_rfc3339 : ℕ → String
unfolding padded padded_ℤ civil_from_days
now_rfc3339 secs =
    let time_of_day = secs % 86400 in
    let date = civil_from_days (pos (secs / 86400)) in
    format (
      padded_ℤ 4 date.year
      ∷ "-"
      ∷ padded 2 date.month
      ∷ "-"
      ∷ padded 2 date.day
      ∷ "T"
      ∷ padded 2 (time_of_day / 3600)
      ∷ ":"
      ∷ padded 2 (time_of_day % 3600 / 60)
      ∷ ":"
      ∷ padded 2 (time_of_day % 60)
      ∷ "Z"
      ∷ [])
