-- ===== src/Database/History/Calendar.antt =====
-- The dates of src/database/history.rs are those of the Gregorian calendar.
use mitos_pkg.Prelude.Int.{pos}
use mitos_pkg.Prelude.{
  ap, Bool-cases, inl, inr, ℕ, zero, suc, ◌+◌, ◌-◌, ◌*◌, ◌/◌, ◌%◌, ◌≤◌, ◌<◌, ◌≡◌, refl, arith,
  subst, eqb, not, Bool, true, false, if◌then◌else◌, ltb, ◌||◌,
}
use mitos_pkg.Database.History.Clock.{Civil, civil_of, civil_of_era, civil_from_days, civil_since}

abbrev pub is_leap : ℕ → Bool
is_leap y =
    if not (eqb (y % 4) 0) then false else if not (eqb (y % 100) 0) then true else eqb (y % 400) 0

abbrev pub days_in_month : ℕ → ℕ → ℕ
days_in_month y m =
    if eqb m 2
    then (if is_leap y then 29 else 28)
    else if eqb m 4 || eqb m 6 || eqb m 9 || eqb m 11
    then 30
    else 31

-- the days of the year `y` before its month `m`
abbrev pub days_before_month : ℕ → ℕ → ℕ
days_before_month y zero = 0
days_before_month y (suc zero) = 0
days_before_month y (suc (suc m)) = days_before_month y (suc m) + days_in_month y (suc m)

-- the days before the year `y`, from the year 1 on
abbrev pub days_before_year : ℕ → ℕ
days_before_year y = (y - 1) * 365 + (y - 1) / 4 - (y - 1) / 100 + (y - 1) / 400

abbrev leap : ℕ → ℕ
leap y = if is_leap y then 1 else 0

-- A month from March on is as long as the formula says.
march_length :
    (y mp : ℕ)
    → mp < 10
    → days_in_month y (suc (suc (suc mp))) ≡ (153 * (mp + 1) + 2) / 5 - (153 * mp + 2) / 5
march_length y mp h = ground arith

march_on :
    (y mp : ℕ)
    → mp < 10
    → days_before_month y (suc (suc (suc mp))) ≡ (153 * mp + 2) / 5 + 59 + leap y
march_on y zero h = ground arith
march_on y (suc mp) h = omega (arith, march_on y mp (omega arith), march_length y mp (omega arith))

years_step : (y : ℕ) → 1 ≤ y → days_before_year (suc y) ≡ days_before_year y + 365 + leap y
years_step y h = ground arith

record Parts (doe yoe doy mp : ℕ) : Type 0 where
  yoe_in : yoe < 400
  yoe_whole : 365 * yoe + yoe / 4 - yoe / 100 + doy ≡ doe
  doy_in : doy ≤ 365
  leap_day : doy ≡ 365 → is_leap (yoe + 1) ≡ true
  mp_in : mp < 12
  mp_whole : (153 * mp + 2) / 5 ≤ doy
  mp_next : doy < (153 * (mp + 1) + 2) / 5

parts :
    (doe yoe doy mp : ℕ)
    → doe < 146097
    → yoe ≡ (doe - doe / 1460 + doe / 36524 - doe / 146096) / 365
    → doy ≡ doe - (365 * yoe + yoe / 4 - yoe / 100)
    → mp ≡ (5 * doy + 2) / 153
    → Parts doe yoe doy mp
parts doe yoe doy mp h e f g = record {
  yoe_in = omega arith;
  yoe_whole = omega arith;
  doy_in = omega arith;
  leap_day = λ d. ground arith;
  mp_in = omega arith;
  mp_whole = omega arith;
  mp_next = omega arith;
}

-- `c` is the date of the `n`-th day from 0001-01-01 on, which is the first.
pub record IsDate (c : Civil) (n : ℕ) : Type 0 where
  pub y : ℕ
  pub year_is : c.year ≡ pos y
  pub month_in : (1 ≤ c.month) × (c.month ≤ 12)
  pub day_in : (1 ≤ c.day) × (c.day ≤ days_in_month y c.month)
  pub number_is : days_before_year y + days_before_month y c.month + c.day ≡ n

january : (y : ℕ) → (days_before_month y 1 ≡ 0) × (days_before_month y 2 ≡ 31)
january y = (refl, refl)

leap_period : (y era : ℕ) → is_leap (y + era * 400) ≡ is_leap y
leap_period y era = ground arith

before_period :
    (y era : ℕ) → 1 ≤ y → days_before_year (y + era * 400) ≡ days_before_year y + era * 146097
before_period y era h = omega arith

module _ (era doe yoe doy mp : ℕ) (ps : Parts doe yoe doy mp) (positive : 1 ≤ era) where
  abbrev Dated : Type 0
  Dated = IsDate (civil_of (λ n. pos (n + era * 400)) yoe doy mp) (era * 146097 + doe - 305)

  month_is : ltb mp 10 ≡ true → (if ltb mp 10 then mp + 3 else mp - 9) ≡ suc (suc (suc mp))
  month_is h = ground arith

  year_turns :
      days_before_year (suc (yoe + era * 400)) ≡ 365 * yoe + yoe / 4 - yoe / 100 + era * 146097
  year_turns = omega (arith, ps)

  month_after : (k : ℕ) → mp ≡ k + 10 → (if ltb mp 10 then mp + 3 else mp - 9) ≡ suc k
  month_after k h = ground arith

  from_march : mp < 10 → Dated
  unfolding civil_of
  from_march h = record {
    y = yoe + era * 400;
    year_is = ap pos (ground arith);
    month_in = ground arith;
    day_in =
        rw (month_is (ground arith))
          (omega (arith, march_length (yoe + era * 400) mp (omega arith), ps));
    number_is = rw (month_is (ground arith)) (
        omega (
          arith,
          march_on (yoe + era * 400) mp (omega arith),
          year_turns,
          years_step (yoe + era * 400) (omega arith),
          ps,
        ));
  }

  in_january : mp ≡ 10 → Dated
  unfolding civil_of
  in_january e = record {
    y = yoe + 1 + era * 400;
    year_is = ap pos (ground arith);
    month_in = ground arith;
    day_in = rw (month_after 0 e) (omega (arith, ps));
    number_is = rw (month_after 0 e) (omega (arith, january (yoe + 1 + era * 400), year_turns, ps));
  }

  in_february : mp ≡ 11 → Dated
  unfolding civil_of
  in_february e = record {
    y = yoe + 1 + era * 400;
    year_is = ap pos (ground arith);
    month_in = ground arith;
    day_in = rw (month_after 1 e) (ground (arith, ps, leap_period (yoe + 1) era));
    number_is = rw (month_after 1 e) (omega (arith, january (yoe + 1 + era * 400), year_turns, ps));
  }

  any_month : Dated
  any_month = elim (Bool-cases (ltb mp 10)) [
    | inl e ↦ from_march (ground arith)
    | inr e ↦ elim (Bool-cases (eqb mp 10)) [
      | inl f ↦ in_january (ground arith)
      | inr f ↦ in_february (ground (arith, ps))
    ]
  ]

civil_of_era-IsDate :
    (era doe : ℕ)
    → doe < 146097
    → 1 ≤ era
    → IsDate (civil_of_era (λ yoe. pos (yoe + era * 400)) doe) (era * 146097 + doe - 305)
unfolding civil_of_era
civil_of_era-IsDate era doe h positive =
    any_month era doe _ _ _ (parts doe _ _ _ h refl refl refl) positive

-- The date that `civil_from_days` gives for the n-th day after 1970-01-01 is a date of the Gregorian
-- calendar: its month is from 1 to 12, its day from 1 to the length of that month, February having
-- 29 days in leap years; and the days of the years and months before it, counted one by one from the
-- year 1 on by the calendar's rules, put it n days after 1970-01-01.
pub civil_from_days-IsDate : (n : ℕ) → IsDate (civil_from_days (pos n)) (n + 719163)
unfolding civil_from_days civil_since
civil_from_days-IsDate n =
    let z = n + 719468 in
    let era = z / 146097 in
    subst (IsDate (civil_of_era (λ yoe. pos (yoe + era * 400)) (z - era * 146097))) (omega arith)
      (civil_of_era-IsDate era (z - era * 146097) (omega arith) (omega arith))

-- the number of 1970-01-01
epoch : days_before_year 1970 + days_before_month 1970 1 + 1 ≡ 719163
epoch = refl
