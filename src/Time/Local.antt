-- ===== src/Time/Local.antt =====
-- `ofc_time_local_time` ends, and gives the calendar date and time of day of its argument.

use native.Mathlib.Numerals.{add-one}
use of_core_darwin.Base.{
  ℕ, zero, suc, ◌+◌, ◌-◌, ◌*◌, ◌^◌, ltb, ◌/◌, ◌%◌, ◌≤◌, ◌<◌, ◌≡◌, refl, true, false, arith, some,
  leb, ◌==◌, Bool-cases, inl, inr,
}
use of_core_darwin.Base.Int.{pos, ◌+ℤ◌, ◌-ℤ◌, -ℤ-pos, pos_laws}
use of_core_darwin.Time.{
  days_in_year, find_year, find_month, split_year, cast_int, in_int, month_day, local_time,
}
use of_core_darwin.Time.Calendar.{
  Civil, to_tm, IsValid, leap_year, days_in_month, days_before_year, days_before_year-suc,
  days_in_year-eq, epoch, month_start, month_entry-common, month_start-common, common, seconds,
}

year_pos : (y : ℕ) → 365 ≤ days_in_year (pos y)
year_pos y = ground (arith, days_in_year-eq y)

find_year_lem :
    (fuel d y : ℕ)
    → d < fuel
    → y * 365 + d < 2147481747 * 365
    → (r y' : ℕ) × (find_year fuel (pos d) y ≡ some (pos r, y'))
      × (r < days_in_year (pos y'))
      × (y ≤ y')
      × (days_before_year y' + r ≡ days_before_year y + d)
unfolding find_year
find_year_lem zero d y h small = elim h [ ]
find_year_lem (suc fuel) d y h small = elim (Bool-cases (leb (days_in_year (pos y)) d)) [
  | inl more ↦
      let (r, y', e, lt, le, same) =
        find_year_lem fuel (d - days_in_year (pos y)) (y + 1) (ground (arith, year_pos y))
          (ground (arith, year_pos y)) in
      (
        r,
        y',
        ground (arith, -ℤ-pos d (days_in_year (pos y))),
        lt,
        omega arith,
        ground (arith, days_before_year-suc y),
      )
  | inr done ↦ (d, y, ground arith, ground arith, omega arith, refl)
]

find_month_lem :
    (left m d : ℕ)
    → m + left ≡ 11
    → month_start common m ≤ d
    → d < 365
    → (n : ℕ) × (find_month left m (pos d) ≡ some n)
      × (n < 12)
      × (month_start common n ≤ d)
      × (d < month_start common n + days_in_month common n)
unfolding find_month
find_month_lem zero m d h lo hi =
    (m, refl, omega arith, lo, let e : m ≡ 11 = omega arith in rw e (omega arith))
find_month_lem (suc left) m d h lo hi =
    let after : month_start common (m + 1) ≡ month_start common m + days_in_month common m =
      rw add-one refl in
    rw (month_entry-common (m + 1) (omega arith))
      (elim (Bool-cases (leb (month_start common (m + 1)) d)) [
        | inl more ↦
            let (n, e, fits, lo', hi') =
              find_month_lem left (m + 1) d (omega arith) (ground arith) hi in
            (n, ground arith, fits, lo', hi')
        | inr here ↦ (m, ground arith, omega arith, lo, ground arith)
      ])

-- A day of the year, and its month and day of the month.
record IsSplit (year r days mon : ℕ) : Type 0 where
  returns : split_year (pos r) year ≡ some (pos days, mon)
  mon_in : mon < 12
  starts : month_start common mon ≤ days
  within : days - month_start common mon + 1 ≤ days_in_month year mon
  day_is : month_start year mon + (days - month_start common mon) ≡ r

month_of :
    (d : ℕ)
    → d < 365
    → (n : ℕ) × (find_month 11 0 (pos d) ≡ some n)
      × (n < 12)
      × (month_start common n ≤ d)
      × (d < month_start common n + days_in_month common n)
month_of d h = find_month_lem 11 0 d refl (omega arith) h

late_month : (n d : ℕ) → 59 ≤ d → d < month_start common n + days_in_month common n → 1 < n
late_month zero d h lt = absurd (omega arith)
late_month (suc zero) d h lt = absurd (omega arith)
late_month (suc (suc n)) d h lt = omega arith

month_start_late : (n : ℕ) → 59 ≤ month_start common (suc (suc n))
month_start_late zero = omega arith
month_start_late (suc n) = omega (arith, month_start_late n)

early_month : (n d : ℕ) → d < 59 → month_start common n ≤ d → n ≤ 1
early_month zero d h le = omega arith
early_month (suc zero) d h le = omega arith
early_month (suc (suc n)) d h le = absurd (omega (arith, month_start_late n))

IsSplit-common :
    (year r : ℕ) → leap_year year ≡ false → r < 365 → (days mon : ℕ) × IsSplit year r days mon
unfolding split_year
IsSplit-common year r h lt =
    let (n, e, fits, lo, hi) = month_of r lt in
    (
      r,
      n,
      record {
        returns = ground (arith, days_in_year-eq year);
        mon_in = fits;
        starts = lo;
        within = ground arith;
        day_is = ground (arith, month_start-common year n fits);
      },
    )

IsSplit-leap :
    (year r : ℕ) → leap_year year ≡ true → r < 366 → (days mon : ℕ) × IsSplit year r days mon
unfolding split_year
IsSplit-leap year r h lt = elim (Bool-cases (r == 59)) [
  | inl leap_day ↦ (
    r,
    1,
    record {
      returns = ground (arith, days_in_year-eq year);
      mon_in = omega arith;
      starts = ground arith;
      within = ground arith;
      day_is = ground arith;
    },
  )
  | inr other ↦ elim (Bool-cases (ltb 59 r)) [
    | inl late ↦
        let (n, e, fits, lo, hi) = month_of (r - 1) (omega arith) in
        (
          r - 1,
          n,
          record {
            returns = ground (arith, days_in_year-eq year, -ℤ-pos r 1);
            mon_in = fits;
            starts = lo;
            within = ground arith;
            day_is = ground (arith, month_start-common year n fits, late_month n (r - 1));
          },
        )
    | inr early ↦
        let (n, e, fits, lo, hi) = month_of r (ground arith) in
        (
          r,
          n,
          record {
            returns = ground (arith, days_in_year-eq year);
            mon_in = fits;
            starts = lo;
            within = ground arith;
            day_is = ground (arith, month_start-common year n fits, early_month n r);
          },
        )
  ]
]

split_year_lem :
    (year r : ℕ) → r < days_in_year (pos year) → (days mon : ℕ) × IsSplit year r days mon
split_year_lem year r h = elim (Bool-cases (leap_year year)) [
  | inl leap ↦ IsSplit-leap year r leap (ground (arith, days_in_year-eq year))
  | inr not_leap ↦ IsSplit-common year r not_leap (ground (arith, days_in_year-eq year))
]

-- The fields that the last lines compute from the parts.
abbrev civil_of : (ticks days mon year : ℕ) → Civil
civil_of ticks days mon year = record {
  sec = ticks % 3600 % 60;
  min = ticks % 3600 / 60;
  hour = ticks / 3600;
  mday = days - month_start common mon + 1;
  mon = mon;
  year = year;
}

month_day_lem :
    (days start : ℕ)
    → start ≤ days
    → days < 2 ^ 31 - 1
    → month_day (pos days) (pos start) ≡ some (pos (days - start + 1))
unfolding month_day cast_int in_int ◌+ℤ◌ ◌-ℤ◌
month_day_lem days start from small = ground arith

module _ (t r year days mon : ℕ)
    (found : find_year (t / 86400 + 1) (pos (t / 86400)) 70 ≡ some (pos r, year)) (from : 70 ≤ year)
    (total : days_before_year year + r ≡ days_before_year 70 + t / 86400)
    (s : IsSplit year r days mon) where
  civil_of-IsValid : IsValid (civil_of (t % 86400) days mon year)
  civil_of-IsValid = record {
    sec_in = omega arith;
    min_in = omega arith;
    hour_in = omega arith;
    mday_in = (omega arith, s.within);
    mon_in = s.mon_in;
    year_in = from;
  }

  seconds-civil_of : seconds (civil_of (t % 86400) days mon year) ≡ t
  unfolding seconds
  seconds-civil_of = omega (arith, epoch, s.day_is)

  civil_of_returns :
      days < 2 ^ 31 - 1 → local_time (pos t) ≡ some (to_tm (civil_of (t % 86400) days mon year))
  unfolding local_time
  civil_of_returns small = simp (
    pos_laws,
    found,
    s.returns,
    month_entry-common mon s.mon_in,
    month_day_lem days (month_start common mon) s.starts small,
  )

-- The conversion ends on every time from 1970 on below 2 ^ 55 seconds, of which the year fits an `int`,
-- and finds the valid date with that many seconds.
pub local_time_lem :
    (t : ℕ)
    → t < 2 ^ 55
    → (c : Civil) × IsValid c × (seconds c ≡ t) × (local_time (pos t) ≡ some (to_tm c))
local_time_lem t small =
    let (r, year, found, lt, from, total) =
      find_year_lem (t / 86400 + 1) (t / 86400) 70 (omega arith) (omega arith) in
    let (days, mon, s) = split_year_lem year r lt in
    let short : days < 2 ^ 31 - 1 =
      ground (
        arith,
        lt,
        s.starts,
        s.day_is,
        month_start-common year mon s.mon_in,
        days_in_year-eq year,
      ) in
    (
      civil_of (t % 86400) days mon year,
      civil_of-IsValid t r year days mon found from total s,
      seconds-civil_of t r year days mon found from total s,
      civil_of_returns t r year days mon found from total s short,
    )
