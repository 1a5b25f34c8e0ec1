-- ===== src/Time/Calendar.antt =====
-- The Gregorian calendar that the conversions are held to: valid dates from 1970 on, the length of
-- a month, and the number of seconds since 1970-01-01 in closed form.
use of_core_darwin.Base.{
  ℕ, zero, suc, ◌+◌, ◌-◌, ◌*◌, ◌/◌, ◌%◌, ◌≤◌, ◌<◌, ◌≡◌, refl, ap, Bool, arith, ◌==◌, ltb,
  if◌then◌else◌, ◌&&◌, ◌||◌, not, some,
}
use of_core_darwin.Base.Int.{pos, pos_laws}
use of_core_darwin.Time.{
  Tm, month_entry, is_leap, days_in_year, sec_in_minute, sec_in_hour, sec_in_day,
}

-- `year` counts from 1900 and `mon` from 0, as in a `struct tm`.
pub record Civil : Type 0 where
  pub sec : ℕ
  pub min : ℕ
  pub hour : ℕ
  pub mday : ℕ
  pub mon : ℕ
  pub year : ℕ

abbrev pub to_tm : Civil → Tm
to_tm c = record {
  sec = pos c.sec;
  min = pos c.min;
  hour = pos c.hour;
  mday = pos c.mday;
  mon = pos c.mon;
  year = pos c.year;
}

-- The rule of the calendar, in full years.
abbrev pub leap_year : ℕ → Bool
leap_year y = let full = y + 1900 in full % 4 == 0 && (not (full % 100 == 0) || full % 400 == 0)

abbrev pub days_in_month : ℕ → ℕ → ℕ
days_in_month y m =
    if m == 1
    then (if leap_year y then 29 else 28)
    else if m == 3 || m == 5 || m == 8 || m == 10
    then 30
    else 31

pub record IsValid (c : Civil) : Type 0 where
  pub sec_in : c.sec < 60
  pub min_in : c.min < 60
  pub hour_in : c.hour < 24
  pub mday_in : (1 ≤ c.mday) × (c.mday ≤ days_in_month c.year c.mon)
  pub mon_in : c.mon < 12
  pub year_in : 70 ≤ c.year

-- The days from 0001-01-01 to the first day of year 1900 + y, and to that of 1970.
unfoldable pub days_before_year : ℕ → ℕ
days_before_year y = let p = y + 1899 in p * 365 + p / 4 - p / 100 + p / 400

abbrev pub epoch_days : ℕ
epoch_days = 719162

-- The days of the year before month `m`.
abbrev pub month_start : ℕ → ℕ → ℕ
month_start y zero = 0
month_start y (suc m) = month_start y m + days_in_month y m

unfoldable pub seconds : Civil → ℕ
seconds c =
    (days_before_year c.year + month_start c.year c.mon + c.mday - 1 - epoch_days) * sec_in_day
    + c.hour * sec_in_hour
    + c.min * sec_in_minute
    + c.sec

-- The macro's leap rule, on years from 1900, is the calendar's.
pub is_leap_lem : (y : ℕ) → is_leap (pos y) ≡ leap_year y
unfolding is_leap
is_leap_lem y = simp pos_laws (ground arith)

pub days_in_year-eq : (y : ℕ) → days_in_year (pos y) ≡ (if leap_year y then 366 else 365)
unfolding days_in_year
days_in_year-eq y = rw (is_leap_lem y)

leap_days :
    (y : ℕ) → days_before_year (y + 1) ≡ days_before_year y + (if leap_year y then 366 else 365)
unfolding days_before_year
leap_days y = ground arith

pub days_before_year-suc :
    (y : ℕ) → days_before_year (y + 1) ≡ days_before_year y + days_in_year (pos y)
days_before_year-suc y = rw (days_in_year-eq y) (leap_days y)

pub epoch : days_before_year 70 ≡ epoch_days
unfolding days_before_year
epoch = refl

-- The table of the program and the leap day give the days before a month.
pub month_table :
    (y m : ℕ)
    → m < 12
    → (e : ℕ) × (month_entry (pos m) ≡ some (pos e))
      × (month_start y m ≡ e + (if ltb 1 m && leap_year y then 1 else 0))
unfolding month_entry
month_table y zero h = (0, refl, ground arith)
month_table y (suc zero) h = (31, refl, ground arith)
month_table y (suc (suc zero)) h = (59, refl, ground arith)
month_table y (suc (suc (suc zero))) h = (90, refl, ground arith)
month_table y (suc (suc (suc (suc zero)))) h = (120, refl, ground arith)
month_table y (suc (suc (suc (suc (suc zero))))) h = (151, refl, ground arith)
month_table y (suc (suc (suc (suc (suc (suc zero)))))) h = (181, refl, ground arith)
month_table y (suc (suc (suc (suc (suc (suc (suc zero))))))) h = (212, refl, ground arith)
month_table y (suc (suc (suc (suc (suc (suc (suc (suc zero)))))))) h = (243, refl, ground arith)
month_table y (suc (suc (suc (suc (suc (suc (suc (suc (suc zero))))))))) h =
    (273, refl, ground arith)
month_table y (suc (suc (suc (suc (suc (suc (suc (suc (suc (suc zero)))))))))) h =
    (304, refl, ground arith)
month_table y (suc (suc (suc (suc (suc (suc (suc (suc (suc (suc (suc zero))))))))))) h =
    (334, refl, ground arith)
month_table y (suc (suc (suc (suc (suc (suc (suc (suc (suc (suc (suc (suc m)))))))))))) h =
    absurd (omega arith)

-- The first days of the months in a common year, here 1971, are the table.
abbrev pub common : ℕ
common = 71

pub month_entry-common : (m : ℕ) → m < 12 → month_entry (pos m) ≡ some (pos (month_start common m))
month_entry-common m h =
    let (e, entry, start) = month_table common m h in
    rw entry (ap (λ k. some (pos k)) (ground arith))

-- Any other year differs by its leap day.
pub month_start-common :
    (y m : ℕ)
    → m < 12
    → month_start y m ≡ month_start common m + (if ltb 1 m && leap_year y then 1 else 0)
month_start-common y m h =
    let (e, entry, start) = month_table y m h in
    let (e', entry', start') = month_table common m h in
    let same : e ≡ e' = ground arith in ground arith

pub year_length : (y : ℕ) → month_start y 12 ≡ (if leap_year y then 366 else 365)
year_length y = ground arith
