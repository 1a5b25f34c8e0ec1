-- ===== src/Time/Order.antt =====
-- The calendar's order is the order of the seconds, so the conversions undo each other.
use of_core_darwin.Base.{
  ℕ, suc, ◌+◌, ◌%◌, ◌^◌, ◌≤◌, ◌<◌, ◌≡◌, ap, ◌⊎◌, inl, inr, arith, some, ◌>>=◌,
}
use mathlib.Core.Path.{ap₂}
use native.Mathlib.Decide.{le_ind}
use native.Mathlib.Nat.{le_refl}
use native.Mathlib.Numerals.{add-one}
use of_core_darwin.Base.Int.{pos}
use of_core_darwin.Time.{days_in_year, make_time, local_time}
use of_core_darwin.Time.Calendar.{
  Civil, to_tm, IsValid, days_in_month, days_before_year, days_before_year-suc, days_in_year-eq,
  epoch, month_start, year_length, seconds,
}
use of_core_darwin.Time.Make.{make_time_lem}
use of_core_darwin.Time.Local.{local_time_lem}

-- By year, month, day, hour, minute and second.
pub data Before (a b : Civil) : Type 0 where
  by_year : a.year < b.year → Before a b
  by_mon : a.year ≡ b.year → a.mon < b.mon → Before a b
  by_mday : a.year ≡ b.year → a.mon ≡ b.mon → a.mday < b.mday → Before a b
  by_hour : a.year ≡ b.year → a.mon ≡ b.mon → a.mday ≡ b.mday → a.hour < b.hour → Before a b
  by_min :
      a.year ≡ b.year
      → a.mon ≡ b.mon
      → a.mday ≡ b.mday
      → a.hour ≡ b.hour
      → a.min < b.min
      → Before a b
  by_sec :
      a.year ≡ b.year
      → a.mon ≡ b.mon
      → a.mday ≡ b.mday
      → a.hour ≡ b.hour
      → a.min ≡ b.min
      → a.sec < b.sec
      → Before a b

pub year_mono : (y z : ℕ) → y ≤ z → days_before_year y ≤ days_before_year z
year_mono y z =
    le_ind (λ m. days_before_year y ≤ days_before_year m) (le_refl _)
      (λ m le ih. omega (arith, days_before_year-suc m, add-one m, ap days_before_year (add-one m)))
      z

month_mono : (y m n : ℕ) → m ≤ n → month_start y m ≤ month_start y n
month_mono y m n =
    le_ind (λ k. month_start y m ≤ month_start y k) (le_refl _) (λ k le ih. omega arith) n

pub day_fits :
    (c : Civil) → IsValid c → month_start c.year c.mon + c.mday ≤ days_in_year (pos c.year)
day_fits c v =
    ground (
      arith,
      days_in_year-eq c.year,
      year_length c.year,
      month_mono c.year (suc c.mon) 12,
      v.mday_in,
    )

start_in_month :
    (a b : Civil)
    → a.year ≡ b.year
    → (month_start a.year a.mon ≡ month_start b.year a.mon)
      × (days_in_month a.year a.mon ≡ days_in_month b.year a.mon)
start_in_month a b y = (ap (λ k. month_start k a.mon) y, ap (λ k. days_in_month k a.mon) y)

same_start :
    (a b : Civil)
    → a.year ≡ b.year
    → a.mon ≡ b.mon
    → month_start a.year a.mon ≡ month_start b.year b.mon
same_start a b y m = ap₂ month_start y m

-- An earlier valid date and time has fewer seconds.
pub Before-seconds : (a b : Civil) → IsValid a → IsValid b → Before a b → seconds a < seconds b
unfolding seconds
Before-seconds a b v w (by_year lt) = omega (
  arith,
  day_fits a v,
  days_before_year-suc a.year,
  year_mono (a.year + 1) b.year (omega arith),
  year_mono 70 a.year v.year_in,
  epoch,
)
Before-seconds a b v w (by_mon y lt) = omega (
  arith,
  ap days_before_year y,
  start_in_month a b y,
  month_mono b.year (suc a.mon) b.mon lt,
  v.mday_in,
  w.mday_in,
  year_mono 70 a.year v.year_in,
  epoch,
)
Before-seconds a b v w (by_mday y m lt) = omega (
  arith,
  ap days_before_year y,
  same_start a b y m,
  year_mono 70 a.year v.year_in,
  epoch,
  v.mday_in,
)
Before-seconds a b v w (by_hour y m d lt) = omega (arith, ap days_before_year y, same_start a b y m)
Before-seconds a b v w (by_min y m d h lt) =
    omega (arith, ap days_before_year y, same_start a b y m)
Before-seconds a b v w (by_sec y m d h n lt) =
    omega (arith, ap days_before_year y, same_start a b y m)

-- Two valid times are equal, or one is before the other.
compare_times : (a b : Civil) → (a ≡ b) ⊎ (Before a b ⊎ Before b a)
compare_times a b = grind (arith, by_year, by_mon, by_mday, by_hour, by_min, by_sec)

-- A valid time is fixed by its seconds.
pub seconds_inj : (a b : Civil) → IsValid a → IsValid b → seconds a ≡ seconds b → a ≡ b
seconds_inj a b v w e = elim (compare_times a b) [
  | inl same ↦ same
  | inr (inl lt) ↦ absurd (omega (arith, Before-seconds a b v w lt))
  | inr (inr gt) ↦ absurd (omega (arith, Before-seconds b a w v gt))
]

-- Converting a number of seconds below 2 ^ 55 to fields and back ends, and gives the number cut to 32 bits.
pub make_time-local_time :
    (t : ℕ) → t < 2 ^ 55 → (local_time (pos t) >>= make_time) ≡ some (t % 2 ^ 32)
make_time-local_time t small =
    let (c, v, e, run) = local_time_lem t small in rw (run, make_time_lem c v, e)

-- Converting a valid date and time to seconds and back ends, and gives its fields, if its seconds
-- are below 2 ^ 32.
pub local_time-make_time :
    (c : Civil)
    → IsValid c
    → seconds c < 2 ^ 32
    → (make_time (to_tm c) >>= λ n. local_time (pos n)) ≡ some (to_tm c)
local_time-make_time c v lt =
    let (d, w, e, run) = local_time_lem (seconds c) (omega (arith, lt)) in
    let cut : seconds c % 2 ^ 32 ≡ seconds c = omega arith in
    rw (make_time_lem c v, cut, run, seconds_inj d c w v e)

-- If one valid time is before another by the calendar, and the later one has fewer than 2 ^ 32
-- seconds, then what the conversion returns for the first is less than what it returns for the second.
pub make_time_mono :
    (a b : Civil) {m n : ℕ}
    → IsValid a
    → IsValid b
    → seconds b < 2 ^ 32
    → Before a b
    → make_time (to_tm a) ≡ some m
    → make_time (to_tm b) ≡ some n
    → m < n
make_time_mono a b v w lt before p q =
    ground (arith, make_time_lem a v, make_time_lem b w, Before-seconds a b v w before)
