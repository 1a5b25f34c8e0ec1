-- ===== src/Time.antt =====
-- src/time_darwin.c: a `struct tm` from the seconds since 1970-01-01 and back. The fields of the
-- structure are signed, as in C; `none` is a read outside `_DAYS_BEFORE_MONTH`, an overflow of `int`, or a
-- loop of the model that ran out of fuel (`Time.Local` shows that it never does).
pub mod Calendar
pub mod Make
pub mod Local
pub mod Order
pub mod Epoch
pub mod Clock
pub mod Dos
mod Examples
use mathlib.Core.Option
use of_core_darwin.Base.{
  ℕ, zero, suc, ◌+◌, ◌-◌, ◌%◌, ◌^◌, ltb, Bool, true, false, not, ◌&&◌, ◌||◌, Option, none, some,
  List, [], ◌∷◌, get_elem?, ◌==◌, if◌then◌else◌, ◌>>=◌,
}
use of_core_darwin.Base.Int.{
  ℤ, pos, negsuc, pos_part, ◌+ℤ◌, ◌-ℤ◌, ◌*ℤ◌, ◌/ℤ◌, ◌%ℤ◌, ltb_ℤ, leb_ℤ, eqb_ℤ, to_unsigned, to_int,
}

abbrev pub sec_in_minute : ℕ
sec_in_minute = 60

abbrev pub sec_in_hour : ℕ
sec_in_hour = 3600

abbrev pub sec_in_day : ℕ
sec_in_day = 86400

abbrev pub days_before_month : List ℕ
days_before_month = 0 ∷ 31 ∷ 59 ∷ 90 ∷ 120 ∷ 151 ∷ 181 ∷ 212 ∷ 243 ∷ 273 ∷ 304 ∷ 334 ∷ []

-- A read of the table.
pub month_entry : ℤ → Option ℤ
month_entry (pos i) = Option.map pos (get_elem? days_before_month i)
month_entry (negsuc i) = none

pub record Tm : Type 0 where
  pub sec : ℤ
  pub min : ℤ
  pub hour : ℤ
  pub mday : ℤ
  pub mon : ℤ
  pub year : ℤ

-- `year` counts from 1900.
pub is_leap : ℤ → Bool
is_leap y =
    eqb_ℤ (y %ℤ 4) (pos 0)
    && (not (eqb_ℤ (y %ℤ 100) (pos 0)) || eqb_ℤ ((y +ℤ pos 1900) %ℤ 400) (pos 0))

pub days_in_year : ℤ → ℕ
unfolding is_leap
days_in_year y = if is_leap y then 366 else 365

-- The loop of `ofc_time_make_time` over the years from `year` on, with the rounds that are left.
pub add_years : ℕ → ℕ → ℤ → ℤ
add_years zero year days = days
add_years (suc left) year days = add_years left (year + 1) (days +ℤ pos (days_in_year (pos year)))

-- The seconds in the day, as the unsigned variable holds them.
pub seconds_in_day : Tm → ℕ
seconds_in_day tm = to_unsigned 32 (tm.sec +ℤ tm.min *ℤ sec_in_minute +ℤ tm.hour *ℤ sec_in_hour)

-- The number of days in the year: the table, and the leap day after February.
pub days_into_year : Tm → ℤ → ℤ
days_into_year tm before =
    let days = tm.mday -ℤ pos 1 +ℤ before in
    if ltb_ℤ (pos 1) tm.mon && days_in_year tm.year == 366 then days +ℤ pos 1 else days

-- The years before this one, from 1970 on.
pub days_since_epoch : Tm → ℤ → ℤ
unfolding add_years days_into_year
days_since_epoch tm before =
    if ltb_ℤ (pos 70) tm.year
    then add_years (pos_part tm.year - 70) 70 (days_into_year tm before)
    else days_into_year tm before

pub make_time : Tm → Option ℕ
make_time tm = do
  before ← month_entry tm.mon
  let days = days_since_epoch tm before
  some (to_unsigned 32 (pos (seconds_in_day tm) +ℤ days *ℤ sec_in_day))

-- The loop of `ofc_time_local_time` that finds the year. `tm_year` is an `int`: in a year of which
-- `_ISLEAP` adds 1900 past the end of `int` the macro overflows, which C does not define. So the
-- loop never counts the year itself past that end.
pub find_year : ℕ → ℤ → ℕ → Option (ℤ × ℕ)
find_year zero days year = none
find_year (suc fuel) days year =
    let later = find_year fuel (days -ℤ pos (days_in_year (pos year))) (year + 1) in
    if year % 100 == 0 && ltb 2147481747 year
    then none
    else if leb_ℤ (pos (days_in_year (pos year))) days
    then later
    else some (days, year)

-- The loop that finds the month: month `mon` of 11, with 11 - mon rounds left.
pub find_month : ℕ → ℕ → ℤ → Option ℕ
find_month zero mon days = some mon
find_month (suc left) mon days = do
  next ← month_entry (pos (mon + 1))
  let later = find_month left (mon + 1) days
  if leb_ℤ next days then later else some mon

-- The days in the year as the leap branch leaves them, and the month.
pub split_year : ℤ → ℕ → Option (ℤ × ℕ)
split_year days year =
    if days_in_year (pos year) == 366
    then (if eqb_ℤ days (pos 59)
        then some (days, 1)
        else (let days' = if ltb_ℤ (pos 59) days then days -ℤ pos 1 else days in
            Option.map (λ mon. (days', mon)) (find_month 11 0 days')))
    else Option.map (λ mon. (days, mon)) (find_month 11 0 days)

-- The conversion of a `time_t` to `int`.
unfoldable pub cast_int : ℤ → ℤ
cast_int z = to_int (to_unsigned 32 z)

-- A result of arithmetic on `int`, which C does not define outside of its range.
unfoldable pub in_int : ℤ → Option ℤ
in_int z = if ltb_ℤ z (pos (2 ^ 31)) && leb_ℤ (negsuc (2 ^ 31 - 1)) z then some z else none

unfoldable pub month_day : ℤ → ℤ → Option ℤ
unfolding cast_int in_int
month_day days before = do since ← in_int (cast_int days -ℤ before); in_int (since +ℤ pos 1)

-- The other casts to `int` are of numbers of seconds within a day, which it holds.
pub local_time : ℤ → Option Tm
local_time time = do
  let ticks_in_day = time %ℤ sec_in_day
  let all_days = time /ℤ sec_in_day
  (days_left, year) ← find_year (pos_part all_days + 1) all_days 70
  (days, mon) ← split_year days_left year
  before ← month_entry (pos mon)
  mday ← month_day days before
  let ticks_in_hour = ticks_in_day %ℤ sec_in_hour
  some (record {
    sec = ticks_in_hour %ℤ sec_in_minute;
    min = ticks_in_hour /ℤ sec_in_minute;
    hour = ticks_in_day /ℤ sec_in_hour;
    mday = mday;
    mon = pos mon;
    year = pos year;
  })
