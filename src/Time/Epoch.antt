-- ===== src/Time/Epoch.antt =====
-- `ofc_time_local_time` on times before 1970: C's division rounds towards zero, and the year loop
-- only counts up.
use native.Mathlib.Nat.{zero-mod}
use of_core_darwin.Base.{ℕ, ◌+◌, ◌/◌, ◌%◌, ◌*◌, ◌^◌, ◌<◌, ◌≤◌, ◌≡◌, ◌≢◌, refl, ap, arith, some}
use of_core_darwin.Base.Int.{ℤ, pos, negsuc, pos_part, neg_part, ◌+ℤ◌, ◌-ℤ◌, ◌/ℤ◌, ◌%ℤ◌}
use of_core_darwin.Time.{
  Tm, days_in_year, month_entry, find_year, find_month, split_year, cast_int, in_int, month_day,
  local_time,
}
use of_core_darwin.Time.Calendar.{Civil, to_tm, IsValid}

-- What the code returns, by the truncated quotient and remainder.
abbrev before_epoch : ℤ → Tm
before_epoch time =
    let ticks = time %ℤ 86400 in
    record {
      sec = ticks %ℤ 3600 %ℤ 60;
      min = ticks %ℤ 3600 /ℤ 60;
      hour = ticks /ℤ 3600;
      mday = time /ℤ 86400 -ℤ pos 0 +ℤ pos 1;
      mon = pos 0;
      year = pos 70;
    }

years : (days_in_year (pos 70) ≡ 365)
unfolding days_in_year ◌+ℤ◌ ◌%ℤ◌
years = refl

find_year_before : (z : ℤ) → pos_part z ≡ 0 → find_year (pos_part z + 1) z 70 ≡ some (z, 70)
unfolding find_year
find_year_before (pos n) h = rw h (rw years refl)
find_year_before (negsuc n) h = rw years (ground arith)

split_year_before : (z : ℤ) → pos_part z ≡ 0 → split_year z 70 ≡ some (z, 0)
unfolding split_year find_month month_entry
split_year_before (pos n) h = rw (years, h) refl
split_year_before (negsuc n) h = rw years (ground arith)

quotient_before : (n : ℕ) → pos_part (negsuc n /ℤ 86400) ≡ 0
unfolding ◌/ℤ◌
quotient_before n = ground arith

-- A quotient or remainder of a number below zero has the parts of its opposite's.
parts_div :
    (z : ℤ) (k : ℕ)
    → pos_part z ≡ 0
    → (pos_part (z /ℤ k) ≡ 0) × (neg_part (z /ℤ k) ≡ neg_part z / k)
unfolding ◌/ℤ◌
parts_div z k h = rw h (ground arith)

parts_mod :
    (z : ℤ) (k : ℕ)
    → pos_part z ≡ 0
    → (pos_part (z %ℤ k) ≡ 0) × (neg_part (z %ℤ k) ≡ neg_part z % k)
unfolding ◌%ℤ◌
parts_mod z k h = rw h (ground (arith, zero-mod k))

month_day_before :
    (z : ℤ)
    → pos_part z ≡ 0
    → neg_part z < 2 ^ 31
    → month_day z (pos 0) ≡ some (z -ℤ pos 0 +ℤ pos 1)
unfolding month_day cast_int in_int ◌+ℤ◌ ◌-ℤ◌
month_day_before (pos n) h small = ground (arith, h)
month_day_before (negsuc n) h small = ground (arith, small)

local_time_before :
    (n : ℕ) → n + 1 < 2 ^ 31 * 86400 → local_time (negsuc n) ≡ some (before_epoch (negsuc n))
unfolding local_time month_entry
local_time_before n small = rw (
  find_year_before (negsuc n /ℤ 86400) (quotient_before n),
  split_year_before (negsuc n /ℤ 86400) (quotient_before n),
  month_day_before (negsuc n /ℤ 86400) (quotient_before n)
      (omega (arith, parts_div (negsuc n) 86400 refl, small)),
)

day_before : (z : ℤ) (d : ℕ) → pos_part z ≡ 0 → 1 ≤ d → z -ℤ pos 0 +ℤ pos 1 ≡ pos d → neg_part z ≡ 0
unfolding ◌+ℤ◌ ◌-ℤ◌
day_before z d h le e = ground arith

-- The conversion of a time before 1970, by fewer than 2 ^ 31 days, ends, but what it returns are not the
-- fields of a valid date.
pub local_time-negsuc :
    (n : ℕ)
    → n + 1 < 2 ^ 31 * 86400
    → (tm : Tm) × (local_time (negsuc n) ≡ some tm) × ((c : Civil) → IsValid c → tm ≢ to_tm c)
local_time-negsuc n small = (
  before_epoch (negsuc n),
  local_time_before n small,
  λ c v e.
      let ticks = parts_mod (negsuc n) 86400 refl in
      let in_hour = parts_mod (negsuc n %ℤ 86400) 3600 ticks.0 in
      let days = parts_div (negsuc n) 86400 refl in
      let hour = parts_div (negsuc n %ℤ 86400) 3600 ticks.0 in
      let min = parts_div (negsuc n %ℤ 86400 %ℤ 3600) 60 in_hour.0 in
      let sec = parts_mod (negsuc n %ℤ 86400 %ℤ 3600) 60 in_hour.0 in
      omega (
        arith,
        day_before (negsuc n /ℤ 86400) c.mday (quotient_before n) v.mday_in.0
            (ap (λ (t : Tm). t.mday) e),
        ap (λ (t : Tm). neg_part t.hour) e,
        ap (λ (t : Tm). neg_part t.min) e,
        ap (λ (t : Tm). neg_part t.sec) e,
      ),
)
