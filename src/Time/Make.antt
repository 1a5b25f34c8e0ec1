-- ===== src/Time/Make.antt =====
-- `ofc_time_make_time` computes the seconds since 1970-01-01, modulo 2 ^ 32.
use of_core_darwin.Base.{
  ℕ, zero, suc, ◌+◌, ◌-◌, ◌*◌, ◌%◌, ◌^◌, ◌≡◌, arith, some, if◌then◌else◌, ltb, ◌&&◌,
}
use of_core_darwin.Base.Int.{pos, -ℤ-pos, pos_laws}
use of_core_darwin.Time.{
  days_in_year, add_years, make_time, month_entry, seconds_in_day, days_into_year, days_since_epoch,
}
use of_core_darwin.Time.Calendar.{
  Civil, to_tm, IsValid, leap_year, days_before_year, days_before_year-suc, days_in_year-eq, epoch,
  epoch_days, month_table, month_start, seconds,
}

add_years_lem :
    (n y z d : ℕ)
    → y + n ≡ z
    → add_years n y (pos d) ≡ pos (d + days_before_year z - days_before_year y)
unfolding add_years
add_years_lem zero y z d h = let e : y ≡ z = omega arith in rw e (ground arith)
add_years_lem (suc n) y z d h =
    simp pos_laws
      (ground (arith, days_before_year-suc y, add_years_lem n (y + 1) z (d + days_in_year (pos y))))

-- Seconds in the day need no wrap-around on a valid time of day.
seconds_in_day_lem :
    (c : Civil) → IsValid c → seconds_in_day (to_tm c) ≡ c.hour * 3600 + c.min * 60 + c.sec
unfolding seconds_in_day
seconds_in_day_lem c v = simp pos_laws (ground arith)

module _ (c : Civil) (v : IsValid c) where
  table :
      (e : ℕ) × (month_entry (pos c.mon) ≡ some (pos e))
      × (month_start c.year c.mon ≡ e + (if ltb 1 c.mon && leap_year c.year then 1 else 0))
  table = month_table c.year c.mon v.mon_in

  days_into_year_lem :
      days_into_year (to_tm c) (pos table.0) ≡ pos (c.mday - 1 + month_start c.year c.mon)
  unfolding days_into_year
  days_into_year_lem =
      simp (-ℤ-pos c.mday 1 v.mday_in.0, pos_laws)
        (ground (arith, days_in_year-eq c.year, v.mday_in, table.2))

  days_since_epoch_lem :
      days_since_epoch (to_tm c) (pos table.0)
      ≡ pos (c.mday - 1 + month_start c.year c.mon + days_before_year c.year - epoch_days)
  unfolding days_since_epoch
  days_since_epoch_lem = simp days_into_year_lem (
      ground (
        arith,
        epoch,
        add_years_lem (c.year - 70) 70 c.year (c.mday - 1 + month_start c.year c.mon),
      ))

  pub make_time_lem : make_time (to_tm c) ≡ some (seconds c % 2 ^ 32)
  unfolding make_time seconds
  make_time_lem =
      rw (table.1, days_since_epoch_lem, seconds_in_day_lem c v)
        (simp pos_laws (ground (arith, v.mday_in)))
