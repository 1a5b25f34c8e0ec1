-- ===== src/Time/Dos.antt =====
-- File times to DOS stamps and back; and the other clock readings.
use native.Mathlib.Nat.{mod-lt, div-add-mod, mod-eq_of_lt, mod-add-mod, add-mul-mod_self_left}
use of_core_darwin.Base.{
  ℕ, suc, ◌+◌, ◌-◌, ◌*◌, ◌/◌, ◌%◌, ◌^◌, ◌≤◌, ◌<◌, ◌≡◌, some, ◌>>=◌, arith, refl, ap, ◌≡⟨◌⟩◌, ◌∎,
}
use of_core_darwin.Base.Int.{ℤ, pos, neg_ℤ, ◌/ℤ◌, pos_laws}
use of_core_darwin.Time.Calendar.{
  Civil, IsValid, seconds, days_before_year, days_before_year-suc, epoch,
}
use of_core_darwin.Time.Make.{make_time_lem}
use of_core_darwin.Time.Local.{local_time_lem}
use of_core_darwin.Time.Order.{year_mono, day_fits}
use of_core_darwin.Time.Clock.{
  Formats, elements_of, file_time_to_dos_date_time, dos_date_time_to_file_time, get_now,
  get_timezone,
}

-- A DOS stamp holds the years 1980 to 2107, and seconds in pairs.
pub record IsDos (c : Civil) : Type 0 where
  pub valid : IsValid c
  pub year_in : (80 ≤ c.year) × (c.year ≤ 207)

abbrev pub even_sec : Civil → Civil
even_sec c = record c { sec = c.sec - c.sec % 2 }

even_sec-IsValid : (c : Civil) → IsValid c → IsValid (even_sec c)
even_sec-IsValid c v = record {
  sec_in = omega arith;
  min_in = v.min_in;
  hour_in = v.hour_in;
  mday_in = v.mday_in;
  mon_in = v.mon_in;
  year_in = v.year_in;
}

seconds-even_sec : (c : Civil) → seconds (even_sec c) ≡ seconds c - seconds c % 2
unfolding seconds
seconds-even_sec c = omega arith

le_of_not_lt : {a b : ℕ} → ¬ (a < b) → b ≤ a
le_of_not_lt h = omega arith

years : (days_before_year 80 ≡ 722814) × (days_before_year 208 ≡ 769565)
unfolding days_before_year
years = (refl, refl)

-- The times from 1980 to 2106 are in range of a stamp.
IsDos_lem : (c : Civil) → IsValid c → 315532800 ≤ seconds c → seconds c < 2 ^ 32 → IsDos c
unfolding seconds
IsDos_lem c v lo hi = record {
  valid = v;
  year_in = (
    le_of_not_lt λ early. omega (
      arith,
      day_fits c v,
      days_before_year-suc c.year,
      year_mono (c.year + 1) 80 (omega arith),
      epoch,
      years,
    ),
    le_of_not_lt λ late. omega (arith, v.mday_in, year_mono 208 c.year late, epoch, years),
  );
}

module _ (formats : Formats)
    (packing : (c : Civil)
      → IsDos c
      → formats.dos_to_elements (formats.elements_to_dos (elements_of pos c))
        ≡ elements_of (λ n. n) (even_sec c)) where
  -- A file time from 1980-01-01 on, of fewer than 2 ^ 32 seconds, goes to a DOS stamp and back to the
  -- same time, in whole seconds rounded down to an even number, if the packing of a DOS stamp
  -- keeps the elements of such a time but for odd seconds.
  pub file_time-dos_date_time :
      (t : formats.FileTime) (s : ℕ) (nsec : ℤ)
      → formats.file_time_to_epoch t ≡ (pos s, nsec)
      → 315532800 ≤ s
      → s < 2 ^ 32
      → (file_time_to_dos_date_time formats t >>= dos_date_time_to_file_time formats)
        ≡ some (formats.epoch_to_file_time (pos (s - s % 2)) (pos 0))
  unfolding file_time_to_dos_date_time dos_date_time_to_file_time
  file_time-dos_date_time t s nsec e lo hi =
      let (c, v, same, run) = local_time_lem s (omega (arith, hi)) in
      let dos = IsDos_lem c v (rw same lo) (rw same hi) in
      let cut : (s - s % 2) % 2 ^ 32 ≡ s - s % 2 = omega arith in
      rw (ap (λ (p : ℤ × ℤ). p.0) e, run)
        (simp pos_laws (
          rw (packing c dos) (
            simp pos_laws (
              rw (
                make_time_lem (even_sec c) (even_sec-IsValid c v),
                seconds-even_sec c,
                same,
                cut,
              )))))

wrap_difference : (a b m : ℕ) → a ≤ b → b < a + m → (b % m + m - a % m) % m ≡ b - a
wrap_difference a b m le lt =
    (b % m + m - a % m) % m
    ≡⟨ ap (λ x. x % m) (omega (arith, mod-lt a {m = m} (omega arith))) ⟩ (b % m + (m - a % m)) % m
    ≡⟨ mod-add-mod b m (m - a % m) ⟩ (b + (m - a % m)) % m
    ≡⟨ ap (λ x. x % m) (omega (arith, div-add-mod a m, mod-lt a {m = m} (omega arith))) ⟩
      (b - a + m * suc (a / m)) % m
    ≡⟨ add-mul-mod_self_left (b - a) m (suc (a / m)) ⟩ (b - a) % m
    ≡⟨ mod-eq_of_lt (omega arith) ⟩ b - a ∎

-- Of two readings of the clock less than 2 ^ w milliseconds apart, for a result of w bits, the
-- difference modulo 2 ^ w is the number of milliseconds that passed, wherever the counter wrapped.
pub get_now_elapsed :
    (w sec usec later_sec later_usec : ℕ)
    → let then_ms = sec * 1000 + usec / 1000 in
      let now_ms = later_sec * 1000 + later_usec / 1000 in
      then_ms ≤ now_ms
      → now_ms < then_ms + 2 ^ w
      → (get_now w later_sec later_usec + 2 ^ w - get_now w sec usec) % 2 ^ w ≡ now_ms - then_ms
unfolding get_now
get_now_elapsed w sec usec later_sec later_usec le lt =
    wrap_difference (sec * 1000 + usec / 1000) (later_sec * 1000 + later_usec / 1000) (2 ^ w) le lt

-- The 16-bit result is the offset's opposite in minutes, for every offset of whole minutes within a day.
pub get_timezone_lem :
    (m : ℕ)
    → m ≤ 1440
    → (get_timezone (pos (m * 60)) ≡ (2 ^ 16 - m) % 2 ^ 16)
      × ((get_timezone (neg_ℤ (pos (m * 60)))) ≡ m)
unfolding get_timezone ◌/ℤ◌
get_timezone_lem m h = ground arith
