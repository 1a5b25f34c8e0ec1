-- ===== src/Time/Examples.antt =====
-- Runs of the conversions, and the theorems at concrete times.
use of_core_darwin.Base.{◌+◌, ◌-◌, ◌*◌, ◌/◌, ◌%◌, ◌≤◌, ◌≡◌, ◌≢◌, refl, arith, some, ◌>>=◌}
use of_core_darwin.Base.Int.{ℤ, pos, negsuc, pos_part, ◌+ℤ◌, ◌-ℤ◌, ◌*ℤ◌, ◌/ℤ◌, ◌%ℤ◌}
use of_core_darwin.Time.{
  Tm, month_entry, days_in_year, seconds_in_day, days_since_epoch, make_time, find_year, find_month,
  split_year, cast_int, in_int, month_day, local_time,
}
use of_core_darwin.Time.Calendar.{Civil, to_tm, IsValid, seconds, days_before_year}
use of_core_darwin.Time.Local.{local_time_lem}
use of_core_darwin.Time.Order.{local_time-make_time}
use of_core_darwin.Time.Epoch.{local_time-negsuc}
use of_core_darwin.Time.Clock.{
  Formats, elements_of, file_time_to_dos_date_time, dos_date_time_to_file_time,
}
use of_core_darwin.Time.Dos.{IsDos, even_sec, file_time-dos_date_time}

abbrev leap_noon : Civil
leap_noon = record { sec = 1; min = 0; hour = 12; mday = 29; mon = 1; year = 124 }

abbrev next_noon : Civil
next_noon = record { sec = 1; min = 0; hour = 12; mday = 30; mon = 1; year = 124 }

abbrev new_year : Civil
new_year = record { sec = 59; min = 59; hour = 23; mday = 31; mon = 11; year = 125 }

leap_noon-IsValid : IsValid leap_noon
leap_noon-IsValid = omega arith

new_year-IsValid : IsValid new_year
new_year-IsValid = omega arith

local_time_runs : local_time (pos 1709208001) ≡ some (to_tm leap_noon)
unfolding local_time cast_int in_int month_day find_year find_month split_year month_entry
    days_in_year ◌+ℤ◌ ◌-ℤ◌ ◌/ℤ◌ ◌%ℤ◌
local_time_runs = refl

-- Before 1970, 2 ^ 32 - 5 days back, the cast to `int` gives a day of January 1970.
local_time_wraps :
    local_time (negsuc 371085173942399)
    ≡ some (to_tm (record { sec = 0; min = 0; hour = 0; mday = 6; mon = 0; year = 70 }))
unfolding local_time cast_int in_int month_day find_year find_month split_year month_entry
    days_in_year ◌+ℤ◌ ◌-ℤ◌ ◌/ℤ◌ ◌%ℤ◌
local_time_wraps = refl

make_time_runs : make_time (to_tm new_year) ≡ some 1767225599
unfolding make_time seconds_in_day days_since_epoch month_entry days_in_year ◌+ℤ◌ ◌-ℤ◌ ◌*ℤ◌ ◌%ℤ◌
make_time_runs = refl

local_time_lem_example :
    (c : Civil) × IsValid c × (seconds c ≡ 86400) × (local_time (pos 86400) ≡ some (to_tm c))
local_time_lem_example = local_time_lem 86400 (omega arith)

local_time-make_time_example :
    (make_time (to_tm leap_noon) >>= λ n. local_time (pos n)) ≡ some (to_tm leap_noon)
unfolding seconds days_before_year
local_time-make_time_example = local_time-make_time leap_noon leap_noon-IsValid (omega arith)

local_time-negsuc_example :
    (tm : Tm) × (local_time (negsuc 0) ≡ some tm) × ((c : Civil) → IsValid c → tm ≢ to_tm c)
local_time-negsuc_example = local_time-negsuc 0 (omega arith)

-- Formats that pack as FAT does, with file times as seconds.
abbrev fat : Formats
fat = record {
  FileTime = ℤ;
  file_time_to_epoch = λ t. (t, pos 0);
  epoch_to_file_time = λ sec nsec. sec;
  elements_to_dos = λ e. (
    (pos_part e.year - 1980) * 512 + pos_part e.mon * 32 + pos_part e.day,
    pos_part e.hour * 2048 + pos_part e.min * 32 + pos_part e.sec / 2,
  );
  dos_to_elements = λ s. record {
    mon = s.0 / 32 % 16;
    day = s.0 % 32;
    year = s.0 / 512 + 1980;
    hour = s.1 / 2048;
    min = s.1 / 32 % 64;
    sec = s.1 % 32 * 2;
  };
}

fat_packing :
    (c : Civil)
    → IsDos c
    → fat.dos_to_elements (fat.elements_to_dos (elements_of pos c))
      ≡ elements_of (λ n. n) (even_sec c)
fat_packing c d =
    let short : c.mday ≤ 31 = ground (arith, d.valid.mday_in) in ground (arith, d.year_in, short)

file_time-dos_date_time_example :
    (file_time_to_dos_date_time fat (pos 1709208001) >>= dos_date_time_to_file_time fat)
    ≡ some (pos 1709208000)
file_time-dos_date_time_example =
    file_time-dos_date_time fat fat_packing (pos 1709208001) 1709208001 (pos 0) refl (omega arith)
      (omega arith)
