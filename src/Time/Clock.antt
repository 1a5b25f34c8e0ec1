-- ===== src/Time/Clock.antt =====
-- The functions of src/time_darwin.c that read a clock or convert between file times, DOS dates
-- and seconds. What of_core and the system provide is the record `Formats` and arguments.
use of_core_darwin.Base.{ℕ, ◌+◌, ◌*◌, ◌/◌, Option, some, ◌>>=◌, if◌then◌else◌}
use of_core_darwin.Base.Int.{ℤ, pos, ◌+ℤ◌, ◌-ℤ◌, ◌/ℤ◌, eqb_ℤ, neg_ℤ, to_unsigned}
use of_core_darwin.Time.{make_time, local_time}
use of_core_darwin.Time.Calendar.{Civil}

-- The arguments of the DOS conversions: month from 1, full year.
pub record Elements (N : Type 0) : Type 0 where
  pub mon : N
  pub day : N
  pub year : N
  pub hour : N
  pub min : N
  pub sec : N

-- of_core's conversions. A file time is opaque here; a DOS stamp is a date word and a time word.
pub record Formats : Type 1 where
  pub FileTime : Type 0
  pub file_time_to_epoch : FileTime → ℤ × ℤ
  pub epoch_to_file_time : ℤ → ℤ → FileTime
  pub elements_to_dos : Elements ℤ → ℕ × ℕ
  pub dos_to_elements : ℕ × ℕ → Elements ℕ

abbrev pub elements_of : {N : Type 0} → (ℕ → N) → Civil → Elements N
elements_of f c = record {
  mon = f (c.mon + 1);
  day = f c.mday;
  year = f (c.year + 1900);
  hour = f c.hour;
  min = f c.min;
  sec = f c.sec;
}

module _ (formats : Formats) where
  open formats use {
    FileTime, file_time_to_epoch, epoch_to_file_time, elements_to_dos, dos_to_elements,
  }

  unfoldable pub file_time_to_dos_date_time : FileTime → Option (ℕ × ℕ)
  file_time_to_dos_date_time time = do
    let (sec, nsec) = file_time_to_epoch time
    tm ← local_time sec
    some (
        elements_to_dos (record {
          mon = tm.mon +ℤ pos 1;
          day = tm.mday;
          year = tm.year +ℤ pos 1900;
          hour = tm.hour;
          min = tm.min;
          sec = tm.sec;
        }))

  unfoldable pub dos_date_time_to_file_time : ℕ × ℕ → Option FileTime
  dos_date_time_to_file_time stamp = do
    let e = dos_to_elements stamp
    sec ← make_time (record {
      mon = pos e.mon -ℤ pos 1;
      mday = pos e.day;
      year = pos e.year -ℤ pos 1900;
      hour = pos e.hour;
      min = pos e.min;
      sec = pos e.sec;
    })
    some (epoch_to_file_time (pos sec) (pos 0))

  -- `ofc_time_get_file_time_impl`, at what `time` returns.
  pub get_file_time : ℤ → FileTime
  get_file_time now = epoch_to_file_time now (pos 0)

-- `ofc_time_get_now_impl`, at what `gettimeofday` returns; `w` is the width of `OFC_MSTIME`.
unfoldable pub get_now : ℕ → ℕ → ℕ → ℕ
get_now w sec usec = to_unsigned w (pos (sec * 1000 + usec / 1000))

-- `ofc_time_get_timezone_impl`, at the offset that `localtime` gives.
unfoldable pub get_timezone : ℤ → ℕ
get_timezone gmtoff = to_unsigned 16 (neg_ℤ gmtoff /ℤ 60)

pub record Usage : Type 0 where
  pub user_sec : ℕ
  pub user_usec : ℕ
  pub system_sec : ℕ
  pub system_usec : ℕ

-- `ofc_get_runtime_impl`, at the status and the usage that `getrusage` gives.
unfoldable pub get_runtime : ℕ → ℤ → Usage → ℕ
get_runtime w status u =
    if eqb_ℤ status (pos 0)
    then to_unsigned w (pos ((u.user_sec + u.system_sec) * 1000000 + (u.user_usec + u.system_usec)))
    else 0
