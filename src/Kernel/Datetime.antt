-- ===== src/Kernel/Datetime.antt =====
-- kernel/datetime.c: `is_leap` and `get_datetime`. The timer register and `BOOT_EPOCH`, which the
-- build sets, are arguments.
pub mod Examples
pub mod Calendar
use os_proj.Base.{
  ℕ, zero, suc, ◌+◌, ◌-◌, ◌*◌, ◌/◌, ◌%◌, ◌&&◌, ◌||◌, Bool, true, false, not, Option, none, some,
  List, [], ◌∷◌, ltb, ◌==◌, if◌then◌else◌, set, drop,
}

abbrev pub timer_freq : ℕ
timer_freq = 10000000

abbrev pub egypt_tz_offset : ℕ
egypt_tz_offset = 7200

pub is_leap : ℕ → Bool
is_leap year = year % 4 == 0 && (not (year % 100 == 0) || year % 400 == 0)

abbrev pub days_in_year : ℕ → ℕ
days_in_year year = if is_leap year then 366 else 365

-- The loop over the years, on fuel: the year, and the days left in it.
pub year_loop : ℕ → ℕ → ℕ → Option (ℕ × ℕ)
year_loop zero days year = none
year_loop (suc fuel) days year =
    let later = year_loop fuel (days - days_in_year year) (year + 1) in
    if ltb days (days_in_year year) then some (year, days) else later

-- `days_in_month`, with February set for the year.
abbrev pub month_table : ℕ → List ℕ
month_table year =
    let table = 0 ∷ 31 ∷ 28 ∷ 31 ∷ 30 ∷ 31 ∷ 30 ∷ 31 ∷ 31 ∷ 30 ∷ 31 ∷ 30 ∷ 31 ∷ [] in
    if is_leap year then set table 2 29 else table

-- The loop over the months, with the entries of the table from `month` on; a read past its end is
-- `none`. The result is the month and the days left in it.
pub month_loop : List ℕ → ℕ → ℕ → Option (ℕ × ℕ)
month_loop [] days month = none
month_loop (len ∷ table) days month =
    let later = month_loop table (days - len) (month + 1) in
    if ltb days len then some (month, days) else later

pub record Rtcdate : Type 0 where
  pub year : ℕ
  pub month : ℕ
  pub day : ℕ
  pub hour : ℕ
  pub minute : ℕ
  pub second : ℕ

-- `secs`, a `uint64`.
abbrev pub seconds : ℕ → ℕ → ℕ
seconds mtime boot_epoch =
    ((mtime / timer_freq + boot_epoch) % 18446744073709551616 + egypt_tz_offset)
    % 18446744073709551616

-- The table from January on.
abbrev pub months : ℕ → List ℕ
months year = drop 1 (month_table year)

abbrev pub date_at : ℕ → ℕ → ℕ → ℕ → Rtcdate
date_at secs year month left = record {
  year = year;
  month = month;
  day = left + 1;
  hour = secs / 60 / 60 % 24;
  minute = secs / 60 % 60;
  second = secs % 60;
}

abbrev pub from_month : ℕ → ℕ → Option (ℕ × ℕ) → Option Rtcdate
from_month secs year none = none
from_month secs year (some (month, left)) = some (date_at secs year month left)

abbrev pub from_year : ℕ → Option (ℕ × ℕ) → Option Rtcdate
from_year secs none = none
from_year secs (some (year, days)) = from_month secs year (month_loop (months year) days 1)

-- `get_datetime` at the seconds `secs`. `int days` takes the day number as it is below 2 ^ 31;
-- above, where the conversion changes it, the model gives no date.
pub date_of : ℕ → Option Rtcdate
date_of secs =
    let days = secs / 60 / 60 / 24 in
    if ltb days 2147483648 then from_year secs (year_loop (days + 1) days 1970) else none

pub get_datetime : ℕ → ℕ → Option Rtcdate
get_datetime mtime boot_epoch = date_of (seconds mtime boot_epoch)
