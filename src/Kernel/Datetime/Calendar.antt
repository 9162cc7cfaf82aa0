-- ===== src/Kernel/Datetime/Calendar.antt =====
-- The date that `get_datetime` of kernel/datetime.c shows is the one of its seconds.
use os_proj.Base.{
  ℕ, zero, suc, ◌+◌, ◌-◌, ◌*◌, ◌/◌, ◌%◌, ◌≤◌, ◌<◌, ◌≡◌, refl, ap, sym, ◌∙◌, arith, some, List, Bool,
  not, ◌==◌, ◌&&◌, ◌||◌, if◌then◌else◌, [], ◌∷◌, get_elem?, take, dec_lt, length,
}
use os_proj.Kernel.Datetime.{
  is_leap, days_in_year, year_loop, month_loop, Rtcdate, months, date_at, date_of,
}

abbrev pub sum : List ℕ → ℕ
sum [] = 0
sum (x ∷ xs) = x + sum xs

-- The days from `from` to the start of the `k`-th year after it.
pub days_until : ℕ → ℕ → ℕ
days_until from zero = 0
days_until from (suc k) = days_in_year from + days_until (from + 1) k

year_loop_lem :
    (fuel days year : ℕ)
    → days < fuel
    → (k : ℕ) × (left : ℕ) × (year_loop fuel days year ≡ some (year + k, left))
      × (left < days_in_year (year + k))
      × (days ≡ days_until year k + left)
unfolding year_loop days_until
year_loop_lem zero days year lt = absurd (omega arith)
year_loop_lem (suc fuel) days year lt = elim (dec_lt days (days_in_year year)) [
  | yes stop ↦
      let same : year + 0 ≡ year = omega arith in (0, days, ground arith, rw same stop, omega arith)
  | no go ↦
      let shorter : days - days_in_year year < fuel = ground arith in
      let (k, left, e, small, total) =
        year_loop_lem fuel (days - days_in_year year) (year + 1) shorter in
      let same : year + suc k ≡ year + 1 + k = omega arith in
      (suc k, left, ground arith, rw same small, ground arith)
]

month_loop_lem :
    (table : List ℕ) (days month : ℕ)
    → days < sum table
    → (k : ℕ) × (left : ℕ) × (len : ℕ) × (month_loop table days month ≡ some (month + k, left))
      × (get_elem? table k ≡ some len)
      × (left < len)
      × (days ≡ sum (take k table) + left)
unfolding month_loop
month_loop_lem [] days month lt = absurd (omega arith)
month_loop_lem (len ∷ table) days month lt = elim (dec_lt days len) [
  | yes stop ↦ (0, days, len, ground arith, refl, stop, omega arith)
  | no go ↦
      let (k, left, len', e, at, small, total) =
        month_loop_lem table (days - len) (month + 1) (omega arith) in
      (suc k, left, len', ground arith, at, small, omega arith)
]

-- A year of 366 days: one that 4 divides, but of those that 100 divides only one that 400 divides.
pub gregorian : ℕ → Bool
gregorian y = (y % 4 == 0 && not (y % 100 == 0)) || y % 400 == 0

-- The days of a month, 1 for January: 30 for April, June, September and November.
pub month_length : ℕ → ℕ → ℕ
month_length y m =
    if m == 2
    then if gregorian y then 29 else 28
    else if m == 4 || m == 6 || m == 9 || m == 11
    then 30
    else 31

-- The leap years from 1 on that are before a year.
pub leaps_before : ℕ → ℕ
leaps_before y = (y - 1) / 4 + (y - 1) / 400 - (y - 1) / 100

-- The days of a year that are before its month `k + 1`.
pub days_before : ℕ → ℕ → ℕ
days_before y zero = 0
days_before y (suc k) = days_before y k + month_length y (k + 1)

-- A date that a calendar has.
pub record Calendar (d : Rtcdate) : Type 0 where
  pub year_bound : 1970 ≤ d.year
  pub month_bounds : (1 ≤ d.month) × (d.month ≤ 12)
  pub day_bounds : (1 ≤ d.day) × (d.day ≤ month_length d.year d.month)
  pub hour_bound : d.hour < 24
  pub minute_bound : d.minute < 60
  pub second_bound : d.second < 60

-- The seconds from the start of 1970 to a date.
pub seconds_of : Rtcdate → ℕ
seconds_of d =
    let years = 365 * (d.year - 1970) + (leaps_before d.year - leaps_before 1970) in
    let days = years + days_before d.year (d.month - 1) + (d.day - 1) in
    ((days * 24 + d.hour) * 60 + d.minute) * 60 + d.second

leap_counts : (y : ℕ) → 1 ≤ y → days_in_year y + leaps_before y ≡ 365 + leaps_before (y + 1)
unfolding is_leap leaps_before
leap_counts y le = ground arith

days_until_lem :
    (k from : ℕ)
    → 1 ≤ from
    → days_until from k + leaps_before from ≡ 365 * k + leaps_before (from + k)
unfolding days_until
days_until_lem zero from le = let e : from + 0 ≡ from = omega arith in rw e (omega arith)
days_until_lem (suc k) from le =
    let e : from + 1 + k ≡ from + suc k = omega arith in
    let later = rw e at (days_until_lem k (from + 1) (omega arith)) in
    omega (arith, leap_counts from le, later)

months-entry : (year m : ℕ) → m < 12 → get_elem? (months year) m ≡ some (month_length year (m + 1))
unfolding month_length gregorian is_leap
months-entry year zero lt = ground arith
months-entry year (suc zero) lt = ground arith
months-entry year (suc (suc zero)) lt = ground arith
months-entry year (suc (suc (suc zero))) lt = ground arith
months-entry year (suc (suc (suc (suc zero)))) lt = ground arith
months-entry year (suc (suc (suc (suc (suc zero))))) lt = ground arith
months-entry year (suc (suc (suc (suc (suc (suc zero)))))) lt = ground arith
months-entry year (suc (suc (suc (suc (suc (suc (suc zero))))))) lt = ground arith
months-entry year (suc (suc (suc (suc (suc (suc (suc (suc zero)))))))) lt = ground arith
months-entry year (suc (suc (suc (suc (suc (suc (suc (suc (suc zero))))))))) lt = ground arith
months-entry year (suc (suc (suc (suc (suc (suc (suc (suc (suc (suc zero)))))))))) lt = ground arith
months-entry year (suc (suc (suc (suc (suc (suc (suc (suc (suc (suc (suc zero))))))))))) lt =
    ground arith
months-entry year (suc (suc (suc (suc (suc (suc (suc (suc (suc (suc (suc (suc m)))))))))))) lt =
    absurd (omega arith)

sum-take :
    (xs : List ℕ) (m len : ℕ)
    → get_elem? xs m ≡ some len
    → sum (take (suc m) xs) ≡ sum (take m xs) + len
sum-take [] m len e = ground arith
sum-take (x ∷ xs) zero len e = ground arith
sum-take (x ∷ xs) (suc m) len e = omega (arith, sum-take xs m len e)

days_before_lem : (year m : ℕ) → m ≤ 12 → sum (take m (months year)) ≡ days_before year m
unfolding days_before
days_before_lem year zero le = refl
days_before_lem year (suc m) le =
    sum-take (months year) m (month_length year (m + 1)) (months-entry year m (omega arith))
    ∙ ap (λ x. x + month_length year (m + 1)) (days_before_lem year m (omega arith))

-- The day of a date, by the tables of the code and by the calendar.
day_number :
    (k m left : ℕ)
    → m ≤ 12
    → 365 * (1970 + k - 1970)
        + (leaps_before (1970 + k) - leaps_before 1970)
        + days_before (1970 + k) (m + 1 - 1)
        + (left + 1 - 1)
      ≡ days_until 1970 k + (sum (take m (months (1970 + k))) + left)
unfolding leaps_before days_until
day_number k m left le =
    let e : m + 1 - 1 ≡ m = omega arith in
    rw e (omega (arith, days_until_lem k 1970 (omega arith), days_before_lem (1970 + k) m le))

year-sum : (year : ℕ) → sum (months year) ≡ days_in_year year
year-sum year = ground arith

month_bound : (table : List ℕ) (m len : ℕ) → get_elem? table m ≡ some len → m < length table
month_bound [] m len e = ground arith
month_bound (x ∷ table) zero len e = omega arith
month_bound (x ∷ table) (suc m) len e = omega (arith, month_bound table m len e)

months-length : (year : ℕ) → length (months year) ≡ 12
months-length year = ground arith

recombine :
    (secs days : ℕ)
    → days ≡ secs / 60 / 60 / 24
    → ((days * 24 + secs / 60 / 60 % 24) * 60 + secs / 60 % 60) * 60 + secs % 60 ≡ secs
recombine secs days e = omega arith

-- Below 2 ^ 31 days, `get_datetime` ends with a date that the calendar has, the one that lies as
-- many seconds after the start of 1970.
pub date_of-Calendar :
    (secs : ℕ)
    → secs / 60 / 60 / 24 < 2147483648
    → (d : Rtcdate) × (date_of secs ≡ some d) × Calendar d × (seconds_of d ≡ secs)
unfolding date_of seconds_of
date_of-Calendar secs lt =
    let days = secs / 60 / 60 / 24 in
    let (k, left, e, small, total) = year_loop_lem (days + 1) days 1970 (omega arith) in
    let year = 1970 + k in
    let (m, left', len, e', at, small', total') =
      month_loop_lem (months year) left 1 (rw (year-sum year) small) in
    let d = date_at secs year (m + 1) left' in
    let one : 1 + m ≡ m + 1 = omega arith in
    let found : date_of secs ≡ some d = ground arith in
    let short = month_bound (months year) m len at in
    let known : len ≡ month_length year (m + 1) =
      ground (arith, sym at ∙ months-entry year m (omega (arith, short, months-length year))) in
    (
      d,
      found,
      record {
        year_bound = omega arith;
        month_bounds = (omega arith, omega (arith, short, months-length year));
        day_bounds = (omega arith, omega (arith, known, small'));
        hour_bound = omega arith;
        minute_bound = omega arith;
        second_bound = omega arith;
      },
      recombine secs
          (365 * (year - 1970)
            + (leaps_before year - leaps_before 1970)
            + days_before year (m + 1 - 1)
            + (left' + 1 - 1))
          (day_number k m left' (omega (arith, short, months-length year)) ∙ omega arith),
    )
