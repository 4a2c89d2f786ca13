-- ===== src/Gate/Calendar.antt =====
-- `isValidCalendar` of lib/gate.js: the dates that pass, by the lengths of the months.
use view_limits.Base.{
  ℕ, ◌+◌, ◌/◌, ◌%◌, ◌≤◌, true, not, ◌&&◌, ◌||◌, if◌then◌else◌, ◌==◌, ◌≡◌, ◌↔◌, arith,
}
use view_limits.Gate.Time.{Stamp, is_leap_year, days_in_month, is_valid_calendar}

-- Long and short months take turns, and the turn is skipped between July and August; February has
-- 29 days every fourth year, save three in four centuries.
abbrev pub month_length : (year month : ℕ) → ℕ
month_length y m =
    if m == 2
    then (if y % 400 == 0 || y % 4 == 0 && not (y % 100 == 0) then 29 else 28)
    else 30 + (m + m / 8) % 2

-- A day of the calendar, from the year 1 on, and a time of that day without leap seconds.
pub record IsInstant (t : Stamp) : Type 0 where
  pub year : 1 ≤ t.year
  pub month_low : 1 ≤ t.month
  pub month_high : t.month ≤ 12
  pub day_low : 1 ≤ t.day
  pub day_high : t.day ≤ month_length t.year t.month
  pub hour : t.hour ≤ 23
  pub minute : t.minute ≤ 59
  pub second : t.second ≤ 59

days_in_month_lem : (y m : ℕ) → 1 ≤ m → m ≤ 12 → days_in_month y m ≡ month_length y m
unfolding days_in_month is_leap_year
days_in_month_lem y m low high = ground (arith, low, high)

-- A stamp passes the calendar test exactly when it has a year from 1 on, a month of the twelve, a
-- day that this month has in this year, and an hour, a minute and a second of that day.
pub is_valid_calendar_iff : (t : Stamp) → is_valid_calendar t ≡ true ↔ IsInstant t
unfolding is_valid_calendar
is_valid_calendar_iff t = (
  λ h.
      let low : 1 ≤ t.month = ground (arith, h) in
      let high : t.month ≤ 12 = ground (arith, h) in
      record {
        year = ground (arith, h);
        month_low = low;
        month_high = high;
        day_low = ground (arith, h);
        day_high = ground (arith, h, days_in_month_lem t.year t.month low high);
        hour = ground (arith, h);
        minute = ground (arith, h);
        second = ground (arith, h);
      },
  λ i. ground (
    arith,
    i.year,
    i.month_low,
    i.month_high,
    i.day_low,
    i.day_high,
    i.hour,
    i.minute,
    i.second,
    days_in_month_lem t.year t.month i.month_low i.month_high,
  ),
)
