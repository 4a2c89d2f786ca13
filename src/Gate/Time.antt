-- ===== src/Gate/Time.antt =====
-- lib/gate.js: `parseStrictIsoTimestamp`. Instants are milliseconds since the start of year 0 of
-- the proleptic Gregorian calendar: the epoch of `Date` shifted by a constant, so that they are
-- natural numbers. A clock value that is compared with an instant is shifted alike.
use view_limits.Base.{
  ℕ, zero, suc, ◌+◌, ◌-◌, ◌*◌, ◌/◌, ◌%◌, Bool, true, false, not, ◌&&◌, ◌||◌, Option, none, some,
  List, [], ◌∷◌, String, if◌then◌else◌, leb, ◌==◌,
}
use view_limits.Base.Text.{codes}

-- `Date.parse` outside the format that ECMAScript specifies is up to the engine.
pub record Clockwork : Type 0 where
  pub parse_other : String → Option ℕ

-- The groups of `STRICT_ISO_RE`.
pub data Zone : Type 0 where
  utc : Zone
  offset : (negative : Bool) → (colon : Bool) → (hours minutes : ℕ) → Zone

pub record Stamp : Type 0 where
  pub year : ℕ
  pub month : ℕ
  pub day : ℕ
  pub hour : ℕ
  pub minute : ℕ
  pub second : ℕ
  pub fraction : List ℕ
  pub zone : Zone

infixl 5 ◌>>=◌
abbrev pub ◌>>=◌ {ℓ κ} : {A : Type ℓ} {B : Type κ} → Option A → (A → Option B) → Option B
none >>= f = none
some a >>= f = f a

abbrev pub is_digit : ℕ → Bool
is_digit c = leb b'0' c && leb c b'9'

-- `\d{n}`: the value of exactly `n` digits on top of `acc`, and what follows.
unfoldable pub fixed : ℕ → ℕ → List ℕ → Option (ℕ × List ℕ)
fixed zero acc cs = some (acc, cs)
fixed (suc n) acc [] = none
fixed (suc n) acc (c ∷ cs) =
    let rest = fixed n (acc * 10 + (c - b'0')) cs in if is_digit c then rest else none

unfoldable pub expect : ℕ → List ℕ → Option (List ℕ)
expect c [] = none
expect c (d ∷ ds) = if d == c then some ds else none

-- `\d*`: the digits, and what follows.
unfoldable pub digits : List ℕ → List ℕ × List ℕ
digits [] = ([], [])
digits (c ∷ cs) =
    let (ds, rest) = digits cs in if is_digit c then ((c - b'0') ∷ ds, rest) else ([], c ∷ cs)

abbrev pub some_digits : List ℕ × List ℕ → Option (List ℕ × List ℕ)
some_digits ([], rest) = none
some_digits (d ∷ ds, rest) = some (d ∷ ds, rest)

-- `(?:\.(\d+))?`.
unfoldable pub fraction_of : List ℕ → Option (List ℕ × List ℕ)
unfolding digits
fraction_of [] = some ([], [])
fraction_of (c ∷ cs) = if c == b'.' then some_digits (digits cs) else some ([], c ∷ cs)

-- `$`.
abbrev pub at_end {ℓ} : {A : Type ℓ} → A → List ℕ → Option A
at_end a [] = some a
at_end a (c ∷ cs) = none

-- `:?`.
abbrev pub skip_colon : List ℕ → Bool × List ℕ
skip_colon [] = (false, [])
skip_colon (c ∷ cs) = if c == b':' then (true, cs) else (false, c ∷ cs)

unfoldable pub offset_of : Bool → List ℕ → Option Zone
unfolding fixed
offset_of negative cs = do
  hours ← fixed 2 0 cs
  minutes ← fixed 2 0 (skip_colon (hours.1)).1
  at_end (offset negative (skip_colon (hours.1)).0 hours.0 minutes.0) minutes.1

-- `(Z|[+-]\d{2}:?\d{2})$`.
unfoldable pub zone_of : List ℕ → Option Zone
unfolding offset_of
zone_of [] = none
zone_of (c ∷ cs) =
    if c == b'Z'
    then at_end utc cs
    else if c == b'+'
    then offset_of false cs
    else if c == b'-'
    then offset_of true cs
    else none

-- `s.match(STRICT_ISO_RE)`.
unfoldable pub match_stamp : List ℕ → Option Stamp
unfolding fixed expect fraction_of zone_of
match_stamp s = do
  y ← fixed 4 0 s
  after_y ← expect b'-' y.1
  mo ← fixed 2 0 after_y
  after_mo ← expect b'-' mo.1
  d ← fixed 2 0 after_mo
  after_d ← expect b'T' d.1
  h ← fixed 2 0 after_d
  after_h ← expect b':' h.1
  mi ← fixed 2 0 after_h
  after_mi ← expect b':' mi.1
  sec ← fixed 2 0 after_mi
  frac ← fraction_of sec.1
  zone ← zone_of frac.1
  some (record {
    year = y.0;
    month = mo.0;
    day = d.0;
    hour = h.0;
    minute = mi.0;
    second = sec.0;
    fraction = frac.0;
    zone = zone;
  })

-- `isLeapYear(y)`.
unfoldable pub is_leap_year : ℕ → Bool
is_leap_year y = y % 4 == 0 && not (y % 100 == 0) || y % 400 == 0

-- `mo === 2 && isLeapYear(y) ? 29 : DAYS_IN_MONTH[mo - 1]`.
unfoldable pub days_in_month : ℕ → ℕ → ℕ
unfolding is_leap_year
days_in_month y mo =
    if mo == 2 && is_leap_year y
    then 29
    else if mo == 2
    then 28
    else if mo == 4 || mo == 6 || mo == 9 || mo == 11
    then 30
    else 31

-- `isValidCalendar(y, mo, d, h, mi, s)`.
unfoldable pub is_valid_calendar : Stamp → Bool
unfolding days_in_month
is_valid_calendar t =
    leb 1 t.year
    && (leb 1 t.month
        && (leb t.month 12
            && (leb 1 t.day
                && (leb t.hour 23
                    && (leb t.minute 59
                        && (leb t.second 59 && leb t.day (days_in_month t.year t.month)))))))

-- The days before the first of January of a year, from year 0 on, which is a leap year.
unfoldable pub days_before_year : ℕ → ℕ
days_before_year zero = 0
days_before_year (suc y) = 366 + 365 * y + y / 4 - y / 100 + y / 400

-- The days of the year before the first of a month.
unfoldable pub days_before_month : ℕ → ℕ → ℕ
unfolding days_in_month
days_before_month y zero = 0
days_before_month y (suc zero) = 0
days_before_month y (suc (suc mo)) = days_before_month y (suc mo) + days_in_month y (suc mo)

-- Whole milliseconds of a fraction: its first three digits.
unfoldable pub milliseconds : List ℕ → ℕ
milliseconds [] = 0
milliseconds (a ∷ []) = 100 * a
milliseconds (a ∷ b ∷ []) = 100 * a + 10 * b
milliseconds (a ∷ b ∷ c ∷ ds) = 100 * a + 10 * b + c

-- The instant of the fields read as UTC, as the language prescribes it for `Date.parse`.
unfoldable pub local_instant : Stamp → ℕ
unfolding days_before_year days_before_month milliseconds
local_instant t =
    ((((days_before_year t.year + days_before_month t.year t.month + (t.day - 1)) * 24 + t.hour)
              * 60
            + t.minute)
          * 60
        + t.second)
      * 1000
    + milliseconds t.fraction

-- `Date.parse(s)` of a text that matched: the format of ECMAScript has `Z` or `±HH:MM` with hours
-- to 23 and minutes to 59.
unfoldable pub date_parse : ⦃k : Clockwork⦄ → String → Stamp → Option ℕ
unfolding local_instant
date_parse ⦃k⦄ s t = elim t.zone [
  | utc ↦ some (local_instant t)
  | offset negative colon hours minutes ↦
      if colon && (leb hours 23 && leb minutes 59)
      then (if negative
          then some (local_instant t + (hours * 60 + minutes) * 60000)
          else some (local_instant t - (hours * 60 + minutes) * 60000))
      else k.parse_other s
]

-- `parseStrictIsoTimestamp(s)`.
unfoldable pub parse_strict_iso_timestamp : ⦃k : Clockwork⦄ → String → Option ℕ
unfolding match_stamp is_valid_calendar date_parse
parse_strict_iso_timestamp s = do
  t ← match_stamp (codes s)
  if is_valid_calendar t then date_parse s t else none
