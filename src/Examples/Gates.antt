-- ===== src/Examples/Gates.antt =====
-- The theorems on lib/gate.js at concrete inputs.
use view_limits.Base.{ℕ, some, [], ◌∷◌, ◌≡◌, ◌↔◌, true, refl, arith}
use view_limits.Value.{Value, str, obj, field, end}
use view_limits.Gate.Time.{Stamp, utc, is_valid_calendar, match_stamp, parse_strict_iso_timestamp}
use view_limits.Monitor.Validate.{validate_monitor}
use view_limits.Monitor.Revision.{is_config_obsolete}
use view_limits.Gate.Decide.{decide}
use view_limits.Gate.Open.{
  Denies, AsksRefresh, Blocks, IsActive, decide-Denies_iff, decide-refresh_iff,
}
use view_limits.Gate.Calendar.{IsInstant, is_valid_calendar_iff}
use view_limits.Gate.RoundTrip.{write_stamp, match_stamp-write_stamp}
use view_limits.Examples.{lower_case, no_clockwork, https_only, one_digest, one_field}

abbrev route : Value
route = one_field "id" (str "r1")

abbrev exhausted_entry : Value
exhausted_entry = obj (
    field "freshUntil" (str "2030-01-01T00:00:00Z")
      (field "status" (one_field "state" (str "exhausted")) end))

abbrev old_entry : Value
old_entry = obj (
    field "freshUntil" (str "2020-01-01T00:00:00Z")
      (field "status" (one_field "state" (str "exhausted")) end))

abbrev deny_config : Value
deny_config = one_field "gate" (one_field "mode" (str "deny"))

-- The start of 2026.
abbrev now : ℕ
now = 63934444800000

decide-Denies_iff_example :
    Blocks ⦃e = lower_case⦄ ⦃u = https_only⦄ ⦃d = one_digest⦄ ⦃k = no_clockwork⦄ route
      exhausted_entry now deny_config
unfolding decide Denies validate_monitor parse_strict_iso_timestamp is_config_obsolete
decide-Denies_iff_example =
    (decide-Denies_iff ⦃e = lower_case⦄ ⦃u = https_only⦄ ⦃d = one_digest⦄ ⦃k = no_clockwork⦄ route
        exhausted_entry now deny_config).0
      refl

decide-refresh_iff_example :
    IsActive ⦃e = lower_case⦄ ⦃u = https_only⦄ ⦃d = one_digest⦄ ⦃k = no_clockwork⦄ route deny_config
unfolding decide AsksRefresh validate_monitor parse_strict_iso_timestamp
decide-refresh_iff_example =
    ((decide-refresh_iff ⦃e = lower_case⦄ ⦃u = https_only⦄ ⦃d = one_digest⦄ ⦃k = no_clockwork⦄ route
        old_entry now deny_config).0
      refl).0

abbrev stamp : ℕ → ℕ → Stamp
stamp month day = record {
  year = 2028;
  month = month;
  day = day;
  hour = 23;
  minute = 59;
  second = 59;
  fraction = 1 ∷ 2 ∷ 5 ∷ [];
  zone = utc;
}

is_valid_calendar_iff_example : is_valid_calendar (stamp 2 29) ≡ true ↔ IsInstant (stamp 2 29)
is_valid_calendar_iff_example = is_valid_calendar_iff (stamp 2 29)

match_stamp-write_stamp_example : match_stamp (write_stamp (stamp 2 29)) ≡ some (stamp 2 29)
match_stamp-write_stamp_example = match_stamp-write_stamp (stamp 2 29) (record {
  year_fits = ground arith;
  month_fits = ground arith;
  day_fits = ground arith;
  hour_fits = ground arith;
  minute_fits = ground arith;
  second_fits = ground arith;
  fraction_fits = refl;
  zone_fits = refl;
})
