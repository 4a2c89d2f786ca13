-- ===== src/Examples/Caches.antt =====
-- The theorems on the entries of lib/cache.js and lib/collector.js at concrete inputs.
use view_limits.Base.{
  ℕ, Bool, true, false, Option, none, some, String, ◌≡◌, ◌≢◌, refl, sym, ap, ◌∙◌, arith, Bool-cases,
  inl, inr, if◌then◌else◌, ◌==◌, ==_iff,
}
use view_limits.Value.{Value, Fields, num, finite, str, obj, field, end}
use view_limits.Base.Text.{trim}
use view_limits.Monitor.{is_built_in_recipe}
use view_limits.Monitor.Secrets.{is_secret_field}
use view_limits.Monitor.Validate.{validate_monitor}
use view_limits.Monitor.Revision.{is_config_obsolete}
use view_limits.Gate.Time.{parse_strict_iso_timestamp}
use view_limits.Gate.Decide.{decide, is_fresh_entry}
use view_limits.Gate.Open.{Denies}
use view_limits.Cache.Entry.{
  Dates, read_cache, entry_for, expiry_of, recovery_bounded_fresh_until, is_bounded,
}
use view_limits.Cache.Readable.{IsReadable, read_cache-IsReadable}
use view_limits.Cache.Denied.{IsReadBack, IsHeld, entry_for-IsHeld}
use view_limits.Cache.Agrees.{IsExtended, IsStrict, is_fresh_entry_iff}
use view_limits.Examples.{lower_case, no_clockwork, https_only, one_digest, one_field}

-- The start of 2026 and of 2030.
abbrev observed : ℕ
observed = 63934444800000

abbrev recovered : ℕ
recovered = 64060675200000

abbrev parse_text : Value → Option ℕ
parse_text (str s) = parse_strict_iso_timestamp ⦃k = no_clockwork⦄ s
parse_text _ = none

abbrev write_date : ℕ → Option String
write_date t =
    if t == observed
    then some "2026-01-01T00:00:00Z"
    else if t == recovered
    then some "2030-01-01T00:00:00Z"
    else none

abbrev two_dates : Dates
two_dates = record { parse_date = parse_text; to_iso_string = write_date; shift = λ now ttl. none }

reads_observed :
    parse_strict_iso_timestamp ⦃k = no_clockwork⦄ "2026-01-01T00:00:00Z" ≡ some observed
unfolding parse_strict_iso_timestamp
reads_observed = refl

reads_recovered :
    parse_strict_iso_timestamp ⦃k = no_clockwork⦄ "2030-01-01T00:00:00Z" ≡ some recovered
unfolding parse_strict_iso_timestamp
reads_recovered = refl

written_first :
    (b : Bool) (x s : String) (rest : Option String)
    → b ≡ true
    → (if b then some x else rest) ≡ some s
    → x ≡ s
written_first true x s rest q h = ground (arith, h)
written_first false x s rest q h = absurd (ground arith)

written_rest :
    (b : Bool) (s : String) (o rest : Option String)
    → b ≡ false
    → (if b then o else rest) ≡ some s
    → rest ≡ some s
written_rest false s o rest q h = h
written_rest true s o rest q h = absurd (ground arith)

nothing : {s : String} → none ≢ some s
nothing h = ground (arith, h)

same_instant :
    (x s : String) (n t u : ℕ)
    → parse_text (str x) ≡ some n
    → t ≡ n
    → x ≡ s
    → parse_text (str s) ≡ some u
    → u ≡ t
same_instant x s n t u reads q same h =
    ground (arith, sym reads ∙ ap (λ v. parse_text (str v)) same ∙ h, q)

reads_back :
    (s : String) (t u : ℕ)
    → write_date t ≡ some s
    → parse_strict_iso_timestamp ⦃k = no_clockwork⦄ s ≡ some u
    → u ≡ t
reads_back s t u w p = elim (Bool-cases (t == observed)) [
  | inl a ↦
      same_instant _ s observed t u reads_observed ((==_iff t observed).0 a)
        (written_first (t == observed) _ s _ a w) p
  | inr f ↦
      let v = written_rest (t == observed) s _ _ f w in
      elim (Bool-cases (t == recovered)) [
        | inl a ↦
            same_instant _ s recovered t u reads_recovered ((==_iff t recovered).0 a)
              (written_first (t == recovered) _ s _ a v) p
        | inr g ↦ absurd (nothing (written_rest (t == recovered) s _ _ g v))
      ]
]

two_dates-IsReadBack : IsReadBack ⦃k = no_clockwork⦄ two_dates
two_dates-IsReadBack = record { same = reads_back }

two_dates-IsExtended : IsExtended ⦃k = no_clockwork⦄ two_dates
two_dates-IsExtended = record { same = λ s t h. h }

abbrev custom : Fields
custom = field "id" (str "r1") (
    field "ttlSeconds" (num (finite false 200000000 0))
      (field "monitor" (one_field "recipe" (str "acme")) end))

abbrev used_up : Value
used_up = obj (field "state" (str "exhausted") (field "resetAt" (str "2030-01-01T00:00:00Z") end))

abbrev made : Value
made = obj (
    field "routeId" (str "r1") (
      field "observedAt" (str "2026-01-01T00:00:00Z") (
        field "freshUntil" (str "2030-01-01T00:00:00Z")
          (field "source" (str "kimi") (field "status" used_up end)))))

abbrev deny_config : Value
deny_config = one_field "gate" (one_field "mode" (str "deny"))

entry_for-IsHeld_example : IsHeld ⦃d = two_dates⦄ custom used_up observed observed
unfolding entry_for expiry_of recovery_bounded_fresh_until is_bounded decide Denies validate_monitor
    parse_strict_iso_timestamp is_config_obsolete is_secret_field is_built_in_recipe trim
entry_for-IsHeld_example =
    entry_for-IsHeld ⦃e = lower_case⦄ ⦃u = https_only⦄ ⦃g = one_digest⦄ ⦃k = no_clockwork⦄
      ⦃d = two_dates⦄ two_dates-IsReadBack custom used_up (str "kimi") observed made (some custom)
      (obj custom) observed deny_config refl refl

is_fresh_entry_iff_example : IsStrict ⦃k = no_clockwork⦄ made
unfolding parse_strict_iso_timestamp is_fresh_entry
is_fresh_entry_iff_example =
    ((is_fresh_entry_iff ⦃e = lower_case⦄ ⦃u = https_only⦄ ⦃g = one_digest⦄ ⦃k = no_clockwork⦄
        ⦃d = two_dates⦄ two_dates-IsExtended made observed).0
      refl).1

read_cache-IsReadable_example :
    IsReadable
      (some (one_field "routes" (one_field "r1" made)))
      (read_cache (some (one_field "routes" (one_field "r1" made))))
read_cache-IsReadable_example =
    read_cache-IsReadable (some (one_field "routes" (one_field "r1" made)))
