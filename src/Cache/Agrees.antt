-- ===== src/Cache/Agrees.antt =====
-- lib/cache.js with lib/gate.js: the two tests of freshness.
use view_limits.Base.{ℕ, true, some, String, ◌≡◌, ◌↔◌, arith}
use view_limits.Base.Text.{Engine}
use view_limits.Monitor.Validate.{Url}
use view_limits.Monitor.Revision.{Digest}
use view_limits.Value.{Value, str, get, is_plain_object}
use view_limits.Gate.Time.{Clockwork, parse_strict_iso_timestamp}
use view_limits.Gate.Decide.{is_fresh_entry}
use view_limits.Gate.Usable.{IsFresh-to, fresh-from, no_blank}
use view_limits.Cache.Entry.{Dates, is_fresh}

-- `Date.parse` reads every text of the strict form, at the same instant.
pub record IsExtended ⦃k : Clockwork⦄ (d : Dates) : Type 0 where
  pub same :
      (s : String) (t : ℕ) → parse_strict_iso_timestamp s ≡ some t → d.parse_date (str s) ≡ some t

-- An entry whose expiry is a strict timestamp.
pub record IsStrict ⦃k : Clockwork⦄ (entry : Value) : Type 0 where
  pub is_object : is_plain_object entry ≡ true
  pub text : String
  pub is_text : get "freshUntil" entry ≡ str text
  pub instant : ℕ
  pub parses : parse_strict_iso_timestamp text ≡ some instant

module _ ⦃e : Engine⦄ ⦃u : Url⦄ ⦃g : Digest⦄ ⦃k : Clockwork⦄ ⦃d : Dates⦄ where
  agrees-to :
      IsExtended d
      → (entry : Value) (now : ℕ) → is_fresh_entry entry now ≡ true
      → (is_fresh entry now ≡ true) × IsStrict entry
  unfolding is_fresh
  agrees-to x entry now h =
      let f = IsFresh-to entry now h in
      (
        ground (
          arith,
          f.is_text,
          x.same f.text f.until f.parses,
          no_blank f.text f.until f.parses,
          f.holds,
        ),
        record {
          is_object = f.is_object;
          text = f.text;
          is_text = f.is_text;
          instant = f.until;
          parses = f.parses;
        },
      )

  agrees-from :
      IsExtended d
      → (entry : Value) (now : ℕ) → is_fresh entry now ≡ true
      → IsStrict entry
      → is_fresh_entry entry now ≡ true
  unfolding is_fresh
  agrees-from x entry now h s = fresh-from entry now (record {
    text = s.text;
    until = s.instant;
    is_object = s.is_object;
    is_text = s.is_text;
    parses = s.parses;
    holds = ground (arith, h, s.is_text, x.same s.text s.instant s.parses);
  })

  -- Where `Date.parse` reads each text of the strict form as the gate does: an entry is fresh to the
  -- gate exactly when it is fresh to the reports and its expiry is a text of the strict form.
  pub is_fresh_entry_iff :
      IsExtended d
      → (entry : Value) (now : ℕ)
      → (is_fresh_entry entry now ≡ true) ↔ ((is_fresh entry now ≡ true) × IsStrict entry)
  is_fresh_entry_iff x entry now = (agrees-to x entry now, λ (h, s). agrees-from x entry now h s)
