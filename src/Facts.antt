-- ===== src/Facts.antt =====
-- Facts: a value with where it comes from. `fieldFact` of lib/score-candidates.js,
-- `candidateFact` of lib/eligibility.js, and what the two modules read from a fact.
use view_limits.Base.{
  Bool, true, false, not, ◌&&◌, ◌||◌, Option, none, some, List, [], ◌∷◌, ◌++◌, String, str_eq,
  if◌then◌else◌, includes,
}
use mathlib.Core.Option
use Prim.Native.String
use view_limits.Base.Text.{is_blank, fold, Engine}
use view_limits.Value.{
  Value, undefined, null, str, arr, obj, get_field, has_field, is_nullish, text_of, items, Fields,
}

pub data Provenance : Type 0 where
  observed configured unknown_provenance : Provenance

-- The value and its provenance decide; the other fields are passed on with it.
pub record Fact : Type 0 where
  pub value : Value
  pub provenance : Provenance
  pub source : Option String
  pub observed_at : Option String
  pub fresh_until : Option String
  pub reason : Option String

unfoldable pub unknown : String → Fact
unknown why = record {
  value = null;
  provenance = unknown_provenance;
  source = none;
  observed_at = none;
  fresh_until = none;
  reason = some why;
}

unfoldable pub observed_fact : Value → String → Fact
observed_fact v source = record {
  value = v;
  provenance = observed;
  source = some source;
  observed_at = none;
  fresh_until = none;
  reason = none;
}

abbrev or_text : Option String → String → String
or_text none other = other
or_text (some s) other = s

-- `v === s`, for a text `s`.
abbrev pub is_the_text : Value → String → Bool
is_the_text (str t) s = str_eq t s
is_the_text _ s = false

-- `PROVENANCES.has(p) ? p : 'observed'`, where `p` is not 'unknown'.
abbrev provenance_of : Value → Provenance
provenance_of v = if is_the_text v "configured" then configured else observed

-- The branch for an input that has the shape of a fact.
from_fields : Fields → String → Fact
unfolding unknown
from_fields fs source =
    if not (has_field "value" fs)
      || is_nullish (get_field "value" fs)
      || is_the_text (get_field "provenance" fs) "unknown"
    then unknown (or_text (text_of (get_field "reason" fs)) (String.◌++◌ source "-fact-absent"))
    else record {
      value = get_field "value" fs;
      provenance = provenance_of (get_field "provenance" fs);
      source = some (or_text (text_of (get_field "source" fs)) source);
      observed_at = text_of (get_field "observedAt" fs);
      fresh_until = text_of (get_field "freshUntil" fs);
      reason = none;
    }

-- `fieldFact(input, source)`.
unfoldable pub field_fact : Value → String → Fact
unfolding from_fields unknown observed_fact
field_fact undefined source = unknown (String.◌++◌ source "-fact-absent")
field_fact null source = unknown (String.◌++◌ source "-fact-absent")
field_fact (obj fs) source = from_fields fs source
field_fact v source = observed_fact v source

-- `candidateFact(input)` is the same function at the source 'candidate'.
unfoldable pub candidate_fact : Value → Fact
unfolding field_fact
candidate_fact input = field_fact input "candidate"

abbrev pub is_known_provenance : Provenance → Bool
is_known_provenance unknown_provenance = false
is_known_provenance _ = true

unfoldable pub fact_is_known : Fact → Bool
fact_is_known f = is_known_provenance f.provenance && not (is_nullish f.value)

unfoldable pub known_string : Fact → Option String
unfolding fact_is_known
known_string f = if fact_is_known f then text_of f.value else none

module _ ⦃e : Engine⦄ where
  -- `norm(v)`.
  unfoldable pub norm : Value → Option String
  norm v = Option.map fold (text_of v)

  -- `if (n) out.add(n)` and `if (n && !out.includes(n)) out.push(n)`, with `n = norm(v)`.
  unfoldable pub add_name : Value → List String → List String
  unfolding norm
  add_name v out = elim (norm v) [
    | none ↦ out
    | some n ↦ if is_blank n || includes out n then out else out ++ n ∷ []
  ]

  unfoldable pub add_names : List Value → List String → List String
  unfolding add_name
  add_names [] out = out
  add_names (v ∷ vs) out = add_names vs (add_name v out)

  abbrev names_in : Value → Option (List String)
  names_in (arr vs) = some (add_names (items vs) [])
  names_in _ = none

  -- `knownStringSet(f)`.
  unfoldable pub known_string_set : Fact → Option (List String)
  unfolding fact_is_known add_names
  known_string_set f = if fact_is_known f then names_in f.value else none
