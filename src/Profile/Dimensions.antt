-- ===== src/Profile/Dimensions.antt =====
-- lib/task-profile.js: the dimensions with their vocabularies, and one value read as a fact.
use view_limits.Base.{
  Bool, true, false, not, ◌&&◌, ◌||◌, Option, none, some, List, [], ◌∷◌, String, str_eq,
  if◌then◌else◌, includes,
}
use view_limits.Base.Text.{Engine}
use view_limits.Value.{
  Value, undefined, null, obj, get_field, has_field, is_nullish, text_of, Fields,
}
use view_limits.Facts.{norm, is_the_text}

pub record Dimension : Type 0 where
  pub name : String
  pub words : List String

-- `DIMENSIONS`, in the order of their declaration.
unfoldable pub dimensions : List Dimension
dimensions =
    record {
      name = "taskKind";
      words =
          "code" ∷ "review" ∷ "planning" ∷ "research" ∷ "documentation" ∷ "operations" ∷ "mixed"
          ∷ [];
    }
    ∷ record { name = "exploration"; words = "closed" ∷ "scoped" ∷ "open" ∷ [] }
    ∷ record { name = "specification"; words = "precise" ∷ "partial" ∷ "vague" ∷ [] }
    ∷ record { name = "reasoning"; words = "low" ∷ "moderate" ∷ "deep" ∷ [] }
    ∷ record { name = "risk"; words = "low" ∷ "moderate" ∷ "high" ∷ [] }
    ∷ record { name = "autonomy"; words = "supervised" ∷ "standard" ∷ "autonomous" ∷ [] }
    ∷ record {
      name = "verification";
      words = "none" ∷ "self-check" ∷ "automated" ∷ "independent-review" ∷ [];
    }
    ∷ record { name = "executionStyle"; words = "interactive" ∷ "batch" ∷ "long-running" ∷ [] }
    ∷ []

-- A fact about a dimension. Its provenance is a text, since a layer may carry any.
pub record Finding : Type 0 where
  pub word : Option String
  pub provenance : String
  pub source : Option String
  pub observed_at : Option String
  pub fresh_until : Option String
  pub reason : Option String

abbrev pub field_absent : String
field_absent = "task-profile-field-absent"

abbrev pub value_invalid : String
value_invalid = "task-profile-value-invalid"

-- `unknown(reason)`.
abbrev pub unresolved : String → Finding
unresolved why = record {
  word = none;
  provenance = "unknown";
  source = none;
  observed_at = none;
  fresh_until = none;
  reason = some why;
}

abbrev is_there : Option String → Bool
is_there none = false
is_there (some s) = true

-- `factIsKnown(f)`.
unfoldable pub is_resolved : Finding → Bool
is_resolved f = not (str_eq f.provenance "unknown") && is_there f.word

-- `o !== null ? o : other`.
abbrev pub or_text : Option String → String → String
or_text none other = other
or_text (some s) other = s

-- `PROVENANCES.has(p) ? p : 'observed'`.
abbrev known_provenance : Value → String
known_provenance v =
    if is_the_text v "configured"
    then "configured"
    else if is_the_text v "unknown"
    then "unknown"
    else "observed"

-- `n === null || !vocab.includes(n) ? null : n`.
abbrev pub in_words : List String → Option String → Option String
in_words words none = none
in_words words (some n) = if includes words n then some n else none

abbrev given : Option String → String → String → Finding
given none provenance source = unresolved value_invalid
given (some n) provenance source = record {
  word = some n;
  provenance = provenance;
  source = some source;
  observed_at = none;
  fresh_until = none;
  reason = none;
}

abbrev from_fact : Option String → Fields → String → Finding
from_fact none fs source = unresolved value_invalid
from_fact (some n) fs source = record {
  word = some n;
  provenance = known_provenance (get_field "provenance" fs);
  source = some (or_text (text_of (get_field "source" fs)) source);
  observed_at = text_of (get_field "observedAt" fs);
  fresh_until = text_of (get_field "freshUntil" fs);
  reason = none;
}

module _ ⦃e : Engine⦄ where
  -- The word of the vocabulary that a value names.
  unfoldable pub word_of : List String → Value → Option String
  word_of words v = in_words words (norm v)

  -- `dimensionFact(input, vocab, { provenance, source })`.
  unfoldable pub dimension_fact : Value → List String → String → String → Finding
  unfolding word_of
  dimension_fact undefined words provenance source = unresolved field_absent
  dimension_fact null words provenance source = unresolved field_absent
  dimension_fact (obj fs) words provenance source =
      if not (has_field "value" fs)
        || is_nullish (get_field "value" fs)
        || is_the_text (get_field "provenance" fs) "unknown"
      then unresolved (or_text (text_of (get_field "reason" fs)) field_absent)
      else from_fact (word_of words (get_field "value" fs)) fs source
  dimension_fact v words provenance source = given (word_of words v) provenance source
