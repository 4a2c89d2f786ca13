-- ===== src/Recommend/Outcome.antt =====
-- lib/recommend.js: what the advice holds, and how its parts are made from the ranking.
use view_limits.Base.{
  ℕ, suc, Bool, Option, none, some, List, [], ◌∷◌, ◌++◌, String, str_eq, if◌then◌else◌, map, leb,
}
use Prim.Native.String
use view_limits.Base.Sort.{sort_by}
use view_limits.Base.Text.{text_le}
use view_limits.Value.{Value, null, str, obj, Fields, end, field, get}
use view_limits.Facts.{Fact, candidate_fact}
use view_limits.Score.{Scored, score_candidates}
use view_limits.Score as Scores
use view_limits.Score.Reasons.{Reason, Code, rank}
use view_limits.Profile.Dimensions.{Finding}
use view_limits.Profile.Build.{Profile, Entry, Gap}
use view_limits.Readiness.{Readiness}
use view_limits.Recommend.Candidates.{Candidate, Judged, find_candidate}

pub data JevStatus : Type 0 where
  dormant unreachable applied : JevStatus

-- What becomes of a suggested candidate.
pub data Suggestion : Type 0 where
  no_suggestion : Suggestion
  unknown_candidate : (id : String) → Suggestion
  ineligible_candidate : (id : String) → Suggestion
  advisory : (id : String) → Suggestion

-- What is shown only, such as the details of a failure, is left out.
pub record JevSection : Type 0 where
  pub attempted : Bool
  pub status : JevStatus
  pub reason : Option String
  pub suggestion : Suggestion

pub record Parameters : Type 0 where
  pub harness : Fact
  pub model : Fact
  pub route_id : Fact
  pub route_state : Fact
  pub profile : Fact

pub record Recommendation : Type 0 where
  pub candidate_id : String
  pub score : ℕ
  pub max_score : ℕ
  pub parameters : Parameters
  pub rationale : List Reason
  pub alternatives : List Scored

-- An element of `unresolved`: its code is a dimension's, or a scorer's.
pub data MissingCode : Type 0 where
  dimension_unresolved : (reason : Option String) → MissingCode
  facet_unresolved : Code → MissingCode

pub record Missing : Type 0 where
  pub scope : String
  pub code : MissingCode

pub record Advice : Type 0 where
  pub readiness : Readiness
  pub jev : JevSection
  pub task_profile : Profile
  pub recommendation : Option Recommendation
  pub scored : List Scored
  pub undecided : List Judged
  pub rejected : List Judged
  pub missing : List Missing

-- A finding as `scoreCandidates` reads it.
abbrev text_or_null : Option String → Value
text_or_null none = null
text_or_null (some s) = str s

abbrev finding_value : Finding → Value
finding_value f = obj (
    field "value" (text_or_null f.word) (
      field "provenance" (str f.provenance) (
        field "source" (text_or_null f.source) (
          field "observedAt" (text_or_null f.observed_at) (
            field "freshUntil" (text_or_null f.fresh_until)
              (field "reason" (text_or_null f.reason) end))))))

findings_value : List Entry → Fields
findings_value [] = end
findings_value (x ∷ xs) = field x.name (finding_value x.finding) (findings_value xs)

unfoldable pub profile_value : Profile → Value
unfolding findings_value
profile_value p = obj (field "dimensions" (obj (findings_value p.findings)) end)

-- `paramFact(input)`, which is `candidateFact` of lib/eligibility.js.
unfoldable pub param_fact : Value → Fact
param_fact input = candidate_fact input

unfoldable pub parameters_of : Value → Parameters
unfolding param_fact
parameters_of source =
    let route = get "route" source in
    record {
      harness = param_fact (get "harness" source);
      model = param_fact (get "model" source);
      route_id = param_fact (get "id" route);
      route_state = param_fact (get "state" route);
      profile = param_fact (get "profile" source);
    }

abbrev pub source_of : Option Value → Value
source_of none = obj end
source_of (some v) = v

-- `recommendation`, from the ranking and the eligible candidates.
unfoldable pub top_of : List Scored → List Candidate → Option Recommendation
unfolding parameters_of
top_of [] eligible = none
top_of (top ∷ rest) eligible = some (record {
  candidate_id = top.id;
  score = top.score;
  max_score = top.max_score;
  parameters = parameters_of (source_of (find_candidate top.id eligible));
  rationale = top.rationale;
  alternatives = rest;
})

abbrev dimension_missing : Gap → Missing
dimension_missing g = record {
  scope = String.◌++◌ "task-profile." g.dimension;
  code = dimension_unresolved g.reason;
}

abbrev facet_missing : String → Scores.Gap → Missing
facet_missing id g = record {
  scope = String.◌++◌ "candidate:" (String.◌++◌ id (String.◌++◌ "." g.dimension));
  code = facet_unresolved g.reason.code;
}

abbrev scored_missing : List Scored → List Missing
scored_missing [] = []
scored_missing (s ∷ ss) = map (facet_missing s.id) s.gaps ++ scored_missing ss

-- Codes in the order of their texts; the two kinds of code never have one scope.
abbrev code_rank : MissingCode → ℕ
code_rank (dimension_unresolved r) = 0
code_rank (facet_unresolved c) = suc (rank c)

abbrev missing_le : Missing → Missing → Bool
missing_le a b =
    if str_eq a.scope b.scope
    then leb (code_rank a.code) (code_rank b.code)
    else text_le a.scope b.scope

unfoldable pub missing_of : Profile → List Scored → List Missing
missing_of p ss = sort_by missing_le (map dimension_missing p.gaps ++ scored_missing ss)
