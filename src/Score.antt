-- ===== src/Score.antt =====
-- lib/score-candidates.js: the score of an eligible candidate and the ranking. `modelEntryFact`
-- of a candidate is the entry of the registry, or none.

pub mod Reasons
pub mod Facets
pub mod Scorers
pub mod Bounds
pub mod Price
pub mod Ranking
use Prim.Native.String
use view_limits.Base.{
  ℕ, zero, suc, ◌+◌, ◌*◌, Bool, true, false, not, ◌&&◌, ◌||◌, Option, none, some, List, [], ◌∷◌,
  ◌++◌, String, str_eq, if◌then◌else◌, ltb, leb, ◌==◌, map,
}
use view_limits.Base.Sort.{sort_by}
use view_limits.Base.Text.{Engine, is_blank, text_le}
use view_limits.Value.{Value, str, get, text_of, arr, items}
use view_limits.Registry.{Registry}
use view_limits.Gate.Time.{Clockwork}
use view_limits.Score.Reasons.{Reason, sort_reasons, reason_le, rank}
use view_limits.Score.Facets.{
  Status, scored, unresolved, Facet, Evidence, read_evidence, score_task_fit,
}
use view_limits.Score.Scorers.{
  score_harness_affinity, score_resource_pressure, score_cost_speed, score_continuity,
  score_review_independence,
}

-- A member of `dimensions`.
pub record Dimension : Type 0 where
  pub name : String
  pub status : Status
  pub weight : ℕ
  pub contribution : ℕ
  pub reasons : List Reason

-- A member of `unresolved`.
pub record Gap : Type 0 where
  pub reason : Reason
  pub dimension : String

pub record Scored : Type 0 where
  pub id : String
  pub score : ℕ
  pub max_score : ℕ
  pub scored_weight : ℕ
  pub dimensions : List Dimension
  pub gaps : List Gap
  pub rationale : List Reason

-- One turn of the loop over `DIMENSION_ORDER`: the name, its weight, and what its scorer gave.
pub record Turn : Type 0 where
  pub name : String
  pub weight : ℕ
  pub facet : Facet

abbrev pub is_scored : Status → Bool
is_scored scored = true
is_scored unresolved = false

unfoldable pub weighted : Turn → ℕ
weighted t = if is_scored t.facet.status then t.weight * t.facet.contribution else 0

unfoldable pub dimension_of : ⦃e : Engine⦄ → Turn → Dimension
unfolding weighted
dimension_of t = record {
  name = t.name;
  status = t.facet.status;
  weight = t.weight;
  contribution = weighted t;
  reasons = sort_reasons t.facet.reasons;
}

unfoldable pub total : List Turn → ℕ
unfolding weighted
total [] = 0
total (t ∷ ts) = weighted t + total ts

unfoldable pub total_weight : List Turn → ℕ
total_weight [] = 0
total_weight (t ∷ ts) = (if is_scored t.facet.status then t.weight else 0) + total_weight ts

unfoldable pub max_total : List Turn → ℕ
max_total [] = 0
max_total (t ∷ ts) = t.weight * 1000 + max_total ts

abbrev gaps_in : String → List Reason → List Gap
gaps_in name [] = []
gaps_in name (r ∷ rs) = record { reason = r; dimension = name } ∷ gaps_in name rs

abbrev gaps_of : List Turn → List Gap
gaps_of [] = []
gaps_of (t ∷ ts) =
    if is_scored t.facet.status then gaps_of ts else gaps_in t.name t.facet.reasons ++ gaps_of ts

abbrev rationale_of : List Turn → List Reason
rationale_of [] = []
rationale_of (t ∷ ts) = t.facet.reasons ++ rationale_of ts

-- The comparator of `unresolvedSorted`.
abbrev gap_le : Gap → Gap → Bool
gap_le a b =
    if rank a.reason.code == rank b.reason.code
    then (if str_eq a.reason.scope b.reason.scope
        then text_le a.dimension b.dimension
        else text_le a.reason.scope b.reason.scope)
    else ltb (rank a.reason.code) (rank b.reason.code)

abbrev pub id_of : Option String → String
id_of none = "candidate"
id_of (some id) = id

abbrev turn : String → ℕ → Facet → Turn
turn name weight facet = record { name = name; weight = weight; facet = facet }

module _ ⦃e : Engine⦄ ⦃k : Clockwork⦄ where
  -- `DIMENSION_ORDER` with `WEIGHTS`, given the first facet, whose scorer may throw.
  unfoldable pub turns_of : Registry → Evidence → Facet → List Turn
  turns_of reg x task_fit =
      turn "taskFit" 4 task_fit
      ∷ turn "harnessAffinity" 2 (score_harness_affinity reg x)
      ∷ turn "resourcePressure" 3 (score_resource_pressure x)
      ∷ turn "costSpeed" 1 (score_cost_speed x)
      ∷ turn "continuity" 2 (score_continuity x)
      ∷ turn "reviewIndependence" 1 (score_review_independence reg x)
      ∷ []

  unfoldable pub scored_of : Value → List Turn → Scored
  unfolding dimension_of total total_weight max_total
  scored_of candidate ts = record {
    id = id_of (text_of (get "id" candidate));
    score = total ts;
    max_score = max_total ts;
    scored_weight = total_weight ts;
    dimensions = map dimension_of ts;
    gaps = sort_by gap_le (gaps_of ts);
    rationale = sort_reasons (rationale_of ts);
  }

  unfoldable pub scored_with : Value → Registry → Evidence → Option Facet → Option Scored
  unfolding turns_of scored_of
  scored_with candidate reg x none = none
  scored_with candidate reg x (some facet) = some (scored_of candidate (turns_of reg x facet))

  -- `scoreCandidate(candidate, { profile, policy, registry, caller, now })`: none where it throws.
  unfoldable pub score_candidate :
      Value → Value → Value → Registry → Value → Option ℕ → Option Scored
  unfolding scored_with
  score_candidate candidate profile policy reg caller now =
      let x = read_evidence candidate profile policy reg caller now in
      scored_with candidate reg x (score_task_fit x)

-- The comparator of the ranking.
abbrev pub scored_le : Scored → Scored → Bool
scored_le a b = if a.score == b.score then text_le a.id b.id else ltb b.score a.score

abbrev pub push_scored : Option Scored → Option (List Scored) → Option (List Scored)
push_scored none rest = none
push_scored (some s) none = none
push_scored (some s) (some rest) = some (s ∷ rest)

unfoldable pub score_all : (Value → Option Scored) → List Value → Option (List Scored)
score_all score [] = some []
score_all score (c ∷ cs) = push_scored (score c) (score_all score cs)

abbrev pub ranked : Option (List Scored) → Option (List Scored)
ranked none = none
ranked (some list) = some (sort_by scored_le list)

-- `Array.isArray(candidates) ? candidates : []`.
abbrev pub candidate_list : Value → List Value
candidate_list (arr vs) = items vs
candidate_list _ = []

-- `scoreCandidates(candidates, opts)`.
unfoldable pub score_candidates :
    ⦃e : Engine⦄
    → ⦃k : Clockwork⦄ → Value
    → Value
    → Value
    → Registry
    → Value
    → Option ℕ
    → Option (List Scored)
unfolding score_all score_candidate
score_candidates candidates profile policy reg caller now =
    ranked
      (score_all (λ c. score_candidate c profile policy reg caller now) (candidate_list candidates))
