-- ===== src/Examples/Scores.antt =====
-- The theorems on lib/score-candidates.js at concrete inputs.
use mathlib.Core.List.{Mem, Perm, Permᴰ, Pairwise, mem-cons, not-mem-nil}
use mathlib.Core.Logic.Or
use native.Mathlib.Nat.{ℕ_set}
use mathlib.Core.HLevel.{hedberg}
use view_limits.Base.{
  str_eq, eq_iff, arith, inl, inr, Bool-cases, ap, sym, ◌∙◌, Option, none, some, List, [], ◌∷◌,
  String, ◌≡◌, refl,
}
use view_limits.Value.{Value, str, arr, cons, nil, obj, field, end}
use view_limits.Score.{Scored, score_all, score_candidate, score_candidates, candidate_list}
use view_limits.Score.Facets.{score_task_fit, known_name, read_evidence}
use view_limits.Score.Price.{IsPriced, score_candidate-IsPriced}
use view_limits.Score.Ranking.{
  ComesBefore, HasDistinctIds, score_candidates-IsSorted, score_candidates_order,
}
use view_limits.Examples.{lower_case, no_clockwork, one_model, one_field, empty}

String_discrete : Discrete String
String_discrete a b = elim (Bool-cases (str_eq a b)) [
  | inl t ↦ yes ((eq_iff a b).0 t)
  | inr f ↦ no (λ q. ground (arith, f, (eq_iff a b).1 q))
]

String_set : IsSet String
String_set = hedberg String_discrete

Scored_set : IsSet Scored
Scored_set = hlevel (ℕ_set, String_set)

abbrev candidate : String → String → Value
candidate id tier = obj (field "id" (str id) (field "costTier" (str tier) end))

abbrev policy : Value
policy = one_field "preferences" (one_field "cost" (str "minimize"))

abbrev or_empty : Option (List Scored) → List Scored
or_empty none = []
or_empty (some xs) = xs

-- The cheaper candidate has the greater id.
abbrev given : Value
given = arr (cons (candidate "a" "high") (cons (candidate "b" "low") nil))

abbrev swapped : Value
swapped = arr (cons (candidate "b" "low") (cons (candidate "a" "high") nil))

abbrev score : Value → Option Scored
score c = score_candidate ⦃e = lower_case⦄ ⦃k = no_clockwork⦄ c empty policy one_model empty none

abbrev or_else_scored : Scored → Option Scored → Scored
or_else_scored s none = s
or_else_scored s (some t) = t

abbrev nothing : Scored
nothing = record {
  id = "";
  score = 0;
  max_score = 0;
  scored_weight = 0;
  dimensions = [];
  gaps = [];
  rationale = [];
}

abbrev first : Scored
first = or_else_scored nothing (score (candidate "a" "high"))

abbrev second : Scored
second = or_else_scored nothing (score (candidate "b" "low"))

score_candidate-IsPriced_example : IsPriced first
unfolding score_candidate score_task_fit known_name read_evidence
score_candidate-IsPriced_example =
    score_candidate-IsPriced ⦃e = lower_case⦄ ⦃k = no_clockwork⦄ (candidate "a" "high") empty policy
      one_model empty none first refl

both_scored : score_all score (candidate_list given) ≡ some (first ∷ second ∷ [])
unfolding score_all score_candidate score_task_fit known_name read_evidence
both_scored = refl

score_candidates-IsSorted_example :
    (out : List Scored) × (score_candidates ⦃e = lower_case⦄ ⦃k = no_clockwork⦄ given empty policy
        one_model empty none
      ≡ some out)
    × Perm out (first ∷ second ∷ [])
    × Pairwise ComesBefore out
score_candidates-IsSorted_example =
    score_candidates-IsSorted ⦃e = lower_case⦄ ⦃k = no_clockwork⦄ given empty policy one_model empty
      none (first ∷ second ∷ []) both_scored

distinct_ids : HasDistinctIds (first ∷ second ∷ [])
unfolding HasDistinctIds score_candidate score_task_fit known_name read_evidence
distinct_ids a b ma mb q =
    Or.elim (Scored_set a b) (mem-cons.0 ma)
      (λ pa.
        Or.elim (Scored_set a b) (mem-cons.0 mb) (λ pb. pa ∙ sym pb) (λ nb. apart pa (last nb) q))
      (λ na.
        Or.elim (Scored_set a b) (mem-cons.0 mb) (λ pb. sym (apart pb (last na) (sym q)))
          (λ nb. last na ∙ sym (last nb)))
  where
    last : {x : Scored} → Mem x (second ∷ []) → x ≡ second
    last m = Or.elim (Scored_set _ _) (mem-cons.0 m) (λ p. p) (λ n. absurd (not-mem-nil n))

    apart : {x y : Scored} → x ≡ first → y ≡ second → x.id ≡ y.id → x ≡ y
    apart p r same =
        ground (arith, ap (λ t. str_eq t "a") (sym (ap (λ s. s.id) p) ∙ same ∙ ap (λ s. s.id) r))

score_candidates_order_example :
    score_candidates ⦃e = lower_case⦄ ⦃k = no_clockwork⦄ swapped empty policy one_model empty none
    ≡ score_candidates ⦃e = lower_case⦄ ⦃k = no_clockwork⦄ given empty policy one_model empty none
score_candidates_order_example =
    score_candidates_order ⦃e = lower_case⦄ ⦃k = no_clockwork⦄ given swapped empty policy one_model
      empty none (first ∷ second ∷ []) (Permᴰ.swap refl refl) both_scored distinct_ids
