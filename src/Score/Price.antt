-- ===== src/Score/Price.antt =====
-- lib/score-candidates.js: what the score of a candidate is made of.
use mathlib.Core.List.{Memᴰ}
use native.Mathlib.Nat.{mul-le-mul_left}
use view_limits.Base.{
  ℕ, ◌+◌, ◌*◌, ◌≤◌, Bool, true, ◌&&◌, Option, some, List, [], ◌∷◌, if◌then◌else◌, map, ◌≡◌, refl,
  sym, ap, ◌∙◌, arith, Option-cases, inl, inr,
}
use view_limits.Base.Text.{Engine}
use view_limits.Value.{Value}
use view_limits.Registry.{Registry}
use view_limits.Gate.Time.{Clockwork}
use view_limits.Score.Facets.{unresolved, Facet, Evidence, read_evidence, score_task_fit}
use view_limits.Score.Bounds.{
  within, some_injective, task_fit-within, harness-within, pressure-within, cost_speed-within,
  continuity-within, independence-within,
}
use view_limits.Score.{
  Dimension, Scored, Turn, weighted, dimension_of, total, total_weight, max_total, turns_of,
  scored_of, score_candidate, is_scored, scored_with,
}

unfoldable all_within : List Turn → Bool
unfolding within
all_within [] = true
all_within (t ∷ ts) = within t.facet && all_within ts

pub sum_of : List Dimension → ℕ
sum_of [] = 0
sum_of (d ∷ ds) = d.contribution + sum_of ds

-- No dimension adds more than a thousand times its weight, and an unresolved one adds nothing.
pub record IsFair (d : Dimension) : Type 0 where
  pub at_most : d.contribution ≤ d.weight * 1000
  pub unresolved_adds_nothing : d.status ≡ unresolved → d.contribution ≡ 0

-- The score is the sum over the dimensions, of which at most 13 units of weight are scored.
pub record IsPriced (s : Scored) : Type 0 where
  pub max_score : s.max_score ≡ 13000
  pub sum : s.score ≡ sum_of s.dimensions
  pub at_most : s.score ≤ s.scored_weight * 1000
  pub weight : s.scored_weight ≤ 13
  pub fair : (d : Dimension) → Memᴰ d s.dimensions → IsFair d

module _ ⦃e : Engine⦄ where
  total-sum_of : (ts : List Turn) → total ts ≡ sum_of (map dimension_of ts)
  unfolding total sum_of dimension_of
  total-sum_of [] = refl
  total-sum_of (t ∷ ts) = ap (λ n. weighted t + n) (total-sum_of ts)

weighted_le :
    (t : Turn)
    → within t.facet ≡ true
    → weighted t ≤ (if is_scored t.facet.status then t.weight else 0) * 1000
unfolding weighted within
weighted_le t h =
    ground
      (arith, h, mul-le-mul_left {m = t.facet.contribution} {n = 1000} t.weight (ground (arith, h)))

total_le : (ts : List Turn) → all_within ts ≡ true → total ts ≤ total_weight ts * 1000
unfolding total total_weight all_within
total_le [] h = ground arith
total_le (t ∷ ts) h =
    ground (arith, weighted_le t (ground (arith, h)), total_le ts (ground (arith, h)))

module _ ⦃e : Engine⦄ where
  dimension-IsFair : (t : Turn) → within t.facet ≡ true → IsFair (dimension_of t)
  unfolding dimension_of weighted
  dimension-IsFair t h = record {
    at_most = ground (arith, weighted_le t h);
    unresolved_adds_nothing = λ q. ground (arith, q);
  }

  dimensions-IsFair :
      (ts : List Turn) (d : Dimension)
      → Memᴰ d (map dimension_of ts)
      → all_within ts ≡ true
      → IsFair d
  unfolding all_within
  dimensions-IsFair [] d m h = elim m [ ]
  dimensions-IsFair (t ∷ ts) d (Memᴰ.head q) h = rw q (dimension-IsFair t (ground (arith, h)))
  dimensions-IsFair (t ∷ ts) d (Memᴰ.tail m) h = dimensions-IsFair ts d m (ground (arith, h))

  total_weight_le :
      (candidate : Value) (reg : Registry) (x : Evidence) (f : Facet)
      → ⦃k : Clockwork⦄ → total_weight (turns_of reg x f) ≤ 13
  unfolding total_weight turns_of
  total_weight_le candidate reg x f = ground arith

  turns-within :
      ⦃k : Clockwork⦄
      → (reg : Registry) (x : Evidence) (f : Facet) → score_task_fit x ≡ some f
      → all_within (turns_of reg x f) ≡ true
  unfolding all_within turns_of
  turns-within reg x f h = ground (
    arith,
    task_fit-within x f h,
    harness-within reg x,
    pressure-within x,
    cost_speed-within x,
    continuity-within x,
    independence-within reg x,
  )

  scored-IsPriced :
      ⦃k : Clockwork⦄
      → (candidate : Value) (reg : Registry) (x : Evidence) (f : Facet) → score_task_fit x ≡ some f
      → IsPriced (scored_of candidate (turns_of reg x f))
  unfolding scored_of max_total turns_of
  scored-IsPriced candidate reg x f h =
      let bounded = turns-within reg x f h in
      record {
        max_score = refl;
        sum = total-sum_of (turns_of reg x f);
        at_most = total_le (turns_of reg x f) bounded;
        weight = total_weight_le candidate reg x f;
        fair = λ d m. dimensions-IsFair (turns_of reg x f) d m bounded;
      }

  -- The score of a candidate is the sum of what its dimensions add, each at most a thousand times
  -- its weight and nothing where it is unresolved; it is at most a thousand times the weight that
  -- was scored, which is at most 13, and the maximum it is given with is 13000.
  pub score_candidate-IsPriced :
      ⦃k : Clockwork⦄
      → (candidate profile policy : Value) (reg : Registry) (caller : Value) (now : Option ℕ)
        (s : Scored)
      → score_candidate candidate profile policy reg caller now ≡ some s
      → IsPriced s
  unfolding score_candidate scored_with
  score_candidate-IsPriced candidate profile policy reg caller now s h =
      let x = read_evidence candidate profile policy reg caller now in
      elim (Option-cases (score_task_fit x)) [
        | inl n ↦ ground (arith, ap (scored_with candidate reg x) (sym n) ∙ h)
        | inr (f, q) ↦
            rw (← some_injective (sym (ap (scored_with candidate reg x) q) ∙ h))
              (scored-IsPriced candidate reg x f q)
      ]
