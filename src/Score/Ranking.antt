-- ===== src/Score/Ranking.antt =====
-- lib/score-candidates.js: the order of the ranking.
use mathlib.Core.List.{Mem, Perm, Permᴰ, Pairwise}
use mathlib.Core.List.Perm
use mathlib.Core.List.Pairwise
use view_limits.Base.{
  ℕ, Option, none, some, List, ◌∷◌, ◌≡◌, refl, sym, ap, ◌∙◌, arith, ◌<◌, ◌==◌, ◌⊎◌, inl, inr,
  Bool-cases, true,
}
use view_limits.Base.Sort.{sort_by, sort_by-perm, IsTotal, sort_by-IsSorted, NoTies, sort_by_order}
use view_limits.Base.Text.{Engine, text_le_total, text_le_antisymm, text_le_trans, text_le}
use view_limits.Value.{Value}
use view_limits.Registry.{Registry}
use view_limits.Gate.Time.{Clockwork}
use view_limits.Score.Bounds.{some_injective}
use view_limits.Score.{
  Scored, scored_le, score_all, push_scored, ranked, candidate_list, score_candidate,
  score_candidates,
}

scored_le-IsTotal : IsTotal scored_le
scored_le-IsTotal = record {
  total = λ a b h. ground (arith, h, text_le_total a.id b.id);
  trans = λ a b c h j. ground (arith, h, j, text_le_trans a.id b.id c.id);
}

-- Candidates with one id are one candidate.
unfoldable pub HasDistinctIds : List Scored → Type 0
HasDistinctIds xs = (a b : Scored) → Mem a xs → Mem b xs → a.id ≡ b.id → a ≡ b

no_ties : (xs : List Scored) → HasDistinctIds xs → NoTies scored_le scored_le-IsTotal xs
unfolding HasDistinctIds
no_ties xs d a b ma mb h j =
    d a b ma mb (text_le_antisymm a.id b.id (ground (arith, h, j)) (ground (arith, h, j)))

module _ (score : Value → Option Scored) where
  pub pushed :
      (o : Option Scored) (r : Option (List Scored)) (xs : List Scored)
      → push_scored o r ≡ some xs
      → (s : Scored) × (rest : List Scored) × (o ≡ some s) × (r ≡ some rest) × (xs ≡ s ∷ rest)
  pushed none r xs h = ground (arith, h)
  pushed (some s) none xs h = ground (arith, h)
  pushed (some s) (some rest) xs h = (s, rest, refl, refl, sym (some_injective h))

  -- Scoring a rearranged list rearranges the scores.
  all-perm :
      {cs ds : List Value}
      → Permᴰ cs ds
      → (xs : List Scored) → score_all score cs ≡ some xs
      → (ys : List Scored) × (score_all score ds ≡ some ys) × Perm ys xs
  unfolding score_all
  all-perm Permᴰ.nil xs h = (xs, h, Perm.rfl)
  all-perm (Permᴰ.cons {a} {b} {l₁} {l₂} q p) xs h =
      let (s, rest, f, r, same) = pushed (score a) (score_all score l₁) xs h in
      let (ys, g, t) = all-perm p rest r in (s ∷ ys, rw (← q, f, g) refl, rw same (Perm.cons s t))
  all-perm (Permᴰ.swap {a} {b} {a'} {b'} {l} q r) xs h =
      let (s, rest, f, g, same) = pushed (score a) (score_all score (b ∷ l)) xs h in
      let (t, tail, f2, g2, same2) = pushed (score b) (score_all score l) rest g in
      (t ∷ s ∷ tail, rw (← q, ← r, f, f2, g2) refl, rw (same, same2) (Perm.swap s t tail))
  all-perm (Permᴰ.trans p q) xs h =
      let (ys, g, t) = all-perm p xs h in
      let (zs, g2, t2) = all-perm q ys g in (zs, g2, Perm.trans t2 t)

-- A greater score, or the same score and an id that is not after the other's.
abbrev pub ComesBefore : Scored → Scored → Type 0
ComesBefore a b = (b.score < a.score) ⊎ ((a.score ≡ b.score) × (text_le a.id b.id ≡ true))

scored_le-ComesBefore : (a b : Scored) → scored_le a b ≡ true → ComesBefore a b
scored_le-ComesBefore a b h = elim (Bool-cases (a.score == b.score)) [
  | inl t ↦ inr (ground (arith, t), ground (arith, t, h))
  | inr f ↦ inl (ground (arith, f, h))
]

ranked_lem :
    (o : Option (List Scored)) (xs : List Scored)
    → o ≡ some xs
    → ranked o ≡ some (sort_by scored_le xs)
ranked_lem o xs q = ap ranked q

module _ ⦃e : Engine⦄ ⦃k : Clockwork⦄ where
  -- Where every candidate can be scored, the ranking has exactly their scores, and one that stands
  -- before another has a greater score, or the same score and an id that is not after the other's.
  pub score_candidates-IsSorted :
      (candidates profile policy : Value) (reg : Registry) (caller : Value) (now : Option ℕ)
      (xs : List Scored)
      → score_all (λ c. score_candidate c profile policy reg caller now) (candidate_list candidates)
        ≡ some xs
      → (out : List Scored) × (score_candidates candidates profile policy reg caller now ≡ some out)
        × Perm out xs
        × Pairwise ComesBefore out
  unfolding score_candidates
  score_candidates-IsSorted candidates profile policy reg caller now xs h = (
    sort_by scored_le xs,
    ranked_lem _ xs h,
    sort_by-perm scored_le xs,
    Pairwise.imp scored_le-ComesBefore (sort_by-IsSorted scored_le scored_le-IsTotal xs),
  )

  -- The ranking of candidates with distinct ids does not depend on the order in which they are
  -- given.
  pub score_candidates_order :
      (old new profile policy : Value) (reg : Registry) (caller : Value) (now : Option ℕ)
      (xs : List Scored)
      → Permᴰ (candidate_list old) (candidate_list new)
      → score_all (λ c. score_candidate c profile policy reg caller now) (candidate_list old)
        ≡ some xs
      → HasDistinctIds xs
      → score_candidates new profile policy reg caller now
        ≡ score_candidates old profile policy reg caller now
  unfolding score_candidates
  score_candidates_order old new profile policy reg caller now xs p h d =
      let (ys, g, t) = all-perm (λ c. score_candidate c profile policy reg caller now) p xs h in
      ranked_lem _ ys g
      ∙ ap some (sym (sort_by_order scored_le scored_le-IsTotal (no_ties xs d) t))
      ∙ sym (ranked_lem _ xs h)
