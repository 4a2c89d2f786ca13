-- ===== src/Recommend/Ranked.antt =====
-- lib/recommend.js: the ranking and the recommendation name eligible candidates only.
use mathlib.Core.List.{Memᴰ}
use mathlib.Core.Path.{subst}
use view_limits.Base.{Option, none, some, List, [], ◌∷◌, ◌≡◌, refl, ap, ◌∙◌, sym, arith}
use view_limits.Base.Text.{Engine}
use view_limits.Gate.Time.{Clockwork}
use view_limits.Jev.{Json}
use view_limits.Score.{Scored, candidate_list}
use view_limits.Score.Bounds.{some_injective}
use view_limits.Recommend.Candidates.{Candidate, with_ids, dispose, find_candidate}
use view_limits.Recommend.Sound.{
  IsProven, judge_all-IsProven, alone-same, find_candidate-from, find_candidate-there,
}
use view_limits.Recommend.{Request, recommend, policy_of, disposed_of}
use view_limits.Recommend.Outcome.{source_of, Advice, Recommendation, top_of, parameters_of}
use view_limits.Recommend as R
use view_limits.Recommend.Names.{with_ids-not_blank, score_candidates-Memᴰ}

module _ ⦃e : Engine⦄ ⦃k : Clockwork⦄ ⦃j : Json⦄ where
  -- The candidates of a request with their ids.
  abbrev pub all_of : Request → List Candidate
  all_of r = with_ids 0 (candidate_list r.candidates)

  abbrev pub IsProvenIn : Request → Candidate → Type 0
  IsProvenIn r c = IsProven (policy_of r.policy) r.registry (all_of r) c

  proven : (r : Request) (c : Candidate) → Memᴰ c (disposed_of r).eligible → IsProvenIn r c
  unfolding disposed_of dispose with_ids
  proven r c m =
      judge_all-IsProven (policy_of r.policy) r.registry (all_of r) (all_of r) (λ c m. m) c m

  -- What `recommend` may name.
  pub record IsAdvised (r : Request) (out : Advice) : Type 0 where
    pub scored : (s : Scored) → Memᴰ s out.scored → (c : Candidate) × IsProvenIn r c × (s.id ≡ c.id)
    pub recommended :
        (n : Recommendation)
        → out.recommendation ≡ some n
        → (c : Candidate) × IsProvenIn r c
          × (n.candidate_id ≡ c.id)
          × (n.parameters ≡ parameters_of c.document)
    pub alternatives :
        (n : Recommendation)
        → out.recommendation ≡ some n
        → (s : Scored) → Memᴰ s n.alternatives
        → (c : Candidate) × IsProvenIn r c × (s.id ≡ c.id)

  scored-proven :
      (r : Request) (ss : List Scored)
      → R.scored_of r ≡ some ss
      → (s : Scored) → Memᴰ s ss
      → (c : Candidate) × Memᴰ c (disposed_of r).eligible × (s.id ≡ c.id)
  unfolding R.scored_of
  scored-proven r ss h s m =
      score_candidates-Memᴰ (disposed_of r).eligible _ _ _ _ _ ss h
        (λ c n. with_ids-not_blank 0 (candidate_list r.candidates) c (proven r c n).member) s m

  -- The parameters are those of the candidate itself.
  found :
      (r : Request) (c : Candidate)
      → Memᴰ c (disposed_of r).eligible
      → find_candidate c.id (disposed_of r).eligible ≡ some c.document
  found r c m =
      let (v, f) = find_candidate-there (disposed_of r).eligible c m in
      let (b, d, n, q) = find_candidate-from c.id (disposed_of r).eligible v f in
      f
      ∙ ap some (
          d
          ∙ ap Candidate.document (
              sym (
                alone-same (all_of r) c b (proven r c m).alone (proven r c m).member
                  (proven r b n).member (sym q))))

  top-proven :
      (r : Request) (ss : List Scored)
      → ((s : Scored)
          → Memᴰ s ss
          → (c : Candidate) × Memᴰ c (disposed_of r).eligible × (s.id ≡ c.id))
      → (n : Recommendation) → top_of ss (disposed_of r).eligible ≡ some n
      → (c : Candidate) × IsProvenIn r c
        × (n.candidate_id ≡ c.id)
        × (n.parameters ≡ parameters_of c.document)
  unfolding top_of
  top-proven r [] f n h = absurd (ground arith)
  top-proven r (s ∷ ss) f n h =
      let (c, m, q) = f s (Memᴰ.head refl) in
      (
        c,
        proven r c m,
        ap Recommendation.candidate_id (sym (some_injective h)) ∙ q,
        ap Recommendation.parameters (sym (some_injective h))
            ∙ ap (λ o. parameters_of (source_of o))
                (ap (λ i. find_candidate i (disposed_of r).eligible) q ∙ found r c m),
      )

  top-alternatives :
      (r : Request) (ss : List Scored)
      → ((s : Scored)
          → Memᴰ s ss
          → (c : Candidate) × Memᴰ c (disposed_of r).eligible × (s.id ≡ c.id))
      → (n : Recommendation) → top_of ss (disposed_of r).eligible ≡ some n
      → (s : Scored) → Memᴰ s n.alternatives
      → (c : Candidate) × IsProvenIn r c × (s.id ≡ c.id)
  unfolding top_of
  top-alternatives r [] f n h t m = absurd (ground arith)
  top-alternatives r (s ∷ ss) f n h t m =
      let (c, k, q) =
        f t (
          Memᴰ.tail (subst (Memᴰ t) (ap Recommendation.alternatives (sym (some_injective h))) m)) in
      (c, proven r c k, q)

  advised :
      (r : Request) (o : Option (List Scored)) (out : Advice)
      → R.scored_of r ≡ o
      → R.advice_of o r ≡ some out
      → IsAdvised r out
  unfolding R.advice_of
  advised r none out e h = absurd (ground arith)
  advised r (some ss) out e h = record {
    scored = λ s m.
        let (c, n, q) =
          scored-proven r ss e s (subst (Memᴰ s) (ap Advice.scored (sym (some_injective h))) m) in
        (c, proven r c n, q);
    recommended = λ n q.
        top-proven r ss (scored-proven r ss e) n (ap Advice.recommendation (some_injective h) ∙ q);
    alternatives = λ n q.
        top-alternatives r ss (scored-proven r ss e) n
          (ap Advice.recommendation (some_injective h) ∙ q);
  }

  -- Whatever the classifier says: every candidate that is scored, recommended or an alternative
  -- stands in the request, shares its id with no other, and hard eligibility finds it eligible; and
  -- the parameters that are advised with the recommended one are its own.
  pub recommend-IsAdvised : (r : Request) (out : Advice) → recommend r ≡ some out → IsAdvised r out
  unfolding recommend
  recommend-IsAdvised r out h = advised r (R.scored_of r) out refl h
