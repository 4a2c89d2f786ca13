-- ===== src/Recommend/Sound.antt =====
-- lib/recommend.js: what is scored and recommended was eligible under its own id.
use mathlib.Core.List.{Memᴰ}
use mathlib.Core.Path.{subst}
use view_limits.Base.{
  ◌≤◌, Bool, true, false, some, List, [], ◌∷◌, String, if◌then◌else◌, ◌≡◌, refl, ap, ◌∙◌, sym,
  arith, eq_iff, eq_refl, Option-cases, inl, inr, ◌⊎◌,
}
use view_limits.Base.Text.{Engine}
use view_limits.Value.{Value}
use view_limits.Registry.{Registry}
use view_limits.Eligibility.Verdict.{
  Verdict, evaluate, Result, is_eligible, is_ineligible, is_unresolved,
}
use view_limits.Recommend.Candidates.{
  Candidate, Judgement, id_duplicate, judged, Disposed, count_id, is_duplicate, judgement_of,
  add_judged, judge_all, find_candidate, is_eligible_verdict,
}

-- The candidate stands at this place of the list, alone with its id, and hard eligibility found it
-- eligible.
pub record IsProven ⦃e : Engine⦄ (policy : Value) (reg : Registry) (all : List Candidate)
    (c : Candidate) : Type 0 where
  pub member : Memᴰ c all
  pub alone : count_id c.id all ≡ 1
  pub eligible : (evaluate c.document policy reg).result ≡ is_eligible

count_id-Memᴰ : (all : List Candidate) (c : Candidate) → Memᴰ c all → 1 ≤ count_id c.id all
unfolding count_id
count_id-Memᴰ [] c m = elim m [ ]
count_id-Memᴰ (x ∷ xs) c (Memᴰ.head e) = ground (arith, ap Candidate.id e, eq_iff x.id c.id)
count_id-Memᴰ (x ∷ xs) c (Memᴰ.tail m) = ground (arith, count_id-Memᴰ xs c m)

single :
    (id : String) (all : List Candidate)
    → 1 ≤ count_id id all
    → is_duplicate id all ≡ false
    → count_id id all ≡ 1
unfolding is_duplicate
single id all lo d = ground arith

twice :
    (x : Candidate) (xs : List Candidate) (a b : Candidate)
    → count_id a.id (x ∷ xs) ≡ 1
    → a ≡ x
    → Memᴰ b xs
    → a.id ≡ b.id
    → ⊥
unfolding count_id
twice x xs a b one e n q =
    ground
      (arith, ap Candidate.id e, eq_iff x.id a.id, count_id-Memᴰ xs b n, ap (λ i. count_id i xs) q)

-- An id that is there once has one candidate.
pub alone-same :
    (all : List Candidate) (a b : Candidate)
    → count_id a.id all ≡ 1
    → Memᴰ a all
    → Memᴰ b all
    → a.id ≡ b.id
    → a ≡ b
unfolding count_id
alone-same [] a b one m n q = elim m [ ]
alone-same (x ∷ xs) a b one (Memᴰ.head e) (Memᴰ.head f) q = e ∙ sym f
alone-same (x ∷ xs) a b one (Memᴰ.head e) (Memᴰ.tail n) q = absurd (twice x xs a b one e n q)
alone-same (x ∷ xs) a b one (Memᴰ.tail m) (Memᴰ.head f) q =
    absurd (twice x xs b a (ap (λ i. count_id i (x ∷ xs)) (sym q) ∙ one) f m (sym q))
alone-same (x ∷ xs) a b one (Memᴰ.tail m) (Memᴰ.tail n) q =
    alone-same xs a b (ground (arith, count_id-Memᴰ xs a m)) m n q

pub find_candidate-from :
    (id : String) (cs : List Candidate) (v : Value)
    → find_candidate id cs ≡ some v
    → (b : Candidate) × (v ≡ b.document) × Memᴰ b cs × (b.id ≡ id)
unfolding find_candidate
find_candidate-from id [] v h = absurd (ground arith)
find_candidate-from id (x ∷ xs) v h = elim (Option-cases (find_candidate id xs)) [
  | inl n ↦ (x, ground arith, Memᴰ.head refl, ground (arith, eq_iff x.id id))
  | inr (l, k) ↦
      let (b, d, m, q) = find_candidate-from id xs l k in (b, ground (arith, d), Memᴰ.tail m, q)
]

pub find_candidate-there :
    (cs : List Candidate) (c : Candidate)
    → Memᴰ c cs
    → (v : Value) × (find_candidate c.id cs ≡ some v)
unfolding find_candidate
find_candidate-there [] c m = elim m [ ]
find_candidate-there (x ∷ xs) c (Memᴰ.head e) = elim (Option-cases (find_candidate c.id xs)) [
  | inl n ↦ (x.document, rw (n, e, eq_refl x.id) refl)
  | inr (l, k) ↦ (l, rw (k) refl)
]
find_candidate-there (x ∷ xs) c (Memᴰ.tail m) =
    let (v, k) = find_candidate-there xs c m in (v, rw (k) refl)

kept :
    {x c : Candidate} {xs : List Candidate} (b : Bool)
    → Memᴰ c (if b then x ∷ xs else xs)
    → ((b ≡ true) × (c ≡ x)) ⊎ Memᴰ c xs
kept true (Memᴰ.head q) = inl (refl, q)
kept true (Memᴰ.tail m) = inr m
kept false m = inr m

eligible_result : (r : Result) → is_eligible_verdict r ≡ true → r ≡ is_eligible
eligible_result is_eligible h = refl
eligible_result is_ineligible h = absurd (ground arith)
eligible_result is_unresolved h = absurd (ground arith)

undecided_dup :
    (b : Bool) (w v : Verdict)
    → (if b then id_duplicate else judged w) ≡ judged v
    → (b ≡ false) × (w ≡ v)
undecided_dup true w v h = absurd (ground arith)
undecided_dup false w v h = (refl, ground arith)

module _ ⦃e : Engine⦄ (policy : Value) (reg : Registry) (all : List Candidate) where
  added :
      (j : Judgement) (x c : Candidate) (d : Disposed)
      → Memᴰ c (add_judged j x d).eligible
      → ((c ≡ x) × ((v : Verdict) × (j ≡ judged v) × (v.result ≡ is_eligible))) ⊎ Memᴰ c d.eligible
  added id_duplicate x c d m = inr m
  added (judged v) x c d m = elim (kept (is_eligible_verdict v.result) m) [
    | inl (t, q) ↦ inl (q, (v, refl, eligible_result v.result t))
    | inr r ↦ inr r
  ]

  judgement_of-judged :
      (x : Candidate) (v : Verdict)
      → judgement_of policy reg all x ≡ judged v
      → (is_duplicate x.id all ≡ false) × (evaluate x.document policy reg ≡ v)
  unfolding judgement_of
  judgement_of-judged x v h =
      undecided_dup (is_duplicate x.id all) (evaluate x.document policy reg) v h

  pub judge_all-IsProven :
      (cs : List Candidate)
      → ((c : Candidate) → Memᴰ c cs → Memᴰ c all)
      → (c : Candidate) → Memᴰ c (judge_all policy reg all cs).eligible
      → IsProven policy reg all c
  unfolding judge_all
  judge_all-IsProven [] sub c m = elim m [ ]
  judge_all-IsProven (x ∷ xs) sub c m =
      elim (added (judgement_of policy reg all x) x c (judge_all policy reg all xs) m) [
        | inl (q, (v, j, r)) ↦
            let (d, same) = judgement_of-judged x v j in
            subst (IsProven policy reg all) (sym q) (record {
              member = sub x (Memᴰ.head refl);
              alone = single x.id all (count_id-Memᴰ all x (sub x (Memᴰ.head refl))) d;
              eligible = ap Verdict.result same ∙ r;
            })
        | inr r ↦ judge_all-IsProven xs (λ y k. sub y (Memᴰ.tail k)) c r
      ]
