-- ===== src/Recommend/Names.antt =====
-- lib/recommend.js and lib/score-candidates.js: a score carries the id of its candidate.
use mathlib.Core.List.{Memᴰ}
use mathlib.Core.Path.{subst}
use Prim.Native.String
use Prim.Native.String.append
use view_limits.Base.{
  ℕ, suc, false, Option, none, some, List, [], ◌∷◌, String, ◌≡◌, refl, ap, ◌∙◌, sym, arith,
}
use view_limits.Base.Sort.{sort_by, sort_by-Memᴰ}
use view_limits.Base.Text.{Engine, is_blank}
use view_limits.Value.{Value, get, items, text_of, str}
use view_limits.Registry.{Registry}
use view_limits.Gate.Time.{Clockwork}
use view_limits.Score.{
  Scored, scored_le, score_all, ranked, score_candidate, score_candidates, scored_with, scored_of,
  id_of,
}
use view_limits.Score.Ranking.{pushed}
use view_limits.Score.Bounds.{some_injective}
use view_limits.Recommend.Candidates.{
  Candidate, with_ids, candidate_id, id_or_index, documents, documents_in, document_of,
}

-- Every score is the score of a candidate.
score_all-Memᴰ :
    (score : Value → Option Scored) (cs : List Value) (xs : List Scored)
    → score_all score cs ≡ some xs
    → (s : Scored) → Memᴰ s xs
    → (v : Value) × Memᴰ v cs × (score v ≡ some s)
unfolding score_all
score_all-Memᴰ score [] xs h s m = elim (subst (Memᴰ s) (sym (some_injective h)) m) [ ]
score_all-Memᴰ score (v ∷ vs) xs h s m =
    let (t, rest, f, r, same) = pushed score (score v) (score_all score vs) xs h in
    elim (subst (Memᴰ s) same m) [
      | Memᴰ.head e ↦ (v, Memᴰ.head refl, f ∙ ap some (sym e))
      | Memᴰ.tail k ↦ let (w, n, g) = score_all-Memᴰ score vs rest r s k in (w, Memᴰ.tail n, g)
    ]

text_of-not_blank : (v : Value) (s : String) → text_of v ≡ some s → is_blank s ≡ false
text_of-not_blank (str t) s h = ground arith
text_of-not_blank v s h = absurd (ground arith)

append-not_blank : (s t : String) → is_blank s ≡ false → is_blank (String.◌++◌ s t) ≡ false
append-not_blank String.[] t h = absurd (ground arith)
append-not_blank (String.◌∷◌ c s) t h = λ i. is_blank (append.cons c s t i)

id_or_index-not_blank :
    (o : Option String) (index : ℕ)
    → ((s : String) → o ≡ some s → is_blank s ≡ false)
    → is_blank (id_or_index o index) ≡ false
unfolding id_or_index
id_or_index-not_blank none index h = append-not_blank "candidate-" _ refl
id_or_index-not_blank (some s) index h = h s refl

candidate_id-not_blank : (v : Value) (index : ℕ) → is_blank (candidate_id v index) ≡ false
unfolding candidate_id
candidate_id-not_blank v index =
    id_or_index-not_blank (text_of (get "id" v)) index (text_of-not_blank (get "id" v))

pub with_ids-not_blank :
    (index : ℕ) (vs : List Value) (c : Candidate)
    → Memᴰ c (with_ids index vs)
    → is_blank c.id ≡ false
unfolding with_ids
with_ids-not_blank index [] c m = elim m [ ]
with_ids-not_blank index (v ∷ vs) c (Memᴰ.head e) =
    ap (λ x. is_blank x.id) e ∙ candidate_id-not_blank v index
with_ids-not_blank index (v ∷ vs) c (Memᴰ.tail m) = with_ids-not_blank (suc index) vs c m

documents-Memᴰ :
    (cs : List Candidate) (v : Value)
    → Memᴰ v (items (documents_in cs))
    → (c : Candidate) × Memᴰ c cs × (v ≡ document_of c)
unfolding documents_in
documents-Memᴰ [] v m = elim m [ ]
documents-Memᴰ (c ∷ cs) v (Memᴰ.head e) = (c, Memᴰ.head refl, e)
documents-Memᴰ (c ∷ cs) v (Memᴰ.tail m) =
    let (d, n, e) = documents-Memᴰ cs v m in (d, Memᴰ.tail n, e)

unranked :
    (o : Option (List Scored)) (out : List Scored)
    → ranked o ≡ some out
    → (xs : List Scored) × (o ≡ some xs) × (out ≡ sort_by scored_le xs)
unranked none out h = absurd (ground arith)
unranked (some xs) out h = (xs, refl, sym (some_injective h))

module _ ⦃e : Engine⦄ ⦃k : Clockwork⦄ where
  -- A score carries the id of its candidate.
  scored_with-id :
      (v : Value) (reg : Registry) (x : _) (o : _) (s : Scored)
      → scored_with v reg x o ≡ some s
      → s.id ≡ id_of (text_of (get "id" v))
  unfolding scored_with scored_of
  scored_with-id v reg x none s h = absurd (ground arith)
  scored_with-id v reg x (some f) s h = ap Scored.id (sym (some_injective h))

  score_candidate-id :
      (v profile policy : Value) (reg : Registry) (caller : Value) (now : Option ℕ) (s : Scored)
      → score_candidate v profile policy reg caller now ≡ some s
      → s.id ≡ id_of (text_of (get "id" v))
  unfolding score_candidate
  score_candidate-id v profile policy reg caller now s h = scored_with-id v reg _ _ s h

  -- Every score of the ranking is the score of one of the candidates, under its id.
  pub score_candidates-Memᴰ :
      (cs : List Candidate) (profile policy : Value) (reg : Registry) (caller : Value)
      (now : Option ℕ) (out : List Scored)
      → score_candidates (documents cs) profile policy reg caller now ≡ some out
      → ((c : Candidate) → Memᴰ c cs → is_blank c.id ≡ false)
      → (s : Scored) → Memᴰ s out
      → (c : Candidate) × Memᴰ c cs × (s.id ≡ c.id)
  unfolding score_candidates documents
  score_candidates-Memᴰ cs profile policy reg caller now out h nb s m =
      let (xs, a, b) = unranked _ out h in
      let (v, n, f) =
        score_all-Memᴰ _ (items (documents_in cs)) xs a s
          (sort_by-Memᴰ scored_le s xs (subst (Memᴰ s) b m)) in
      let (c, p, q) = documents-Memᴰ cs v n in
      (
        c,
        p,
        score_candidate-id v profile policy reg caller now s f
            ∙ ap (λ w. id_of (text_of (get "id" w))) q
            ∙ rw (nb c p) refl,
      )
