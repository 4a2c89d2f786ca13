-- ===== src/Profile/Layers.antt =====
-- lib/task-profile.js: which layer a dimension is taken from, and what a profile holds.
use mathlib.Core.List.{Memᴰ}
use view_limits.Base.{
  Bool, true, false, Option, none, some, List, [], ◌∷◌, String, if◌then◌else◌, map, includes, ◌≡◌,
  refl, arith, Bool-cases, inl, inr, ◌↔◌, ap, ◌∙◌, sym,
}
use view_limits.Base.Text.{Engine}
use view_limits.Value.{Value, undefined, null, obj}
use view_limits.Profile.Dimensions.{
  Dimension, dimensions, Finding, unresolved, field_absent, is_resolved, dimension_fact, word_of,
}
use view_limits.Profile.Build.{
  Entry, Gap, Profile, build_profile, refine, refine_all, is_informative, candidate_in,
  find_dimension, layers_of, entries, value_in,
}
use view_limits.Profile.Listed.{
  entries-resolved, entries-gaps, resolved-entries, gaps-entries, no_gaps, all_resolved,
}

-- The last element that passes a test.
unfoldable pub last_that : (Finding → Bool) → List Finding → Option Finding
last_that p [] = none
last_that p (c ∷ cs) =
    let rest = last_that p cs in elim rest [ some l ↦ some l | none ↦ if p c then some c else none ]

abbrev pub or_else {ℓ} : {A : Type ℓ} → Option A → A → A
or_else none a = a
or_else (some b) a = b

refine_all-resolved :
    (f : Finding) (cs : List Finding)
    → is_resolved f ≡ true
    → refine_all f cs ≡ or_else (last_that is_resolved cs) f
unfolding refine_all last_that refine
refine_all-resolved f [] h = refl
refine_all-resolved f (c ∷ cs) h = elim (Bool-cases (is_resolved c)) [
  | inl t ↦ rw (t) (refine_all-resolved c cs t ∙ ground arith)
  | inr n ↦ rw (n, h) (refine_all-resolved f cs h ∙ ground arith)
]

refine_all_lem :
    (f : Finding) (cs : List Finding)
    → is_resolved f ≡ false
    → refine_all f cs ≡ or_else (last_that is_resolved cs) (or_else (last_that is_informative cs) f)
unfolding refine_all last_that refine
refine_all_lem f [] h = refl
refine_all_lem f (c ∷ cs) h = elim (Bool-cases (is_resolved c)) [
  | inl t ↦ rw (t) (refine_all-resolved c cs t ∙ ground arith)
  | inr n ↦ elim (Bool-cases (is_informative c)) [
    | inl i ↦ rw (n, h, i) (refine_all_lem c cs n ∙ ground arith)
    | inr j ↦ rw (n, h, j) (refine_all_lem f cs h ∙ ground arith)
  ]
]

module _ ⦃e : Engine⦄ where
  -- What a profile says of a dimension is what the last of the layers says that resolves it; when
  -- none does, the last one that gives a reason other than that the field is absent; and otherwise
  -- that the field is absent.
  pub find_dimension_lem :
      (layers : List Value) (source : String) (d : Dimension)
      → find_dimension layers source d
        ≡ or_else (last_that is_resolved (map (candidate_in source d) layers)) (
            or_else
              (last_that is_informative (map (candidate_in source d) layers))
              (unresolved field_absent))
  unfolding find_dimension is_resolved
  find_dimension_lem layers source d =
      refine_all_lem (unresolved field_absent) (map (candidate_in source d) layers) refl

  abbrev IsInWords : List String → Finding → Type 0
  IsInWords words f = (w : String) → f.word ≡ some w → includes words w ≡ true

  dimension_fact-IsInWords :
      (v : Value) (words : List String) (p s : String)
      → IsInWords words (dimension_fact v words p s)
  unfolding dimension_fact word_of
  dimension_fact-IsInWords undefined words p s w h = absurd (ground arith)
  dimension_fact-IsInWords null words p s w h = absurd (ground arith)
  dimension_fact-IsInWords (obj fs) words p s w h = ground arith
  dimension_fact-IsInWords v words p s w h = ground arith

  refine_all-IsInWords :
      (words : List String) (f : Finding) (cs : List Finding)
      → IsInWords words f
      → ((c : Finding) → Memᴰ c cs → IsInWords words c)
      → IsInWords words (refine_all f cs)
  unfolding refine_all refine
  refine_all-IsInWords words f [] h k = h
  refine_all-IsInWords words f (c ∷ cs) h k =
      refine_all-IsInWords words (refine f c) cs
        (λ w q. ground (arith, h w, k c (Memᴰ.head refl) w)) (λ c2 m. k c2 (Memᴰ.tail m))

  candidates-IsInWords :
      (source : String) (d : Dimension) (layers : List Value) (c : Finding)
      → Memᴰ c (map (candidate_in source d) layers)
      → IsInWords d.words c
  unfolding candidate_in
  candidates-IsInWords source d (v ∷ vs) c (Memᴰ.head e) w h =
      dimension_fact-IsInWords (value_in d.name v) d.words _ _ w (sym (ap Finding.word e) ∙ h)
  candidates-IsInWords source d (v ∷ vs) c (Memᴰ.tail m) w h =
      candidates-IsInWords source d vs c m w h
  candidates-IsInWords source d [] c m w h = elim m [ ]

  find_dimension-IsInWords :
      (layers : List Value) (source : String) (d : Dimension)
      → IsInWords d.words (find_dimension layers source d)
  unfolding find_dimension
  find_dimension-IsInWords layers source d =
      refine_all-IsInWords d.words (unresolved field_absent) _ (λ w h. absurd (ground arith))
        (candidates-IsInWords source d layers)

  pub record IsBuilt (p : Profile) : Type 0 where
    pub order : map Entry.name p.findings ≡ map Dimension.name dimensions
    pub words :
        (x : Entry) (w : String)
        → Memᴰ x p.findings
        → x.finding.word ≡ some w
        → (d : Dimension) × Memᴰ d dimensions × (d.name ≡ x.name) × (includes d.words w ≡ true)
    pub resolved :
        (x : Entry) → Memᴰ x p.findings → is_resolved x.finding ≡ true → Memᴰ x.name p.resolved
    pub gaps :
        (x : Entry)
        → Memᴰ x p.findings
        → is_resolved x.finding ≡ false
        → Memᴰ (record { dimension = x.name; reason = x.finding.reason }) p.gaps
    pub only_resolved :
        (n : String)
        → Memᴰ n p.resolved
        → (x : Entry) × Memᴰ x p.findings × (x.name ≡ n) × (is_resolved x.finding ≡ true)
    pub only_gaps :
        (g : Gap)
        → Memᴰ g p.gaps
        → (x : Entry) × Memᴰ x p.findings
          × (g ≡ record { dimension = x.name; reason = x.finding.reason })
          × (is_resolved x.finding ≡ false)
    pub complete :
        p.is_complete ≡ true ↔ ((x : Entry) → Memᴰ x p.findings → is_resolved x.finding ≡ true)

  entries-order :
      (layers : List Value) (source : String) (ds : List Dimension)
      → map Entry.name (entries layers source ds) ≡ map Dimension.name ds
  unfolding entries
  entries-order layers source [] = refl
  entries-order layers source (d ∷ ds) = ap (λ ns. d.name ∷ ns) (entries-order layers source ds)

  entries-words :
      (layers : List Value) (source : String) (ds : List Dimension) (x : Entry) (w : String)
      → Memᴰ x (entries layers source ds)
      → x.finding.word ≡ some w
      → (d : Dimension) × Memᴰ d ds × (d.name ≡ x.name) × (includes d.words w ≡ true)
  unfolding entries
  entries-words layers source [] x w m h = elim m [ ]
  entries-words layers source (d ∷ ds) x w (Memᴰ.head e) h = (
    d,
    Memᴰ.head refl,
    sym (ap Entry.name e),
    find_dimension-IsInWords layers source d w (sym (ap (λ y. y.finding.word) e) ∙ h),
  )
  entries-words layers source (d ∷ ds) x w (Memᴰ.tail m) h =
      let (c, i, n, k) = entries-words layers source ds x w m h in (c, Memᴰ.tail i, n, k)

  -- A profile has the eight dimensions in their order, with words of their vocabularies only; the
  -- names listed as resolved are exactly those of its resolved entries; its gaps are exactly those
  -- of the other entries, each with its reason; and it is complete exactly when all are resolved.
  pub build_profile-IsBuilt :
      (layers : Value) (source : String) → IsBuilt (build_profile layers source)
  unfolding build_profile
  build_profile-IsBuilt layers source = record {
    order = entries-order (layers_of layers) source dimensions;
    words = entries-words (layers_of layers) source dimensions;
    resolved = entries-resolved (entries (layers_of layers) source dimensions);
    gaps = entries-gaps (entries (layers_of layers) source dimensions);
    only_resolved = resolved-entries (entries (layers_of layers) source dimensions);
    only_gaps = gaps-entries (entries (layers_of layers) source dimensions);
    complete = (
      no_gaps (entries (layers_of layers) source dimensions),
      all_resolved (entries (layers_of layers) source dimensions),
    );
  }
