-- ===== src/Profile/FromJev.antt =====
-- lib/recommend.js: the profile that it builds from an accepted response.
use mathlib.Core.List.{Memᴰ}
use view_limits.Base.{
  true, Option, none, some, List, [], ◌∷◌, String, is_empty, ◌≡◌, refl, arith, inl, inr, ap,
  Option-cases, ◌∙◌, sym,
}
use view_limits.Base.Text.{Engine}
use view_limits.Value.{Value, arr, cons, nil, obj, get, end, Fields}
use view_limits.Profile.Dimensions.{
  Dimension, dimensions, Finding, is_resolved, dimension_fact, word_of,
}
use view_limits.Profile.Build.{
  Profile, build_profile, find_dimension, refine_all, refine, candidate_in, layer, layers_of,
  entries, gaps_of,
}
use view_limits.Profile.Response.{
  is_named, collect, validate_classifier_response, Response, accepted, refused,
}
use view_limits.Profile.Accepted.{
  is_accepted, Fits, Fits-is_named, Fits-no_violations, validate_classifier_response_iff,
}
use view_limits.Profile.Words.{IsLowering, get-collect, table_distinct, word_of-plain}

module _ ⦃e : Engine⦄ where
  -- The profile that lib/recommend.js builds from an accepted response.
  unfoldable pub jev_profile : Fields → Profile
  unfolding build_profile
  jev_profile fs = build_profile (arr (cons (layer (obj fs) "observed" "jev") nil)) "jev"

  abbrev pub from_jev : String → Finding
  from_jev w = record {
    word = some w;
    provenance = "observed";
    source = some "jev";
    observed_at = none;
    fresh_until = none;
    reason = none;
  }

  find_dimension-jev :
      IsLowering e
      → (profile : Value) (d : Dimension) (w : String) → Memᴰ d dimensions
      → word_of d.words (get d.name profile) ≡ some w
      → find_dimension (layer (obj (collect profile dimensions)) "observed" "jev" ∷ []) "jev" d
        ≡ from_jev w
  unfolding find_dimension refine_all refine candidate_in dimension_fact is_resolved
  find_dimension-jev l profile d w m h =
      rw
        (
          get-collect profile dimensions d table_distinct m,
          h,
          word_of-plain l d (get d.name profile) w m h,
        )
        refl

  named_word :
      (profile : Value) (d : Dimension)
      → is_named profile d ≡ true
      → (w : String) × (word_of d.words (get d.name profile) ≡ some w)
  unfolding is_named
  named_word profile d h = elim (Option-cases (word_of d.words (get d.name profile))) [
    | inl n ↦ absurd (ground arith)
    | inr s ↦ s
  ]

  all_from_jev :
      IsLowering e
      → (profile : Value) (ds : List Dimension) → ((d : Dimension) → Memᴰ d ds → Memᴰ d dimensions)
      → ((d : Dimension) → Memᴰ d ds → is_named profile d ≡ true)
      → is_empty (
          gaps_of
            (entries (layer (obj (collect profile dimensions)) "observed" "jev" ∷ []) "jev" ds))
        ≡ true
  unfolding entries gaps_of is_resolved
  all_from_jev l profile [] sub h = refl
  all_from_jev l profile (d ∷ ds) sub h =
      let (w, e) = named_word profile d (h d (Memᴰ.head refl)) in
      rw (find_dimension-jev l profile d w (sub d (Memᴰ.head refl)) e)
        (all_from_jev l profile ds (λ c m. sub c (Memᴰ.tail m)) (λ c m. h c (Memᴰ.tail m)))

  fields_of : Response → Fields
  fields_of (accepted p c s) = p
  fields_of (refused vs) = end

  fields_of-validate :
      (raw : Value)
      → Fits raw
      → fields_of (validate_classifier_response raw) ≡ collect (get "profile" raw) dimensions
  unfolding fields_of validate_classifier_response
  fields_of-validate raw f = rw (f.document, Fits-no_violations raw f) refl

  jev_complete :
      IsLowering e
      → (raw : Value) → Fits raw
      → (fs : Fields) → collect (get "profile" raw) dimensions ≡ fs
      → ((jev_profile fs).is_complete ≡ true)
        × ((d : Dimension)
            → Memᴰ d dimensions
            → (w : String) × (word_of d.words (get d.name (get "profile" raw)) ≡ some w)
              × (find_dimension
                    (layers_of (arr (cons (layer (obj fs) "observed" "jev") nil)))
                    "jev"
                    d
                  ≡ from_jev w))
  unfolding jev_profile build_profile layers_of
  jev_complete l raw f fs h = (
    ap (λ t. is_empty (gaps_of (entries (layer (obj t) "observed" "jev" ∷ []) "jev" dimensions)))
          (sym h)
        ∙ all_from_jev l (get "profile" raw) dimensions (λ d m. m) (Fits-is_named raw f),
    λ d m.
        let (w, e) = named_word (get "profile" raw) d (Fits-is_named raw f d m) in
        (
          w,
          e,
          ap (λ t. find_dimension (layer (obj t) "observed" "jev" ∷ []) "jev" d) (sym h)
              ∙ find_dimension-jev l (get "profile" raw) d w m e,
        ),
  )

  -- Where the engine leaves texts of lower-case letters and hyphens alone: the profile that
  -- lib/recommend.js builds from an accepted response is complete, and takes each dimension from
  -- the response, as the word of the vocabulary that the response names for it.
  pub jev_profile_complete :
      IsLowering e
      → (raw : Value) (fs : Fields) (c : Value) (s : Option String)
      → validate_classifier_response raw ≡ accepted fs c s
      → ((jev_profile fs).is_complete ≡ true)
        × ((d : Dimension)
            → Memᴰ d dimensions
            → (w : String) × (word_of d.words (get d.name (get "profile" raw)) ≡ some w)
              × (find_dimension
                    (layers_of (arr (cons (layer (obj fs) "observed" "jev") nil)))
                    "jev"
                    d
                  ≡ from_jev w))
  unfolding fields_of
  jev_profile_complete l raw fs c s h =
      jev_complete l raw (fits raw h) fs
        (sym (fields_of-validate raw (fits raw h)) ∙ ap fields_of h)
    where
      fits : (raw : Value) → validate_classifier_response raw ≡ accepted fs c s → Fits raw
      fits raw h = (validate_classifier_response_iff raw).0 (ap is_accepted h)
