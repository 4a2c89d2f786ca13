-- ===== src/Profile/Accepted.antt =====
-- lib/task-profile.js: what a classifier's response must have to be accepted.
use mathlib.Core.List.{Memᴰ}
use view_limits.Base.{
  ℕ, zero, suc, ◌^◌, ◌≤◌, includes-Memᴰ, Memᴰ-includes, Bool, true, false, ◌&&◌, List, [], ◌∷◌,
  ◌++◌, String, if◌then◌else◌, is_empty, ◌≡◌, refl, arith, Bool-cases, inl, inr, ◌↔◌, ap, ◌∙◌,
}
use view_limits.Base.Text.{Engine, is_blank, fold}
use view_limits.Value.{Value, undefined, num, str, finite, get, is_plain_object}
use view_limits.Facts.{norm}
use view_limits.Profile.Dimensions.{Dimension, dimensions, word_of}
use view_limits.Profile.Response.{
  is_there, is_confidence, is_suggestion, is_named, invalid_dimensions, violations_of,
  validate_classifier_response, Response, accepted, refused,
}

abbrev pub is_accepted : Response → Bool
is_accepted (accepted p c s) = true
is_accepted (refused vs) = false

-- A finite number m / 2 ^ k from 0 to 1, or -0.
pub data IsFraction : Value → Type 0 where
  minus_zero : (k : ℕ) → IsFraction (num (finite true 0 k))
  within : (m k : ℕ) → m ≤ 2 ^ k → IsFraction (num (finite false m k))

-- A text with something in it, or none.
pub data IsOptionalText : Value → Type 0 where
  absent : IsOptionalText undefined
  present : (s : String) → is_blank s ≡ false → IsOptionalText (str s)

IsFraction-of : (v : Value) → is_confidence v ≡ true → IsFraction v
unfolding is_confidence
IsFraction-of (num (finite true zero k)) h = minus_zero k
IsFraction-of (num (finite true (suc m) k)) h = absurd (ground (arith, h))
IsFraction-of (num (finite false m k)) h = within m k (ground (arith, h))
IsFraction-of v h = absurd (ground arith)

pub IsFraction-is_confidence : {v : Value} → IsFraction v → is_confidence v ≡ true
unfolding is_confidence
IsFraction-is_confidence (minus_zero k) = refl
IsFraction-is_confidence (within m k h) = ground (arith, h)

IsOptionalText-of : (v : Value) → is_suggestion v ≡ true → IsOptionalText v
IsOptionalText-of undefined h = absent
IsOptionalText-of (str s) h = present s (ground (arith, h))
IsOptionalText-of v h = absurd (ground arith)

IsOptionalText-is_suggestion : {v : Value} → IsOptionalText v → is_suggestion v ≡ true
IsOptionalText-is_suggestion absent = refl
IsOptionalText-is_suggestion (present s h) = ground (arith, h)

module _ ⦃e : Engine⦄ where
  -- A text that is a word of a vocabulary when it is trimmed and in lower case.
  pub data Names (words : List String) : Value → Type 0 where
    names : (s : String) → is_blank s ≡ false → Memᴰ (fold s) words → Names words (str s)

  Names-of : (d : Dimension) (v : Value) → is_there (word_of d.words v) ≡ true → Names d.words v
  unfolding word_of norm
  Names-of d (str s) h =
      names s (ground (arith, h)) (includes-Memᴰ d.words (fold s) (ground (arith, h)))
  Names-of d v h = absurd (ground arith)

  Names-word : (d : Dimension) (v : Value) → Names d.words v → is_there (word_of d.words v) ≡ true
  unfolding word_of norm
  Names-word d _ (names s b m) = ground (arith, b, Memᴰ-includes m)

  -- What an acceptable response has.
  pub record Fits (raw : Value) : Type 0 where
    pub document : is_plain_object raw ≡ true
    pub confidence : IsFraction (get "confidence" raw)
    pub profile : is_plain_object (get "profile" raw) ≡ true
    pub named : (d : Dimension) → Memᴰ d dimensions → Names d.words (get d.name (get "profile" raw))
    pub suggestion : IsOptionalText (get "suggestedCandidateId" raw)

  pub Fits-is_named :
      (raw : Value)
      → Fits raw
      → (d : Dimension) → Memᴰ d dimensions
      → is_named (get "profile" raw) d ≡ true
  unfolding is_named
  Fits-is_named raw f d m = Names-word d (get d.name (get "profile" raw)) (f.named d m)

  all_named :
      (profile : Value) (ds : List Dimension)
      → is_empty (invalid_dimensions profile ds) ≡ true
      → (d : Dimension) → Memᴰ d ds
      → is_named profile d ≡ true
  unfolding invalid_dimensions
  all_named profile [] h d m = elim m [ ]
  all_named profile (c ∷ ds) h d (Memᴰ.head q) = ap (is_named profile) q ∙ ground arith
  all_named profile (c ∷ ds) h d (Memᴰ.tail m) = all_named profile ds (ground arith) d m

  none_invalid :
      (profile : Value) (ds : List Dimension)
      → ((d : Dimension) → Memᴰ d ds → is_named profile d ≡ true)
      → is_empty (invalid_dimensions profile ds) ≡ true
  unfolding invalid_dimensions
  none_invalid profile [] h = refl
  none_invalid profile (c ∷ ds) h =
      rw (h c (Memᴰ.head refl)) (none_invalid profile ds (λ d m. h d (Memᴰ.tail m)))

  is_empty-append : (xs ys : List String) → is_empty (xs ++ ys) ≡ is_empty xs && is_empty ys
  is_empty-append [] ys = refl
  is_empty-append (x ∷ xs) ys = refl

  violations_of_lem :
      (raw : Value)
      → is_empty (violations_of raw)
        ≡ is_confidence (get "confidence" raw)
          && ((if is_plain_object (get "profile" raw)
                then is_empty (invalid_dimensions (get "profile" raw) dimensions)
                else false)
              && is_suggestion (get "suggestedCandidateId" raw))
  unfolding violations_of
  violations_of_lem raw =
      ground (arith, is_empty-append (invalid_dimensions (get "profile" raw) dimensions))

  is_accepted-validate :
      (raw : Value)
      → is_accepted (validate_classifier_response raw)
        ≡ is_plain_object raw && is_empty (violations_of raw)
  unfolding validate_classifier_response
  is_accepted-validate raw = elim (Bool-cases (is_plain_object raw)) [
    | inr n ↦ rw (n) refl
    | inl o ↦ elim (Bool-cases (is_empty (violations_of raw))) [
      | inl v ↦ rw (o, v) refl
      | inr w ↦ rw (o, w) refl
    ]
  ]

  accepted-Fits :
      (raw : Value) → is_plain_object raw ≡ true → is_empty (violations_of raw) ≡ true → Fits raw
  unfolding is_named
  accepted-Fits raw o v = record {
    document = o;
    confidence = IsFraction-of (get "confidence" raw) (ground (arith, violations_of_lem raw));
    profile = ground (arith, violations_of_lem raw);
    named = λ d m.
        Names-of d (get d.name (get "profile" raw))
          (all_named (get "profile" raw) dimensions (ground (arith, violations_of_lem raw)) d m);
    suggestion =
        IsOptionalText-of (get "suggestedCandidateId" raw) (ground (arith, violations_of_lem raw));
  }

  pub Fits-no_violations : (raw : Value) → Fits raw → is_empty (violations_of raw) ≡ true
  Fits-no_violations raw f =
      violations_of_lem raw
      ∙ rw
          (
            IsFraction-is_confidence f.confidence,
            f.profile,
            IsOptionalText-is_suggestion f.suggestion,
            none_invalid (get "profile" raw) dimensions (Fits-is_named raw f),
          )
          refl

  -- A response is accepted exactly when it is an object with a finite number from 0 to 1 as its
  -- confidence, a profile that has for each of the eight dimensions a text that is a word of its
  -- vocabulary when trimmed and in lower case, and a suggested candidate that is a text with
  -- something in it, or none.
  pub validate_classifier_response_iff :
      (raw : Value) → is_accepted (validate_classifier_response raw) ≡ true ↔ Fits raw
  validate_classifier_response_iff raw = (
    λ h.
        accepted-Fits raw (ground (arith, is_accepted-validate raw))
          (ground (arith, is_accepted-validate raw)),
    λ f. is_accepted-validate raw ∙ rw (f.document, Fits-no_violations raw f) refl,
  )
