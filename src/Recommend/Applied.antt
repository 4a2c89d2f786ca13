-- ===== src/Recommend/Applied.antt =====
-- lib/recommend.js: when the classifier is asked, and what stands behind a profile that it gave.
use view_limits.Base.{
  Bool, true, false, Option, none, some, List, String, if◌then◌else◌, ◌≡◌, refl, ap, ◌∙◌, sym,
  arith, ◌↔◌,
}
use view_limits.Base.Text.{Engine}
use view_limits.Value.{Value, Fields}
use view_limits.Gate.Time.{Clockwork}
use view_limits.Score.{Scored}
use view_limits.Score.Bounds.{some_injective}
use view_limits.Profile.Words.{IsLowering}
use view_limits.Profile.FromJev.{jev_profile, jev_profile_complete}
use view_limits.Profile.Build.{Profile}
use view_limits.Readiness.{items_of}
use view_limits.Readiness.Opening.{IsReady, evaluate_readiness_iff}
use view_limits.Jev.{Json, Classified, classified, unavailable, classify}
use view_limits.Jev.Verified.{Heard, classify-Heard}
use view_limits.Recommend.{
  Request, recommend, advice_of, heard_of, gate_of, is_verified, section_of, profile_of,
}
use view_limits.Recommend.Outcome.{Advice, applied, JevSection}
use view_limits.Recommend as R

module _ ⦃e : Engine⦄ ⦃k : Clockwork⦄ ⦃j : Json⦄ where
  -- What the advice says of the classifier and of the task comes from the outcome of the
  -- classification.
  section_lem :
      (r : Request) (out : Advice) (o : Option (List Scored))
      → advice_of o r ≡ some out
      → (out.jev ≡ section_of (heard_of r) r (R.disposed_of r).all)
        × (out.task_profile ≡ profile_of (heard_of r) r)
  unfolding advice_of
  section_lem r out none h = absurd (ground arith)
  section_lem r out (some ss) h =
      (ap Advice.jev (sym (some_injective h)), ap Advice.task_profile (sym (some_injective h)))

  asked :
      (b : Bool) (c : Classified) (r : Request) (all : List R.Judged)
      → (section_of (if b then some c else none) r all).attempted ≡ b
  unfolding section_of
  asked true (classified fs c s) r all = refl
  asked true (unavailable why) r all = refl
  asked false c r all = refl

  is_open_of :
      (r : Request) (out : Advice)
      → recommend r ≡ some out
      → out.jev.attempted ≡ (gate_of r).is_open
  unfolding recommend heard_of
  is_open_of r out h =
      ap JevSection.attempted (section_lem r out _ h).0
      ∙ asked (gate_of r).is_open (classify r.config r.transport) r (R.disposed_of r).all

  -- The classifier is asked exactly when the model is verified and every readiness item passes.
  pub recommend-attempted :
      (r : Request) (out : Advice)
      → recommend r ≡ some out
      → out.jev.attempted ≡ true ↔ ((is_verified r ≡ true) × IsReady (items_of r.readiness))
  unfolding gate_of
  recommend-attempted r out h = (
    λ a. (evaluate_readiness_iff r.readiness (is_verified r)).0 (sym (is_open_of r out h) ∙ a),
    λ v. is_open_of r out h ∙ (evaluate_readiness_iff r.readiness (is_verified r)).1 v,
  )

  -- What stands behind an applied classification.
  pub record IsApplied (r : Request) (out : Advice) : Type 0 where
    pub profile : Fields
    pub confidence : Value
    pub suggested : Option String
    pub verified : is_verified r ≡ true
    pub ready : IsReady (items_of r.readiness)
    pub heard : Heard r.config r.transport profile confidence suggested
    pub is_profile : out.task_profile ≡ jev_profile profile
    pub complete : out.task_profile.is_complete ≡ true

  section-applied :
      (o : Option Classified) (r : Request) (all : List R.Judged)
      → (section_of o r all).status ≡ applied
      → (fs : Fields) × (c : Value) × (s : Option String) × (o ≡ some (classified fs c s))
  unfolding section_of
  section-applied none r all h = absurd (ground arith)
  section-applied (some (unavailable why)) r all h = absurd (ground arith)
  section-applied (some (classified fs c s)) r all h = (fs, c, s, refl)

  opened :
      (b : Bool) (c d : Classified) → (if b then some c else none) ≡ some d → (b ≡ true) × (c ≡ d)
  opened true c d h = (refl, some_injective h)
  opened false c d h = absurd (ground arith)

  heard_open :
      (r : Request) (d : Classified)
      → heard_of r ≡ some d
      → ((gate_of r).is_open ≡ true) × (classify r.config r.transport ≡ d)
  unfolding heard_of
  heard_open r d h = opened (gate_of r).is_open (classify r.config r.transport) d h

  is_profile-heard :
      (r : Request) (fs : Fields) (c : Value) (s : Option String)
      → heard_of r ≡ some (classified fs c s)
      → profile_of (heard_of r) r ≡ jev_profile fs
  unfolding profile_of
  is_profile-heard r fs c s h = ap (λ o. profile_of o r) h

  is_open-IsReady :
      (r : Request)
      → (gate_of r).is_open ≡ true
      → (is_verified r ≡ true) × IsReady (items_of r.readiness)
  unfolding gate_of
  is_open-IsReady r h = (evaluate_readiness_iff r.readiness (is_verified r)).0 h

  -- Where the engine leaves texts of lower-case letters and hyphens alone: when the advice says
  -- that the classification was applied, the model is verified, every readiness item passes, the
  -- transport's answer was valid and confident enough, and the task profile is the one of that
  -- answer, complete in its eight dimensions.
  pub recommend-IsApplied :
      IsLowering e
      → (r : Request) (out : Advice) → recommend r ≡ some out
      → out.jev.status ≡ applied
      → IsApplied r out
  unfolding recommend
  recommend-IsApplied l r out h a =
      let (sec, pro) = section_lem r out _ h in
      let (fs, c, s, o) =
        section-applied (heard_of r) r (R.disposed_of r).all (ap JevSection.status (sym sec) ∙ a) in
      let (open', d) = heard_open r (classified fs c s) o in
      let (v, ready) = is_open-IsReady r open' in
      let behind = classify-Heard r.config r.transport fs c s d in
      let same = pro ∙ is_profile-heard r fs c s o in
      record {
        profile = fs;
        confidence = c;
        suggested = s;
        verified = v;
        ready = ready;
        heard = behind;
        is_profile = same;
        complete =
            ap Profile.is_complete same
            ∙ (jev_profile_complete l behind.payload fs c s behind.valid).0;
      }
