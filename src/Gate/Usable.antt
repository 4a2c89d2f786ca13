-- ===== src/Gate/Usable.antt =====
-- lib/gate.js: what it means that a cached entry is fresh and about the route's configuration.
use view_limits.Base.{
  ℕ, ◌≤◌, true, false, Option, none, some, String, ◌≡◌, ◌≢◌, ◌↔◌, ◌⊎◌, inl, inr, refl, sym, ap, ◌∙◌,
  arith, eq_iff, eq_refl, Bool-cases, Option-cases,
}
use view_limits.Base.Text.{Engine, is_blank}
use view_limits.Value.{
  Value, Fields, undefined, null, bool, num, str, arr, obj, get, get_field, truthy, is_plain_object,
}
use view_limits.Monitor.Validate.{
  Url, MonitorError, built_in_endpoint_refused, unknown_region, route_not_an_object,
  monitor_not_an_object, secret_field, unsupported_field, bad_endpoint, not_a_text, bad_options,
  validate_monitor,
}
use view_limits.Monitor.Revision.{
  Digest, config_revision, differs, is_config_obsolete, obsolete_under,
}
use view_limits.Gate.Time.{Clockwork, parse_strict_iso_timestamp, match_stamp, fixed}
use view_limits.Gate.Decide.{
  is_refused, is_usable, is_fresh_entry, instant_of, reaches, is_region_error,
}

module _ ⦃e : Engine⦄ ⦃u : Url⦄ ⦃d : Digest⦄ ⦃k : Clockwork⦄ where
  -- The entry holds until an instant that the clock has not passed.
  pub record IsFresh (entry : Value) (now : ℕ) : Type 0 where
    pub text : String
    pub until : ℕ
    pub is_object : is_plain_object entry ≡ true
    pub is_text : get "freshUntil" entry ≡ str text
    pub parses : parse_strict_iso_timestamp text ≡ some until
    pub holds : now ≤ until

  -- An entry with a revision is about this very configuration of the route.
  pub IsCurrent : (entry route : Value) → Type 0
  IsCurrent entry route =
      (cached : String)
      → get "configRevision" entry ≡ str cached
      → cached ≢ ""
      → (fields : Fields) × (route ≡ obj fields) × (config_revision fields ≡ cached)

  -- The route is refused by the rules on regions and endpoints.
  pub IsRefused : Value → Type 0
  IsRefused route =
      (validate_monitor route ≡ some built_in_endpoint_refused)
      ⊎ (validate_monitor route ≡ some unknown_region)

  reaches-to :
      (now : ℕ) (v : Value)
      → reaches now (instant_of v) ≡ true
      → (text : String) × (until : ℕ) × (v ≡ str text)
        × (parse_strict_iso_timestamp text ≡ some until)
        × (now ≤ until)
  unfolding instant_of
  reaches-to now (str s) h = elim (Option-cases (parse_strict_iso_timestamp s)) [
    | inl n ↦ ground arith
    | inr (t, q) ↦ (s, t, refl, q, ground arith)
  ]
  reaches-to now undefined h = ground arith
  reaches-to now null h = ground arith
  reaches-to now (bool b) h = ground arith
  reaches-to now (num n) h = ground arith
  reaches-to now (arr vs) h = ground arith
  reaches-to now (obj fs) h = ground arith

  pub IsFresh-to : (entry : Value) (now : ℕ) → is_fresh_entry entry now ≡ true → IsFresh entry now
  unfolding is_fresh_entry
  IsFresh-to entry now h =
      let (text, until, is_text, parses, holds) =
        reaches-to now (get "freshUntil" entry) (ground arith) in
      record {
        text = text;
        until = until;
        is_object = ground arith;
        is_text = is_text;
        parses = parses;
        holds = holds;
      }

  pub no_blank :
      (text : String) (t : ℕ) → parse_strict_iso_timestamp text ≡ some t → is_blank text ≡ false
  unfolding parse_strict_iso_timestamp match_stamp fixed
  no_blank String.[] t h = ground arith
  no_blank (String.◌∷◌ c s) t h = refl

  pub fresh-from : (entry : Value) (now : ℕ) → IsFresh entry now → is_fresh_entry entry now ≡ true
  unfolding is_fresh_entry instant_of
  fresh-from entry now f =
      ground (arith, f.is_text, f.is_object, f.parses, no_blank f.text f.until f.parses, f.holds)

  blank_empty : (s : String) → is_blank s ≡ true → s ≡ ""
  blank_empty String.[] h = refl
  blank_empty (String.◌∷◌ c s) h = ground arith

  obsolete-to :
      (cached : String) (route : Value)
      → obsolete_under (str cached) route ≡ false
      → cached ≢ ""
      → (fields : Fields) × (route ≡ obj fields) × (config_revision fields ≡ cached)
  unfolding obsolete_under
  obsolete-to cached route h nonempty = elim (Bool-cases (is_blank cached)) [
    | inl t ↦ absurd (nonempty (blank_empty cached t))
    | inr f ↦ go route h f
  ]
    where
      go :
          (route : Value)
          → obsolete_under (str cached) route ≡ false
          → is_blank cached ≡ false
          → (fields : Fields) × (route ≡ obj fields) × (config_revision fields ≡ cached)
      go (obj fields) h f =
          (fields, refl, sym ((eq_iff cached (config_revision fields)).0 (ground (arith, h, f))))
      go undefined h f = ground arith
      go null h f = ground arith
      go (bool b) h f = ground arith
      go (num n) h f = ground arith
      go (str s) h f = ground arith
      go (arr vs) h f = ground arith

  pub IsCurrent-to :
      (entry route : Value) → is_config_obsolete entry route ≡ false → IsCurrent entry route
  unfolding is_config_obsolete IsCurrent
  IsCurrent-to (obj entry) route h cached has nonempty =
      obsolete-to cached route (ap (λ v. obsolete_under v route) (sym has) ∙ h) nonempty
  IsCurrent-to undefined route h cached has nonempty = ground arith
  IsCurrent-to null route h cached has nonempty = ground arith
  IsCurrent-to (bool b) route h cached has nonempty = ground arith
  IsCurrent-to (num n) route h cached has nonempty = ground arith
  IsCurrent-to (str s) route h cached has nonempty = ground arith
  IsCurrent-to (arr vs) route h cached has nonempty = ground arith

  obsolete-from :
      (v route : Value)
      → ((cached : String)
          → v ≡ str cached
          → cached ≢ ""
          → (fields : Fields) × (route ≡ obj fields) × (config_revision fields ≡ cached))
      → obsolete_under v route ≡ false
  unfolding obsolete_under
  obsolete-from (str String.[]) route c = go route
    where
      go : (route : Value) → obsolete_under (str "") route ≡ false
      go (obj fields) = refl
      go undefined = refl
      go null = refl
      go (bool b) = refl
      go (num n) = refl
      go (str s) = refl
      go (arr vs) = refl
  obsolete-from (str (String.◌∷◌ a s)) route c =
      let (fields, is_obj, same) = c (String.◌∷◌ a s) refl (λ q. ground (arith, ap is_blank q)) in
      ap (obsolete_under (str (String.◌∷◌ a s))) is_obj
      ∙ ap (differs (String.◌∷◌ a s)) same
      ∙ ground (arith, eq_refl (String.◌∷◌ a s))
  obsolete-from undefined route c = refl
  obsolete-from null route c = refl
  obsolete-from (bool b) route c = refl
  obsolete-from (num n) route c = refl
  obsolete-from (arr vs) route c = refl
  obsolete-from (obj fs) route c = refl

  pub current-from :
      (entry route : Value) → IsCurrent entry route → is_config_obsolete entry route ≡ false
  unfolding is_config_obsolete IsCurrent
  current-from (obj entry) route c = obsolete-from (get_field "configRevision" entry) route c
  current-from undefined route c = refl
  current-from null route c = refl
  current-from (bool b) route c = refl
  current-from (num n) route c = refl
  current-from (str s) route c = refl
  current-from (arr vs) route c = refl

  pub IsRefused-to : (route : Value) → is_refused route ≡ true → IsRefused route
  unfolding is_refused IsRefused
  IsRefused-to route h = go (validate_monitor route) h
    where
      go :
          (r : Option MonitorError)
          → is_region_error r ≡ true
          → (r ≡ some built_in_endpoint_refused) ⊎ (r ≡ some unknown_region)
      go none h = ground arith
      go (some built_in_endpoint_refused) h = inl refl
      go (some unknown_region) h = inr refl
      go (some route_not_an_object) h = ground arith
      go (some monitor_not_an_object) h = ground arith
      go (some (secret_field k)) h = ground arith
      go (some (unsupported_field k)) h = ground arith
      go (some bad_endpoint) h = ground arith
      go (some (not_a_text k)) h = ground arith
      go (some (bad_options o)) h = ground arith

  pub refused-from : (route : Value) → IsRefused route → is_refused route ≡ true
  unfolding is_refused IsRefused
  refused-from route (inl q) = ap is_region_error q
  refused-from route (inr q) = ap is_region_error q

  pub object_truthy : (v : Value) → is_plain_object v ≡ true → truthy v ≡ true
  object_truthy (obj fs) h = refl
  object_truthy undefined h = ground arith
  object_truthy null h = ground arith
  object_truthy (bool b) h = ground arith
  object_truthy (num m) h = ground arith
  object_truthy (str s) h = ground arith
  object_truthy (arr vs) h = ground arith

  pub refused-not : (route : Value) → ¬ IsRefused route → is_refused route ≡ false
  refused-not route free = elim (Bool-cases (is_refused route)) [
    | inl t ↦ absurd (free (IsRefused-to route t))
    | inr f ↦ f
  ]

  pub usable_iff :
      (route entry : Value) (now : ℕ)
      → is_usable route entry now ≡ true ↔ (IsFresh entry now × IsCurrent entry route)
  unfolding is_usable
  usable_iff route entry now = (
    λ h. (IsFresh-to entry now (ground (arith, h)), IsCurrent-to entry route (ground (arith, h))),
    λ (f, c). ground (arith, fresh-from entry now f, current-from entry route c),
  )
