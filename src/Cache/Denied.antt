-- ===== src/Cache/Denied.antt =====
-- lib/collector.js and lib/cache.js with lib/gate.js: how long an entry that the collector makes
-- can deny a dispatch.
use view_limits.Base.{
  ℕ, ◌≤◌, true, false, Option, none, some, String, str_eq, ◌≡◌, ◌≢◌, refl, sym, ap, ◌∙◌, arith,
  Option-cases, Bool-cases, inl, inr,
}
use view_limits.Base.Text.{Engine}
use view_limits.Value.{Value, str, obj, end, field, Fields, get, get_field}
use view_limits.Monitor.Validate.{Url}
use view_limits.Monitor.Revision.{Digest}
use view_limits.Gate.Time.{Clockwork, parse_strict_iso_timestamp}
use view_limits.Gate.Decide.{decide, is_state}
use view_limits.Gate.Open.{Denies, decide-Denies_iff, is_state-to}
use view_limits.Cache.{tag}
use view_limits.Cache.Entry.{Dates, is_bounded, recovery_bounded_fresh_until, expiry_of, entry_for}

str_injective : {s t : String} → str s ≡ str t → s ≡ t
str_injective h = ground (arith, h)

-- A text that `toISOString` wrote and that the gate reads means the instant that was written.
pub record IsReadBack ⦃k : Clockwork⦄ (d : Dates) : Type 0 where
  pub same :
      (s : String) (t u : ℕ)
      → d.to_iso_string t ≡ some s
      → parse_strict_iso_timestamp s ≡ some u
      → u ≡ t

module _ ⦃d : Dates⦄ where
  -- The entry says what was observed, until its expiry.
  pub record IsEntry (route : Fields) (status : Value) (now : ℕ) (entry : Value) : Type 0 where
    pub members : Fields
    pub is_members : entry ≡ obj members
    pub expiry : ℕ
    pub expires : expiry_of now (get_field "ttlSeconds" route) ≡ some expiry
    pub text : String
    pub is_text : get_field "freshUntil" members ≡ str text
    pub writes :
        d.to_iso_string (recovery_bounded_fresh_until (obj route) status expiry) ≡ some text
    pub has_status : get_field "status" members ≡ status

  pub entry_for-IsEntry :
      (route : Fields) (status source : Value) (now : ℕ) (entry : Value)
      → entry_for route status source now ≡ some entry
      → IsEntry route status now entry
  unfolding entry_for
  entry_for-IsEntry route status source now entry h = elim (Option-cases (d.to_iso_string now)) [
    | inl n ↦ absurd (ground (arith, h, n))
    | inr (o, p) ↦ elim (Option-cases (expiry_of now (get_field "ttlSeconds" route))) [
      | inl n ↦ absurd (ground (arith, h, p, n))
      | inr (t, q) ↦
          elim (Option-cases
            (d.to_iso_string (recovery_bounded_fresh_until (obj route) status t))) [
              | inl n ↦ absurd (ground (arith, h, p, q, n))
              | inr (s, w) ↦ record {
                members = field "routeId" (get_field "id" route) (
                    field "observedAt" (str o) (
                      field "freshUntil" (str s)
                        (field "source" source (field "status" status end))));
                is_members = ground (arith, h, p, q, w);
                expiry = t;
                expires = q;
                text = s;
                is_text = refl;
                writes = w;
                has_status = refl;
              }
            ]
    ]
  ]

  -- The observation that an entry holds is still in force.
  pub record IsHeld (route : Fields) (status : Value) (made now : ℕ) : Type 0 where
    pub exhausted : get "state" status ≡ str "exhausted"
    pub expiry : ℕ
    pub expires : expiry_of made (get_field "ttlSeconds" route) ≡ some expiry
    pub unexpired : now ≤ expiry
    pub unrecovered :
        (monitor : Fields) (recovery : ℕ)
        → get_field "monitor" route ≡ obj monitor
        → get_field "recipe" monitor ≢ str "built-in"
        → d.parse_date (get "resetAt" status) ≡ some recovery
        → now ≤ recovery

  bounded :
      (route monitor : Fields) (status : Value)
      → get "state" status ≡ str "exhausted"
      → get_field "monitor" route ≡ obj monitor
      → get_field "recipe" monitor ≢ str "built-in"
      → is_bounded (obj route) status ≡ true
  unfolding is_bounded
  bounded route monitor status x m n =
      elim (Bool-cases (is_state (get_field "recipe" monitor) "built-in")) [
        | inl t ↦ absurd (n (is_state-to (get_field "recipe" monitor) "built-in" t))
        | inr f ↦ rw (m, x, f) refl
      ]

  bounded-≤ :
      (route status : Value) (t now : ℕ)
      → now ≤ recovery_bounded_fresh_until route status t
      → (now ≤ t)
        × ((recovery : ℕ)
            → is_bounded route status ≡ true
            → d.parse_date (get "resetAt" status) ≡ some recovery
            → now ≤ recovery)
  unfolding recovery_bounded_fresh_until
  bounded-≤ route status t now h = (ground arith, λ r b q. ground (arith, h, b, q))

module _ ⦃e : Engine⦄ ⦃u : Url⦄ ⦃g : Digest⦄ ⦃k : Clockwork⦄ ⦃d : Dates⦄ where
  get-tag :
      (owner : Option Fields) (members : Fields) (name : String)
      → str_eq "configRevision" name ≡ false
      → get name (tag owner (obj members)) ≡ get_field name members
  get-tag none members name f = refl
  get-tag (some route) members name f = ground (arith, f)

  -- Where a written date is read back as the same instant: a dispatch that is denied on an entry
  -- which the collector made of a status, tagged with a revision or not, is denied for an exhausted
  -- status, no later than the time to live of the route allows, and on a route with a monitor of
  -- its own no later than the recovery that the status announces.
  pub entry_for-IsHeld :
      IsReadBack d
      → (route : Fields) (status source : Value) (made : ℕ) (entry : Value) (owner : Option Fields)
        (target : Value) (now : ℕ) (config : Value)
      → entry_for route status source made ≡ some entry
      → Denies (decide target (tag owner entry) now config)
      → IsHeld route status made now
  entry_for-IsHeld r route status source made entry owner target now config h denies =
      let i = entry_for-IsEntry route status source made entry h in
      let b = (decide-Denies_iff target (tag owner entry) now config).0 denies in
      let written =
        ap (λ v. get "freshUntil" (tag owner v)) i.is_members
        ∙ get-tag owner i.members "freshUntil" refl
        ∙ i.is_text in
      let state =
        ap (λ v. get "state" (get "status" (tag owner v))) i.is_members
        ∙ ap (get "state") (get-tag owner i.members "status" refl ∙ i.has_status) in
      let same_text = str_injective (sym b.fresh.is_text ∙ written) in
      let until =
        r.same i.text (recovery_bounded_fresh_until (obj route) status i.expiry) b.fresh.until
          i.writes (ap parse_strict_iso_timestamp (sym same_text) ∙ b.fresh.parses) in
      let exhausted = sym state ∙ b.exhausted in
      let (before, bound) =
        bounded-≤ (obj route) status i.expiry now (ground (arith, until, b.fresh.holds)) in
      record {
        exhausted = exhausted;
        expiry = i.expiry;
        expires = i.expires;
        unexpired = before;
        unrecovered = λ m t q n p. bound t (bounded route m status exhausted q n) p;
      }
