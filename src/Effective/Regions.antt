-- ===== src/Effective/Regions.antt =====
-- lib/effective-config.js: the region that is reported is the region of the host that is used.
use view_limits.Base.{
  Bool, true, false, Option, none, some, List, [], ◌∷◌, String, str_eq, ◌≡◌, refl, ap, ◌∙◌, sym,
  arith, Bool-cases, Option-cases, inl, inr, ◌⊎◌, if◌then◌else◌, eq_iff,
}
use view_limits.Base.Text.{Engine, is_blank, trim}
use view_limits.Value.{Value, undefined, null, bool, num, str, arr, obj, get}
use view_limits.Monitor.{normalize_region, region_list, member_of}
use view_limits.Effective.Hosts.{
  Locator, RegionHost, region_hosts, default_region, host_in, region_host, url_host,
  region_with_host, region_at, region_for_base_url, Resolved, by_override, by_region,
  resolve_built_in_host, is_origin, by_default,
}

module _ ⦃e : Engine⦄ ⦃l : Locator⦄ where
  -- The host that is used has the origin of the host that the region stands for.
  pub record IsPlaced (provider : String) (region : String) (out : Resolved) : Type 0 where
    pub used : String
    pub listed : String
    pub host : out.host ≡ some used
    pub region_is : region_host provider (some region) ≡ some listed
    pub same : url_host used ≡ url_host listed

  -- Every region that a provider lists has a host.
  listed_host :
      (p key r : String)
      → member_of (region_list p) key ≡ some r
      → (h : String) × (region_host p (some r) ≡ some h)
  unfolding region_host region_hosts host_in
  listed_host p key r h = elim (Option-cases (region_host p (some r))) [
    | inl n ↦ absurd (ground (arith, eq_iff key r))
    | inr s ↦ s
  ]

  default_host :
      (p r : String) → default_region p ≡ some r → (h : String) × (region_host p (some r) ≡ some h)
  unfolding region_host region_hosts host_in default_region
  default_host p r h = elim (Option-cases (region_host p (some r))) [
    | inl n ↦ absurd (ground (arith, eq_iff "global" r, eq_iff "international" r))
    | inr s ↦ s
  ]

  origin_is : (o : Option String) (t : String) → is_origin o t ≡ true → o ≡ some t
  origin_is none t h = absurd (ground arith)
  origin_is (some s) t h = ap some ((eq_iff s t).0 h)

  -- The region of a host among two with different names.
  two_hosts :
      (a b : RegionHost) (t r : String)
      → str_eq a.region b.region ≡ false
      → region_with_host t (a ∷ b ∷ []) ≡ some r
      → (h : String) × (host_in r (a ∷ b ∷ []) ≡ some h) × (url_host h ≡ some t)
  unfolding region_with_host host_in
  two_hosts a b t r d h = elim (Bool-cases (is_origin (url_host a.host) t)) [
    | inl x ↦ (a.host, ground (arith, eq_iff a.region r), origin_is (url_host a.host) t x)
    | inr y ↦ elim (Bool-cases (is_origin (url_host b.host) t)) [
      | inl z ↦ (
        b.host,
        ground (arith, eq_iff b.region r, eq_iff a.region r, eq_iff a.region b.region),
        origin_is (url_host b.host) t z,
      )
      | inr w ↦ absurd (ground arith)
    ]
  ]

  abbrev kimi_hosts : List RegionHost
  kimi_hosts =
      record { region = "global"; host = "https://api.kimi.ai" }
      ∷ record { region = "china"; host = "https://api.kimi.com" }
      ∷ []

  abbrev glm_hosts : List RegionHost
  glm_hosts =
      record { region = "international"; host = "https://api.z.ai" }
      ∷ record { region = "china"; host = "https://open.bigmodel.cn" }
      ∷ []

  hosts_cases :
      (p : String)
      → (region_hosts p ≡ kimi_hosts) ⊎ ((region_hosts p ≡ glm_hosts) ⊎ (region_hosts p ≡ []))
  unfolding region_hosts
  hosts_cases p = elim (Bool-cases (str_eq p "kimi")) [
    | inl k ↦ inl (rw (k) refl)
    | inr n ↦ elim (Bool-cases (str_eq p "glm")) [
      | inl g ↦ inr (inl (rw (n, g) refl))
      | inr m ↦ inr (inr (rw (n, m) refl))
    ]
  ]

  no_hosts : (t r : String) → region_with_host t [] ≡ some r → ⊥
  unfolding region_with_host
  no_hosts t r h = ground arith

  -- The region of a host of a provider.
  provider_hosts :
      (p t r : String)
      → region_with_host t (region_hosts p) ≡ some r
      → (h : String) × (host_in r (region_hosts p) ≡ some h) × (url_host h ≡ some t)
  provider_hosts p t r h = elim (hosts_cases p) [
    | inl k ↦ found kimi_hosts k (λ q. two_hosts _ _ t r refl q)
    | inr (inl g) ↦ found glm_hosts g (λ q. two_hosts _ _ t r refl q)
    | inr (inr n) ↦ absurd (no_hosts t r (ap (region_with_host t) (sym n) ∙ h))
  ]
    where
      found :
          (hs : List RegionHost)
          → region_hosts p ≡ hs
          → (region_with_host t hs ≡ some r
              → (h : String) × (host_in r hs ≡ some h) × (url_host h ≡ some t))
          → (h : String) × (host_in r (region_hosts p) ≡ some h) × (url_host h ≡ some t)
      found hs q f =
          let (k, a, b) = f (ap (region_with_host t) (sym q) ∙ h) in (k, ap (host_in r) q ∙ a, b)

  not_refused :
      (b : Bool) (o : Option String) (r : String) → (if b then none else o) ≡ some r → o ≡ some r
  not_refused true o r h = absurd (ground arith)
  not_refused false o r h = h

  IsPlaced-at :
      (p base r : String) (o : Option String)
      → url_host base ≡ o
      → region_at o p ≡ some r
      → IsPlaced p r (record { region = region_for_base_url p base; host = some base })
  unfolding region_at region_host
  IsPlaced-at p base r none q h = absurd (ground arith)
  IsPlaced-at p base r (some t) q h =
      let (k, a, b) =
        provider_hosts p t r (not_refused (is_blank t) (region_with_host t (region_hosts p)) r h) in
      record { used = base; listed = k; host = refl; region_is = a; same = q ∙ sym b }

  override-IsPlaced :
      (p base r : String)
      → region_for_base_url p base ≡ some r
      → IsPlaced p r (record { region = region_for_base_url p base; host = some base })
  unfolding region_for_base_url
  override-IsPlaced p base r h = IsPlaced-at p base r (url_host base) refl h

  default-IsPlaced : (p r : String) → default_region p ≡ some r → IsPlaced p r (by_default p)
  default-IsPlaced p r h =
      let (k, q) = default_host p r h in
      record { used = k; listed = k; host = ap (region_host p) h ∙ q; region_is = q; same = refl }

  chosen-IsPlaced :
      (b : Bool) (p base r : String)
      → (if b
          then by_default p
          else record { region = region_for_base_url p base; host = some base }).region
        ≡ some r
      → IsPlaced p r (
          if b
          then by_default p
          else record { region = region_for_base_url p base; host = some base })
  chosen-IsPlaced true p base r h = default-IsPlaced p r h
  chosen-IsPlaced false p base r h = override-IsPlaced p base r h

  by_override-IsPlaced :
      (p r : String) (base : Value)
      → (by_override p base).region ≡ some r
      → IsPlaced p r (by_override p base)
  unfolding by_override
  by_override-IsPlaced p r (str s) h = chosen-IsPlaced _ p s r h
  by_override-IsPlaced p r undefined h = default-IsPlaced p r h
  by_override-IsPlaced p r null h = default-IsPlaced p r h
  by_override-IsPlaced p r (bool b) h = default-IsPlaced p r h
  by_override-IsPlaced p r (num n) h = default-IsPlaced p r h
  by_override-IsPlaced p r (arr vs) h = default-IsPlaced p r h
  by_override-IsPlaced p r (obj fs) h = default-IsPlaced p r h

  normalized_member :
      (p k : String) (region : Value)
      → normalize_region (str p) region ≡ some k
      → (key : String) × (member_of (region_list p) key ≡ some k)
  unfolding normalize_region
  normalized_member p k (str s) h = (e.to_lower_case (trim s), h)
  normalized_member p k v h = absurd (ground arith)

  by_region-IsPlaced :
      (o : Option String) (p : String) (region cfg : Value) (r : String)
      → normalize_region (str p) region ≡ o
      → (by_region o p cfg).region ≡ some r
      → IsPlaced p r (by_region o p cfg)
  unfolding by_region
  by_region-IsPlaced none p region cfg r q h = by_override-IsPlaced p r (get "baseUrl" cfg) h
  by_region-IsPlaced (some k) p region cfg r q h =
      let (key, m) = normalized_member p k region q in
      let (b, z) = listed_host p key r (m ∙ h) in
      record { used = b; listed = b; host = ap (region_host p) h ∙ z; region_is = z; same = refl }

  -- Whatever the route, the provider's entry and the default say: when a region is reported, a host
  -- is used, and it has the origin of the host that this region stands for.
  pub resolve_built_in_host-IsPlaced :
      (p : String) (region cfg : Value) (r : String)
      → (resolve_built_in_host p region cfg).region ≡ some r
      → IsPlaced p r (resolve_built_in_host p region cfg)
  unfolding resolve_built_in_host
  resolve_built_in_host-IsPlaced p region cfg r h =
      by_region-IsPlaced (normalize_region (str p) region) p region cfg r refl h
