-- ===== src/Profile/Listed.antt =====
-- lib/task-profile.js: what a profile lists as resolved and as gaps.
use mathlib.Core.List.{Memᴰ}
use view_limits.Base.{
  Bool, true, false, List, [], ◌∷◌, String, if◌then◌else◌, is_empty, ◌≡◌, refl, arith, Bool-cases,
  inl, inr, ◌⊎◌, ap, ◌∙◌, sym,
}
use view_limits.Base.Text.{Engine}
use view_limits.Profile.Dimensions.{is_resolved}
use view_limits.Profile.Build.{Entry, Gap, resolved_of, gaps_of}

module _ ⦃e : Engine⦄ where
  pub entries-resolved :
      (xs : List Entry) (x : Entry)
      → Memᴰ x xs
      → is_resolved x.finding ≡ true
      → Memᴰ x.name (resolved_of xs)
  unfolding resolved_of
  entries-resolved [] x m h = elim m [ ]
  entries-resolved (y ∷ ys) x (Memᴰ.head e) h =
      rw (sym (ap (λ z. is_resolved z.finding) e) ∙ h) (Memᴰ.head (ap Entry.name e))
  entries-resolved (y ∷ ys) x (Memᴰ.tail m) h = elim (Bool-cases (is_resolved y.finding)) [
    | inl t ↦ rw (t) (Memᴰ.tail (entries-resolved ys x m h))
    | inr f ↦ rw (f) (entries-resolved ys x m h)
  ]

  pub entries-gaps :
      (xs : List Entry) (x : Entry)
      → Memᴰ x xs
      → is_resolved x.finding ≡ false
      → Memᴰ (record { dimension = x.name; reason = x.finding.reason }) (gaps_of xs)
  unfolding gaps_of
  entries-gaps [] x m h = elim m [ ]
  entries-gaps (y ∷ ys) x (Memᴰ.head e) h =
      rw (sym (ap (λ z. is_resolved z.finding) e) ∙ h)
        (Memᴰ.head (ap (λ z. record { dimension = z.name; reason = z.finding.reason }) e))
  entries-gaps (y ∷ ys) x (Memᴰ.tail m) h = elim (Bool-cases (is_resolved y.finding)) [
    | inl t ↦ rw (t) (entries-gaps ys x m h)
    | inr f ↦ rw (f) (Memᴰ.tail (entries-gaps ys x m h))
  ]

  in_resolved :
      (b : Bool) (y : Entry) (ns : List String) (n : String)
      → Memᴰ n (if b then y.name ∷ ns else ns)
      → ((b ≡ true) × (n ≡ y.name)) ⊎ Memᴰ n ns
  in_resolved true y ns n (Memᴰ.head e) = inl (refl, e)
  in_resolved true y ns n (Memᴰ.tail m) = inr m
  in_resolved false y ns n m = inr m

  -- A name among the resolved is that of a resolved entry.
  pub resolved-entries :
      (xs : List Entry) (n : String)
      → Memᴰ n (resolved_of xs)
      → (x : Entry) × Memᴰ x xs × (x.name ≡ n) × (is_resolved x.finding ≡ true)
  unfolding resolved_of
  resolved-entries [] n m = elim m [ ]
  resolved-entries (y ∷ ys) n m =
      elim (in_resolved (is_resolved y.finding) y (resolved_of ys) n m) [
        | inl (t, e) ↦ (y, Memᴰ.head refl, sym e, t)
        | inr k ↦ let (x, i, q, r) = resolved-entries ys n k in (x, Memᴰ.tail i, q, r)
      ]

  in_gaps :
      (b : Bool) (y : Entry) (gs : List Gap) (g : Gap)
      → Memᴰ g (if b then gs else record { dimension = y.name; reason = y.finding.reason } ∷ gs)
      → ((b ≡ false) × (g ≡ record { dimension = y.name; reason = y.finding.reason })) ⊎ Memᴰ g gs
  in_gaps false y gs g (Memᴰ.head e) = inl (refl, e)
  in_gaps false y gs g (Memᴰ.tail m) = inr m
  in_gaps true y gs g m = inr m

  -- A gap is that of an entry that is not resolved.
  pub gaps-entries :
      (xs : List Entry) (g : Gap)
      → Memᴰ g (gaps_of xs)
      → (x : Entry) × Memᴰ x xs
        × (g ≡ record { dimension = x.name; reason = x.finding.reason })
        × (is_resolved x.finding ≡ false)
  unfolding gaps_of
  gaps-entries [] g m = elim m [ ]
  gaps-entries (y ∷ ys) g m = elim (in_gaps (is_resolved y.finding) y (gaps_of ys) g m) [
    | inl (t, e) ↦ (y, Memᴰ.head refl, e, t)
    | inr k ↦ let (x, i, q, r) = gaps-entries ys g k in (x, Memᴰ.tail i, q, r)
  ]

  pub no_gaps :
      (xs : List Entry)
      → is_empty (gaps_of xs) ≡ true
      → (x : Entry) → Memᴰ x xs
      → is_resolved x.finding ≡ true
  unfolding gaps_of
  no_gaps [] h x m = elim m [ ]
  no_gaps (y ∷ ys) h x (Memᴰ.head e) = ap (λ z. is_resolved z.finding) e ∙ ground arith
  no_gaps (y ∷ ys) h x (Memᴰ.tail m) = no_gaps ys (ground arith) x m

  pub all_resolved :
      (xs : List Entry)
      → ((x : Entry) → Memᴰ x xs → is_resolved x.finding ≡ true)
      → is_empty (gaps_of xs) ≡ true
  unfolding gaps_of
  all_resolved [] h = refl
  all_resolved (y ∷ ys) h = rw (h y (Memᴰ.head refl)) (all_resolved ys (λ x m. h x (Memᴰ.tail m)))
