-- ===== src/Eligibility/Lists.antt =====
-- `reqList` and the sets of names: only which names occur matters, not their order.
use mathlib.Core.List.{
  Mem, Memᴰ, Pairwise, Nodup, Nodup-concat, concat-eq-append, Perm, Mem-prop, perm_ext_iff_of_Nodup,
}
use mathlib.Core.List.Perm
use mathlib.Core.Logic.{∥∥₁_elim, ∥∥₁_map}
use mathlib.Core.Path.{subst}
use mathlib.Core.HLevel.{⊥_prop}
use view_limits.Base.{
  true, false, ◌||◌, some, List, [], ◌∷◌, ◌++◌, String, ◌≡◌, ◌⊎◌, ◌↔◌, refl, Bool-cases,
  Option-cases, arith, inl, inr, includes, Memᴰ-includes, includes-Memᴰ, eq_iff,
}
use view_limits.Base.Sort.{sort_by_order, sort_by-perm, IsTotal}
use view_limits.Base.Text.{
  Engine, is_blank, text_le, text_le_total, text_le_antisymm, text_le_trans,
}
use view_limits.Value.{Value, Items, arr, items}
use view_limits.Facts.{norm, add_name, add_names}
use view_limits.Eligibility.Inputs.{req_list}

text_le-IsTotal : IsTotal text_le
text_le-IsTotal = record { total = text_le_total; trans = text_le_trans }

module _ ⦃e : Engine⦄ where
  -- The value reads as the name.
  abbrev pub IsName : String → Value → Type 0
  IsName n v = (norm v ≡ some n) × (is_blank n ≡ false)

  Nodup-add_name : (v : Value) (out : List String) → Nodup out → Nodup (add_name v out)
  unfolding add_name
  Nodup-add_name v out n = elim (Option-cases (norm v)) [
    | inl absent ↦ rw (absent, add_name) n
    | inr (s, named) ↦ elim (Bool-cases (is_blank s || includes out s)) [
      | inl t ↦ rw (named, add_name, t) n
      | inr f ↦
          rw (named, add_name, f)
            (rw (← concat-eq-append out s) (
              (Nodup-concat out s).1
                (λ m. ∥∥₁_elim m ⊥_prop (λ d. ground (arith, Memᴰ-includes d)), n)))
    ]
  ]

  Nodup-add_names : (vs : List Value) (out : List String) → Nodup out → Nodup (add_names vs out)
  unfolding add_names
  Nodup-add_names [] out n = n
  Nodup-add_names (v ∷ vs) out n = Nodup-add_names vs (add_name v out) (Nodup-add_name v out n)

  includes-append :
      (xs ys : List String) (s : String) → includes (xs ++ ys) s ≡ (includes xs s || includes ys s)
  includes-append [] ys s = refl
  includes-append (x ∷ xs) ys s = ground (arith, includes-append xs ys s)

  includes-add_name :
      (v : Value) (out : List String) (s : String)
      → includes out s ≡ true
      → includes (add_name v out) s ≡ true
  unfolding add_name
  includes-add_name v out s h = elim (Option-cases (norm v)) [
    | inl absent ↦ rw (absent, add_name) h
    | inr (t, named) ↦ ground (arith, includes-append out (t ∷ []) s)
  ]

  add_name-includes :
      (v : Value) (out : List String) (s : String)
      → includes (add_name v out) s ≡ true
      → (includes out s ≡ true) ⊎ IsName s v
  unfolding add_name
  add_name-includes v out s h = elim (Option-cases (norm v)) [
    | inl absent ↦ inl (ground arith)
    | inr (t, named) ↦ elim (Bool-cases (includes out s)) [
      | inl old ↦ inl old
      | inr new ↦
          let same : t ≡ s = ground (arith, includes-append out (t ∷ []) s, eq_iff t s) in
          inr (ground arith, ground (arith, includes-append out (t ∷ []) s, eq_iff t s))
    ]
  ]

  IsName-includes :
      (v : Value) (out : List String) (s : String) → IsName s v → includes (add_name v out) s ≡ true
  unfolding add_name
  IsName-includes v out s (named, filled) =
      ground (arith, includes-append out (s ∷ []) s, eq_iff s s)

  includes-add_names :
      (vs : List Value) (out : List String) (s : String)
      → includes out s ≡ true
      → includes (add_names vs out) s ≡ true
  unfolding add_names
  includes-add_names [] out s h = h
  includes-add_names (v ∷ vs) out s h =
      includes-add_names vs (add_name v out) s (includes-add_name v out s h)

  names_sound :
      (vs : List Value) (out : List String) (s : String)
      → includes (add_names vs out) s ≡ true
      → (includes out s ≡ true) ⊎ ((v : Value) × Memᴰ v vs × IsName s v)
  unfolding add_names
  names_sound [] out s h = inl h
  names_sound (v ∷ vs) out s h = elim (names_sound vs (add_name v out) s h) [
    | inl early ↦ elim (add_name-includes v out s early) [
      | inl old ↦ inl old
      | inr named ↦ inr (v, Memᴰ.head refl, named)
    ]
    | inr (w, m, named) ↦ inr (w, Memᴰ.tail m, named)
  ]

  names_complete :
      (vs : List Value) (out : List String) (s : String) (v : Value)
      → Memᴰ v vs
      → IsName s v
      → includes (add_names vs out) s ≡ true
  unfolding add_names
  names_complete [] out s v m n = elim m [ ]
  names_complete (w ∷ vs) out s v (Memᴰ.head e) n =
      includes-add_names vs (add_name w out) s (IsName-includes w out s (subst (IsName s) e n))
  names_complete (w ∷ vs) out s v (Memᴰ.tail m) n = names_complete vs (add_name w out) s v m n

  names_transfer :
      (vs ws : List Value) (s : String)
      → Perm vs ws
      → Mem s (add_names vs [])
      → Mem s (add_names ws [])
  names_transfer vs ws s p m = ∥∥₁_elim m (Mem-prop) (λ d.
      elim (names_sound vs [] s (Memᴰ-includes d)) [
        | inl impossible ↦ absurd (cc)
        | inr (v, at, named) ↦
            ∥∥₁_elim ((Perm.mem_iff p).0 ∣ at ∣₁) (Mem-prop) (λ there.
              ∣ includes-Memᴰ (add_names ws []) s (names_complete ws [] s v there named) ∣₁)
      ])

  names_perm : (vs ws : List Value) → Perm vs ws → Perm (add_names vs []) (add_names ws [])
  names_perm vs ws p =
      (perm_ext_iff_of_Nodup (Nodup-add_names vs [] Pairwise.nil)
          (Nodup-add_names ws [] Pairwise.nil)).1
        (λ s. (names_transfer vs ws s p, names_transfer ws vs s (Perm.symm p)))

  -- A policy list gives the same requirements in whatever order it names them.
  pub req_list_order :
      (xs ys : Items) → Perm (items xs) (items ys) → req_list (arr xs) ≡ req_list (arr ys)
  unfolding req_list
  req_list_order xs ys p =
      sort_by_order text_le text_le-IsTotal (λ a b ma mb. text_le_antisymm a b)
        (names_perm (items ys) (items xs) (Perm.symm p))

  -- The requirements of a policy list are exactly the names of its elements: the texts, trimmed and
  -- in lower case, that are not blank.
  pub req_list-members :
      (xs : Items) (s : String)
      → Mem s (req_list (arr xs)) ↔ ∥ ((v : Value) × Memᴰ v (items xs) × IsName s v) ∥₁
  unfolding req_list
  req_list-members xs s = (
    λ m.
        ∥∥₁_elim ((Perm.mem_iff (sort_by-perm text_le (add_names (items xs) []))).0 m) squash₁ (λ d.
          elim (names_sound (items xs) [] s (Memᴰ-includes d)) [
            | inl impossible ↦ absurd (cc)
            | inr w ↦ ∣ w ∣₁
          ]),
    λ t.
        (Perm.mem_iff (sort_by-perm text_le (add_names (items xs) []))).1 (
          ∥∥₁_map t
            (λ (v, m, named). includes-Memᴰ _ s (names_complete (items xs) [] s v m named))),
  )
