-- ===== src/Readiness/Opening.antt =====
-- lib/jev-readiness.js: when the gate opens.
use mathlib.Core.List.{Memᴰ}
use view_limits.Base.{
  Bool, true, false, ◌&&◌, Option, none, some, List, [], ◌∷◌, ◌++◌, is_empty, all, ◌≡◌, refl, ap,
  ◌∙◌, arith, ◌↔◌,
}
use view_limits.Base.Sort.{sort_by-all}
use view_limits.Base.Text.{Engine}
use view_limits.Value.{Value}
use view_limits.Readiness.{
  Item, Required, is_pass, is_required, find_item, extras_of, required_items, item_or_absent,
  not_pass, normalized, evaluate_readiness, items_of, readiness_items, item_le,
}

abbrev passes : Item → Bool
passes i = is_pass i.verdict

not_pass-all : (xs : List Item) → is_empty (not_pass xs) ≡ all passes xs
unfolding not_pass
not_pass-all [] = refl
not_pass-all (x ∷ xs) = ground (arith, not_pass-all xs)

all-append : (xs ys : List Item) → all passes (xs ++ ys) ≡ all passes xs && all passes ys
all-append [] ys = refl
all-append (x ∷ xs) ys = ground (arith, all-append xs ys)

-- Item `r` is among the items, and the first one with its id is a pass.
abbrev pub IsPassed : List Item → Required → Type 0
IsPassed found r = (i : Item) × (find_item r.id found ≡ some i) × (is_pass i.verdict ≡ true)

passed_first :
    (r : Required) (o : Option Item)
    → is_pass (item_or_absent o r).verdict ≡ true
    → (i : Item) × (o ≡ some i) × (is_pass i.verdict ≡ true)
passed_first r none h = absurd (ground arith)
passed_first r (some i) h = (i, refl, h)

required-IsPassed :
    (rs : List Required) (found : List Item)
    → all passes (required_items rs found) ≡ true
    → (r : Required) → Memᴰ r rs
    → IsPassed found r
unfolding required_items
required-IsPassed [] found h r m = elim m [ ]
required-IsPassed (q ∷ rs) found h r (Memᴰ.head e) =
    rw (e) (passed_first q (find_item q.id found) (ground arith))
required-IsPassed (q ∷ rs) found h r (Memᴰ.tail m) = required-IsPassed rs found (ground arith) r m

passed_required :
    (rs : List Required) (found : List Item)
    → ((r : Required) → Memᴰ r rs → IsPassed found r)
    → all passes (required_items rs found) ≡ true
unfolding required_items
passed_required [] found h = refl
passed_required (q ∷ rs) found h =
    let (i, e, p) = h q (Memᴰ.head refl) in
    rw (e, p) (passed_required rs found (λ r m. h r (Memᴰ.tail m)))

extras_passed :
    (xs : List Item)
    → all passes (extras_of xs) ≡ true
    → (i : Item) → Memᴰ i xs
    → is_required i ≡ false
    → is_pass i.verdict ≡ true
unfolding extras_of
extras_passed [] h i m n = elim m [ ]
extras_passed (x ∷ xs) h i (Memᴰ.head e) n = ap passes e ∙ ground (arith, ap is_required e)
extras_passed (x ∷ xs) h i (Memᴰ.tail m) n = extras_passed xs (ground arith) i m n

passed_extras :
    (xs : List Item)
    → ((i : Item) → Memᴰ i xs → is_required i ≡ false → is_pass i.verdict ≡ true)
    → all passes (extras_of xs) ≡ true
unfolding extras_of
passed_extras [] h = refl
passed_extras (x ∷ xs) h =
    ground (arith, h x (Memᴰ.head refl), passed_extras xs (λ i m. h i (Memᴰ.tail m)))

module _ ⦃e : Engine⦄ where
  pub record IsReady (found : List Item) : Type 0 where
    pub required : (r : Required) → Memᴰ r readiness_items → IsPassed found r
    pub extras : (i : Item) → Memᴰ i found → is_required i ≡ false → is_pass i.verdict ≡ true

  not_pass-normalized :
      (found : List Item)
      → is_empty (not_pass (normalized found))
        ≡ all passes (required_items readiness_items found) && all passes (extras_of found)
  unfolding normalized
  not_pass-normalized found =
      not_pass-all _
      ∙ sort_by-all item_le passes (required_items readiness_items found ++ extras_of found)
      ∙ all-append (required_items readiness_items found) (extras_of found)

  -- The gate is open exactly when the model is verified, the first item with each of the eleven ids
  -- is there and passes, and every item with another id passes.
  pub evaluate_readiness_iff :
      (items : Value) (verified : Bool)
      → (evaluate_readiness items verified).is_open ≡ true
        ↔ ((verified ≡ true) × IsReady (items_of items))
  unfolding evaluate_readiness
  evaluate_readiness_iff items verified = (
    λ h. (
      ground arith,
      record {
        required =
            required-IsPassed readiness_items (items_of items)
              (ground (arith, not_pass-normalized (items_of items)));
        extras =
            extras_passed (items_of items) (ground (arith, not_pass-normalized (items_of items)));
      },
    ),
    λ (v, r).
        rw
          (
            v,
            not_pass-normalized (items_of items),
            passed_required readiness_items (items_of items) r.required,
            passed_extras (items_of items) r.extras,
          )
          refl,
  )
