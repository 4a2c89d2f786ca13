-- ===== src/Monitor/Accepted.antt =====
-- `validateRecipeOptions` of lib/monitor-schema.js: what its answer says of every option.
use mathlib.Core.List.{Memᴰ}
use view_limits.Base.{
  Bool, true, false, Option, none, some, List, [], ◌∷◌, String, if◌then◌else◌, includes, ◌≡◌, ◌≢◌,
  ◌↔◌, inl, inr, refl, sym, ap, ◌∙◌, arith, Bool-cases, Option-cases, Memᴰ-includes, includes-Memᴰ,
}
use view_limits.Base.Text.{Engine}
use view_limits.Value.{
  Value, undefined, null, bool, num, str, arr, obj, Fields, end, field, get_field,
}
use view_limits.Monitor.{field_names}
use view_limits.Monitor.Secrets.{is_secret_field, is_secret_option_name, looks_like_secret_value}
use view_limits.Monitor.Options.{
  Declared, fits, is_object, check_entries, check_names, check_option, check_spec, check_declared,
  keys, or_else, get_option_spec, validate_recipe_options, ill_shaped,
}

pub data HasEntry (k : String) (v : Value) : Fields → Type 0 where
  here : (fs : Fields) → HasEntry k v (field k v fs)
  there : (j : String) (w : Value) (fs : Fields) → HasEntry k v fs → HasEntry k v (field j w fs)

-- An option that may be written to the configuration file.
pub record IsPersistable ⦃e : Engine⦄ (k : String) (v : Value) : Type 0 where
  pub no_secret_field : is_secret_field k ≡ false
  pub no_secret_name : is_secret_option_name k ≡ false
  pub primitive : is_object v ≡ false
  pub no_secret_value : looks_like_secret_value v ≡ false

-- A declared option is left out where it may be, or has a value of its shape.
pub data Satisfies (d : Declared) (v : Value) : Type 0 where
  left_out : v ≡ undefined → d.spec.is_required ≡ false → Satisfies d v
  given : v ≢ undefined → fits d.spec.shape v ≡ true → Satisfies d v

or_else-none : {A : Type 0} (a b : Option A) → or_else a b ≡ none → (a ≡ none) × (b ≡ none)
or_else-none none b h = (refl, h)
or_else-none (some a) b h = ground arith

or_else_both : {A : Type 0} (a b : Option A) → a ≡ none → b ≡ none → or_else a b ≡ none
or_else_both none b p q = q
or_else_both (some a) b p q = p

module _ ⦃e : Engine⦄ where
  entries-to :
      (k : String) (v : Value) (fs : Fields)
      → HasEntry k v fs
      → check_entries fs ≡ none
      → IsPersistable k v
  unfolding check_entries
  entries-to k v _ (here fs) h = record {
    no_secret_field = ground (arith, h);
    no_secret_name = ground (arith, h);
    primitive = ground (arith, h);
    no_secret_value = ground (arith, h);
  }
  entries-to k v _ (there j w fs m) h = entries-to k v fs m (ground (arith, h))

  entries-from :
      (fs : Fields)
      → ((k : String) (v : Value) → HasEntry k v fs → IsPersistable k v)
      → check_entries fs ≡ none
  unfolding check_entries
  entries-from end f = refl
  entries-from (field k v fs) f =
      let p = f k v (here fs) in
      let rest = entries-from fs (λ j w m. f j w (there k v fs m)) in
      ground (arith, p.no_secret_field, p.no_secret_name, p.primitive, p.no_secret_value, rest)

names-to :
    (spec : List Declared) (ks : List String)
    → check_names spec ks ≡ none
    → (k : String) → Memᴰ k ks
    → Memᴰ k (keys spec)
unfolding check_names
names-to spec [] h j m = elim m [ ]
names-to spec (k ∷ ks) h j (Memᴰ.head q) =
    includes-Memᴰ (keys spec) j (ap (includes (keys spec)) q ∙ ground (arith, h))
names-to spec (k ∷ ks) h j (Memᴰ.tail m) = names-to spec ks (ground (arith, h)) j m

names-from :
    (spec : List Declared) (ks : List String)
    → ((k : String) → Memᴰ k ks → Memᴰ k (keys spec))
    → check_names spec ks ≡ none
unfolding check_names
names-from spec [] f = refl
names-from spec (k ∷ ks) f =
    let first = Memᴰ-includes (f k (Memᴰ.head refl)) in
    let rest = names-from spec ks (λ j m. f j (Memᴰ.tail m)) in ground (arith, first, rest)

is_there : Value → Bool
is_there undefined = false
is_there _ = true

fits-option :
    (d : Declared) (v : Value)
    → is_there v ≡ true
    → check_option d v ≡ (if fits d.spec.shape v then none else some (ill_shaped d.key))
unfolding is_there
fits-option d undefined h = ground arith
fits-option d null h = refl
fits-option d (bool b) h = refl
fits-option d (num n) h = refl
fits-option d (str s) h = refl
fits-option d (arr vs) h = refl
fits-option d (obj fs) h = refl

is_there-false : (v : Value) → is_there v ≡ false → v ≡ undefined
unfolding is_there
is_there-false undefined h = refl
is_there-false null h = ground arith
is_there-false (bool b) h = ground arith
is_there-false (num n) h = ground arith
is_there-false (str s) h = ground arith
is_there-false (arr vs) h = ground arith
is_there-false (obj fs) h = ground arith

option-to : (d : Declared) (v : Value) → check_option d v ≡ none → Satisfies d v
unfolding is_there
option-to d v h = elim (Bool-cases (is_there v)) [
  | inl t ↦ given (λ q. ground (arith, t, ap is_there q)) (ground (arith, h, fits-option d v t))
  | inr f ↦
      left_out (is_there-false v f)
        (ground (arith, sym (ap (check_option d) (is_there-false v f)) ∙ h))
]

option-from : (d : Declared) (v : Value) → Satisfies d v → check_option d v ≡ none
option-from d v (left_out q r) = ap (check_option d) q ∙ ground (arith, r)
option-from d v (given q r) = elim (Bool-cases (is_there v)) [
  | inl t ↦ fits-option d v t ∙ ground (arith, r)
  | inr f ↦ absurd (q (is_there-false v f))
]

spec-to :
    (ds : List Declared) (opts : Fields)
    → check_spec ds opts ≡ none
    → (d : Declared) → Memᴰ d ds
    → Satisfies d (get_field d.key opts)
unfolding check_spec
spec-to [] opts h d m = elim m [ ]
spec-to (c ∷ ds) opts h d (Memᴰ.head q) =
    option-to d (get_field d.key opts)
      (ap (λ x. check_option x (get_field x.key opts)) q ∙ (or_else-none _ _ h).0)
spec-to (c ∷ ds) opts h d (Memᴰ.tail m) = spec-to ds opts ((or_else-none _ _ h).1) d m

spec-from :
    (ds : List Declared) (opts : Fields)
    → ((d : Declared) → Memᴰ d ds → Satisfies d (get_field d.key opts))
    → check_spec ds opts ≡ none
unfolding check_spec
spec-from [] opts f = refl
spec-from (c ∷ ds) opts f =
    or_else_both _ _ (option-from c (get_field c.key opts) (f c (Memᴰ.head refl)))
      (spec-from ds opts (λ d m. f d (Memᴰ.tail m)))

-- Options that a recipe accepts: each may be kept, and where the recipe declares options there
-- are no others and each declared one is satisfied.
pub record IsAccepted ⦃e : Engine⦄ (recipe : Value) (opts : Fields) : Type 0 where
  pub persistable : (k : String) (v : Value) → HasEntry k v opts → IsPersistable k v
  pub declared :
      (spec : List Declared)
      → get_option_spec recipe ≡ some spec
      → (k : String) → Memᴰ k (field_names opts)
      → Memᴰ k (keys spec)
  pub satisfied :
      (spec : List Declared)
      → get_option_spec recipe ≡ some spec
      → (d : Declared) → Memᴰ d spec
      → Satisfies d (get_field d.key opts)

module _ ⦃e : Engine⦄ where
  declared-to :
      (o : Option (List Declared)) (opts : Fields) (spec : List Declared)
      → check_declared o opts ≡ none
      → o ≡ some spec
      → (check_names spec (field_names opts) ≡ none) × (check_spec spec opts ≡ none)
  declared-to o opts spec h q = or_else-none _ _ (ap (λ x. check_declared x opts) (sym q) ∙ h)

  accepted-to :
      (recipe : Value) (opts : Fields)
      → validate_recipe_options recipe (obj opts) ≡ none
      → IsAccepted recipe opts
  unfolding validate_recipe_options
  accepted-to recipe opts h =
      let (entries, rest) = or_else-none _ _ h in
      record {
        persistable = λ k v m. entries-to k v opts m entries;
        declared = λ spec q. names-to spec (field_names opts) (declared-to _ opts spec rest q).0;
        satisfied = λ spec q. spec-to spec opts (declared-to _ opts spec rest q).1;
      }

  accepted-from :
      (recipe : Value) (opts : Fields)
      → IsAccepted recipe opts
      → validate_recipe_options recipe (obj opts) ≡ none
  unfolding validate_recipe_options
  accepted-from recipe opts a =
      or_else_both _ _ (entries-from opts a.persistable)
        (elim (Option-cases (get_option_spec recipe)) [
          | inl n ↦ ap (λ o. check_declared o opts) n
          | inr (spec, q) ↦
              ap (λ o. check_declared o opts) q
              ∙ or_else_both _ _ (names-from spec (field_names opts) (a.declared spec q))
                  (spec-from spec opts (a.satisfied spec q))
        ])

  -- The options of a recipe are valid exactly when none of them looks like a credential or is not
  -- a primitive and, where the recipe declares its options, there is no other option, each
  -- required one is there, and each one that is there has the declared shape.
  pub validate_recipe_options-none_iff :
      (recipe : Value) (opts : Fields)
      → validate_recipe_options recipe (obj opts) ≡ none ↔ IsAccepted recipe opts
  validate_recipe_options-none_iff recipe opts =
      (accepted-to recipe opts, accepted-from recipe opts)
