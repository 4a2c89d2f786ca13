-- ===== src/Monitor/Stable.antt =====
-- `configRevision` of lib/monitor-schema.js: the edits of a route that leave its revision alone.
use mathlib.Core.List.{Memᴰ}
use mathlib.Core.Path.{subst}
use view_limits.Base.{
  Bool, true, false, not, ◌&&◌, ◌||◌, all, some, Option, List, [], ◌∷◌, String, str_eq,
  if◌then◌else◌, ◌≡◌, inl, inr, ◌⊎◌, refl, sym, ap, ◌∙◌, arith, eq_iff, Bool-cases,
}
use view_limits.Value.{Value, undefined, null, bool, num, str, arr, obj, Fields, field, get_field}
use view_limits.Monitor.Options.{
  Spec, Declared, option_specs, find_spec, get_option_spec, resolve_options, resolved_value,
  resolved_recipe_options, plain,
}
use view_limits.Score.Bounds.{some_injective}
use view_limits.Monitor.Revision.{revisioned}

put : String → Value → Fields → Fields
put k undefined fs = fs
put k v fs = field k v fs

get-put :
    (k j : String) (v : Value) (fs gs : Fields)
    → get_field k fs ≡ get_field k gs
    → get_field k (put j v fs) ≡ get_field k (put j v gs)
unfolding put
get-put k j undefined fs gs h = h
get-put k j null fs gs h = ground (arith, h)
get-put k j (bool b) fs gs h = ground (arith, h)
get-put k j (num n) fs gs h = ground (arith, h)
get-put k j (str s) fs gs h = ground (arith, h)
get-put k j (arr vs) fs gs h = ground (arith, h)
get-put k j (obj os) fs gs h = ground (arith, h)

get-put_other :
    (k j : String) (v : Value) (fs : Fields)
    → str_eq j k ≡ false
    → get_field k (put j v fs) ≡ get_field k fs
unfolding put
get-put_other k j undefined fs h = refl
get-put_other k j null fs h = ground (arith, h)
get-put_other k j (bool b) fs h = ground (arith, h)
get-put_other k j (num n) fs h = ground (arith, h)
get-put_other k j (str s) fs h = ground (arith, h)
get-put_other k j (arr vs) fs h = ground (arith, h)
get-put_other k j (obj os) fs h = ground (arith, h)

resolve_lem :
    (d : Declared) (ds : List Declared) (src : Fields)
    → resolve_options (d ∷ ds) src
      ≡ put d.key (resolved_value d.spec (get_field d.key src)) (resolve_options ds src)
unfolding resolve_options put
resolve_lem d ds src = go (resolved_value d.spec (get_field d.key src))
  where
    go :
        (v : Value)
        → (elim v [
          | undefined ↦ resolve_options ds src
          | w ↦ field d.key w (resolve_options ds src)
        ])
          ≡ put d.key v (resolve_options ds src)
    go undefined = refl
    go null = refl
    go (bool b) = refl
    go (num n) = refl
    go (str s) = refl
    go (arr vs) = refl
    go (obj os) = refl

-- One option of two configurations has the same value, or is left out of one and given its default
-- in the other.
pub data SameOption (s : Spec) (old new : Value) : Type 0 where
  unchanged : old ≡ new → SameOption s old new
  now_given : old ≡ undefined → new ≡ s.default_value → SameOption s old new
  now_omitted : old ≡ s.default_value → new ≡ undefined → SameOption s old new

resolved_default : (s : Spec) (v : Value) → v ≡ s.default_value → resolved_value s v ≡ v
resolved_default s undefined h = sym h
resolved_default s v h = refl

SameOption-resolved :
    (s : Spec) (old new : Value)
    → SameOption s old new
    → resolved_value s old ≡ resolved_value s new
SameOption-resolved s old new (unchanged h) = ap (resolved_value s) h
SameOption-resolved s old new (now_given h k) =
    ap (resolved_value s) h ∙ sym k ∙ sym (resolved_default s new k)
SameOption-resolved s old new (now_omitted h k) =
    resolved_default s old h ∙ h ∙ sym (ap (resolved_value s) k)

pub resolve_stable :
    (ds : List Declared) (k : String) (src new : Fields)
    → ((c : Declared)
        → Memᴰ c ds
        → c.key ≡ k
        → resolved_value c.spec (get_field c.key src) ≡ resolved_value c.spec (get_field c.key new))
    → get_field k (resolve_options ds src) ≡ get_field k (resolve_options ds new)
unfolding resolve_options
resolve_stable [] k src new h = refl
resolve_stable (d ∷ ds) k src new h =
    let rest = resolve_stable ds k src new (λ c m. h c (Memᴰ.tail m)) in
    elim (Bool-cases (str_eq d.key k)) [
      | inl t ↦
          ap (get_field k) (resolve_lem d ds src)
          ∙ get-put k d.key (resolved_value d.spec (get_field d.key src)) (resolve_options ds src)
              (resolve_options ds new) rest
          ∙ ap (λ v. get_field k (put d.key v (resolve_options ds new)))
              (h d (Memᴰ.head refl) ((eq_iff d.key k).0 t))
          ∙ sym (ap (get_field k) (resolve_lem d ds new))
      | inr f ↦
          ap (get_field k) (resolve_lem d ds src)
          ∙ get-put_other k d.key _ (resolve_options ds src) f
          ∙ rest
          ∙ sym (get-put_other k d.key _ (resolve_options ds new) f)
          ∙ sym (ap (get_field k) (resolve_lem d ds new))
    ]

-- `recipeOptions` agree, up to defaults, on every option that bears on the revision.
unfoldable pub AgreeOn : List Declared → (old new : Fields) → Type 0
AgreeOn [] old new = Unit
AgreeOn (d ∷ ds) old new =
    (d.spec.revision ≡ true → SameOption d.spec (get_field d.key old) (get_field d.key new))
    × AgreeOn ds old new

pub AgreeOn-resolved :
    (ds : List Declared) (old new : Fields)
    → AgreeOn ds old new
    → (c : Declared) → Memᴰ c ds
    → c.spec.revision ≡ true
    → resolved_value c.spec (get_field c.key old) ≡ resolved_value c.spec (get_field c.key new)
unfolding AgreeOn
AgreeOn-resolved [] old new a c m r = elim m [ ]
AgreeOn-resolved (d ∷ ds) old new (a, b) c (Memᴰ.head e) r =
    subst
      (λ x.
        resolved_value x.spec (get_field x.key old) ≡ resolved_value x.spec (get_field x.key new))
      (sym e)
      (SameOption-resolved d.spec (get_field d.key old) (get_field d.key new)
        (a (sym (ap (λ x. x.spec.revision) e) ∙ r)))
AgreeOn-resolved (d ∷ ds) old new (a, b) c (Memᴰ.tail m) r = AgreeOn-resolved ds old new b c m r

-- In the table, all declarations of one name bear on the revision or none does.
abbrev bears_alike : Declared → Declared → Bool
bears_alike d c = not (str_eq c.key d.key && d.spec.revision) || c.spec.revision

abbrev is_uniform : List Declared → Bool
is_uniform ds = all (λ d. all (bears_alike d) ds) ds

all-Memᴰ :
    (p : Declared → Bool) (ds : List Declared) (d : Declared)
    → all p ds ≡ true
    → Memᴰ d ds
    → p d ≡ true
all-Memᴰ p [] d h m = elim m [ ]
all-Memᴰ p (c ∷ ds) d h (Memᴰ.head e) = ap p e ∙ ground (arith, h)
all-Memᴰ p (c ∷ ds) d h (Memᴰ.tail m) = all-Memᴰ p ds d (ground (arith, h)) m

picked :
    (b : Bool) (t s : List Declared) (o : Option (List Declared))
    → (if b then some t else o) ≡ some s
    → (t ≡ s) ⊎ (o ≡ some s)
picked true t s o q = inl (some_injective q)
picked false t s o q = inr q

found_uniform :
    (id : String) (specs : List (String × List Declared)) (s : List Declared)
    → all (λ x. is_uniform x.1) specs ≡ true
    → find_spec id specs ≡ some s
    → is_uniform s ≡ true
unfolding find_spec
found_uniform id [] s h q = absurd (ground (arith, q))
found_uniform id ((k, t) ∷ specs) s h q = elim (picked (str_eq k id) t s (find_spec id specs) q) [
  | inl y ↦ ap is_uniform (sym y) ∙ ground (arith, h)
  | inr n ↦ found_uniform id specs s (ground (arith, h)) n
]

spec_uniform :
    (recipe : Value) (s : List Declared) → get_option_spec recipe ≡ some s → is_uniform s ≡ true
unfolding get_option_spec
spec_uniform (str id) s q = found_uniform id option_specs s refl q
spec_uniform v s q = absurd (ground (arith, q))

pub same_bearing :
    (recipe : Value) (s : List Declared)
    → get_option_spec recipe ≡ some s
    → (d c : Declared) → Memᴰ d s
    → Memᴰ c s
    → c.key ≡ d.key
    → d.spec.revision ≡ true
    → c.spec.revision ≡ true
same_bearing recipe s q d c m n e r = ground (
  arith,
  all-Memᴰ (bears_alike d) s c
      (all-Memᴰ (λ x. all (bears_alike x) s) s d (spec_uniform recipe s q) m) n,
  (eq_iff c.key d.key).1 e,
  r,
)

revisioned_lem :
    (d : Declared) (ds : List Declared) (r : Fields)
    → revisioned (d ∷ ds) r ≡ (
        if d.spec.revision
        then put d.key (get_field d.key r) (revisioned ds r)
        else revisioned ds r)
unfolding revisioned put
revisioned_lem d ds r =
    ap (λ x. if d.spec.revision then x else revisioned ds r) (go (get_field d.key r))
  where
    go :
        (v : Value)
        → (elim v [ undefined ↦ revisioned ds r | w ↦ field d.key w (revisioned ds r) ])
          ≡ put d.key v (revisioned ds r)
    go undefined = refl
    go null = refl
    go (bool b) = refl
    go (num n) = refl
    go (str s) = refl
    go (arr vs) = refl
    go (obj os) = refl

pub revisioned_stable :
    (ds : List Declared) (r new : Fields)
    → ((d : Declared)
        → Memᴰ d ds
        → d.spec.revision ≡ true
        → get_field d.key r ≡ get_field d.key new)
    → revisioned ds r ≡ revisioned ds new
unfolding revisioned
revisioned_stable [] r new h = refl
revisioned_stable (d ∷ ds) r new h =
    let rest = revisioned_stable ds r new (λ c m. h c (Memᴰ.tail m)) in
    revisioned_lem d ds r
    ∙ elim (Bool-cases d.spec.revision) [
      | inl t ↦ rw (t, h d (Memᴰ.head refl) t, rest) refl
      | inr f ↦ rw (f, rest) refl
    ]
    ∙ sym (revisioned_lem d ds new)

pub resolved_lem :
    (recipe opts : Value) (spec : List Declared)
    → get_option_spec recipe ≡ some spec
    → resolved_recipe_options recipe opts ≡ resolve_options spec (plain opts)
unfolding resolved_recipe_options
resolved_lem recipe opts spec q = rw (q, resolved_recipe_options) refl
