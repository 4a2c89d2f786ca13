-- ===== src/Collector/Ids.antt =====
-- lib/collector.js: the ids of the routes of the configuration.
use view_limits.Base.{
  Bool, true, false, ◌||◌, Option, none, some, List, [], ◌∷◌, String, str_eq, ◌≡◌, refl, sym, ap,
  ◌∙◌, arith, Option-cases, eq_iff, includes, Bool-cases, inl, inr, if◌then◌else◌,
}
use view_limits.Base.Text.{is_blank}
use view_limits.Value.{Value, undefined, null, bool, num, str, arr, obj, get, get_field, text_of}
use view_limits.Cache.{route_by_id, route_at, has_id}
use view_limits.Collector.Plan.{identified, fields_of}
use view_limits.Collector.States.{configured_ids, is_distinct}

-- The route has the id.
abbrev pub is_of : String → Value → Bool
is_of id r = has_id id (get "id" r)

pub route_at_lem :
    (id : String) (r : Value) → route_at id r ≡ (if is_of id r then some (fields_of r) else none)
route_at_lem id (obj fs) = refl
route_at_lem id undefined = refl
route_at_lem id null = refl
route_at_lem id (bool b) = refl
route_at_lem id (num n) = refl
route_at_lem id (str s) = refl
route_at_lem id (arr vs) = refl

pub is_of-obj : (id : String) (r : Value) → is_of id r ≡ true → obj (fields_of r) ≡ r
is_of-obj id (obj fs) h = refl
is_of-obj id undefined h = absurd (ground arith)
is_of-obj id null h = absurd (ground arith)
is_of-obj id (bool b) h = absurd (ground arith)
is_of-obj id (num n) h = absurd (ground arith)
is_of-obj id (str s) h = absurd (ground arith)
is_of-obj id (arr vs) h = absurd (ground arith)

unfoldable pub names : String → Option String → Bool
names id none = false
names id (some k) = str_eq k id

has_id_lem : (id : String) (v : Value) → is_blank id ≡ false → has_id id v ≡ names id (text_of v)
unfolding names
has_id_lem id (str s) b = ground (arith, b, eq_iff s id, blank_same s id)
  where
    blank_same : (s t : String) → s ≡ t → is_blank s ≡ is_blank t
    blank_same s t q = ap is_blank q
has_id_lem id undefined b = refl
has_id_lem id null b = refl
has_id_lem id (bool x) b = refl
has_id_lem id (num n) b = refl
has_id_lem id (arr vs) b = refl
has_id_lem id (obj fs) b = refl

-- A text that is not blank is the id of the route exactly when the route is identified by it.
pub identified_lem :
    (id : String) (r : Value) → is_blank id ≡ false → is_of id r ≡ names id (identified r)
unfolding names
identified_lem id (obj fs) b = has_id_lem id (get_field "id" fs) b
identified_lem id undefined b = refl
identified_lem id null b = refl
identified_lem id (bool x) b = refl
identified_lem id (num n) b = refl
identified_lem id (str s) b = refl
identified_lem id (arr vs) b = refl

text_of-filled : (v : Value) (k : String) → text_of v ≡ some k → is_blank k ≡ false
text_of-filled (str s) k h = elim (Bool-cases (is_blank s)) [
  | inl t ↦ absurd (ground (arith, h, t))
  | inr f ↦ ap is_blank (ground (arith, h, f)) ∙ f
]
text_of-filled undefined k h = absurd (ground arith)
text_of-filled null k h = absurd (ground arith)
text_of-filled (bool b) k h = absurd (ground arith)
text_of-filled (num n) k h = absurd (ground arith)
text_of-filled (arr vs) k h = absurd (ground arith)
text_of-filled (obj fs) k h = absurd (ground arith)

identified-filled : (r : Value) (k : String) → identified r ≡ some k → is_blank k ≡ false
identified-filled (obj fs) k h = text_of-filled (get_field "id" fs) k h
identified-filled undefined k h = absurd (ground arith)
identified-filled null k h = absurd (ground arith)
identified-filled (bool b) k h = absurd (ground arith)
identified-filled (num n) k h = absurd (ground arith)
identified-filled (str s) k h = absurd (ground arith)
identified-filled (arr vs) k h = absurd (ground arith)

-- An id that is configured is not blank.
pub blank_unnamed :
    (rs : List Value) (id : String) → includes (configured_ids rs) id ≡ true → is_blank id ≡ false
unfolding configured_ids
blank_unnamed [] id h = absurd (ground arith)
blank_unnamed (r ∷ rs) id h = elim (Option-cases (identified r)) [
  | inl n ↦ blank_unnamed rs id (ground (arith, h, n))
  | inr (k, q) ↦ elim (Bool-cases (str_eq k id)) [
    | inl t ↦ ap is_blank (sym ((eq_iff k id).0 t)) ∙ identified-filled r k q
    | inr f ↦ blank_unnamed rs id (ground (arith, h, q, f))
  ]
]

pub configured_first :
    (id : String) (r : Value) (rs : List Value)
    → is_blank id ≡ false
    → includes (configured_ids (r ∷ rs)) id ≡ (is_of id r || includes (configured_ids rs) id)
unfolding configured_ids names
configured_first id r rs b = elim (Option-cases (identified r)) [
  | inl n ↦ ground (arith, identified_lem id r b, n)
  | inr (k, q) ↦ ground (arith, identified_lem id r b, q)
]

pub distinct_rest :
    (r : Value) (rs : List Value)
    → is_distinct (configured_ids (r ∷ rs)) ≡ true
    → is_distinct (configured_ids rs) ≡ true
unfolding configured_ids is_distinct
distinct_rest r rs h = ground (arith, h, identified r)

pub distinct_first :
    (id : String) (r : Value) (rs : List Value)
    → is_blank id ≡ false
    → is_distinct (configured_ids (r ∷ rs)) ≡ true
    → is_of id r ≡ true
    → includes (configured_ids rs) id ≡ false
unfolding configured_ids is_distinct names
distinct_first id r rs b u h = elim (Option-cases (identified r)) [
  | inl n ↦ absurd (ground (arith, identified_lem id r b, n, h))
  | inr (k, q) ↦ ground (
    arith,
    identified_lem id r b,
    q,
    u,
    h,
    eq_iff k id,
    ap (includes (configured_ids rs)) (same_id k q),
  )
]
  where
    same_id : (k : String) → identified r ≡ some k → k ≡ id
    same_id k q = (eq_iff k id).0 (ground (arith, identified_lem id r b, q, h))

-- An id that is not configured has no route.
pub route_by_id-absent :
    (id : String) (rs : List Value)
    → is_blank id ≡ false
    → includes (configured_ids rs) id ≡ false
    → route_by_id id rs ≡ none
unfolding route_by_id
route_by_id-absent id [] b h = refl
route_by_id-absent id (r ∷ rs) b h =
    let c = configured_first id r rs b in
    ground (arith, h, c, route_at_lem id r, route_by_id-absent id rs b (ground (arith, h, c)))
