-- ===== src/Collector/States.antt =====
-- lib/collector.js: looking a route up in the states, the entries and the routes of a collection.
use view_limits.Base.{
  Bool, true, false, not, ◌&&◌, Option, none, some, List, [], ◌∷◌, ◌++◌, String, str_eq, ◌≡◌, refl,
  sym, ap, ◌∙◌, arith, Option-cases, eq_iff, eq_refl, includes, Bool-cases, inl, inr, map,
  if◌then◌else◌,
}
use view_limits.Base.Text.{Engine}
use view_limits.Value.{
  Value, undefined, null, bool, num, str, arr, obj, Fields, end, field, get_field, text_of,
}
use view_limits.Monitor.Validate.{Url}
use view_limits.Cache.{route_by_id, has_id, route_at}
use view_limits.Collector.Plan.{
  State, Planned, Deps, Credential, by_credential, identified, plan_from, plan_route,
}
use view_limits.Collector.Fetches.{Session}
use view_limits.Collector.Passes.{Round, set_field, change_state, mark, settle, pass_one}
use view_limits.Collector.Collect.{states_of}

-- `stateOf(states, id)`.
unfoldable pub state_of : String → List State → Option State
state_of id [] = none
state_of id (s ∷ ss) = let rest = state_of id ss in if str_eq s.id id then some s else rest

abbrev pub ids : List State → List String
ids = map State.id

-- No text stands in the list twice.
unfoldable pub is_distinct : List String → Bool
is_distinct [] = true
is_distinct (s ∷ ss) = not (includes ss s) && is_distinct ss

pub get_field-set_field :
    (k id : String) (v : Value) (fs : Fields)
    → get_field k (set_field id v fs) ≡ (if str_eq id k then v else get_field k fs)
unfolding set_field
get_field-set_field k id v end = refl
get_field-set_field k id v (field j w fs) =
    ground (arith, get_field-set_field k id v fs, eq_iff j id, eq_iff id k, eq_iff j k)

pub state_of-append :
    (k : String) (ss : List State) (s : State)
    → state_of k (ss ++ s ∷ [])
      ≡ elim (state_of k ss) [ some x ↦ some x | none ↦ if str_eq s.id k then some s else none ]
unfolding state_of
state_of-append k [] s = ground arith
state_of-append k (x ∷ ss) s = ground (arith, state_of-append k ss s)

pub route_by_id-append :
    (k : String) (rs : List Value) (route : Fields)
    → route_by_id k (rs ++ obj route ∷ [])
      ≡ (if has_id k (get_field "id" route) then some route else route_by_id k rs)
unfolding route_by_id
route_by_id-append k [] route = ground arith
route_by_id-append k (r ∷ rs) route = ground (arith, route_by_id-append k rs route)

has_id-to : (k : String) (v : Value) → has_id k v ≡ true → v ≡ str k
has_id-to k (str s) h = ap str ((eq_iff s k).0 h)
has_id-to k undefined h = absurd (ground arith)
has_id-to k null h = absurd (ground arith)
has_id-to k (bool b) h = absurd (ground arith)
has_id-to k (num n) h = absurd (ground arith)
has_id-to k (arr vs) h = absurd (ground arith)
has_id-to k (obj fs) h = absurd (ground arith)

some_same : {r l : Fields} → some r ≡ some l → r ≡ l
some_same h = ground (arith, h)

chosen-id :
    (k : String) (b : Bool) (r route : Fields)
    → has_id k (get_field "id" r) ≡ b
    → (if b then some r else none) ≡ some route
    → get_field "id" route ≡ str k
chosen-id k true r route q h =
    ap (get_field "id") (sym (some_same h)) ∙ has_id-to k (get_field "id" r) q
chosen-id k false r route q h = absurd (ground arith)

route_at-has_id :
    (k : String) (r : Value) (route : Fields)
    → route_at k r ≡ some route
    → get_field "id" route ≡ str k
route_at-has_id k (obj fs) route h = chosen-id k (has_id k (get_field "id" fs)) fs route refl h
route_at-has_id k undefined route h = absurd (ground arith)
route_at-has_id k null route h = absurd (ground arith)
route_at-has_id k (bool b) route h = absurd (ground arith)
route_at-has_id k (num n) route h = absurd (ground arith)
route_at-has_id k (str s) route h = absurd (ground arith)
route_at-has_id k (arr vs) route h = absurd (ground arith)

identified-str : (v : Value) (id : String) → text_of v ≡ some id → v ≡ str id
identified-str (str s) id h = ground (arith, h)
identified-str undefined id h = absurd (ground arith)
identified-str null id h = absurd (ground arith)
identified-str (bool b) id h = absurd (ground arith)
identified-str (num n) id h = absurd (ground arith)
identified-str (arr vs) id h = absurd (ground arith)
identified-str (obj fs) id h = absurd (ground arith)

identified-route :
    (r : Value) (id : String) → identified r ≡ some id → (fs : Fields) × (route_at id r ≡ some fs)
identified-route (obj fs) id h = (fs, rw (identified-str (get_field "id" fs) id h, eq_refl id) refl)
identified-route undefined id h = absurd (ground arith)
identified-route null id h = absurd (ground arith)
identified-route (bool b) id h = absurd (ground arith)
identified-route (num n) id h = absurd (ground arith)
identified-route (str s) id h = absurd (ground arith)
identified-route (arr vs) id h = absurd (ground arith)

-- The route that is found has the id that was asked for.
pub route_by_id-has_id :
    (k : String) (rs : List Value) (route : Fields)
    → route_by_id k rs ≡ some route
    → get_field "id" route ≡ str k
unfolding route_by_id
route_by_id-has_id k [] route h = absurd (ground arith)
route_by_id-has_id k (r ∷ rs) route h = elim (Option-cases (route_by_id k rs)) [
  | inl n ↦ route_at-has_id k r route (ground (arith, h, n))
  | inr (l, q) ↦ route_by_id-has_id k rs route (ground (arith, h, q))
]

pub state_of-none :
    (k : String) (ss : List State) → includes (ids ss) k ≡ false → state_of k ss ≡ none
unfolding state_of
state_of-none k [] h = refl
state_of-none k (s ∷ ss) h = ground (arith, state_of-none k ss, h)

pub mark-id : (f : Option String) (s : State) → (mark f s).id ≡ s.id
mark-id none s = refl
mark-id (some m) s = refl

ids-change_state :
    (k : String) (f : Option String) (ss : List State) → ids (change_state k (mark f) ss) ≡ ids ss
unfolding change_state
ids-change_state k f [] = refl
ids-change_state k f (s ∷ ss) = ground (arith, mark-id f s, ids-change_state k f ss)

-- The first pass leaves the ids of the states alone.
pub ids-pass_one :
    (d : Deps) (x : Session) (observed : List (String × Value)) (ps : List Planned) (r : Round)
    → ids (pass_one d x observed ps r).states ≡ ids r.states
unfolding pass_one settle
ids-pass_one d x observed [] r = refl
ids-pass_one d x observed (p ∷ ps) r =
    ids-pass_one d x observed ps (settle d x observed p r) ∙ ids-change_state p.state.id _ r.states

-- The ids that a configuration names, in order.
unfoldable pub configured_ids : List Value → List String
configured_ids [] = []
configured_ids (r ∷ rs) =
    let rest = configured_ids rs in elim (identified r) [ none ↦ rest | some id ↦ id ∷ rest ]

by_credential-id : (id : String) (c : Credential) → (by_credential id c).id ≡ id
by_credential-id id Credential.held = refl
by_credential-id id Credential.missing = refl
by_credential-id id Credential.unreadable = refl

module _ ⦃e : Engine⦄ ⦃u : Url⦄ where
  pub plan_route-id :
      (d : Deps) (cfg : Value) (id : String) (r : Value) → (plan_route d cfg id r).id ≡ id
  unfolding plan_route
  plan_route-id d cfg id r = ground (arith, by_credential-id id (d.has_credential id))

  pub ids-plan_from :
      (d : Deps) (cfg : Value) (rs : List Value)
      → ids (states_of (plan_from d cfg rs)) ≡ configured_ids rs
  unfolding plan_from states_of configured_ids
  ids-plan_from d cfg [] = refl
  ids-plan_from d cfg (r ∷ rs) = elim (Option-cases (identified r)) [
    | inl n ↦ ground (arith, n, ids-plan_from d cfg rs)
    | inr (id, q) ↦ ground (arith, q, plan_route-id d cfg id r, ids-plan_from d cfg rs)
  ]

-- A route is found for each id that is planned.
pub route_by_id-some :
    (k : String) (rs : List Value)
    → includes (configured_ids rs) k ≡ true
    → (route : Fields) × (route_by_id k rs ≡ some route)
unfolding configured_ids route_by_id
route_by_id-some k [] h = absurd (ground arith)
route_by_id-some k (r ∷ rs) h = elim (Option-cases (route_by_id k rs)) [
  | inr (l, q) ↦ (l, ground (arith, q))
  | inl n ↦ elim (Option-cases (identified r)) [
    | inl none_here ↦
        let (l, q) = route_by_id-some k rs (ground (arith, h, none_here)) in
        absurd (ground (arith, q, n))
    | inr (id, q) ↦ elim (Bool-cases (str_eq id k)) [
      | inl t ↦
          let (l, at) = identified-route r id q in (l, ground (arith, at, n, (eq_iff id k).0 t))
      | inr f ↦
          let (l, w) = route_by_id-some k rs (ground (arith, h, q, f)) in
          absurd (ground (arith, w, n))
    ]
  ]
]
