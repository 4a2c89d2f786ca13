-- ===== src/Eligibility/Inputs.antt =====
-- lib/eligibility.js: what `evaluate` reads from its three arguments before its first check, and
-- the helpers that normalize names, requirement lists and families.
use view_limits.Base.{
  Bool, false, not, ◌||◌, Option, none, some, List, [], ◌∷◌, String, if◌then◌else◌, is_empty,
  includes, map,
}
use mathlib.Core.Option
use view_limits.Base.Sort.{sort_by}
use view_limits.Base.Text.{is_blank, fold, Engine, text_le}
use view_limits.Value.{Value, arr, str, get, items, is_true, truthy, text_of, is_plain_object}
use view_limits.Facts.{Fact, candidate_fact, fact_is_known, known_string, norm, add_name, add_names}
use view_limits.Registry.{Registry, ModelEntry, HarnessEntry}

-- `Array.isArray(v) ? v : [v]`.
abbrev as_list : Value → List Value
as_list (arr vs) = items vs
as_list v = v ∷ []

module _ ⦃e : Engine⦄ where
  -- `reqList(v)`.
  unfoldable pub req_list : Value → List String
  unfolding add_names
  req_list v = sort_by text_le (add_names (as_list v) [])

  -- `nameSet(identityFact, entryFact)`; the entry is given as its id and its aliases.
  unfoldable pub name_set : Fact → Option (String × List String) → Option (List String)
  unfolding add_names
  name_set identity entry = elim (known_string identity) [
    | none ↦ none
    | some literal ↦ some (elim entry [
      | none ↦ fold literal ∷ []
      | some (id, aliases) ↦ add_names (map str aliases) (add_name (str id) (fold literal ∷ []))
    ])
  ]

  -- `provenPositive(v, positiveVocabulary)`.
  unfoldable pub proven_positive : Value → List String → Bool
  unfolding norm
  proven_positive v vocabulary =
      is_true v || elim (norm v) [ none ↦ false | some n ↦ includes vocabulary n ]

  -- `canonicalFamily(reg, name)`; `||` passes over an empty id.
  unfoldable pub canonical_family : Registry → String → Option String
  unfolding norm
  canonical_family reg name = elim (norm (str name)) [
    | none ↦ none
    | some n ↦
        if is_blank n
        then none
        else some (elim (reg.canonical_family_id n) [
          | none ↦ n
          | some id ↦ if is_blank id then n else id
        ])
  ]

  -- `candidateFamily(reg, modelEntryFact, declaredFamilyFact)`.
  unfoldable pub candidate_family : Registry → Option ModelEntry → Fact → Option String
  candidate_family reg entry declared =
      let from_declared : Option String = elim (known_string declared) [
        | none ↦ none
        | some d ↦ canonical_family reg d
      ] in
      elim entry [
        | none ↦ from_declared
        | some m ↦ if is_blank m.family then from_declared else canonical_family reg m.family
      ]

  -- The subject's family by its model, when it names no family.
  family_of_model : Registry → Fact → Option String
  family_of_model reg model = elim (known_string model) [
    | none ↦ none
    | some m ↦ elim (reg.lookup_model (str m)) [
      | none ↦ none
      | some entry ↦ if is_blank entry.family then none else canonical_family reg entry.family
    ]
  ]

  -- `subjectFamily(reg, subject)`: a text, an object, or anything else.
  unfoldable pub subject_family : Registry → Value → Option String
  unfolding family_of_model
  subject_family reg subject = elim (text_of subject) [
    | some name ↦ canonical_family reg name
    | none ↦
        if not (is_plain_object subject)
        then none
        else elim (known_string (candidate_fact (get "family" subject))) [
          | some family ↦ canonical_family reg family
          | none ↦ family_of_model reg (candidate_fact (get "model" subject))
        ]
  ]

abbrev names_of_model : ModelEntry → String × List String
names_of_model m = (m.id, m.aliases)

abbrev names_of_harness : HarnessEntry → String × List String
names_of_harness h = (h.id, h.aliases)

-- `factIsKnown(f) ? lookup(f.value) : null`.
abbrev look_up {ℓ} : {A : Type ℓ} → (Value → Option A) → Fact → Option A
look_up lookup f = if fact_is_known f then lookup f.value else none

-- The facts and lists that the checks read.
pub record Inputs : Type 0 where
  pub model : Fact
  pub harness : Fact
  pub harness_available : Fact
  pub profile : Fact
  pub family : Fact
  pub skills : Fact
  pub task_capabilities : Fact
  pub execution_capabilities : Fact
  pub route_id : Fact
  pub route_state : Fact
  pub model_entry : Option ModelEntry
  pub harness_entry : Option HarnessEntry
  pub model_names : Option (List String)
  pub harness_names : Option (List String)
  pub forbid_routes : List String
  pub forbid_profiles : List String
  pub forbid_models : List String
  pub forbid_harnesses : List String
  pub req_models : List String
  pub req_harnesses : List String
  pub req_task_caps : List String
  pub req_exec_caps : List String
  pub req_skills : List String
  pub need_route_id : Bool
  pub need_route_state : Bool
  pub require_different_family : Bool
  pub cand_fam : Option String
  pub subj_fam : Option String

module _ ⦃e : Engine⦄ where
  unfoldable pub read_inputs : Value → Value → Registry → Inputs
  read_inputs candidate policy reg =
      let require = get "require" policy in
      let forbid = get "forbid" policy in
      let review = get "review" policy in
      let route = get "route" candidate in
      let model = candidate_fact (get "model" candidate) in
      let harness = candidate_fact (get "harness" candidate) in
      let family = candidate_fact (get "family" candidate) in
      let model_entry : Option ModelEntry = look_up reg.lookup_model model in
      let harness_entry : Option HarnessEntry = look_up reg.lookup_harness harness in
      let forbid_routes = req_list (get "routes" forbid) in
      record {
        model = model;
        harness = harness;
        harness_available = candidate_fact (get "harnessAvailable" candidate);
        profile = candidate_fact (get "profile" candidate);
        family = family;
        skills = candidate_fact (get "skills" candidate);
        task_capabilities = candidate_fact (get "taskCapabilities" candidate);
        execution_capabilities = candidate_fact (get "executionCapabilities" candidate);
        route_id = candidate_fact (get "id" route);
        route_state = candidate_fact (get "state" route);
        model_entry = model_entry;
        harness_entry = harness_entry;
        model_names = name_set model (Option.map names_of_model model_entry);
        harness_names = name_set harness (Option.map names_of_harness harness_entry);
        forbid_routes = forbid_routes;
        forbid_profiles = req_list (get "profiles" forbid);
        forbid_models = req_list (get "models" forbid);
        forbid_harnesses = req_list (get "harnesses" forbid);
        req_models = req_list (get "models" require);
        req_harnesses = req_list (get "harnesses" require);
        req_task_caps = req_list (get "taskCapabilities" require);
        req_exec_caps = req_list (get "executionCapabilities" require);
        req_skills = req_list (get "skills" require);
        need_route_id = is_true (get "route" require) || not (is_empty forbid_routes);
        need_route_state = is_true (get "usableRoute" require);
        require_different_family = truthy (get "requireDifferentFamily" review);
        cand_fam = candidate_family reg model_entry family;
        subj_fam = subject_family reg (get "subject" review);
      }
