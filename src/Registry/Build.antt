-- ===== src/Registry/Build.antt =====
-- lib/capability-registry.js: how a registry is built from a document of entries, and its lookups.
-- A document that is refused gives none, where the source throws.
use view_limits.Base.{
  Bool, true, false, not, ◌&&◌, ◌||◌, Option, none, some, List, [], ◌∷◌, String, str_eq,
  if◌then◌else◌,
}
use view_limits.Base.Sort.{sort_by}
use view_limits.Base.Text.{Engine, is_blank, text_le}
use view_limits.Value.{Value, str, arr, obj, end, Fields, get, get_field, is_plain_object, items}
use view_limits.Facts.{norm, add_names}
use view_limits.Monitor.{field_names}
use view_limits.Registry.Entries.{default_entries}
use view_limits.Registry.{Registry, ModelEntry, HarnessEntry}

-- An entry of a section; a family is there for a model only.
pub record Entry : Type 0 where
  pub id : String
  pub family : String
  pub first_list : List String
  pub second_list : List String
  pub aliases : List String

-- `{ byId, aliasToId }`.
pub record Index : Type 0 where
  pub by_id : List Entry
  pub alias_to_id : List (String × String)

abbrev no_entries : Index
no_entries = record { by_id = []; alias_to_id = [] }

unfoldable pub find_entry : String → List Entry → Option Entry
find_entry id [] = none
find_entry id (x ∷ xs) = if str_eq x.id id then some x else find_entry id xs

unfoldable pub find_alias : String → List (String × String) → Option String
find_alias alias [] = none
find_alias alias ((a, id) ∷ rest) = if str_eq a alias then some id else find_alias alias rest

abbrev is_there {ℓ} : {A : Type ℓ} → Option A → Bool
is_there none = false
is_there (some a) = true

abbrev others : String → Option String → Bool
others id none = false
others id (some other) = not (str_eq other id)

abbrev list_items : Value → List Value
list_items (arr vs) = items vs
list_items _ = []

abbrev non_blank : Option String → Option String
non_blank none = none
non_blank (some s) = if is_blank s then none else some s

module _ ⦃e : Engine⦄ where
  -- `norm(v)`, with an empty name as none, as every caller reads it.
  unfoldable pub key_of : Value → Option String
  key_of v = non_blank (norm v)

  -- `normList(list)`.
  unfoldable pub norm_list : Value → List String
  norm_list v = sort_by text_le (add_names (list_items v) [])

  -- `byId.has(name) ? name : aliasToId.get(name)`.
  unfoldable pub canonical : Index → String → Option String
  unfolding find_entry find_alias
  canonical index name =
      if is_there (find_entry name index.by_id)
      then some name
      else find_alias name index.alias_to_id

-- The loop over the aliases of one entry.
unfoldable pub add_aliases : String → List String → Index → Option Index
unfolding find_entry find_alias
add_aliases id [] index = some index
add_aliases id (alias ∷ rest) index =
    let next =
      add_aliases id rest (record index { alias_to_id = (alias, id) ∷ index.alias_to_id }) in
    if is_there (find_entry alias index.by_id) && not (str_eq alias id)
      || others id (find_alias alias index.alias_to_id)
    then none
    else next

-- The names of the lists that `indexSection` normalizes.
pub data Kind : Type 0 where
  family_kind : Kind
  model_kind : (families : Index) → Kind
  harness_kind : Kind

abbrev as_object : Value → Value
as_object v = if is_plain_object v then v else obj end

module _ ⦃e : Engine⦄ where
  -- The canonical family of a model; other kinds have none.
  unfoldable pub family_of : Kind → Value → Option String
  unfolding key_of canonical
  family_of (model_kind families) raw = elim (key_of (get "family" raw)) [
    | none ↦ none
    | some family ↦ canonical families family
  ]
  family_of _ raw = some ""

  abbrev lists_of : Kind → Value → List String × List String
  unfolding norm_list
  lists_of family_kind raw = ([], [])
  lists_of (model_kind families) raw = (norm_list (get "taskCapabilities" raw), [])
  lists_of harness_kind raw =
      (norm_list (get "executionCapabilities" raw), norm_list (get "skills" raw))

  -- One turn of the loop over the ids.
  unfoldable pub add_entry : Kind → String → Value → Index → Option Index
  unfolding find_entry family_of add_aliases norm_list
  add_entry kind raw_id raw index = elim (key_of (str raw_id)) [
    | none ↦ none
    | some id ↦ if is_there (find_entry id index.by_id) then none else elim (family_of kind raw) [
      | none ↦ none
      | some family ↦ add_aliases id (norm_list (get "aliases" raw)) (record index {
        by_id =
            record {
              id = id;
              family = family;
              first_list = (lists_of kind raw).0;
              second_list = (lists_of kind raw).1;
              aliases = norm_list (get "aliases" raw);
            }
            ∷ index.by_id;
      })
    ]
  ]

  unfoldable pub add_all : Kind → Fields → List String → Index → Option Index
  unfolding add_entry
  add_all kind src [] index = some index
  add_all kind src (id ∷ ids) index =
      elim (add_entry kind id (as_object (get_field id src)) index) [
        | none ↦ none
        | some next ↦ add_all kind src ids next
      ]

-- The last loop: an alias that is the id of another entry.
unfoldable pub has_collision : List Entry → List (String × String) → Bool
unfolding find_entry
has_collision entries [] = false
has_collision entries ((alias, id) ∷ rest) =
    is_there (find_entry alias entries) && not (str_eq alias id) || has_collision entries rest

unfoldable settled : Option Index → Option Index
unfolding has_collision
settled none = none
settled (some index) = if has_collision index.by_id index.alias_to_id then none else some index

abbrev fields_of : Value → Fields
fields_of (obj fs) = fs
fields_of _ = end

module _ ⦃e : Engine⦄ where
  -- `indexSection(section, kind, listFields, familyIndex)`.
  unfoldable pub index_section : Kind → Value → Option Index
  unfolding add_all settled
  index_section kind section = settled (
      add_all kind (fields_of section) (sort_by text_le (field_names (fields_of section)))
        no_entries)

  -- `lookup(section, name)`, and the canonical id of a name.
  unfoldable pub lookup : Index → Value → Option Entry
  unfolding key_of canonical find_entry
  lookup index name = elim (key_of name) [
    | none ↦ none
    | some key ↦ elim (canonical index key) [ none ↦ none | some id ↦ find_entry id index.by_id ]
  ]

  unfoldable pub canonical_id : Index → String → Option String
  unfolding key_of canonical
  canonical_id index name = elim (key_of (str name)) [
    | none ↦ none
    | some key ↦ canonical index key
  ]

  abbrev model_of : Option Entry → Option ModelEntry
  model_of none = none
  model_of (some x) = some (record {
    id = x.id;
    family = x.family;
    aliases = x.aliases;
    task_capabilities = x.first_list;
  })

  abbrev harness_of : Option Entry → Option HarnessEntry
  harness_of none = none
  harness_of (some x) = some (record {
    id = x.id;
    aliases = x.aliases;
    execution_capabilities = x.first_list;
    skills = x.second_list;
  })

  unfoldable pub registry_of : Index → Index → Index → Registry
  unfolding lookup canonical_id
  registry_of families models harnesses = record {
    lookup_model = λ v. model_of (lookup models v);
    lookup_harness = λ v. harness_of (lookup harnesses v);
    canonical_harness_id = canonical_id harnesses;
    canonical_family_id = canonical_id families;
  }

  -- `createRegistry(entries)`, and `defaultRegistry()` at `null`.
  unfoldable pub create_registry : Value → Option Registry
  unfolding index_section registry_of
  create_registry entries =
      let doc = if is_plain_object entries then entries else default_entries in
      elim (index_section family_kind (get "families" doc)) [
        | none ↦ none
        | some families ↦ elim (index_section (model_kind families) (get "models" doc)) [
          | none ↦ none
          | some models ↦ elim (index_section harness_kind (get "harnesses" doc)) [
            | none ↦ none
            | some harnesses ↦ some (registry_of families models harnesses)
          ]
        ]
      ]
