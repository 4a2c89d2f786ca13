-- ===== src/Readiness.antt =====
-- lib/jev-readiness.js: the eleven-item gate in front of the classifier.
pub mod Opening
use view_limits.Base.{
  ℕ, suc, ◌^◌, ◌%◌, ◌/◌, Bool, true, false, not, ◌&&◌, ◌||◌, Option, none, some, List, [], ◌∷◌,
  ◌++◌, String, str_eq, if◌then◌else◌, ltb, leb, ◌==◌, is_empty, map, includes, any,
}
use view_limits.Base.Sort.{sort_by}
use view_limits.Base.Text.{Engine, fold, text_le}
use view_limits.Value.{Value, num, arr, items, get, text_of, Number, finite}

pub data ItemVerdict : Type 0 where
  pass partial blocking : ItemVerdict

-- `Number.isInteger(item.id) ? item.id : null`.
pub data ItemId : Type 0 where
  no_id : ItemId
  whole : (negative : Bool) → (magnitude : ℕ) → ItemId

pub record Item : Type 0 where
  pub id : ItemId
  pub item : String
  pub verdict : ItemVerdict
  pub evidence : Option String
  pub reason : Option String

pub record Required : Type 0 where
  pub id : ℕ
  pub name : String
  pub recorded : String
  pub evidence : String

-- `READINESS_ITEMS`.
unfoldable pub readiness_items : List Required
readiness_items =
    record {
      id = 1;
      name = "caller-identity";
      recorded = "partial";
      evidence = "docs/jev-readiness.md — eleven-item gate table, item 1";
    }
    ∷ record {
      id = 2;
      name = "effective-model-verified";
      recorded = "blocking";
      evidence = "docs/jev-readiness.md — eleven-item gate table, item 2";
    }
    ∷ record {
      id = 3;
      name = "selected-profile-account";
      recorded = "blocking";
      evidence = "docs/jev-readiness.md — eleven-item gate table, item 3";
    }
    ∷ record {
      id = 4;
      name = "native-resource-apis";
      recorded = "partial";
      evidence = "docs/jev-readiness.md — eleven-item gate table, item 4";
    }
    ∷ record {
      id = 5;
      name = "provider-adapters-composed";
      recorded = "pass";
      evidence = "docs/jev-readiness.md — eleven-item gate table, item 5";
    }
    ∷ record {
      id = 6;
      name = "identity-separation";
      recorded = "pass";
      evidence = "docs/jev-readiness.md — eleven-item gate table, item 6";
    }
    ∷ record {
      id = 7;
      name = "cache-only-live-modes";
      recorded = "pass";
      evidence = "docs/jev-readiness.md — eleven-item gate table, item 7";
    }
    ∷ record {
      id = 8;
      name = "gate-network-free";
      recorded = "pass";
      evidence = "docs/jev-readiness.md — eleven-item gate table, item 8";
    }
    ∷ record {
      id = 9;
      name = "capability-registry";
      recorded = "pass";
      evidence = "docs/jev-readiness.md — eleven-item gate table, item 9";
    }
    ∷ record {
      id = 10;
      name = "deterministic-eligibility";
      recorded = "pass";
      evidence = "docs/jev-readiness.md — eleven-item gate table, item 10";
    }
    ∷ record {
      id = 11;
      name = "semantic-inputs-sufficient";
      recorded = "blocking";
      evidence = "docs/jev-readiness.md — eleven-item gate table, item 11";
    }
    ∷ []

abbrev id_of : Value → ItemId
id_of (num (finite negative m k)) = if m % 2 ^ k == 0 then whole negative (m / 2 ^ k) else no_id
id_of _ = no_id

abbrev or_text : Option String → String → String
or_text none other = other
or_text (some s) other = s

abbrev pub verdict_named : String → ItemVerdict
verdict_named s = if str_eq s "pass" then pass else if str_eq s "partial" then partial else blocking

abbrev is_number : ℕ → ItemId → Bool
is_number n no_id = false
is_number n (whole negative m) = (not negative || m == 0) && m == n

abbrev pub is_pass : ItemVerdict → Bool
is_pass pass = true
is_pass _ = false

unfoldable pub has_number : ℕ → Item → Bool
has_number n i = is_number n i.id

-- `REQUIRED_ITEM_NAMES.has(n.id)`.
unfoldable pub is_required : Item → Bool
unfolding has_number
is_required i = any (λ r. has_number r.id i) readiness_items

-- `byId.get(id)`: the first item with the id.
unfoldable pub find_item : ℕ → List Item → Option Item
find_item n [] = none
find_item n (i ∷ is') = let rest = find_item n is' in if has_number n i then some i else rest

unfoldable pub extras_of : List Item → List Item
extras_of [] = []
extras_of (i ∷ is') = if is_required i then extras_of is' else i ∷ extras_of is'

abbrev pub absent_item : Required → Item
absent_item r = record {
  id = whole false r.id;
  item = r.name;
  verdict = blocking;
  evidence = none;
  reason = some "readiness-item-absent";
}

abbrev pub item_or_absent : Option Item → Required → Item
item_or_absent none r = absent_item r
item_or_absent (some i) r = i

unfoldable pub required_items : List Required → List Item → List Item
required_items [] found = []
required_items (r ∷ rs) found = item_or_absent (find_item r.id found) r ∷ required_items rs found

-- `a - b < 0` for ids, of which `Infinity` stands for none.
abbrev id_lt : ItemId → ItemId → Bool
id_lt no_id b = false
id_lt (whole n m) no_id = true
id_lt (whole false m) (whole false k) = ltb m k
id_lt (whole false m) (whole true k) = false
id_lt (whole true m) (whole false k) = not (m == 0 && k == 0)
id_lt (whole true m) (whole true k) = ltb k m

-- The comparator of `normalized.sort`.
abbrev pub item_le : Item → Item → Bool
item_le a b = id_lt a.id b.id || not (id_lt b.id a.id) && text_le a.item b.item

unfoldable pub not_pass : List Item → List Item
not_pass [] = []
not_pass (i ∷ is') = if is_pass i.verdict then not_pass is' else i ∷ not_pass is'

pub record Readiness : Type 0 where
  pub is_open : Bool
  pub model_verified : Bool
  pub items : List Item
  pub not_passed : List Item

module _ ⦃e : Engine⦄ where
  abbrev verdict_of : Option String → ItemVerdict
  verdict_of none = blocking
  verdict_of (some s) = verdict_named (fold s)

  -- `normItem(raw)`.
  unfoldable pub norm_item : Value → Item
  norm_item raw = record {
    id = id_of (get "id" raw);
    item = or_text (text_of (get "item" raw)) "unnamed-item";
    verdict = verdict_of (text_of (get "verdict" raw));
    evidence = text_of (get "evidence" raw);
    reason = none;
  }

  recorded_items : List Required → List Item
  recorded_items [] = []
  recorded_items (r ∷ rs) =
      record {
        id = whole false r.id;
        item = r.name;
        verdict = verdict_of (some r.recorded);
        evidence = some r.evidence;
        reason = none;
      }
      ∷ recorded_items rs

  -- The items given, each normalized, or the recorded ones.
  unfoldable pub items_of : Value → List Item
  unfolding recorded_items
  items_of (arr vs) = map norm_item (items vs)
  items_of _ = recorded_items readiness_items

  unfoldable pub normalized : List Item → List Item
  normalized found = sort_by item_le (required_items readiness_items found ++ extras_of found)

  -- `evaluateReadiness({ items, modelVerified })`.
  unfoldable pub evaluate_readiness : Value → Bool → Readiness
  unfolding normalized
  evaluate_readiness items verified = record {
    is_open = is_empty (not_pass (normalized (items_of items))) && verified;
    model_verified = verified;
    items = normalized (items_of items);
    not_passed = not_pass (normalized (items_of items));
  }
