-- ===== src/Monitor/Labels.antt =====
-- `validateLabel` and `classifyCapability` of lib/monitor-schema.js. A slug is its code points.
use view_limits.Base.{
  ℕ, Bool, true, false, ◌&&◌, ◌||◌, List, [], ◌∷◌, String, if◌then◌else◌, ltb, leb, ◌==◌, all, any,
  length, is_empty, includes,
}
use view_limits.Base.Text.{Engine, trim, is_blank, codes, units}
use view_limits.Value.{Value, str, truthy, get}

pub data LabelError : Type 0 where
  label_not_a_text label_empty label_too_long label_ill_formed slug_ill_formed : LabelError
  reserved_prefix : LabelError

pub data LabelResult : Type 0 where
  refused : LabelError → LabelResult
  accepted : (slug : List ℕ) → LabelResult

abbrev is_digit : ℕ → Bool
is_digit c = leb b'0' c && leb c b'9'

abbrev is_small : ℕ → Bool
is_small c = leb b'a' c && leb c b'z' || is_digit c

abbrev is_letter : ℕ → Bool
is_letter c = is_small c || leb b'A' c && leb c b'Z'

abbrev ends_with : (ℕ → Bool) → List ℕ → Bool
ends_with p [] = false
ends_with p (c ∷ []) = p c
ends_with p (c ∷ d ∷ cs) = ends_with p (d ∷ cs)

-- `/^[edge][middle]{0,62}[edge]$/`.
unfoldable pub is_framed : (ℕ → Bool) → (ℕ → Bool) → List ℕ → Bool
is_framed edge middle [] = false
is_framed edge middle (c ∷ cs) =
    edge c && (ends_with edge cs && (all (λ x. middle x || edge x) cs && leb (length cs) 63))

-- `LABEL_RE` and `SLUG_RE`.
abbrev is_label : List ℕ → Bool
unfolding is_framed
is_label s = is_framed is_letter (λ c. c == b'.' || c == b'_' || c == b'-') s

abbrev is_slug : List ℕ → Bool
unfolding is_framed
is_slug s = is_framed is_small (λ c. c == b'-') s

-- `.replace(/[^a-z0-9]+/g, '-')`, after a dash or not.
unfoldable pub dashed : Bool → List ℕ → List ℕ
dashed after [] = []
dashed after (c ∷ cs) =
    let rest = dashed true cs in
    let kept = dashed false cs in
    if is_small c then c ∷ kept else if after then rest else b'-' ∷ rest

unfoldable pub strip_start : List ℕ → List ℕ
strip_start [] = []
strip_start (c ∷ cs) = let rest = strip_start cs in if c == b'-' then rest else c ∷ cs

unfoldable pub strip_end : List ℕ → List ℕ
strip_end [] = []
strip_end (c ∷ cs) = let rest = strip_end cs in if is_empty rest && c == b'-' then [] else c ∷ rest

-- `RESERVED_LABEL_PREFIXES`.
abbrev reserved_label_prefixes : List String
reserved_label_prefixes =
    "openrouter-" ∷ "minimax-" ∷ "kimi-" ∷ "glm-" ∷ "deepseek-" ∷ "xiaomi-" ∷ "alibaba-"
    ∷ "stepfun-" ∷ "openai-compat-" ∷ "anthropic-compat-" ∷ []

unfoldable pub starts_with : List ℕ → List ℕ → Bool
starts_with s [] = true
starts_with [] (p ∷ ps) = false
starts_with (c ∷ cs) (p ∷ ps) = c == p && starts_with cs ps

unfoldable pub check_slug : List ℕ → LabelResult
unfolding starts_with is_slug
check_slug slug =
    if is_slug slug
    then (if any (λ p. starts_with slug (codes p)) reserved_label_prefixes
        then refused reserved_prefix
        else accepted slug)
    else refused slug_ill_formed

module _ ⦃e : Engine⦄ where
  -- `validateLabel(label)`.
  unfoldable pub validate_label : Value → LabelResult
  unfolding check_slug dashed strip_start strip_end is_label
  validate_label (str label) =
      let trimmed = trim label in
      if is_blank trimmed
      then refused label_empty
      else if ltb 64 (length (units trimmed))
      then refused label_too_long
      else if is_label (codes trimmed)
      then check_slug (strip_end (strip_start (dashed false (codes (e.to_lower_case trimmed)))))
      else refused label_ill_formed
  validate_label _ = refused label_not_a_text

-- What `classifyCapability` answers; all but the first and the last say that it is not monitorable.
pub data Capability : Type 0 where
  built_in_adapter recipe_required : Capability
  unsupported_recipe known_recipe : (recipe : Value) → Capability

abbrev is_member : List String → Value → Bool
is_member known (str s) = includes known s
is_member known _ = false

-- `classifyCapability(monitor, knownRecipes)` with a set of recipe ids.
unfoldable pub classify_capability : Value → List String → Capability
classify_capability monitor known =
    if truthy monitor
    then (if truthy (get "recipe" monitor)
        then (if is_member known (get "recipe" monitor)
            then known_recipe (get "recipe" monitor)
            else unsupported_recipe (get "recipe" monitor))
        else recipe_required)
    else built_in_adapter
