-- ===== src/Value.antt =====
-- JavaScript values as the program receives them from JSON documents and hook events, and the
-- tests that every module repeats: lib/eligibility.js, lib/score-candidates.js,
-- lib/task-profile.js, lib/capability-registry.js, lib/recommend.js, lib/gate.js.
use view_limits.Base.{ℕ, Bool, true, false, not, Option, none, some, List, [], ◌∷◌, String, str_eq}
use view_limits.Base.Text.{is_blank}
use view_limits.Base.Tests.{if◌then◌else◌, ◌==◌}

-- A finite number is its sign, an integer and a power of two: m / 2 ^ k.
pub data Number : Type 0 where
  nan infinity minus_infinity : Number
  finite : (negative : Bool) → ℕ → ℕ → Number

mutual
  pub data Value : Type 0 where
    undefined null : Value
    bool : Bool → Value
    num : Number → Value
    str : String → Value
    arr : (elements : Items) → Value
    obj : (members : Fields) → Value

  pub data Items : Type 0 where
    nil : Items
    cons : (first : Value) → (rest : Items) → Items

  pub data Fields : Type 0 where
    end : Fields
    field : (name : String) → (value : Value) → (rest : Fields) → Fields

abbrev pub items : Items → List Value
items nil = []
items (cons v vs) = v ∷ items vs

-- `o.name`, with `undefined` for a field that is not there.
abbrev pub get_field : String → Fields → Value
get_field name end = undefined
get_field name (field k v fs) = if str_eq k name then v else get_field name fs

-- `name in o`.
abbrev pub has_field : String → Fields → Bool
has_field name end = false
has_field name (field k v fs) = if str_eq k name then true else has_field name fs

-- `v.name` where `v` is known to be a plain object, and `{}` in its place where it is not.
abbrev pub get : String → Value → Value
get name (obj fs) = get_field name fs
get name _ = undefined

abbrev pub is_plain_object : Value → Bool
is_plain_object (obj fs) = true
is_plain_object _ = false

-- `v === undefined || v === null`.
abbrev pub is_nullish : Value → Bool
is_nullish undefined = true
is_nullish null = true
is_nullish _ = false

abbrev pub is_true : Value → Bool
is_true (bool b) = b
is_true _ = false

abbrev pub is_false : Value → Bool
is_false (bool b) = not b
is_false _ = false

abbrev pub is_nonzero : Number → Bool
is_nonzero nan = false
is_nonzero (finite s m k) = not (m == 0)
is_nonzero _ = true

-- `Boolean(v)`.
abbrev pub truthy : Value → Bool
truthy undefined = false
truthy null = false
truthy (bool b) = b
truthy (num n) = is_nonzero n
truthy (str s) = not (is_blank s)
truthy _ = true

-- `nonEmptyString(v) ? v : null`.
abbrev pub text_of : Value → Option String
text_of (str s) = if is_blank s then none else some s
text_of _ = none

abbrev pub is_text : Value → Bool
is_text v = elim (text_of v) [ none ↦ false | some s ↦ true ]

-- What the JavaScript engine supplies: `String(v)` for a value that is neither a text nor falsy.
pub record Printer : Type 0 where
  pub to_text : Value → String

-- `String(v || '')`.
unfoldable pub text_or_empty : ⦃p : Printer⦄ → Value → String
text_or_empty (str s) = s
text_or_empty ⦃p⦄ v = if truthy v then p.to_text v else ""
