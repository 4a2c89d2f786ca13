-- ===== src/Base/Text.antt =====
-- Texts as JavaScript reads them. A text is a native `String`, a sequence of Unicode scalar
-- values; where the program looks at UTF-16 code units, `units` gives them.
use Prim.Native.Char.{Char, code, char}
use Prim.Native.Nat.{ℕ, ◌+◌, ◌-◌, ◌/◌, ◌%◌, ◌<◌, compare, Ordering}
use Prim.Native.String.{String}
use mathlib.Core.Path.{◌≡◌, refl, ap₂}
use mathlib.Core.Bool.{Bool, true, false, ◌&&◌, ◌||◌}
use mathlib.Core.List.{List, [], ◌∷◌}
use mathlib.Core.Logic.{◌⊎◌, inl, inr}
use native.Mathlib.Omega.{arith}
use text.Mathlib.TextEquality.{Char-path}
use view_limits.Base.Tests.{ltb, leb, ◌==◌, if◌then◌else◌}

-- What `String.prototype.trim` removes: white space and line terminators.
abbrev pub is_space : ℕ → Bool
is_space c =
    leb 9 c && leb c 13
    || c == 32
    || c == 0xa0
    || c == 0x1680
    || leb 0x2000 c && leb c 0x200a
    || c == 0x2028
    || c == 0x2029
    || c == 0x202f
    || c == 0x205f
    || c == 0x3000
    || c == 0xfeff

trim_start : String → String
trim_start String.[] = String.[]
trim_start (String.◌∷◌ c s) = if is_space (code c) then trim_start s else String.◌∷◌ c s

abbrev keep_end : Char → String → String
keep_end c String.[] = if is_space (code c) then String.[] else String.◌∷◌ c String.[]
keep_end c (String.◌∷◌ d s) = String.◌∷◌ c (String.◌∷◌ d s)

trim_end : String → String
trim_end String.[] = String.[]
trim_end (String.◌∷◌ c s) = keep_end c (trim_end s)

unfoldable pub trim : String → String
unfolding trim_start trim_end
trim s = trim_start (trim_end s)

abbrev pub is_blank : String → Bool
is_blank String.[] = true
is_blank (String.◌∷◌ c s) = false

-- The UTF-16 code units of a text, on which `<`, `length` and `includes` work.
abbrev pub push_units : ℕ → List ℕ → List ℕ
push_units c us =
    if ltb c 0x10000
    then c ∷ us
    else (0xd800 + (c - 0x10000) / 0x400) ∷ (0xdc00 + (c - 0x10000) % 0x400) ∷ us

unfoldable pub units : String → List ℕ
units String.[] = []
units (String.◌∷◌ c s) = push_units (code c) (units s)

-- The order of `<` on texts.
pub compare_units : List ℕ → List ℕ → Ordering
compare_units [] [] = Ordering.eq
compare_units [] (b ∷ bs) = Ordering.lt
compare_units (a ∷ as') [] = Ordering.gt
compare_units (a ∷ as') (b ∷ bs) = elim (compare a b) [
  | Ordering.lt ↦ Ordering.lt
  | Ordering.eq ↦ compare_units as' bs
  | Ordering.gt ↦ Ordering.gt
]

unfoldable pub compare_text : String → String → Ordering
unfolding compare_units units
compare_text s t = compare_units (units s) (units t)

compare_units-eq : (us vs : List ℕ) → compare_units us vs ≡ Ordering.eq → us ≡ vs
unfolding compare_units
compare_units-eq [] [] h = refl
compare_units-eq [] (b ∷ vs) h = absurd (ground arith)
compare_units-eq (a ∷ us) [] h = absurd (ground arith)
compare_units-eq (a ∷ us) (b ∷ vs) h = ground (arith, compare_units-eq us vs)

compare_units_refl : (us : List ℕ) → compare_units us us ≡ Ordering.eq
unfolding compare_units
compare_units_refl [] = refl
compare_units_refl (a ∷ us) = ground (arith, compare_units_refl us)

compare_units-gt :
    (us vs : List ℕ) → compare_units us vs ≡ Ordering.gt → compare_units vs us ≡ Ordering.lt
unfolding compare_units
compare_units-gt [] [] h = absurd (ground arith)
compare_units-gt [] (b ∷ vs) h = absurd (ground arith)
compare_units-gt (a ∷ us) [] h = refl
compare_units-gt (a ∷ us) (b ∷ vs) h = ground (arith, compare_units-gt us vs)

compare_units-lt :
    (us vs : List ℕ) → compare_units us vs ≡ Ordering.lt → compare_units vs us ≡ Ordering.gt
unfolding compare_units
compare_units-lt [] [] h = absurd (ground arith)
compare_units-lt [] (b ∷ vs) h = refl
compare_units-lt (a ∷ us) [] h = absurd (ground arith)
compare_units-lt (a ∷ us) (b ∷ vs) h = ground (arith, compare_units-lt us vs)

compare_units_trans :
    (us vs ws : List ℕ)
    → compare_units us vs ≡ Ordering.lt
    → compare_units vs ws ≡ Ordering.lt
    → compare_units us ws ≡ Ordering.lt
unfolding compare_units
compare_units_trans [] [] [] h k = h
compare_units_trans [] (b ∷ vs) [] h k = absurd (ground arith)
compare_units_trans [] vs (c ∷ ws) h k = refl
compare_units_trans (a ∷ us) [] ws h k = absurd (ground arith)
compare_units_trans (a ∷ us) (b ∷ vs) [] h k = absurd (ground arith)
compare_units_trans (a ∷ us) (b ∷ vs) (c ∷ ws) h k = ground (arith, compare_units_trans us vs ws)

-- A scalar value is no surrogate.
IsNoSurrogate : (c : Char) → (code c < 0xd800) ⊎ ((0xdfff < code c) × (code c < 0x110000))
IsNoSurrogate (char n p) = ground arith

push_units_inj :
    (c d : Char) (us vs : List ℕ)
    → push_units (code c) us ≡ push_units (code d) vs
    → (c ≡ d) × (us ≡ vs)
push_units_inj c d us vs h = elim (IsNoSurrogate c) [
  | inl p ↦ (Char-path c d (ground (arith, IsNoSurrogate d)), ground (arith, IsNoSurrogate d))
  | inr p ↦ (Char-path c d (ground (arith, IsNoSurrogate d)), ground (arith, IsNoSurrogate d))
]

units_inj : (s t : String) → units s ≡ units t → s ≡ t
unfolding units
units_inj String.[] String.[] h = refl
units_inj String.[] (String.◌∷◌ d t) h = absurd (ground arith)
units_inj (String.◌∷◌ c s) String.[] h = absurd (ground arith)
units_inj (String.◌∷◌ c s) (String.◌∷◌ d t) h =
    let (e, k) = push_units_inj c d (units s) (units t) h in ap₂ String.◌∷◌ e (units_inj s t k)

pub compare_text-eq : (s t : String) → compare_text s t ≡ Ordering.eq → s ≡ t
unfolding compare_text
compare_text-eq s t h = units_inj s t (compare_units-eq (units s) (units t) h)

pub compare_text_refl : (s : String) → compare_text s s ≡ Ordering.eq
unfolding compare_text
compare_text_refl s = compare_units_refl (units s)

pub compare_text-gt :
    (s t : String) → compare_text s t ≡ Ordering.gt → compare_text t s ≡ Ordering.lt
unfolding compare_text
compare_text-gt s t = compare_units-gt (units s) (units t)

pub compare_text-lt :
    (s t : String) → compare_text s t ≡ Ordering.lt → compare_text t s ≡ Ordering.gt
unfolding compare_text
compare_text-lt s t = compare_units-lt (units s) (units t)

pub compare_text_trans :
    (s t u : String)
    → compare_text s t ≡ Ordering.lt
    → compare_text t u ≡ Ordering.lt
    → compare_text s u ≡ Ordering.lt
unfolding compare_text
compare_text_trans s t u = compare_units_trans (units s) (units t) (units u)

-- `!(a > b)` for texts, as `sort` compares them.
abbrev pub text_le : String → String → Bool
text_le a b = elim (compare_text a b) [ Ordering.gt ↦ false | _ ↦ true ]

pub text_le_total : (a b : String) → text_le a b ≡ false → text_le b a ≡ true
text_le_total a b h = ground (arith, compare_text-gt a b)

pub text_le_antisymm : (a b : String) → text_le a b ≡ true → text_le b a ≡ true → a ≡ b
text_le_antisymm a b h k = ground (arith, compare_text-eq a b, compare_text-lt a b)

pub text_le_trans : (a b c : String) → text_le a b ≡ true → text_le b c ≡ true → text_le a c ≡ true
text_le_trans a b c h k =
    ground (
      arith,
      compare_text_trans a b c,
      compare_text-eq a b,
      compare_text-eq b c,
      compare_text_refl a,
    )

-- What the JavaScript engine supplies: the Unicode lower-case mapping.
pub record Engine : Type 0 where
  pub to_lower_case : String → String

-- `s.trim().toLowerCase()`.
unfoldable pub fold : ⦃e : Engine⦄ → String → String
fold ⦃e⦄ s = e.to_lower_case (trim s)

-- The code points of a text.
abbrev pub codes : String → List ℕ
codes String.[] = []
codes (String.◌∷◌ c s) = code c ∷ codes s
