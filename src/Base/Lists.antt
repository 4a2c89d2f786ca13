-- ===== src/Base/Lists.antt =====
-- Lists over the native numbers, and lists of texts used as sets.
use Prim.Native.Nat.{ℕ, suc, ◌+◌}
use Prim.Native.String.{String}
use mathlib.Core.Path.{◌≡◌}
use mathlib.Core.Logic.{◌⊎◌, inl, inr}
use mathlib.Core.Bool.{Bool, true, false, ◌&&◌, ◌||◌}
use mathlib.Core.List.{List, [], ◌∷◌, ◌++◌, Memᴰ}
use native.Mathlib.Omega.{arith}
use text.Mathlib.Text.{◌==◌ as str_eq}
use text.Mathlib.TextEquality.{eq_iff}

module _ {ℓ} {A : Type ℓ} where
  abbrev pub length : List A → ℕ
  length [] = 0
  length (x ∷ xs) = suc (length xs)

  pub length-append : (xs ys : List A) → length (xs ++ ys) ≡ length xs + length ys
  length-append [] ys = omega arith
  length-append (x ∷ xs) ys = omega (arith, length-append xs ys)

  abbrev pub is_empty : List A → Bool
  is_empty [] = true
  is_empty (x ∷ xs) = false

  abbrev pub any : (A → Bool) → List A → Bool
  any p [] = false
  any p (x ∷ xs) = p x || any p xs

  abbrev pub all : (A → Bool) → List A → Bool
  all p [] = true
  all p (x ∷ xs) = p x && all p xs

-- `list.includes(s)` and `set.has(s)`.
abbrev pub includes : List String → String → Bool
includes [] s = false
includes (x ∷ xs) s = str_eq x s || includes xs s

pub Memᴰ-includes : {s : String} {xs : List String} → Memᴰ s xs → includes xs s ≡ true
Memᴰ-includes {s} (Memᴰ.head {x} e) = ground (arith, eq_iff x s)
Memᴰ-includes (Memᴰ.tail m) = ground (arith, Memᴰ-includes m)

pub includes-Memᴰ : (xs : List String) (s : String) → includes xs s ≡ true → Memᴰ s xs
includes-Memᴰ [] s h = absurd (ground arith)
includes-Memᴰ (x ∷ xs) s h = elim (split) [
  | inl e ↦ Memᴰ.head e
  | inr r ↦ Memᴰ.tail (includes-Memᴰ xs s r)
]
  where
    split : (s ≡ x) ⊎ (includes xs s ≡ true)
    split = ground (arith, eq_iff x s)
