-- ===== src/Eligibility/Signals.antt =====
-- Tests over lists of pushes, and the names that two lists share.
use mathlib.Core.List.{Memᴰ}
use view_limits.Base.{
  Bool, true, false, not, ◌||◌, Option, some, List, [], ◌∷◌, ◌++◌, String, ◌≡◌, inl, inr, any,
  includes, Bool-cases, is_empty, arith, Memᴰ-includes, includes-Memᴰ, refl,
}
use view_limits.Eligibility.Checks.{Push, ineligible, unresolved, each, intersects}
use view_limits.Eligibility.Spec.{Meets, IsForbidden, IsOutside}

abbrev pub is_violation : Push → Bool
is_violation (ineligible code scope) = true
is_violation (unresolved code scope) = false

abbrev pub is_unproven : Push → Bool
is_unproven p = not (is_violation p)

pub any-append {ℓ} :
    {A : Type ℓ} (p : A → Bool) (xs ys : List A) → any p (xs ++ ys) ≡ (any p xs || any p ys)
any-append p [] ys = refl
any-append p (x ∷ xs) ys = ground (arith, any-append p xs ys)

pub intersects-Meets : (xs ys : List String) → intersects xs ys ≡ true → Meets xs ys
intersects-Meets xs [] h = absurd (ground arith)
intersects-Meets xs (y ∷ ys) h = elim (Bool-cases (includes xs y)) [
  | inl here ↦ (y, includes-Memᴰ xs y here, Memᴰ.head refl)
  | inr there ↦ let (n, a, b) = intersects-Meets xs ys (ground arith) in (n, a, Memᴰ.tail b)
]

pub Meets-intersects :
    (n : String) {xs ys : List String} → Memᴰ n xs → Memᴰ n ys → intersects xs ys ≡ true
Meets-intersects n {xs} a (Memᴰ.head {x} e) = ground (arith, Memᴰ-includes a)
Meets-intersects n {xs} a (Memᴰ.tail b) = ground (arith, Meets-intersects n a b)

-- A test that holds of some push of the list gives `P`.
pub record Gives (test : Push → Bool) (P : Type 0) (ps : List Push) : Type 0 where
  pub apply : any test ps ≡ true → P

pub Gives-append :
    {P : Type 0} {test : Push → Bool} {xs ys : List Push}
    → Gives test P xs
    → Gives test P ys
    → Gives test P (xs ++ ys)
Gives-append {test} {xs} {ys} f g = record {
  apply = λ h. elim (Bool-cases (any test xs)) [
    | inl t ↦ f.apply t
    | inr u ↦ g.apply (ground (arith, any-append test xs ys))
  ];
}

pub Gives-each :
    {P : Type 0} {test : Push → Bool} {f : String → List Push} {xs : List String}
    → ((x : String) → Memᴰ x xs → Gives test P (f x))
    → Gives test P (each f xs)
unfolding each
Gives-each {xs = []} g = record { apply = λ h. absurd (ground arith) }
Gives-each {test} {f} {xs = x ∷ xs} g =
    Gives-append (g x (Memᴰ.head refl)) (Gives-each {xs = xs} (λ y m. g y (Memᴰ.tail m)))

pub IsForbidden-of_intersects :
    (known : Option (List String)) (list : List String) (names : List String)
    → known ≡ some names
    → intersects names list ≡ true
    → IsForbidden known list
IsForbidden-of_intersects known list names k h = (names, k, intersects-Meets names list h)

pub IsOutside-of_intersects :
    (known : Option (List String)) (list : List String) (names : List String)
    → known ≡ some names
    → is_empty list ≡ false
    → intersects names list ≡ false
    → IsOutside known list
IsOutside-of_intersects known list names k e h =
    (names, k, λ p. ground arith, λ (n, a, b). cc (Meets-intersects n a b))

pub not-Memᴰ : (xs : List String) (s : String) → includes xs s ≡ false → ¬ Memᴰ s xs
not-Memᴰ xs s h m = cc (Memᴰ-includes m)
