-- ===== src/Base/Sort.antt =====
-- `Array.prototype.sort` and `slice().sort` with a comparator: a stable sort. `le a b` says that
-- the comparator of `a` and `b` is not positive.
use mathlib.Core.Path.{◌≡◌, refl, sym, ap, ap₂, ◌∙◌, subst}
use mathlib.Core.Bool.{Bool, true, false, Bool-set, ◌&&◌}
use mathlib.Core.List.{
  List, [], ◌∷◌, Mem, Memᴰ, Perm, Pairwise, mem-cons_self, mem-cons, not-mem-nil, mem-cons_of_mem,
}
use mathlib.Core.List.Pairwise
use mathlib.Core.List.Perm
use mathlib.Core.Logic.{◌⊎◌, inl, inr}
use mathlib.Core.Logic.Or
use native.Mathlib.Omega.{arith}
use view_limits.Base.Lists.{all}
use view_limits.Base.Tests.{if◌then◌else◌, Bool-cases}

module _ {ℓ} {A : Type ℓ} (le : A → A → Bool) where
  -- `x` stood before every element of the list, so it goes in front of its equals.
  pub insert_by : A → List A → List A
  insert_by x [] = x ∷ []
  insert_by x (y ∷ ys) = if le x y then x ∷ y ∷ ys else y ∷ insert_by x ys

  unfoldable pub sort_by : List A → List A
  unfolding insert_by
  sort_by [] = []
  sort_by (x ∷ xs) = insert_by x (sort_by xs)

  abbrev pub IsSorted : List A → Type ℓ
  IsSorted = Pairwise (λ a b. le a b ≡ true)

  insert_by-perm : (x : A) (ys : List A) → Perm (insert_by x ys) (x ∷ ys)
  unfolding insert_by
  insert_by-perm x [] = Perm.rfl
  insert_by-perm x (y ∷ ys) = elim (Bool-cases (le x y)) [
    | inl t ↦ rw (t, insert_by) Perm.rfl
    | inr f ↦ rw (f, insert_by) (Perm.trans (Perm.cons y (insert_by-perm x ys)) (Perm.swap x y ys))
  ]

  -- Sorting rearranges.
  pub sort_by-perm : (xs : List A) → Perm (sort_by xs) xs
  unfolding sort_by
  sort_by-perm [] = Perm.rfl
  sort_by-perm (x ∷ xs) = Perm.trans (insert_by-perm x (sort_by xs)) (Perm.cons x (sort_by-perm xs))

  insert_by-all : (p : A → Bool) (x : A) (ys : List A) → all p (insert_by x ys) ≡ p x && all p ys
  unfolding insert_by
  insert_by-all p x [] = refl
  insert_by-all p x (y ∷ ys) = ground (arith, insert_by-all p x ys)

  -- Sorting keeps what holds of all.
  pub sort_by-all : (p : A → Bool) (xs : List A) → all p (sort_by xs) ≡ all p xs
  unfolding sort_by
  sort_by-all p [] = refl
  sort_by-all p (x ∷ xs) = insert_by-all p x (sort_by xs) ∙ ap (λ b. p x && b) (sort_by-all p xs)

  placed :
      {a x y : A} {ys zs : List A} (b : Bool)
      → Memᴰ a (if b then x ∷ y ∷ ys else y ∷ zs)
      → (Memᴰ a zs → (a ≡ x) ⊎ Memᴰ a ys)
      → (a ≡ x) ⊎ Memᴰ a (y ∷ ys)
  placed true (Memᴰ.head e) f = inl e
  placed true (Memᴰ.tail k) f = inr k
  placed false (Memᴰ.head e) f = inr (Memᴰ.head e)
  placed false (Memᴰ.tail k) f = elim (f k) [ inl e ↦ inl e | inr r ↦ inr (Memᴰ.tail r) ]

  insert_by-Memᴰ : (a x : A) (ys : List A) → Memᴰ a (insert_by x ys) → (a ≡ x) ⊎ Memᴰ a ys
  unfolding insert_by
  insert_by-Memᴰ a x [] (Memᴰ.head e) = inl e
  insert_by-Memᴰ a x [] (Memᴰ.tail m) = elim m [ ]
  insert_by-Memᴰ a x (y ∷ ys) m = placed (le x y) m (insert_by-Memᴰ a x ys)

  -- Sorting adds nothing.
  pub sort_by-Memᴰ : (a : A) (xs : List A) → Memᴰ a (sort_by xs) → Memᴰ a xs
  unfolding sort_by
  sort_by-Memᴰ a [] m = elim m [ ]
  sort_by-Memᴰ a (x ∷ xs) m = elim (insert_by-Memᴰ a x (sort_by xs) m) [
    | inl e ↦ Memᴰ.head e
    | inr k ↦ Memᴰ.tail (sort_by-Memᴰ a xs k)
  ]

-- A comparator as `sort` wants it.
pub record IsTotal {ℓ} {A : Type ℓ} (le : A → A → Bool) : Type ℓ where
  pub total : (a b : A) → le a b ≡ false → le b a ≡ true
  pub trans : (a b c : A) → le a b ≡ true → le b c ≡ true → le a c ≡ true

module _ {ℓ} {A : Type ℓ} (le : A → A → Bool) (t : IsTotal le) where
  abbrev Below : A → List A → Type ℓ
  Below a xs = (b : A) → Mem b xs → le a b ≡ true

  Below-cons : {a b : A} {xs : List A} → le a b ≡ true → Below a xs → Below a (b ∷ xs)
  Below-cons {a} p h c m =
      Or.elim (Bool-set _ _) (mem-cons.0 m) (λ e. subst (λ d. le a d ≡ true) (sym e) p) (h c)

  Below-perm : {a : A} {xs ys : List A} → Perm xs ys → Below a ys → Below a xs
  Below-perm p h b m = h b ((Perm.mem_iff p).0 m)

  insert_by-IsSorted : (x : A) {ys : List A} → IsSorted le ys → IsSorted le (insert_by le x ys)
  unfolding insert_by
  insert_by-IsSorted x Pairwise.nil = Pairwise.cons (λ b m. absurd (not-mem-nil m)) Pairwise.nil
  insert_by-IsSorted x (Pairwise.cons {a = y} {l = ys} below s) = elim (Bool-cases (le x y)) [
    | inl p ↦
        rw (p, insert_by)
          (Pairwise.cons (Below-cons p (λ b m. t.trans x y b p (below b m)))
            (Pairwise.cons below s))
    | inr f ↦
        rw (f, insert_by)
          (Pairwise.cons (Below-perm (insert_by-perm le x ys) (Below-cons (t.total x y f) below))
            (insert_by-IsSorted x s))
  ]

  -- Sorting orders.
  pub sort_by-IsSorted : (xs : List A) → IsSorted le (sort_by le xs)
  unfolding sort_by
  sort_by-IsSorted [] = Pairwise.nil
  sort_by-IsSorted (x ∷ xs) = insert_by-IsSorted x (sort_by-IsSorted xs)

  head_le :
      {a b : A} {xs ys : List A}
      → IsSorted le (a ∷ xs)
      → Perm (b ∷ ys) (a ∷ xs)
      → le a a ≡ true
      → le a b ≡ true
  head_le {b} (Pairwise.cons below _) p r = Below-perm p (Below-cons r below) b mem-cons_self

  le_refl_of_total : (a : A) → le a a ≡ true
  le_refl_of_total a = elim (Bool-cases (le a a)) [ inl p ↦ p | inr f ↦ t.total a a f ]

  -- No two members tie unless they are one.
  abbrev pub NoTies : List A → Type ℓ
  NoTies xs = (a b : A) → Mem a xs → Mem b xs → le a b ≡ true → le b a ≡ true → a ≡ b

  IsSorted-unique :
      (xs ys : List A) → IsSorted le xs → IsSorted le ys → NoTies xs → Perm ys xs → xs ≡ ys
  IsSorted-unique [] ys sx sy n p = sym (Perm.eq-nil p)
  IsSorted-unique (x ∷ xs) [] sx sy n p = sym (Perm.nil-eq p)
  IsSorted-unique (x ∷ xs) (y ∷ ys) sx sy n p = ap₂ ◌∷◌ same (
      IsSorted-unique xs ys (Pairwise.of_cons sx) (Pairwise.of_cons sy) later
        (Perm.cons_inv (Perm.trans p (Perm.cons' same Perm.rfl))))
    where
      same : x ≡ y
      same =
          n x y mem-cons_self ((Perm.mem_iff p).0 mem-cons_self) (head_le sx p (le_refl_of_total x))
            (head_le sy (Perm.symm p) (le_refl_of_total y))

      later : NoTies xs
      later a b ma mb = n a b (mem-cons_of_mem x ma) (mem-cons_of_mem x mb)

  -- Without ties the result does not depend on the order of the input.
  pub sort_by_order : {xs ys : List A} → NoTies xs → Perm ys xs → sort_by le xs ≡ sort_by le ys
  sort_by_order {xs} {ys} n p =
      IsSorted-unique (sort_by le xs) (sort_by le ys) (sort_by-IsSorted xs) (sort_by-IsSorted ys)
        (λ a b ma mb.
          n a b ((Perm.mem_iff (sort_by-perm le xs)).0 ma)
            ((Perm.mem_iff (sort_by-perm le xs)).0 mb))
        (Perm.trans (sort_by-perm le ys) (Perm.trans p (Perm.symm (sort_by-perm le xs))))
