-- ===== src/Eligibility/Order.antt =====
-- The order of the reasons that `evaluate` reports.
use mathlib.Core.List.{
  Mem, Memᴰ, Pairwise, Nodup, Nodup-concat, concat-eq-append, Pairwise-and_iff, Pairwise-append,
}
use mathlib.Core.List.Perm
use mathlib.Core.Bool.{Bool-set}
use mathlib.Core.Logic.{∥∥₁_elim}
use mathlib.Core.HLevel.{⊥_prop}
use view_limits.Base.{
  ℕ, Bool, true, ◌&&◌, List, [], ◌∷◌, ◌++◌, String, ◌≡◌, ◌≢◌, refl, ap, any, all, Bool-cases, arith,
  inl, inr, ltb, leb, ◌==◌, eq_refl,
}
use view_limits.Base.Sort.{sort_by, IsTotal, sort_by-IsSorted, sort_by-perm}
use view_limits.Base.Text.{Engine, text_le_total, text_le_antisymm, text_le_trans}
use view_limits.Value.{Value}
use view_limits.Registry.{Registry}
use view_limits.Eligibility.Inputs.{Inputs, read_inputs}
use view_limits.Eligibility.Checks
use view_limits.Eligibility.Checks.{Code, rank, Push, ineligible, unresolved, each}
use view_limits.Eligibility.Verdict.{
  Reason, Lists, same_reason, add_reason, push, push_all, no_reasons, conclude, pushes, evaluate,
  reason_le,
}

rank_injective : (c d : Code) → rank c ≡ rank d → c ≡ d
rank_injective c d h = ground arith

reason_le_total : IsTotal reason_le
reason_le_total = record {
  total = λ a b h. ground (arith, text_le_total a.scope b.scope);
  trans = λ a b c h k. ground (arith, text_le_trans a.scope b.scope c.scope);
}

reason_le_antisymm : (a b : Reason) → reason_le a b ≡ true → reason_le b a ≡ true → a ≡ b
reason_le_antisymm a b h k =
    ground (arith, rank_injective a.code b.code, text_le_antisymm a.scope b.scope)

-- The codes of `ineligible` come before those of `unresolved`.
abbrev well_ranked : Push → Bool
well_ranked (ineligible code scope) = ltb (rank code) 12
well_ranked (unresolved code scope) = leb 12 (rank code)

all-append {ℓ} :
    {A : Type ℓ} (p : A → Bool) (xs ys : List A) → all p (xs ++ ys) ≡ (all p xs && all p ys)
all-append p [] ys = refl
all-append p (x ∷ xs) ys = ground (arith, all-append p xs ys)

all-each :
    (p : Push → Bool) (f : String → List Push) (xs : List String)
    → ((x : String) → all p (f x) ≡ true)
    → all p (each f xs) ≡ true
unfolding each
all-each p f [] h = refl
all-each p f (x ∷ xs) h = ground (arith, all-append p (f x) (each f xs), h x, all-each p f xs h)

module _ ⦃e : Engine⦄ (i : Inputs) where
  open_ranked :
      (all well_ranked (Checks.check_forbid_routes i) ≡ true)
      × (all well_ranked (Checks.check_forbid_profiles i) ≡ true)
      × (all well_ranked (Checks.check_forbid_models i) ≡ true)
      × (all well_ranked (Checks.check_forbid_harnesses i) ≡ true)
  unfolding Checks.check_forbid_routes Checks.check_forbid_profiles Checks.check_forbid_models
      Checks.check_forbid_harnesses
  open_ranked = (ground arith, ground arith, ground arith, ground arith)

  allowed_ranked :
      (all well_ranked (Checks.check_route_exhausted i) ≡ true)
      × (all well_ranked (Checks.check_harness_unavailable i) ≡ true)
      × (all well_ranked (Checks.check_allowed_models i) ≡ true)
      × (all well_ranked (Checks.check_allowed_harnesses i) ≡ true)
  unfolding Checks.check_route_exhausted Checks.check_harness_unavailable
      Checks.check_allowed_models Checks.check_allowed_harnesses
  allowed_ranked = (ground arith, ground arith, ground arith, ground arith)

  state_ranked :
      (all well_ranked (Checks.check_route_identity i) ≡ true)
      × (all well_ranked (Checks.check_route_state i) ≡ true)
      × (all well_ranked (Checks.check_harness_availability i) ≡ true)
      × (all well_ranked (Checks.check_review i) ≡ true)
  unfolding Checks.check_route_identity Checks.check_route_state Checks.check_harness_availability
      Checks.check_review
  state_ranked = (ground arith, ground arith, ground arith, ground arith)

  task_ranked : (cap : String) → all well_ranked (Checks.check_task_capability i cap) ≡ true
  unfolding Checks.check_task_capability
  task_ranked cap = ground arith

  execution_ranked :
      (cap : String) → all well_ranked (Checks.check_execution_capability i cap) ≡ true
  unfolding Checks.check_execution_capability
  execution_ranked cap = ground arith

  skill_ranked : (s : String) → all well_ranked (Checks.check_skill i s) ≡ true
  unfolding Checks.check_skill
  skill_ranked s = ground arith

  pushes_ranked : all well_ranked (pushes i) ≡ true
  unfolding pushes
  pushes_ranked = simp all-append (
      ground (
        arith,
        open_ranked,
        allowed_ranked,
        state_ranked,
        all-each well_ranked (Checks.check_task_capability i) i.req_task_caps task_ranked,
        all-each well_ranked (Checks.check_execution_capability i) i.req_exec_caps execution_ranked,
        all-each well_ranked (Checks.check_skill i) i.req_skills skill_ranked,
      ))

abbrev early : Reason → Bool
early r = ltb (rank r.code) 12

abbrev late : Reason → Bool
late r = leb 12 (rank r.code)

all-add_reason :
    (p : Reason → Bool) (r : Reason) (rs : List Reason)
    → p r ≡ true
    → all p rs ≡ true
    → all p (add_reason r rs) ≡ true
unfolding add_reason
all-add_reason p r rs h k = ground (arith, all-append p rs (r ∷ []))

push_all-ranks :
    (ps : List Push) (s : Lists)
    → all well_ranked ps ≡ true
    → all early s.violated ≡ true
    → all late s.unproven ≡ true
    → (all early (push_all ps s).violated ≡ true) × (all late (push_all ps s).unproven ≡ true)
unfolding push_all
push_all-ranks [] s h a b = (a, b)
push_all-ranks (ineligible c x ∷ ps) s h a b =
    push_all-ranks ps (push (ineligible c x) s) (ground arith)
      (ground (arith, all-add_reason early (record { code = c; scope = x }) s.violated)) b
push_all-ranks (unresolved c x ∷ ps) s h a b =
    push_all-ranks ps (push (unresolved c x) s) (ground arith) a
      (ground (arith, all-add_reason late (record { code = c; scope = x }) s.unproven))

nat_eq_refl : (n : ℕ) → (n == n) ≡ true
nat_eq_refl n = ground arith

same_reason_refl : (r : Reason) → same_reason r r ≡ true
unfolding same_reason
same_reason_refl r = rw (nat_eq_refl, eq_refl)

any_of_Memᴰ : (r : Reason) {rs : List Reason} → Memᴰ r rs → any (λ x. same_reason x r) rs ≡ true
any_of_Memᴰ r (Memᴰ.head {x} k) = ground (arith, same_reason_refl r)
any_of_Memᴰ r (Memᴰ.tail m) = ground (arith, any_of_Memᴰ r m)

Nodup-add_reason : (r : Reason) (rs : List Reason) → Nodup rs → Nodup (add_reason r rs)
unfolding add_reason
Nodup-add_reason r rs n = elim (Bool-cases (any (λ q. same_reason q r) rs)) [
  | inl t ↦ rw t n
  | inr f ↦ rw f (
      rw (← concat-eq-append rs r)
        ((Nodup-concat rs r).1 (λ m. ∥∥₁_elim m ⊥_prop (λ d. cc (any_of_Memᴰ r d)), n)))
]

push_all-Nodup :
    (ps : List Push) (s : Lists)
    → Nodup s.violated
    → Nodup s.unproven
    → Nodup (push_all ps s).violated × Nodup (push_all ps s).unproven
unfolding push_all
push_all-Nodup [] s a b = (a, b)
push_all-Nodup (ineligible c x ∷ ps) s a b =
    push_all-Nodup ps (push (ineligible c x) s)
      (Nodup-add_reason (record { code = c; scope = x }) s.violated a) b
push_all-Nodup (unresolved c x ∷ ps) s a b =
    push_all-Nodup ps (push (unresolved c x) s) a
      (Nodup-add_reason (record { code = c; scope = x }) s.unproven b)

-- Before, in the order of the reasons, and not the same.
abbrev pub Precedes : Reason → Reason → Type 0
Precedes a b = (reason_le a b ≡ true) × (a ≢ b)

strictly : (rs : List Reason) → Nodup rs → Pairwise Precedes (sort_by reason_le rs)
strictly rs n = Pairwise-and_iff.1 (
  sort_by-IsSorted reason_le reason_le_total rs,
  Perm.nodup (Perm.symm (sort_by-perm reason_le rs)) n,
)

all_of_Memᴰ :
    (p : Reason → Bool) (r : Reason) {rs : List Reason} → Memᴰ r rs → all p rs ≡ true → p r ≡ true
all_of_Memᴰ p r (Memᴰ.head {x} e) h = ground (arith, ap p e)
all_of_Memᴰ p r (Memᴰ.tail m) h = all_of_Memᴰ p r m (ground arith)

all_of_sorted :
    (p : Reason → Bool) (r : Reason) (rs : List Reason)
    → Mem r (sort_by reason_le rs)
    → all p rs ≡ true
    → p r ≡ true
all_of_sorted p r rs m h =
    ∥∥₁_elim ((Perm.mem_iff (sort_by-perm reason_le rs)).0 m) (Bool-set _ _)
      (λ d. all_of_Memᴰ p r d h)

early-Precedes-late : (a b : Reason) → early a ≡ true → late b ≡ true → Precedes a b
early-Precedes-late a b h k = (ground arith, λ e. ground arith)

Precedes-prop : (a b : Reason) → IsProp (Precedes a b)
Precedes-prop a b = hlevel

conclude-Precedes :
    (s : Lists)
    → Nodup s.violated
    → Nodup s.unproven
    → all early s.violated ≡ true
    → all late s.unproven ≡ true
    → Pairwise Precedes (conclude s).reasons
unfolding conclude
conclude-Precedes s nv nu ev lu = (Pairwise-append Precedes-prop).1 (
  strictly s.violated nv,
  strictly s.unproven nu,
  λ a ma b mb.
      early-Precedes-late a b (all_of_sorted early a s.violated ma ev)
        (all_of_sorted late b s.unproven mb lu),
)

module _ ⦃e : Engine⦄ (candidate policy : Value) (reg : Registry) where
  -- The reasons stand in strictly ascending order of rank and scope, so none is repeated and those
  -- of a violated constraint come before those of missing evidence.
  pub evaluate-reasons : Pairwise Precedes (evaluate candidate policy reg).reasons
  unfolding evaluate
  evaluate-reasons =
      let i = read_inputs candidate policy reg in
      let (nv, nu) = push_all-Nodup (pushes i) no_reasons Pairwise.nil Pairwise.nil in
      let (ev, lu) = push_all-ranks (pushes i) no_reasons (pushes_ranked i) refl refl in
      conclude-Precedes (push_all (pushes i) no_reasons) nv nu ev lu
