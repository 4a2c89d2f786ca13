-- ===== src/Eligibility/Meaning.antt =====
-- The result of `evaluate` against its specification, on every candidate, policy and registry.
use view_limits.Base.{
  Bool, true, false, not, ◌&&◌, List, [], ◌∷◌, ◌≡◌, ◌↔◌, refl, any, is_empty, Bool-cases, arith,
  inl, inr,
}
use view_limits.Base.Text.{Engine}
use view_limits.Value.{Value}
use view_limits.Registry.{Registry}
use view_limits.Eligibility.Inputs.{Inputs, read_inputs}
use view_limits.Eligibility.Checks.{Push, ineligible, unresolved}
use view_limits.Eligibility.Spec.{Violation, Unproven}
use view_limits.Eligibility.Signals.{is_violation, is_unproven}
use view_limits.Eligibility.Sound.{pushes-Violation}
use view_limits.Eligibility.Unproven.{pushes-Unproven}
use view_limits.Eligibility.Complete.{Violation-pushes}
use view_limits.Eligibility.Missing.{Unproven-pushes}
use view_limits.Eligibility.Verdict.{
  Reason, Result, is_eligible, is_ineligible, is_unresolved, Lists, add_reason, push, push_all,
  no_reasons, pushes, judge, evaluate,
}

add_reason-is_empty : (r : Reason) (rs : List Reason) → is_empty (add_reason r rs) ≡ false
unfolding add_reason
add_reason-is_empty r [] = refl
add_reason-is_empty r (q ∷ rs) = ground arith

push_all-violated :
    (ps : List Push) (s : Lists)
    → is_empty (push_all ps s).violated ≡ (is_empty s.violated && not (any is_violation ps))
unfolding push_all
push_all-violated [] s = ground arith
push_all-violated (ineligible c x ∷ ps) s = ground (
  arith,
  push_all-violated ps (push (ineligible c x) s),
  add_reason-is_empty (record { code = c; scope = x }) s.violated,
)
push_all-violated (unresolved c x ∷ ps) s =
    ground (arith, push_all-violated ps (push (unresolved c x) s))

push_all-unproven :
    (ps : List Push) (s : Lists)
    → is_empty (push_all ps s).unproven ≡ (is_empty s.unproven && not (any is_unproven ps))
unfolding push_all
push_all-unproven [] s = ground arith
push_all-unproven (ineligible c x ∷ ps) s =
    ground (arith, push_all-unproven ps (push (ineligible c x) s))
push_all-unproven (unresolved c x ∷ ps) s = ground (
  arith,
  push_all-unproven ps (push (unresolved c x) s),
  add_reason-is_empty (record { code = c; scope = x }) s.unproven,
)

module _ ⦃e : Engine⦄ (i : Inputs) where
  -- The result by the two tests over all pushes.
  abbrev by_tests : Bool → Bool → Result
  by_tests true missing = is_ineligible
  by_tests false true = is_unresolved
  by_tests false false = is_eligible

  judge-result :
      (judge i).result ≡ by_tests (any is_violation (pushes i)) (any is_unproven (pushes i))
  unfolding judge
  judge-result =
      ground
        (arith, push_all-violated (pushes i) no_reasons, push_all-unproven (pushes i) no_reasons)

  not-Violation : any is_violation (pushes i) ≡ false → ¬ Violation i
  not-Violation h v = cc (Violation-pushes i v)

  not-Unproven : any is_unproven (pushes i) ≡ false → ¬ Unproven i
  not-Unproven h u = cc (Unproven-pushes i u)

  Violation-of_judge : (judge i).result ≡ is_ineligible → Violation i
  Violation-of_judge h = (pushes-Violation i).apply (ground (arith, judge-result))

  Unproven-of_judge : (judge i).result ≡ is_unresolved → (¬ Violation i) × Unproven i
  Unproven-of_judge h = (
    not-Violation (ground (arith, judge-result)),
    (pushes-Unproven i).apply (ground (arith, judge-result)),
  )

  clear_of_judge : (judge i).result ≡ is_eligible → (¬ Violation i) × (¬ Unproven i)
  clear_of_judge h =
      (not-Violation (ground (arith, judge-result)), not-Unproven (ground (arith, judge-result)))

  judge_of_Violation : Violation i → (judge i).result ≡ is_ineligible
  judge_of_Violation v = ground (arith, judge-result, Violation-pushes i v)

  no-Violation : ¬ Violation i → any is_violation (pushes i) ≡ false
  no-Violation n = elim (Bool-cases (any is_violation (pushes i))) [
    | inl t ↦ absurd (n ((pushes-Violation i).apply t))
    | inr f ↦ f
  ]

  no_missing : ¬ Unproven i → any is_unproven (pushes i) ≡ false
  no_missing n = elim (Bool-cases (any is_unproven (pushes i))) [
    | inl t ↦ absurd (n ((pushes-Unproven i).apply t))
    | inr f ↦ f
  ]

  judge_of_Unproven : (¬ Violation i) × Unproven i → (judge i).result ≡ is_unresolved
  judge_of_Unproven (n, u) = ground (arith, judge-result, no-Violation n, Unproven-pushes i u)

  judge_of_clear : (¬ Violation i) × (¬ Unproven i) → (judge i).result ≡ is_eligible
  judge_of_clear (n, u) = ground (arith, judge-result, no-Violation n, no_missing u)

module _ ⦃e : Engine⦄ (candidate policy : Value) (reg : Registry) where
  -- The verdict is 'ineligible' exactly when some hard constraint is known to be violated: no
  -- amount of other evidence outweighs it, and nothing else gives this verdict.
  pub evaluate-ineligible_iff :
      ((evaluate candidate policy reg).result ≡ is_ineligible)
      ↔ Violation (read_inputs candidate policy reg)
  unfolding evaluate
  evaluate-ineligible_iff =
      let i = read_inputs candidate policy reg in (Violation-of_judge i, judge_of_Violation i)

  -- The verdict is 'unresolved' exactly when no hard constraint is known to be violated and some
  -- required evidence is missing.
  pub evaluate-unresolved_iff : ((evaluate candidate policy reg).result ≡ is_unresolved) ↔ (
      (¬ Violation (read_inputs candidate policy reg))
      × Unproven (read_inputs candidate policy reg))
  unfolding evaluate
  evaluate-unresolved_iff =
      let i = read_inputs candidate policy reg in (Unproven-of_judge i, judge_of_Unproven i)

  -- The verdict is 'eligible' exactly when no hard constraint is known to be violated and no
  -- required evidence is missing; the identity of the route counts as required where
  -- `require.route` is `true` itself or routes are forbidden, and the state of the route where
  -- `require.usableRoute` is `true` itself, not where they are other truthy values.
  pub evaluate-eligible_iff : ((evaluate candidate policy reg).result ≡ is_eligible) ↔ (
      (¬ Violation (read_inputs candidate policy reg))
      × (¬ Unproven (read_inputs candidate policy reg)))
  unfolding evaluate
  evaluate-eligible_iff =
      let i = read_inputs candidate policy reg in (clear_of_judge i, judge_of_clear i)
