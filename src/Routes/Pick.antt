-- ===== src/Routes/Pick.antt =====
-- The loop of `pickBySpecificity`: it finds a strict maximum, and nothing else.
use view_limits.Base.{
  ℕ, ◌<◌, false, List, [], ◌∷◌, ◌++◌, ◌≡◌, ◌⊎◌, ◌↔◌, some, none, arith, refl, ap, inl, inr, ◌∙◌,
  Option-cases, Bool-cases, sym, ltb,
}
use view_limits.Value.{Value}
use view_limits.Routes.{Best, consider, pick_loop, pick}

abbrev pub All {ℓ κ} : {A : Type ℓ} → (A → Type κ) → List A → Type κ
All P [] = Unit
All P (x ∷ xs) = P x × All P xs

module _ (score : Value → ℕ) where
  abbrev pub Lower : ℕ → List Value → Type 0
  Lower top = All (λ r. score r < top)

  -- One occurrence of the route scores above every other element of the list.
  abbrev pub IsStrictBest : Value → List Value → Type 0
  IsStrictBest r rs =
      (before : List Value) × (after : List Value) × (rs ≡ before ++ r ∷ after)
      × Lower (score r) before
      × Lower (score r) after

  abbrev HasScore : Best → ℕ → Type 0
  HasScore s top = (b : Value) × (s.best ≡ some (b, top))

  -- The state stays where every later score is lower.
  Lower-stays :
      (rs : List Value) (s : Best) (b : Value) (top : ℕ)
      → s.best ≡ some (b, top)
      → Lower top rs
      → pick_loop score rs s ≡ s
  unfolding pick_loop
  Lower-stays [] s b top h l = refl
  Lower-stays (r ∷ rs) s b top h (l, ls) =
      let same : consider score r s ≡ s = ground arith in
      ap (pick_loop score rs) same ∙ Lower-stays rs s b top h ls

  -- A bound on the state and on the elements that go by.
  abbrev IsUnder : ℕ → Best → Type 0
  IsUnder top s = (b : Value) (k : ℕ) → s.best ≡ some (b, k) → k < top

  consider-IsUnder :
      (top : ℕ) (r : Value) (s : Best)
      → score r < top
      → IsUnder top s
      → IsUnder top (consider score r s)
  unfolding consider
  consider-IsUnder top r s l u b k h = elim (Option-cases s.best) [
    | inl e ↦ ground arith
    | inr ((c, m), e) ↦ ground (arith, u c m e)
  ]

  loop-IsUnder :
      (top : ℕ) (rs : List Value) (s : Best)
      → Lower top rs
      → IsUnder top s
      → IsUnder top (pick_loop score rs s)
  unfolding pick_loop
  loop-IsUnder top [] s l u = u
  loop-IsUnder top (r ∷ rs) s (l, ls) u =
      loop-IsUnder top rs (consider score r s) ls (consider-IsUnder top r s l u)

  loop-append :
      (xs ys : List Value) (s : Best)
      → pick_loop score (xs ++ ys) s ≡ pick_loop score ys (pick_loop score xs s)
  unfolding pick_loop
  loop-append [] ys s = refl
  loop-append (x ∷ xs) ys s = loop-append xs ys (consider score x s)

  consider_top :
      (r : Value) (s : Best)
      → IsUnder (score r) s
      → consider score r s ≡ record { best = some (r, score r); tied = false }
  unfolding consider
  consider_top r s u = elim (Option-cases s.best) [
    | inl e ↦ ground arith
    | inr ((c, m), e) ↦ ground (arith, u c m e)
  ]

  abbrev IsWon : Value → ℕ → Best → Type 0
  IsWon b top s = s ≡ record { best = some (b, top); tied = false }

  consider-IsWon :
      (r : Value) (s : Best) (b : Value) (top : ℕ)
      → IsWon b top (consider score r s)
      → (IsWon b top s × (score r < top)) ⊎ ((b ≡ r) × (top ≡ score r) × IsUnder top s)
  unfolding consider
  consider-IsWon r s b top h = elim (Option-cases s.best) [
    | inl e ↦ inr (ground arith, ground arith, λ c k q. ground arith)
    | inr ((c, m), e) ↦ elim (Bool-cases (ltb m (score r))) [
      | inl over ↦ inr (ground arith, ground arith, λ d k q. ground arith)
      | inr under ↦ inl (ground arith, ground arith)
    ]
  ]

  consider_bound :
      (r : Value) (s : Best) (top : ℕ)
      → IsUnder top (consider score r s)
      → (score r < top) × IsUnder top s
  unfolding consider
  consider_bound r s top u = elim (Option-cases s.best) [
    | inl e ↦ (u r (score r) (ground arith), λ c k q. ground arith)
    | inr ((c, m), e) ↦ elim (Bool-cases (ltb m (score r))) [
      | inl over ↦
          let below : score r < top = u r (score r) (ground arith) in (below, λ d k q. ground arith)
      | inr under ↦
          let below : m < top = u c m (ground arith) in (ground arith, λ d k q. ground arith)
    ]
  ]

  -- The best that the loop ends with was there before, or is a strict best of the list.
  loop_sound :
      (rs : List Value) (s : Best) (b : Value) (top : ℕ)
      → IsWon b top (pick_loop score rs s)
      → (IsWon b top s × Lower top rs) ⊎ (IsStrictBest b rs × (top ≡ score b) × IsUnder top s)
  unfolding pick_loop
  loop_sound [] s b top h = inl (h, tt)
  loop_sound (r ∷ rs) s b top h = elim (loop_sound rs (consider score r s) b top h) [
    | inl (won, low) ↦ elim (consider-IsWon r s b top won) [
      | inl (old, below) ↦ inl (old, (below, low))
      | inr (same, t, u) ↦
          let t' : top ≡ score b = t ∙ ap score (sym same) in
          inr (([], rs, ap (λ x. x ∷ rs) (sym same), tt, rw t' at low), t', u)
    ]
    | inr ((before, after, e, lb, la), t, u) ↦
        let (below, u') = consider_bound r s top u in
        inr ((r ∷ before, after, ap (◌∷◌ r) e, (rw t at below, lb), la), t, u')
  ]

  -- `pickBySpecificity` picks a route exactly when one occurrence of it scores above all else.
  pub pick_iff : (rs : List Value) (b : Value) → (pick score rs ≡ some b) ↔ IsStrictBest b rs
  unfolding pick
  pick_iff rs b = (sound, complete)
    where
      start : Best
      start = record { best = none; tied = false }

      won : pick score rs ≡ some b → (top : ℕ) × IsWon b top (pick_loop score rs start)
      won h = elim (Option-cases (pick_loop score rs start).best) [
        | inl e ↦ absurd (ground arith)
        | inr ((c, m), e) ↦ (m, ground arith)
      ]

      sound : pick score rs ≡ some b → IsStrictBest b rs
      sound h =
          let (top, w) = won h in
          elim (loop_sound rs start b top w) [
            | inl (impossible, low) ↦ absurd (ground arith)
            | inr (best, t, u) ↦ best
          ]

      complete : IsStrictBest b rs → pick score rs ≡ some b
      complete (before, after, e, lb, la) =
          let mid = pick_loop score before start in
          let u = loop-IsUnder (score b) before start lb (λ c k q. ground arith) in
          let at_b = consider_top b mid u in
          let final = ap (pick_loop score after) at_b ∙ Lower-stays after _ b (score b) refl la in
          ground (
            arith,
            ap (λ l. pick_loop score l start) e,
            loop-append before (b ∷ after) start,
            final,
            at_b,
          )
