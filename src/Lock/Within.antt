-- ===== src/Lock/Within.antt =====
-- lib/lock.js: `acquireMutationLockWithin`, which tries again until a deadline. What an attempt
-- returns and the clock are parameters: attempt `k` starts when the clock has been read.
use view_limits.Base.{
  ℕ, zero, suc, ◌+◌, ◌-◌, ◌≤◌, ◌<◌, Bool, true, false, ◌||◌, Option, none, some, leb, max, ◌≡◌,
  arith, refl, if◌then◌else◌, inl, inr, Bool-cases,
}

abbrev min : ℕ → ℕ → ℕ
min a b = if leb a b then a else b

-- `WAIT_STEP_MS`.
abbrev wait_step : ℕ
wait_step = 20

-- `Math.min(WAIT_STEP_MS, Math.max(1, deadline - Date.now()))`.
abbrev pub wait_of : ℕ → ℕ → ℕ
wait_of deadline now = min wait_step (max 1 (deadline - now))

-- What `acquireMutationLockWithin` sees: attempt `k` is `lock.ok` or not, and `Date.now()` after it.
pub record World : Type 0 where
  pub is_ok : ℕ → Bool
  pub clock : ℕ → ℕ

-- The loop, from attempt `k`: the attempt whose answer it returns, if the fuel is enough.
unfoldable pub attempts : World → ℕ → ℕ → ℕ → Option ℕ
attempts w deadline zero k = none
attempts w deadline (suc fuel) k =
    let later = attempts w deadline fuel (suc k) in
    if w.is_ok k || leb deadline (w.clock k) then some k else later

-- `Atomics.wait` times out: the clock is later by the wait.
abbrev pub IsWaiting : World → ℕ → Type 0
IsWaiting w deadline = (k : ℕ) → w.clock k + wait_of deadline (w.clock k) ≤ w.clock (suc k)

-- The answer of the loop: the first attempt that succeeds or ends at the deadline.
pub record IsAnswer (w : World) (deadline first : ℕ) (k : ℕ) : Type 0 where
  pub from : first ≤ k
  pub stops : w.is_ok k || leb deadline (w.clock k) ≡ true
  pub soon : k ≤ first + (deadline - w.clock first)
  pub earlier : (j : ℕ) → first ≤ j → j < k → w.is_ok j || leb deadline (w.clock j) ≡ false

goes_on :
    {w : World} {deadline first k : ℕ}
    → IsWaiting w deadline
    → w.is_ok first || leb deadline (w.clock first) ≡ false
    → IsAnswer w deadline (suc first) k
    → IsAnswer w deadline first k
goes_on {w} {deadline} {first} {k} h f b = record {
  from = omega (arith, b.from);
  stops = b.stops;
  soon = ground (arith, b.soon, h first);
  earlier = λ j p q. ground (arith, b.earlier j);
}

attempts_from :
    (w : World) (deadline fuel first : ℕ)
    → IsWaiting w deadline
    → deadline - w.clock first < fuel
    → (k : ℕ) × (attempts w deadline fuel first ≡ some k) × IsAnswer w deadline first k
unfolding attempts
attempts_from w deadline zero first h e = absurd (omega arith)
attempts_from w deadline (suc fuel) first h e =
    elim (Bool-cases (w.is_ok first || leb deadline (w.clock first))) [
      | inl t ↦ (
        first,
        rw (t) refl,
        record {
          from = omega arith;
          stops = t;
          soon = omega arith;
          earlier = λ j a b. absurd (omega arith);
        },
      )
      | inr f ↦
          let (k, a, b) = attempts_from w deadline fuel (suc first) h (ground (arith, h first)) in
          (k, rw (f) a, goes_on h f b)
    ]

-- With more fuel than there are milliseconds left when the clock is first read, and a clock that
-- each wait advances, the loop ends: it answers with the first attempt that succeeds or ends at the
-- deadline, and that attempt's number is at most the number of those milliseconds.
pub attempts-some :
    (w : World) (deadline fuel : ℕ)
    → IsWaiting w deadline
    → deadline - w.clock 0 < fuel
    → (k : ℕ) × (attempts w deadline fuel 0 ≡ some k) × IsAnswer w deadline 0 k
attempts-some w deadline fuel h e = attempts_from w deadline fuel 0 h e
