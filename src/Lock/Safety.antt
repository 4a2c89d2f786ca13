-- ===== src/Lock/Safety.antt =====
-- lib/lock.js: what holds of the lock in the states that are reached.
use view_limits.Base.{
  ℕ, true, String, str_eq, ◌≡◌, eq_iff, arith, Bool-cases, inl, inr, sym, ap, ◌∙◌,
}
use view_limits.Lock.Contender.{Pc, holding, pid_of}
use view_limits.Lock.System.{System, Reach, is_legible}
use view_limits.Lock.Invariant.Defs.{is_holding, is_cleared}
use view_limits.Lock.Invariant.Steps.{Reach-Inv}
use view_limits.Base.Text.{text_le_total}

-- Two holders would each have the earlier ticket.
both_hold :
    (i j : String) (p q : Pc)
    → is_holding p ≡ true
    → is_holding q ≡ true
    → is_cleared i p j q ≡ true
    → is_cleared j q i p ≡ true
    → str_eq i j ≡ true
both_hold i j (holding n) (holding k) hp hq a b = absurd (ground (arith, text_le_total i j))
both_hold i j p q hp hq a b = absurd (ground arith)

-- In every state that contenders reach, in whatever order they move, die and have their pids
-- given away, at most one of them holds the lock, provided that none of them failed, in its first
-- pass, to read or parse a ticket that had a number. (Such a failure in the second pass, and one on
-- a ticket without a number, is allowed.)
pub mutual_exclusion :
    {s : System} (r : Reach s)
    → is_legible r ≡ true
    → (i j : String) → is_holding (s.pc i) ≡ true
    → is_holding (s.pc j) ≡ true
    → i ≡ j
mutual_exclusion {s} r g i j hi hj = elim (Bool-cases (str_eq i j)) [
  | inl e ↦ (eq_iff i j).0 e
  | inr d ↦ (eq_iff i j).0 (
      both_hold i j (s.pc i) (s.pc j) hi hj ((Reach-Inv r g).cleared i j d)
        ((Reach-Inv r g).cleared j i (ground (arith, eq_iff i j, eq_iff j i))))
]

-- In every state that is reached, at most one process passes the check of `saveConfig` that it
-- holds the lock, and a contender of that process does hold it, provided that no contender failed,
-- in its first pass, to read or parse a ticket that had a number.
pub notes_unique :
    {s : System} (r : Reach s)
    → is_legible r ≡ true
    → (p q : ℕ) → s.store.notes p ≡ true
    → s.store.notes q ≡ true
    → (p ≡ q) × ((i : String) × (pid_of i ≡ p) × (is_holding (s.pc i) ≡ true))
notes_unique r g p q hp hq =
    let (i, x, y) = (Reach-Inv r g).noted p hp in
    let (j, z, w) = (Reach-Inv r g).noted q hq in
    (sym x ∙ ap pid_of (mutual_exclusion r g i j y w) ∙ z, (i, x, y))
