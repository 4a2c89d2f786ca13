-- ===== src/Lock/Invariant/Defs.antt =====
-- lib/lock.js: the invariant of the ticket protocol.
use view_limits.Base.{
  ℕ, Bool, true, false, not, ◌&&◌, ◌||◌, Option, none, some, List, [], ◌∷◌, String, str_eq, ltb,
  ◌==◌, ◌≡◌, includes,
}
use view_limits.Lock.Contender.{
  pid_of, Pass, choosing, numbered, Pc, idle, entering, scanning, reaping, reading, publishing,
  holding, over, elect, text_lt, next_number, Ticket, Verdict, won, held,
}
use view_limits.Lock.System.{Store, is_idle, is_over}

-- The number in the ticket of a contender that is neither idle nor over.
abbrev pub shown_by_pass : Pass → Option ℕ
shown_by_pass choosing = some 0
shown_by_pass (numbered n) = some n

abbrev pub IsOwn : Pc → Option ℕ → Type 0
IsOwn idle t = t ≡ none
IsOwn (entering pass) t = t ≡ shown_by_pass pass
IsOwn (scanning pass _ _) t = t ≡ shown_by_pass pass
IsOwn (reaping pass _ _ _) t = t ≡ shown_by_pass pass
IsOwn (reading pass _ _ _) t = t ≡ shown_by_pass pass
IsOwn (publishing _) t = t ≡ some 0
IsOwn (holding n) t = t ≡ some n
IsOwn over t = Unit

-- Ticket `(n, i)` is before ticket `(k, j)`.
abbrev pub is_earlier : ℕ → String → ℕ → String → Bool
is_earlier n i k j = ltb n k || n == k && text_lt i j

abbrev pub will_see : ℕ → String → List String → List Ticket → Bool
will_see n i todo found = includes todo i || ltb n (next_number found)

-- Contender `j` at `p` has a ticket after `(n, i)`, or can only get such a ticket.
abbrev pub is_behind : ℕ → String → String → Pc → Bool
is_behind n i j (scanning choosing todo found) = will_see n i todo found
is_behind n i j (reaping choosing k todo found) = will_see n i todo found
is_behind n i j (reading choosing k todo found) = str_eq k i || will_see n i todo found
is_behind n i j (publishing k) = ltb n k
is_behind n i j (entering (numbered k)) = is_earlier n i k j
is_behind n i j (scanning (numbered k) _ _) = is_earlier n i k j
is_behind n i j (reaping (numbered k) _ _ _) = is_earlier n i k j
is_behind n i j (reading (numbered k) _ _ _) = is_earlier n i k j
is_behind n i j (holding k) = is_earlier n i k j
is_behind n i j _ = true

abbrev pub is_won : Verdict → Bool
is_won won = true
is_won (held owner) = false

abbrev pub is_refused : ℕ → String → List Ticket → Bool
is_refused n i found = not (is_won (elect n i found))

-- What contender `i` at its second pass knows of contender `j` at `q`.
abbrev pub is_cleared : String → Pc → String → Pc → Bool
is_cleared i (scanning (numbered n) todo found) j q =
    includes todo j || (is_refused n i found || is_behind n i j q)
is_cleared i (reaping (numbered n) k todo found) j q =
    includes todo j || (is_refused n i found || is_behind n i j q)
is_cleared i (reading (numbered n) k todo found) j q =
    str_eq k j || (includes todo j || (is_refused n i found || is_behind n i j q))
is_cleared i (holding n) j q = is_behind n i j q
is_cleared i _ j q = true

-- The names that a contender has still to look at.
abbrev pub names_in : Pc → List String
names_in (scanning _ todo _) = todo
names_in (reaping _ k todo _) = k ∷ todo
names_in (reading _ k todo _) = k ∷ todo
names_in _ = []

abbrev pub IsReaped : (String → Pc) → Pc → Type 0
IsReaped pc (reaping _ k _ _) = is_over (pc k) ≡ true
IsReaped pc _ = Unit

abbrev pub is_working : Pc → Bool
is_working idle = false
is_working over = false
is_working _ = true

abbrev pub is_holding : Pc → Bool
is_holding (holding n) = true
is_holding _ = false

pub record Inv (m : Store) (pc : String → Pc) : Type 0 where
  pub own : (i : String) → IsOwn (pc i) (m.tickets i)
  pub alive : (i : String) → is_working (pc i) ≡ true → m.is_absent (pid_of i) ≡ false
  pub known : (i k : String) → includes (names_in (pc i)) k ≡ true → is_idle (pc k) ≡ false
  pub reaped : (i : String) → IsReaped pc (pc i)
  pub cleared : (i j : String) → str_eq i j ≡ false → is_cleared i (pc i) j (pc j) ≡ true
  pub noted :
      (p : ℕ) → m.notes p ≡ true → (i : String) × (pid_of i ≡ p) × (is_holding (pc i) ≡ true)
