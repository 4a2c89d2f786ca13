-- ===== src/Lock/System.antt =====
-- lib/lock.js: any number of contenders over one directory of tickets, interleaved in any order.
-- Between the liveness check of a ticket and its removal or its reading others may move; processes
-- may die at any moment, and a pid may be given to a new process.
use view_limits.Base.{
  ℕ, Bool, true, false, Option, none, some, List, [], ◌∷◌, String, str_eq, ◌==◌, ◌≡◌, includes,
  if◌then◌else◌, not, ◌||◌, ◌&&◌,
}
use view_limits.Lock.Contender.{
  pid_of, Pass, choosing, numbered, Pc, idle, entering, scanning, reaping, reading, publishing,
  holding, over, elect, visit, read_ticket, chosen, decided, has_choosing,
}

abbrev pub set_at {ℓ} : {A : Type ℓ} → (String → A) → String → A → String → A
set_at f i a j = if str_eq i j then a else f j

abbrev pub set_pid : (ℕ → Bool) → ℕ → Bool → ℕ → Bool
set_pid f p b q = if p == q then b else f q

pub record Store : Type 0 where
  pub tickets : String → Option ℕ  -- the number that a reader of the file finds; 0 while it chooses
  pub is_absent : ℕ → Bool  -- `lockHolderAbsent`
  pub notes : ℕ → Bool  -- `holdsMutationLock(dir)` in the process with this pid

abbrev pub write : String → Option ℕ → Store → Store
write name ticket m = record m { tickets = set_at m.tickets name ticket }

-- `noteMutationLock(dir, held)` in the process of a contender.
abbrev pub note : String → Bool → Store → Store
note name b m = record m { notes = set_pid m.notes (pid_of name) b }

abbrev pub is_there : Option ℕ → Bool
is_there none = false
is_there (some n) = true

abbrev pub is_idle : Pc → Bool
is_idle idle = true
is_idle _ = false

-- A listing has the name of every ticket that is there, and no name that was never created.
pub record IsListing (m : Store) (pc : String → Pc) (names : List String) : Type 0 where
  pub complete : (k : String) → is_there (m.tickets k) ≡ true → includes names k ≡ true
  pub created : (k : String) → includes names k ≡ true → is_idle (pc k) ≡ false

-- `finally`: a contender that did not win drops its ticket; when the removal fails, it stays.
abbrev pub drop : Bool → String → Store → Store
drop true name m = write name none m
drop false name m = m

abbrev pub is_over : Pc → Bool
is_over over = true
is_over _ = false

-- A contender between its claim and its verdict.
abbrev pub is_contending : Pc → Bool
is_contending idle = false
is_contending (holding n) = false
is_contending over = false
is_contending _ = true

-- After the first pass and after the second: a contender that stops here drops its ticket.
unfoldable pub after : (is_removed : Bool) → String → Pc → Store → Store
after r own over m = drop r own m
after r own (holding n) m = note own true m
after r own _ m = m

-- One step of the contender `own`.
pub data Move (m : Store) (pc : String → Pc) (own : String) : Pc → Store → Pc → Type 0 where
  claim :
      m.is_absent (pid_of own) ≡ false
      → Move m pc own idle (write own (some 0) m) (entering choosing)
  list :
      {pass : Pass} (names : List String)
      → IsListing m pc names
      → Move m pc own (entering pass) m (scanning pass names [])
  look :
      {pass : Pass} {id : String} {todo : List String} {found : _}
      → Move m pc own (scanning pass (id ∷ todo) found) m (visit m.is_absent own pass id todo found)
  reap :
      {pass : Pass} {dead : String} {todo : List String} {found : _}
      → Move m pc own (reaping pass dead todo found) (write dead none m) (scanning pass todo found)
  read :
      {pass : Pass} {id : String} {todo : List String} {found : _}
      → Move m pc own (reading pass id todo found) m (read_ticket (m.tickets id) pass id todo found)
  -- The file can not be read, or is no JSON: the number is 0, whatever the ticket says.
  misread :
      {pass : Pass} {id : String} {todo : List String} {found : _}
      → Move m pc own (reading pass id todo found) m (read_ticket (some 0) pass id todo found)
  choose :
      {found : _} (is_removed : Bool)
      → Move m pc own
          (scanning choosing [] found)
          (after is_removed own (chosen found) m)
          (chosen found)
  publish : {n : ℕ} → Move m pc own (publishing n) (write own (some n) m) (entering (numbered n))
  decide :
      {n : ℕ} {found : _} (is_removed : Bool)
      → Move m pc own
          (scanning (numbered n) [] found)
          (after is_removed own (decided (elect n own found) n) m)
          (decided (elect n own found) n)
  -- Only `acquireWorker` of lib/refresh-owner.js: a peer still chooses, so it looks again.
  again :
      {n : ℕ} {found : _}
      → has_choosing found ≡ true
      → Move m pc own (scanning (numbered n) [] found) m (entering (numbered n))
  release :
      {n : ℕ} (is_removed : Bool)
      → Move m pc own (holding n) (drop is_removed own (note own false m)) over
  fail :
      {p : Pc} (is_removed : Bool)
      → is_contending p ≡ true
      → Move m pc own p (drop is_removed own m) over

-- Whether a ticket has no number to be missed.
abbrev pub is_unnumbered : Option ℕ → Bool
is_unnumbered none = true
is_unnumbered (some n) = n == 0

abbrev pub is_first : Pass → Bool
is_first choosing = true
is_first (numbered n) = false

-- No failure to read a ticket that has a number, in the pass that chooses our own number.
abbrev pub is_legible_move :
    {m : Store} {pc : String → Pc} {own : String} {p p' : Pc} {m' : Store}
    → Move m pc own p m' p'
    → Bool
is_legible_move {m} (misread {pass} {id}) = not (is_first pass) || is_unnumbered (m.tickets id)
is_legible_move _ = true

pub record System : Type 0 where
  pub store : Store
  pub pc : String → Pc

-- The process dies: its contenders are over, and nothing removes their tickets.
abbrev pub die : ℕ → (String → Pc) → String → Pc
die p pc k = if p == pid_of k then (if is_idle (pc k) then idle else over) else pc k

pub data Step (s : System) : System → Type 0 where
  moves :
      (own : String) {m : Store} {p : Pc}
      → Move s.store s.pc own (s.pc own) m p
      → Step s (record { store = m; pc = set_at s.pc own p })
  dies :
      (p : ℕ)
      → Step s (record {
        store = record s.store {
          is_absent = set_pid s.store.is_absent p true;
          notes = set_pid s.store.notes p false;
        };
        pc = die p s.pc;
      })
  starts :
      (p : ℕ)
      → Step s
          (record s { store = record s.store { is_absent = set_pid s.store.is_absent p false } })

abbrev pub empty_directory : System
empty_directory = record {
  store = record { tickets = λ k. none; is_absent = λ p. false; notes = λ p. false };
  pc = λ k. idle;
}

pub data Reach : System → Type 0 where
  initial : Reach empty_directory
  later : {s t : System} → Reach s → Step s t → Reach t

abbrev pub is_legible_step : {s t : System} → Step s t → Bool
is_legible_step (moves own mv) = is_legible_move mv
is_legible_step _ = true

-- No contender on the way failed, in its first pass, to read a ticket that had a number.
abbrev pub is_legible : {s : System} → Reach s → Bool
is_legible initial = true
is_legible (later r st) = is_legible r && is_legible_step st
