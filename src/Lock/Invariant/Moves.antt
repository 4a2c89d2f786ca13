-- ===== src/Lock/Invariant/Moves.antt =====
-- lib/lock.js: a move of one contender keeps the invariant.
use view_limits.Base.{
  ℕ, max, true, false, not, ◌&&◌, ◌||◌, Option, none, some, List, [], ◌∷◌, String, str_eq, ◌==◌,
  ◌≡◌, refl, ap, sym, ◌∙◌, includes, eq_iff, arith,
}
use view_limits.Base.Text.{text_le_antisymm, text_le_total}
use mathlib.Core.Path.{subst}
use view_limits.Lock.Contender.{
  pid_of, choosing, numbered, Pc, idle, entering, scanning, reaping, reading, publishing, holding,
  over, elect, next_number, Ticket, number_of, visit, read_ticket, chosen, decided, has_choosing,
  find_prior, is_prior, push_ticket,
}
use view_limits.Lock.System.{
  Store, is_idle, is_over, Move, claim, list, look, reap, read, choose, publish, decide, again,
  release, fail, misread, is_legible_move, is_unnumbered,
}
use view_limits.Lock.Invariant.Defs.{
  IsOwn, is_earlier, is_behind, is_won, is_refused, is_cleared, names_in, Inv,
}

number_of-push :
    (id : String) (n : ℕ) (found : List Ticket)
    → number_of (push_ticket id n found) ≡ max (number_of found) n
number_of-push id n [] = ground arith
number_of-push id n (t ∷ ts) = ground (arith, number_of-push id n ts)

has_choosing-push :
    (id : String) (n : ℕ) (found : List Ticket)
    → has_choosing (push_ticket id n found) ≡ has_choosing found || n == 0
unfolding has_choosing
has_choosing-push id n [] = ground arith
has_choosing-push id n (t ∷ ts) = ground (arith, has_choosing-push id n ts)

find_prior-push :
    (k : ℕ) (i id : String) (n : ℕ) (found : List Ticket)
    → is_won (find_prior k i (push_ticket id n found))
      ≡ is_won (find_prior k i found)
        && not (is_prior k i (record { id = id; pid = pid_of id; number = n }))
unfolding find_prior
find_prior-push k i id n [] = ground arith
find_prior-push k i id n (t ∷ ts) = ground (arith, find_prior-push k i id n ts)

-- A refusal stands, and a ticket that is read refuses its reader unless it is numbered and later.
pub is_refused-push :
    (k : ℕ) (i id : String) (n : ℕ) (found : List Ticket)
    → str_eq i id ≡ false
    → is_refused k i found || not (is_earlier k i n id) || n == 0
      ≡ is_refused k i (push_ticket id n found)
unfolding elect is_prior
is_refused-push k i id n found d = ground (
  arith,
  find_prior-push k i id n found,
  has_choosing-push id n found,
  text_le_antisymm i id,
  text_le_total id i,
  eq_iff i id,
)

-- The first pass reads number `n` in ticket `i`.
read_ticket-is_behind :
    (t : Option ℕ) (i id own : String) (n : ℕ) (todo : List String) (found : List Ticket)
    → (str_eq id i ≡ true → t ≡ some n)
    → is_behind n i own (reading choosing id todo found) ≡ true
    → is_behind n i own (read_ticket t choosing id todo found) ≡ true
unfolding read_ticket next_number
read_ticket-is_behind none i id own n todo found same h = ground (arith, same)
read_ticket-is_behind (some k) i id own n todo found same h =
    ground (arith, same, number_of-push id k found)

-- The first pass can not read a ticket that has no number.
misread-is_behind :
    (t : Option ℕ) (i id own : String) (n : ℕ) (todo : List String) (found : List Ticket)
    → (str_eq id i ≡ true → t ≡ some n)
    → is_unnumbered t ≡ true
    → is_behind n i own (reading choosing id todo found) ≡ true
    → is_behind n i own (read_ticket (some 0) choosing id todo found) ≡ true
unfolding read_ticket next_number
misread-is_behind none i id own n todo found same g h =
    ground (arith, same, number_of-push id 0 found)
misread-is_behind (some k) i id own n todo found same g h =
    ground (arith, same, number_of-push id 0 found)

stays_refused :
    (k : ℕ) (i id : String) (n : ℕ) (found : List Ticket)
    → is_refused k i found ≡ true
    → is_refused k i (push_ticket id n found) ≡ true
unfolding elect
stays_refused k i id n found h =
    ground (arith, find_prior-push k i id n found, has_choosing-push id n found)

tickets_of :
    (m : Store) {i k : String} {n : ℕ}
    → m.tickets i ≡ some n
    → str_eq k i ≡ true
    → m.tickets k ≡ some n
tickets_of m {i} {k} t h = ap m.tickets ((eq_iff k i).0 h) ∙ t

-- A contender without a ticket is idle or over.
unseen-is_behind : (n : ℕ) (i j : String) (q : Pc) → IsOwn q none → is_behind n i j q ≡ true
unseen-is_behind n i j idle o = refl
unseen-is_behind n i j over o = refl
unseen-is_behind n i j (entering choosing) o = refl
unseen-is_behind n i j (publishing k) o = absurd (ground arith)
unseen-is_behind n i j q o = absurd (ground arith)

-- A later number in the ticket of a contender puts it behind.
shown-is_behind :
    (n k : ℕ) (i j : String) (q : Pc)
    → IsOwn q (some k)
    → k == 0 ≡ false
    → is_earlier n i k j ≡ true
    → is_behind n i j q ≡ true
shown-is_behind n k i j idle o z h = refl
shown-is_behind n k i j over o z h = refl
shown-is_behind n k i j (publishing l) o z h = absurd (ground arith)
shown-is_behind n k i j (holding l) o z h = ground arith
shown-is_behind n k i j (entering choosing) o z h = refl
shown-is_behind n k i j (scanning choosing _ _) o z h = absurd (ground arith)
shown-is_behind n k i j (reaping choosing _ _ _) o z h = absurd (ground arith)
shown-is_behind n k i j (reading choosing _ _ _) o z h = absurd (ground arith)
shown-is_behind n k i j q o z h = ground arith

-- The second pass reads ticket `id`.
read_ticket-is_cleared :
    (t : Option ℕ) (own id j : String) (q : Pc) (n : ℕ) (todo : List String) (found : List Ticket)
    → (str_eq id j ≡ true → IsOwn q t)
    → str_eq own j ≡ false
    → is_cleared own (reading (numbered n) id todo found) j q ≡ true
    → is_cleared own (read_ticket t (numbered n) id todo found) j q ≡ true
unfolding read_ticket
read_ticket-is_cleared none own id j q n todo found same d h =
    ground (arith, unseen-is_behind n own j q, same)
read_ticket-is_cleared (some k) own id j q n todo found same d h = ground (
  arith,
  stays_refused n own id k found,
  shown-is_behind n k own j q,
  same,
  is_refused-push n own id k found,
  eq_iff id j,
)

module _ {m : Store} {pc : String → Pc} (inv : Inv m pc) where
  -- The ticket of an absent process is the ticket of a contender that is over.
  pub absent-is_over :
      (k : String) → is_idle (pc k) ≡ false → m.is_absent (pid_of k) ≡ true → is_over (pc k) ≡ true
  absent-is_over k i a = ground (arith, inv.alive k)

  pub listed :
      {own : String} {p : Pc}
      → pc own ≡ p
      → (k : String) → includes (names_in p) k ≡ true
      → is_idle (pc k) ≡ false
  listed {own} e k h = inv.known own k (ap (λ q. includes (names_in q) k) e ∙ h)

  -- A contender that shows number `n` keeps every other one behind it that is behind it.
  pub Move-is_behind :
      {own : String} {p p' : Pc} {m' : Store} (mv : Move m pc own p m' p')
      → is_legible_move mv ≡ true
      → pc own ≡ p
      → (i : String) (n : ℕ) → str_eq i own ≡ false
      → m.tickets i ≡ some n
      → m.is_absent (pid_of i) ≡ false
      → is_behind n i own p ≡ true
      → is_behind n i own p' ≡ true
  unfolding visit read_ticket chosen next_number decided
  Move-is_behind (claim a) g e i n d t l h = refl
  Move-is_behind (list {pass = choosing} names ok) g e i n d t l h = ground (arith, ok.complete i)
  Move-is_behind (list {pass = numbered k} names ok) g e i n d t l h = h
  Move-is_behind {own} (look {pass = choosing} {id}) g e i n d t l h =
      ground (arith, eq_iff id i, eq_iff id own)
  Move-is_behind (look {pass = numbered k}) g e i n d t l h = ground arith
  Move-is_behind (reap {pass = choosing}) g e i n d t l h = h
  Move-is_behind (reap {pass = numbered k}) g e i n d t l h = h
  Move-is_behind {own} (read {pass = choosing} {id} {todo} {found}) g e i n d t l h =
      read_ticket-is_behind (m.tickets id) i id own n todo found (tickets_of m t) h
  Move-is_behind (read {pass = numbered k}) g e i n d t l h = ground arith
  Move-is_behind {own} (misread {pass = choosing} {id} {todo} {found}) g e i n d t l h =
      misread-is_behind (m.tickets id) i id own n todo found (tickets_of m t) g h
  Move-is_behind (misread {pass = numbered k}) g e i n d t l h = ground arith
  Move-is_behind (choose {found} r) g e i n d t l h = ground arith
  Move-is_behind publish g e i n d t l h = ground arith
  Move-is_behind (decide r) g e i n d t l h = ground arith
  Move-is_behind (again z) g e i n d t l h = h
  Move-is_behind (release r) g e i n d t l h = refl
  Move-is_behind (fail r c) g e i n d t l h = refl

  IsOwn-of : (k j : String) → str_eq k j ≡ true → IsOwn (pc j) (m.tickets k)
  IsOwn-of k j h = subst (λ l. IsOwn (pc j) (m.tickets l)) (sym ((eq_iff k j).0 h)) (inv.own j)

  -- A contender at its second pass learns where each other one stands.
  pub Move-is_cleared :
      {own : String} {p p' : Pc} {m' : Store}
      → Move m pc own p m' p'
      → pc own ≡ p
      → (j : String) → str_eq own j ≡ false
      → is_cleared own p j (pc j) ≡ true
      → is_cleared own p' j (pc j) ≡ true
  unfolding visit read_ticket chosen next_number decided
  Move-is_cleared (claim a) e j d h = refl
  Move-is_cleared (list {pass = choosing} names ok) e j d h = refl
  Move-is_cleared {own} (list {pass = numbered n} names ok) e j d h =
      ground (arith, ok.complete j, unseen-is_behind n own j (pc j), inv.own j)
  Move-is_cleared (look {pass = choosing} {id}) e j d h = ground arith
  Move-is_cleared {own} (look {pass = numbered n} {id}) e j d h =
      ground (arith, eq_iff id own, eq_iff id j, absent-is_over j, listed e j)
  Move-is_cleared (reap {pass = choosing}) e j d h = refl
  Move-is_cleared (reap {pass = numbered k}) e j d h = h
  Move-is_cleared (read {pass = choosing} {id}) e j d h = ground arith
  Move-is_cleared {own} (read {pass = numbered n} {id} {todo} {found}) e j d h =
      read_ticket-is_cleared (m.tickets id) own id j (pc j) n todo found (IsOwn-of id j) d h
  Move-is_cleared (misread {pass = choosing} {id}) e j d h = ground arith
  Move-is_cleared {own} (misread {pass = numbered n} {id} {todo} {found}) e j d h =
      ground (arith, stays_refused n own id 0 found, is_refused-push n own id 0 found, eq_iff id j)
  Move-is_cleared (choose {found} r) e j d h = ground arith
  Move-is_cleared publish e j d h = refl
  Move-is_cleared (decide {n} {found} r) e j d h = ground arith
  Move-is_cleared (again z) e j d h = refl
  Move-is_cleared (release r) e j d h = refl
  Move-is_cleared (fail r c) e j d h = refl
