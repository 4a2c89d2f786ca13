-- ===== src/Lock/Invariant/Steps.antt =====
-- lib/lock.js: every step keeps the invariant, save a failure to read a numbered ticket in a first
-- pass, so it holds in every state that is reached without one.
use mathlib.Core.Path.{subst}
use view_limits.Base.{
  ℕ, true, false, Option, some, String, str_eq, ◌==◌, ◌≡◌, refl, ap, sym, ◌∙◌, includes, eq_iff,
  eq_refl, arith, Bool-cases, inl, inr, ◌⊎◌,
}
use view_limits.Lock.Contender.{
  pid_of, numbered, Pc, idle, scanning, reaping, reading, holding, over, visit, read_ticket, chosen,
  decided,
}
use view_limits.Lock.System.{
  Store, System, moves, dies, starts, Reach, initial, later, is_idle, is_over, Move, choose, decide,
  release, fail, set_at, set_pid, after, die, is_legible_move, is_legible,
}
use view_limits.Lock.Invariant.Defs.{
  IsOwn, is_behind, is_cleared, names_in, IsReaped, is_working, is_holding, Inv,
}
use view_limits.Lock.Invariant.Moves.{Move-is_behind, Move-is_cleared}
use view_limits.Lock.Invariant.Keeps.{
  set_at-all, over-IsOwn, Move-tickets, Move-IsOwn, Move-alive, Move-is_absent, Move-known,
  Move-idle, Move-IsReaped,
}

-- What a contender knows of another one when that one moves.
is_cleared_mono :
    (i j : String) (q p p' : Pc) (t : Option ℕ)
    → IsOwn q t
    → ((n : ℕ)
        → t ≡ some n
        → is_working q ≡ true
        → is_behind n i j p ≡ true
        → is_behind n i j p' ≡ true)
    → is_cleared i q j p ≡ true
    → is_cleared i q j p' ≡ true
is_cleared_mono i j (scanning (numbered n) todo found) p p' t o f h = ground (arith, f n o refl)
is_cleared_mono i j (reaping (numbered n) k todo found) p p' t o f h = ground (arith, f n o refl)
is_cleared_mono i j (reading (numbered n) k todo found) p p' t o f h = ground (arith, f n o refl)
is_cleared_mono i j (holding n) p p' t o f h = f n o refl h
is_cleared_mono i j q p p' t o f h = refl

-- A note that stands after a move was made by it, or stood before and is not its own to remove.
Move-notes :
    {m : Store} {pc : String → Pc} {own : String} {p p' : Pc} {m' : Store}
    → Move m pc own p m' p'
    → (q : ℕ) → m'.notes q ≡ true
    → ((pid_of own ≡ q) × (is_holding p' ≡ true))
      ⊎ ((m.notes q ≡ true) × (is_holding p ≡ true → pid_of own == q ≡ false))
unfolding visit read_ticket chosen decided after
Move-notes (choose b) q h = ground arith
Move-notes (decide b) q h = ground arith
Move-notes (release b) q h = ground arith
Move-notes (fail b c) q h = ground arith
Move-notes mv q h = inr (h, λ k. absurd (ground arith))

Move-from :
    {m : Store} {pc : String → Pc} {own : String} {p p' : Pc} {m' : Store}
    → Move m pc own p m' p'
    → is_over p ≡ false
Move-from (fail b c) = ground arith
Move-from mv = refl

IsReaped-mono :
    (pc pc' : String → Pc) (q : Pc)
    → ((k : String) → is_over (pc k) ≡ true → is_over (pc' k) ≡ true)
    → IsReaped pc q
    → IsReaped pc' q
IsReaped-mono pc pc' (reaping _ k _ _) f r = f k r
IsReaped-mono pc pc' q f r = ground arith

module _ {m : Store} {pc : String → Pc} (inv : Inv m pc) where
  module _ {own : String} {p p' : Pc} {m' : Store} (mv : Move m pc own p m' p')
      (g : is_legible_move mv ≡ true) (e : pc own ≡ p) where
    was-IsReaped : IsReaped pc p
    was-IsReaped = subst (IsReaped pc) e (inv.reaped own)

    was_own : IsOwn p (m.tickets own)
    was_own = subst (λ q. IsOwn q (m.tickets own)) e (inv.own own)

    was_alive : is_working p ≡ true → m.is_absent (pid_of own) ≡ false
    was_alive h = inv.alive own (ap is_working e ∙ h)

    over_stays : (k : String) → is_over (pc k) ≡ true → is_over (set_at pc own p' k) ≡ true
    over_stays k h = elim (Bool-cases (str_eq own k)) [
      | inl t ↦ absurd (ground (arith, Move-from mv, eq_iff own k))
      | inr f ↦ rw (f) h
    ]

    left_idle : (k : String) → is_idle (pc k) ≡ false → is_idle (set_at pc own p' k) ≡ false
    left_idle k h = ground (arith, Move-idle inv mv)

    same : (j : String) → str_eq own j ≡ false → set_at pc own p' j ≡ pc j
    same j d = rw (d) refl

    clears :
        (i j : String)
        → str_eq i j ≡ false
        → is_cleared i (set_at pc own p' i) j (set_at pc own p' j) ≡ true
    clears =
        set_at-all
          (λ i q. (j : String) → str_eq i j ≡ false → is_cleared i q j (set_at pc own p' j) ≡ true)
          (λ j d.
            ap (is_cleared own p' j) (same j d)
            ∙ Move-is_cleared inv mv e j d
                (ap (λ q. is_cleared own q j (pc j)) (sym e) ∙ inv.cleared own j d))
          (λ i d.
            set_at-all (λ j q. str_eq i j ≡ false → is_cleared i (pc i) j q ≡ true)
              (λ f.
                is_cleared_mono i own (pc i) p p' (m.tickets i) (inv.own i)
                  (λ n t w. Move-is_behind inv mv g e i n f t (inv.alive i w))
                  (ap (is_cleared i (pc i) own) (sym e) ∙ inv.cleared i own f))
              (λ j f. inv.cleared i j))

    notes :
        (q : ℕ)
        → m'.notes q ≡ true
        → (i : String) × (pid_of i ≡ q) × (is_holding (set_at pc own p' i) ≡ true)
    notes q h = elim (Move-notes mv q h) [
      | inl (a, b) ↦ (own, a, ap is_holding (ground (arith, eq_refl own)) ∙ b)
      | inr (a, b) ↦
          let (i, x, y) = inv.noted q a in
          (i, x, ap is_holding (same i (ground (arith, b, e, x, eq_iff own i))) ∙ y)
    ]

    Move-Inv : Inv m' (set_at pc own p')
    Move-Inv = record {
      own =
          set_at-all (λ i q. IsOwn q (m'.tickets i)) (Move-IsOwn inv mv e was-IsReaped was_own)
            (λ i d. elim (Move-tickets inv mv was-IsReaped i d) [
              | inl t ↦ subst (IsOwn (pc i)) (sym t) (inv.own i)
              | inr o ↦ over-IsOwn (pc i) (m'.tickets i) o
            ]);
      alive =
          set_at-all (λ i q. is_working q ≡ true → m'.is_absent (pid_of i) ≡ false)
            (λ h. ap (λ f. f (pid_of own)) (Move-is_absent inv mv) ∙ Move-alive inv mv was_alive h)
            (λ i d h. ap (λ f. f (pid_of i)) (Move-is_absent inv mv) ∙ inv.alive i h);
      known =
          set_at-all
            (λ i q.
              (k : String) → includes (names_in q) k ≡ true → is_idle (set_at pc own p' k) ≡ false)
            (λ k h. left_idle k (Move-known inv mv e k h))
            (λ i d k h. left_idle k (inv.known i k h));
      reaped =
          set_at-all (λ i q. IsReaped (set_at pc own p') q) (Move-IsReaped inv mv e)
            (λ i d. IsReaped-mono pc (set_at pc own p') (pc i) over_stays (inv.reaped i));
      cleared = clears;
      noted = notes;
    }

idle_is : (q : Pc) → is_idle q ≡ true → q ≡ idle
idle_is idle h = refl
idle_is q h = absurd (ground arith)

-- A property of each contender after the death of a process.
die-all :
    (pc : String → Pc) (p : ℕ) (P : String → Pc → Type 0)
    → ((k : String) → (p == pid_of k ≡ false) ⊎ (is_idle (pc k) ≡ true) → P k (pc k))
    → ((k : String) → P k over)
    → (k : String) → P k (die p pc k)
die-all pc p P keep ends k = elim (Bool-cases (p == pid_of k)) [
  | inl t ↦ rw (t) (elim (Bool-cases (is_idle (pc k))) [
    | inl i ↦ rw (i) (subst (P k) (idle_is (pc k) i) (keep k (inr i)))
    | inr n ↦ rw (n) (ends k)
  ])
  | inr f ↦ rw (f) (keep k (inl f))
]

module _ {m : Store} {pc : String → Pc} (inv : Inv m pc) (p : ℕ) where
  abbrev without : Store
  without = record m { is_absent = set_pid m.is_absent p true; notes = set_pid m.notes p false }

  died_over : (k : String) → is_over (pc k) ≡ true → is_over (die p pc k) ≡ true
  died_over k h =
      die-all pc p (λ k q. is_over (pc k) ≡ true → is_over q ≡ true) (λ k d h. h) (λ k h. refl) k h

  died_idle : (k : String) → is_idle (pc k) ≡ false → is_idle (die p pc k) ≡ false
  died_idle k h =
      die-all pc p (λ k q. is_idle (pc k) ≡ false → is_idle q ≡ false) (λ k d h. h) (λ k h. refl) k
        h

  dies-Inv : Inv without (die p pc)
  dies-Inv = record {
    own = die-all pc p (λ i q. IsOwn q (m.tickets i)) (λ i d. inv.own i) (λ i. tt);
    alive =
        die-all pc p (λ i q. is_working q ≡ true → set_pid m.is_absent p true (pid_of i) ≡ false)
          (λ i d h. ground (arith, inv.alive i, idle_is (pc i))) (λ i h. absurd (ground arith));
    known =
        die-all pc p
          (λ i q. (k : String) → includes (names_in q) k ≡ true → is_idle (die p pc k) ≡ false)
          (λ i d k h. died_idle k (inv.known i k h)) (λ i k h. absurd (ground arith));
    reaped =
        die-all pc p (λ i q. IsReaped (die p pc) q)
          (λ i d. IsReaped-mono pc (die p pc) (pc i) died_over (inv.reaped i)) (λ i. tt);
    cleared =
        die-all pc p
          (λ i q. (j : String) → str_eq i j ≡ false → is_cleared i q j (die p pc j) ≡ true)
          (λ i d.
            die-all pc p (λ j q. str_eq i j ≡ false → is_cleared i (pc i) j q ≡ true)
              (λ j f. inv.cleared i j)
              (λ j f.
                is_cleared_mono i j (pc i) (pc j) over (m.tickets i) (inv.own i) (λ n t w h. refl)
                  (inv.cleared i j f)))
          (λ i j f. refl);
    noted = λ q h. let (i, x, y) = inv.noted q (ground arith) in (i, x, rw (apart q h i x) y);
  }
    where
      apart :
          (q : ℕ)
          → set_pid m.notes p false q ≡ true
          → (i : String) → pid_of i ≡ q
          → p == pid_of i ≡ false
      apart q h i x = ground (arith, x)

starts-Inv :
    {m : Store} {pc : String → Pc}
    → Inv m pc
    → (p : ℕ) → Inv (record m { is_absent = set_pid m.is_absent p false }) pc
starts-Inv inv p = record {
  own = inv.own;
  alive = λ i h. ground (arith, inv.alive i);
  known = inv.known;
  reaped = inv.reaped;
  cleared = inv.cleared;
  noted = inv.noted;
}

pub Reach-Inv : {s : System} (r : Reach s) → is_legible r ≡ true → Inv s.store s.pc
Reach-Inv initial g = record {
  own = λ i. refl;
  alive = λ i h. absurd (ground arith);
  known = λ i k h. absurd (ground arith);
  reaped = λ i. tt;
  cleared = λ i j d. refl;
  noted = λ p h. absurd (ground arith);
}
Reach-Inv (later r (moves own mv)) g = Move-Inv (Reach-Inv r (ground arith)) mv (ground arith) refl
Reach-Inv (later r (dies p)) g = dies-Inv (Reach-Inv r (ground arith)) p
Reach-Inv (later r (starts p)) g = starts-Inv (Reach-Inv r (ground arith)) p
