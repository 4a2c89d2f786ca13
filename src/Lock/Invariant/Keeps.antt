-- ===== src/Lock/Invariant/Keeps.antt =====
-- lib/lock.js: the parts of the invariant after a move of one contender.
use mathlib.Core.Path.{subst}
use view_limits.Base.{
  ℕ, Bool, true, false, Option, none, String, str_eq, ◌≡◌, refl, ap, sym, ◌∙◌, includes, eq_iff,
  eq_refl, arith, Bool-cases, inl, inr, ◌⊎◌,
}
use view_limits.Lock.Contender.{pid_of, Pc, over, elect, visit, read_ticket, chosen, decided}
use view_limits.Lock.System.{
  Store, is_idle, is_over, Move, claim, list, look, reap, read, choose, publish, decide, again,
  release, fail, misread, set_at, write, after,
}
use view_limits.Lock.Invariant.Defs.{IsOwn, names_in, IsReaped, is_working, Inv}
use view_limits.Lock.Invariant.Moves.{absent-is_over, listed}

-- A property of each contender after a move of one.
pub set_at-all {ℓ} :
    {pc : String → Pc} {own : String} {p : Pc} (P : String → Pc → Type ℓ)
    → P own p
    → ((i : String) → str_eq own i ≡ false → P i (pc i))
    → (i : String) → P i (set_at pc own p i)
set_at-all {pc} {own} {p} P here others i = elim (Bool-cases (str_eq own i)) [
  | inl h ↦ rw (h) (subst (λ k. P k p) ((eq_iff own i).0 h) here)
  | inr h ↦ rw (h) (others i h)
]

pub over-IsOwn : (q : Pc) (t : Option ℕ) → is_over q ≡ true → IsOwn q t
over-IsOwn over t h = tt
over-IsOwn q t h = absurd (ground arith)

after-tickets :
    (b : Bool) (own i : String) (p : Pc) (m : Store)
    → str_eq own i ≡ false
    → (after b own p m).tickets i ≡ m.tickets i
unfolding after
after-tickets true own i over m d = ground arith
after-tickets false own i over m d = refl
after-tickets b own i p m d = refl

reap-tickets :
    (m : Store) (dead i : String)
    → (str_eq dead i ≡ true) ⊎ ((write dead none m).tickets i ≡ m.tickets i)
reap-tickets m dead i = ground arith

after-is_absent :
    (b : Bool) (own : String) (p : Pc) (m : Store) → (after b own p m).is_absent ≡ m.is_absent
unfolding after
after-is_absent true own over m = refl
after-is_absent false own over m = refl
after-is_absent b own p m = refl

module _ {m : Store} {pc : String → Pc} (inv : Inv m pc) where
  -- A move removes the ticket of another contender only when that one is over.
  pub Move-tickets :
      {own : String} {p p' : Pc} {m' : Store}
      → Move m pc own p m' p'
      → IsReaped pc p
      → (i : String) → str_eq own i ≡ false
      → (m'.tickets i ≡ m.tickets i) ⊎ (is_over (pc i) ≡ true)
  unfolding after
  Move-tickets (reap {dead}) r i d = elim (reap-tickets m dead i) [
    | inl h ↦ inr (ap (λ k. is_over (pc k)) (sym ((eq_iff dead i).0 h)) ∙ r)
    | inr h ↦ inl h
  ]
  Move-tickets {own} (choose {found} b) r i d = inl (after-tickets b own i (chosen found) m d)
  Move-tickets {own} (decide {n} {found} b) r i d =
      inl (after-tickets b own i (decided (elect n own found) n) m d)
  Move-tickets (list names ok) r i d = inl refl
  Move-tickets look r i d = inl refl
  Move-tickets read r i d = inl refl
  Move-tickets misread r i d = inl refl
  Move-tickets (again z) r i d = inl refl
  Move-tickets (claim a) r i d = ground arith
  Move-tickets publish r i d = ground arith
  Move-tickets (release b) r i d = ground arith
  Move-tickets (fail b c) r i d = ground arith

  pub Move-IsOwn :
      {own : String} {p p' : Pc} {m' : Store}
      → Move m pc own p m' p'
      → pc own ≡ p
      → IsReaped pc p
      → IsOwn p (m.tickets own)
      → IsOwn p' (m'.tickets own)
  unfolding visit read_ticket chosen decided after
  Move-IsOwn {own} (claim a) e r o = ground (arith, eq_refl own)
  Move-IsOwn (list names ok) e r o = o
  Move-IsOwn look e r o = ground arith
  Move-IsOwn {own} (reap {dead} {todo} {found}) e r o = elim (reap-tickets m dead own) [
    | inl h ↦ ground (arith, eq_iff dead own)
    | inr h ↦ h ∙ o
  ]
  Move-IsOwn read e r o = ground arith
  Move-IsOwn misread e r o = ground arith
  Move-IsOwn (choose b) e r o = ground arith
  Move-IsOwn {own} publish e r o = ground (arith, eq_refl own)
  Move-IsOwn (decide b) e r o = ground arith
  Move-IsOwn (again z) e r o = o
  Move-IsOwn (release b) e r o = tt
  Move-IsOwn (fail b c) e r o = tt

  pub Move-alive :
      {own : String} {p p' : Pc} {m' : Store}
      → Move m pc own p m' p'
      → (is_working p ≡ true → m.is_absent (pid_of own) ≡ false)
      → is_working p' ≡ true
      → m.is_absent (pid_of own) ≡ false
  Move-alive (claim a) w h = a
  Move-alive (fail b c) w h = absurd (ground arith)
  Move-alive (release b) w h = absurd (ground arith)
  Move-alive mv w h = w refl

  pub Move-is_absent :
      {own : String} {p p' : Pc} {m' : Store} → Move m pc own p m' p' → m'.is_absent ≡ m.is_absent
  Move-is_absent {own} (choose {found} b) = after-is_absent b own (chosen found) m
  Move-is_absent {own} (decide {n} {found} b) =
      after-is_absent b own (decided (elect n own found) n) m
  Move-is_absent (release true) = refl
  Move-is_absent (release false) = refl
  Move-is_absent (fail true c) = refl
  Move-is_absent (fail false c) = refl
  Move-is_absent mv = refl

  pub Move-known :
      {own : String} {p p' : Pc} {m' : Store}
      → Move m pc own p m' p'
      → pc own ≡ p
      → (k : String) → includes (names_in p') k ≡ true
      → is_idle (pc k) ≡ false
  unfolding visit read_ticket chosen decided
  Move-known (list names ok) e k h = ok.created k h
  Move-known look e k h = listed inv e k (ground arith)
  Move-known reap e k h = listed inv e k (ground arith)
  Move-known read e k h = listed inv e k (ground arith)
  Move-known misread e k h = listed inv e k (ground arith)
  Move-known mv e k h = absurd (ground arith)

  pub Move-idle :
      {own : String} {p p' : Pc} {m' : Store} → Move m pc own p m' p' → is_idle p' ≡ false
  unfolding visit read_ticket chosen decided
  Move-idle look = ground arith
  Move-idle read = ground arith
  Move-idle misread = ground arith
  Move-idle (choose b) = ground arith
  Move-idle (decide b) = ground arith
  Move-idle mv = refl

  -- The name about to be removed is the ticket of a contender that is over, and not our own.
  pub Move-IsReaped :
      {own : String} {p p' : Pc} {m' : Store}
      → Move m pc own p m' p'
      → pc own ≡ p
      → IsReaped (set_at pc own p') p'
  unfolding visit read_ticket chosen decided
  Move-IsReaped {own} (look {id}) e =
      ground
        (arith, absent-is_over inv id, listed inv e id, eq_iff id own, eq_iff own id, eq_refl id)
  Move-IsReaped mv e = ground arith
