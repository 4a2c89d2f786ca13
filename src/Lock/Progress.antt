-- ===== src/Lock/Progress.antt =====
-- lib/lock.js: a contender that runs alone, with tickets of dead processes in its way.
use view_limits.Base.{
  ℕ, true, false, not, ◌||◌, none, some, List, [], ◌∷◌, String, str_eq, ◌≡◌, eq_iff, eq_refl, arith,
  refl, Bool-cases, inl, inr, includes,
}
use view_limits.Lock.Contender.{
  Pc, choosing, numbered, idle, entering, scanning, holding, pid_of, visit, chosen, elect, decided,
  next_number, find_prior, has_choosing,
}
use view_limits.Lock.System.{
  Store, Move, claim, list, look, reap, choose, publish, decide, set_at, is_there, IsListing, write,
  note, after,
}

-- Steps of the contender `own`, while the others stand still.
pub data Alone (pc : String → Pc) (own : String) : Store → Pc → Store → Pc → Type 0 where
  stays : {m : Store} {p : Pc} → Alone pc own m p m p
  goes :
      {m m' m'' : Store} {p p' p'' : Pc}
      → Move m (set_at pc own p) own p m' p'
      → Alone pc own m' p' m'' p''
      → Alone pc own m p m'' p''

-- What is left of a directory after a pass over tickets of dead processes.
record Swept (own : String) (m m' : Store) (names : List String) : Type 0 where
  kept : (p : ℕ) → m'.is_absent p ≡ m.is_absent p
  rest :
      (k : String)
      → is_there (m'.tickets k) ≡ true
      → (is_there (m.tickets k) ≡ true) × (str_eq own k || not (includes names k) ≡ true)

module _ {pc : String → Pc} {own : String} where
  sweep :
      (todo : List String) (m : Store)
      → ((k : String)
          → includes todo k ≡ true
          → str_eq own k ≡ false
          → m.is_absent (pid_of k) ≡ true)
      → (m' : Store) × Swept own m m' todo
        × ((q : Pc) (m'' : Store)
            → Alone pc own m' (scanning choosing [] []) m'' q
            → Alone pc own m (scanning choosing todo []) m'' q)
  unfolding visit
  sweep [] m dead = (m, record { kept = λ p. refl; rest = λ k h. (h, ground arith) }, λ q m'' r. r)
  sweep (id ∷ todo) m dead = elim (Bool-cases (str_eq id own)) [
    | inl t ↦
        let (m', s, r) = sweep todo m (λ k h. dead k (ground arith)) in
        (
          m',
          record {
            kept = s.kept;
            rest = λ k h. ground (arith, s.rest k, eq_iff id own, eq_iff own k, eq_iff id k);
          },
          λ q m'' a. goes look (rw (t) (r q m'' a)),
        )
    | inr f ↦
        let (m', s, r) = sweep todo (write id none m) (λ k h. dead k (ground arith)) in
        (
          m',
          record {
            kept = s.kept;
            rest = λ k h. ground (arith, s.rest k, eq_iff id own, eq_iff own k, eq_iff id k);
          },
          λ q m'' a. goes look (
              rw
                (
                  f,
                  dead id (ground (arith, eq_refl id))
                      (ground (arith, eq_iff id own, eq_iff own id)),
                )
                (goes reap (r q m'' a))),
        )
  ]

  -- The second pass of a contender whose ticket is the only one.
  second_pass :
      (m : Store)
      → ((k : String) → is_there (m.tickets k) ≡ true → str_eq own k ≡ true)
      → Alone pc own m (entering (numbered 1)) (note own true m) (holding 1)
  unfolding visit elect find_prior has_choosing decided after
  second_pass m only =
      goes
        (list (own ∷ [])
          (record { complete = λ k h. ground (arith, only k); created = λ k h. ground arith }))
        (goes look (rw (eq_refl own) (goes (decide true) stays)))

  first_number :
      (m : Store)
      → ((k : String) → is_there (m.tickets k) ≡ true → str_eq own k ≡ true)
      → (m' : Store) × Alone pc own m (scanning choosing [] []) m' (holding 1)
  unfolding chosen next_number after
  first_number m only = (
    note own true (write own (some 1) m),
    goes (choose true)
        (goes publish (second_pass (write own (some 1) m) (λ k h. ground (arith, only k)))),
  )

-- Our own ticket is listed too.
IsListing-with :
    {m : Store} {pc : String → Pc} {own : String} {names : List String}
    → IsListing m pc names
    → IsListing (write own (some 0) m) (set_at pc own (entering choosing)) (own ∷ names)
IsListing-with {own} ok = record {
  complete = λ k h. ground (arith, ok.complete k);
  created = λ k h. ground (arith, ok.created k);
}

-- A contender that runs alone acquires the lock, with number 1, when every ticket in the directory
-- is of an absent process: tickets that dead processes left never block it.
pub acquires-Alone :
    (m : Store) (pc : String → Pc) (own : String)
    → m.is_absent (pid_of own) ≡ false
    → (names : List String) → IsListing m pc names
    → ((k : String) → includes names k ≡ true → m.is_absent (pid_of k) ≡ true)
    → (m' : Store) × Alone pc own m idle m' (holding 1)
acquires-Alone m pc own alive names ok dead =
    let (m1, s, r) =
      sweep {pc = pc} {own = own} (own ∷ names) (write own (some 0) m)
        (λ k h d. dead k (ground arith)) in
    let (m2, a) = first_number m1 (λ k h. ground (arith, s.rest k, ok.complete k)) in
    (m2, goes (claim alive) (goes (list (own ∷ names) (IsListing-with ok)) (r (holding 1) m2 a)))
