-- ===== src/Examples/Locks.antt =====
-- The theorems on lib/lock.js at concrete inputs.
use view_limits.Base.{
  ℕ, ◌==◌, ◌+◌, ◌*◌, ◌≡◌, refl, true, false, none, some, [], ◌∷◌, arith, String, eq_iff, includes,
}
use mathlib.Core.Path.{subst}
use view_limits.Base.Text.{compare_text}
use view_limits.Lock.Contender.{
  holding, idle, over, Pc, pid_of, elect, visit, find_prior, has_choosing, decided, chosen,
  next_number, is_prior, read_ticket,
}
use view_limits.Lock.System.{
  Store, System, Reach, is_legible, initial, later, moves, claim, list, look, choose, publish,
  decide, misread, read, is_there, is_idle, IsListing, set_at, after,
}
use view_limits.Lock.Invariant.Defs.{is_holding}
use view_limits.Lock.Safety.{mutual_exclusion, notes_unique}
use view_limits.Lock.Progress.{Alone, acquires-Alone}
use view_limits.Lock.Within.{World, IsAnswer, IsWaiting, attempts, attempts-some}

abbrev ours : String
ours = "12-00000000000000000000000000000001.json"

abbrev theirs : String
theirs = "7-00000000000000000000000000000002.json"

locked :
    (s : System) × (r : Reach s) × (is_holding (s.pc ours) ≡ true)
    × (s.store.notes 12 ≡ true)
    × (is_legible r ≡ true)
unfolding pid_of visit chosen next_number decided elect has_choosing find_prior after
locked = (
  _,
  later
      (later
        (later
          (later
            (later
              (later
                (later (later initial (moves ours (claim refl))) (
                  moves ours (
                    list (ours ∷ [])
                      (record { complete = λ k t. ground arith; created = λ k t. ground arith }))))
                (moves ours look))
              (moves ours (choose true)))
            (moves ours publish))
          (moves ours (
            list (ours ∷ [])
              (record { complete = λ k t. ground arith; created = λ k t. ground arith }))))
        (moves ours look))
      (moves ours (decide true)),
  refl,
  refl,
  refl,
)

both_listed :
    (m : Store) (pc : String → Pc)
    → ((k : String) → is_there (m.tickets k) ≡ true → includes (ours ∷ theirs ∷ []) k ≡ true)
    → is_idle (pc ours) ≡ false
    → is_idle (pc theirs) ≡ false
    → IsListing m pc (ours ∷ theirs ∷ [])
both_listed m pc c a b = record {
  complete = c;
  created = λ k t. ground (arith, a, b, eq_iff ours k, eq_iff theirs k);
}

-- The other process holds the lock with number 1 when we fail to read its ticket in our first pass:
-- we take number 1 as well, our name is before its name, and both hold the lock.
two_holders :
    (s : System) × Reach s × (is_holding (s.pc ours) ≡ true) × (is_holding (s.pc theirs) ≡ true)
unfolding pid_of visit chosen next_number decided elect has_choosing find_prior is_prior read_ticket
    after compare_text
two_holders =
    let claimed = later initial (moves theirs (claim refl)) in
    let listed = later claimed (
      moves theirs (
        list (theirs ∷ [])
          (record { complete = λ k t. ground arith; created = λ k t. ground arith }))) in
    let looked = later listed (moves theirs look) in
    let chosen_one = later looked (moves theirs (choose true)) in
    let numbered = later chosen_one (moves theirs publish) in
    let listed_again = later numbered (
      moves theirs (
        list (theirs ∷ [])
          (record { complete = λ k t. ground arith; created = λ k t. ground arith }))) in
    let looked_again = later listed_again (moves theirs look) in
    let held_by_them = later looked_again (moves theirs (decide true)) in
    let we_claimed = later held_by_them (moves ours (claim refl)) in
    let we_listed =
      later we_claimed (
        moves ours (list (ours ∷ theirs ∷ []) (both_listed _ _ (λ k t. ground arith) refl refl))) in
    let we_skipped = later we_listed (moves ours look) in
    let we_looked = later we_skipped (moves ours look) in
    let we_misread = later we_looked (moves ours misread) in
    let we_chose = later we_misread (moves ours (choose true)) in
    let we_numbered = later we_chose (moves ours publish) in
    let we_listed_again =
      later we_numbered (
        moves ours (list (ours ∷ theirs ∷ []) (both_listed _ _ (λ k t. ground arith) refl refl))) in
    let we_skipped_again = later we_listed_again (moves ours look) in
    let we_looked_again = later we_skipped_again (moves ours look) in
    let we_read = later we_looked_again (moves ours read) in
    let both = later we_read (moves ours (decide true)) in (_, both, refl, refl)

mutual_exclusion_example : ours ≡ ours
mutual_exclusion_example = mutual_exclusion locked.1 locked.4 ours ours locked.2 locked.2

notes_unique_example :
    (◌≡◌ {A = ℕ} 12 12) × ((i : String) × (pid_of i ≡ 12) × (is_holding (locked.0.pc i) ≡ true))
notes_unique_example = notes_unique locked.1 locked.4 12 12 locked.3 locked.3

-- Process 7 has died and left a ticket with number 4.
abbrev left_behind : Store
left_behind = record {
  tickets = set_at (λ k. none) theirs (some 4);
  is_absent = λ p. p == 7;
  notes = λ p. false;
}

abbrev one_over : String → Pc
one_over = set_at (λ k. idle) theirs over

left-IsListing : IsListing left_behind one_over (theirs ∷ [])
left-IsListing = record { complete = λ k t. ground arith; created = λ k t. ground arith }

left_dead : (k : String) → includes (theirs ∷ []) k ≡ true → left_behind.is_absent (pid_of k) ≡ true
unfolding pid_of
left_dead k h =
    subst (λ n. left_behind.is_absent (pid_of n) ≡ true) ((eq_iff theirs k).0 (ground arith)) refl

acquires-Alone_example : (m : Store) × Alone one_over ours left_behind idle m (holding 1)
unfolding pid_of
acquires-Alone_example =
    acquires-Alone left_behind one_over ours refl (theirs ∷ []) left-IsListing left_dead

-- Every attempt fails, and the clock goes on by the longest wait.
abbrev busy : World
busy = record { is_ok = λ k. false; clock = λ k. 1000 + 20 * k }

busy_waits : IsWaiting busy 1050
busy_waits k = ground arith

attempts-some_example : (k : ℕ) × (attempts busy 1050 51 0 ≡ some k) × IsAnswer busy 1050 0 k
attempts-some_example = attempts-some busy 1050 51 busy_waits (omega arith)
