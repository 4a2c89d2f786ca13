-- ===== src/Scheduler/Reports.antt =====
-- lib/dashboard/scheduler.js: what `snapshot()` says of the collections so far.
use view_limits.Base.{
  ℕ, Bool, true, false, Option, none, some, List, [], ◌∷◌, ◌≡◌, ◌≢◌, ◌↔◌, refl, ap, ◌∙◌, arith,
  Bool-cases, inl, inr,
}
use mathlib.Core.Path.{ap₂}
use view_limits.Value.{Value, Printer}
use view_limits.Scheduler.{
  Scheduler, Trigger, Attempt, status_from, Collected, resolved, threw, Status, pending,
  unavailable, ok, stale, Snapshot, status_of, snapshot, attempt_of, envelope_of, start_of, age_of,
  or_keep, is_stale_status,
}
use view_limits.Scheduler.History.{
  Entry, Reaches, Reaches-IsLogged, IsLogged, attempt, newest, newest_good, newest_view,
}

module _ ⦃p : Printer⦄ where
  -- The newest collection was good.
  pub EndsWell : List Entry → Type 0
  EndsWell log = (a : Attempt) × (newest log ≡ some a) × (a.good ≡ true)

  pub record IsReported (log : List Entry) (now : ℕ) (r : Snapshot) : Type 0 where
    pub pending_iff : r.status ≡ pending ↔ (log ≡ [])
    pub ok_iff : r.status ≡ ok ↔ EndsWell log
    pub unavailable_iff : r.status ≡ unavailable ↔ ((log ≢ []) × (newest_view log ≡ none))
    pub stale_iff : r.status ≡ stale ↔ ((newest_view log ≢ none) × ¬ EndsWell log)
    pub age : r.observation_age_seconds ≡ age_of now (start_of (newest_good log))
    pub is_stale : r.is_stale ≡ true ↔ (r.status ≡ stale)

  good_adopts :
      (t : Trigger) (start end : ℕ) (c : Collected)
      → (attempt_of t start end c).good ≡ true
      → ¬ (envelope_of c ≡ none)
  unfolding attempt_of envelope_of
  good_adopts t start end (resolved res) h q = ground (arith, h, q)
  good_adopts t start end (threw e) h q = ground (arith, h, q)

  view_adopted :
      (x : Entry) (log : List Entry) → (attempt x).good ≡ true → newest_view (x ∷ log) ≢ none
  view_adopted x log h =
      go (envelope_of x.result) (good_adopts x.trigger x.started_at x.finished_at x.result h)
    where
      go : (o : Option Value) → ¬ (o ≡ none) → or_keep o (newest_view log) ≢ none
      go none n = absurd (n refl)
      go (some v) n = λ q. ground (arith, q)

  abbrev good_of : Option Attempt → Bool
  good_of none = false
  good_of (some a) = a.good

  ends_well : (x : Entry) (log : List Entry) → EndsWell (x ∷ log) ↔ ((attempt x).good ≡ true)
  unfolding EndsWell
  ends_well x log = (λ (a, q, g). ap good_of q ∙ g, λ g. (attempt x, refl, g))

  abbrev report : List Entry → Status
  report log = status_from (newest log) (newest_view log)

  pending_iff : (log : List Entry) → report log ≡ pending ↔ (log ≡ [])
  pending_iff [] = (λ h. refl, λ h. refl)
  pending_iff (x ∷ log) = (λ h. absurd (go (newest_view (x ∷ log)) h), λ h. ground (arith, h))
    where
      go : (v : Option Value) → ¬ (status_from (some (attempt x)) v ≡ pending)
      go none h = ground (arith, h)
      go (some v) h = ground (arith, h)

  ok_iff : (log : List Entry) → report log ≡ ok ↔ EndsWell log
  unfolding EndsWell
  ok_iff [] = (λ h. ground (arith, h), λ (a, q, g). ground (arith, q))
  ok_iff (x ∷ log) = (
    λ h. (ends_well x log).1 (to (newest_view (x ∷ log)) h),
    λ w.
        from (newest_view (x ∷ log)) ((ends_well x log).0 w)
          (view_adopted x log ((ends_well x log).0 w)),
  )
    where
      to : (v : Option Value) → status_from (some (attempt x)) v ≡ ok → (attempt x).good ≡ true
      to none h = ground (arith, h)
      to (some v) h = ground (arith, h)

      from :
          (v : Option Value)
          → (attempt x).good ≡ true
          → v ≢ none
          → status_from (some (attempt x)) v ≡ ok
      from none g n = absurd (n refl)
      from (some v) g n = ground (arith, g)

  unavailable_iff :
      (log : List Entry) → report log ≡ unavailable ↔ ((log ≢ []) × (newest_view log ≡ none))
  unavailable_iff [] = (λ h. ground (arith, h), λ (n, q). absurd (n refl))
  unavailable_iff (x ∷ log) = (
    λ h. (λ q. ground (arith, q), to (newest_view (x ∷ log)) h),
    λ (n, q). ap (status_from (some (attempt x))) q,
  )
    where
      to : (v : Option Value) → status_from (some (attempt x)) v ≡ unavailable → v ≡ none
      to none h = refl
      to (some v) h = ground (arith, h)

  stale_iff : (log : List Entry) → report log ≡ stale ↔ ((newest_view log ≢ none) × ¬ EndsWell log)
  stale_iff [] = (λ h. ground (arith, h), λ (n, w). absurd (n refl))
  stale_iff (x ∷ log) = (
    λ h. (
      λ q. ground (arith, to_view (newest_view (x ∷ log)) h q),
      λ w. ground (arith, to_good (newest_view (x ∷ log)) h, (ends_well x log).0 w),
    ),
    λ (n, w). from (newest_view (x ∷ log)) n (not_good w),
  )
    where
      to_view : (v : Option Value) → status_from (some (attempt x)) v ≡ stale → ¬ (v ≡ none)
      to_view none h q = ground (arith, h)
      to_view (some v) h q = ground (arith, q)

      to_good :
          (v : Option Value) → status_from (some (attempt x)) v ≡ stale → (attempt x).good ≡ false
      to_good none h = ground (arith, h)
      to_good (some v) h = ground (arith, h)

      not_good : ¬ EndsWell (x ∷ log) → (attempt x).good ≡ false
      not_good w = elim (Bool-cases (attempt x).good) [
        | inl t ↦ absurd (w ((ends_well x log).1 t))
        | inr f ↦ f
      ]

      from :
          (v : Option Value)
          → v ≢ none
          → (attempt x).good ≡ false
          → status_from (some (attempt x)) v ≡ stale
      from none n g = absurd (n refl)
      from (some v) n g = ground (arith, g)

  is_stale_iff : (t : Status) → is_stale_status t ≡ true ↔ (t ≡ stale)
  is_stale_iff pending = (λ h. ground (arith, h), λ h. ground (arith, h))
  is_stale_iff unavailable = (λ h. ground (arith, h), λ h. ground (arith, h))
  is_stale_iff ok = (λ h. ground (arith, h), λ h. ground (arith, h))
  is_stale_iff stale = (λ h. refl, λ h. refl)

  status_report : (log : List Entry) (s : Scheduler) → IsLogged log s → status_of s ≡ report log
  unfolding status_of
  status_report log s h = ap₂ status_from h.last_attempt h.view

  -- Whatever happened to a scheduler, its snapshot is pending exactly before the first collection
  -- has settled, ok exactly when the newest collection was good, unavailable exactly when
  -- collections have settled and none had an envelope, and stale exactly when some had one and the
  -- newest was not good; its age counts from the start of the newest good collection.
  pub snapshot-IsReported :
      (now : ℕ) {log : List Entry} {s : Scheduler}
      → Reaches log s
      → IsReported log now (snapshot now s)
  unfolding snapshot
  snapshot-IsReported now {log} {s} r =
      let h = Reaches-IsLogged r in
      let same = status_report log s h in
      record {
        pending_iff = rw same (pending_iff log);
        ok_iff = rw same (ok_iff log);
        unavailable_iff = rw same (unavailable_iff log);
        stale_iff = rw same (stale_iff log);
        age = ap (λ g. age_of now (start_of g)) h.last_good;
        is_stale = is_stale_iff (status_of s);
      }
