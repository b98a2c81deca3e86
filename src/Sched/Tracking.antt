-- ===== src/Sched/Tracking.antt =====
-- The invariant of the scheduler: its state against the order in which measurements were completed.
use flashflow_research.Prelude.{
  ℕ, ◌+◌, ◌*◌, ◌/◌, ◌^◌, ◌<◌, ◌≡◌, ◌≢◌, ◌⊎◌, inl, inr, refl, ap, true, false, some, List, [], ◌∷◌,
  Returns, Returns-bind, ==_self, ok, arith, ◌==◌, Bool-cases, length, keep_if, All,
}
use flashflow_research.Sched.Count.{
  contains, distinct, all_contained, contains_same, length-keep_if, count-le-count,
  count_all-contained,
}
use flashflow_research.Sched.{
  waiting, in_progress, is_complete, Measurement, find, update, failsafe_at, is_ready,
  sched_next_internal, sched_next, ids,
}

-- What holds of each measurement once the ids in `past` were completed, in this order: its finished
-- dependencies are those of its dependencies that were completed, and it is complete if it was.
pub record Tracks (past : List ℕ) (m : Measurement) : Type 0 where
  pub finished : m.finished_depends ≡ keep_if (contains m.depends) past
  pub completed : is_complete m.state ≡ contains past m.id
  pub named : m.id ≢ 0

pub record IsScheduled (past : List ℕ) (msms : List Measurement) : Type 0 where
  pub tracked : All (Tracks past) msms
  pub unique : distinct (ids msms) ≡ true
  pub once : distinct past ≡ true

-- A measurement that is ready waits, and every measurement that it depends on is complete.
ready-all_contained :
    (past : List ℕ) (m : Measurement)
    → distinct past ≡ true
    → Tracks past m
    → is_ready m ≡ true
    → (m.state ≡ waiting) × (all_contained past m.depends ≡ true)
ready-all_contained past m h t r = (
  ground arith,
  count_all-contained m.depends past (
      ground (
        arith,
        length-keep_if (contains m.depends) past,
        count-le-count m.depends past h,
        ap length t.finished,
      )),
)

-- The times of a measurement that starts now fit their machine words.
pub record FitsClock (now : ℕ) (m : Measurement) : Type 0 where
  pub dur_fits : 3 * m.dur < 2 ^ 32
  pub stop_fits : now + 3 * m.dur / 2 < 2 ^ 64

pub failsafe_at_lem :
    (now : ℕ) (m : Measurement) → FitsClock now m → failsafe_at now m.dur ≡ ok (now + 3 * m.dur / 2)
unfolding failsafe_at
failsafe_at_lem now m h = ground arith

-- The measurement as it starts.
abbrev pub started : ℕ → Measurement → Measurement
started now m = record m { state = in_progress; failsafe_stop = now + 3 * m.dur / 2 }

started-Tracks :
    (past : List ℕ) (now : ℕ) (m : Measurement)
    → is_ready m ≡ true
    → Tracks past m
    → Tracks past (started now m)
started-Tracks past now m r t = ground arith

pub find-contains :
    (msms : List Measurement) (id : ℕ) (m : Measurement)
    → find msms id ≡ some m
    → contains (ids msms) id ≡ true
unfolding find
find-contains [] id m h = cc
find-contains (x ∷ xs) id m h = ground (arith, find-contains xs id m)

apart :
    (known : List ℕ) (a b : ℕ)
    → contains known a ≡ false
    → contains known b ≡ true
    → (a == b) ≡ false
apart known a b h k = ground (arith, contains_same known {d = b} {x = a})

module _ (past : List ℕ) (now : ℕ) where
  -- What sched_next can return: 0 and no change, when no measurement is ready; or the id of a waiting
  -- measurement whose dependencies are all complete, which is in progress now and all that changed.
  abbrev pub Starts : List Measurement → ℕ × List Measurement → Type 0
  Starts msms (id, msms') =
      ((id ≡ 0) × (msms' ≡ msms) × All (λ m. is_ready m ≡ false) msms)
      ⊎ ((m : Measurement) × (find msms id ≡ some m)
          × (m.state ≡ waiting)
          × (all_contained past m.depends ≡ true)
          × (msms' ≡ update msms id (started now)))

  skip-Starts :
      (m : Measurement) (ms : List Measurement) (r : ℕ × List Measurement)
      → is_ready m ≡ false
      → contains (ids ms) m.id ≡ false
      → Starts ms r
      → Starts (m ∷ ms) (r.0, m ∷ r.1)
  unfolding find update
  skip-Starts m ms r h fresh (inl (zero, same, none_ready)) =
      inl (zero, ap (◌∷◌ m) same, (h, none_ready))
  skip-Starts m ms (id, ms') h fresh (inr (n, found, waits, met, e)) =
      let other = apart (ids ms) m.id id fresh (find-contains ms id n found) in
      inr (n, rw other found, waits, met, rw other (ap (◌∷◌ m) e))

  sched_next_internal-Starts :
      (msms : List Measurement)
      → distinct past ≡ true
      → All (Tracks past) msms
      → distinct (ids msms) ≡ true
      → All (FitsClock now) msms
      → Returns (sched_next_internal true now msms) (Starts msms)
  unfolding sched_next_internal find update
  sched_next_internal-Starts [] once t u c = inl (refl, refl, tt)
  sched_next_internal-Starts (m ∷ ms) once t u c = elim (Bool-cases (is_ready m)) [
    | inr not_ready ↦ rw not_ready (
        Returns-bind (Starts ms) (Starts (m ∷ ms)) (sched_next_internal true now ms) _
          (sched_next_internal-Starts ms once t.1 (ground arith) c.1)
          λ r k. skip-Starts m ms r not_ready (ground arith) k)
    | inl ready ↦
        let (waits, met) = ready-all_contained past m once t.0 ready in
        rw (ready, failsafe_at_lem now m c.0)
          (inr (m, rw ==_self refl, waits, met, rw ==_self refl))
  ]

  -- From a tracked state sched_next returns, as `Starts` says.
  pub sched_next-Starts :
      (msms : List Measurement)
      → IsScheduled past msms
      → All (FitsClock now) msms
      → Returns (sched_next now msms) (Starts msms)
  unfolding sched_next
  sched_next-Starts msms s c = sched_next_internal-Starts msms s.once s.tracked s.unique c
