-- ===== src/Sched/Progress.antt =====
-- sched/src/lib.rs: when sched_next has a measurement to start, and one that can never start.
use flashflow_research.Prelude.{
  ℕ, zero, suc, ◌<◌, ◌≡◌, ◌≢◌, inl, inr, refl, ap, ◌∙◌, subst, true, false, some, List, [], ◌∷◌,
  Returns, Returns-map, arith, ◌==◌, ==_self, Bool-cases, length, All,
}
use flashflow_research.Sched.Count.{
  contains, distinct, all_contained, length-keep_if, count-le-count, all_contained-count,
  count-lt-length,
}
use flashflow_research.Sched.{
  waiting, is_in_progress, Measurement, find, is_ready, sched_next, sched_finished,
  sched_num_incomplete, ids,
}
use flashflow_research.Sched.Tracking.{Tracks, IsScheduled, FitsClock, sched_next-Starts}
use flashflow_research.Sched.Preserved.{find-All}

-- A tracked measurement that names one dependency twice is not ready, whatever was completed: only one
-- of the two entries is ever pushed to its finished dependencies.
pub repeated_dependency-never_ready :
    (past : List ℕ) (m : Measurement)
    → distinct past ≡ true
    → Tracks past m
    → distinct m.depends ≡ false
    → is_ready m ≡ false
repeated_dependency-never_ready past m once t twice = ground (
  arith,
  ap length t.finished,
  length-keep_if (contains m.depends) past,
  count-lt-length m.depends past once twice,
)

-- Each dependency of a measurement has a lower rank, is known, and is named once.
pub record WellFormed (rank : ℕ → ℕ) (known : List ℕ) (m : Measurement) : Type 0 where
  pub below : All (λ d. rank d < rank m.id) m.depends
  pub depends_on_known : all_contained known m.depends ≡ true
  pub named_once : distinct m.depends ≡ true

contains-find :
    (msms : List Measurement) (id : ℕ)
    → contains (ids msms) id ≡ true
    → (m : Measurement) × (find msms id ≡ some m)
unfolding find
contains-find [] id h = cc
contains-find (x ∷ xs) id h = elim (Bool-cases (x.id == id)) [
  | inl hit ↦ (x, rw hit)
  | inr miss ↦ rw miss (contains-find xs id (ground arith))
]

met-is_ready :
    (past : List ℕ) (m : Measurement)
    → distinct past ≡ true
    → Tracks past m
    → m.state ≡ waiting
    → distinct m.depends ≡ true
    → all_contained past m.depends ≡ true
    → is_ready m ≡ true
met-is_ready past m once t w u h = ground (
  arith,
  ap length t.finished,
  length-keep_if (contains m.depends) past,
  count-le-count m.depends past once,
  count-le-count past m.depends u,
  all_contained-count m.depends past h,
)

module _ (past : List ℕ) (msms : List Measurement) (rank : ℕ → ℕ) (s : IsScheduled past msms)
    (formed : All (WellFormed rank (ids msms)) msms)
    (none_runs : All (λ m. is_in_progress m.state ≡ false) msms)
    (none_ready : All (λ m. is_ready m ≡ false) msms) where
  depends_complete :
      (k : ℕ) (ds : List ℕ)
      → ((d : ℕ) → contains (ids msms) d ≡ true → rank d < k → contains past d ≡ true)
      → All (λ d. rank d < k) ds
      → all_contained (ids msms) ds ≡ true
      → all_contained past ds ≡ true
  depends_complete k [] ih b h = refl
  depends_complete k (d ∷ ds) ih b h = ground (arith, ih d, depends_complete k ds ih b.1)

  -- By induction on a bound of the ranks: what is known was completed.
  known-completed :
      (k id : ℕ) → contains (ids msms) id ≡ true → rank id < k → contains past id ≡ true
  known-completed zero id h b = absurd (omega arith)
  known-completed (suc k) id h b =
      let (m, found) = contains-find msms id h in
      let (t, named) = find-All (Tracks past) msms id m found s.tracked in
      let f = (find-All (WellFormed rank (ids msms)) msms id m found formed).0 in
      let idle = (find-All (λ m. is_in_progress m.state ≡ false) msms id m found none_runs).0 in
      let stuck = (find-All (λ m. is_ready m ≡ false) msms id m found none_ready).0 in
      let below : All (λ d. rank d < rank id) m.depends =
        subst (λ i. All (λ d. rank d < rank i) m.depends) named f.below in
      let met =
        depends_complete (rank id) m.depends
          (λ d known lower. known-completed k d known (omega arith)) below f.depends_on_known in
      subst (λ i. contains past i ≡ true) named
        (ground (arith, t.completed, idle, stuck, met-is_ready past m s.once t, f.named_once, met))

All-completed :
    (past : List ℕ) (ms : List Measurement)
    → All (Tracks past) ms
    → All (λ m. contains past m.id ≡ true) ms
    → sched_finished ms ≡ true
unfolding sched_finished sched_num_incomplete
All-completed past [] t h = refl
All-completed past (m ∷ ms) t h = ground (arith, All-completed past ms t.1 h.1)

All-ids :
    (P : ℕ → Type 0) (known : List ℕ) (ms : List Measurement)
    → ((id : ℕ) → contains known id ≡ true → P id)
    → ((id : ℕ) → contains (ids ms) id ≡ true → contains known id ≡ true)
    → All (λ m. P m.id) ms
All-ids P known [] all sub = tt
All-ids P known (m ∷ ms) all sub = (
  all m.id (sub m.id (ground (arith, ==_self m.id))),
  All-ids P known ms all (λ id h. sub id (ground arith)),
)

-- No deadlock. If the dependencies have a rank that falls along them, are all known, and are named
-- once each, and no measurement is in progress while not all are complete, then sched_next returns
-- the id of a measurement that may start.
pub sched_next-progress :
    (past : List ℕ) (now : ℕ) (msms : List Measurement) (rank : ℕ → ℕ)
    → IsScheduled past msms
    → All (FitsClock now) msms
    → All (WellFormed rank (ids msms)) msms
    → All (λ m. is_in_progress m.state ≡ false) msms
    → sched_finished msms ≡ false
    → Returns (sched_next now msms) (λ r. r.0 ≢ 0)
sched_next-progress past now msms rank s fits formed idle unfinished =
    Returns-map (sched_next now msms) (sched_next-Starts past now msms s fits) λ r k. elim k [
      | inl (none_found, same, none_ready) ↦
          let all = λ (id : ℕ) (known : contains (ids msms) id ≡ true).
            known-completed past msms rank s formed idle none_ready (suc (rank id)) id known
              (omega arith) in
          let over =
            All-completed past msms s.tracked
              (All-ids (λ id. contains past id ≡ true) (ids msms) msms all (λ id h. h)) in
          absurd (ground (arith, over))
      | inr (m, found, waits, met, changed) ↦
          let (t, named) = find-All (Tracks past) msms r.0 m found s.tracked in
          λ e. t.named (named ∙ e)
    ]
