-- ===== src/Sched/Preserved.antt =====
-- sched/src/lib.rs: sched_next and sched_mark_done against the invariant of the scheduler.
use flashflow_research.Prelude.{
  ℕ, ◌≡◌, inl, inr, refl, subst, true, false, some, List, [], ◌∷◌, ◌++◌, map, Returns, Returns-map,
  arith, ◌==◌, if◌then◌else◌, Bool-cases, keep_if, All,
}
use mathlib.Core.List.{append-nil}
use flashflow_research.Sched.Count.{
  contains, distinct, contains_same, contains-append, keep_if-append, distinct-append_one,
}
use flashflow_research.Sched.{
  in_progress, complete, Measurement, find, update, get, sched_next, push_finished, sched_mark_done,
  ids,
}
use flashflow_research.Sched.Tracking.{
  Tracks, IsScheduled, FitsClock, started, Starts, sched_next-Starts,
}

-- A change of one measurement that keeps its id.
pub update-ids :
    (msms : List Measurement) (id : ℕ) (f : Measurement → Measurement)
    → ((m : Measurement) → (f m).id ≡ m.id)
    → ids (update msms id f) ≡ ids msms
unfolding update
update-ids [] id f keeps = refl
update-ids (m ∷ ms) id f keeps = ground (arith, keeps m, update-ids ms id f keeps)

pub update-All :
    (P : Measurement → Type 0) (msms : List Measurement) (id : ℕ) (f : Measurement → Measurement)
    → ((m : Measurement) → find msms id ≡ some m → P m → P (f m))
    → All P msms
    → All P (update msms id f)
unfolding update find
update-All P [] id f change h = tt
update-All P (m ∷ ms) id f change h = elim (Bool-cases (m.id == id)) [
  | inl hit ↦ rw hit (change m (rw hit refl) h.0, h.1)
  | inr miss ↦ rw miss (h.0, update-All P ms id f (λ n e. change n (rw miss e)) h.1)
]

pub started_step :
    (past : List ℕ) (now : ℕ) (msms : List Measurement) (r : ℕ × List Measurement)
    → IsScheduled past msms
    → Starts past now msms r
    → IsScheduled past r.1
started_step past now msms r s (inl (zero, same, none_ready)) = rw same s
started_step past now msms r s (inr (m, found, waits, met, e)) = record {
  tracked =
      rw e (update-All (Tracks past) msms r.0 (started now) (λ n f t. ground arith) s.tracked);
  unique = rw (e, update-ids msms r.0 (started now) (λ n. refl)) s.unique;
  once = s.once;
}

keep_if-pushed :
    (ds past : List ℕ) (id : ℕ)
    → keep_if (contains ds) (past ++ id ∷ []) ≡ (
        if contains ds id
        then keep_if (contains ds) past ++ id ∷ []
        else keep_if (contains ds) past)
keep_if-pushed ds past id =
    ground
      (arith, keep_if-append (contains ds) past (id ∷ []), append-nil (keep_if (contains ds) past))

module _ (past : List ℕ) (id : ℕ) (fresh : contains past id ≡ false) where
  other-Tracks :
      (m : Measurement)
      → (m.id == id) ≡ false
      → Tracks past m
      → Tracks (past ++ id ∷ []) (push_finished id m)
  other-Tracks m h t =
      ground (arith, keep_if-pushed m.depends past id, contains-append past (id ∷ []) m.id)

  self-Tracks :
      (m : Measurement)
      → (m.id == id) ≡ true
      → Tracks past m
      → Tracks (past ++ id ∷ []) (push_finished id (record m { state = complete }))
  self-Tracks m h t =
      ground (arith, keep_if-pushed m.depends past id, contains-append past (id ∷ []) m.id)

  others-Tracks :
      (ms : List Measurement)
      → contains (ids ms) id ≡ false
      → All (Tracks past) ms
      → All (Tracks (past ++ id ∷ [])) (map (push_finished id) ms)
  others-Tracks [] h t = tt
  others-Tracks (m ∷ ms) h t =
      (other-Tracks m (ground arith) t.0, others-Tracks ms (ground arith) t.1)

  completed-Tracks :
      (ms : List Measurement)
      → distinct (ids ms) ≡ true
      → All (Tracks past) ms
      → All
          (Tracks (past ++ id ∷ []))
          (map (push_finished id) (update ms id (λ m. record m { state = complete })))
  unfolding update
  completed-Tracks [] h t = tt
  completed-Tracks (m ∷ ms) h t = elim (Bool-cases (m.id == id)) [
    | inl hit ↦ rw hit (
      self-Tracks m hit t.0,
      others-Tracks ms (ground (arith, contains_same (ids ms) {d = m.id} {x = id})) t.1,
    )
    | inr miss ↦ rw miss (other-Tracks m miss t.0, completed-Tracks ms (ground arith) t.1)
  ]

ids-push_finished : (id : ℕ) (ms : List Measurement) → ids (map (push_finished id) ms) ≡ ids ms
ids-push_finished id [] = refl
ids-push_finished id (m ∷ ms) = ground (arith, ids-push_finished id ms)

pub find-All :
    (P : Measurement → Type 0) (msms : List Measurement) (id : ℕ) (m : Measurement)
    → find msms id ≡ some m
    → All P msms
    → P m × (m.id ≡ id)
unfolding find
find-All P [] id m e h = cc
find-All P (x ∷ xs) id m e h = elim (Bool-cases (x.id == id)) [
  | inl hit ↦ let same : x ≡ m = ground arith in (subst P same h.0, ground arith)
  | inr miss ↦ find-All P xs id m (ground arith) h.1
]

-- A measurement in progress can be marked done: the call returns, and the invariant holds with its
-- id as the last that was completed.
pub sched_mark_done-IsScheduled :
    (past : List ℕ) (msms : List Measurement) (id : ℕ) (m : Measurement)
    → IsScheduled past msms
    → find msms id ≡ some m
    → m.state ≡ in_progress
    → Returns (sched_mark_done msms id) (IsScheduled (past ++ id ∷ []))
unfolding sched_mark_done get
sched_mark_done-IsScheduled past msms id m s e p =
    let (t, named) = find-All (Tracks past) msms id m e s.tracked in
    let fresh : contains past id ≡ false =
      subst (λ i. contains past i ≡ false) named (ground (arith, t.completed)) in
    rw (e, get)
      (rw p (record {
        tracked = completed-Tracks past id fresh msms s.unique s.tracked;
        unique =
            rw
              (
                ids-push_finished,
                update-ids msms id (λ n. record n { state = complete }) (λ n. refl),
              )
              s.unique;
        once = distinct-append_one past id s.once fresh;
      }))

-- From a tracked state, with times that fit, sched_next returns, and the state is tracked again with the
-- same measurements completed.
pub sched_next-IsScheduled :
    (past : List ℕ) (now : ℕ) (msms : List Measurement)
    → IsScheduled past msms
    → All (FitsClock now) msms
    → Returns (sched_next now msms) (λ r. IsScheduled past r.1)
sched_next-IsScheduled past now msms s c =
    Returns-map (sched_next now msms) (sched_next-Starts past now msms s c)
      λ r k. started_step past now msms r s k
