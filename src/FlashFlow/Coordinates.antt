-- ===== src/FlashFlow/Coordinates.antt =====
-- The state of the main loop between two parts of a round.
use flashflow_research.Prelude.{
  ℕ, zero, suc, ◌+◌, ◌≡◌, ◌≢◌, inl, inr, refl, ◌∙◌, subst, true, false, some, List, [], ◌∷◌, map,
  ok, Returns, arith, ◌==◌, not, ◌&&◌, Bool-cases, length, get_elem?, All,
}
use flashflow_research.Meta.{Meta}
use flashflow_research.Sched.{
  Measurement, in_progress, complete, find, update, get, push_finished, sched_get_fp, sched_get_dur,
  sched_get_failsafe_stop, sched_get_hosts,
}
use flashflow_research.Sched.Count.{contains, all_contained, distinct}
use flashflow_research.Sched.Tracking.{IsScheduled}
use flashflow_research.FlashFlow.Defs.{fill_msm_params}
use flashflow_research.FlashFlow.Failed.{marked_done}
use flashflow_research.FlashFlow.Plans.{Plan, plans, plan_ids, KnownRun}
use flashflow_research.FlashFlow.Staff.{Manned, IsOwned}
use flashflow_research.FlashFlow.Loop.{Loop, last_of}

-- The id is of a measurement in progress, with a duration and a host.
abbrev pub Runs : List Measurement → ℕ → Type 0
Runs msms id =
    (m : Measurement) × (find msms id ≡ some m)
    × (m.state ≡ in_progress)
    × (m.dur ≢ 0)
    × (length m.hosts ≢ 0)

-- What holds between two parts of a round, once the ids in `past` were completed: `ps` is what never
-- changes of the measurements.
pub record Coordinates (ps : List Plan) (past : List ℕ) (s : Loop) : Type 0 where
  pub manned : Manned ps s.known s.metas
  pub scheduled : IsScheduled past s.msms
  pub once : distinct s.known ≡ true
  pub running : All (Runs s.msms) s.known
  pub known_run : KnownRun s.known s.msms
  pub plans_kept : plans s.msms ≡ ps
  pub counted : s.count_success + s.count_failure ≡ length past
  pub within : all_contained (plan_ids ps) past ≡ true

Runs-pushed :
    (msms : List Measurement) (a id : ℕ) → Runs msms id → Runs (map (push_finished a) msms) id
unfolding find
Runs-pushed [] a id (m, found, run, dur, hosts) = cc
Runs-pushed (x ∷ xs) a id (m, found, run, dur, hosts) = elim (Bool-cases (x.id == id)) [
  | inl hit ↦ (push_finished a x, ground arith, ground arith, ground arith, ground arith)
  | inr miss ↦
      let (m', found', run', dur', hosts') =
        Runs-pushed xs a id (m, rw miss at found, run, dur, hosts) in
      (m', ground arith, run', dur', hosts')
]

pub Runs-updated :
    (msms : List Measurement) (a id : ℕ) (f : Measurement → Measurement)
    → ((m : Measurement) → (f m).id ≡ m.id)
    → (a == id) ≡ false
    → Runs msms id
    → Runs (update msms a f) id
unfolding find update
Runs-updated [] a id f keeps h (m, found, run, dur, hosts) = cc
Runs-updated (x ∷ xs) a id f keeps h (m, found, run, dur, hosts) = elim (Bool-cases (x.id == a)) [
  | inl hit ↦
      let other : (x.id == id) ≡ false = ground arith in
      let same = keeps x in (m, ground arith, run, dur, hosts)
  | inr miss ↦ elim (Bool-cases (x.id == id)) [
    | inl here ↦ (m, ground arith, run, dur, hosts)
    | inr later ↦
        let (m', found', run', dur', hosts') =
          Runs-updated xs a id f keeps h (m, rw later at found, run, dur, hosts) in
        (m', ground arith, run', dur', hosts')
  ]
]

pub All-Runs-updated :
    (msms : List Measurement) (a : ℕ) (f : Measurement → Measurement) (ids : List ℕ)
    → ((m : Measurement) → (f m).id ≡ m.id)
    → contains ids a ≡ false
    → All (Runs msms) ids
    → All (Runs (update msms a f)) ids
All-Runs-updated msms a f [] keeps h r = tt
All-Runs-updated msms a f (id ∷ ids) keeps h r = (
  Runs-updated msms a id f keeps (ground arith) r.0,
  All-Runs-updated msms a f ids keeps (ground arith) r.1,
)

pub All-Runs-marked :
    (msms : List Measurement) (a : ℕ) (ids : List ℕ)
    → contains ids a ≡ false
    → All (Runs msms) ids
    → All (Runs (marked_done a msms)) ids
All-Runs-marked msms a [] h r = tt
All-Runs-marked msms a (id ∷ ids) h r = (
  Runs-pushed (update msms a (λ m. record m { state = complete })) a id
      (Runs-updated msms a id (λ m. record m { state = complete }) (λ m. refl) (ground arith) r.0),
  All-Runs-marked msms a ids (ground arith) r.1,
)

pub contains-All : (P : ℕ → Type 0) (ids : List ℕ) (a : ℕ) → contains ids a ≡ true → All P ids → P a
contains-All P [] a h r = cc
contains-All P (id ∷ ids) a h r = elim (Bool-cases (a == id)) [
  | inl same ↦ subst P (ground arith) r.0
  | inr other ↦ contains-All P ids a (ground arith) r.1
]

pub contains-last_of : (x : ℕ) (xs : List ℕ) → contains (x ∷ xs) (last_of x xs) ≡ true
contains-last_of x [] = ground arith
contains-last_of x (y ∷ ys) = ground (arith, contains-last_of y ys)

pub contains-get_elem :
    (ids : List ℕ) (i id : ℕ) → get_elem? ids i ≡ some id → contains ids id ≡ true
contains-get_elem [] i id h = cc
contains-get_elem (x ∷ xs) zero id h = ground arith
contains-get_elem (x ∷ xs) (suc i) id h = ground (arith, contains-get_elem xs i id h)

-- The parameters of a measurement that runs are there.
pub fill_msm_params-Runs :
    (msms : List Measurement) (id : ℕ)
    → Runs msms id
    → Returns (fill_msm_params msms id) (λ r. r.0 ≡ true)
unfolding fill_msm_params sched_get_fp sched_get_dur sched_get_failsafe_stop sched_get_hosts get
fill_msm_params-Runs msms id (m, found, run, dur, hosts) = ground arith

-- The parameters are those of the measurement found.
pub fill_msm_params-found :
    (msms : List Measurement) (id : ℕ) (m : Measurement)
    → find msms id ≡ some m
    → fill_msm_params msms id
      ≡ ok (
        not (m.dur == 0) && not (length m.hosts == 0),
        record {
          id = id;
          fp = m.fp;
          dur = m.dur;
          hosts = m.hosts;
          num_m = length m.hosts;
          failsafe_stop = m.failsafe_stop;
        },
      )
unfolding fill_msm_params sched_get_fp sched_get_dur sched_get_failsafe_stop sched_get_hosts get
fill_msm_params-found msms id m e = ground arith

-- The same ids, in another order.
pub IsOwned-same :
    (known known' : List ℕ) (metas : List Meta)
    → ((a : ℕ) → contains known a ≡ contains known' a)
    → All (IsOwned known) metas
    → All (IsOwned known') metas
IsOwned-same known known' [] e h = tt
IsOwned-same known known' (m ∷ ms) e h = (
  record {
    tracked = h.0.tracked;
    owner = ground (arith, e m.current_m_id, h.0.owner);
    background = h.0.background;
  },
  IsOwned-same known known' ms e h.1,
)

pub KnownRun-same :
    (known known' : List ℕ) (ms : List Measurement)
    → ((a : ℕ) → contains known a ≡ contains known' a)
    → KnownRun known ms
    → KnownRun known' ms
KnownRun-same known known' [] e h = tt
KnownRun-same known known' (m ∷ ms) e h = (h.0 ∙ e m.id, KnownRun-same known known' ms e h.1)

-- One id more.
pub IsOwned-more :
    (known : List ℕ) (id : ℕ) (metas : List Meta)
    → All (IsOwned known) metas
    → All (IsOwned (id ∷ known)) metas
IsOwned-more known id [] h = tt
IsOwned-more known id (m ∷ ms) h = (
  record { tracked = h.0.tracked; owner = ground (arith, h.0.owner); background = h.0.background },
  IsOwned-more known id ms h.1,
)
