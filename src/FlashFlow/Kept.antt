-- ===== src/FlashFlow/Kept.antt =====
-- Steps of a round after which the state of the main loop holds with the same measurements known.
use flashflow_research.Prelude.{
  ℕ, ◌≡◌, inl, inr, refl, ◌∙◌, List, [], ◌∷◌, arith, ◌==◌, Bool-cases, All,
}
use flashflow_research.Meta.{Meta}
use flashflow_research.Sched.{Measurement, find, update, is_in_progress}
use flashflow_research.Sched.Count.{contains}
use flashflow_research.Sched.Tracking.{Tracks}
use flashflow_research.Sched.Preserved.{update-ids, update-All}
use flashflow_research.FlashFlow.Plans.{Plan, plans-update}
use flashflow_research.FlashFlow.Moves.{Moved, Moved-Manned}
use flashflow_research.FlashFlow.Coordinates.{Runs, Coordinates}
use flashflow_research.FlashFlow.Loop.{Loop}

pub Moved-Coordinates :
    (ps : List Plan) (past : List ℕ) (s : Loop) (metas : List Meta)
    → Moved s.metas metas
    → Coordinates ps past s
    → Coordinates ps past (record s { metas = metas })
Moved-Coordinates ps past s metas v c = record {
  manned = Moved-Manned ps s.known s.metas metas v c.manned;
  scheduled = c.scheduled;
  once = c.once;
  running = c.running;
  known_run = c.known_run;
  plans_kept = c.plans_kept;
  counted = c.counted;
  within = c.within;
}

-- The measurements with another time at which one of them is to be given up.
abbrev pub with_stop : ℕ → ℕ → List Measurement → List Measurement
with_stop id stop msms = update msms id (λ m. record m { failsafe_stop = stop })

Runs-with_stop :
    (msms : List Measurement) (a id stop : ℕ) → Runs msms id → Runs (with_stop a stop msms) id
unfolding find update
Runs-with_stop [] a id stop (m, found, run, dur, hosts) = cc
Runs-with_stop (x ∷ xs) a id stop (m, found, run, dur, hosts) = elim (Bool-cases (x.id == a)) [
  | inl hit ↦ rw hit (elim (Bool-cases (x.id == id)) [
    | inl here ↦
        let same : x ≡ m = ground arith in
        (record x { failsafe_stop = stop }, rw here refl, rw same run, rw same dur, rw same hosts)
    | inr later ↦ (m, rw later (rw later at found), run, dur, hosts)
  ])
  | inr miss ↦ rw miss (elim (Bool-cases (x.id == id)) [
    | inl here ↦ (m, rw here (rw here at found), run, dur, hosts)
    | inr later ↦
        let (m', found', run', dur', hosts') =
          Runs-with_stop xs a id stop (m, rw later at found, run, dur, hosts) in
        (m', rw later found', run', dur', hosts')
  ])
]

All-Runs-with_stop :
    (msms : List Measurement) (a stop : ℕ) (ids : List ℕ)
    → All (Runs msms) ids
    → All (Runs (with_stop a stop msms)) ids
All-Runs-with_stop msms a stop [] r = tt
All-Runs-with_stop msms a stop (id ∷ ids) r =
    (Runs-with_stop msms a id stop r.0, All-Runs-with_stop msms a stop ids r.1)

pub with_stop-Coordinates :
    (ps : List Plan) (past : List ℕ) (s : Loop) (id stop : ℕ)
    → Coordinates ps past s
    → Coordinates ps past (record s { msms = with_stop id stop s.msms })
with_stop-Coordinates ps past s id stop c =
    let f = λ (m : Measurement). record m { failsafe_stop = stop } in
    record {
      manned = c.manned;
      scheduled = record {
        tracked =
            update-All (Tracks past) s.msms id f
              (λ m e t. record { finished = t.finished; completed = t.completed; named = t.named })
              c.scheduled.tracked;
        unique = rw (update-ids s.msms id f (λ m. refl)) c.scheduled.unique;
        once = c.scheduled.once;
      };
      once = c.once;
      running = All-Runs-with_stop s.msms id stop s.known c.running;
      known_run =
          update-All (λ m. is_in_progress m.state ≡ contains s.known m.id) s.msms id f (λ m e k. k)
            c.known_run;
      plans_kept = plans-update s.msms id f (λ m. refl) ∙ c.plans_kept;
      counted = c.counted;
      within = c.within;
    }

pub progress-Coordinates :
    (ps : List Plan) (past : List ℕ) (s : Loop) (n : ℕ)
    → Coordinates ps past s
    → Coordinates ps past (record s { loops_without_progress = n })
progress-Coordinates ps past s n c = record {
  manned = c.manned;
  scheduled = c.scheduled;
  once = c.once;
  running = c.running;
  known_run = c.known_run;
  plans_kept = c.plans_kept;
  counted = c.counted;
  within = c.within;
}
