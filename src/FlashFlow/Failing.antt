-- ===== src/FlashFlow/Failing.antt =====
-- flashflow.c: a measurement about to fail, and the state without a measurement that is over.
use mathlib.Core.List.{Permᴰ}
use flashflow_research.Prelude.{
  ℕ, ◌+◌, ◌≡◌, inl, inr, refl, sym, length-append, ◌∙◌, subst, true, false, some, List, [], ◌∷◌,
  ◌++◌, map, arith, length, All,
}
use flashflow_research.Prelude.Perms.{All-perm, perm_sym}
use flashflow_research.Sched.{Measurement, in_progress, find}
use flashflow_research.Sched.Count.{
  contains, all_contained, all_contained-append_one, distinct, distinct-perm, contains-perm,
}
use flashflow_research.Sched.Tracking.{IsScheduled}
use flashflow_research.FlashFlow.Defs.{remove_id}
use flashflow_research.FlashFlow.Failed.{marked_done, after_failure, remove_id-perm}
use flashflow_research.Sched.Tracking.{find-contains}
use flashflow_research.FlashFlow.Plans.{
  Plan, plans, plan_ids, plan_ids-plans, plans-marked_done, KnownRun, KnownRun-marked_done,
}
use flashflow_research.FlashFlow.Staff.{IsOwned, Staffed, Manned-after_failure}
use flashflow_research.FlashFlow.Coordinates.{
  Runs, Coordinates, All-Runs-marked, contains-All, IsOwned-same, KnownRun-same,
}
use flashflow_research.FlashFlow.Loop.{Loop}

-- A measurement in progress about to fail: `others` are the ids that are to stay known. The
-- connections are of these or of its own, and only the others need have all theirs.
pub record Failing (ps : List Plan) (past : List ℕ) (id : ℕ) (others : List ℕ) (s : Loop)
    : Type 0 where
  pub removed : remove_id s.known id ≡ others
  pub owned : All (IsOwned (id ∷ others)) s.metas
  pub staffed : All (Staffed ps s.metas) others
  pub scheduled : IsScheduled past s.msms
  pub once : distinct (id ∷ others) ≡ true
  pub running : All (Runs s.msms) others
  pub now_running : (m : Measurement) × (find s.msms id ≡ some m) × (m.state ≡ in_progress)
  pub known_run : KnownRun (id ∷ others) s.msms
  pub plans_kept : plans s.msms ≡ ps
  pub counted : s.count_success + s.count_failure ≡ length past
  pub within : all_contained (plan_ids ps) past ≡ true

-- The state without a measurement, completed now.
pub removed-Coordinates :
    (ps : List Plan) (past : List ℕ) (id : ℕ) (others : List ℕ) (s s' : Loop)
    → Failing ps past id others s
    → s'.known ≡ others
    → s'.metas ≡ map (after_failure id) s.metas
    → s'.msms ≡ marked_done id s.msms
    → IsScheduled (past ++ id ∷ []) s'.msms
    → s'.count_success + s'.count_failure ≡ s.count_success + s.count_failure + 1
    → Coordinates ps (past ++ id ∷ []) s'
removed-Coordinates ps past id others s s' c left given_back marked sched count =
    let gone : contains others id ≡ false = ground (arith, c.once) in
    let unique : distinct others ≡ true = ground (arith, c.once) in
    record {
      manned =
          rw (given_back, left)
            (Manned-after_failure ps (id ∷ others) others id s.metas (λ a. refl) gone c.owned
              c.staffed);
      scheduled = sched;
      once = rw left unique;
      running = rw (left, marked) (All-Runs-marked s.msms id others gone c.running);
      known_run =
          rw (left, marked)
            (KnownRun-marked_done (id ∷ others) others id s.msms (λ a. refl) gone c.scheduled.unique
              c.known_run);
      plans_kept = rw marked (plans-marked_done id s.msms ∙ c.plans_kept);
      counted = omega (arith, count, c.counted, length-append past (id ∷ []));
      within =
          let (m, found, run) = c.now_running in
          let named : contains (plan_ids ps) id ≡ true =
            subst (λ ps. contains (plan_ids ps) id ≡ true) c.plans_kept
              (rw (plan_ids-plans s.msms) (find-contains s.msms id m found)) in
          all_contained-append_one (plan_ids ps) past id c.within named;
    }

pub perm-remove_id :
    (known : List ℕ) (id : ℕ) → contains known id ≡ true → Permᴰ (id ∷ remove_id known id) known
perm-remove_id known id h = elim (remove_id-perm known id) [
  | inl (there, p) ↦ p
  | inr (gone, same) ↦ absurd (ground arith)
]

-- A known measurement can always fail.
pub known-Failing :
    (ps : List Plan) (past : List ℕ) (id : ℕ) (s : Loop)
    → contains s.known id ≡ true
    → Coordinates ps past s
    → Failing ps past id (remove_id s.known id) s
known-Failing ps past id s h c =
    let p = perm-remove_id s.known id h in
    let (m, found, run, dur, hosts) = contains-All (Runs s.msms) s.known id h c.running in
    record {
      removed = refl;
      owned =
          IsOwned-same s.known (id ∷ remove_id s.known id) s.metas (λ a. sym (contains-perm a p))
            c.manned.owned;
      staffed = (All-perm (Staffed ps s.metas) (perm_sym p) c.manned.staffed).1;
      scheduled = c.scheduled;
      once = distinct-perm p ∙ c.once;
      running = (All-perm (Runs s.msms) (perm_sym p) c.running).1;
      now_running = (m, found, run);
      known_run =
          KnownRun-same s.known (id ∷ remove_id s.known id) s.msms (λ a. sym (contains-perm a p))
            c.known_run;
      plans_kept = c.plans_kept;
      counted = c.counted;
      within = c.within;
    }
