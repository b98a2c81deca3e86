-- ===== src/FlashFlow/Start.antt =====
-- flashflow.c: the block of a round that starts the next measurement.
use flashflow_research.Prelude.{
  ℕ, ◌≡◌, ◌≢◌, ◌⊎◌, inl, inr, refl, sym, ap, ◌∙◌, subst, Bool, true, false, not, ◌&&◌, some, List,
  [], ◌∷◌, ◌++◌, Returns, Returns-map, arith, ◌==◌, Bool-cases, All, All-append, length,
}
use flashflow_research.Os.{Os}
use flashflow_research.Meta.{Meta}
use flashflow_research.Sched.{Measurement, find, update, waiting, is_in_progress}
use flashflow_research.Sched.Count.{contains, all_contained, contains-append, distinct-append_one}
use flashflow_research.Sched.Tracking.{Tracks, IsScheduled, started}
use flashflow_research.Sched.Preserved.{find-All, started_step}
use flashflow_research.FlashFlow.Defs.{connect_hosts, find_and_connect_metas}
use flashflow_research.FlashFlow.Failed.{remove_id-perm}
use flashflow_research.FlashFlow.Plans.{
  Plan, plans, hosts_at, find-hosts_at, plans-update, find-update, KnownRun, KnownRun-started,
}
use flashflow_research.FlashFlow.Staff.{Staffed, Manned, Staffed-same, hosts_of}
use flashflow_research.FlashFlow.Coordinates.{
  Runs, Coordinates, All-Runs-updated, IsOwned-same, KnownRun-same, IsOwned-more,
  fill_msm_params-found,
}
use flashflow_research.FlashFlow.Moves.{Moved, Moved-Manned}
use flashflow_research.FlashFlow.Connect.{
  Joins, Joins-none, connect_hosts-Joins, Unmanned, owned-Unmanned,
}
use flashflow_research.FlashFlow.Failing.{Failing}
use flashflow_research.FlashFlow.Loop.{Loop}

-- A measurement that waits, about to be started: it is the next one of the schedule.
pub record Waits (past : List ℕ) (s : Loop) (id t : ℕ) (m : Measurement) : Type 0 where
  pub found : find s.msms id ≡ some m
  pub idle : m.state ≡ waiting
  pub named : id ≢ 0
  pub unknown : contains s.known id ≡ false
  pub scheduled : IsScheduled past (update s.msms id (started t))

pub waiting-Waits :
    (ps : List Plan) (past : List ℕ) (s : Loop) (id t : ℕ) (m : Measurement)
    → Coordinates ps past s
    → find s.msms id ≡ some m
    → m.state ≡ waiting
    → all_contained past m.depends ≡ true
    → Waits past s id t m
waiting-Waits ps past s id t m c e h met =
    let (k, same) =
      find-All (λ m. is_in_progress m.state ≡ contains s.known m.id) s.msms id m e c.known_run in
    let (tr, same') = find-All (Tracks past) s.msms id m e c.scheduled.tracked in
    record {
      found = e;
      idle = h;
      named = λ z. tr.named (same ∙ z);
      scheduled =
          started_step past t s.msms (id, update s.msms id (started t)) c.scheduled
            (inr (m, e, h, met, refl));
      unknown = ap (contains s.known) (sym same) ∙ sym k ∙ ap is_in_progress h;
    }

module _ (ps : List Plan) (past : List ℕ) (s : Loop) (id t : ℕ) (m : Measurement)
    (c : Coordinates ps past s) (wait : Waits past s id t m) where
  -- The schedule with the measurement started.
  abbrev pub msms1 : List Measurement
  msms1 = update s.msms id (started t)

  now_started : find msms1 id ≡ some (started t m)
  now_started = find-update s.msms id m (started t) (λ m. refl) wait.found

  pub scheduled1 : IsScheduled past msms1
  scheduled1 = wait.scheduled

  known_run1 : KnownRun (id ∷ s.known) msms1
  known_run1 = KnownRun-started s.known id t s.msms wait.unknown c.scheduled.unique c.known_run

  plans1 : plans msms1 ≡ ps
  plans1 = plans-update s.msms id (started t) (λ m. refl) ∙ c.plans_kept

  running1 : All (Runs msms1) s.known
  running1 = All-Runs-updated s.msms id (started t) s.known (λ m. refl) wait.unknown c.running

  hosts_of_it : hosts_at ps id ≡ m.hosts
  hosts_of_it =
      subst (λ ps. hosts_at ps id ≡ m.hosts) c.plans_kept (find-hosts_at s.msms id m wait.found)

  unmanned : Unmanned id s.metas
  unmanned = owned-Unmanned s.known id s.metas wait.named wait.unknown c.manned.owned

  apart : (a : ℕ) → contains s.known a ≡ true → (id == a) ≡ false
  apart a k = elim (Bool-cases (id == a)) [
    | inl same ↦
        let e : a ≡ id = ground arith in
        absurd (cc (subst (λ i. contains s.known i ≡ true) e k, wait.unknown))
    | inr other ↦ other
  ]

  -- The connections of the measurements known before stay theirs.
  staffed1 :
      (found : Bool) (metas : List Meta)
      → Joins s.known id m.hosts s.metas found metas
      → All (Staffed ps metas) s.known
  staffed1 found metas j =
      Staffed-same ps s.metas metas s.known (λ a k n. j.others a n (apart a k))
        (λ a k n c. j.others_of a n (apart a k) c) c.manned.staffed

  pub not_found-Failing :
      (found : Bool) (metas : List Meta)
      → Joins s.known id m.hosts s.metas found metas
      → Failing ps past id s.known (record s { metas = metas; msms = msms1 })
  not_found-Failing found metas j = record {
    removed = elim (remove_id-perm s.known id) [
      | inl (there, p) ↦ absurd (cc (there, wait.unknown))
      | inr (gone, same) ↦ same
    ];
    owned = j.owned;
    staffed = staffed1 found metas j;
    scheduled = scheduled1;
    once = ground (arith, c.once, wait.unknown);
    running = running1;
    now_running = (started t m, now_started, refl);
    known_run = known_run1;
    plans_kept = plans1;
    counted = c.counted;
    within = c.within;
  }

  same_ids : (a : ℕ) → contains (id ∷ s.known) a ≡ contains (s.known ++ id ∷ []) a
  same_ids a = ground (arith, contains-append s.known (id ∷ []) a)

  found-Manned :
      (metas : List Meta)
      → Joins s.known id m.hosts s.metas true metas
      → Manned ps (s.known ++ id ∷ []) metas
  found-Manned metas j = elim j.complete [
    | inl missed ↦ absurd (cc missed)
    | inr (size, classes) ↦ record {
      owned = IsOwned-same (id ∷ s.known) (s.known ++ id ∷ []) metas same_ids j.owned;
      staffed = All-append (Staffed ps metas) s.known (id ∷ []) (staffed1 true metas j) (
        record {
          named = wait.named;
          size = omega (arith, size, unmanned.none_of, ap length hosts_of_it);
          classes =
              λ c. omega (arith, classes c, unmanned.none_of_class c, ap (hosts_of c) hosts_of_it);
        },
        tt,
      );
    }
  ]

  pub found-Coordinates :
      (metas metas' : List Meta)
      → Joins s.known id m.hosts s.metas true metas
      → Moved metas metas'
      → m.dur ≢ 0
      → length m.hosts ≢ 0
      → Coordinates ps past (record s { known = s.known ++ id ∷ []; metas = metas'; msms = msms1 })
  found-Coordinates metas metas' j v d h = record {
    manned = Moved-Manned ps (s.known ++ id ∷ []) metas metas' v (found-Manned metas j);
    scheduled = scheduled1;
    once = distinct-append_one s.known id c.once wait.unknown;
    running =
        All-append (Runs msms1) s.known (id ∷ []) running1
          ((started t m, now_started, refl, d, h), tt);
    known_run = KnownRun-same (id ∷ s.known) (s.known ++ id ∷ []) msms1 same_ids known_run1;
    plans_kept = plans1;
    counted = c.counted;
    within = c.within;
  }

cond_true : (a b : ℕ) → (not (a == 0) && not (b == 0)) ≡ true → (a ≢ 0) × (b ≢ 0)
cond_true a b h = (λ e. ground arith, λ e. ground arith)

module _ (os : Os) (ps : List Plan) (past : List ℕ) (s : Loop) (id t : ℕ) (m : Measurement)
    (c : Coordinates ps past s) (wait : Waits past s id t m) where
  open os use {World}

  -- What find_and_connect_metas leaves for the measurement.
  abbrev pub Found : Bool × List Meta × World → Type 0
  Found (found, metas, w') =
      Joins s.known id m.hosts s.metas found metas
      × ((found ≡ false) ⊎ ((m.dur ≢ 0) × (length m.hosts ≢ 0)))

  pub find_and_connect_metas-Found :
      (w : World)
      → Returns (find_and_connect_metas os id s.metas (msms1 ps past s id t m c wait) w) Found
  unfolding find_and_connect_metas
  find_and_connect_metas-Found w =
      let owned = IsOwned-more s.known id s.metas c.manned.owned in
      let u = unmanned ps past s id t m c wait in
      rw
        (fill_msm_params-found (msms1 ps past s id t m c wait) id (started t m)
          (now_started ps past s id t m c wait))
        (elim (Bool-cases (not (m.dur == 0) && not (length m.hosts == 0))) [
          | inl filled ↦ rw filled (
              Returns-map (connect_hosts os id m.hosts s.metas w)
                (connect_hosts-Joins s.known id os m.hosts s.metas w wait.named owned u.any_state)
                λ r j. (j, inr (cond_true m.dur (length m.hosts) filled)))
          | inr empty ↦ rw empty (Joins-none s.known id m.hosts s.metas owned u.any_state, inl refl)
        ])
