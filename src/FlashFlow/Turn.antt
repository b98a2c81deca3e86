-- ===== src/FlashFlow/Turn.antt =====
-- flashflow.c: what is known of a measurement in the loop over the known ones, when its turn comes.
use flashflow_research.Prelude.{
  ℕ, ◌+◌, ◌*◌, ◌/◌, ◌<◌, ◌^◌, ◌≡◌, ◌≢◌, ◌⊎◌, inl, inr, refl, ap, ◌∙◌, subst, Bool, true, some, List,
  Returns, Returns-bind, ok, arith, ◌==◌, Bool-cases, All, length, get_elem?,
}
use flashflow_research.Prelude.Text.{Bytes}
use flashflow_research.Os.{Os}
use flashflow_research.Meta.{Meta, bw_set}
use flashflow_research.Sched.{Measurement, find, get, sched_reset_failsafe_stop}
use flashflow_research.Sched.Count.{contains}
use flashflow_research.Sched.Tracking.{FitsClock, failsafe_at_lem}
use flashflow_research.Sched.Preserved.{find-All}
use flashflow_research.FlashFlow.Defs.{MsmParams, all_in_state}
use flashflow_research.FlashFlow.Assign.{start_metas}
use flashflow_research.FlashFlow.Plans.{Plan, Fits, hosts_at, find-hosts_at, Fits-FitsClock}
use flashflow_research.FlashFlow.Staff.{owned-IsTracked, Staffed, staff, staff_of, hosts_of}
use flashflow_research.FlashFlow.Moves.{Moved, Moved-refl}
use flashflow_research.FlashFlow.Coordinates.{Coordinates, contains-get_elem, contains-All}
use flashflow_research.FlashFlow.Kept.{Moved-Coordinates, with_stop, with_stop-Coordinates}
use flashflow_research.FlashFlow.Phases.{StartsAll, start_metas-StartsAll}
use flashflow_research.FlashFlow.Begin.{ClockFits}
use flashflow_research.FlashFlow.Cleanup.{AfterFail, fail-AfterFail}
use flashflow_research.FlashFlow.Finish.{Handled}
use flashflow_research.FlashFlow.Loop.{Loop, fail, fail_and_end, start_hosts}

-- The parameters of the measurement.
abbrev pub params_of : ℕ → Measurement → MsmParams
params_of id m = record {
  id = id;
  fp = m.fp;
  dur = m.dur;
  hosts = m.hosts;
  num_m = length m.hosts;
  failsafe_stop = m.failsafe_stop;
}

-- What is known of a measurement whose turn it is.
pub record Turn (ps : List Plan) (past : List ℕ) (i id : ℕ) (s : Loop) (m : Measurement)
    : Type 0 where
  pub state : Coordinates ps past s
  pub here : get_elem? s.known i ≡ some id
  pub found : find s.msms id ≡ some m
  pub dur : m.dur ≢ 0
  pub some_host : length m.hosts ≢ 0

module _ (ps : List Plan) (past : List ℕ) (i id : ℕ) (s : Loop) (m : Measurement)
    (turn : Turn ps past i id s m) where
  pub known_id : contains s.known id ≡ true
  known_id = contains-get_elem s.known i id turn.here

  pub manned_id : Staffed ps s.metas id
  manned_id = contains-All (Staffed ps s.metas) s.known id known_id turn.state.manned.staffed

  pub hosts_id : hosts_at ps id ≡ m.hosts
  hosts_id =
      subst (λ ps. hosts_at ps id ≡ m.hosts) turn.state.plans_kept
        (find-hosts_at s.msms id m turn.found)

  pub size_id : staff id s.metas ≡ length m.hosts
  size_id = manned_id.size ∙ ap length hosts_id

  pub classes_id : (c : Bytes) → staff_of id c s.metas ≡ hosts_of c m.hosts
  classes_id c = manned_id.classes c ∙ ap (hosts_of c) hosts_id

  reset_lem :
      (t : ℕ)
      → t < 2 ^ 63
      → All Fits ps
      → sched_reset_failsafe_stop s.msms id t ≡ ok (with_stop id (t + 3 * m.dur / 2) s.msms)
  unfolding sched_reset_failsafe_stop get
  reset_lem t small fits =
      let all = Fits-FitsClock t s.msms small (rw turn.state.plans_kept fits) in
      let (fit, same) = find-All (FitsClock t) s.msms id m turn.found all in
      rw (sched_reset_failsafe_stop, get, turn.found) (rw (failsafe_at_lem t m fit) refl)

  pub Moved-Turn :
      (metas : List Meta) → Moved s.metas metas → Turn ps past i id (record s { metas = metas }) m
  Moved-Turn metas v = record {
    state = Moved-Coordinates ps past s metas v turn.state;
    here = turn.here;
    found = turn.found;
    dur = turn.dur;
    some_host = turn.some_host;
  }

module _ (os : Os) where
  open os use {World, now}

  pub fail_and_end-Handled :
      (ps : List Plan) (past : List ℕ) (id : ℕ) (known : List ℕ) (s : Loop) (w : World)
      → contains s.known id ≡ true
      → Coordinates ps past s
      → Returns (fail_and_end os id s w) (Handled os ps past known)
  unfolding fail_and_end
  fail_and_end-Handled ps past id known s w h c =
      Returns-bind (AfterFail os ps past id s) (Handled os ps past known) (fail os id s w) _
        (fail-AfterFail os ps past id s w h c) λ r a. (id, a.0)

  -- The block that starts the measurement.
  abbrev pub Begins : ℕ → Loop → Bool × List Meta × List Measurement × World → Type 0
  Begins id s (told, metas', msms', w') =
      Moved s.metas metas' × ((msms' ≡ s.msms) ⊎ ((stop : ℕ) × (msms' ≡ with_stop id stop s.msms)))

  pub start_hosts-Begins :
      (ps : List Plan) (past : List ℕ) (i id : ℕ) (s : Loop) (m : Measurement) (w : World)
      → ClockFits os
      → All Fits ps
      → Turn ps past i id s m
      → Returns
          (start_hosts os (all_in_state bw_set id s.metas) (params_of id m) s.metas s.msms w)
          (Begins id s)
  unfolding start_hosts
  start_hosts-Begins ps past i id s m w clock fits turn =
      let tracked = owned-IsTracked s.known s.metas turn.state.manned.owned in
      elim (Bool-cases (all_in_state bw_set id s.metas)) [
        | inr not_yet ↦ rw not_yet (Moved-refl s.metas tracked, inl refl)
        | inl all_set ↦
            let staff_id = manned_id ps past i id s m turn in
            let size = size_id ps past i id s m turn in
            rw (all_set, reset_lem ps past i id s m turn (now w).0 (clock w) fits)
              (Returns-bind (StartsAll os id s.metas) (Begins id s)
                (start_metas os id m.dur s.metas (now w).1) _
                (start_metas-StartsAll os id m.dur s.metas (now w).1 staff_id.named tracked all_set)
                λ r k. elim k.1 [
                  | inl untold ↦ rw untold (k.0, inr ((now w).0 + 3 * m.dur / 2, refl))
                  | inr (told, num) ↦
                      let all : (r.1 == length m.hosts) ≡ true = ground (arith, num, size) in
                      rw (told, all) (k.0, inr ((now w).0 + 3 * m.dur / 2, refl))
                ])
      ]

  pub begun-Coordinates :
      (ps : List Plan) (past : List ℕ) (id : ℕ) (s : Loop)
      (r : Bool × List Meta × List Measurement × World)
      → Begins id s r
      → Coordinates ps past s
      → Coordinates ps past (record s { metas = r.1; msms = r.2 })
  begun-Coordinates ps past id s r (v, inl same) c = rw same (Moved-Coordinates ps past s r.1 v c)
  begun-Coordinates ps past id s r (v, inr (stop, e)) c = rw e (
      with_stop-Coordinates ps past (record s { metas = r.1 }) id stop
        (Moved-Coordinates ps past s r.1 v c))
