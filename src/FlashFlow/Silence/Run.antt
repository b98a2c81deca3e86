-- ===== src/FlashFlow/Silence/Run.antt =====
-- flashflow.c: a run in which no client answers comes to its end.
use mathlib.Core.List.{Permᴰ}
use flashflow_research.Prelude.{
  ℕ, zero, suc, ◌+◌, ◌-◌, ◌*◌, ◌<◌, ◌≡◌, ◌≢◌, inl, inr, refl, sym, ap, ◌∙◌, subst, true, false,
  Option, some, List, [], ◌++◌, Result, ok, Returns, Returns-bind, Returns-map, Returns-Ensures,
  Returns-weaken, Ensures-ok, Bool-cases, All, arith, length,
}
use flashflow_research.Os.{Os}
use flashflow_research.Sched.{Measurement, sched_next, sched_finished, ids, sched_num}
use flashflow_research.Sched.Progress.{WellFormed, sched_next-progress}
use flashflow_research.FlashFlow.Plans.{
  Plan, plans, length-plans, plan_ids, plan_ids-plans, Fits, Fits-FitsClock,
}
use flashflow_research.FlashFlow.Coordinates.{Coordinates}
use flashflow_research.FlashFlow.Begin.{Goes, still}
use flashflow_research.FlashFlow.Poll.{ResultsOpen}
use flashflow_research.FlashFlow.Round.{Works}
use flashflow_research.FlashFlow.Loop.{Loop, Next, main_loop_end}
use flashflow_research.FlashFlow.Prepare.{after}
use flashflow_research.FlashFlow.Rounds.{first_state, main_loop_round, main_loop}
use flashflow_research.FlashFlow.Descriptors.{Kernel, KernelWorks}
use flashflow_research.FlashFlow.Descriptors.Watched.{Sound}
use flashflow_research.FlashFlow.Descriptors.Run.{
  first_state-Sound, EndsSound, main_loop_round-EndsSound,
}
use flashflow_research.Prelude.Int.{ℤ}
use flashflow_research.Prelude.Text.{Bytes}
use flashflow_research.Meta.{Meta}
use flashflow_research.TorClient.ClientFile.{make_meta, tc_client_file_read}
use flashflow_research.Sched.Parse.{sched_new}
use flashflow_research.Sched.Parse.Laws.{sched_new-IsRead}
use flashflow_research.FlashFlow.Account.{finished-counts}
use flashflow_research.FlashFlow.Opening.{file_read_made, first_state-Coordinates}
use flashflow_research.FlashFlow.Silence.{Quiet, over}
use flashflow_research.FlashFlow.Silence.Wait.{Silent}
use flashflow_research.FlashFlow.Silence.Round.{moves, CanStart, Rounds, main_loop_round-Rounds}
use flashflow_research.FlashFlow.Silence.Bounds.{
  PlanFormed, WellFormed-plans, plans-WellFormed, begun-le-length, none-in_progress,
}

module _ (os : Os) (k : Kernel os) (works : Works os) (kernel : KernelWorks os k)
    (silent : Silent os) (out_fd : Option os.Stream) (rank : ℕ → ℕ) where
  open os use {World, now}

  Coordinates-CanStart :
      (ps : List Plan) (past : List ℕ) (s : Loop)
      → All Fits ps
      → All (PlanFormed rank (plan_ids ps)) ps
      → Coordinates ps past s
      → sched_finished s.msms ≡ false
      → CanStart os s
  Coordinates-CanStart ps past s fits formed c unfinished w msms z e =
      let here : All (PlanFormed rank (plan_ids (plans s.msms))) (plans s.msms) =
        subst (λ l. All (PlanFormed rank (plan_ids l)) l) (sym c.plans_kept) formed in
      let formed' =
        plans-WellFormed rank (ids s.msms) s.msms
          (subst (λ l. All (PlanFormed rank l) (plans s.msms)) (plan_ids-plans s.msms) here) in
      let progress =
        sched_next-progress past (now w).0 s.msms rank c.scheduled
          (Fits-FitsClock (now w).0 s.msms (works.clock_fits w) (rw c.plans_kept fits)) formed'
          (none-in_progress s.known s.msms z c.known_run) unfinished in
      Ensures-ok (λ r. r.0 ≢ 0) (sched_next (now w).0 s.msms) (0, msms)
        (Returns-weaken (λ r. r.0 ≢ 0) (sched_next (now w).0 s.msms) progress) e refl

  -- How many rounds are left at most.
  abbrev budget : List Plan → Loop → ℕ
  budget ps s = 13 * (2 * length ps - moves s) + (11 - s.loops_without_progress)

  abbrev Finishes : List Plan → List ℕ → ℕ → Next × Loop × World → Type 0
  Finishes ps past successes (next, s, w) =
      (next ≡ main_loop_end)
      × (sched_finished s.msms ≡ true)
      × (s.count_success ≡ successes)
      × Goes ps past s

  -- No wait reports a descriptor, so that nothing is printed.
  silent-ResultsOpen : ResultsOpen os out_fd
  silent-ResultsOpen w fd events e = elim (silent w) [
    | inl error ↦ absurd (cc (e, error))
    | inr timeout ↦ absurd (cc (e, timeout))
  ]

  main_loop-Finishes :
      (fuel : ℕ) (ps : List Plan) (past : List ℕ) (s : Loop) (w : World)
      → All Fits ps
      → All (PlanFormed rank (plan_ids ps)) ps
      → Coordinates ps past s
      → Sound os k s.metas w
      → All Quiet s.metas
      → budget ps s < fuel
      → Returns (main_loop os out_fd fuel s w) (Finishes ps past s.count_success)
  unfolding main_loop
  main_loop-Finishes zero ps past s w fits formed c sound q h = absurd (omega (arith, h))
  main_loop-Finishes (suc fuel) ps past s w fits formed c sound q h =
      elim (Bool-cases (sched_finished s.msms)) [
        | inl finished ↦ rw finished (refl, finished, refl, still ps past s c)
        | inr more ↦ rw more (
            Returns-bind _ (Finishes ps past s.count_success) (main_loop_round os out_fd s w) _
              (Returns-Ensures (EndsSound os k ps past) (Rounds os silent out_fd s)
                (main_loop_round os out_fd s w)
                (main_loop_round-EndsSound os k out_fd ps past s w works kernel silent-ResultsOpen
                  fits sound c)
                (main_loop_round-Rounds os silent out_fd ps past s w works fits c q
                  (Coordinates-CanStart ps past s fits formed c more)))
              λ r ((ends, (over, c'), sound'), (q', count, how)). rw ends (
                Returns-map (main_loop os out_fd fuel r.1 r.2)
                  (main_loop-Finishes fuel ps (past ++ over) r.1 r.2 fits formed c' sound' q'
                    (elim how [
                      | inl up ↦ omega (arith, h, up, begun-le-length ps (past ++ over) r.1 c')
                      | inr (up, counted, few) ↦ omega (arith, h, up, counted, few)
                    ]))
                  λ t (e, f, n, g). (e, f, n ∙ count, after ps past over t.1 g)))
      ]

made-Quiet : (class host port pw : Bytes) → Quiet (make_meta class host port pw)
unfolding make_meta
made-Quiet class host port pw = inl refl

-- A run that came to its end, and in which every measurement failed.
abbrev pub AllFail : (os : Os) → ℕ → Result (Next × Loop × os.World) → Type 0
AllFail os count r = Returns r (λ (next, s, w).
    (next ≡ main_loop_end) × (s.known ≡ []) × (s.count_success ≡ 0) × (s.count_failure ≡ count))

-- A run in which no client answers is no endless one: in the first turn of main, in which the map
-- of measurements is empty, whether or not the results file is open, when each wait ends in a
-- timeout or an error, and the dependencies have a rank that falls along them, are known and are
-- named once, then under the other conditions of any run more than 26 rounds for each measurement,
-- and 11, bring the main loop to its end, with no failed assertion, panic, undefined behaviour or
-- error return; no measurement is known then, there is no success, and there are as many failures
-- as measurements were read.
pub main_loop-AllFail :
    (os : Os) (k : Kernel os) (out_fd : Option os.Stream) (rounds : ℕ) (rank : ℕ → ℕ)
    (arrange : List Measurement → List Measurement) (read : Bytes → Option (List Bytes))
    (fname : Bytes) (file : Option (List Bytes)) (metas : List Meta) (msms : List Measurement)
    (count : ℕ) (w : os.World)
    → Works os
    → KernelWorks os k
    → Silent os
    → ((l : List Measurement) → Permᴰ l (arrange l))
    → tc_client_file_read file ≡ ok (some metas)
    → sched_new arrange read fname [] ≡ ok (msms, count)
    → All Fits (plans msms)
    → All (WellFormed rank (ids msms)) msms
    → ((fd : ℤ) → k.watched w fd ≡ false)
    → 26 * count + 11 < rounds
    → AllFail os count (main_loop os out_fd rounds (first_state metas msms) w)
unfolding sched_num
main_loop-AllFail os k out_fd rounds rank arrange read fname file metas msms count w works kernel
      silent perm h e fits formed unwatched enough =
    let c = first_state-Coordinates arrange read fname file metas msms count perm h e in
    let r = sched_new-IsRead arrange read fname msms count perm e in
    let planned =
      subst (λ l. All (PlanFormed rank l) (plans msms)) (sym (plan_ids-plans msms))
        (WellFormed-plans rank (ids msms) msms formed) in
    let size : length (plans msms) ≡ count = length-plans msms ∙ sym r.counted in
    Returns-map (main_loop os out_fd rounds (first_state metas msms) w)
      (main_loop-Finishes os k works kernel silent out_fd rank rounds (plans msms) []
        (first_state metas msms) w fits planned c
        (first_state-Sound os k file metas msms w h unwatched)
        (file_read_made Quiet made-Quiet file metas h) (omega (arith, enough, size)))
      λ q (ends, finished, none_done, (over, c')).
        let (none_left, once, all, sum) = finished-counts (plans msms) over q.1 c' finished in
        let same : length q.1.msms ≡ length (plans msms) =
          sym (length-plans q.1.msms) ∙ ap length c'.plans_kept in
        (ends, none_left, none_done, omega (arith, none_done, sum ∙ same ∙ size))
