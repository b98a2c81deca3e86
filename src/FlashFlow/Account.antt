-- ===== src/FlashFlow/Account.antt =====
-- flashflow.c: the books of the coordinator, when the schedule is finished.
use flashflow_research.Prelude.{
  ℕ, suc, ◌+◌, ◌≡◌, refl, sym, ap, ◌∙◌, subst, true, List, [], ◌∷◌, arith, All, length,
}
use flashflow_research.Sched.{
  Measurement, is_complete, ids, sched_finished, sched_num_incomplete, sched_num,
}
use flashflow_research.Sched.Count.{distinct, all_contained, count-le-count, all_contained-count}
use flashflow_research.Sched.Tracking.{Tracks}
use flashflow_research.Sched.Preserved.{find-All}
use flashflow_research.FlashFlow.Plans.{Plan, plan_ids, plan_ids-plans}
use flashflow_research.FlashFlow.Coordinates.{Runs, Coordinates}
use flashflow_research.FlashFlow.Loop.{Loop}

finished-All :
    (ms : List Measurement) → sched_finished ms ≡ true → All (λ m. is_complete m.state ≡ true) ms
unfolding sched_finished sched_num_incomplete
finished-All [] h = tt
finished-All (m ∷ ms) h = (ground arith, finished-All ms (ground arith))

-- Every measurement was completed.
All-past :
    (past : List ℕ) (ms : List Measurement)
    → All (Tracks past) ms
    → All (λ m. is_complete m.state ≡ true) ms
    → all_contained past (ids ms) ≡ true
All-past past [] t h = refl
All-past past (m ∷ ms) t h = ground (arith, t.0.completed, h.0, All-past past ms t.1 h.1)

-- Two lists without repetition with the same entries are equally long.
same-length :
    (xs ys : List ℕ)
    → distinct xs ≡ true
    → distinct ys ≡ true
    → all_contained ys xs ≡ true
    → all_contained xs ys ≡ true
    → length xs ≡ length ys
same-length xs ys dx dy hx hy = omega (
  arith,
  all_contained-count xs ys hx,
  all_contained-count ys xs hy,
  count-le-count xs ys dy,
  count-le-count ys xs dx,
)

length-ids : (ms : List Measurement) → length (ids ms) ≡ length ms
length-ids [] = refl
length-ids (m ∷ ms) = ap suc (length-ids ms)

none-known :
    (msms : List Measurement) (known : List ℕ)
    → All (λ m. is_complete m.state ≡ true) msms
    → All (Runs msms) known
    → known ≡ []
none-known msms [] h r = refl
none-known msms (id ∷ known) h ((m, found, run, dur, hosts), rest) =
    let (over, same) = find-All (λ m. is_complete m.state ≡ true) msms id m found h in
    absurd (cc (ap is_complete run, over))

-- When a state that holds between two rounds has a finished schedule, no measurement is known, each
-- was completed once, and the successes and failures that were counted add up to the number of
-- measurements.
pub finished-counts :
    (ps : List Plan) (past : List ℕ) (s : Loop)
    → Coordinates ps past s
    → sched_finished s.msms ≡ true
    → (s.known ≡ [])
      × (distinct past ≡ true)
      × (all_contained past (ids s.msms) ≡ true)
      × (s.count_success + s.count_failure ≡ sched_num s.msms)
unfolding sched_num
finished-counts ps past s c h =
    let all = finished-All s.msms h in
    let done = All-past past s.msms c.scheduled.tracked all in
    let within : all_contained (ids s.msms) past ≡ true =
      subst (λ l. all_contained l past ≡ true) (plan_ids-plans s.msms)
        (subst (λ ps. all_contained (plan_ids ps) past ≡ true) (sym c.plans_kept) c.within) in
    (
      none-known s.msms s.known all c.running,
      c.scheduled.once,
      done,
      c.counted
          ∙ same-length past (ids s.msms) c.scheduled.once c.scheduled.unique within done
          ∙ length-ids s.msms,
    )
