-- ===== src/FlashFlow/Silence/Bounds.antt =====
-- flashflow.c: bounds on what is completed and known, and what makes a schedule go on.
use flashflow_research.Prelude.{
  ℕ, suc, ◌≤◌, ◌<◌, ◌≡◌, refl, sym, ap, ◌∙◌, subst, true, false, List, [], ◌∷◌, ◌++◌, All, arith,
  length, length-append, count_if-le-length,
}
use flashflow_research.Sched.{Measurement, ids, is_in_progress, is_complete}
use flashflow_research.Sched.Count.{
  contains, distinct, all_contained, contains-append, count-le-count, all_contained-count,
}
use flashflow_research.Sched.Tracking.{Tracks, find-contains}
use flashflow_research.Sched.Preserved.{find-All}
use flashflow_research.Sched.Progress.{WellFormed}
use flashflow_research.FlashFlow.Plans.{Plan, plans, plan_ids, plan_ids-plans, KnownRun}
use flashflow_research.FlashFlow.Coordinates.{Coordinates, Runs}
use flashflow_research.FlashFlow.Loop.{Loop}
use flashflow_research.FlashFlow.Silence.{begun}

-- What `WellFormed` says, of a plan.
abbrev pub PlanFormed : (ℕ → ℕ) → List ℕ → Plan → Type 0
PlanFormed rank known p =
    All (λ d. rank d < rank p.id) p.depends
    × (all_contained known p.depends ≡ true)
    × (distinct p.depends ≡ true)

pub WellFormed-plans :
    (rank : ℕ → ℕ) (known : List ℕ) (ms : List Measurement)
    → All (WellFormed rank known) ms
    → All (PlanFormed rank known) (plans ms)
WellFormed-plans rank known [] h = tt
WellFormed-plans rank known (m ∷ ms) h =
    ((h.0.below, h.0.depends_on_known, h.0.named_once), WellFormed-plans rank known ms h.1)

pub plans-WellFormed :
    (rank : ℕ → ℕ) (known : List ℕ) (ms : List Measurement)
    → All (PlanFormed rank known) (plans ms)
    → All (WellFormed rank known) ms
plans-WellFormed rank known [] h = tt
plans-WellFormed rank known (m ∷ ms) h = (
  record { below = h.0.0; depends_on_known = h.0.1; named_once = h.0.2 },
  plans-WellFormed rank known ms h.1,
)

distinct-append_apart :
    (xs ys : List ℕ)
    → distinct xs ≡ true
    → distinct ys ≡ true
    → All (λ x. contains ys x ≡ false) xs
    → distinct (xs ++ ys) ≡ true
distinct-append_apart [] ys hx hy h = hy
distinct-append_apart (x ∷ xs) ys hx hy h =
    ground (arith, contains-append xs ys x, h.0, distinct-append_apart xs ys (ground arith) hy h.1)

all_contained-append :
    (known xs ys : List ℕ)
    → all_contained known xs ≡ true
    → all_contained known ys ≡ true
    → all_contained known (xs ++ ys) ≡ true
all_contained-append known [] ys hx hy = hy
all_contained-append known (x ∷ xs) ys hx hy =
    ground (arith, all_contained-append known xs ys (ground arith) hy)

-- No more entries without repetition than there are to choose from.
length-le-length :
    (xs ys : List ℕ) → distinct xs ≡ true → all_contained ys xs ≡ true → length xs ≤ length ys
length-le-length xs ys d h = omega (
  arith,
  all_contained-count xs ys h,
  count-le-count ys xs d,
  count_if-le-length (contains xs) ys,
)

known-running :
    (past : List ℕ) (msms : List Measurement) (known : List ℕ)
    → All (Tracks past) msms
    → All (Runs msms) known
    → (all_contained (ids msms) known ≡ true) × All (λ x. contains past x ≡ false) known
known-running past msms [] t h = (refl, tt)
known-running past msms (id ∷ known) t ((m, found, run, dur, hosts), rest) =
    let (tracks, named) = find-All (Tracks past) msms id m found t in
    let (among, apart) = known-running past msms known t rest in
    let there = find-contains msms id m found in
    let fresh : contains past id ≡ false =
      subst (λ x. contains past x ≡ false) named (sym tracks.completed ∙ ap is_complete run) in
    (ground (arith, there, among), (fresh, apart))

-- No more measurements are completed or known than there are.
pub begun-le-length :
    (ps : List Plan) (past : List ℕ) (s : Loop) → Coordinates ps past s → begun s ≤ length ps
begun-le-length ps past s c =
    let (among, apart) = known-running past s.msms s.known c.scheduled.tracked c.running in
    let same : ids s.msms ≡ plan_ids ps = sym (plan_ids-plans s.msms) ∙ ap plan_ids c.plans_kept in
    let once = distinct-append_apart s.known past c.once c.scheduled.once apart in
    let within =
      all_contained-append (plan_ids ps) s.known past
        (subst (λ l. all_contained l s.known ≡ true) same among) c.within in
    omega (
      arith,
      length-le-length (s.known ++ past) (plan_ids ps) once within,
      length-append s.known past,
      c.counted,
      length-plan_ids ps,
    )
  where
    length-plan_ids : (l : List Plan) → length (plan_ids l) ≡ length l
    length-plan_ids [] = refl
    length-plan_ids (p ∷ l) = ap suc (length-plan_ids l)

pub none-in_progress :
    (known : List ℕ) (msms : List Measurement)
    → length known ≡ 0
    → KnownRun known msms
    → All (λ m. is_in_progress m.state ≡ false) msms
none-in_progress [] [] z k = tt
none-in_progress [] (m ∷ ms) z k = (k.0, none-in_progress [] ms z k.1)
none-in_progress (x ∷ known) msms z k = absurd (omega (arith, z))
