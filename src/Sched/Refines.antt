-- ===== src/Sched/Refines.antt =====
-- sched/src/lib.rs against an abstract scheduler, which knows of each id its status alone.
use flashflow_research.Prelude.{
  ℕ, ◌≡◌, ◌≢◌, ◌⊎◌, inl, inr, refl, sym, ap, ◌∙◌, true, false, Option, none, some, List, [], ◌∷◌,
  map, Result, Returns, Returns-map, err, panicked, arith, ◌==◌, if◌then◌else◌, Bool-cases,
  Option-cases, All,
}
use flashflow_research.Sched.{
  Status, waiting, in_progress, complete, is_in_progress, is_complete, Measurement, find, update,
  get, push_finished, sched_next, sched_mark_done,
}
use flashflow_research.Sched.Count.{contains, all_contained}
use flashflow_research.Sched.Tracking.{Tracks, IsScheduled, FitsClock, started, sched_next-Starts}
use flashflow_research.Sched.Preserved.{find-All}

-- The abstract state: the status of each id that the schedule has.
abbrev pub View : Type 0
View = ℕ → Option Status

abbrev status_of : Option Measurement → Option Status
status_of none = none
status_of (some m) = some m.state

abbrev depends_of_found : Option Measurement → List ℕ
depends_of_found none = []
depends_of_found (some m) = m.depends

abbrev pub view : List Measurement → View
view msms id = status_of (find msms id)

abbrev pub depends_of : List Measurement → ℕ → List ℕ
depends_of msms id = depends_of_found (find msms id)

-- The state with another status for one id.
abbrev pub with_status : View → ℕ → Status → View
with_status v id st a = if a == id then some st else v a

-- What a step does to which id.
pub data Label : Type 0 where
  start finish : ℕ → Label

-- The steps of the abstract scheduler.
pub data Move (deps : ℕ → List ℕ) (v v' : View) : Label → Type 0 where
  begins :
      (id : ℕ)
      → v id ≡ some waiting
      → ((d : ℕ) → contains (deps id) d ≡ true → (v d ≡ none) ⊎ (v d ≡ some complete))
      → ((a : ℕ) → v' a ≡ with_status v id in_progress a)
      → Move deps v v' (start id)
  completes :
      (id : ℕ)
      → v id ≡ some in_progress
      → ((a : ℕ) → v' a ≡ with_status v id complete a)
      → Move deps v v' (finish id)

view-update :
    (msms : List Measurement) (id : ℕ) (st : Status) (f : Measurement → Measurement)
    (m : Measurement) (a : ℕ)
    → ((m : Measurement) → ((f m).id ≡ m.id) × ((f m).state ≡ st))
    → find msms id ≡ some m
    → view (update msms id f) a ≡ with_status (view msms) id st a
unfolding find update
view-update [] id st f m a keeps e = absurd (cc e)
view-update (x ∷ xs) id st f m a keeps e = elim (Bool-cases (x.id == id)) [
  | inl hit ↦
      let (same_id, new) = keeps x in
      let at_a : ((f x).id == a) ≡ (x.id == a) = ap (λ i. i == a) same_id in
      rw (hit, at_a)
        (elim (Bool-cases (x.id == a)) [
          | inl here ↦ let h : (a == id) ≡ true = ground arith in rw (here, h) (ap some new)
          | inr there ↦ let h : (a == id) ≡ false = ground arith in rw (there, h) refl
        ])
  | inr miss ↦ rw miss (elim (Bool-cases (x.id == a)) [
    | inl here ↦ let h : (a == id) ≡ false = ground arith in rw (here, h) refl
    | inr there ↦ rw there (view-update xs id st f m a keeps (rw miss at e))
  ])
]

view-pushed :
    (id : ℕ) (msms : List Measurement) (a : ℕ) → view (map (push_finished id) msms) a ≡ view msms a
unfolding find
view-pushed id [] a = refl
view-pushed id (m ∷ ms) a = ground (arith, view-pushed id ms a)

all_contained-contains :
    (past ds : List ℕ) (d : ℕ)
    → all_contained past ds ≡ true
    → contains ds d ≡ true
    → contains past d ≡ true
all_contained-contains past [] d h k = cc
all_contained-contains past (x ∷ ds) d h k = elim (Bool-cases (d == x)) [
  | inl same ↦
      let e : contains past d ≡ contains past x = ap (contains past) (ground arith) in
      ground (arith, e)
  | inr other ↦ all_contained-contains past ds d (ground arith) (ground arith)
]

-- What was completed is complete, where the schedule has it.
past-complete :
    (past : List ℕ) (msms : List Measurement) (d : ℕ)
    → All (Tracks past) msms
    → contains past d ≡ true
    → (view msms d ≡ none) ⊎ (view msms d ≡ some complete)
past-complete past msms d t h = elim (Option-cases (find msms d)) [
  | inl unknown ↦ inl (ap status_of unknown)
  | inr (m, found) ↦
      let (tracks, named) = find-All (Tracks past) msms d m found t in
      let over : is_complete m.state ≡ true = tracks.completed ∙ ap (contains past) named ∙ h in
      inr (ap status_of found ∙ ap some (is_complete-eq m.state over))
]
  where
    is_complete-eq : (st : Status) → is_complete st ≡ true → st ≡ complete
    is_complete-eq waiting h = absurd (cc h)
    is_complete-eq in_progress h = absurd (cc h)
    is_complete-eq complete h = refl

-- What sched_next does to the abstract state: nothing, where it returns 0, or the start of the id that it
-- returns.
abbrev pub NextMoves : List Measurement → ℕ × List Measurement → Type 0
NextMoves msms (id, msms') =
    ((id ≡ 0) × ((a : ℕ) → view msms' a ≡ view msms a))
    ⊎ ((id ≢ 0) × Move (depends_of msms) (view msms) (view msms') (start id))

sched_next-Moves :
    (past : List ℕ) (now : ℕ) (msms : List Measurement)
    → IsScheduled past msms
    → All (FitsClock now) msms
    → Returns (sched_next now msms) (NextMoves msms)
sched_next-Moves past now msms s c =
    Returns-map (sched_next now msms) (sched_next-Starts past now msms s c) λ r k. elim k [
      | inl (none_left, same, unready) ↦ inl (none_left, λ a. ap (λ l. view l a) same)
      | inr (m, found, waits, met, e) ↦
          let (tracks, named) = find-All (Tracks past) msms r.0 m found s.tracked in
          inr (
            λ z. tracks.named (named ∙ z),
            begins r.0 (ap status_of found ∙ ap some waits)
                (λ d h. past-complete past msms d s.tracked (
                  all_contained-contains past m.depends d met
                    (rw (ap depends_of_found found) at h)))
                (λ a.
                  ap (λ l. view l a) e
                  ∙ view-update msms r.0 in_progress (started now) m a (λ m. (refl, refl)) found),
          )
    ]

in_progress-eq : (st : Status) → is_in_progress st ≡ true → st ≡ in_progress
in_progress-eq waiting h = absurd (cc h)
in_progress-eq in_progress h = refl
in_progress-eq complete h = absurd (cc h)

-- What sched_mark_done does: it completes the measurement of the id where that is in progress, and else
-- panics.
abbrev pub MarkMoves : List Measurement → ℕ → Result (List Measurement) → Type 0
MarkMoves msms id r =
    ((view msms id ≡ some in_progress)
      × Returns r (λ u. Move (depends_of msms) (view msms) (view u) (finish id)))
    ⊎ ((view msms id ≢ some in_progress) × (r ≡ err panicked))

sched_mark_done-Moves :
    (msms : List Measurement) (id : ℕ) → MarkMoves msms id (sched_mark_done msms id)
unfolding sched_mark_done get
sched_mark_done-Moves msms id = elim (Option-cases (find msms id)) [
  | inl unknown ↦ inr (λ e. cc (sym (ap status_of unknown) ∙ e), rw (get, unknown) refl)
  | inr (m, found) ↦ elim (Bool-cases (is_in_progress m.state)) [
    | inl runs ↦
        let here = ap status_of found ∙ ap some (in_progress-eq m.state runs) in
        inl (
          here,
          rw (get, found)
              (rw runs (
                completes id here (λ a.
                  view-pushed id (update msms id (λ m. record m { state = complete })) a
                  ∙ view-update msms id complete (λ m. record m { state = complete }) m a
                      (λ m. (refl, refl)) found))),
        )
    | inr idle ↦ inr (
      λ e.
          let st : some m.state ≡ some in_progress = sym (ap status_of found) ∙ e in
          let st' : m.state ≡ in_progress = cc st in cc (ap is_in_progress st', idle),
      rw (get, found) (rw idle refl),
    )
  ]
]

-- From a tracked state whose times fit, the two operations that change the schedule are steps of an
-- abstract scheduler that knows the status of each id alone: sched_next returns 0 and changes no
-- status, or starts the measurement of the id that it returns, which was waiting and whose known
-- dependencies are all complete; sched_mark_done completes the measurement of its id where that is
-- in progress, and panics otherwise. A step changes the status of its id alone.
pub sched-refines :
    (past : List ℕ) (now : ℕ) (msms : List Measurement) (id : ℕ)
    → IsScheduled past msms
    → All (FitsClock now) msms
    → Returns (sched_next now msms) (NextMoves msms) × MarkMoves msms id (sched_mark_done msms id)
sched-refines past now msms id s c =
    (sched_next-Moves past now msms s c, sched_mark_done-Moves msms id)
