-- ===== src/Sched/Steps.antt =====
-- sched/src/lib.rs: sequences of starts and completions, and the work that they use up.
use flashflow_research.Prelude.{
  ℕ, zero, suc, ◌+◌, ◌≡◌, ◌≢◌, ◌↔◌, inl, inr, refl, true, some, List, [], ◌∷◌, map, >>=-eq-ok, ok,
  arith, Bool-cases, Option-cases,
}
use flashflow_research.Sched.{
  Status, waiting, in_progress, complete, Measurement, find, update, get, failsafe_at, is_ready,
  push_finished, sched_next_internal, sched_next, sched_mark_done, sched_num_incomplete,
  sched_finished,
}

-- A waiting measurement is still to be started and completed, one in progress to be completed.
abbrev left_of : Status → ℕ
left_of waiting = 2
left_of in_progress = 1
left_of complete = 0

pub work : List Measurement → ℕ
work [] = 0
work (m ∷ ms) = left_of m.state + work ms

-- `Steps s n u`: n starts and completions, in any order, lead from `s` to `u`.
pub data Steps (s : List Measurement) : ℕ → List Measurement → Type 0 where
  here : Steps s zero s
  start :
      {n : ℕ} {t u : List Measurement} (now id : ℕ)
      → Steps s n t
      → sched_next now t ≡ ok (suc id, u)
      → Steps s (suc n) u
  finish :
      {n : ℕ} {t u : List Measurement} (id : ℕ)
      → Steps s n t
      → sched_mark_done t id ≡ ok u
      → Steps s (suc n) u

work-start :
    (now : ℕ) (t : List Measurement) (r : ℕ × List Measurement)
    → sched_next_internal true now t ≡ ok r
    → r.0 ≢ 0
    → suc (work r.1) ≡ work t
unfolding sched_next_internal work failsafe_at
work-start now [] r h k = ground arith
work-start now (m ∷ ms) r h k = elim (Bool-cases (is_ready m)) [
  | inl ready ↦ ground arith
  | inr not_ready ↦
      let (r', p, q) =
        >>=-eq-ok (sched_next_internal true now ms) (λ r. ok (r.0, m ∷ r.1)) (rw not_ready at h) in
      ground (arith, work-start now ms r' p)
]

work-push_finished : (id : ℕ) (t : List Measurement) → work (map (push_finished id) t) ≡ work t
unfolding work
work-push_finished id [] = refl
work-push_finished id (m ∷ ms) = ground (arith, work-push_finished id ms)

work-update :
    (t : List Measurement) (id : ℕ) (m : Measurement)
    → find t id ≡ some m
    → m.state ≡ in_progress
    → suc (work (update t id (λ m. record m { state = complete }))) ≡ work t
unfolding work update find
work-update [] id m e h = cc
work-update (x ∷ xs) id m e h = ground (arith, work-update xs id m)

work-next :
    (now : ℕ) (t : List Measurement) (id : ℕ) (u : List Measurement)
    → sched_next now t ≡ ok (suc id, u)
    → suc (work u) ≡ work t
unfolding sched_next
work-next now t id u h = work-start now t (suc id, u) h (omega arith)

work-mark_done :
    (t : List Measurement) (id : ℕ) (u : List Measurement)
    → sched_mark_done t id ≡ ok u
    → suc (work u) ≡ work t
unfolding sched_mark_done get
work-mark_done t id u h = elim (Option-cases (find t id)) [
  | inl missing ↦ ground arith
  | inr (m, found) ↦ ground (
    arith,
    work-update t id m found,
    work-push_finished id (update t id (λ n. record n { state = complete })),
  )
]

-- After n starts and completions the work that is left is n less than it was: no sequence of them is
-- longer than the work of the schedule.
pub work-Steps :
    {s : List Measurement} {n : ℕ} {u : List Measurement} → Steps s n u → n + work u ≡ work s
work-Steps here = omega arith
work-Steps (start {t = t} {u = u} now id r e) = omega (arith, work-Steps r, work-next now t id u e)
work-Steps (finish {t = t} {u = u} id r e) = omega (arith, work-Steps r, work-mark_done t id u e)

-- No work is left exactly when the schedule is finished.
pub work-sched_finished : (t : List Measurement) → (sched_finished t ≡ true) ↔ (work t ≡ 0)
unfolding sched_finished sched_num_incomplete work
work-sched_finished [] = (λ h. refl, λ h. refl)
work-sched_finished (m ∷ t) = ground (arith, work-sched_finished t)
