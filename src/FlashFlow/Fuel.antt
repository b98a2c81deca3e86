-- ===== src/FlashFlow/Fuel.antt =====
-- flashflow.c: the fuel of the loop that fails the measurements past their failsafe time.
use flashflow_research.Prelude.{
  ℕ, zero, suc, ◌+◌, ◌≤◌, ◌<◌, ◌≡◌, inl, inr, refl, ap, true, Option, none, some, List, [], ◌∷◌,
  Result, ok, err, ◌>>=◌, >>=-eq-ok, arith, ltb, if◌then◌else◌, Bool-cases, Option-cases, length,
  get_elem?, guard, assertion, All, ◌++◌,
}
use flashflow_research.Prelude.Perms.{length-perm}
use flashflow_research.Os.{Os, Timeval}
use flashflow_research.Meta.{Meta}
use flashflow_research.Sched.{Measurement, sched_mark_done}
use flashflow_research.Sched.Count.{contains}
use flashflow_research.FlashFlow.Defs.{
  MsmParams, fill_msm_params, remove_id, fail_metas, measurement_failed,
}
use flashflow_research.FlashFlow.Failed.{remove_id-perm}
use flashflow_research.Prelude.Perms.{length-perm}
use flashflow_research.FlashFlow.Plans.{Plan, Fits}
use flashflow_research.FlashFlow.Begin.{ClockFits}
use flashflow_research.FlashFlow.Finish.{Handled}
use flashflow_research.FlashFlow.Handle.{handle_measurement-Handled}
use flashflow_research.FlashFlow.Coordinates.{Coordinates}
use flashflow_research.FlashFlow.Loop.{
  Next, next_item, same_index, main_loop_end, return_error, handle_measurement, handle_known, Loop,
  fail, fail_overdue,
}
use flashflow_research.FlashFlow.Coordinates.{contains-get_elem}

bind_same {ℓ κ} :
    {A : Type ℓ} {B : Type κ} (m : Result A) (f g : A → Result B)
    → ((a : A) → m ≡ ok a → f a ≡ g a)
    → (m >>= f) ≡ (m >>= g)
bind_same (ok a) f g h = h a refl
bind_same (err e) f g h = refl

get_elem-lt : (ids : List ℕ) (i id : ℕ) → get_elem? ids i ≡ some id → i < length ids
get_elem-lt [] i id h = cc
get_elem-lt (x ∷ xs) zero id h = omega arith
get_elem-lt (x ∷ xs) (suc i) id h = omega (arith, get_elem-lt xs i id h)

length-remove_id :
    (known : List ℕ) (id : ℕ)
    → contains known id ≡ true
    → suc (length (remove_id known id)) ≡ length known
length-remove_id known id h = elim (remove_id-perm known id) [
  | inl (there, p) ↦ length-perm p
  | inr (gone, same) ↦ absurd (ground arith)
]

module _ (os : Os) where
  open os use {World, gettimeofday}

  measurement_failed-known :
      (id : ℕ) (known : List ℕ) (metas : List Meta) (msms : List Measurement) (w : World)
      (r : List ℕ × List Meta × List Measurement × World)
      → measurement_failed os id known metas msms w ≡ ok r
      → r.0 ≡ remove_id known id
  unfolding measurement_failed
  measurement_failed-known id known metas msms w r h =
      let (a, p, q) = >>=-eq-ok (fail_metas os id metas w) _ h in
      let (b, p', q') = >>=-eq-ok (sched_mark_done msms id) _ q in ground arith

  fail-known :
      (id : ℕ) (s : Loop) (w : World) (r : Loop × World)
      → fail os id s w ≡ ok r
      → r.0.known ≡ remove_id s.known id
  unfolding fail
  fail-known id s w r h =
      let (a, p, q) = >>=-eq-ok (measurement_failed os id s.known s.metas s.msms w) _ h in
      let same = measurement_failed-known id s.known s.metas s.msms w a p in ground (arith, same)

  check_same :
      (n i id : ℕ) (s : Loop) (p : MsmParams) (time : Option Timeval) (w : World)
      → ((j : ℕ) (s' : Loop) (w' : World)
          → length s'.known ≤ j + n
          → fail_overdue os (suc n) j s' w' ≡ fail_overdue os n j s' w')
      → contains s.known id ≡ true
      → length s.known ≤ i + suc n
      → elim time [
        | none ↦ err assertion
        | some t ↦
            if ltb p.failsafe_stop t.tv_sec
            then (do (s', w2) ← fail os id s w; fail_overdue os (suc n) i s' w2)
            else fail_overdue os (suc n) (i + 1) s w
      ]
        ≡ elim time [
          | none ↦ err assertion
          | some t ↦
              if ltb p.failsafe_stop t.tv_sec
              then (do (s', w2) ← fail os id s w; fail_overdue os n i s' w2)
              else fail_overdue os n (i + 1) s w
        ]
  check_same n i id s p none w ih known h = refl
  check_same n i id s p (some t) w ih known h = elim (Bool-cases (ltb p.failsafe_stop t.tv_sec)) [
    | inl over ↦ rw over (
        bind_same (fail os id s w) _ _ λ r e.
          ih i r.0 r.1
            (omega (arith, ap length (fail-known id s w r e), length-remove_id s.known id known)))
    | inr under ↦ rw under (ih (i + 1) s w (omega arith))
  ]

  -- When the fuel is as large as the number of known measurements from the index on, more of it makes
  -- no difference: the loop has come to its end.
  pub fail_overdue-enough :
      (n i : ℕ) (s : Loop) (w : World)
      → length s.known ≤ i + n
      → fail_overdue os (suc n) i s w ≡ fail_overdue os n i s w
  unfolding fail_overdue
  fail_overdue-enough zero i s w h = elim (Option-cases (get_elem? s.known i)) [
    | inl past_end ↦ rw (fail_overdue, past_end) refl
    | inr (id, here) ↦ absurd (omega (arith, get_elem-lt s.known i id here))
  ]
  fail_overdue-enough (suc n) i s w h = elim (Option-cases (get_elem? s.known i)) [
    | inl past_end ↦ rw (fail_overdue, past_end) refl
    | inr (id, here) ↦
        rw (fail_overdue, here)
          (bind_same (fill_msm_params s.msms id) _ _ λ r e.
            bind_same (guard r.0 assertion) _ _ λ u e'.
              check_same n i id s r.1 (gettimeofday w).0 (gettimeofday w).1
                (λ j s' w' h'. fail_overdue-enough n j s' w' h')
                (contains-get_elem s.known i id here) h)
  ]

  Handled-same :
      (ps : List Plan) (past : List ℕ) (n i : ℕ) (s : Loop) (r : Next × Loop × World)
      → ((past' : List ℕ) (j : ℕ) (s' : Loop) (w' : World)
          → Coordinates ps past' s'
          → length s'.known ≤ j + n
          → handle_known os (suc n) j s' w' ≡ handle_known os n j s' w')
      → length s.known ≤ i + suc n
      → Handled os ps past s.known r
      → elim r.0 [
        | next_item ↦ handle_known os (suc n) (i + 1) r.1 r.2
        | same_index ↦ handle_known os (suc n) i r.1 r.2
        | main_loop_end ↦ ok (main_loop_end, r.1, r.2)
        | return_error ↦ ok (return_error, r.1, r.2)
      ]
        ≡ elim r.0 [
          | next_item ↦ handle_known os n (i + 1) r.1 r.2
          | same_index ↦ handle_known os n i r.1 r.2
          | main_loop_end ↦ ok (main_loop_end, r.1, r.2)
          | return_error ↦ ok (return_error, r.1, r.2)
        ]
  Handled-same ps past n i s (next_item, s', w') ih h (c, same) =
      ih past (i + 1) s' w' c (omega (arith, ap length same))
  Handled-same ps past n i s (same_index, s', w') ih h (id, c, p) =
      ih (past ++ id ∷ []) i s' w' c (omega (arith, length-perm p))
  Handled-same ps past n i s (main_loop_end, s', w') ih h e = refl
  Handled-same ps past n i s (return_error, s', w') ih h e = refl

  -- From a state that holds between two parts of a round, while the clock is far from its end and
  -- the plans fit, with fuel for the known measurements from the index on the loop over the known
  -- measurements has come to its end: more fuel makes no difference.
  pub handle_known-enough :
      (ps : List Plan) (past : List ℕ) (n i : ℕ) (s : Loop) (w : World)
      → ClockFits os
      → All Fits ps
      → Coordinates ps past s
      → length s.known ≤ i + n
      → handle_known os (suc n) i s w ≡ handle_known os n i s w
  unfolding handle_known
  handle_known-enough ps past zero i s w clock fits c h =
      elim (Option-cases (get_elem? s.known i)) [
        | inl past_end ↦ rw (handle_known, past_end) refl
        | inr (id, here) ↦ absurd (omega (arith, get_elem-lt s.known i id here))
      ]
  handle_known-enough ps past (suc n) i s w clock fits c h =
      elim (Option-cases (get_elem? s.known i)) [
        | inl past_end ↦ rw (handle_known, past_end) refl
        | inr (id, here) ↦
            rw (handle_known, here)
              (bind_same (handle_measurement os i id s w) _ _ λ r e.
                Handled-same ps past n i s r
                  (λ past' j s' w' c' h'. handle_known-enough ps past' n j s' w' clock fits c' h') h
                  (rw e at (handle_measurement-Handled os ps past i id s w clock fits here c)))
      ]
