-- ===== src/FlashFlow/Prepare.antt =====
-- flashflow.c: a round of the main loop up to the wait for the clients.
use mathlib.Core.List.{append_assoc}
use flashflow_research.Prelude.{
  ℕ, zero, suc, ◌+◌, ◌≡◌, ◌⊎◌, inl, inr, refl, List, [], ◌∷◌, ◌++◌, Returns, Returns-bind,
  Returns-map, ok, Bool-cases, Option-cases, All, length, get_elem?, ltb,
}
use flashflow_research.Os.{Os}
use flashflow_research.FlashFlow.Plans.{Plan, Fits}
use flashflow_research.FlashFlow.Coordinates.{Coordinates}
use flashflow_research.FlashFlow.Kept.{progress-Coordinates}
use flashflow_research.FlashFlow.Cleanup.{AllFailed, fail_all-AllFailed}
use flashflow_research.FlashFlow.Overdue.{ClockWorks, SomeFailed, fail_overdue-SomeFailed}
use flashflow_research.FlashFlow.Begin.{Goes, still, GoesOn, ClockFits, start_next-GoesOn}
use flashflow_research.FlashFlow.Finish.{Handled}
use flashflow_research.FlashFlow.Handle.{handle_measurement-Handled}
use flashflow_research.FlashFlow.Loop.{
  Loop, Next, next_item, same_index, main_loop_end, return_error, fail_all, check_progress,
  fail_overdue, start_next, handle_measurement, handle_known,
}
use flashflow_research.FlashFlow.Rounds.{prepare_round}

-- What a round has done so far: it goes on or is at its end, never at an error, and the state holds.
abbrev pub GoesWell : (os : Os) → List Plan → List ℕ → Next × Loop × os.World → Type 0
GoesWell os ps past (next, s, w) = ((next ≡ next_item) ⊎ (next ≡ main_loop_end)) × Goes ps past s

pub after :
    (ps : List Plan) (past over : List ℕ) (s : Loop) → Goes ps (past ++ over) s → Goes ps past s
after ps past over s (more, c) = (over ++ more, rw (← append_assoc past over more) c)

module _ (os : Os) where
  open os use {World}

  next-GoesWell :
      (ps : List Plan) (past : List ℕ) (n i : ℕ) (s : Loop) (r : Next × Loop × World)
      → ((past' : List ℕ) (j : ℕ) (s' : Loop) (w' : World)
          → Coordinates ps past' s'
          → Returns (handle_known os n j s' w') (GoesWell os ps past'))
      → Handled os ps past s.known r
      → Returns {A = Next × Loop × World}
          (elim r.0 [
            | next_item ↦ handle_known os n (i + 1) r.1 r.2
            | same_index ↦ handle_known os n i r.1 r.2
            | main_loop_end ↦ ok (main_loop_end, r.1, r.2)
            | return_error ↦ ok (return_error, r.1, r.2)
          ])
          (GoesWell os ps past)
  next-GoesWell ps past n i s (next_item, s', w') ih (c, same) = ih past (i + 1) s' w' c
  next-GoesWell ps past n i s (same_index, s', w') ih (id, c, p) =
      Returns-map (handle_known os n i s' w') (ih (past ++ id ∷ []) i s' w' c)
        λ r g. (g.0, after ps past (id ∷ []) r.1 g.1)
  next-GoesWell ps past n i s (main_loop_end, s', w') ih (id, c) = (inr refl, (id ∷ [], c))
  next-GoesWell ps past n i s (return_error, s', w') ih h = elim h [ ]

  -- The loop over the known measurements, from any index and with any fuel, returns and leaves a state
  -- that holds between two parts of a round.
  pub handle_known-GoesWell :
      (ps : List Plan) (past : List ℕ) (n i : ℕ) (s : Loop) (w : World)
      → ClockFits os
      → All Fits ps
      → Coordinates ps past s
      → Returns (handle_known os n i s w) (GoesWell os ps past)
  unfolding handle_known
  handle_known-GoesWell ps past zero i s w clock fits c = (inl refl, still ps past s c)
  handle_known-GoesWell ps past (suc n) i s w clock fits c =
      elim (Option-cases (get_elem? s.known i)) [
        | inl past_end ↦ rw (Returns, past_end) (inl refl, still ps past s c)
        | inr (id, here) ↦
            rw (handle_known, here)
              (Returns-bind (Handled os ps past s.known) (GoesWell os ps past)
                (handle_measurement os i id s w) _
                (handle_measurement-Handled os ps past i id s w clock fits here c)
                λ r h.
                  next-GoesWell ps past n i s r
                    (λ past' j s' w' c'. handle_known-GoesWell ps past' n j s' w' clock fits c') h)
      ]

  pub check_progress-GoesOn :
      (ps : List Plan) (past : List ℕ) (s : Loop) (w : World)
      → Coordinates ps past s
      → Returns (check_progress os s w) (GoesOn os ps past)
  unfolding check_progress
  check_progress-GoesOn ps past s w c = elim (Bool-cases (ltb 10 s.loops_without_progress)) [
    | inr fine ↦ rw fine (still ps past s c)
    | inl stuck ↦ rw stuck (
        Returns-bind (AllFailed os ps past s) (GoesOn os ps past) (fail_all os (length s.known) s w)
          _ (fail_all-AllFailed os ps past (length s.known) s w refl c)
          λ r (none_left, (failed, c', p), count).
            (failed, progress-Coordinates ps (past ++ failed) r.0 0 c'))
  ]

  -- From a state that holds between two rounds, while the clock can be read and is far from its
  -- end, and the plans fit, a round comes to its wait or to its end, with no failed assertion or
  -- panic, and the state holds with the measurements completed meanwhile.
  pub prepare_round-GoesWell :
      (ps : List Plan) (past : List ℕ) (s : Loop) (w : World)
      → ClockWorks os
      → ClockFits os
      → All Fits ps
      → Coordinates ps past s
      → Returns (prepare_round os s w) (GoesWell os ps past)
  unfolding prepare_round
  prepare_round-GoesWell ps past s w works clock fits c =
      Returns-bind (GoesOn os ps past) (GoesWell os ps past) (check_progress os s w) _
        (check_progress-GoesOn ps past s w c)
        λ r1 (over1, c1).
          Returns-bind (SomeFailed os ps (past ++ over1) r1.0) (GoesWell os ps past)
            (fail_overdue os (length r1.0.known) 0 r1.0 r1.1) _
            (fail_overdue-SomeFailed os ps (past ++ over1) (length r1.0.known) 0 r1.0 r1.1 works c1)
            λ r2 (over2, c2, p, count).
              Returns-bind (GoesOn os ps ((past ++ over1) ++ over2)) (GoesWell os ps past)
                (start_next os r2.0 r2.1) _
                (start_next-GoesOn os ps ((past ++ over1) ++ over2) r2.0 c2 r2.1 clock fits)
                λ r3 (over3, c3).
                  Returns-map (handle_known os (length r3.0.known) 0 r3.0 r3.1)
                    (handle_known-GoesWell ps (((past ++ over1) ++ over2) ++ over3)
                      (length r3.0.known) 0 r3.0 r3.1 clock fits c3)
                    λ r g. (
                      g.0,
                      after ps past over1 r.1 (
                          after ps (past ++ over1) over2 r.1
                            (after ps ((past ++ over1) ++ over2) over3 r.1 g.1)),
                    )
