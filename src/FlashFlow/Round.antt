-- ===== src/FlashFlow/Round.antt =====
-- flashflow.c: whole rounds of the main loop, from one invariant state to the next.
use flashflow_research.Prelude.{
  ℕ, zero, suc, Option, ◌≡◌, ◌⊎◌, inl, inr, refl, true, List, ◌++◌, Returns, Returns-bind-eq,
  Returns-map, ok, Bool-cases, All, ap, ◌∙◌,
}
use flashflow_research.Os.{Os}
use flashflow_research.Sched.{sched_finished}
use flashflow_research.FlashFlow.Plans.{Plan, Fits}
use flashflow_research.FlashFlow.Coordinates.{Coordinates}
use flashflow_research.FlashFlow.Overdue.{ClockWorks}
use flashflow_research.FlashFlow.Begin.{Goes, still, ClockFits}
use flashflow_research.FlashFlow.Prepare.{GoesWell, after, prepare_round-GoesWell}
use flashflow_research.FlashFlow.Receive.{Receives}
use flashflow_research.FlashFlow.Poll.{Polled, ResultsOpen, Ends, poll_clients-Ends}
use flashflow_research.FlashFlow.Loop.{
  Loop, Next, next_item, same_index, main_loop_end, return_error,
}
use flashflow_research.FlashFlow.Rounds.{prepare_round, poll_clients, main_loop_round, main_loop}

-- What the coordinator relies on of the system: the clock can be read and is far from its end, and what
-- is received fits the buffer.
pub record Works (os : Os) : Type 0 where
  pub clock : ClockWorks os
  pub clock_fits : ClockFits os
  pub receives : Receives os

-- Where a round comes to its wait, it is as `Polled` says.
abbrev pub WaitsWell : (os : Os) → Loop → os.World → Type 0
WaitsWell os s w =
    (s' : Loop) (w' : os.World) → prepare_round os s w ≡ ok (next_item, s', w') → Polled os s' w'

-- The rounds of a run wait so, as many as there are at most.
abbrev pub AllWaitWell : (os : Os) → Option os.Stream → ℕ → Loop → os.World → Type 0
AllWaitWell os out_fd zero s w = Unit
AllWaitWell os out_fd (suc rounds) s w =
    WaitsWell os s w
    × ((s' : Loop) (w' : os.World)
        → main_loop_round os out_fd s w ≡ ok (main_loop_end, s', w')
        → AllWaitWell os out_fd rounds s' w')

module _ (os : Os) (works : Works os) (out_fd : Option os.Stream)
    (results : ResultsOpen os out_fd) where
  open os use {World}

  poll_next :
      (ps : List Plan) (past : List ℕ) (r : Next × Loop × World)
      → (r.0 ≡ next_item → Polled os r.1 r.2)
      → GoesWell os ps past r
      → Returns {A = Next × Loop × World}
          (elim r.0 [ next_item ↦ poll_clients os out_fd r.1 r.2 | stop ↦ ok (stop, r.1, r.2) ])
          (Ends os ps past)
  poll_next ps past (next_item, s, w) p (k, (over, c)) =
      Returns-map (poll_clients os out_fd s w)
        (poll_clients-Ends os works.receives works.clock out_fd results ps (past ++ over) s w
          (p refl) c)
        λ r e. (e.0, after ps past over r.1 e.1)
  poll_next ps past (main_loop_end, s, w) p (k, g) = (refl, g)
  poll_next ps past (same_index, s, w) p (inl e, g) = absurd (cc e)
  poll_next ps past (same_index, s, w) p (inr e, g) = absurd (cc e)
  poll_next ps past (return_error, s, w) p (inl e, g) = absurd (cc e)
  poll_next ps past (return_error, s, w) p (inr e, g) = absurd (cc e)

  -- One round of the main loop, from a state that holds between two rounds, under the same
  -- conditions on the system, the schedule and the wait: it returns and comes to its end, and the
  -- state holds again, with the measurements that were completed meanwhile behind those completed
  -- before.
  pub main_loop_round-Ends :
      (ps : List Plan) (past : List ℕ) (s : Loop) (w : World)
      → All Fits ps
      → WaitsWell os s w
      → Coordinates ps past s
      → Returns (main_loop_round os out_fd s w) (Ends os ps past)
  unfolding main_loop_round
  main_loop_round-Ends ps past s w fits waits c =
      Returns-bind-eq (GoesWell os ps past) (Ends os ps past) (prepare_round os s w) _
        (prepare_round-GoesWell os ps past s w works.clock works.clock_fits fits c)
        λ r e k. poll_next ps past r (λ next. waits r.1 r.2 (e ∙ ap (λ x. ok (x, r.1, r.2)) next)) k

  -- What so many rounds leave: the loop is at its end with nothing left to be done, or no round is left.
  abbrev pub Loops : List Plan → List ℕ → Next × Loop × World → Type 0
  Loops ps past (next, s, w) =
      ((next ≡ next_item) ⊎ ((next ≡ main_loop_end) × (sched_finished s.msms ≡ true)))
      × Goes ps past s

  -- Any number of rounds.
  pub main_loop-Loops :
      (rounds : ℕ) (ps : List Plan) (past : List ℕ) (s : Loop) (w : World)
      → All Fits ps
      → AllWaitWell os out_fd rounds s w
      → Coordinates ps past s
      → Returns (main_loop os out_fd rounds s w) (Loops ps past)
  unfolding main_loop
  main_loop-Loops zero ps past s w fits waits c = (inl refl, still ps past s c)
  main_loop-Loops (suc rounds) ps past s w fits waits c =
      elim (Bool-cases (sched_finished s.msms)) [
        | inl finished ↦ rw finished (inr (refl, finished), still ps past s c)
        | inr more ↦ rw more (
            Returns-bind-eq (Ends os ps past) (Loops ps past) (main_loop_round os out_fd s w) _
              (main_loop_round-Ends ps past s w fits waits.0 c)
              λ r e (ends, (over, c')).
                let here : main_loop_round os out_fd s w ≡ ok (main_loop_end, r.1, r.2) =
                  e ∙ ap (λ x. ok (x, r.1, r.2)) ends in
                rw ends (
                  Returns-map (main_loop os out_fd rounds r.1 r.2)
                    (main_loop-Loops rounds ps (past ++ over) r.1 r.2 fits (waits.1 r.1 r.2 here)
                      c')
                    λ q k. (k.0, after ps past over q.1 k.1)))
      ]
