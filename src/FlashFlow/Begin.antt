-- ===== src/FlashFlow/Begin.antt =====
-- flashflow.c: what starting the next measurement makes of the state of the main loop.
use mathlib.Core.List.{append-nil}
use flashflow_research.Prelude.{
  ℕ, ◌^◌, ◌<◌, ◌≡◌, ◌≢◌, inl, inr, Bool, true, false, not, List, [], ◌∷◌, ◌++◌, Returns,
  Returns-bind, Returns-map, ok, arith, ◌==◌, if◌then◌else◌, Bool-cases, All, length, ◌>>=◌,
}
use flashflow_research.Os.{Os}
use flashflow_research.Meta.{Meta}
use flashflow_research.Sched.{Measurement, sched_next}
use flashflow_research.Sched.Count.{contains-append}
use flashflow_research.Sched.Tracking.{Starts, sched_next-Starts}
use flashflow_research.FlashFlow.Defs.{find_and_connect_metas, send_auth_metas}
use flashflow_research.FlashFlow.Plans.{Plan, Fits, Fits-FitsClock}
use flashflow_research.FlashFlow.Staff.{owned-IsTracked}
use flashflow_research.FlashFlow.Coordinates.{Coordinates}
use flashflow_research.FlashFlow.Connect.{Joins}
use flashflow_research.FlashFlow.Auth.{Moves, send_auth_metas-Moved}
use flashflow_research.FlashFlow.Cleanup.{fail-Failed, fail-AfterFail}
use flashflow_research.FlashFlow.Start.{
  Waits, waiting-Waits, msms1, Found, find_and_connect_metas-Found, not_found-Failing,
  found-Coordinates,
}
use flashflow_research.FlashFlow.Loop.{Loop, fail, start_next}

-- A part of a round that completes the measurements `over`, in this order.
abbrev pub Goes : List Plan → List ℕ → Loop → Type 0
Goes ps past s = (over : List ℕ) × Coordinates ps (past ++ over) s

-- The clock is far from the end of its range.
abbrev pub ClockFits : Os → Type 0
ClockFits os = (w : os.World) → (os.now w).0 < 2 ^ 63

pub still : (ps : List Plan) (past : List ℕ) (s : Loop) → Coordinates ps past s → Goes ps past s
still ps past s c = ([], rw append-nil c)

module _ (os : Os) where
  open os use {World, now}

  abbrev pub GoesOn : List Plan → List ℕ → Loop × World → Type 0
  GoesOn ps past (s', w') = Goes ps past s'

  module _ (ps : List Plan) (past : List ℕ) (s : Loop) (c : Coordinates ps past s) where
    sent-GoesOn :
        (id t : ℕ) (m : Measurement) (wait : Waits past s id t m) (metas : List Meta) (w : World)
        → Joins s.known id m.hosts s.metas true metas
        → m.dur ≢ 0
        → length m.hosts ≢ 0
        → Returns
            (do
              (sent, metas', w2) ← send_auth_metas os id metas w
              let s2 = record s {
                known = s.known ++ id ∷ [];
                metas = metas';
                msms = msms1 ps past s id t m c wait;
              }
              if sent then ok (s2, w2) else fail os id s2 w2)
            (GoesOn ps past)
    sent-GoesOn id t m wait metas w j d h =
        Returns-bind (Moves os metas) (GoesOn ps past) (send_auth_metas os id metas w) _
          (send_auth_metas-Moved os id metas w wait.named
            (owned-IsTracked (id ∷ s.known) metas j.owned) j.ready)
          λ r v.
            let c2 = found-Coordinates ps past s id t m c wait metas r.1 j v d h in
            elim (Bool-cases r.0) [
              | inl sent ↦ rw sent (still ps past _ c2)
              | inr unsent ↦ rw unsent (
                  Returns-map (fail os id _ r.2)
                    (fail-AfterFail os ps past id _ r.2
                      (ground (arith, contains-append s.known (id ∷ []) id)) c2)
                    λ q a. (id ∷ [], a.0))
            ]

    found-GoesOn :
        (id t : ℕ) (m : Measurement) (wait : Waits past s id t m) (w : World)
        → Returns
            (do
              (found, metas, w1) ←
                  find_and_connect_metas os id s.metas (msms1 ps past s id t m c wait) w
              let s1 = record s { metas = metas; msms = msms1 ps past s id t m c wait }
              if not found then fail os id s1 w1 else (do
                (sent, metas', w2) ← send_auth_metas os id metas w1
                let s2 = record s1 { known = s.known ++ id ∷ []; metas = metas' }
                if sent then ok (s2, w2) else fail os id s2 w2))
            (GoesOn ps past)
    found-GoesOn id t m wait w =
        Returns-bind (Found os ps past s id t m c wait) (GoesOn ps past)
          (find_and_connect_metas os id s.metas (msms1 ps past s id t m c wait) w) _
          (find_and_connect_metas-Found os ps past s id t m c wait w) λ r f. next r f
      where
        next :
            (r : Bool × List Meta × World)
            → Found os ps past s id t m c wait r
            → Returns {A = Loop × World}
                (if not r.0
                  then fail os id
                      (record s { metas = r.1; msms = msms1 ps past s id t m c wait })
                      r.2
                  else (do
                    (sent, metas', w2) ← send_auth_metas os id r.1 r.2
                    let s2 = record s {
                      known = s.known ++ id ∷ [];
                      metas = metas';
                      msms = msms1 ps past s id t m c wait;
                    }
                    if sent then ok (s2, w2) else fail os id s2 w2))
                (GoesOn ps past)
        next (false, metas, w1) (j, filled) =
            Returns-map (fail os id _ w1)
              (fail-Failed os ps past id s.known _ w1 wait.named
                (not_found-Failing ps past s id t m c wait false metas j))
              λ q a. (id ∷ [], a.0)
        next (true, metas, w1) (j, inl missed) = absurd (cc missed)
        next (true, metas, w1) (j, inr (d, h)) = sent-GoesOn id t m wait metas w1 j d h

    -- The block returns and leaves a state that holds between two parts of a round.
    pub start_next-GoesOn :
        (w : World) → ClockFits os → All Fits ps → Returns (start_next os s w) (GoesOn ps past)
    unfolding start_next
    start_next-GoesOn w clock fits =
        let t = (now w).0 in
        Returns-bind (Starts past t s.msms) (GoesOn ps past) (sched_next t s.msms) _
          (sched_next-Starts past t s.msms c.scheduled
            (Fits-FitsClock t s.msms (clock w) (rw c.plans_kept fits)))
          λ r k. next r k
      where
        next :
            (r : ℕ × List Measurement)
            → Starts past (now w).0 s.msms r
            → Returns {A = Loop × World}
                (if r.0 == 0 then ok (record s { msms = r.1 }, (now w).1) else (do
                  (found, metas, w1) ← find_and_connect_metas os r.0 s.metas r.1 (now w).1
                  let s1 = record s { metas = metas; msms = r.1 }
                  if not found then fail os r.0 s1 w1 else (do
                    (sent, metas', w2) ← send_auth_metas os r.0 metas w1
                    let s2 = record s1 { known = s.known ++ r.0 ∷ []; metas = metas' }
                    if sent then ok (s2, w2) else fail os r.0 s2 w2)))
                (GoesOn ps past)
        next (id, msms) (inl (none_left, same, unready)) = rw (none_left, same) (still ps past s c)
        next (id, msms) (inr (m, found, waits, met, e)) =
            let wait = waiting-Waits ps past s id (now w).0 m c found waits met in
            let other : (id == 0) ≡ false = ground (arith, wait.named) in
            rw (other, e) (found-GoesOn id (now w).0 m wait (now w).1)
