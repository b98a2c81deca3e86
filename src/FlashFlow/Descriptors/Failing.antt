-- ===== src/FlashFlow/Descriptors/Failing.antt =====
-- flashflow.c: the descriptors over the failure and the completion of measurements.
use flashflow_research.Prelude.{
  ℕ, zero, suc, ◌+◌, Option, none, some, List, [], ◌∷◌, Result, ok, err, assertion, ◌>>=◌, ◌>>◌,
  guard, Ensures, Ensures-bind, Ensures-any, Ensures-if, Ensures-map, ◌==◌, if◌then◌else◌,
  get_elem?, length, ltb,
}
use flashflow_research.Os.{Os, Timeval}
use flashflow_research.Meta.{Meta, done, failed}
use flashflow_research.TorClient.State.{tc_assert_state}
use flashflow_research.TorClient.Socket.{tc_mark_failed, tc_finished_with_meta}
use flashflow_research.Sched.{Measurement, sched_mark_done}
use flashflow_research.FlashFlow.Defs.{
  fill_msm_params, is_totally_done, fail_metas, measurement_failed,
}
use flashflow_research.FlashFlow.Assign.{finish_metas}
use flashflow_research.FlashFlow.Loop.{
  Loop, Next, last_of, fail, fail_all, check_progress, fail_overdue, finish_if_done, fail_and_end,
}
use flashflow_research.FlashFlow.Descriptors.{
  Kernel, KernelWorks, Keeps, Calm-Keeps, Keeps-refl, Keeps-trans, Keeps-cons,
}
use flashflow_research.FlashFlow.Descriptors.Client.{
  change_state-Keeps, tc_finished_with_meta-Keeps,
}

module _ (os : Os) (k : Kernel os) (works : KernelWorks os k) where
  open os use {World, gettimeofday}

  -- What a part of a round leaves, by the connections and the system's state in its result.
  abbrev pub KeptMetas : List Meta → World → List Meta × World → Type 0
  KeptMetas ms w (ms', w') = Keeps os k ms w ms' w'

  abbrev pub KeptLoop : Loop → World → Loop × World → Type 0
  KeptLoop s w (s', w') = Keeps os k s.metas w s'.metas w'

  abbrev pub KeptNext : Loop → World → Next × Loop × World → Type 0
  KeptNext s w (next, s', w') = Keeps os k s.metas w s'.metas w'

  abbrev Given : Meta → World → Meta × World → Type 0
  Given m w (m', w') = Keeps os k (m ∷ []) w (m' ∷ []) w'

  fail_one :
      (m : Meta) (w : World)
      → Ensures (do f ← tc_mark_failed m; tc_finished_with_meta os f w) (Given m w)
  unfolding tc_mark_failed
  fail_one m w =
      Ensures-bind (λ m'. Keeps os k (m ∷ []) w (m' ∷ []) w) (Given m w) (tc_mark_failed m) _
        (change_state-Keeps os k works m failed w (λ e. cc e))
        λ f h.
          Ensures-map (tc_finished_with_meta os f w) (tc_finished_with_meta-Keeps os k works f w)
            λ r e. Keeps-trans os k (m ∷ []) (f ∷ []) (r.0 ∷ []) w w r.1 h e

  fail_metas-Keeps :
      (m_id : ℕ) (ms : List Meta) (w : World) → Ensures (fail_metas os m_id ms w) (KeptMetas ms w)
  unfolding fail_metas
  fail_metas-Keeps m_id [] w = Keeps-refl os k [] w
  fail_metas-Keeps m_id (m ∷ ms) w =
      Ensures-bind (Given m w) (KeptMetas (m ∷ ms) w)
        (if m.current_m_id == m_id
          then (do f ← tc_mark_failed m; tc_finished_with_meta os f w)
          else ok (m, w))
        _
        (Ensures-if (Given m w) (m.current_m_id == m_id) _ _ (λ mine. fail_one m w)
          λ other. Keeps-refl os k (m ∷ []) w)
        λ r h.
          Ensures-bind (KeptMetas ms r.1) (KeptMetas (m ∷ ms) w) (fail_metas os m_id ms r.1)
            (λ q. ok (r.0 ∷ q.0, q.1)) (fail_metas-Keeps m_id ms r.1)
            λ q e. Keeps-cons os k m r.0 ms q.0 w r.1 q.1 h e

  measurement_failed-Keeps :
      (m_id : ℕ) (known : List ℕ) (ms : List Meta) (msms : List Measurement) (w : World)
      → Ensures (measurement_failed os m_id known ms msms w) (λ r. Keeps os k ms w r.1 r.3)
  unfolding measurement_failed
  measurement_failed-Keeps m_id known ms msms w =
      Ensures-bind (KeptMetas ms w) (λ r. Keeps os k ms w r.1 r.3) (fail_metas os m_id ms w) _
        (fail_metas-Keeps m_id ms w)
        λ r h. Ensures-any (λ r. Keeps os k ms w r.1 r.3) (sched_mark_done msms m_id) _ λ msms'. h

  pub fail-Keeps : (m_id : ℕ) (s : Loop) (w : World) → Ensures (fail os m_id s w) (KeptLoop s w)
  unfolding fail
  fail-Keeps m_id s w =
      Ensures-bind (λ r. Keeps os k s.metas w r.1 r.3) (KeptLoop s w)
        (measurement_failed os m_id s.known s.metas s.msms w) _
        (measurement_failed-Keeps m_id s.known s.metas s.msms w) λ r h. h

  pub fail_and_end-Keeps :
      (m_id : ℕ) (s : Loop) (w : World) → Ensures (fail_and_end os m_id s w) (KeptNext s w)
  unfolding fail_and_end
  fail_and_end-Keeps m_id s w =
      Ensures-bind (KeptLoop s w) (KeptNext s w) (fail os m_id s w) _ (fail-Keeps m_id s w) λ r h. h

  -- One part of a round and the rest of it.
  pub then-Keeps :
      (s s' : Loop) (w w' : World) (r : Result (Loop × World))
      → Keeps os k s.metas w s'.metas w'
      → Ensures r (KeptLoop s' w')
      → Ensures r (KeptLoop s w)
  then-Keeps s s' w w' r h e =
      Ensures-map r e λ q e'. Keeps-trans os k s.metas s'.metas q.0.metas w w' q.1 h e'

  fail_all-Keeps : (n : ℕ) (s : Loop) (w : World) → Ensures (fail_all os n s w) (KeptLoop s w)
  unfolding fail_all
  fail_all-Keeps zero s w = Keeps-refl os k s.metas w
  fail_all-Keeps (suc n) s w = last s.known (λ s' w'. fail_all-Keeps n s' w')
    where
      last :
          (known : List ℕ)
          → ((s' : Loop) (w' : World) → Ensures (fail_all os n s' w') (KeptLoop s' w'))
          → Ensures {A = Loop × World}
              (elim known [
                | [] ↦ ok (s, w)
                | x ∷ xs ↦ (do (s', w') ← fail os (last_of x xs) s w; fail_all os n s' w')
              ])
              (KeptLoop s w)
      last [] ih = Keeps-refl os k s.metas w
      last (x ∷ xs) ih =
          Ensures-bind (KeptLoop s w) (KeptLoop s w) (fail os (last_of x xs) s w) _
            (fail-Keeps (last_of x xs) s w)
            λ r h. then-Keeps s r.0 w r.1 (fail_all os n r.0 r.1) h (ih r.0 r.1)

  pub check_progress-Keeps : (s : Loop) (w : World) → Ensures (check_progress os s w) (KeptLoop s w)
  unfolding check_progress
  check_progress-Keeps s w =
      Ensures-if (KeptLoop s w) (ltb 10 s.loops_without_progress) _ _
        (λ stuck.
          Ensures-bind (KeptLoop s w) (KeptLoop s w) (fail_all os (length s.known) s w) _
            (fail_all-Keeps (length s.known) s w) λ r h. h)
        λ fine. Keeps-refl os k s.metas w

  pub fail_overdue-Keeps :
      (n i : ℕ) (s : Loop) (w : World) → Ensures (fail_overdue os n i s w) (KeptLoop s w)
  unfolding fail_overdue
  fail_overdue-Keeps zero i s w = Keeps-refl os k s.metas w
  fail_overdue-Keeps (suc n) i s w =
      turn (get_elem? s.known i) (λ j s' w'. fail_overdue-Keeps n j s' w')
    where
      w1 : World
      w1 = (gettimeofday w).1

      clock : Keeps os k s.metas w s.metas w1
      clock = Calm-Keeps os k s.metas w w1 (works.gettimeofday_calm w)

      timed :
          (m_id stop : ℕ) (time : Option Timeval)
          → ((j : ℕ) (s' : Loop) (w' : World)
              → Ensures (fail_overdue os n j s' w') (KeptLoop s' w'))
          → Ensures {A = Loop × World}
              (elim time [
                | none ↦ err assertion
                | some t ↦
                    if ltb stop t.tv_sec
                    then (do (s', w2) ← fail os m_id s w1; fail_overdue os n i s' w2)
                    else fail_overdue os n (i + 1) s w1
              ])
              (KeptLoop s w)
      timed m_id stop none ih = tt
      timed m_id stop (some t) ih =
          Ensures-if (KeptLoop s w) (ltb stop t.tv_sec) _ _
            (λ late.
              Ensures-bind (KeptLoop s w1) (KeptLoop s w) (fail os m_id s w1) _
                (fail-Keeps m_id s w1)
                λ r h.
                  then-Keeps s r.0 w r.1 _
                    (Keeps-trans os k s.metas s.metas r.0.metas w w1 r.1 clock h) (ih i r.0 r.1))
            λ fine. then-Keeps s s w w1 _ clock (ih (i + 1) s w1)

      turn :
          (o : Option ℕ)
          → ((j : ℕ) (s' : Loop) (w' : World)
              → Ensures (fail_overdue os n j s' w') (KeptLoop s' w'))
          → Ensures {A = Loop × World}
              (elim o [
                | none ↦ ok (s, w)
                | some m_id ↦ (do
                  (filled, p) ← fill_msm_params s.msms m_id
                  guard filled assertion
                  let (time, w1) = gettimeofday w
                  elim time [
                    | none ↦ err assertion
                    | some t ↦
                        if ltb p.failsafe_stop t.tv_sec
                        then (do (s', w2) ← fail os m_id s w1; fail_overdue os n i s' w2)
                        else fail_overdue os n (i + 1) s w1
                  ])
              ])
              (KeptLoop s w)
      turn none ih = Keeps-refl os k s.metas w
      turn (some m_id) ih = Ensures-any (KeptLoop s w) (fill_msm_params s.msms m_id) _ λ p.
          Ensures-any (KeptLoop s w) (guard p.0 assertion) _
            λ u. timed m_id p.1.failsafe_stop (gettimeofday w).0 ih

  finish_metas-Keeps :
      (m_id : ℕ) (ms : List Meta) (w : World) → Ensures (finish_metas os m_id ms w) (KeptMetas ms w)
  unfolding finish_metas
  finish_metas-Keeps m_id [] w = Keeps-refl os k [] w
  finish_metas-Keeps m_id (m ∷ ms) w =
      Ensures-bind (Given m w) (KeptMetas (m ∷ ms) w)
        (if m.current_m_id == m_id
          then (do tc_assert_state m done; tc_finished_with_meta os m w)
          else ok (m, w))
        _
        (Ensures-if (Given m w) (m.current_m_id == m_id) _ _
          (λ mine.
            Ensures-any (Given m w) (tc_assert_state m done) _
              λ u. tc_finished_with_meta-Keeps os k works m w)
          λ other. Keeps-refl os k (m ∷ []) w)
        λ r h.
          Ensures-bind (KeptMetas ms r.1) (KeptMetas (m ∷ ms) w) (finish_metas os m_id ms r.1)
            (λ q. ok (r.0 ∷ q.0, q.1)) (finish_metas-Keeps m_id ms r.1)
            λ q e. Keeps-cons os k m r.0 ms q.0 w r.1 q.1 h e

  pub finish_if_done-Keeps :
      (i m_id : ℕ) (s : Loop) (w : World) → Ensures (finish_if_done os i m_id s w) (KeptNext s w)
  unfolding finish_if_done
  finish_if_done-Keeps i m_id s w =
      Ensures-if (KeptNext s w) (is_totally_done m_id s.metas) _ _
        (λ over.
          Ensures-bind (KeptMetas s.metas w) (KeptNext s w) (finish_metas os m_id s.metas w) _
            (finish_metas-Keeps m_id s.metas w)
            λ r h. Ensures-any (KeptNext s w) (sched_mark_done s.msms m_id) _ λ msms. h)
        λ not_yet. Keeps-refl os k s.metas w
