-- ===== src/FlashFlow/Loop.antt =====
-- The main loop of main_loop_once. The four arrays of descriptors are lists; a `goto main_loop_end`
-- and the `return -1` are values of `Next`.
use flashflow_research.Prelude.{
  ℕ, zero, suc, ◌+◌, Bool, true, false, not, ◌||◌, none, some, List, [], ◌∷◌, ◌++◌, Result, ok, err,
  assertion, ◌>>=◌, ◌>>◌, guard, ◌==◌, if◌then◌else◌, ltb, length, get_elem?,
}
use flashflow_research.Prelude.Int.{ℤ}
use flashflow_research.Os.{Os}
use flashflow_research.Meta.{Meta, CsmState, told_connect_target, setting_bw, state_number}
use flashflow_research.Sched.{
  Measurement, Host, sched_next, sched_mark_done, sched_reset_failsafe_stop,
}
use flashflow_research.FlashFlow.Defs.{
  MsmParams, fill_msm_params, is_totally_authed, is_totally_connected_target, is_totally_bw_set,
  is_totally_done, fill_gap, measurement_failed, find_and_connect_metas, send_auth_metas,
}
use flashflow_research.FlashFlow.Assign.{
  Action, tell_connect, set_bw, unassigned, all_assigned, assign_metas, start_metas, finish_metas,
}

-- The variables that live from one round to the next.
pub record Loop : Type 0 where
  pub known : List ℕ
  pub metas : List Meta
  pub msms : List Measurement
  pub loops_without_progress : ℕ
  pub count_success : ℕ
  pub count_failure : ℕ

-- Where a part of a round goes on: with the next item, with the item that took this one's place, at
-- the end of the round, or nowhere.
pub data Next : Type 0 where
  next_item same_index main_loop_end return_error : Next

abbrev pub last_of : ℕ → List ℕ → ℕ
last_of x [] = x
last_of x (y ∷ ys) = last_of y ys

-- `known_m_ids[i] = known_m_ids[--num_known_m_ids]`
unfoldable pub take_off : ℕ → List ℕ → List ℕ
unfolding fill_gap
take_off i [] = []
take_off zero (x ∷ xs) = fill_gap xs
take_off (suc i) (x ∷ xs) = x ∷ take_off i xs

-- One array of descriptors.
unfoldable pub fds_in : CsmState → List Meta → List ℤ
fds_in s [] = []
fds_in s (m ∷ ms) =
    if state_number m.state == state_number s then m.fd ∷ fds_in s ms else fds_in s ms

module _ (os : Os) where
  open os use {World, now, gettimeofday, epoll_add, epoll_delete, epoll_wait}

  unfoldable pub fail : ℕ → Loop → World → Result (Loop × World)
  fail m_id s w = do
    (known, metas, msms, w') ← measurement_failed os m_id s.known s.metas s.msms w
    ok (
      record s { known = known; metas = metas; msms = msms; count_failure = s.count_failure + 1 },
      w',
    )

  -- `while (num_known_m_ids)`: the last one fails, as often as there are known ones.
  unfoldable pub fail_all : ℕ → Loop → World → Result (Loop × World)
  fail_all zero s w = ok (s, w)
  fail_all (suc n) s w = elim s.known [
    | [] ↦ ok (s, w)
    | x ∷ xs ↦ (do (s', w') ← fail (last_of x xs) s w; fail_all n s' w')
  ]

  -- MAX_LOOPS_WITHOUT_PROGRESS is 10.
  unfoldable pub check_progress : Loop → World → Result (Loop × World)
  check_progress s w =
      if ltb 10 s.loops_without_progress
      then (do
        (s', w') ← fail_all (length s.known) s w
        ok (record s' { loops_without_progress = 0 }, w'))
      else ok (s, w)

  -- The loop over the measurements that run for too long, from index `i`. Each round of it raises
  -- the index or takes one id off: as many rounds as there are ids are enough.
  unfoldable pub fail_overdue : ℕ → ℕ → Loop → World → Result (Loop × World)
  fail_overdue zero i s w = ok (s, w)
  fail_overdue (suc n) i s w = elim (get_elem? s.known i) [
    | none ↦ ok (s, w)
    | some m_id ↦ (do
      (filled, p) ← fill_msm_params s.msms m_id
      guard filled assertion
      let (time, w1) = gettimeofday w
      elim time [
        | none ↦ err assertion
        | some t ↦
            if ltb p.failsafe_stop t.tv_sec
            then (do (s', w2) ← fail m_id s w1; fail_overdue n i s' w2)
            else fail_overdue n (i + 1) s w1
      ])
  ]

  -- `if ((new_m_id = sched_next()) > 0)`. The scheduler's clock is read first.
  unfoldable pub start_next : Loop → World → Result (Loop × World)
  start_next s w = do
    let (t, w0) = now w
    (new_m_id, msms) ← sched_next t s.msms
    if new_m_id == 0 then ok (record s { msms = msms }, w0) else (do
      (found, metas, w1) ← find_and_connect_metas os new_m_id s.metas msms w0
      let s1 = record s { metas = metas; msms = msms }
      if not found then fail new_m_id s1 w1 else (do
        (sent, metas', w2) ← send_auth_metas os new_m_id metas w1
        let s2 = record s1 { known = s.known ++ new_m_id ∷ []; metas = metas' }
        if sent then ok (s2, w2) else fail new_m_id s2 w2))

  -- One of the two blocks that hand the hosts of a measurement to its connections.
  unfoldable pub tell_hosts :
      Bool
      → Action os
      → CsmState
      → ℕ
      → List (Host × Bool)
      → List Meta
      → World
      → Result (Bool × List (Host × Bool) × List Meta × World)
  tell_hosts false act next m_id hosts metas w = ok (true, hosts, metas, w)
  tell_hosts true act next m_id hosts metas w = do
    (told, hosts', metas', w') ← assign_metas os act next m_id hosts metas w
    guard (not told || all_assigned hosts') assertion
    ok (told, hosts', metas', w')

  unfoldable pub start_hosts :
      Bool
      → MsmParams
      → List Meta
      → List Measurement
      → World
      → Result (Bool × List Meta × List Measurement × World)
  start_hosts false p metas msms w = ok (true, metas, msms, w)
  start_hosts true p metas msms w = do
    let (t, w0) = now w
    msms' ← sched_reset_failsafe_stop msms p.id t
    (told, num_told, metas', w') ← start_metas os p.id p.dur metas w0
    guard (not told || (num_told == p.num_m)) assertion
    ok (told, metas', msms', w')

  -- The block for a measurement that is done, at index `i`.
  unfoldable pub finish_if_done : ℕ → ℕ → Loop → World → Result (Next × Loop × World)
  finish_if_done i m_id s w =
      if is_totally_done m_id s.metas
      then (do
        (metas, w') ← finish_metas os m_id s.metas w
        msms ← sched_mark_done s.msms m_id
        ok (
          same_index,
          record s {
            known = take_off i s.known;
            metas = metas;
            msms = msms;
            count_success = s.count_success + 1;
          },
          w',
        ))
      else ok (next_item, s, w)

  unfoldable pub fail_and_end : ℕ → Loop → World → Result (Next × Loop × World)
  fail_and_end m_id s w = do (s', w') ← fail m_id s w; ok (main_loop_end, s', w')

  -- The body of the loop over the known measurements.
  unfoldable pub handle_measurement : ℕ → ℕ → Loop → World → Result (Next × Loop × World)
  handle_measurement i m_id s w = do
    (filled, p) ← fill_msm_params s.msms m_id
    guard filled assertion
    (told1, hosts1, metas1, w1) ←
        tell_hosts (is_totally_authed m_id s.metas) (tell_connect os p.fp) told_connect_target m_id
          (unassigned p.hosts) s.metas w
    if not told1 then fail_and_end m_id (record s { metas = metas1 }) w1 else (do
      (told2, hosts2, metas2, w2) ←
          tell_hosts (is_totally_connected_target m_id metas1) (set_bw os) setting_bw m_id hosts1
            metas1 w1
      if not told2 then fail_and_end m_id (record s { metas = metas2 }) w2 else (do
        (told3, metas3, msms3, w3) ← start_hosts (is_totally_bw_set m_id metas2) p metas2 s.msms w2
        let s3 = record s { metas = metas3; msms = msms3 }
        if not told3 then fail_and_end m_id s3 w3 else finish_if_done i m_id s3 w3))

  -- The loop itself, from index `i`, on fuel as `fail_overdue` is.
  unfoldable pub handle_known : ℕ → ℕ → Loop → World → Result (Next × Loop × World)
  handle_known zero i s w = ok (next_item, s, w)
  handle_known (suc n) i s w = elim (get_elem? s.known i) [
    | none ↦ ok (next_item, s, w)
    | some m_id ↦ (do
      (next, s', w') ← handle_measurement i m_id s w
      elim next [
        | next_item ↦ handle_known n (i + 1) s' w'
        | same_index ↦ handle_known n i s' w'
        | main_loop_end ↦ ok (main_loop_end, s', w')
        | return_error ↦ ok (return_error, s', w')
      ])
  ]
