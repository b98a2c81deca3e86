-- ===== src/FlashFlow/Rounds.antt =====
-- The second half of a round of the main loop: the descriptors that can be read.
use flashflow_research.Prelude.{
  ℕ, zero, suc, ◌+◌, Bool, not, Option, none, some, List, [], ◌∷◌, ◌++◌, Result, ok, err, assertion,
  undefined, ◌>>=◌, ◌>>◌, guard, if◌then◌else◌, length, get_elem?, set,
}
use flashflow_research.Prelude.Int.{ℤ}
use flashflow_research.Os.{Os}
use flashflow_research.Meta.{
  Meta, CsmState, authing, authed, told_connect_target, connected_target, setting_bw, bw_set,
  measuring,
}
use flashflow_research.TorClient.State.{tc_assert_state}
use flashflow_research.TorClient.Handshake.{
  tc_authed_socket, tc_connected_socket, tc_did_set_bw_rate,
}
use flashflow_research.TorClient.Output.{tc_output_result}
use flashflow_research.Sched.{Measurement, sched_finished}
use flashflow_research.FlashFlow.Defs.{fill_msm_params, meta_with_fd, array_contains}
use flashflow_research.FlashFlow.Loop.{
  Loop, Next, next_item, same_index, main_loop_end, return_error, fds_in, fail_and_end,
  check_progress, fail_overdue, start_next, handle_known,
}

-- The variables in front of the `while` loop, once the clients and the schedule are read.
abbrev pub first_state : List Meta → List Measurement → Loop
first_state metas msms = record {
  known = [];
  metas = metas;
  msms = msms;
  loops_without_progress = 0;
  count_success = 0;
  count_failure = 0;
}

-- The four arrays of descriptors.
pub record Fds : Type 0 where
  pub authing_fds : List ℤ
  pub connecting_fds : List ℤ
  pub setting_bw_fds : List ℤ
  pub measuring_fds : List ℤ

unfoldable pub collect_fds : List Meta → Fds
unfolding fds_in
collect_fds metas = record {
  authing_fds = fds_in authing metas;
  connecting_fds = fds_in told_connect_target metas;
  setting_bw_fds = fds_in setting_bw metas;
  measuring_fds = fds_in measuring metas;
}

abbrev pub all_fds : Fds → List ℤ
all_fds f = f.authing_fds ++ f.connecting_fds ++ f.setting_bw_fds ++ f.measuring_fds

module _ (os : Os) where
  open os use {World, epoll_add, epoll_delete}

  unfoldable pub epoll_add_all : List ℤ → World → World
  epoll_add_all [] w = w
  epoll_add_all (fd ∷ fds) w = epoll_add_all fds (epoll_add fd w)

  unfoldable pub epoll_delete_all : List ℤ → World → World
  epoll_delete_all [] w = w
  epoll_delete_all (fd ∷ fds) w = epoll_delete_all fds (epoll_delete fd w)

  -- A response is read on connection `j`, which fails its measurement or comes to the next state.
  unfoldable pub read_response :
      (Meta → World → Result (Bool × Meta × World))
      → CsmState
      → ℕ
      → Meta
      → Loop
      → World
      → Result (Next × Loop × World)
  read_response reader next j m s w = do
    (good, m', w') ← reader m w
    let s' = record s { metas = set s.metas j m' }
    if not good
        then fail_and_end os m'.current_m_id s' w'
        else (do tc_assert_state m' next; ok (next_item, s', w'))

  -- A round up to the loop that fills the arrays of descriptors.
  unfoldable pub prepare_round : Loop → World → Result (Next × Loop × World)
  prepare_round s w = do
    (s1, w1) ← check_progress os s w
    (s2, w2) ← fail_overdue os (length s1.known) 0 s1 w1
    (s3, w3) ← start_next os s2 w2
    handle_known os (length s3.known) 0 s3 w3

-- `out_fd` is `out_rfd->fd`, with `none` for NULL.
module _ (os : Os) (out_fd : Option os.Stream) where
  open os use {World, epoll_wait}

  unfoldable pub read_results : ℕ → Meta → Loop → World → Result (Next × Loop × World)
  read_results j m s w = do
    (filled, p) ← fill_msm_params s.msms m.current_m_id
    guard filled assertion
    (fine, m', w') ← tc_output_result os m p.id p.fp out_fd w
    let s' = record s { metas = set s.metas j m' }
    if not fine then fail_and_end os m'.current_m_id s' w' else ok (next_item, s', w')

  -- The body of the loop over the events. A descriptor of no array is only logged.
  unfoldable pub handle_event : Fds → ℤ → Loop → World → Result (Next × Loop × World)
  handle_event fds fd s w = elim (meta_with_fd fd 0 s.metas) [
    | none ↦ ok (return_error, s, w)
    | some j ↦ elim (get_elem? s.metas j) [
      | none ↦ err undefined
      | some m ↦
          if array_contains fds.authing_fds m.fd
          then read_response os (tc_authed_socket os) authed j m s w
          else if array_contains fds.connecting_fds m.fd
          then read_response os (tc_connected_socket os) connected_target j m s w
          else if array_contains fds.setting_bw_fds m.fd
          then read_response os (tc_did_set_bw_rate os) bw_set j m s w
          else if array_contains fds.measuring_fds m.fd
          then read_results j m s w
          else ok (next_item, s, w)
    ]
  ]

  unfoldable pub handle_events : Fds → List ℤ → Loop → World → Result (Next × Loop × World)
  handle_events fds [] s w = ok (next_item, s, w)
  handle_events fds (fd ∷ events) s w = do
    (next, s', w') ← handle_event fds fd s w
    elim next [
      | next_item ↦ handle_events fds events s' w'
      | same_index ↦ handle_events fds events s' w'
      | main_loop_end ↦ ok (main_loop_end, s', w')
      | return_error ↦ ok (return_error, s', w')
    ]

  -- What follows `epoll_wait`. After an error or a timeout the round made no progress.
  unfoldable pub after_wait : Fds → Option (List ℤ) → Loop → World → Result (Next × Loop × World)
  after_wait fds none s w =
      ok (main_loop_end, record s { loops_without_progress = s.loops_without_progress + 1 }, w)
  after_wait fds (some []) s w =
      ok (main_loop_end, record s { loops_without_progress = s.loops_without_progress + 1 }, w)
  after_wait fds (some (fd ∷ events)) s w =
      handle_events fds (fd ∷ events) (record s { loops_without_progress = 0 }) w

  -- From the loop that fills the arrays to `main_loop_end` and the statements behind it.
  unfoldable pub poll_clients : Loop → World → Result (Next × Loop × World)
  poll_clients s w = do
    let fds = collect_fds s.metas
    let w1 = epoll_add_all os (all_fds fds) w
    elim (all_fds fds) [
      | [] ↦ ok (main_loop_end, s, w1)
      | fd ∷ more ↦ (do
        let (events, w2) = epoll_wait w1
        (next, s', w3) ← after_wait fds events s w2
        elim next [
          | return_error ↦ ok (return_error, s', w3)
          | _ ↦ ok (main_loop_end, s', epoll_delete_all os (all_fds fds) w3)
        ])
    ]

  -- One round of the loop.
  unfoldable pub main_loop_round : Loop → World → Result (Next × Loop × World)
  main_loop_round s w = do
    (next, s', w') ← prepare_round os s w
    elim next [ next_item ↦ poll_clients s' w' | stop ↦ ok (stop, s', w') ]

  -- The `while` loop of main_loop_once, with the number of rounds that are run at most: main_loop_end for
  -- the end of the loop, return_error for the return of -1, and next_item where no round is left.
  unfoldable pub main_loop : ℕ → Loop → World → Result (Next × Loop × World)
  main_loop zero s w = ok (next_item, s, w)
  main_loop (suc rounds) s w = if sched_finished s.msms then ok (main_loop_end, s, w) else (do
    (next, s', w') ← main_loop_round s w
    elim next [ return_error ↦ ok (return_error, s', w') | _ ↦ main_loop rounds s' w' ])
