-- ===== src/Tests/Rounds.antt =====
-- Rounds of the coordinator.
use flashflow_research.Tests.Waits.{reporting, metas_of, network-ClockFits}
use flashflow_research.FlashFlow.Coordinates.{Coordinates, IsOwned-more}
use flashflow_research.FlashFlow.Kept.{Moved-Coordinates}
use flashflow_research.Prelude.{◌≡◌, refl, some, [], ◌∷◌, Returns, All, arith}
use flashflow_research.Prelude.Int.{pos}
use flashflow_research.Prelude.Text.{strtol, scan_digits, skip_space}
use flashflow_research.Meta.{Meta, authing}
use flashflow_research.Sched.{
  find, update, get, sched_get_fp, sched_get_dur, sched_get_failsafe_stop, sched_get_hosts,
  failsafe_at, sched_next_internal, sched_next, sched_mark_done,
}
use flashflow_research.FlashFlow.Plans.{Fits}
use flashflow_research.FlashFlow.Descriptors.Watched.{Sound}
use flashflow_research.FlashFlow.Descriptors.Run.{
  EndsSound, poll_clients-EndsSound, main_loop_round-EndsSound,
}
use flashflow_research.Tests.System.{Table, system, kernel, system-Works, system-KernelWorks}
use flashflow_research.FlashFlow.Fuel.{handle_known-enough}
use flashflow_research.FlashFlow.Connect.{Joins, connect_hosts-Joins}
use flashflow_research.FlashFlow.Finish.{Handled}
use flashflow_research.FlashFlow.Handle.{handle_measurement-Handled}
use flashflow_research.FlashFlow.Prepare.{GoesWell, prepare_round-GoesWell}
use flashflow_research.TorClient.State.{good_change, tc_change_state, tc_assert_state}
use flashflow_research.TorClient.Socket.{
  port_number, tc_mark_failed, connect_to, tc_make_socket, next_available_from, tc_next_available,
  tc_finished_with_meta,
}
use flashflow_research.TorClient.Handshake.{auth_message, send_and_change, tc_auth_socket}
use flashflow_research.FlashFlow.Defs.{
  array_contains, fill_msm_params, all_in_state, is_totally_authed, is_totally_connected_target,
  is_totally_bw_set, is_totally_done, fill_gap, remove_id, fail_metas, measurement_failed,
  connect_hosts, find_and_connect_metas, send_auth_metas,
}
use flashflow_research.FlashFlow.Loop.{
  Loop, fail, fail_all, check_progress, fail_overdue, start_next, tell_hosts, start_hosts,
  finish_if_done, handle_measurement, handle_known,
}
use flashflow_research.FlashFlow.Rounds.{prepare_round, poll_clients, main_loop_round}
use flashflow_research.Tests.Samples.{network, client, unused_client, second}
use flashflow_research.Tests.Coordinator.{metas, agenda, loop, loop-Coordinates, network-ClockWorks}

agenda-Fits : All Fits agenda
agenda-Fits = (
  record { backgrounds = (refl, tt); dur_fits = omega arith },
  (record { backgrounds = (refl, tt); dur_fits = omega arith }, tt),
)

handle_measurement-Handled_example :
    Returns (handle_measurement network 0 1 loop 0) (Handled network agenda [] (1 ∷ []))
handle_measurement-Handled_example =
    handle_measurement-Handled network agenda [] 0 1 loop 0 network-ClockFits agenda-Fits refl
      loop-Coordinates

prepare_round-GoesWell_example : Returns (prepare_round network loop 0) (GoesWell network agenda [])
prepare_round-GoesWell_example =
    prepare_round-GoesWell network agenda [] loop 0 network-ClockWorks network-ClockFits agenda-Fits
      loop-Coordinates

abbrev waiting_client : Meta
waiting_client = client authing 1 (pos 4)

abbrev waiting_loop : Loop
waiting_loop = record loop { metas = waiting_client ∷ unused_client ∷ [] }

-- Its descriptor is open, and none is watched.
abbrev waiting_table : Table
waiting_table = record { open_fds = 4 ∷ []; list = [] }

waiting_loop-Coordinates : Coordinates agenda [] waiting_loop
waiting_loop-Coordinates =
    Moved-Coordinates agenda [] loop (waiting_client ∷ unused_client ∷ [])
      (
        refl,
        record { free = λ e. absurd (omega arith); busy = λ h. (λ e. cc e, λ e. cc e) },
        (refl, loop-Coordinates.manned.owned.1.0.tracked, tt),
      )
      loop-Coordinates

waiting_loop-Sound : Sound system kernel waiting_loop.metas waiting_table
unfolding array_contains
waiting_loop-Sound = record {
  live = λ d. ground arith;
  wired = ((λ used. refl), ((λ used. absurd (used refl)), tt));
  unwatched = λ fd. refl;
}

poll_clients-EndsSound_example :
    Returns
      (poll_clients system (some 0) waiting_loop waiting_table)
      (EndsSound system kernel agenda [])
poll_clients-EndsSound_example =
    poll_clients-EndsSound system kernel (some 0) agenda [] waiting_loop waiting_table system-Works
      system-KernelWorks (λ w fd events e. (0, refl)) waiting_loop-Sound waiting_loop-Coordinates

loop-metas :
    metas_of (prepare_round (reporting (pos 5)) loop 0)
    ≡ client authing 2 (pos 5) ∷ unused_client ∷ []
unfolding prepare_round check_progress fail_all fail measurement_failed fail_metas tc_mark_failed
    tc_finished_with_meta tc_change_state good_change sched_mark_done get find update remove_id
    fill_gap fail_overdue fill_msm_params sched_get_fp sched_get_dur sched_get_failsafe_stop
    sched_get_hosts start_next sched_next sched_next_internal failsafe_at find_and_connect_metas
    connect_hosts tc_next_available next_available_from tc_make_socket connect_to tc_assert_state
    send_auth_metas tc_auth_socket send_and_change auth_message handle_known handle_measurement
    tell_hosts is_totally_authed is_totally_connected_target is_totally_bw_set is_totally_done
    all_in_state start_hosts finish_if_done port_number strtol scan_digits skip_space
loop-metas = refl

loop-Sound : Sound system kernel loop.metas waiting_table
unfolding array_contains
loop-Sound = record {
  live = λ d. ground arith;
  wired = ((λ used. refl), ((λ used. absurd (used refl)), tt));
  unwatched = λ fd. refl;
}

main_loop_round-EndsSound_example :
    Returns (main_loop_round system (some 0) loop waiting_table) (EndsSound system kernel agenda [])
main_loop_round-EndsSound_example =
    main_loop_round-EndsSound system kernel (some 0) agenda [] loop waiting_table system-Works
      system-KernelWorks (λ w fd events e. (0, refl)) agenda-Fits loop-Sound loop-Coordinates

handle_known-enough_example : handle_known network 2 0 loop 0 ≡ handle_known network 1 0 loop 0
handle_known-enough_example =
    handle_known-enough network agenda [] 1 0 loop 0 network-ClockFits agenda-Fits loop-Coordinates
      (omega arith)

connect_hosts-Joins_example :
    Returns
      (connect_hosts network 2 second.hosts metas 0)
      (λ r. Joins (1 ∷ []) 2 second.hosts metas r.0 r.1)
unfolding all_in_state
connect_hosts-Joins_example =
    connect_hosts-Joins (1 ∷ []) 2 network second.hosts metas 0 (omega arith)
      (IsOwned-more (1 ∷ []) 2 metas loop-Coordinates.manned.owned) refl
