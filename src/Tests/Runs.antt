-- ===== src/Tests/Runs.antt =====
-- A run of the coordinator from its files, and its books when it is finished.
use flashflow_research.Tests.Waits.{reporting, metas_of}
use mathlib.Core.List.{Permᴰ}
use mathlib.Core.List.Permᴰ
use flashflow_research.TorClient.ClientFile.{
  make_meta, tc_client_file_read, read_clients, read_client_line, take_tokens, take_token,
  meta_of_tokens,
}
use flashflow_research.FlashFlow.Coordinates.{Coordinates}
use flashflow_research.FlashFlow.Opening.{first_state-Coordinates, RunsOut}
use flashflow_research.FlashFlow.Descriptors.Run.{main_loop-first_state-RunsOut}
use flashflow_research.Tests.System.{
  Table, system, kernel, system-Works, system-KernelWorks, silent_system, silent_kernel,
  silent_system-Works, silent_system-KernelWorks,
}
use flashflow_research.Sched.Parse.{sched_new}
use flashflow_research.RotateFd.{Rotated, rfd_open, open_from, numbered}
use flashflow_research.V3bw.Generate.{Texts}
use flashflow_research.FlashFlow.Main.{main_loop_once}
use flashflow_research.FlashFlow.Whole.{EndsInFailure, main_loop_once-EndsInFailure}
use flashflow_research.Tests.Files.{directory, no_results}
use flashflow_research.Tests.Results.{glib}
use flashflow_research.FlashFlow.Silence.Run.{AllFail, main_loop-AllFail}
use flashflow_research.Sched.Progress.{WellFormed}
use flashflow_research.Tests.Schedule.{schedule_file, file_measurements, file_is_read}
use flashflow_research.Prelude.{
  ℕ, if◌then◌else◌, inr, ◌≡◌, refl, true, none, some, List, [], ◌∷◌, ok, All, arith, ◌+◌,
}
use flashflow_research.Prelude.Int.{ℤ, pos}
use flashflow_research.Prelude.Text.{
  Bytes, bytes_eq, decimal, digits, codes, strtol, split_on, scan_digits, skip_space,
}
use flashflow_research.Meta.{Meta, authing}
use flashflow_research.Sched.{
  Measurement, find, update, get, sched_get_fp, sched_get_dur, sched_get_failsafe_stop,
  sched_get_hosts, failsafe_at, sched_next_internal, sched_next, sched_mark_done, sched_finished,
  complete, ids, sched_num, sched_num_incomplete,
}
use flashflow_research.FlashFlow.Plans.{plans, Fits}
use flashflow_research.Sched.Count.{distinct, all_contained}
use flashflow_research.FlashFlow.Account.{finished-counts}
use flashflow_research.TorClient.State.{good_change, tc_change_state, tc_assert_state}
use flashflow_research.TorClient.Socket.{
  port_number, tc_mark_failed, connect_to, tc_make_socket, next_available_from, tc_next_available,
  tc_finished_with_meta,
}
use flashflow_research.TorClient.Handshake.{auth_message, send_and_change, tc_auth_socket}
use flashflow_research.FlashFlow.Defs.{
  array_contains, fill_msm_params, all_in_state, is_totally_authed, is_totally_connected_target,
  is_totally_bw_set, is_totally_done, fill_gap, remove_id, fail_metas, measurement_failed,
  connect_hosts, find_and_connect_metas, send_auth_metas,
}
use flashflow_research.FlashFlow.Loop.{
  Loop, fail, fail_all, check_progress, fail_overdue, start_next, tell_hosts, start_hosts,
  finish_if_done, handle_measurement, handle_known,
}
use flashflow_research.FlashFlow.Rounds.{prepare_round, first_state, main_loop}
use flashflow_research.Tests.Samples.{measurement, unused_client}
use flashflow_research.Tests.Coordinator.{agenda, loop, loop-Coordinates}

-- Two clients, for the schedule of the other tests.
abbrev client_lines : List Bytes
client_lines = codes "us localhost 9051 secret\n" ∷ codes "bg localhost 9052 secret\n" ∷ []

abbrev file_clients : List Meta
file_clients =
    make_meta (codes "us") (codes "localhost") (codes "9051") (codes "secret")
    ∷ make_meta (codes "bg") (codes "localhost") (codes "9052") (codes "secret")
    ∷ []

clients_are_read : tc_client_file_read (some client_lines) ≡ ok (some file_clients)
unfolding tc_client_file_read read_clients read_client_line take_tokens take_token meta_of_tokens
    split_on make_meta
clients_are_read = refl

identity-perm : (l : List Measurement) → Permᴰ l l
identity-perm l = Permᴰ.refl l

first_state-Coordinates_example :
    Coordinates (plans file_measurements) [] (first_state file_clients file_measurements)
first_state-Coordinates_example =
    first_state-Coordinates (λ l. l) schedule_file (codes "sched.txt") (some client_lines)
      file_clients file_measurements 2 identity-perm clients_are_read file_is_read

-- A client of the file as it waits for measurement 1.
abbrev joined : Bytes → Bytes → ℤ → Meta
joined class port fd = record (make_meta class (codes "localhost") port (codes "secret")) {
  fd = fd;
  state = authing;
  current_m_id = 1;
}

first-metas :
    metas_of (prepare_round (reporting (pos 4)) (first_state file_clients file_measurements) 0)
    ≡ joined (codes "us") (codes "9051") (pos 4) ∷ joined (codes "bg") (codes "9052") (pos 7) ∷ []
unfolding prepare_round check_progress fail_all fail measurement_failed fail_metas tc_mark_failed
    tc_finished_with_meta tc_change_state good_change sched_mark_done get find update remove_id
    fill_gap fail_overdue fill_msm_params sched_get_fp sched_get_dur sched_get_failsafe_stop
    sched_get_hosts start_next sched_next sched_next_internal failsafe_at find_and_connect_metas
    connect_hosts tc_next_available next_available_from tc_make_socket connect_to tc_assert_state
    send_auth_metas tc_auth_socket send_and_change auth_message handle_known handle_measurement
    tell_hosts is_totally_authed is_totally_connected_target is_totally_bw_set is_totally_done
    all_in_state start_hosts finish_if_done port_number strtol scan_digits skip_space make_meta
first-metas = refl

file-Fits : All Fits (plans file_measurements)
file-Fits = (
  record { backgrounds = (refl, (refl, tt)); dur_fits = omega arith },
  (record { backgrounds = (refl, tt); dur_fits = omega arith }, tt),
)

-- Nothing is open, and nothing watched.
abbrev fresh_table : Table
fresh_table = record { open_fds = []; list = [] }

main_loop-first_state-RunsOut_example :
    RunsOut system 2
      (main_loop system (some 0) 12 (first_state file_clients file_measurements) fresh_table)
unfolding array_contains
main_loop-first_state-RunsOut_example =
    main_loop-first_state-RunsOut system kernel (some 0) 12 (λ l. l) schedule_file
      (codes "sched.txt") (some client_lines) file_clients file_measurements 2 fresh_table
      system-Works system-KernelWorks (λ w fd events e. (0, refl)) identity-perm clients_are_read
      file_is_read file-Fits (λ fd. refl)

file-WellFormed : All (WellFormed (λ id. id) (ids file_measurements)) file_measurements
file-WellFormed = (
  record { below = tt; depends_on_known = refl; named_once = refl },
  (record { below = omega arith; depends_on_known = refl; named_once = refl }, tt),
)

main_loop-AllFail_example :
    AllFail silent_system 2
      (main_loop silent_system none 64 (first_state file_clients file_measurements) fresh_table)
unfolding array_contains
main_loop-AllFail_example =
    main_loop-AllFail silent_system silent_kernel none 64 (λ id. id) (λ l. l) schedule_file
      (codes "sched.txt") (some client_lines) file_clients file_measurements 2 fresh_table
      silent_system-Works silent_system-KernelWorks (λ w. inr refl) identity-perm clients_are_read
      file_is_read file-Fits file-WellFormed (λ fd. refl) (omega arith)

-- The files of a turn.
abbrev texts : Texts directory
texts = record no_results {
  read_all = λ name f.
      if bytes_eq name (codes "clients.txt") then some client_lines else schedule_file name;
}

abbrev results : Rotated ℕ
results = record { fname_req = codes "results.txt"; fname = codes "results.txt.0"; fd = some 0 }

results_opened : (rfd_open directory (codes "results.txt") 0).0 ≡ some results
unfolding rfd_open open_from numbered decimal digits
results_opened = refl

main_loop_once-EndsInFailure_example :
    EndsInFailure silent_system directory texts glib
      (λ l. l)
      (λ file. file)
      (λ w rfd f. f)
      silent_kernel
      (λ id. id)
      2
      results
      (codes "results.txt")
      (codes "v3bw.txt")
      1
      (main_loop_once silent_system directory texts glib
        (λ l. l)
        (λ file. file)
        (λ w rfd f. f)
        64
        (codes "flashflow"
          ∷ codes "sched.txt"
          ∷ codes "clients.txt"
          ∷ codes "results.txt"
          ∷ codes "v3bw.txt"
          ∷ [])
        []
        fresh_table
        0)
unfolding array_contains rfd_open open_from numbered sched_new
main_loop_once-EndsInFailure_example =
    main_loop_once-EndsInFailure silent_system directory texts glib (λ l. l) (λ file. file)
      (λ w rfd f. f) silent_kernel (λ id. id) 64 (codes "flashflow") (codes "sched.txt")
      (codes "clients.txt") (codes "results.txt") (codes "v3bw.txt")
      (make_meta (codes "us") (codes "localhost") (codes "9051") (codes "secret"))
      (make_meta (codes "bg") (codes "localhost") (codes "9052") (codes "secret") ∷ [])
      file_measurements 1 results 0 fresh_table 0 silent_system-Works silent_system-KernelWorks
      (λ w. inr refl) identity-perm clients_are_read file_is_read results_opened refl file-Fits
      file-WellFormed (λ fd. refl) (omega arith)

-- The books of a loop whose measurements are all complete.
abbrev both_complete : List Measurement
both_complete = measurement 2 complete (1 ∷ []) (1 ∷ []) ∷ measurement 1 complete [] [] ∷ []

abbrev finished_loop : Loop
finished_loop = record loop {
  known = [];
  metas = unused_client ∷ [];
  msms = both_complete;
  count_success = 1;
  count_failure = 1;
}

finished_loop-Coordinates : Coordinates agenda (1 ∷ 2 ∷ []) finished_loop
finished_loop-Coordinates = record {
  manned = record {
    owned = (
      record {
        tracked = loop-Coordinates.manned.owned.1.0.tracked;
        owner = refl;
        background = refl;
      },
      tt,
    );
    staffed = tt;
  };
  scheduled = record {
    tracked = (
      record { finished = refl; completed = refl; named = omega arith },
      (record { finished = refl; completed = refl; named = omega arith }, tt),
    );
    unique = refl;
    once = refl;
  };
  once = refl;
  running = tt;
  known_run = (refl, (refl, tt));
  plans_kept = refl;
  counted = refl;
  within = refl;
}

finished-counts_example :
    (finished_loop.known ≡ [])
    × (distinct (1 ∷ 2 ∷ []) ≡ true)
    × (all_contained (1 ∷ 2 ∷ []) (ids both_complete) ≡ true)
    × (1 + 1 ≡ sched_num both_complete)
unfolding sched_finished sched_num_incomplete
finished-counts_example =
    finished-counts agenda (1 ∷ 2 ∷ []) finished_loop finished_loop-Coordinates refl
