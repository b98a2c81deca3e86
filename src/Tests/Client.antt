-- ===== src/Tests/Client.antt =====
-- The connections to the Tor clients, and the file that lists them.
use flashflow_research.Prelude.{
  ℕ, zero, suc, ◌≤◌, ◌<◌, ◌≡◌, ◌≢◌, ◌⊎◌, refl, true, false, some, [], ◌∷◌, ◌++◌, Returns, ok, err,
  assertion, arith, All, replicate, take, if◌then◌else◌,
}
use flashflow_research.Prelude.Int.{pos, negsuc, is_neg}
use flashflow_research.Prelude.Text.{Bytes, codes, snprintf, split_on}
use flashflow_research.Meta.{Meta, connected, authing, authed, done, failed}
use flashflow_research.Os.{Timeval}
use flashflow_research.Meta.{measuring}
use flashflow_research.TorClient.Output.{trim_line_ends, tc_output_result}
use flashflow_research.TorClient.Output.Laws.{IsUsable, output_outcome, tc_output_result-outcome}
use flashflow_research.TorClient.State.{tc_change_state}
use flashflow_research.TorClient.Lifecycle.{
  Step, change_all, handshake, EndsWith, tc_change_state_lem, change_all-handshake,
}
use flashflow_research.TorClient.Socket.{tc_next_available, tc_finished_with_meta}
use flashflow_research.TorClient.Usage.{
  IsTracked, released, FindsAvailable, tc_finished_with_meta_lem, tc_next_available-FindsAvailable,
}
use flashflow_research.TorClient.Exchange.{
  auth, run_sender, authed_reader, run_reader, read_result, command, run_sender_lem, run_reader_lem,
}
use flashflow_research.TorClient.Handshake.{auth_message}
use flashflow_research.TorClient.Password.{auth_message_fits}
use flashflow_research.TorClient.ClientFile.{
  max_num_ctrl_socks, read_client_line, tc_client_file_read,
}
use flashflow_research.TorClient.ClientFile.Lines.{
  line_result, clients, read_client_line_lem, tc_client_file_read-clients,
}
use flashflow_research.Tests.Samples.{network, client, unused_client, busy_client}

tc_change_state_lem_example :
    (Step authed done
      × (tc_change_state busy_client done ≡ ok (record busy_client { state = done })))
    ⊎ ((¬ Step authed done) × (tc_change_state busy_client done ≡ err assertion))
tc_change_state_lem_example = tc_change_state_lem busy_client done

two_changes : change_all unused_client (connected ∷ authing ∷ []) ≡ ok (client authing 0 (negsuc 0))
unfolding change_all tc_change_state
two_changes = refl

change_all-handshake_example : EndsWith (connected ∷ authing ∷ []) (handshake authing)
change_all-handshake_example =
    change_all-handshake unused_client (connected ∷ authing ∷ []) refl two_changes

both-IsTracked : All IsTracked (busy_client ∷ unused_client ∷ [])
both-IsTracked = (
  record { free = λ e. absurd (omega arith); busy = λ h. (λ e. ground arith, λ e. ground arith) },
  (record { free = λ e. refl; busy = λ h. absurd (omega arith) }, tt),
)

tc_next_available-FindsAvailable_example :
    Returns
      (tc_next_available network (busy_client ∷ unused_client ∷ []) (codes "us") 0)
      (FindsAvailable network 0 (busy_client ∷ unused_client ∷ []) (codes "us"))
tc_next_available-FindsAvailable_example =
    tc_next_available-FindsAvailable network (busy_client ∷ unused_client ∷ []) (codes "us") 0
      both-IsTracked

abbrev over : Meta
over = client done 1 (pos 4)

tc_finished_with_meta_lem_example :
    (((over.state ≡ done) ⊎ (over.state ≡ failed))
      × (tc_finished_with_meta network over 0 ≡ ok (released over, 1)))
    ⊎ ((over.state ≢ done)
        × (over.state ≢ failed)
        × (tc_finished_with_meta network over 0 ≡ err assertion))
tc_finished_with_meta_lem_example = tc_finished_with_meta_lem network over 0

abbrev fresh : Meta
fresh = client connected 1 (pos 4)

run_sender_lem_example : run_sender network auth fresh 0 ≡ (
    if is_neg (network.send (pos 4) (command auth fresh) 0).0
    then ok (false, fresh, 1)
    else ok (true, client authing 1 (pos 4), 1))
run_sender_lem_example = run_sender_lem network auth fresh 0 refl refl

abbrev waiting_client : Meta
waiting_client = client authing 1 (pos 4)

run_reader_lem_example :
    ((waiting_client.state ≡ authing)
      × (run_reader network authed_reader waiting_client 0
          ≡ read_result network authed_reader waiting_client 0 (some (codes "250 OK\n"), 1)))
    ⊎ ((waiting_client.state ≢ authing)
        × (run_reader network authed_reader waiting_client 0 ≡ err assertion))
run_reader_lem_example = run_reader_lem network authed_reader waiting_client 0

no_end_in : (n : ℕ) → All (λ (c : ℕ). c ≢ 10) (replicate n b'x')
no_end_in zero = tt
no_end_in (suc n) = (omega arith, no_end_in n)

auth_message_fits_example :
    ((64 ≤ 63)
      × (snprintf 80 (auth_message (some (replicate 64 b'x')))
          ≡ codes "AUTHENTICATE \"" ++ replicate 64 b'x' ++ codes "\"\n"))
    ⊎ ((63 < 64) × All (λ c. c ≢ 10) (snprintf 80 (auth_message (some (replicate 64 b'x')))))
auth_message_fits_example = auth_message_fits (replicate 64 b'x') (no_end_in 64)

abbrev line_of_four : Bytes
line_of_four = codes "us localhost 9051 secret\n"

read_client_line_lem_example : read_client_line line_of_four ≡ line_result line_of_four
read_client_line_lem_example = read_client_line_lem line_of_four

tc_client_file_read-clients_example :
    tc_client_file_read (some (line_of_four ∷ []))
    ≡ ok (some (take max_num_ctrl_socks (clients (line_of_four ∷ []))))
unfolding split_on
tc_client_file_read-clients_example = tc_client_file_read-clients (line_of_four ∷ []) (tt, tt)

abbrev measuring_client : Meta
measuring_client = client measuring 1 (pos 4)

abbrev start_time : Timeval
start_time = record { tv_sec = 1000; tv_usec = 0 }

received-IsUsable : IsUsable network (some (codes "250 OK\n"))
unfolding trim_line_ends
received-IsUsable = (omega arith, λ e. cc)

tc_output_result-outcome_example :
    tc_output_result network measuring_client 1 (codes "AAAA") (some 0) 0
    ≡ ok (
        output_outcome network measuring_client 1
          (codes "AAAA")
          0
          start_time
          (some (codes "250 OK\n"), 2))
tc_output_result-outcome_example =
    tc_output_result-outcome network measuring_client 1 (codes "AAAA") 0 0 start_time refl refl
      received-IsUsable
