-- ===== src/FlashFlow/Descriptors/Exchange.antt =====
-- torclient.c: commands, responses and results leave the descriptors alone.
use flashflow_research.Prelude.{
  ℕ, ◌≢◌, Bool, true, false, Option, none, some, List, [], ◌∷◌, ok, err, undefined, ◌>>=◌, ◌>>◌,
  guard, Ensures, Ensures-bind, Ensures-any, Ensures-if, Ensures-map, Bool-cases, inl, inr, ltb,
  if◌then◌else◌, ◌++◌, length, drop,
}
use flashflow_research.Prelude.Int.{is_neg}
use flashflow_research.Prelude.Text.{
  Bytes, codes, c_string, split_on, is_empty, has_prefix, has_substring,
}
use flashflow_research.Os.{Os, Timeval}
use flashflow_research.Meta.{
  Meta, CsmState, connected, authing, authed, told_connect_target, connected_target, setting_bw,
  bw_set, measuring, done,
}
use flashflow_research.TorClient.State.{tc_change_state, tc_assert_state}
use flashflow_research.TorClient.Handshake.{
  read_buf_len, send_and_change, receive, expect_response, tc_auth_socket, tc_authed_socket,
  tc_tell_connect, tc_connected_socket, tc_set_bw_rate, tc_did_set_bw_rate, tc_start_measurement,
}
use flashflow_research.TorClient.Output.{
  is_newline, trim_line_ends, result_line, print_line, print_tokens, output_received,
  tc_output_result,
}
use flashflow_research.FlashFlow.Descriptors.{
  Kernel, KernelWorks, Keeps, Calm-Keeps, Keeps-refl, Keeps-trans,
}
use flashflow_research.FlashFlow.Descriptors.Client.{Kept, change_state-Keeps}

module _ (os : Os) (k : Kernel os) (works : KernelWorks os k) where
  open os use {World, send, recv, gettimeofday, print, Stream}

  -- A change of state behind calls that keep to the rule.
  change_after :
      (m : Meta) (t : CsmState) (w w' : World)
      → t ≢ connected
      → Keeps os k (m ∷ []) w (m ∷ []) w'
      → Ensures (do m' ← tc_change_state m t; ok (true, m', w')) (Kept os k works m w)
  change_after m t w w' n h =
      Ensures-bind (λ m'. Keeps os k (m ∷ []) w' (m' ∷ []) w') (Kept os k works m w)
        (tc_change_state m t) _ (change_state-Keeps os k works m t w' n)
        λ m' e. Keeps-trans os k (m ∷ []) (m ∷ []) (m' ∷ []) w w' w' h e

  send_and_change-Keeps :
      (m : Meta) (msg : Bytes) (t : CsmState) (w : World)
      → t ≢ connected
      → Ensures (send_and_change os m msg t w) (Kept os k works m w)
  unfolding send_and_change
  send_and_change-Keeps m msg t w n =
      let sent = Calm-Keeps os k (m ∷ []) w _ (works.send_calm m.fd msg w) in
      Ensures-if (Kept os k works m w) (is_neg (send m.fd msg w).0) _ _ (λ neg. sent)
        λ fine. change_after m t w (send m.fd msg w).1 n sent

  pub tc_auth_socket-Keeps :
      (m : Meta) (w : World) → Ensures (tc_auth_socket os m w) (Kept os k works m w)
  unfolding tc_auth_socket
  tc_auth_socket-Keeps m w = Ensures-any (Kept os k works m w) (tc_assert_state m connected) _ λ u.
      Ensures-any (Kept os k works m w) (tc_assert_state m connected) _
        λ v. send_and_change-Keeps m _ authing w (λ e. cc e)

  pub tc_tell_connect-Keeps :
      (m : Meta) (fp : Bytes) (conns : ℕ) (w : World)
      → Ensures (tc_tell_connect os m fp conns w) (Kept os k works m w)
  unfolding tc_tell_connect
  tc_tell_connect-Keeps m fp conns w =
      Ensures-any (Kept os k works m w) (tc_assert_state m authed) _ λ u.
        Ensures-any (Kept os k works m w) (guard _ _) _
          λ v. send_and_change-Keeps m _ told_connect_target w (λ e. cc e)

  pub tc_set_bw_rate-Keeps :
      (m : Meta) (bw : ℕ) (w : World) → Ensures (tc_set_bw_rate os m bw w) (Kept os k works m w)
  unfolding tc_set_bw_rate
  tc_set_bw_rate-Keeps m bw w =
      Ensures-any (Kept os k works m w) (tc_assert_state m connected_target) _
        λ u. send_and_change-Keeps m _ setting_bw w (λ e. cc e)

  pub tc_start_measurement-Keeps :
      (m : Meta) (dur : ℕ) (w : World)
      → Ensures (tc_start_measurement os m dur w) (Kept os k works m w)
  unfolding tc_start_measurement
  tc_start_measurement-Keeps m dur w = send_and_change-Keeps m _ measuring w (λ e. cc e)

  expect_response-Keeps :
      (good : Bytes) (m : Meta) (t : CsmState) (w : World)
      → t ≢ connected
      → Ensures (expect_response os good m t w) (Kept os k works m w)
  unfolding expect_response receive
  expect_response-Keeps good m t w n = arrived (recv m.fd read_buf_len w).0
    where
      w' : World
      w' = (recv m.fd read_buf_len w).1

      read : Keeps os k (m ∷ []) w (m ∷ []) w'
      read = Calm-Keeps os k (m ∷ []) w w' (works.recv_calm m.fd read_buf_len w)

      arrived :
          (r : Option Bytes)
          → Ensures {A = Bool × Meta × World}
              (elim (elim r as (λ x. Option (Bytes × ℕ)) [
                | none ↦ none
                | some b ↦ some (b ++ drop (length b) (os.stack read_buf_len w), length b)
              ]) [
                | none ↦ ok (false, m, w')
                | some (buf, len) ↦
                    if has_prefix good buf
                    then (do meta' ← tc_change_state m t; ok (true, meta', w'))
                    else (do guard (ltb len read_buf_len) undefined; ok (false, m, w'))
              ])
              (Kept os k works m w)
      arrived none = read
      arrived (some b) =
          Ensures-if (Kept os k works m w)
            (has_prefix good (b ++ drop (length b) (os.stack read_buf_len w))) _ _
            (λ fine. change_after m t w w' n read)
            λ other.
              Ensures-any (Kept os k works m w) (guard (ltb (length b) read_buf_len) undefined) _
                λ u. read

  pub tc_authed_socket-Keeps :
      (m : Meta) (w : World) → Ensures (tc_authed_socket os m w) (Kept os k works m w)
  unfolding tc_authed_socket
  tc_authed_socket-Keeps m w =
      Ensures-any (Kept os k works m w) (tc_assert_state m authing) _
        λ u. expect_response-Keeps _ m authed w (λ e. cc e)

  pub tc_connected_socket-Keeps :
      (m : Meta) (w : World) → Ensures (tc_connected_socket os m w) (Kept os k works m w)
  unfolding tc_connected_socket
  tc_connected_socket-Keeps m w =
      Ensures-any (Kept os k works m w) (tc_assert_state m told_connect_target) _
        λ u. expect_response-Keeps _ m connected_target w (λ e. cc e)

  pub tc_did_set_bw_rate-Keeps :
      (m : Meta) (w : World) → Ensures (tc_did_set_bw_rate os m w) (Kept os k works m w)
  unfolding tc_did_set_bw_rate
  tc_did_set_bw_rate-Keeps m w =
      Ensures-any (Kept os k works m w) (tc_assert_state m setting_bw) _
        λ u. expect_response-Keeps _ m bw_set w (λ e. cc e)

  print_tokens-Keeps :
      (m : Meta) (line : Bytes → Bytes) (tokens : List Bytes) (out_fd : Option Stream) (w : World)
      → Ensures (print_tokens os line tokens out_fd w) (Keeps os k (m ∷ []) w (m ∷ []))
  unfolding print_tokens print_line
  print_tokens-Keeps m line [] out_fd w = Keeps-refl os k (m ∷ []) w
  print_tokens-Keeps m line (t ∷ ts) none w = elim (Bool-cases (is_empty t)) [
    | inl empty ↦ rw empty (print_tokens-Keeps m line ts none w)
    | inr text ↦ rw text tt
  ]
  print_tokens-Keeps m line (t ∷ ts) (some file) w = elim (Bool-cases (is_empty t)) [
    | inl empty ↦ rw empty (print_tokens-Keeps m line ts (some file) w)
    | inr text ↦ rw text (
        Ensures-map (print_tokens os line ts (some file) (print file (line t) w))
          (print_tokens-Keeps m line ts (some file) (print file (line t) w))
          λ w' h.
            Keeps-trans os k (m ∷ []) (m ∷ []) (m ∷ []) w (print file (line t) w) w'
              (Calm-Keeps os k (m ∷ []) w _ (works.print_calm file (line t) w)) h)
  ]

  output_received-Keeps :
      (t : Timeval) (received : Bytes) (m : Meta) (m_id : ℕ) (fp : Bytes) (out_fd : Option Stream)
      (w0 w : World)
      → Keeps os k (m ∷ []) w0 (m ∷ []) w
      → Ensures (output_received os t received m m_id fp out_fd w) (Kept os k works m w0)
  unfolding output_received
  output_received-Keeps t received m m_id fp out_fd w0 w h =
      Ensures-any (Kept os k works m w0) (guard _ _) _ λ u. trimmed (trim_line_ends received)
    where
      trimmed :
          (r : Option Bytes)
          → Ensures
              (elim r [
                | none ↦ err undefined
                | some kept ↦ (do
                  let buf = c_string kept
                  w' ← print_tokens os (result_line t m_id fp m) (split_on is_newline buf) out_fd w
                  if has_substring (codes "650 SPEEDTESTING END") buf
                      then (do meta' ← tc_change_state m done; ok (true, meta', w'))
                      else ok (true, m, w'))
              ])
              (Kept os k works m w0)
      trimmed none = tt
      trimmed (some kept) =
          let line = result_line t m_id fp m in
          let tokens = split_on is_newline (c_string kept) in
          Ensures-bind (Keeps os k (m ∷ []) w (m ∷ [])) (Kept os k works m w0)
            (print_tokens os line tokens out_fd w) _ (print_tokens-Keeps m line tokens out_fd w)
            λ w' same.
              let printed = Keeps-trans os k (m ∷ []) (m ∷ []) (m ∷ []) w0 w w' h same in
              Ensures-if (Kept os k works m w0)
                (has_substring (codes "650 SPEEDTESTING END") (c_string kept)) _ _
                (λ end. change_after m done w0 w' (λ e. cc e) printed) λ more. printed

  pub tc_output_result-Keeps :
      (m : Meta) (m_id : ℕ) (fp : Bytes) (out_fd : Option Stream) (w : World)
      → Ensures (tc_output_result os m m_id fp out_fd w) (Kept os k works m w)
  unfolding tc_output_result
  tc_output_result-Keeps m m_id fp out_fd w = timed (gettimeofday w).0
    where
      w1 : World
      w1 = (gettimeofday w).1

      w2 : World
      w2 = (recv m.fd read_buf_len w1).1

      clock : Keeps os k (m ∷ []) w (m ∷ []) w1
      clock = Calm-Keeps os k (m ∷ []) w w1 (works.gettimeofday_calm w)

      read : Keeps os k (m ∷ []) w (m ∷ []) w2
      read =
          Keeps-trans os k (m ∷ []) (m ∷ []) (m ∷ []) w w1 w2 clock
            (Calm-Keeps os k (m ∷ []) w1 w2 (works.recv_calm m.fd read_buf_len w1))

      arrived :
          (t : Timeval) (r : Option Bytes)
          → Ensures {A = Bool × Meta × World}
              (elim r [
                | none ↦ ok (false, m, w2)
                | some [] ↦ (do meta' ← tc_change_state m done; ok (true, meta', w2))
                | some (c ∷ s) ↦ output_received os t (c ∷ s) m m_id fp out_fd w2
              ])
              (Kept os k works m w)
      arrived t none = read
      arrived t (some []) = change_after m done w w2 (λ e. cc e) read
      arrived t (some (c ∷ s)) = output_received-Keeps t (c ∷ s) m m_id fp out_fd w w2 read

      timed :
          (now : Option Timeval)
          → Ensures {A = Bool × Meta × World}
              (elim now [
                | none ↦ ok (false, m, w1)
                | some t ↦ elim (recv m.fd read_buf_len w1).0 [
                  | none ↦ ok (false, m, w2)
                  | some [] ↦ (do meta' ← tc_change_state m done; ok (true, meta', w2))
                  | some (c ∷ s) ↦ output_received os t (c ∷ s) m m_id fp out_fd w2
                ]
              ])
              (Kept os k works m w)
      timed none = clock
      timed (some t) = arrived t (recv m.fd read_buf_len w1).0
