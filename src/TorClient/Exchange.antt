-- ===== src/TorClient/Exchange.antt =====
-- The commands and responses of the handshake, on every branch.
use flashflow_research.Prelude.{
  ℕ, ◌≡◌, ◌≢◌, ◌⊎◌, inl, inr, refl, Bool, true, false, not, ◌||◌, Option, none, some, ◌++◌, Result,
  ok, err, assertion, undefined, arith, ◌==◌, Bool-cases, length, drop, ltb, if◌then◌else◌,
}
use flashflow_research.Prelude.Int.{is_neg}
use flashflow_research.Prelude.Text.{Bytes, codes, has_prefix, snprintf}
use flashflow_research.Os.{Os}
use flashflow_research.Meta.{
  Meta, CsmState, connected, authing, authed, told_connect_target, connected_target, setting_bw,
  bw_set, measuring, state_number,
}
use flashflow_research.TorClient.State.{good_change, tc_change_state, tc_assert_state}
use flashflow_research.TorClient.Handshake.{
  read_buf_len, auth_message, connect_message, bw_message, start_message, send_and_change, receive,
  expect_response, tc_auth_socket, tc_authed_socket, tc_tell_connect, tc_connected_socket,
  tc_set_bw_rate, tc_did_set_bw_rate, tc_start_measurement,
}

-- The functions that send a command, with their arguments.
pub data Sender : Type 0 where
  auth : Sender
  tell_connect : Bytes → ℕ → Sender
  set_bw : ℕ → Sender
  start : ℕ → Sender

-- The state in which each is to be called, the one it leads to, and the buffer that it sends.
abbrev pub sends_in : Sender → CsmState
sends_in auth = connected
sends_in (tell_connect fp conns) = authed
sends_in (set_bw bw) = connected_target
sends_in (start dur) = bw_set

abbrev pub sends_to : Sender → CsmState
sends_to auth = authing
sends_to (tell_connect fp conns) = told_connect_target
sends_to (set_bw bw) = setting_bw
sends_to (start dur) = measuring

abbrev pub command : Sender → Meta → Bytes
command auth m = snprintf 80 (auth_message m.pw)
command (tell_connect fp conns) m = snprintf 1024 (connect_message fp conns m.is_bg)
command (set_bw bw) m = snprintf 1024 (bw_message bw m.is_bg)
command (start dur) m = snprintf 80 (start_message dur)

-- A background client is told to open one connection.
abbrev pub allowed : Sender → Meta → Bool
allowed (tell_connect fp conns) m = not m.is_bg || (conns == 1)
allowed _ m = true

-- The functions that read a response.
pub data Reader : Type 0 where
  authed_reader connected_reader did_set_bw_reader : Reader

abbrev pub reads_in : Reader → CsmState
reads_in authed_reader = authing
reads_in connected_reader = told_connect_target
reads_in did_set_bw_reader = setting_bw

abbrev pub reads_to : Reader → CsmState
reads_to authed_reader = authed
reads_to connected_reader = connected_target
reads_to did_set_bw_reader = bw_set

abbrev pub good_response : Reader → Bytes
good_response authed_reader = codes "250 OK"
good_response connected_reader = codes "250 SPEEDTESTING"
good_response did_set_bw_reader = codes "250 OK"

pub state_number-injective : (s t : CsmState) → (state_number s == state_number t) ≡ true → s ≡ t
state_number-injective s t h = ground arith

module _ (os : Os) where
  open os use {World, send, recv, stack}

  abbrev pub run_sender : Sender → Meta → World → Result (Bool × Meta × World)
  run_sender auth m w = tc_auth_socket os m w
  run_sender (tell_connect fp conns) m w = tc_tell_connect os m fp conns w
  run_sender (set_bw bw) m w = tc_set_bw_rate os m bw w
  run_sender (start dur) m w = tc_start_measurement os m dur w

  abbrev pub run_reader : Reader → Meta → World → Result (Bool × Meta × World)
  run_reader authed_reader m w = tc_authed_socket os m w
  run_reader connected_reader m w = tc_connected_socket os m w
  run_reader did_set_bw_reader m w = tc_did_set_bw_rate os m w

  send_and_change_lem :
      (m : Meta) (msg : Bytes) (s t : CsmState) (w : World)
      → m.state ≡ s
      → good_change s t ≡ true
      → send_and_change os m msg t w ≡ (
          if is_neg (send m.fd msg w).0
          then ok (false, m, (send m.fd msg w).1)
          else ok (true, record m { state = t }, (send m.fd msg w).1))
  unfolding send_and_change tc_change_state
  send_and_change_lem m msg s t w h g = ground arith

  -- A sender that is called in its state, with arguments that it allows, sends its command once. If
  -- the call fails it returns false and the connection is as it was; else it returns true and the
  -- state is the next one, with all else as it was.
  pub run_sender_lem :
      (c : Sender) (m : Meta) (w : World)
      → m.state ≡ sends_in c
      → allowed c m ≡ true
      → run_sender c m w ≡ (
          if is_neg (send m.fd (command c m) w).0
          then ok (false, m, (send m.fd (command c m) w).1)
          else ok (true, record m { state = sends_to c }, (send m.fd (command c m) w).1))
  unfolding tc_auth_socket tc_tell_connect tc_set_bw_rate tc_start_measurement tc_assert_state
      good_change
  run_sender_lem auth m w h a =
      ground (arith, send_and_change_lem m (command auth m) _ authing w h refl)
  run_sender_lem (tell_connect fp conns) m w h a = ground (
    arith,
    send_and_change_lem m (command (tell_connect fp conns) m) _ told_connect_target w h refl,
  )
  run_sender_lem (set_bw bw) m w h a =
      ground (arith, send_and_change_lem m (command (set_bw bw) m) _ setting_bw w h refl)
  run_sender_lem (start dur) m w h a = send_and_change_lem m _ _ _ w h refl

  -- What a reader makes of a receipt: nothing, or the array filled in front by what arrived.
  abbrev pub read_result :
      Reader → Meta → World → Option Bytes × World → Result (Bool × Meta × World)
  read_result r m w (none, w') = ok (false, m, w')
  read_result r m w (some b, w') =
      if has_prefix (good_response r) (b ++ drop (length b) (stack read_buf_len w))
      then ok (true, record m { state = reads_to r }, w')
      else if ltb (length b) read_buf_len
      then ok (false, m, w')
      else err undefined

  expect_response_lem :
      (r : Reader) (m : Meta) (w : World)
      → good_change m.state (reads_to r) ≡ true
      → expect_response os (good_response r) m (reads_to r) w
        ≡ read_result r m w (recv m.fd read_buf_len w)
  unfolding expect_response receive tc_change_state
  expect_response_lem r m w g = ground arith

  run_reader-in_state :
      (r : Reader) (m : Meta) (w : World)
      → m.state ≡ reads_in r
      → run_reader r m w ≡ read_result r m w (recv m.fd read_buf_len w)
  unfolding tc_authed_socket tc_connected_socket tc_did_set_bw_rate tc_assert_state good_change
  run_reader-in_state authed_reader m w h = ground (arith, expect_response_lem authed_reader m w)
  run_reader-in_state connected_reader m w h =
      ground (arith, expect_response_lem connected_reader m w)
  run_reader-in_state did_set_bw_reader m w h =
      ground (arith, expect_response_lem did_set_bw_reader m w)

  run_reader-out_of_state :
      (r : Reader) (m : Meta) (w : World) → m.state ≢ reads_in r → run_reader r m w ≡ err assertion
  unfolding tc_authed_socket tc_connected_socket tc_did_set_bw_rate tc_assert_state
  run_reader-out_of_state authed_reader m w h = ground arith
  run_reader-out_of_state connected_reader m w h = ground arith
  run_reader-out_of_state did_set_bw_reader m w h = ground arith

  -- A reader that is called in its state reads once. It returns false, and leaves the connection as it
  -- was, when the read fails or the response is another one; it returns true, and only the state
  -- changes, to the next one, when the array starts with the good response. An unknown response that
  -- fills the array is undefined behaviour. In any other state the call is a failed assertion.
  pub run_reader_lem :
      (r : Reader) (m : Meta) (w : World)
      → ((m.state ≡ reads_in r) × (run_reader r m w ≡ read_result r m w (recv m.fd read_buf_len w)))
        ⊎ ((m.state ≢ reads_in r) × (run_reader r m w ≡ err assertion))
  run_reader_lem r m w = elim (Bool-cases (state_number m.state == state_number (reads_in r))) [
    | inl same ↦
        let here = state_number-injective m.state (reads_in r) same in
        inl (here, run_reader-in_state r m w here)
    | inr other ↦
        let apart : m.state ≢ reads_in r = λ e. ground arith in
        inr (apart, run_reader-out_of_state r m w apart)
  ]
