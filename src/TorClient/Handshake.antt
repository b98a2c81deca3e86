-- ===== src/TorClient/Handshake.antt =====
-- The functions of torclient.c that take a connection from `connected` to `measuring`: each sends a
-- command or reads a response, and returns whether that went well. Log lines are left out, and
-- `snprintf` does not fail on these formats.
use flashflow_research.Prelude.{
  ℕ, ◌-◌, ◌^◌, Bool, true, false, not, ◌||◌, Option, none, some, [], ◌++◌, Result, ok, assertion,
  undefined, ◌>>=◌, ◌>>◌, guard, ltb, ◌==◌, if◌then◌else◌, length, drop,
}
use flashflow_research.Prelude.Int.{ℤ, pos, negsuc, is_neg}
use flashflow_research.Prelude.Text.{Bytes, codes, has_prefix, decimal, snprintf}
use flashflow_research.Os.{Os}
use flashflow_research.Meta.{
  Meta, CsmState, connected, authing, authed, told_connect_target, connected_target, setting_bw,
  bw_set, measuring, signed_decimal,
}
use flashflow_research.TorClient.State.{tc_change_state, tc_assert_state}

-- READ_BUF_LEN
abbrev pub read_buf_len : ℕ
read_buf_len = 8192

-- The texts that the functions print to their buffers.
unfoldable pub auth_message : Option Bytes → Bytes
auth_message none = codes "AUTHENTICATE \"" ++ [] ++ codes "\"\n"
auth_message (some pw) = codes "AUTHENTICATE \"" ++ pw ++ codes "\"\n"

unfoldable pub connect_message : Bytes → ℕ → Bool → Bytes
connect_message fp conns is_bg =
    codes "TESTSPEED "
    ++ fp
    ++ codes " "
    ++ decimal conns
    ++ (if is_bg then codes " BG" else [])
    ++ codes "\n"

unfoldable pub bw_message : ℕ → Bool → Bytes
bw_message bw is_bg =
    codes "RESETCONF BandwidthRate="
    ++ decimal bw
    ++ codes " BandwidthBurst="
    ++ decimal bw
    ++ codes " SchedulerEchoCellMustAccumulate="
    ++ decimal (if is_bg then 1 else 32)
    ++ codes "\n"

-- An `unsigned` that is read as an `int`.
abbrev pub as_int : ℕ → ℤ
as_int n = if ltb n (2 ^ 31) then pos n else negsuc (2 ^ 32 - 1 - n)

unfoldable pub start_message : ℕ → Bytes
start_message dur = codes "TESTSPEED " ++ signed_decimal (as_int dur) ++ codes "\n"

module _ (os : Os) where
  open os use {World, send, recv, stack}

  -- `if (send(…) < 0) return 0;` and the change of state behind it.
  unfoldable pub send_and_change : Meta → Bytes → CsmState → World → Result (Bool × Meta × World)
  send_and_change meta msg next w = do
    let (sent, w') = send meta.fd msg w
    if is_neg sent
        then ok (false, meta, w')
        else (do meta' ← tc_change_state meta next; ok (true, meta', w'))

  unfoldable pub tc_auth_socket : Meta → World → Result (Bool × Meta × World)
  tc_auth_socket meta w = do
    tc_assert_state meta connected
    tc_assert_state meta connected
    send_and_change meta (snprintf 80 (auth_message meta.pw)) authing w

  -- `recv` into an array on the stack: the array as it is then, and the number of bytes received.
  unfoldable pub receive : ℤ → World → Option (Bytes × ℕ) × World
  receive fd w = do
    let (r, w') = recv fd read_buf_len w
    (
      elim r [
        | none ↦ none
        | some b ↦ some (b ++ drop (length b) (stack read_buf_len w), length b)
      ],
      w',
    )

  -- The body shared by the three readers of responses. After an unknown response `buf[len] = '\0'`
  -- is a write past the array when the response filled it.
  unfoldable pub expect_response : Bytes → Meta → CsmState → World → Result (Bool × Meta × World)
  expect_response good_resp meta next w = do
    let (r, w') = receive meta.fd w
    elim r [
      | none ↦ ok (false, meta, w')
      | some (buf, len) ↦
          if has_prefix good_resp buf
          then (do meta' ← tc_change_state meta next; ok (true, meta', w'))
          else (do guard (ltb len read_buf_len) undefined; ok (false, meta, w'))
    ]

  unfoldable pub tc_authed_socket : Meta → World → Result (Bool × Meta × World)
  tc_authed_socket meta w = do
    tc_assert_state meta authing
    expect_response (codes "250 OK") meta authed w

  unfoldable pub tc_tell_connect : Meta → Bytes → ℕ → World → Result (Bool × Meta × World)
  tc_tell_connect meta fp conns w = do
    tc_assert_state meta authed
    guard (not meta.is_bg || (conns == 1)) assertion
    send_and_change meta (snprintf 1024 (connect_message fp conns meta.is_bg)) told_connect_target w

  unfoldable pub tc_connected_socket : Meta → World → Result (Bool × Meta × World)
  tc_connected_socket meta w = do
    tc_assert_state meta told_connect_target
    expect_response (codes "250 SPEEDTESTING") meta connected_target w

  unfoldable pub tc_set_bw_rate : Meta → ℕ → World → Result (Bool × Meta × World)
  tc_set_bw_rate meta bw w = do
    tc_assert_state meta connected_target
    send_and_change meta (snprintf 1024 (bw_message bw meta.is_bg)) setting_bw w

  unfoldable pub tc_did_set_bw_rate : Meta → World → Result (Bool × Meta × World)
  tc_did_set_bw_rate meta w = do
    tc_assert_state meta setting_bw
    expect_response (codes "250 OK") meta bw_set w

  -- The only sender that does not assert the state first.
  unfoldable pub tc_start_measurement : Meta → ℕ → World → Result (Bool × Meta × World)
  tc_start_measurement meta dur w =
      send_and_change meta (snprintf 80 (start_message dur)) measuring w
