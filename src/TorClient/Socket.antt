-- ===== src/TorClient/Socket.antt =====
-- tc_make_socket, tc_next_available, tc_mark_failed and tc_finished_with_meta: how a connection is
-- taken into use and given back. Log lines are left out.
use flashflow_research.Prelude.{
  ℕ, ◌+◌, ◌-◌, ◌%◌, Bool, false, ◌&&◌, Option, none, some, List, [], ◌∷◌, Result, ok, ◌>>=◌, ◌>>◌,
  ◌==◌, if◌then◌else◌,
}
use flashflow_research.Prelude.Int.{ℤ, pos, negsuc, minus_one, is_neg}
use flashflow_research.Prelude.Text.{Bytes, bytes_eq, strtol}
use flashflow_research.Os.{Os}
use flashflow_research.Meta.{Meta, invalid, connected, failed}
use flashflow_research.TorClient.State.{tc_change_state, tc_assert_state}

-- `(uint16_t)atoi(s)`, the argument of `htons`.
unfoldable pub port_number : Bytes → ℕ
port_number s = elim (strtol s).0 [ pos n ↦ n % 65536 | negsuc n ↦ 65535 - n % 65536 ]

abbrev pub is_zero : ℤ → Bool
is_zero (pos n) = n == 0
is_zero (negsuc n) = false

unfoldable pub tc_mark_failed : Meta → Result Meta
unfolding tc_change_state
tc_mark_failed meta = tc_change_state meta failed

module _ (os : Os) where
  open os use {World, Addr, socket, getaddrinfo, connect, close}

  -- tc_make_socket below the address look-up. A descriptor that does not connect stays open.
  unfoldable pub connect_to : Meta → ℤ → Addr → World → Result (ℤ × Meta × World)
  connect_to meta s addr w = do
    let (r, w') = connect s addr (port_number meta.port) w
    if is_zero r
        then (do meta' ← tc_change_state (record meta { fd = s }) connected; ok (s, meta', w'))
        else ok (minus_one, meta, w')

  unfoldable pub tc_make_socket : Meta → World → Result (ℤ × Meta × World)
  unfolding connect_to
  tc_make_socket meta w = do
    tc_assert_state meta invalid
    let (s, w1) = socket w
    if is_neg s then ok (minus_one, meta, w1) else (do
      let (found, w2) = getaddrinfo meta.host w1
      elim found [ none ↦ ok (minus_one, meta, w2) | some addr ↦ connect_to meta s addr w2 ])

  -- The loop of tc_next_available from index `i` on: the index found, or `none` for -1, and the
  -- connections as they are then.
  unfoldable pub next_available_from :
      ℕ → List Meta → Bytes → World → Result (Option ℕ × List Meta × World)
  next_available_from i [] class w = ok (none, [], w)
  next_available_from i (m ∷ ms) class w =
      let skip = λ (m' : Meta) (w' : World). (do
        (found, ms', w'') ← next_available_from (i + 1) ms class w'
        ok (found, m' ∷ ms', w'')) in
      if bytes_eq m.class class && (m.current_m_id == 0)
      then (do
        (s, m', w') ← tc_make_socket m w
        if is_neg s then skip m' w' else ok (some i, m' ∷ ms, w'))
      else skip m w

  unfoldable pub tc_next_available :
      List Meta → Bytes → World → Result (Option ℕ × List Meta × World)
  unfolding next_available_from
  tc_next_available metas class w = next_available_from 0 metas class w

  unfoldable pub tc_finished_with_meta : Meta → World → Result (Meta × World)
  tc_finished_with_meta meta w = do
    meta' ← tc_change_state meta invalid
    let closed : Meta × World =
        if is_neg meta'.fd then (meta', w) else (record meta' { fd = minus_one }, close meta'.fd w)
    ok (record (closed.0) { current_m_id = 0 }, closed.1)
