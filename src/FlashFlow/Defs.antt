-- ===== src/FlashFlow/Defs.antt =====
-- The helpers of main_loop_once. `known` stands for the first entries of the array known_m_ids, as
-- many as num_known_m_ids says. Log lines are left out.
use flashflow_research.Prelude.{
  ℕ, zero, suc, ◌+◌, Bool, true, false, not, ◌&&◌, Option, none, some, List, [], ◌∷◌, Result, ok,
  ◌>>=◌, ◌>>◌, ◌==◌, if◌then◌else◌,
}
use flashflow_research.Prelude.Int.{ℤ, pos_part, neg_part, ltb_ℤ}
use flashflow_research.Prelude.Text.{Bytes}
use flashflow_research.Os.{Os}
use flashflow_research.Meta.{
  Meta, CsmState, connected, authed, connected_target, bw_set, done, state_number,
}
use flashflow_research.TorClient.State.{tc_assert_state}
use flashflow_research.TorClient.Socket.{tc_mark_failed, tc_finished_with_meta, tc_next_available}
use flashflow_research.TorClient.Handshake.{tc_auth_socket}
use flashflow_research.Sched.{
  Measurement, Host, sched_get_fp, sched_get_dur, sched_get_failsafe_stop, sched_get_hosts,
  sched_mark_done,
}

-- `struct msm_params`; the arrays m, m_bw and m_nconn are the list of hosts, and m_assigned, which
-- starts at 0, stands beside it where it is used.
pub record MsmParams : Type 0 where
  pub id : ℕ
  pub fp : Bytes
  pub dur : ℕ
  pub hosts : List Host
  pub num_m : ℕ
  pub failsafe_stop : ℕ

-- The parameters, and whether there is a duration and a host. The fingerprint is never NULL.
unfoldable pub fill_msm_params : List Measurement → ℕ → Result (Bool × MsmParams)
fill_msm_params msms m_id = do
  fp ← sched_get_fp msms m_id
  dur ← sched_get_dur msms m_id
  stop ← sched_get_failsafe_stop msms m_id
  (hosts, num_m) ← sched_get_hosts msms m_id
  ok (
    not (dur == 0) && not (num_m == 0),
    record { id = m_id; fp = fp; dur = dur; hosts = hosts; num_m = num_m; failsafe_stop = stop },
  )

-- The maximum of an array, or `def` where no item is larger.
unfoldable pub max_or : List ℤ → ℤ → ℤ
max_or [] def = def
max_or (x ∷ xs) def = max_or xs (if ltb_ℤ def x then x else def)

-- `==` on `int`
abbrev pub eq_ℤ : ℤ → ℤ → Bool
eq_ℤ a b = (pos_part a == pos_part b) && (neg_part a == neg_part b)

-- The index of the connection with a descriptor, or `none` for NULL.
unfoldable pub meta_with_fd : ℤ → ℕ → List Meta → Option ℕ
meta_with_fd fd i [] = none
meta_with_fd fd i (m ∷ ms) = if eq_ℤ m.fd fd then some i else meta_with_fd fd (i + 1) ms

unfoldable pub array_contains : List ℤ → ℤ → Bool
array_contains [] val = false
array_contains (x ∷ xs) val = if eq_ℤ x val then true else array_contains xs val

-- The loop of the four functions below.
unfoldable pub all_in_state : CsmState → ℕ → List Meta → Bool
all_in_state s m_id [] = true
all_in_state s m_id (m ∷ ms) =
    if not (m.current_m_id == m_id)
    then all_in_state s m_id ms
    else (state_number m.state == state_number s) && all_in_state s m_id ms

unfoldable pub is_totally_authed : ℕ → List Meta → Bool
unfolding all_in_state
is_totally_authed = all_in_state authed

unfoldable pub is_totally_connected_target : ℕ → List Meta → Bool
unfolding all_in_state
is_totally_connected_target = all_in_state connected_target

unfoldable pub is_totally_bw_set : ℕ → List Meta → Bool
unfolding all_in_state
is_totally_bw_set = all_in_state bw_set

unfoldable pub is_totally_done : ℕ → List Meta → Bool
unfolding all_in_state
is_totally_done = all_in_state done

-- The last entry goes to the front, where an entry was taken out.
unfoldable pub fill_gap : List ℕ → List ℕ
fill_gap [] = []
fill_gap (x ∷ []) = x ∷ []
fill_gap (x ∷ y ∷ r) = elim (fill_gap (y ∷ r)) [ [] ↦ x ∷ [] | l ∷ rest ↦ l ∷ x ∷ rest ]

-- `m_ids[i] = m_ids[--num_m]` at the first `i` that holds the id.
unfoldable pub remove_id : List ℕ → ℕ → List ℕ
unfolding fill_gap
remove_id [] m_id = []
remove_id (x ∷ xs) m_id = if x == m_id then fill_gap xs else x ∷ remove_id xs m_id

-- `metas[i].current_m_id = m_id`
abbrev pub take_meta : ℕ → ℕ → List Meta → List Meta
take_meta i m_id [] = []
take_meta zero m_id (m ∷ ms) = record m { current_m_id = m_id } ∷ ms
take_meta (suc i) m_id (m ∷ ms) = m ∷ take_meta i m_id ms

module _ (os : Os) where
  open os use {World}

  -- The first loop of measurement_failed_.
  unfoldable pub fail_metas : ℕ → List Meta → World → Result (List Meta × World)
  fail_metas m_id [] w = ok ([], w)
  fail_metas m_id (m ∷ ms) w = do
    (m', w1) ←
        if m.current_m_id == m_id
        then (do failed ← tc_mark_failed m; tc_finished_with_meta os failed w)
        else ok (m, w)
    (ms', w2) ← fail_metas m_id ms w1
    ok (m' ∷ ms', w2)

  -- The known ids, the connections and the schedule after a failure.
  unfoldable pub measurement_failed :
      ℕ
      → List ℕ
      → List Meta
      → List Measurement
      → World
      → Result (List ℕ × List Meta × List Measurement × World)
  measurement_failed m_id known metas msms w = do
    (metas', w') ← fail_metas m_id metas w
    msms' ← sched_mark_done msms m_id
    ok (remove_id known m_id, metas', msms', w')

  -- The loop of find_and_connect_metas over the classes.
  unfoldable pub connect_hosts :
      ℕ → List Host → List Meta → World → Result (Bool × List Meta × World)
  connect_hosts m_id [] metas w = ok (true, metas, w)
  connect_hosts m_id (h ∷ hs) metas w = do
    (next, metas', w') ← tc_next_available os metas h.class w
    elim next [
      | none ↦ ok (false, metas', w')
      | some i ↦ connect_hosts m_id hs (take_meta i m_id metas') w'
    ]

  unfoldable pub find_and_connect_metas :
      ℕ → List Meta → List Measurement → World → Result (Bool × List Meta × World)
  find_and_connect_metas m_id metas msms w = do
    (filled, p) ← fill_msm_params msms m_id
    if filled then connect_hosts m_id p.hosts metas w else ok (false, metas, w)

  unfoldable pub send_auth_metas : ℕ → List Meta → World → Result (Bool × List Meta × World)
  send_auth_metas m_id [] w = ok (true, [], w)
  send_auth_metas m_id (m ∷ ms) w =
      let rest = λ (m' : Meta) (w' : World). (do
        (sent, ms', w'') ← send_auth_metas m_id ms w'
        ok (sent, m' ∷ ms', w'')) in
      if not (m.current_m_id == m_id) then rest m w else (do
        tc_assert_state m connected
        (sent, m', w') ← tc_auth_socket os m w
        if sent then rest m' w' else ok (false, m' ∷ ms, w'))
