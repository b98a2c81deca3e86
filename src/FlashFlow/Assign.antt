-- ===== src/FlashFlow/Assign.antt =====
-- What main_loop_once does for one measurement: its hosts are handed to its connections, the
-- measurement is started on them, and they are given back.
use flashflow_research.Prelude.{
  ℕ, ◌+◌, Bool, true, false, not, ◌&&◌, List, [], ◌∷◌, map, Result, ok, ◌>>=◌, ◌>>◌, ◌==◌,
  if◌then◌else◌,
}
use flashflow_research.Prelude.Text.{Bytes, bytes_eq}
use flashflow_research.Os.{Os}
use flashflow_research.Meta.{Meta, CsmState, measuring, done}
use flashflow_research.TorClient.State.{tc_assert_state}
use flashflow_research.TorClient.Socket.{tc_finished_with_meta}
use flashflow_research.TorClient.Handshake.{tc_tell_connect, tc_set_bw_rate, tc_start_measurement}
use flashflow_research.Sched.{Host}

-- A host with its entry of m_assigned.
abbrev pub unassigned : List Host → List (Host × Bool)
unassigned = map (λ h. (h, false))

abbrev pub all_assigned : List (Host × Bool) → Bool
all_assigned [] = true
all_assigned ((h, assigned) ∷ hs) = assigned && all_assigned hs

module _ (os : Os) where
  open os use {World}

  -- What is done with a connection and the host that it stands for: `tc_tell_connect` or
  -- `tc_set_bw_rate`, with the host's number.
  abbrev pub Action : Type 0
  Action = Host → Meta → World → Result (Bool × Meta × World)

  abbrev pub tell_connect : Bytes → Action
  tell_connect fp h m w = tc_tell_connect os m fp h.conns w

  abbrev pub set_bw : Action
  set_bw h m w = tc_set_bw_rate os m h.bw w

  -- The loop over k: the connection takes the first host of its class that is not assigned.
  unfoldable pub assign_host :
      Action
      → CsmState
      → List (Host × Bool)
      → Meta
      → World
      → Result (Bool × List (Host × Bool) × Meta × World)
  assign_host act next [] m w = ok (true, [], m, w)
  assign_host act next ((h, assigned) ∷ hs) m w =
      let later = assign_host act next hs m w in
      if bytes_eq h.class m.class && not assigned
      then (do
        (told, m', w') ← act h m w
        if told
            then (do tc_assert_state m' next; ok (true, (h, true) ∷ hs, m', w'))
            else ok (false, (h, assigned) ∷ hs, m', w'))
      else (do (told, hs', m', w') ← later; ok (told, (h, assigned) ∷ hs', m', w'))

  -- The loop over j. False is the way out by `goto main_loop_end` behind a measurement_failed.
  unfoldable pub assign_metas :
      Action
      → CsmState
      → ℕ
      → List (Host × Bool)
      → List Meta
      → World
      → Result (Bool × List (Host × Bool) × List Meta × World)
  unfolding assign_host
  assign_metas act next m_id hosts [] w = ok (true, hosts, [], w)
  assign_metas act next m_id hosts (m ∷ ms) w =
      let rest = λ (hosts' : List (Host × Bool)) (m' : Meta) (w' : World). (do
        (told, hosts'', ms', w'') ← assign_metas act next m_id hosts' ms w'
        ok (told, hosts'', m' ∷ ms', w'')) in
      if m.current_m_id == m_id
      then (do
        (told, hosts', m', w') ← assign_host act next hosts m w
        if told then rest hosts' m' w' else ok (false, hosts', m' ∷ ms, w'))
      else rest hosts m w

  -- The loop that starts a measurement, with the number of connections told.
  unfoldable pub start_metas : ℕ → ℕ → List Meta → World → Result (Bool × ℕ × List Meta × World)
  start_metas m_id dur [] w = ok (true, 0, [], w)
  start_metas m_id dur (m ∷ ms) w =
      if m.current_m_id == m_id
      then (do
        (told, m', w') ← tc_start_measurement os m dur w
        if told
            then (do
              tc_assert_state m' measuring
              (all, num_told, ms', w'') ← start_metas m_id dur ms w'
              ok (all, num_told + 1, m' ∷ ms', w''))
            else ok (false, 0, m' ∷ ms, w'))
      else (do
        (all, num_told, ms', w') ← start_metas m_id dur ms w
        ok (all, num_told, m ∷ ms', w'))

  -- The loop that gives back the connections of a measurement that is done.
  unfoldable pub finish_metas : ℕ → List Meta → World → Result (List Meta × World)
  finish_metas m_id [] w = ok ([], w)
  finish_metas m_id (m ∷ ms) w = do
    (m', w') ←
        if m.current_m_id == m_id
        then (do tc_assert_state m done; tc_finished_with_meta os m w)
        else ok (m, w)
    (ms', w'') ← finish_metas m_id ms w'
    ok (m' ∷ ms', w'')
