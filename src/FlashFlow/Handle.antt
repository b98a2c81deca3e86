-- ===== src/FlashFlow/Handle.antt =====
-- flashflow.c: the body of the loop over the known measurements, from one invariant state to the next.
use flashflow_research.Prelude.{
  ℕ, ◌≡◌, ◌≢◌, ◌⊎◌, inl, inr, refl, Bool, true, false, not, ◌&&◌, some, List, Returns, Returns-bind,
  arith, ◌==◌, if◌then◌else◌, Bool-cases, All, ◌>>=◌, length, get_elem?,
}
use flashflow_research.Os.{Os}
use flashflow_research.Meta.{authed, told_connect_target, connected_target, setting_bw, bw_set}
use flashflow_research.Sched.{Measurement, Host}
use flashflow_research.FlashFlow.Defs.{
  all_in_state, is_totally_authed, is_totally_connected_target, is_totally_bw_set,
}
use flashflow_research.FlashFlow.Assign.{unassigned, tell_connect, set_bw}
use flashflow_research.FlashFlow.Plans.{Plan, Fits, find-Fits, background_fits}
use flashflow_research.FlashFlow.Staff.{staff}
use flashflow_research.FlashFlow.Coordinates.{
  Runs, Coordinates, contains-get_elem, contains-All, fill_msm_params-found,
}
use flashflow_research.FlashFlow.Phases.{
  tell_connect-Hands, set_bw-Hands, all_in_state-apart, Tells, tell_hosts-Tells,
}
use flashflow_research.FlashFlow.Begin.{ClockFits}
use flashflow_research.FlashFlow.Finish.{Handled, finish_if_done-Handled}
use flashflow_research.FlashFlow.Turn.{
  Turn, params_of, known_id, manned_id, size_id, classes_id, Moved-Turn, fail_and_end-Handled,
  Begins, start_hosts-Begins, begun-Coordinates,
}
use flashflow_research.FlashFlow.Loop.{
  Loop, fail_and_end, tell_hosts, start_hosts, finish_if_done, handle_measurement,
}

module _ (os : Os) (ps : List Plan) (past : List ℕ) (i id : ℕ) (m : Measurement)
    (clock : ClockFits os) (fits : All Fits ps) where
  open os use {World}

  suits : (s : Loop) → Turn ps past i id s m → All (λ h. background_fits h ≡ true) m.hosts
  suits s turn = find-Fits s.msms id m turn.found (rw turn.state.plans_kept fits)

  start-Handled :
      (s : Loop) (w : World)
      → Turn ps past i id s m
      → Returns
          (do
            (told3, metas3, msms3, w3) ←
                start_hosts os (all_in_state bw_set id s.metas) (params_of id m) s.metas s.msms w
            let s3 = record s { metas = metas3; msms = msms3 }
            if not told3 then fail_and_end os id s3 w3 else finish_if_done os i id s3 w3)
          (Handled os ps past s.known)
  start-Handled s w turn =
      Returns-bind (Begins os id s) (Handled os ps past s.known)
        (start_hosts os (all_in_state bw_set id s.metas) (params_of id m) s.metas s.msms w) _
        (start_hosts-Begins os ps past i id s m w clock fits turn)
        λ r b.
          let c = begun-Coordinates os ps past id s r b turn.state in
          elim (Bool-cases r.0) [
            | inl told ↦ rw told (finish_if_done-Handled os ps past i id _ r.3 turn.here c)
            | inr untold ↦ rw untold (
                fail_and_end-Handled os ps past id s.known _ r.3 (known_id ps past i id s m turn) c)
          ]

  set_bw-Handled :
      (s : Loop) (hs : List (Host × Bool)) (w : World)
      → Turn ps past i id s m
      → (hs ≡ unassigned m.hosts) ⊎ (all_in_state connected_target id s.metas ≡ false)
      → Returns
          (do
            (told2, hosts2, metas2, w2) ←
                tell_hosts os
                  (all_in_state connected_target id s.metas)
                  (set_bw os)
                  setting_bw
                  id
                  hs
                  s.metas
                  w
            if not told2 then fail_and_end os id (record s { metas = metas2 }) w2 else (do
              (told3, metas3, msms3, w3) ←
                  start_hosts os (all_in_state bw_set id metas2) (params_of id m) metas2 s.msms w2
              let s3 = record s { metas = metas3; msms = msms3 }
              if not told3 then fail_and_end os id s3 w3 else finish_if_done os i id s3 w3))
          (Handled os ps past s.known)
  set_bw-Handled s hs w turn ready =
      Returns-bind
        (Tells os (set_bw os) connected_target setting_bw (set_bw-Hands os) id hs s.metas)
        (Handled os ps past s.known)
        (tell_hosts os (all_in_state connected_target id s.metas) (set_bw os) setting_bw id hs
          s.metas w)
        _
        (tell_hosts-Tells os (set_bw os) connected_target setting_bw (set_bw-Hands os) s.known id
          m.hosts hs s.metas w (manned_id ps past i id s m turn).named turn.state.manned.owned
          (classes_id ps past i id s m turn) (suits s turn) ready)
        λ r t.
          let next = Moved-Turn ps past i id s m turn r.2 t.0 in
          elim t.1 [
            | inl untold ↦ rw untold (
                fail_and_end-Handled os ps past id s.known _ r.3 (known_id ps past i id s m turn)
                  next.state)
            | inr (told, how) ↦ rw told (start-Handled (record s { metas = r.2 }) r.3 next)
          ]

  Turn-Handled :
      (s : Loop) (w : World)
      → Turn ps past i id s m
      → Returns (handle_measurement os i id s w) (Handled os ps past s.known)
  unfolding handle_measurement is_totally_authed is_totally_connected_target is_totally_bw_set
  Turn-Handled s w turn =
      let filled : (not (m.dur == 0) && not (length m.hosts == 0)) ≡ true =
        ground (arith, turn.dur, turn.some_host) in
      rw (fill_msm_params-found s.msms id m turn.found, filled)
        (Returns-bind
          (Tells os (tell_connect os m.fp) authed told_connect_target (tell_connect-Hands os m.fp)
            id (unassigned m.hosts) s.metas)
          (Handled os ps past s.known)
          (tell_hosts os (all_in_state authed id s.metas) (tell_connect os m.fp) told_connect_target
            id (unassigned m.hosts) s.metas w)
          _
          (tell_hosts-Tells os (tell_connect os m.fp) authed told_connect_target
            (tell_connect-Hands os m.fp) s.known id m.hosts (unassigned m.hosts) s.metas w
            (manned_id ps past i id s m turn).named turn.state.manned.owned
            (classes_id ps past i id s m turn) (suits s turn) (inl refl))
          λ r t.
            let next = Moved-Turn ps past i id s m turn r.2 t.0 in
            elim t.1 [
              | inl untold ↦ rw untold (
                  fail_and_end-Handled os ps past id s.known _ r.3 (known_id ps past i id s m turn)
                    next.state)
              | inr (told, how) ↦
                  let nonempty : staff id r.2 ≢ 0 =
                    λ z. turn.some_host (cc (size_id ps past i id _ m next, z)) in
                  rw told (
                    set_bw-Handled (record s { metas = r.2 }) r.1 r.3 next
                      (elim how [
                        | inl (same, kept) ↦ inl same
                        | inr states ↦ inr (
                            all_in_state-apart told_connect_target connected_target id r.2 refl
                              nonempty states)
                      ]))
            ])

-- From a state that holds between two parts of a round, while the clock is far from its end and the
-- plans fit, the turn of the known measurement at an index returns: it goes on with the next index,
-- the same measurements known and the state holding; or with the same index, one known measurement
-- completed and off the known ones; or to the end of the round, one completed. In each case the
-- state holds.
pub handle_measurement-Handled :
    (os : Os) (ps : List Plan) (past : List ℕ) (i id : ℕ) (s : Loop) (w : os.World)
    → ClockFits os
    → All Fits ps
    → get_elem? s.known i ≡ some id
    → Coordinates ps past s
    → Returns (handle_measurement os i id s w) (Handled os ps past s.known)
handle_measurement-Handled os ps past i id s w clock fits here c =
    let (m, found, run, dur, hosts) =
      contains-All (Runs s.msms) s.known id (contains-get_elem s.known i id here) c.running in
    Turn-Handled os ps past i id m clock fits s w
      (record { state = c; here = here; found = found; dur = dur; some_host = hosts })
