-- ===== src/FlashFlow/Receive.antt =====
-- flashflow.c: what reading from one connection makes of the state of the main loop.
use flashflow_research.Prelude.{
  ℕ, zero, suc, ◌<◌, ◌≡◌, ◌≢◌, ◌⊎◌, inl, inr, refl, Bool, true, false, not, ◌&&◌, Option, none,
  some, List, [], ◌∷◌, ◌++◌, arith, ◌==◌, if◌then◌else◌, Bool-cases, All, All-get_elem?, get_elem?,
  set, Returns, Returns-bind, ok, length, lt→ltb, drop,
}
use flashflow_research.Prelude.Int.{ℤ}
use flashflow_research.Prelude.Text.{Bytes, has_prefix}
use flashflow_research.Os.{Os, Timeval}
use flashflow_research.Meta.{Meta, CsmState, invalid, failed, measuring, done}
use flashflow_research.TorClient.Usage.{IsTracked}
use flashflow_research.TorClient.Handshake.{read_buf_len}
use flashflow_research.TorClient.Exchange.{
  Reader, reads_in, reads_to, good_response, run_reader, read_result, run_reader_lem,
}
use flashflow_research.TorClient.Output.Laws.{
  IsUsable, says_end, received_text, output_outcome, tc_output_result-outcome,
}
use flashflow_research.Sched.Count.{contains}
use flashflow_research.FlashFlow.Plans.{Plan}
use flashflow_research.FlashFlow.Staff.{IsOwned, owned-IsTracked}
use flashflow_research.FlashFlow.Moves.{Moved, Moved-refl, assert_state}
use flashflow_research.FlashFlow.Coordinates.{
  Runs, Coordinates, contains-All, fill_msm_params-found,
}
use flashflow_research.FlashFlow.Kept.{Moved-Coordinates}
use flashflow_research.FlashFlow.Begin.{Goes}
use flashflow_research.FlashFlow.Overdue.{ClockWorks}
use flashflow_research.FlashFlow.Cleanup.{AfterFail, fail-AfterFail}
use flashflow_research.FlashFlow.Loop.{Loop, Next, next_item, main_loop_end, fail, fail_and_end}
use flashflow_research.FlashFlow.Rounds.{read_response, read_results}

-- What is received fits the buffer, and is not made of line ends only.
abbrev pub Receives : Os → Type 0
Receives os = (fd : ℤ) (w : os.World) → IsUsable os (os.recv fd read_buf_len w).0

Moved-set :
    (j : ℕ) (m : Meta) (t : CsmState) (ms : List Meta)
    → get_elem? ms j ≡ some m
    → IsTracked (record m { state = t })
    → All IsTracked ms
    → Moved ms (set ms j (record m { state = t }))
Moved-set j m t [] e k h = tt
Moved-set zero m t (x ∷ ms) e k h = let same : x ≡ m = cc e in (rw same refl, k, Moved-refl ms h.1)
Moved-set (suc j) m t (x ∷ ms) e k h = (refl, h.0, Moved-set j m t ms e k h.1)

-- A reader's call, in its state.
abbrev Reads {ℓ} : {W : Type ℓ} → Reader → Meta → Bool × Meta × W → Type 0
Reads r m (good, m', w') =
    ((good ≡ false) × (m' ≡ m)) ⊎ ((good ≡ true) × (m' ≡ record m { state = reads_to r }))

usable-lt : (os : Os) (b : Bytes) → IsUsable os (some b) → length b < read_buf_len
usable-lt os [] u = omega arith
usable-lt os (c ∷ b) u = u.0

module _ (os : Os) where
  open os use {World, recv, stack}

  read_result-Reads :
      (r : Reader) (m : Meta) (w : World) (q : Option Bytes × World)
      → IsUsable os q.0
      → Returns (read_result os r m w q) (Reads r m)
  read_result-Reads r m w (none, w') u = inl (refl, refl)
  read_result-Reads r m w (some b, w') u =
      elim (Bool-cases
        (has_prefix (good_response r) (b ++ drop (length b) (stack read_buf_len w)))) [
          | inl good ↦ rw good (inr (refl, refl))
          | inr other ↦
              rw (other, lt→ltb (length b) read_buf_len (usable-lt os b u)) (inl (refl, refl))
        ]

  run_reader-Reads :
      (r : Reader) (m : Meta) (w : World)
      → Receives os
      → m.state ≡ reads_in r
      → Returns (run_reader os r m w) (Reads r m)
  run_reader-Reads r m w u h = elim (run_reader_lem os r m w) [
    | inl (here, e) ↦ rw e (read_result-Reads r m w (recv m.fd read_buf_len w) (u m.fd w))
    | inr (other, e) ↦ absurd (other h)
  ]

  -- What handling an event leaves: one connection is in another state, or its measurement failed and
  -- the round is at its end.
  abbrev pub Received : List Plan → List ℕ → ℕ → Meta → Loop → Next × Loop × World → Type 0
  Received ps past j m s (next, s', w') =
      ((next ≡ next_item)
        × Coordinates ps past s'
        × ((t : CsmState) × (s'.metas ≡ set s.metas j (record m { state = t }))))
      ⊎ ((next ≡ main_loop_end) × Goes ps past s')

  module _ (ps : List Plan) (past : List ℕ) (j : ℕ) (m : Meta) (s : Loop)
      (c : Coordinates ps past s) (there : get_elem? s.metas j ≡ some m) where
    IsOwned-here : IsOwned s.known m
    IsOwned-here = All-get_elem? (IsOwned s.known) s.metas j c.manned.owned there

    -- A connection in use is of a known measurement.
    of_known : m.state ≢ invalid → contains s.known m.current_m_id ≡ true
    of_known busy = elim (Bool-cases (m.current_m_id == 0)) [
      | inl unused ↦ absurd (busy (IsOwned-here.tracked.free (ground arith)))
      | inr used ↦ ground (arith, IsOwned-here.owner)
    ]

    state-Coordinates :
        (t : CsmState)
        → m.state ≢ invalid
        → (t ≢ invalid) × (t ≢ failed)
        → Coordinates ps past (record s { metas = set s.metas j (record m { state = t }) })
    state-Coordinates t busy fit =
        Moved-Coordinates ps past s (set s.metas j (record m { state = t }))
          (Moved-set j m t s.metas there
            (record { free = λ e. absurd (busy (IsOwned-here.tracked.free e)); busy = λ h. fit })
            (owned-IsTracked s.known s.metas c.manned.owned))
          c

    same-Coordinates :
        m.state ≢ invalid → Coordinates ps past (record s { metas = set s.metas j m })
    same-Coordinates busy =
        state-Coordinates m.state busy (busy, (IsOwned-here.tracked.busy (omega (arith, unused))).1)
      where
        unused : m.current_m_id ≢ 0
        unused e = busy (IsOwned-here.tracked.free e)

    fails_here :
        (w : World)
        → m.state ≢ invalid
        → Returns
            (fail_and_end os m.current_m_id (record s { metas = set s.metas j m }) w)
            (Received ps past j m s)
    unfolding fail_and_end
    fails_here w busy =
        let s' = record s { metas = set s.metas j m } in
        Returns-bind (AfterFail os ps past m.current_m_id s') (Received ps past j m s)
          (fail os m.current_m_id s' w) _
          (fail-AfterFail os ps past m.current_m_id s' w (of_known busy) (same-Coordinates busy))
          λ r a. inr (refl, (m.current_m_id ∷ [], a.0))

    pub read_response-Received :
        (r : Reader) (w : World)
        → Receives os
        → m.state ≡ reads_in r
        → (m.state ≢ invalid)
        → (reads_to r ≢ invalid) × (reads_to r ≢ failed)
        → Returns (read_response os (run_reader os r) (reads_to r) j m s w) (Received ps past j m s)
    unfolding read_response
    read_response-Received r w u h busy fit =
        Returns-bind (Reads r m) (Received ps past j m s) (run_reader os r m w) _
          (run_reader-Reads r m w u h)
          λ q k. elim k [
            | inl (bad, e) ↦ rw (bad, e) (fails_here q.2 busy)
            | inr (good, e) ↦
                rw (good, e, assert_state (record m { state = reads_to r }) (reads_to r) refl)
                  (inl (refl, state-Coordinates (reads_to r) busy fit, (reads_to r, refl)))
          ]

    -- What tc_output_result does with the connection.
    abbrev Outputs : Bool × Meta × World → Type 0
    Outputs (fine, m', w') =
        ((fine ≡ false) × (m' ≡ m))
        ⊎ ((fine ≡ true) × ((m' ≡ m) ⊎ (m' ≡ record m { state = done })))

    output_outcome-Outputs :
        (id : ℕ) (fp : Bytes) (file : os.Stream) (t : Timeval) (q : Option Bytes × World)
        → Outputs (output_outcome os m id fp file t q)
    output_outcome-Outputs id fp file t (none, w) = inl (refl, refl)
    output_outcome-Outputs id fp file t (some [], w) = inr (refl, inr refl)
    output_outcome-Outputs id fp file t (some (b ∷ bs), w) =
        elim (Bool-cases (says_end (received_text (b ∷ bs)))) [
          | inl over ↦ rw over (inr (refl, inr refl))
          | inr more ↦ rw more (inr (refl, inl refl))
        ]

    Outputs-Received :
        (o : Bool × Meta × World)
        → m.state ≢ invalid
        → Outputs o
        → Returns {A = Next × Loop × World}
            (if not o.0
              then fail_and_end os o.1.current_m_id (record s { metas = set s.metas j o.1 }) o.2
              else ok (next_item, record s { metas = set s.metas j o.1 }, o.2))
            (Received ps past j m s)
    Outputs-Received (fine, m', w') busy (inl (bad, e)) = rw (bad, e) (fails_here w' busy)
    Outputs-Received (fine, m', w') busy (inr (good, inl e)) =
        rw (good, e) (inl (refl, same-Coordinates busy, (m.state, refl)))
    Outputs-Received (fine, m', w') busy (inr (good, inr e)) =
        rw (good, e) (inl (refl, state-Coordinates done busy (λ x. cc x, λ x. cc x), (done, refl)))

    pub read_results-Received :
        (file : os.Stream) (w : World)
        → Receives os
        → ClockWorks os
        → m.state ≡ measuring
        → m.state ≢ invalid
        → Returns (read_results os (some file) j m s w) (Received ps past j m s)
    unfolding read_results
    read_results-Received file w u clock h busy =
        let (n, found, run, dur, hosts) =
          contains-All (Runs s.msms) s.known m.current_m_id (of_known busy) c.running in
        let filled : (not (n.dur == 0) && not (length n.hosts == 0)) ≡ true =
          ground (arith, dur, hosts) in
        let (t, time) = clock w in
        rw
          (
            fill_msm_params-found s.msms m.current_m_id n found,
            filled,
            tc_output_result-outcome os m m.current_m_id n.fp file w t h time
                (u m.fd (os.gettimeofday w).1),
          )
          (Outputs-Received
            (output_outcome os m m.current_m_id n.fp file t
              (recv m.fd read_buf_len (os.gettimeofday w).1))
            busy
            (output_outcome-Outputs m.current_m_id n.fp file t
              (recv m.fd read_buf_len (os.gettimeofday w).1)))
