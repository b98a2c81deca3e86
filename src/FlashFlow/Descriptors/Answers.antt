-- ===== src/FlashFlow/Descriptors/Answers.antt =====
-- flashflow.c: the descriptors while the events of a round are handled.
use flashflow_research.Prelude.{
  ℕ, ◌≡◌, Bool, not, Option, none, some, List, [], ◌∷◌, Result, ok, err, assertion, undefined,
  guard, Ensures, Ensures-bind, Ensures-any, Ensures-if, if◌then◌else◌, get_elem?, set, refl,
}
use flashflow_research.Prelude.Int.{ℤ}
use flashflow_research.Os.{Os}
use flashflow_research.Meta.{Meta, CsmState, authed, connected_target, bw_set}
use flashflow_research.TorClient.State.{tc_assert_state}
use flashflow_research.TorClient.Handshake.{
  tc_authed_socket, tc_connected_socket, tc_did_set_bw_rate,
}
use flashflow_research.TorClient.Output.{tc_output_result}
use flashflow_research.FlashFlow.Defs.{fill_msm_params, meta_with_fd, array_contains}
use flashflow_research.FlashFlow.Loop.{
  Loop, Next, next_item, same_index, main_loop_end, return_error, fail_and_end,
}
use flashflow_research.FlashFlow.Rounds.{
  Fds, read_response, read_results, handle_event, handle_events, after_wait,
}
use flashflow_research.FlashFlow.Descriptors.{Kernel, KernelWorks, Keeps, Keeps-refl, Keeps-set}
use flashflow_research.FlashFlow.Descriptors.Client.{Kept}
use flashflow_research.FlashFlow.Descriptors.Exchange.{
  tc_authed_socket-Keeps, tc_connected_socket-Keeps, tc_did_set_bw_rate-Keeps,
  tc_output_result-Keeps,
}
use flashflow_research.FlashFlow.Descriptors.Failing.{KeptNext, fail_and_end-Keeps}
use flashflow_research.FlashFlow.Descriptors.Turn.{then-Next}

module _ (os : Os) (k : Kernel os) (works : KernelWorks os k) (out_fd : Option os.Stream) where
  open os use {World}

  -- Connection `j` was read, and its measurement fails or not.
  answered :
      (j : ℕ) (m m' : Meta) (good : Bool) (s : Loop) (w w' : World)
      (r : Result (Next × Loop × World))
      → get_elem? s.metas j ≡ some m
      → Keeps os k (m ∷ []) w (m' ∷ []) w'
      → Ensures r (KeptNext os k works (record s { metas = set s.metas j m' }) w')
      → Ensures
          (if not good
            then fail_and_end os m'.current_m_id (record s { metas = set s.metas j m' }) w'
            else r)
          (KeptNext os k works s w)
  answered j m m' good s w w' r there h e =
      let s' = record s { metas = set s.metas j m' } in
      let here = Keeps-set os k s.metas j m m' w w' there h in
      Ensures-if (KeptNext os k works s w) (not good) _ _
        (λ bad.
          then-Next os k works s s' w w' _ here
            (fail_and_end-Keeps os k works m'.current_m_id s' w'))
        λ fine. then-Next os k works s s' w w' r here e

  read_response-Keeps :
      (reader : Meta → World → Result (Bool × Meta × World)) (next : CsmState) (j : ℕ) (m : Meta)
      (s : Loop) (w : World)
      → get_elem? s.metas j ≡ some m
      → Ensures (reader m w) (Kept os k works m w)
      → Ensures (read_response os reader next j m s w) (KeptNext os k works s w)
  unfolding read_response
  read_response-Keeps reader next j m s w there h =
      Ensures-bind (Kept os k works m w) (KeptNext os k works s w) (reader m w) _ h
        λ (good, m', w') e. answered j m m' good s w w' _ there e (
          Ensures-any (KeptNext os k works (record s { metas = set s.metas j m' }) w')
            (tc_assert_state m' next) _ λ u. Keeps-refl os k _ w')

  read_results-Keeps :
      (j : ℕ) (m : Meta) (s : Loop) (w : World)
      → get_elem? s.metas j ≡ some m
      → Ensures (read_results os out_fd j m s w) (KeptNext os k works s w)
  unfolding read_results
  read_results-Keeps j m s w there =
      let Q = KeptNext os k works s w in
      Ensures-any Q (fill_msm_params s.msms m.current_m_id) _ λ (filled, p).
        Ensures-any Q (guard filled assertion) _ λ u.
          Ensures-bind (Kept os k works m w) Q (tc_output_result os m p.id p.fp out_fd w) _
            (tc_output_result-Keeps os k works m p.id p.fp out_fd w)
            λ (fine, m', w') e. answered j m m' fine s w w' _ there e (Keeps-refl os k _ w')

  handle_event-Keeps :
      (fds : Fds) (fd : ℤ) (s : Loop) (w : World)
      → Ensures (handle_event os out_fd fds fd s w) (KeptNext os k works s w)
  unfolding handle_event
  handle_event-Keeps fds fd s w = found (meta_with_fd fd 0 s.metas)
    where
      at : ℕ → Option Meta → Result (Next × Loop × World)
      at j o = elim o [
        | none ↦ err undefined
        | some m ↦
            if array_contains fds.authing_fds m.fd
            then read_response os (tc_authed_socket os) authed j m s w
            else if array_contains fds.connecting_fds m.fd
            then read_response os (tc_connected_socket os) connected_target j m s w
            else if array_contains fds.setting_bw_fds m.fd
            then read_response os (tc_did_set_bw_rate os) bw_set j m s w
            else if array_contains fds.measuring_fds m.fd
            then read_results os out_fd j m s w
            else ok (next_item, s, w)
      ]

      there :
          (j : ℕ) (o : Option Meta)
          → get_elem? s.metas j ≡ o
          → Ensures (at j o) (KeptNext os k works s w)
      there j none e = tt
      there j (some m) e =
          let Q = KeptNext os k works s w in
          Ensures-if Q (array_contains fds.authing_fds m.fd) _ _
            (λ a.
              read_response-Keeps (tc_authed_socket os) authed j m s w e
                (tc_authed_socket-Keeps os k works m w))
            λ a.
              Ensures-if Q (array_contains fds.connecting_fds m.fd) _ _
                (λ b.
                  read_response-Keeps (tc_connected_socket os) connected_target j m s w e
                    (tc_connected_socket-Keeps os k works m w))
                λ b.
                  Ensures-if Q (array_contains fds.setting_bw_fds m.fd) _ _
                    (λ c.
                      read_response-Keeps (tc_did_set_bw_rate os) bw_set j m s w e
                        (tc_did_set_bw_rate-Keeps os k works m w))
                    λ c.
                      Ensures-if Q (array_contains fds.measuring_fds m.fd) _ _
                        (λ d. read_results-Keeps j m s w e) λ d. Keeps-refl os k s.metas w

      found :
          (o : Option ℕ)
          → Ensures {A = Next × Loop × World}
              (elim o [ none ↦ ok (return_error, s, w) | some j ↦ at j (get_elem? s.metas j) ])
              (KeptNext os k works s w)
      found none = Keeps-refl os k s.metas w
      found (some j) = there j (get_elem? s.metas j) refl

  handle_events-Keeps :
      (fds : Fds) (events : List ℤ) (s : Loop) (w : World)
      → Ensures (handle_events os out_fd fds events s w) (KeptNext os k works s w)
  unfolding handle_events
  handle_events-Keeps fds [] s w = Keeps-refl os k s.metas w
  handle_events-Keeps fds (fd ∷ events) s w =
      Ensures-bind (KeptNext os k works s w) (KeptNext os k works s w)
        (handle_event os out_fd fds fd s w) _ (handle_event-Keeps fds fd s w)
        λ r h. further r.0 r.1 r.2 h (λ s' w'. handle_events-Keeps fds events s' w')
    where
      further :
          (next : Next) (s' : Loop) (w' : World)
          → Keeps os k s.metas w s'.metas w'
          → ((s' : Loop) (w' : World)
              → Ensures (handle_events os out_fd fds events s' w') (KeptNext os k works s' w'))
          → Ensures {A = Next × Loop × World}
              (elim next [
                | next_item ↦ handle_events os out_fd fds events s' w'
                | same_index ↦ handle_events os out_fd fds events s' w'
                | main_loop_end ↦ ok (main_loop_end, s', w')
                | return_error ↦ ok (return_error, s', w')
              ])
              (KeptNext os k works s w)
      further next_item s' w' h ih = then-Next os k works s s' w w' _ h (ih s' w')
      further same_index s' w' h ih = then-Next os k works s s' w w' _ h (ih s' w')
      further main_loop_end s' w' h ih = h
      further return_error s' w' h ih = h

  pub after_wait-Keeps :
      (fds : Fds) (events : Option (List ℤ)) (s : Loop) (w : World)
      → Ensures (after_wait os out_fd fds events s w) (KeptNext os k works s w)
  unfolding after_wait
  after_wait-Keeps fds none s w = Keeps-refl os k s.metas w
  after_wait-Keeps fds (some []) s w = Keeps-refl os k s.metas w
  after_wait-Keeps fds (some (fd ∷ events)) s w =
      handle_events-Keeps fds (fd ∷ events) (record s { loops_without_progress = 0 }) w
