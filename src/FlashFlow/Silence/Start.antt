-- ===== src/FlashFlow/Silence/Start.antt =====
-- flashflow.c: the start of a measurement in a quiet state.
use flashflow_research.Prelude.{
  ℕ, ◌+◌, ◌<◌, ◌≡◌, ◌⊎◌, inl, inr, refl, Bool, true, false, not, List, [], ◌∷◌, ◌++◌, ok, Ensures,
  Ensures-bind, Ensures-any, Ensures-any-eq, Ensures-if, Ensures-map, Bool-cases, All, arith,
  length, length-append, ◌==◌,
}
use flashflow_research.Prelude.Int.{is_neg}
use flashflow_research.Os.{Os}
use flashflow_research.Meta.{Meta, connected, authing}
use flashflow_research.TorClient.State.{tc_change_state, tc_assert_state}
use flashflow_research.TorClient.Lifecycle.{change_state_then}
use flashflow_research.TorClient.Handshake.{auth_message, send_and_change, tc_auth_socket}
use flashflow_research.Prelude.Text.{snprintf}
use flashflow_research.Sched.{Measurement, sched_next}
use flashflow_research.FlashFlow.Defs.{find_and_connect_metas, send_auth_metas}
use flashflow_research.FlashFlow.Loop.{Loop, start_next, fail}
use flashflow_research.FlashFlow.Silence.{Quiet, Half, Quiet-Half, over, begun, Still}
use flashflow_research.FlashFlow.Silence.Failing.{fail-OneFailed}
use flashflow_research.FlashFlow.Silence.Found.{Halves, find_and_connect_metas-Halves}

module _ (os : Os) where
  open os use {World, send, now}

  -- All of them are asked for their password, or some are not and the call says so.
  abbrev Sends : ℕ → Bool × List Meta × World → Type 0
  Sends id (sent, ms', w') = All (Half id) ms' × (sent ≡ true → All Quiet ms')

  asked :
      (m : Meta) (w : World)
      → Ensures
          (tc_auth_socket os m w)
          (λ r. ((r.0 ≡ false) × (r.1 ≡ m)) ⊎ ((r.0 ≡ true) × (r.1.state ≡ authing)))
  unfolding tc_auth_socket send_and_change
  asked m w =
      let Q = λ (r : Bool × Meta × World).
        ((r.0 ≡ false) × (r.1 ≡ m)) ⊎ ((r.0 ≡ true) × (r.1.state ≡ authing)) in
      Ensures-any Q (tc_assert_state m connected) _ λ u.
        Ensures-any Q (tc_assert_state m connected) _ λ v.
          Ensures-if Q (is_neg (send m.fd (snprintf 80 (auth_message m.pw)) w).0) _ _
            (λ neg. inl (refl, refl))
            λ fine.
              Ensures-bind (λ (m' : Meta). m'.state ≡ authing) Q (tc_change_state m authing) _
                (change_state_then m authing _ (λ good. refl)) λ m' e. inr (refl, e)

  send_auth_metas-Sends :
      (id : ℕ) (ms : List Meta) (w : World)
      → All (Half id) ms
      → Ensures (send_auth_metas os id ms w) (Sends id)
  unfolding send_auth_metas
  send_auth_metas-Sends id [] w h = (tt, λ sent. tt)
  send_auth_metas-Sends id (m ∷ ms) w h =
      let rest = λ (m' : Meta) (w' : World) (q : Quiet m').
        Ensures-bind (Sends id) (Sends id) (send_auth_metas os id ms w')
          (λ r. ok (r.0, m' ∷ r.1, r.2)) (send_auth_metas-Sends id ms w' h.1)
          (λ r e. ((inl q, e.0), λ sent. (q, e.1 sent))) in
      elim (Bool-cases (m.current_m_id == id)) [
        | inr other ↦
            rw other (rest m w (elim h.0 [ inl q ↦ q | inr (c, mine) ↦ absurd (cc (other, mine)) ]))
        | inl mine ↦ rw mine (
            Ensures-any (Sends id) (tc_assert_state m connected) _ λ u.
              Ensures-bind
                (λ r. ((r.0 ≡ false) × (r.1 ≡ m)) ⊎ ((r.0 ≡ true) × (r.1.state ≡ authing)))
                (Sends id) (tc_auth_socket os m w) _ (asked m w)
                λ r e. elim e [
                  | inl (unsent, same) ↦ rw (unsent, same) (h, λ sent. absurd (cc sent))
                  | inr (sent, a) ↦ rw sent (rest r.1 r.2 (inr a))
                ])
      ]

  -- A measurement more is completed or known, unless the scheduler had none.
  abbrev pub Starts : Loop → ℕ → Loop × World → Type 0
  Starts s t (s', w') =
      Still s s'
      × (((msms : List Measurement) × (sched_next t s.msms ≡ ok (0, msms)))
          ⊎ (over s + begun s < over s' + begun s'))

  pub start_next-Starts :
      (s : Loop) (w : World) → All Quiet s.metas → Ensures (start_next os s w) (Starts s (now w).0)
  unfolding start_next
  start_next-Starts s w q =
      let Q = Starts s (now w).0 in
      Ensures-any-eq Q (sched_next (now w).0 s.msms) _ λ (id, msms) from.
        Ensures-if Q (id == 0) _ _
          (λ idle.
            let zero_id : id ≡ 0 = ground (arith, idle) in
            (
              record {
                quiet = q;
                over_le = omega arith;
                begun_le = omega arith;
                rounds = refl;
                successes = refl;
              },
              inl (msms, rw zero_id at from),
            ))
          λ new.
            Ensures-bind (Halves os id) Q (find_and_connect_metas os id s.metas msms (now w).1) _
              (find_and_connect_metas-Halves os id s.metas msms (now w).1 (Quiet-Half id s.metas q))
              λ (found, ms1, w1) h1.
                let s1 = record s { metas = ms1; msms = msms } in
                Ensures-if Q (not found) _ _
                  (λ missed. Ensures-map (fail os id s1 w1) (fail-OneFailed os id s1 w1 h1) λ r e. (
                    record {
                      quiet = e.0.quiet;
                      over_le = e.0.over_le;
                      begun_le = e.0.begun_le;
                      rounds = e.0.rounds;
                      successes = e.0.successes;
                    },
                    inr (omega (arith, e.1, e.0.begun_le)),
                  ))
                  λ all.
                    Ensures-bind (Sends id) Q (send_auth_metas os id ms1 w1) _
                      (send_auth_metas-Sends id ms1 w1 h1)
                      λ (sent, ms2, w2) h2.
                        let s2 = record s1 { known = s.known ++ id ∷ []; metas = ms2 } in
                        let more : length (s.known ++ id ∷ []) ≡ length s.known + 1 =
                          length-append s.known (id ∷ []) in
                        Ensures-if Q sent _ _
                          (λ fine. (
                            record {
                              quiet = h2.1 fine;
                              over_le = omega arith;
                              begun_le = omega (arith, more);
                              rounds = refl;
                              successes = refl;
                            },
                            inr (omega (arith, more)),
                          ))
                          λ unsent.
                            Ensures-map (fail os id s2 w2) (fail-OneFailed os id s2 w2 h2.0) λ r e.
                              (
                                record {
                                  quiet = e.0.quiet;
                                  over_le = e.0.over_le;
                                  begun_le = omega (arith, more, e.0.begun_le);
                                  rounds = e.0.rounds;
                                  successes = e.0.successes;
                                },
                                inr (omega (arith, e.1, more, e.0.begun_le)),
                              )
