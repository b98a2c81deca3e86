-- ===== src/FlashFlow/Auth.antt =====
-- flashflow.c: send_auth_metas, which begins the handshake on the connections of a measurement.
use flashflow_research.Prelude.{
  ℕ, ◌≡◌, ◌≢◌, inl, inr, refl, Bool, true, List, [], ◌∷◌, Returns, Returns-bind, ok, arith, ◌==◌,
  Bool-cases, All,
}
use flashflow_research.Os.{Os}
use flashflow_research.Meta.{Meta, connected, authing}
use flashflow_research.TorClient.Usage.{IsTracked}
use flashflow_research.TorClient.Exchange.{auth}
use flashflow_research.TorClient.Handshake.{tc_auth_socket}
use flashflow_research.FlashFlow.Defs.{all_in_state, send_auth_metas}
use flashflow_research.FlashFlow.Moves.{
  Moved, Moved-refl, Sent, run_sender-Sent, sent-IsTracked, assert_state, all_in_state-mine,
  all_in_state-rest,
}

module _ (os : Os) where
  open os use {World}

  abbrev pub Moves : List Meta → Bool × List Meta × World → Type 0
  Moves ms (sent, ms', w') = Moved ms ms'

  -- While the connections of the measurement are connected, the call returns, and nothing but their
  -- states changes.
  pub send_auth_metas-Moved :
      (id : ℕ) (ms : List Meta) (w : World)
      → id ≢ 0
      → All IsTracked ms
      → all_in_state connected id ms ≡ true
      → Returns (send_auth_metas os id ms w) (Moves ms)
  unfolding send_auth_metas
  send_auth_metas-Moved id [] w n t h = tt
  send_auth_metas-Moved id (m ∷ ms) w n t h =
      let rest =
        λ (m' : Meta) (w' : World) (e : m' ≡ record m { state = m'.state }) (t' : IsTracked m').
          Returns-bind (Moves ms) (Moves (m ∷ ms)) (send_auth_metas os id ms w')
            (λ r. ok (r.0, m' ∷ r.1, r.2))
            (send_auth_metas-Moved id ms w' n t.1 (all_in_state-rest connected id m ms h))
            (λ r k. (e, t', k)) in
      elim (Bool-cases (m.current_m_id == id)) [
        | inr other ↦ rw other (rest m w refl t.0)
        | inl mine ↦
            let here = all_in_state-mine connected id m ms mine h in
            let busy : m.current_m_id ≢ 0 = λ e. ground (arith, n) in
            rw (mine, assert_state m connected here)
              (Returns-bind (Sent m authing) (Moves (m ∷ ms)) (tc_auth_socket os m w) _
                (run_sender-Sent os auth m w here refl)
                λ r k. elim k [
                  | inl (unsent, e) ↦ rw (unsent, e) (refl, t.0, Moved-refl ms t.1)
                  | inr (sent, e) ↦
                      rw (sent, e)
                        (rest (record m { state = authing }) r.2 refl (sent-IsTracked auth m busy))
                ])
      ]
