-- ===== src/FlashFlow/Phases.antt =====
-- flashflow.c: the two blocks of a round that hand hosts to connections, and the block that starts the
-- measurement on them.
use flashflow_research.Prelude.{
  ℕ, ◌+◌, ◌≡◌, ◌≢◌, ◌⊎◌, inl, inr, refl, sym, ap, ◌∙◌, Bool, true, false, List, [], ◌∷◌, Returns,
  Returns-bind, ok, arith, ◌==◌, Bool-cases, All,
}
use flashflow_research.Prelude.Text.{Bytes}
use flashflow_research.Os.{Os}
use flashflow_research.Meta.{
  Meta, CsmState, authed, told_connect_target, connected_target, setting_bw, bw_set, measuring,
  state_number,
}
use flashflow_research.TorClient.Usage.{IsTracked}
use flashflow_research.TorClient.Exchange
use flashflow_research.TorClient.Exchange.{start}
use flashflow_research.TorClient.Handshake.{tc_start_measurement}
use flashflow_research.Sched.{Host}
use flashflow_research.FlashFlow.Defs.{all_in_state}
use flashflow_research.FlashFlow.Plans.{background_fits}
use flashflow_research.FlashFlow.Assign.{
  Action, tell_connect, set_bw, unassigned, assign_metas, start_metas,
}
use flashflow_research.FlashFlow.Loop.{tell_hosts}
use flashflow_research.FlashFlow.Staff.{staff, staff_of, hosts_of, IsOwned, owned-IsTracked}
use flashflow_research.FlashFlow.Hand.{
  Hands, Told, assign_metas-Told, free-unassigned, Suits-unassigned,
}
use flashflow_research.FlashFlow.Moves.{
  Moved, Moved-refl, Sent, run_sender-Sent, sent-IsTracked, assert_state, all_in_state-mine,
  all_in_state-rest,
}

pub tell_connect-Hands :
    (os : Os) (fp : Bytes) → Hands os (tell_connect os fp) authed told_connect_target
tell_connect-Hands os fp = record {
  acts = λ h m w e f. run_sender-Sent os (Exchange.tell_connect fp h.conns) m w e f;
  in_use = (λ e. cc e, λ e. cc e);
}

pub set_bw-Hands : (os : Os) → Hands os (set_bw os) connected_target setting_bw
set_bw-Hands os = record {
  acts = λ h m w e f. run_sender-Sent os (Exchange.set_bw h.bw) m w e refl;
  in_use = (λ e. cc e, λ e. cc e);
}

-- A measurement that has a connection is in one state at most.
pub all_in_state-apart :
    (s t : CsmState) (id : ℕ) (ms : List Meta)
    → (state_number s == state_number t) ≡ false
    → staff id ms ≢ 0
    → all_in_state s id ms ≡ true
    → all_in_state t id ms ≡ false
unfolding all_in_state
all_in_state-apart s t id [] e n h = absurd (n refl)
all_in_state-apart s t id (m ∷ ms) e n h = elim (Bool-cases (m.current_m_id == id)) [
  | inl mine ↦
      let here = all_in_state-mine s id m ms mine h in
      let differs : (state_number m.state == state_number t) ≡ false =
        ap (λ z. state_number z == state_number t) here ∙ e in
      rw (mine, differs) refl
  | inr other ↦
      rw other
        (all_in_state-apart s t id ms e (λ z. n (rw other z)) (all_in_state-rest s id m ms h))
]

module _ (os : Os) where
  open os use {World}

  module _ (act : Action os) (st next : CsmState) (hand : Hands os act st next) where
    -- After such a block: nothing was to be done, or all is done, or a command failed.
    abbrev pub Tells :
        ℕ → List (Host × Bool) → List Meta → Bool × List (Host × Bool) × List Meta × World → Type 0
    Tells id hs ms (told, hs', ms', w') =
        Moved ms ms'
        × ((told ≡ false)
            ⊎ ((told ≡ true) × (((hs' ≡ hs) × (ms' ≡ ms)) ⊎ (all_in_state next id ms' ≡ true))))

    pub tell_hosts-Tells :
        (known : List ℕ) (id : ℕ) (hosts : List Host) (hs : List (Host × Bool)) (ms : List Meta)
        (w : World)
        → id ≢ 0
        → All (IsOwned known) ms
        → ((c : Bytes) → staff_of id c ms ≡ hosts_of c hosts)
        → All (λ h. background_fits h ≡ true) hosts
        → (hs ≡ unassigned hosts) ⊎ (all_in_state st id ms ≡ false)
        → Returns (tell_hosts os (all_in_state st id ms) act next id hs ms w) (Tells id hs ms)
    unfolding tell_hosts
    tell_hosts-Tells known id hosts hs ms w n o f g ready =
        elim (Bool-cases (all_in_state st id ms)) [
          | inr not_now ↦
              rw not_now (Moved-refl ms (owned-IsTracked known ms o), inr (refl, inl (refl, refl)))
          | inl entered ↦
              let fresh : hs ≡ unassigned hosts = elim ready [
                | inl e ↦ e
                | inr shut ↦ absurd (cc (entered, shut))
              ] in
              rw (entered, fresh)
                (Returns-bind (Told os act st next hand id ms) (Tells id (unassigned hosts) ms)
                  (assign_metas os act next id (unassigned hosts) ms w) _
                  (assign_metas-Told os act st next hand known id (unassigned hosts) ms w n o
                    entered (λ c. f c ∙ sym (free-unassigned c hosts)) (Suits-unassigned hosts g))
                  λ r t. elim t.1 [
                    | inl untold ↦ rw untold (t.0, inl refl)
                    | inr (told, all, states) ↦ rw (told, all) (t.0, inr (refl, inr states))
                  ])
        ]

  -- Every connection of the measurement is started and counted, or a command failed.
  abbrev pub StartsAll : ℕ → List Meta → Bool × ℕ × List Meta × World → Type 0
  StartsAll id ms (told, num_told, ms', w') =
      Moved ms ms' × ((told ≡ false) ⊎ ((told ≡ true) × (num_told ≡ staff id ms)))

  pub start_metas-StartsAll :
      (id dur : ℕ) (ms : List Meta) (w : World)
      → id ≢ 0
      → All IsTracked ms
      → all_in_state bw_set id ms ≡ true
      → Returns (start_metas os id dur ms w) (StartsAll id ms)
  unfolding start_metas
  start_metas-StartsAll id dur [] w n t a = (tt, inr (refl, refl))
  start_metas-StartsAll id dur (m ∷ ms) w n t a = elim (Bool-cases (m.current_m_id == id)) [
    | inr other ↦ rw other (
        Returns-bind (StartsAll id ms) (StartsAll id (m ∷ ms)) (start_metas os id dur ms w)
          (λ r. ok (r.0, r.1, m ∷ r.2, r.3))
          (start_metas-StartsAll id dur ms w n t.1 (all_in_state-rest bw_set id m ms a))
          λ r k. (
            (refl, t.0, k.0),
            elim k.1 [ inl untold ↦ inl untold | inr (told, num) ↦ inr (told, rw other num) ],
          ))
    | inl mine ↦
        let here = all_in_state-mine bw_set id m ms mine a in
        let busy : m.current_m_id ≢ 0 = λ e. ground (arith, n) in
        rw mine (
          Returns-bind (Sent m measuring) (StartsAll id (m ∷ ms)) (tc_start_measurement os m dur w)
            _ (run_sender-Sent os (start dur) m w here refl)
            λ r k. elim k [
              | inl (unsent, e) ↦ rw (unsent, e) ((refl, t.0, Moved-refl ms t.1), inl refl)
              | inr (sent, e) ↦
                  rw (sent, e, assert_state (record m { state = measuring }) measuring refl)
                    (Returns-bind (StartsAll id ms) (StartsAll id (m ∷ ms))
                      (start_metas os id dur ms r.2)
                      (λ q. ok (q.0, q.1 + 1, record m { state = measuring } ∷ q.2, q.3))
                      (start_metas-StartsAll id dur ms r.2 n t.1
                        (all_in_state-rest bw_set id m ms a))
                      λ q j. (
                        (refl, sent-IsTracked (start dur) m busy, j.0),
                        elim j.1 [
                          | inl untold ↦ inl untold
                          | inr (told, num) ↦ inr (told, rw mine (omega (arith, num)))
                        ],
                      ))
            ])
  ]
