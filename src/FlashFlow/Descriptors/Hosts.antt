-- ===== src/FlashFlow/Descriptors/Hosts.antt =====
-- flashflow.c: the descriptors while hosts get their connections and measurements are started.
use flashflow_research.Prelude.{
  ℕ, zero, suc, Bool, false, not, Option, none, some, List, [], ◌∷◌, ok, Ensures, Ensures-bind,
  Ensures-any, Ensures-if, Ensures-map, ◌==◌, arith,
}
use flashflow_research.Os.{Os}
use flashflow_research.Meta.{Meta, connected}
use flashflow_research.TorClient.State.{tc_assert_state}
use flashflow_research.TorClient.Socket.{tc_next_available}
use flashflow_research.TorClient.Handshake.{tc_auth_socket}
use flashflow_research.Sched.{Measurement, Host, sched_next}
use flashflow_research.FlashFlow.Defs.{
  fill_msm_params, take_meta, connect_hosts, find_and_connect_metas, send_auth_metas,
}
use flashflow_research.FlashFlow.Loop.{Loop, start_next, fail}
use flashflow_research.FlashFlow.Descriptors.{
  Kernel, KernelWorks, Keeps, Calm-Keeps, Keeps-refl, Keeps-trans, Keeps-cons,
}
use flashflow_research.FlashFlow.Descriptors.Client.{Kept, tc_next_available-Keeps}
use flashflow_research.FlashFlow.Descriptors.Exchange.{tc_auth_socket-Keeps}
use flashflow_research.FlashFlow.Descriptors.Failing.{KeptLoop, fail-Keeps}

module _ (os : Os) (k : Kernel os) (works : KernelWorks os k) where
  open os use {World, now}

  -- The measurement of a connection is not its descriptor.
  take_meta-Keeps :
      (i m_id : ℕ) (ms : List Meta) (w : World) → Keeps os k ms w (take_meta i m_id ms) w
  take_meta-Keeps i m_id [] w = Keeps-refl os k [] w
  take_meta-Keeps zero m_id (m ∷ ms) w = record {
    slack = λ d. omega arith;
    quiet = λ fd h. h;
    wired = λ h. h;
  }
  take_meta-Keeps (suc i) m_id (m ∷ ms) w =
      Keeps-cons os k m m ms (take_meta i m_id ms) w w w (Keeps-refl os k (m ∷ []) w)
        (take_meta-Keeps i m_id ms w)

  abbrev pub Sends : List Meta → World → Bool × List Meta × World → Type 0
  Sends ms w (good, ms', w') = Keeps os k ms w ms' w'

  connect_hosts-Keeps :
      (m_id : ℕ) (hs : List Host) (ms : List Meta) (w : World)
      → Ensures (connect_hosts os m_id hs ms w) (Sends ms w)
  unfolding connect_hosts
  connect_hosts-Keeps m_id [] ms w = Keeps-refl os k ms w
  connect_hosts-Keeps m_id (h ∷ hs) ms w =
      Ensures-bind (λ r. Keeps os k ms w r.1 r.2) (Sends ms w) (tc_next_available os ms h.class w) _
        (tc_next_available-Keeps os k works ms h.class w)
        λ r e. next r.0 r.1 r.2 e (λ ms' w'. connect_hosts-Keeps m_id hs ms' w')
    where
      next :
          (found : Option ℕ) (ms' : List Meta) (w' : World)
          → Keeps os k ms w ms' w'
          → ((l : List Meta) (v : World) → Ensures (connect_hosts os m_id hs l v) (Sends l v))
          → Ensures {A = Bool × List Meta × World}
              (elim found [
                | none ↦ ok (false, ms', w')
                | some i ↦ connect_hosts os m_id hs (take_meta i m_id ms') w'
              ])
              (Sends ms w)
      next none ms' w' e ih = e
      next (some i) ms' w' e ih =
          let l = take_meta i m_id ms' in
          let e' = Keeps-trans os k ms ms' l w w' w' e (take_meta-Keeps i m_id ms' w') in
          Ensures-map (connect_hosts os m_id hs l w') (ih l w')
            λ r q. Keeps-trans os k ms l r.1 w w' r.2 e' q

  find_and_connect_metas-Keeps :
      (m_id : ℕ) (ms : List Meta) (msms : List Measurement) (w : World)
      → Ensures (find_and_connect_metas os m_id ms msms w) (Sends ms w)
  unfolding find_and_connect_metas
  find_and_connect_metas-Keeps m_id ms msms w =
      Ensures-any (Sends ms w) (fill_msm_params msms m_id) _ λ p.
        Ensures-if (Sends ms w) p.0 _ _ (λ filled. connect_hosts-Keeps m_id p.1.hosts ms w)
          λ empty. Keeps-refl os k ms w

  send_auth_metas-Keeps :
      (m_id : ℕ) (ms : List Meta) (w : World) → Ensures (send_auth_metas os m_id ms w) (Sends ms w)
  unfolding send_auth_metas
  send_auth_metas-Keeps m_id [] w = Keeps-refl os k [] w
  send_auth_metas-Keeps m_id (m ∷ ms) w =
      let rest = λ (m' : Meta) (w' : World) (h : Keeps os k (m ∷ []) w (m' ∷ []) w').
        Ensures-bind (Sends ms w') (Sends (m ∷ ms) w) (send_auth_metas os m_id ms w')
          (λ r. ok (r.0, m' ∷ r.1, r.2)) (send_auth_metas-Keeps m_id ms w')
          (λ r e. Keeps-cons os k m m' ms r.1 w w' r.2 h e) in
      Ensures-if (Sends (m ∷ ms) w) (not (m.current_m_id == m_id)) _ _
        (λ other. rest m w (Keeps-refl os k (m ∷ []) w))
        λ mine. Ensures-any (Sends (m ∷ ms) w) (tc_assert_state m connected) _ λ u.
          Ensures-bind (Kept os k works m w) (Sends (m ∷ ms) w) (tc_auth_socket os m w) _
            (tc_auth_socket-Keeps os k works m w)
            λ r h.
              Ensures-if (Sends (m ∷ ms) w) r.0 _ _ (λ sent. rest r.1 r.2 h)
                λ unsent. Keeps-cons os k m r.1 ms ms w r.2 r.2 h (Keeps-refl os k ms r.2)

  pub start_next-Keeps :
      (s : Loop) (w : World) → Ensures (start_next os s w) (KeptLoop os k works s w)
  unfolding start_next
  start_next-Keeps s w =
      let w0 = (now w).1 in
      let clock = Calm-Keeps os k s.metas w w0 (works.now_calm w) in
      Ensures-any (KeptLoop os k works s w) (sched_next (now w).0 s.msms) _ λ (id, msms).
        Ensures-if (KeptLoop os k works s w) (id == 0) _ _ (λ idle. clock)
          λ new.
            Ensures-bind (Sends s.metas w0) (KeptLoop os k works s w)
              (find_and_connect_metas os id s.metas msms w0) _
              (find_and_connect_metas-Keeps id s.metas msms w0)
              λ (found, ms1, w1) h1.
                let h2 = Keeps-trans os k s.metas s.metas ms1 w w0 w1 clock h1 in
                Ensures-if (KeptLoop os k works s w) (not found) _ _
                  (λ missed.
                    Ensures-map (fail os id (record s { metas = ms1; msms = msms }) w1)
                      (fail-Keeps os k works id (record s { metas = ms1; msms = msms }) w1)
                      λ r e. Keeps-trans os k s.metas ms1 r.0.metas w w1 r.1 h2 e)
                  λ all.
                    Ensures-bind (Sends ms1 w1) (KeptLoop os k works s w)
                      (send_auth_metas os id ms1 w1) _ (send_auth_metas-Keeps id ms1 w1)
                      λ (sent, ms2, w2) h3.
                        let h4 = Keeps-trans os k s.metas ms1 ms2 w w1 w2 h2 h3 in
                        Ensures-if (KeptLoop os k works s w) sent _ _ (λ fine. h4)
                          λ unsent.
                            Ensures-map (fail os id _ w2) (fail-Keeps os k works id _ w2)
                              λ r e. Keeps-trans os k s.metas ms2 r.0.metas w w2 r.1 h4 e
