-- ===== src/FlashFlow/Descriptors/Told.antt =====
-- flashflow.c: the descriptors while the clients of a measurement are told what to do.
use flashflow_research.Prelude.{
  ℕ, Bool, true, false, not, ◌&&◌, ◌||◌, List, [], ◌∷◌, ok, assertion, guard, Ensures, Ensures-bind,
  Ensures-any, Ensures-if, ◌==◌,
}
use flashflow_research.Prelude.Text.{bytes_eq}
use flashflow_research.Os.{Os}
use flashflow_research.Meta.{Meta, CsmState, measuring}
use flashflow_research.TorClient.State.{tc_assert_state}
use flashflow_research.TorClient.Handshake.{tc_start_measurement}
use flashflow_research.Sched.{Measurement, Host, sched_reset_failsafe_stop}
use flashflow_research.FlashFlow.Defs.{MsmParams}
use flashflow_research.FlashFlow.Assign.{
  Action, all_assigned, assign_host, assign_metas, start_metas,
}
use flashflow_research.FlashFlow.Loop.{tell_hosts, start_hosts}
use flashflow_research.FlashFlow.Descriptors.{
  Kernel, KernelWorks, Keeps, Calm-Keeps, Keeps-refl, Keeps-trans, Keeps-cons,
}
use flashflow_research.FlashFlow.Descriptors.Client.{Kept}
use flashflow_research.FlashFlow.Descriptors.Exchange.{tc_start_measurement-Keeps}

module _ (os : Os) (k : Kernel os) (works : KernelWorks os k) where
  open os use {World, now}

  abbrev Assigns : Meta → World → Bool × List (Host × Bool) × Meta × World → Type 0
  Assigns m w (told, hosts, m', w') = Keeps os k (m ∷ []) w (m' ∷ []) w'

  abbrev pub AssignsAll : List Meta → World → Bool × List (Host × Bool) × List Meta × World → Type 0
  AssignsAll ms w (told, hosts, ms', w') = Keeps os k ms w ms' w'

  -- What a client is told keeps to the rule.
  abbrev ActionKeeps : Action os → Type 0
  ActionKeeps act = (h : Host) (m : Meta) (w : World) → Ensures (act h m w) (Kept os k works m w)

  assign_host-Keeps :
      (act : Action os) (next : CsmState) (hosts : List (Host × Bool)) (m : Meta) (w : World)
      → ActionKeeps act
      → Ensures (assign_host os act next hosts m w) (Assigns m w)
  unfolding assign_host
  assign_host-Keeps act next [] m w a = Keeps-refl os k (m ∷ []) w
  assign_host-Keeps act next ((h, assigned) ∷ hs) m w a =
      let later = assign_host-Keeps act next hs m w a in
      Ensures-if (Assigns m w) (bytes_eq h.class m.class && not assigned) _ _
        (λ fits. Ensures-bind (Kept os k works m w) (Assigns m w) (act h m w) _ (a h m w) λ r e.
          Ensures-if (Assigns m w) r.0 _ _
            (λ told. Ensures-any (Assigns m w) (tc_assert_state r.1 next) _ λ u. e) λ untold. e)
        λ other.
          Ensures-bind (Assigns m w) (Assigns m w) (assign_host os act next hs m w) _ later λ r e. e

  assign_metas-Keeps :
      (act : Action os) (next : CsmState) (m_id : ℕ) (hosts : List (Host × Bool)) (ms : List Meta)
      (w : World)
      → ActionKeeps act
      → Ensures (assign_metas os act next m_id hosts ms w) (AssignsAll ms w)
  unfolding assign_metas
  assign_metas-Keeps act next m_id hosts [] w a = Keeps-refl os k [] w
  assign_metas-Keeps act next m_id hosts (m ∷ ms) w a =
      let rest =
        λ (hosts' : List (Host × Bool)) (m' : Meta) (w' : World)
            (h : Keeps os k (m ∷ []) w (m' ∷ []) w').
          Ensures-bind (AssignsAll ms w') (AssignsAll (m ∷ ms) w)
            (assign_metas os act next m_id hosts' ms w') (λ r. ok (r.0, r.1, m' ∷ r.2, r.3))
            (assign_metas-Keeps act next m_id hosts' ms w' a)
            (λ r e. Keeps-cons os k m m' ms r.2 w w' r.3 h e) in
      Ensures-if (AssignsAll (m ∷ ms) w) (m.current_m_id == m_id) _ _
        (λ mine.
          Ensures-bind (Assigns m w) (AssignsAll (m ∷ ms) w) (assign_host os act next hosts m w) _
            (assign_host-Keeps act next hosts m w a)
            λ r e.
              Ensures-if (AssignsAll (m ∷ ms) w) r.0 _ _ (λ told. rest r.1 r.2 r.3 e)
                λ untold. Keeps-cons os k m r.2 ms ms w r.3 r.3 e (Keeps-refl os k ms r.3))
        λ other. rest hosts m w (Keeps-refl os k (m ∷ []) w)

  pub tell_hosts-Keeps :
      (yes : Bool) (act : Action os) (next : CsmState) (m_id : ℕ) (hosts : List (Host × Bool))
      (ms : List Meta) (w : World)
      → ActionKeeps act
      → Ensures (tell_hosts os yes act next m_id hosts ms w) (AssignsAll ms w)
  unfolding tell_hosts
  tell_hosts-Keeps false act next m_id hosts ms w a = Keeps-refl os k ms w
  tell_hosts-Keeps true act next m_id hosts ms w a =
      Ensures-bind (AssignsAll ms w) (AssignsAll ms w) (assign_metas os act next m_id hosts ms w) _
        (assign_metas-Keeps act next m_id hosts ms w a)
        λ r e.
          Ensures-any (AssignsAll ms w) (guard (not r.0 || all_assigned r.1) assertion) _ λ u. e

  abbrev Starts : List Meta → World → Bool × ℕ × List Meta × World → Type 0
  Starts ms w (told, num_told, ms', w') = Keeps os k ms w ms' w'

  start_metas-Keeps :
      (m_id dur : ℕ) (ms : List Meta) (w : World)
      → Ensures (start_metas os m_id dur ms w) (Starts ms w)
  unfolding start_metas
  start_metas-Keeps m_id dur [] w = Keeps-refl os k [] w
  start_metas-Keeps m_id dur (m ∷ ms) w =
      Ensures-if (Starts (m ∷ ms) w) (m.current_m_id == m_id) _ _
        (λ mine.
          Ensures-bind (Kept os k works m w) (Starts (m ∷ ms) w) (tc_start_measurement os m dur w) _
            (tc_start_measurement-Keeps os k works m dur w)
            λ r h.
              Ensures-if (Starts (m ∷ ms) w) r.0 _ _
                (λ told. Ensures-any (Starts (m ∷ ms) w) (tc_assert_state r.1 measuring) _ λ u.
                  Ensures-bind (Starts ms r.2) (Starts (m ∷ ms) w) (start_metas os m_id dur ms r.2)
                    _ (start_metas-Keeps m_id dur ms r.2)
                    λ q e. Keeps-cons os k m r.1 ms q.2 w r.2 q.3 h e)
                λ untold. Keeps-cons os k m r.1 ms ms w r.2 r.2 h (Keeps-refl os k ms r.2))
        λ other.
          Ensures-bind (Starts ms w) (Starts (m ∷ ms) w) (start_metas os m_id dur ms w) _
            (start_metas-Keeps m_id dur ms w)
            λ q e. Keeps-cons os k m m ms q.2 w w q.3 (Keeps-refl os k (m ∷ []) w) e

  abbrev pub StartsHosts : List Meta → World → Bool × List Meta × List Measurement × World → Type 0
  StartsHosts ms w (told, ms', msms, w') = Keeps os k ms w ms' w'

  pub start_hosts-Keeps :
      (yes : Bool) (p : MsmParams) (ms : List Meta) (msms : List Measurement) (w : World)
      → Ensures (start_hosts os yes p ms msms w) (StartsHosts ms w)
  unfolding start_hosts
  start_hosts-Keeps false p ms msms w = Keeps-refl os k ms w
  start_hosts-Keeps true p ms msms w =
      let w0 = (now w).1 in
      let clock = Calm-Keeps os k ms w w0 (works.now_calm w) in
      Ensures-any (StartsHosts ms w) (sched_reset_failsafe_stop msms p.id (now w).0) _ λ msms'.
        Ensures-bind (Starts ms w0) (StartsHosts ms w) (start_metas os p.id p.dur ms w0) _
          (start_metas-Keeps p.id p.dur ms w0)
          λ r e.
            Ensures-any (StartsHosts ms w) (guard (not r.0 || (r.1 == p.num_m)) assertion) _
              λ u. Keeps-trans os k ms ms r.2 w w0 r.3 clock e
