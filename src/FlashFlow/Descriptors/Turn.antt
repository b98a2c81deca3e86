-- ===== src/FlashFlow/Descriptors/Turn.antt =====
-- flashflow.c: the descriptors over the first half of a round.
use flashflow_research.Prelude.{
  ℕ, zero, suc, ◌+◌, not, Option, none, some, Result, ok, assertion, ◌>>=◌, guard, Ensures,
  Ensures-bind, Ensures-any, Ensures-if, Ensures-map, get_elem?, length,
}
use flashflow_research.Os.{Os}
use flashflow_research.Meta.{told_connect_target, setting_bw}
use flashflow_research.FlashFlow.Defs.{
  fill_msm_params, is_totally_authed, is_totally_connected_target, is_totally_bw_set,
}
use flashflow_research.FlashFlow.Assign.{tell_connect, set_bw, unassigned}
use flashflow_research.FlashFlow.Loop.{
  Loop, Next, next_item, same_index, main_loop_end, return_error, check_progress, fail_overdue,
  start_next, tell_hosts, start_hosts, fail_and_end, finish_if_done, handle_measurement,
  handle_known,
}
use flashflow_research.FlashFlow.Rounds.{prepare_round}
use flashflow_research.FlashFlow.Descriptors.{Kernel, KernelWorks, Keeps, Keeps-refl, Keeps-trans}
use flashflow_research.FlashFlow.Descriptors.Exchange.{tc_tell_connect-Keeps, tc_set_bw_rate-Keeps}
use flashflow_research.FlashFlow.Descriptors.Failing.{
  KeptLoop, KeptNext, fail_and_end-Keeps, check_progress-Keeps, fail_overdue-Keeps,
  finish_if_done-Keeps,
}
use flashflow_research.FlashFlow.Descriptors.Hosts.{start_next-Keeps}
use flashflow_research.FlashFlow.Descriptors.Told.{
  AssignsAll, tell_hosts-Keeps, StartsHosts, start_hosts-Keeps,
}

module _ (os : Os) (k : Kernel os) (works : KernelWorks os k) where
  open os use {World}

  -- A part of a round and what follows it.
  pub then-Next :
      (s s' : Loop) (w w' : World) (r : Result (Next × Loop × World))
      → Keeps os k s.metas w s'.metas w'
      → Ensures r (KeptNext os k works s' w')
      → Ensures r (KeptNext os k works s w)
  then-Next s s' w w' r h e =
      Ensures-map r e λ q e'. Keeps-trans os k s.metas s'.metas q.1.metas w w' q.2 h e'

  handle_measurement-Keeps :
      (i m_id : ℕ) (s : Loop) (w : World)
      → Ensures (handle_measurement os i m_id s w) (KeptNext os k works s w)
  unfolding handle_measurement
  handle_measurement-Keeps i m_id s w =
      let Q = KeptNext os k works s w in
      let fails = λ (s' : Loop) (w' : World) (h : Keeps os k s.metas w s'.metas w').
        then-Next s s' w w' (fail_and_end os m_id s' w') h
          (fail_and_end-Keeps os k works m_id s' w') in
      Ensures-any Q (fill_msm_params s.msms m_id) _ λ (filled, p).
        Ensures-any Q (guard filled assertion) _ λ u.
          Ensures-bind (AssignsAll os k works s.metas w) Q
            (tell_hosts os (is_totally_authed m_id s.metas) (tell_connect os p.fp)
              told_connect_target m_id (unassigned p.hosts) s.metas w)
            _
            (tell_hosts-Keeps os k works _ (tell_connect os p.fp) told_connect_target m_id _ s.metas
              w λ h m v. tc_tell_connect-Keeps os k works m p.fp h.conns v)
            λ (told1, hosts1, ms1, w1) h1.
              Ensures-if Q (not told1) _ _ (λ untold. fails (record s { metas = ms1 }) w1 h1)
                λ all.
                  Ensures-bind (AssignsAll os k works ms1 w1) Q
                    (tell_hosts os (is_totally_connected_target m_id ms1) (set_bw os) setting_bw
                      m_id hosts1 ms1 w1)
                    _
                    (tell_hosts-Keeps os k works _ (set_bw os) setting_bw m_id hosts1 ms1 w1
                      λ h m v. tc_set_bw_rate-Keeps os k works m h.bw v)
                    λ (told2, hosts2, ms2, w2) e2.
                      let h2 = Keeps-trans os k s.metas ms1 ms2 w w1 w2 h1 e2 in
                      Ensures-if Q (not told2) _ _
                        (λ untold. fails (record s { metas = ms2 }) w2 h2)
                        λ all'.
                          Ensures-bind (StartsHosts os k works ms2 w2) Q
                            (start_hosts os (is_totally_bw_set m_id ms2) p ms2 s.msms w2) _
                            (start_hosts-Keeps os k works _ p ms2 s.msms w2)
                            λ (told3, ms3, msms3, w3) e3.
                              let h3 = Keeps-trans os k s.metas ms2 ms3 w w2 w3 h2 e3 in
                              let s3 = record s { metas = ms3; msms = msms3 } in
                              Ensures-if Q (not told3) _ _ (λ untold. fails s3 w3 h3)
                                λ started.
                                  then-Next s s3 w w3 (finish_if_done os i m_id s3 w3) h3
                                    (finish_if_done-Keeps os k works i m_id s3 w3)

  handle_known-Keeps :
      (n i : ℕ) (s : Loop) (w : World) → Ensures (handle_known os n i s w) (KeptNext os k works s w)
  unfolding handle_known
  handle_known-Keeps zero i s w = Keeps-refl os k s.metas w
  handle_known-Keeps (suc n) i s w =
      turn (get_elem? s.known i) (λ j s' w'. handle_known-Keeps n j s' w')
    where
      further :
          (next : Next) (s' : Loop) (w' : World)
          → ((j : ℕ) (s' : Loop) (w' : World)
              → Ensures (handle_known os n j s' w') (KeptNext os k works s' w'))
          → Keeps os k s.metas w s'.metas w'
          → Ensures {A = Next × Loop × World}
              (elim next [
                | next_item ↦ handle_known os n (i + 1) s' w'
                | same_index ↦ handle_known os n i s' w'
                | main_loop_end ↦ ok (main_loop_end, s', w')
                | return_error ↦ ok (return_error, s', w')
              ])
              (KeptNext os k works s w)
      further next_item s' w' ih h = then-Next s s' w w' _ h (ih (i + 1) s' w')
      further same_index s' w' ih h = then-Next s s' w w' _ h (ih i s' w')
      further main_loop_end s' w' ih h = h
      further return_error s' w' ih h = h

      turn :
          (o : Option ℕ)
          → ((j : ℕ) (s' : Loop) (w' : World)
              → Ensures (handle_known os n j s' w') (KeptNext os k works s' w'))
          → Ensures {A = Next × Loop × World}
              (elim o [
                | none ↦ ok (next_item, s, w)
                | some m_id ↦ (do
                  (next, s', w') ← handle_measurement os i m_id s w
                  elim next [
                    | next_item ↦ handle_known os n (i + 1) s' w'
                    | same_index ↦ handle_known os n i s' w'
                    | main_loop_end ↦ ok (main_loop_end, s', w')
                    | return_error ↦ ok (return_error, s', w')
                  ])
              ])
              (KeptNext os k works s w)
      turn none ih = Keeps-refl os k s.metas w
      turn (some m_id) ih =
          Ensures-bind (KeptNext os k works s w) (KeptNext os k works s w)
            (handle_measurement os i m_id s w) _ (handle_measurement-Keeps i m_id s w)
            λ r h. further r.0 r.1 r.2 ih h

  -- Whatever the first half of a round comes to, if it returns it keeps to the rule.
  pub prepare_round-Keeps :
      (s : Loop) (w : World) → Ensures (prepare_round os s w) (KeptNext os k works s w)
  unfolding prepare_round
  prepare_round-Keeps s w =
      let Q = KeptNext os k works s w in
      Ensures-bind (KeptLoop os k works s w) Q (check_progress os s w) _
        (check_progress-Keeps os k works s w)
        λ (s1, w1) h1. then-Next s s1 w w1 _ h1 (
          Ensures-bind (KeptLoop os k works s1 w1) (KeptNext os k works s1 w1)
            (fail_overdue os (length s1.known) 0 s1 w1) _
            (fail_overdue-Keeps os k works (length s1.known) 0 s1 w1)
            λ (s2, w2) h2. then-Next s1 s2 w1 w2 _ h2 (
              Ensures-bind (KeptLoop os k works s2 w2) (KeptNext os k works s2 w2)
                (start_next os s2 w2) _ (start_next-Keeps os k works s2 w2)
                λ (s3, w3) h3.
                  then-Next s2 s3 w2 w3 _ h3 (handle_known-Keeps (length s3.known) 0 s3 w3)))
