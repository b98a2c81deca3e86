-- ===== src/FlashFlow/Silence/Failing.antt =====
-- flashflow.c: failures and completions in a quiet state.
use flashflow_research.Prelude.{
  ℕ, zero, suc, ◌+◌, ◌≤◌, ◌<◌, ◌≡◌, ◌⊎◌, inl, inr, refl, ap, Option, none, some, List, [], ◌∷◌, ok,
  err, assertion, ◌>>=◌, ◌>>◌, guard, Ensures, Ensures-bind, Ensures-any, Ensures-if, Ensures-map,
  Bool-cases, All, arith, length, get_elem?, ltb, ◌==◌, if◌then◌else◌,
}
use flashflow_research.Prelude.Int.{is_neg}
use flashflow_research.Os.{Os, Timeval}
use flashflow_research.Meta.{Meta, invalid}
use flashflow_research.TorClient.State.{tc_change_state}
use flashflow_research.TorClient.Lifecycle.{change_state_then}
use flashflow_research.TorClient.Socket.{tc_mark_failed, tc_finished_with_meta}
use flashflow_research.Sched.{Measurement, sched_mark_done}
use flashflow_research.FlashFlow.Defs.{fill_msm_params, remove_id, fail_metas, measurement_failed}
use flashflow_research.FlashFlow.Loop.{Loop, last_of, fail, fail_all, check_progress, fail_overdue}
use flashflow_research.FlashFlow.Silence.{
  Quiet, Half, Quiet-Half, over, begun, Still, Still-refl, Still-trans, length-remove_id,
}

module _ (os : Os) where
  open os use {World, gettimeofday}

  given_back :
      (m : Meta) (w : World) → Ensures (tc_finished_with_meta os m w) (λ r. r.0.state ≡ invalid)
  unfolding tc_finished_with_meta
  given_back m w =
      Ensures-bind (λ m'. m' ≡ record m { state = invalid })
        (λ (r : Meta × World). r.0.state ≡ invalid) (tc_change_state m invalid) _
        (change_state_then m invalid _ (λ good. refl))
        λ m' e.
          rw e
            (elim (Bool-cases (is_neg m.fd)) [ inl neg ↦ rw neg refl | inr there ↦ rw there refl ])

  abbrev Quiets : List Meta × World → Type 0
  Quiets (ms', w') = All Quiet ms'

  -- The connections of the measurement are unused then, and the others were quiet.
  fail_metas-Quiets :
      (id : ℕ) (ms : List Meta) (w : World)
      → All (Half id) ms
      → Ensures (fail_metas os id ms w) Quiets
  unfolding fail_metas
  fail_metas-Quiets id [] w h = tt
  fail_metas-Quiets id (m ∷ ms) w h =
      Ensures-bind (λ (r : Meta × World). Quiet r.0) Quiets
        (if m.current_m_id == id
          then (do f ← tc_mark_failed m; tc_finished_with_meta os f w)
          else ok (m, w))
        _
        (Ensures-if (λ (r : Meta × World). Quiet r.0) (m.current_m_id == id) _ _
          (λ mine.
            Ensures-any (λ (r : Meta × World). Quiet r.0) (tc_mark_failed m) _
              λ f. Ensures-map (tc_finished_with_meta os f w) (given_back f w) λ r e. inl e)
          λ other. elim h.0 [ inl q ↦ q | inr (c, mine) ↦ absurd (cc (other, mine)) ])
        λ r q.
          Ensures-bind Quiets Quiets (fail_metas os id ms r.1) (λ x. ok (r.0 ∷ x.0, x.1))
            (fail_metas-Quiets id ms r.1 h.1) λ x e. (q, e)

  -- What a failure leaves.
  abbrev pub OneFailed : Loop → Loop × World → Type 0
  OneFailed s (s', w') = Still s s' × (over s' ≡ suc (over s))

  pub fail-OneFailed :
      (id : ℕ) (s : Loop) (w : World)
      → All (Half id) s.metas
      → Ensures (fail os id s w) (OneFailed s)
  unfolding fail measurement_failed
  fail-OneFailed id s w h =
      Ensures-bind
        (λ (r : List ℕ × List Meta × List Measurement × World).
          (r.0 ≡ remove_id s.known id) × All Quiet r.1)
        (OneFailed s) (measurement_failed os id s.known s.metas s.msms w) _
        (Ensures-bind Quiets
          (λ (r : List ℕ × List Meta × List Measurement × World).
            (r.0 ≡ remove_id s.known id) × All Quiet r.1)
          (fail_metas os id s.metas w) _ (fail_metas-Quiets id s.metas w h)
          λ r q.
            Ensures-any
              (λ (r : List ℕ × List Meta × List Measurement × World).
                (r.0 ≡ remove_id s.known id) × All Quiet r.1)
              (sched_mark_done s.msms id) _ λ msms. (refl, q))
        λ (known, metas, msms, w') (e, q). rw e (
          record {
            quiet = q;
            over_le = omega arith;
            begun_le = omega (arith, length-remove_id s.known id);
            rounds = refl;
            successes = refl;
          },
          omega arith,
        )

  -- A measurement at least fails, where one is known.
  abbrev SomeOver : ℕ → List ℕ → Loop → Loop × World → Type 0
  SomeOver n known s (s', w') =
      Still s s' × (((s' ≡ s) × ((n ≡ 0) ⊎ (length known ≡ 0))) ⊎ (over s < over s'))

  fail_all-SomeOver :
      (n : ℕ) (s : Loop) (w : World)
      → All Quiet s.metas
      → Ensures (fail_all os n s w) (SomeOver n s.known s)
  unfolding fail_all
  fail_all-SomeOver zero s w q = (Still-refl s q, inl (refl, inl refl))
  fail_all-SomeOver (suc n) s w q =
      elim s.known
        as (λ l.
          Ensures {A = Loop × World}
            (elim l [
              | [] ↦ ok (s, w)
              | x ∷ xs ↦ (do (s', w') ← fail os (last_of x xs) s w; fail_all os n s' w')
            ])
            (SomeOver (suc n) l s)) [
              | [] ↦ (Still-refl s q, inl (refl, inr refl))
              | x ∷ xs ↦
                  Ensures-bind (OneFailed s) (SomeOver (suc n) (x ∷ xs) s)
                    (fail os (last_of x xs) s w) _
                    (fail-OneFailed (last_of x xs) s w (Quiet-Half (last_of x xs) s.metas q))
                    λ r e.
                      Ensures-map (fail_all os n r.0 r.1) (fail_all-SomeOver n r.0 r.1 e.0.quiet)
                        λ t e'.
                          (Still-trans s r.0 t.0 e.0 e'.0, inr (omega (arith, e.1, e'.0.over_le)))
            ]

  abbrev pub cleared : Loop → Loop
  cleared s = record s { loops_without_progress = 0 }

  -- With too many rounds without progress, each known measurement fails.
  abbrev pub Cleared : Loop → Loop × World → Type 0
  Cleared s (s', w') =
      ((s' ≡ s) × (s.loops_without_progress ≤ 10))
      ⊎ (All Quiet s'.metas
          × (s'.count_success ≡ s.count_success)
          × (over s ≤ over s')
          × (begun s ≤ begun s')
          × (((s' ≡ cleared s) × (length s.known ≡ 0)) ⊎ (over s < over s')))

  pub check_progress-Cleared :
      (s : Loop) (w : World) → All Quiet s.metas → Ensures (check_progress os s w) (Cleared s)
  unfolding check_progress
  check_progress-Cleared s w q = elim (Bool-cases (ltb 10 s.loops_without_progress)) [
    | inr few ↦ rw few (inl (refl, ground (arith, few)))
    | inl many ↦ rw many (
        Ensures-bind (SomeOver (length s.known) s.known s) (Cleared s)
          (fail_all os (length s.known) s w) _ (fail_all-SomeOver (length s.known) s w q)
          λ r (e, more). inr (
            e.quiet,
            e.successes,
            e.over_le,
            e.begun_le,
            elim more [
              | inr some_over ↦ inr some_over
              | inl (same, none_known) ↦
                  inl (ap cleared same, elim none_known [ inl z ↦ z | inr z ↦ z ])
            ],
          ))
  ]

  -- Nothing changes unless a measurement fails.
  abbrev pub Unless : Loop → Loop × World → Type 0
  Unless s (s', w') = Still s s' × ((s' ≡ s) ⊎ (over s < over s'))

  pub fail_overdue-Unless :
      (n i : ℕ) (s : Loop) (w : World)
      → All Quiet s.metas
      → Ensures (fail_overdue os n i s w) (Unless s)
  unfolding fail_overdue
  fail_overdue-Unless zero i s w q = (Still-refl s q, inl refl)
  fail_overdue-Unless (suc n) i s w q =
      turn (get_elem? s.known i) (λ j s' w' q'. fail_overdue-Unless n j s' w' q')
    where
      w1 : World
      w1 = (gettimeofday w).1

      timed :
          (m_id stop : ℕ) (time : Option Timeval)
          → ((j : ℕ) (s' : Loop) (w' : World)
              → All Quiet s'.metas
              → Ensures (fail_overdue os n j s' w') (Unless s'))
          → Ensures {A = Loop × World}
              (elim time [
                | none ↦ err assertion
                | some t ↦
                    if ltb stop t.tv_sec
                    then (do (s', w2) ← fail os m_id s w1; fail_overdue os n i s' w2)
                    else fail_overdue os n (i + 1) s w1
              ])
              (Unless s)
      timed m_id stop none ih = tt
      timed m_id stop (some t) ih =
          Ensures-if (Unless s) (ltb stop t.tv_sec) _ _
            (λ late.
              Ensures-bind (OneFailed s) (Unless s) (fail os m_id s w1) _
                (fail-OneFailed m_id s w1 (Quiet-Half m_id s.metas q))
                λ r e.
                  Ensures-map (fail_overdue os n i r.0 r.1) (ih i r.0 r.1 e.0.quiet) λ t e'.
                    (Still-trans s r.0 t.0 e.0 e'.0, inr (omega (arith, e.1, e'.0.over_le))))
            λ fine. ih (i + 1) s w1 q

      turn :
          (o : Option ℕ)
          → ((j : ℕ) (s' : Loop) (w' : World)
              → All Quiet s'.metas
              → Ensures (fail_overdue os n j s' w') (Unless s'))
          → Ensures {A = Loop × World}
              (elim o [
                | none ↦ ok (s, w)
                | some m_id ↦ (do
                  (filled, p) ← fill_msm_params s.msms m_id
                  guard filled assertion
                  let (time, w1) = gettimeofday w
                  elim time [
                    | none ↦ err assertion
                    | some t ↦
                        if ltb p.failsafe_stop t.tv_sec
                        then (do (s', w2) ← fail os m_id s w1; fail_overdue os n i s' w2)
                        else fail_overdue os n (i + 1) s w1
                  ])
              ])
              (Unless s)
      turn none ih = (Still-refl s q, inl refl)
      turn (some m_id) ih = Ensures-any (Unless s) (fill_msm_params s.msms m_id) _ λ p.
          Ensures-any (Unless s) (guard p.0 assertion) _
            λ u. timed m_id p.1.failsafe_stop (gettimeofday w).0 ih
