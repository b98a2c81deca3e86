-- ===== src/FlashFlow/Silence/Round.antt =====
-- flashflow.c: a round in which no client answers.
use flashflow_research.Prelude.{
  ℕ, suc, ◌+◌, ◌≤◌, ◌<◌, ◌≡◌, ◌⊎◌, inl, inr, refl, sym, ap, ◌∙◌, subst, Option, List, ◌++◌, ok,
  Returns, Ensures, Returns-Ensures, Returns-weaken, Ensures-bind, Ensures-map, Bool-cases, All,
  All-map, Returns-bind, Returns-map, arith, length, ltb, ◌==◌,
}
use flashflow_research.Os.{Os}
use flashflow_research.Sched.{Measurement, sched_next}
use flashflow_research.FlashFlow.Plans.{Plan, Fits}
use flashflow_research.FlashFlow.Coordinates.{Coordinates}
use flashflow_research.FlashFlow.Begin.{Goes, GoesOn, start_next-GoesOn}
use flashflow_research.FlashFlow.Prepare.{
  GoesWell, after, check_progress-GoesOn, handle_known-GoesWell,
}
use flashflow_research.FlashFlow.Overdue.{SomeFailed, fail_overdue-SomeFailed}
use flashflow_research.FlashFlow.Round.{Works}
use flashflow_research.FlashFlow.Loop.{
  Loop, Next, next_item, check_progress, fail_overdue, start_next, handle_known,
}
use flashflow_research.FlashFlow.Rounds.{prepare_round, poll_clients, main_loop_round}
use flashflow_research.FlashFlow.Silence.{Quiet, over, begun}
use flashflow_research.FlashFlow.Silence.Failing.{
  Cleared, Unless, check_progress-Cleared, fail_overdue-Unless,
}
use flashflow_research.FlashFlow.Silence.Start.{Starts, start_next-Starts}
use flashflow_research.FlashFlow.Silence.Turn.{Unchanged, handle_known-Unchanged}
use flashflow_research.FlashFlow.Silence.Wait.{
  known-staffed, known-waits, Silent, poll_clients-Polls,
}

-- Completions count twice, starts once.
abbrev pub moves : Loop → ℕ
moves s = over s + begun s

module _ (os : Os) where
  open os use {World, now, epoll_wait}

  -- Where no measurement is known the scheduler has one to start.
  abbrev pub CanStart : Loop → Type 0
  CanStart s =
      (w : World) (msms : List Measurement)
      → length s.known ≡ 0
      → sched_next (now w).0 s.msms ≡ ok (0, msms)
      → ⊥

  -- The first half of a round starts or completes a measurement, or comes to the wait with one known
  -- at least, and then the rounds without progress were not too many.
  abbrev pub Prepared : Loop → Next × Loop × World → Type 0
  Prepared s (next, s', w') =
      (next ≡ next_item)
      × All Quiet s'.metas
      × (s'.count_success ≡ s.count_success)
      × ((moves s < moves s')
          ⊎ ((1 ≤ length s'.known)
              × (moves s ≤ moves s')
              × (s'.loops_without_progress ≡ s.loops_without_progress)
              × (s.loops_without_progress ≤ 10)))

  prepared :
      (s s1 s2 s3 : Loop) (w1 w2 w3 w4 : World)
      → CanStart s
      → Cleared os s (s1, w1)
      → Unless os s1 (s2, w2)
      → Starts os s2 (now w2).0 (s3, w3)
      → Prepared s (next_item, s3, w4)
  prepared s s1 s2 s3 w1 w2 w3 w4 can c (u, unless) (b, from) =
      let first : (over s ≤ over s1) × (begun s ≤ begun s1) × (s1.count_success ≡ s.count_success) =
        elim c [
          | inl (e, few) ↦
              (omega (arith, ap over e), omega (arith, ap begun e), ap (λ x. x.count_success) e)
          | inr (q, n, a, b, more) ↦ (a, b, n)
        ] in
      let same_count : s3.count_success ≡ s.count_success = b.successes ∙ u.successes ∙ first.2 in
      let stuck =
        λ (same : s2 ≡ s1) (e : s1.msms ≡ s.msms) (z : length s.known ≡ 0) (msms : List Measurement)
            (none_ready : sched_next (now w2).0 s2.msms ≡ ok (0, msms)).
          can w2 msms z (
            subst (λ l. sched_next (now w2).0 l ≡ ok (0, msms)) (ap (λ x. x.msms) same ∙ e)
              none_ready) in
      (
        refl,
        b.quiet,
        same_count,
        elim from [
          | inr more ↦ inl (omega (arith, first.0, first.1, u.over_le, u.begun_le, more))
          | inl (msms, none_ready) ↦ elim unless [
            | inr some_over ↦
                inl (omega (arith, first.0, first.1, u.begun_le, b.over_le, b.begun_le, some_over))
            | inl same ↦ elim c [
              | inr (q, n, a, b', inr some_over) ↦
                  inl (omega (arith, b', u.over_le, u.begun_le, b.over_le, b.begun_le, some_over))
              | inr (q, n, a, b', inl (e, z)) ↦
                  absurd (stuck same (ap (λ x. x.msms) e) z msms none_ready)
              | inl (e, few) ↦ elim (Bool-cases (length s.known == 0)) [
                | inl z ↦
                    absurd (stuck same (ap (λ x. x.msms) e) (ground (arith, z)) msms none_ready)
                | inr some_known ↦ elim (Bool-cases (ltb (over s) (over s3))) [
                  | inl more ↦ inl (ground (arith, first.1, u.begun_le, b.begun_le, more))
                  | inr no_more ↦
                      let known : 1 ≤ length s.known = ground (arith, some_known) in
                      let same_over : over s3 ≤ over s = ground (arith, no_more) in
                      inr (
                        omega (arith, first.1, u.begun_le, b.begun_le, same_over, known),
                        omega
                            (arith, first.0, first.1, u.over_le, u.begun_le, b.over_le, b.begun_le),
                        b.rounds ∙ u.rounds ∙ ap (λ x. x.loops_without_progress) e,
                        few,
                      )
                ]
              ]
            ]
          ]
        ],
      )

  prepare_round-Prepared :
      (ps : List Plan) (past : List ℕ) (s : Loop) (w : World)
      → Works os
      → All Fits ps
      → Coordinates ps past s
      → All Quiet s.metas
      → CanStart s
      → Returns (prepare_round os s w) (λ r. Goes ps past r.1 × Prepared s r)
  unfolding prepare_round
  prepare_round-Prepared ps past s w works fits c q can =
      let Q = λ (r : Next × Loop × World). Goes ps past r.1 × Prepared s r in
      Returns-bind _ Q (check_progress os s w) _
        (Returns-Ensures (GoesOn os ps past) (Cleared os s) (check_progress os s w)
          (check_progress-GoesOn os ps past s w c) (check_progress-Cleared os s w q))
        λ (s1, w1) ((over1, c1), cleared_up).
          let q1 : All Quiet s1.metas = elim cleared_up [
            | inl (e, few) ↦ subst (λ x. All Quiet x.metas) (sym e) q
            | inr (q', n, a, b, more) ↦ q'
          ] in
          Returns-bind _ Q (fail_overdue os (length s1.known) 0 s1 w1) _
            (Returns-Ensures (SomeFailed os ps (past ++ over1) s1) (Unless os s1)
              (fail_overdue os (length s1.known) 0 s1 w1)
              (fail_overdue-SomeFailed os ps (past ++ over1) (length s1.known) 0 s1 w1 works.clock
                c1)
              (fail_overdue-Unless os (length s1.known) 0 s1 w1 q1))
            λ (s2, w2) ((over2, c2, p, count), u).
              Returns-bind _ Q (start_next os s2 w2) _
                (Returns-Ensures (GoesOn os ps ((past ++ over1) ++ over2)) (Starts os s2 (now w2).0)
                  (start_next os s2 w2)
                  (start_next-GoesOn os ps ((past ++ over1) ++ over2) s2 c2 w2 works.clock_fits
                    fits)
                  (start_next-Starts os s2 w2 u.0.quiet))
                λ (s3, w3) ((over3, c3), b).
                  let past3 = ((past ++ over1) ++ over2) ++ over3 in
                  let staffed =
                    All-map _ _ s3.known (λ id st. st.1) (known-staffed ps past3 s3 c3) in
                  Returns-map (handle_known os (length s3.known) 0 s3 w3)
                    (Returns-Ensures (GoesWell os ps past3) (Unchanged os s3)
                      (handle_known os (length s3.known) 0 s3 w3)
                      (handle_known-GoesWell os ps past3 (length s3.known) 0 s3 w3 works.clock_fits
                        fits c3)
                      (handle_known-Unchanged os (length s3.known) 0 s3 w3 b.0.quiet staffed))
                    λ (next, s4, w4) (g, (goes_on, same)). (
                      after ps past over1 s4 (
                          after ps (past ++ over1) over2 s4
                            (after ps ((past ++ over1) ++ over2) over3 s4 g.1)),
                      rw (goes_on, same) (prepared s s1 s2 s3 w1 w2 w3 w4 can cleared_up u b),
                    )

module _ (os : Os) (silent : Silent os) (out_fd : Option os.Stream) where
  open os use {World}

  -- A round starts or completes a measurement, or is one more without progress.
  abbrev pub Rounds : Loop → Next × Loop × World → Type 0
  Rounds s (next, s', w') =
      All Quiet s'.metas
      × (s'.count_success ≡ s.count_success)
      × ((moves s < moves s')
          ⊎ ((moves s ≤ moves s')
              × (s'.loops_without_progress ≡ suc s.loops_without_progress)
              × (s.loops_without_progress ≤ 10)))

  poll-Rounds :
      (ps : List Plan) (past : List ℕ) (s s4 : Loop) (w4 : World)
      → Goes ps past s4
      → Prepared os s (next_item, s4, w4)
      → Ensures (poll_clients os out_fd s4 w4) (Rounds s)
  poll-Rounds ps past s s4 w4 (more, c) (n, q, count, how) =
      Ensures-map (poll_clients os out_fd s4 w4) (poll_clients-Polls os silent out_fd s4 w4) λ r k.
        elim k [
          | inl (none_waits, same) ↦ elim how [
            | inl up ↦ (
              subst (λ x. All Quiet x.metas) (sym same) q,
              ap (λ x. x.count_success) same ∙ count,
              inl (omega (arith, up, ap over same, ap begun same)),
            )
            | inr (known, up, rounds, few) ↦
                absurd (known-waits os silent out_fd ps (past ++ more) s4 c q known none_waits)
          ]
          | inr counted ↦ (
            subst (λ x. All Quiet x.metas) (sym counted) q,
            ap (λ x. x.count_success) counted ∙ count,
            elim how [
              | inl up ↦ inl (omega (arith, up, ap over counted, ap begun counted))
              | inr (known, up, rounds, few) ↦ inr (
                omega (arith, up, ap over counted, ap begun counted),
                omega (arith, ap (λ x. x.loops_without_progress) counted, rounds),
                few,
              )
            ],
          )
        ]

  pub main_loop_round-Rounds :
      (ps : List Plan) (past : List ℕ) (s : Loop) (w : World)
      → Works os
      → All Fits ps
      → Coordinates ps past s
      → All Quiet s.metas
      → CanStart os s
      → Ensures (main_loop_round os out_fd s w) (Rounds s)
  unfolding main_loop_round
  main_loop_round-Rounds ps past s w works fits c q can =
      let P = λ (r : Next × Loop × World). Goes ps past r.1 × Prepared os s r in
      Ensures-bind P (Rounds s) (prepare_round os s w) _
        (Returns-weaken P (prepare_round os s w)
          (prepare_round-Prepared os ps past s w works fits c q can))
        λ r (g, p). rw p.0 (poll-Rounds ps past s r.1 r.2 g (refl, p.1, p.2, p.3))
