-- ===== src/FlashFlow/Late.antt =====
-- flashflow.c: which measurements the loop over the failsafe times fails.
use mathlib.Core.List.{append_assoc, append-nil}
use flashflow_research.Prelude.{
  ℕ, zero, suc, ◌+◌, ◌≤◌, ◌<◌, ◌≡◌, inl, inr, refl, sym, ap, ◌∙◌, subst, true, false, none, some,
  List, [], ◌∷◌, ◌++◌, err, assertion, guard, ◌>>=◌, Ensures, Ensures-bind, Ensures-any, Ensures-if,
  Ensures-map, Returns, Returns-Ensures, arith, length, length-append, get_elem?, ltb, ◌==◌,
  if◌then◌else◌, Bool-cases, Option-cases, Option,
}
use flashflow_research.Prelude.Perms.{length-perm}
use flashflow_research.Os.{Os, Timeval}
use flashflow_research.Sched.{sched_mark_done}
use flashflow_research.Sched.Count.{
  contains, contains-append, distinct, distinct-perm, contains-perm,
}
use flashflow_research.FlashFlow.Defs.{
  fill_gap, fill_msm_params, remove_id, fail_metas, measurement_failed,
}
use flashflow_research.FlashFlow.Loop.{Loop, fail, fail_overdue}
use flashflow_research.FlashFlow.Plans.{Plan}
use flashflow_research.FlashFlow.Failing.{perm-remove_id}
use flashflow_research.FlashFlow.Coordinates.{Coordinates}
use flashflow_research.FlashFlow.Overdue.{SomeFailed, fail_overdue-SomeFailed}
use flashflow_research.FlashFlow.Stops.{
  stop_of, sched_mark_done-stops, fill_msm_params-stop, get_elem-split, get_elem-end, not_in_front,
  remove_id-front,
}

module _ (os : Os) where
  open os use {World, gettimeofday}

  -- The known ids and the failsafe times after a failure.
  abbrev OneLess : ℕ → Loop → Loop × World → Type 0
  OneLess id s (s', w') =
      (s'.known ≡ remove_id s.known id) × ((a : ℕ) → stop_of s'.msms a ≡ stop_of s.msms a)

  fail-OneLess : (id : ℕ) (s : Loop) (w : World) → Ensures (fail os id s w) (OneLess id s)
  unfolding fail measurement_failed
  fail-OneLess id s w =
      Ensures-bind
        (λ r. (r.0 ≡ remove_id s.known id) × ((a : ℕ) → stop_of r.2 a ≡ stop_of s.msms a))
        (OneLess id s) (measurement_failed os id s.known s.metas s.msms w) _
        (Ensures-any
          (λ r. (r.0 ≡ remove_id s.known id) × ((a : ℕ) → stop_of r.2 a ≡ stop_of s.msms a))
          (fail_metas os id s.metas w) _
          λ r.
            Ensures-bind (λ u. (a : ℕ) → stop_of u a ≡ stop_of s.msms a)
              (λ r. (r.0 ≡ remove_id s.known id) × ((a : ℕ) → stop_of r.2 a ≡ stop_of s.msms a))
              (sched_mark_done s.msms id) _ (sched_mark_done-stops s.msms id) λ u e. (refl, e))
        λ r e. e

  -- Every reading of the clock is a second between the two.
  abbrev pub ClockBetween : ℕ → ℕ → Type 0
  ClockBetween early late =
      (w : World)
      → (t : Timeval) × ((gettimeofday w).0 ≡ some t) × (early ≤ t.tv_sec) × (t.tv_sec ≤ late)

  -- What is known still is not past its time, and what was taken off was.
  abbrev pub FailsLate : ℕ → ℕ → Loop → Loop × World → Type 0
  FailsLate early late s (s', w') =
      ((a : ℕ) → contains s'.known a ≡ true → early ≤ stop_of s.msms a)
      × ((a : ℕ)
          → contains s.known a ≡ true
          → contains s'.known a ≡ false
          → stop_of s.msms a < late)

  module _ (early late : ℕ) (clock : ClockBetween early late) where
    abbrev InTime : Loop → List ℕ → Type 0
    InTime s front = (a : ℕ) → contains front a ≡ true → early ≤ stop_of s.msms a

    all_checked :
        (front : List ℕ) (s : Loop) (w : World)
        → s.known ≡ front
        → InTime s front
        → FailsLate early late s (s, w)
    all_checked front s w e h = (λ a k. h a (rw e at k), λ a k gone. absurd (cc (k, gone)))

    -- One measurement failed, and the loop went on from there.
    one_more :
        (id : ℕ) (s : Loop) (r q : Loop × World)
        → contains s.known id ≡ true
        → stop_of s.msms id < late
        → OneLess id s r
        → FailsLate early late r.0 q
        → FailsLate early late s q
    one_more id s r q known over (left, same) (kept, off) = (
      λ a k. omega (arith, kept a k, same a),
      λ a k gone. elim (Bool-cases (a == id)) [
        | inl mine ↦ subst (λ b. stop_of s.msms b < late) (ground (arith, mine)) over
        | inr other ↦
            let still : contains r.0.known a ≡ true =
              rw left
                (ground (arith, k, other, contains-perm a (perm-remove_id s.known id known))) in
            omega (arith, off a still gone, same a)
      ],
    )

    InTime-more :
        (front : List ℕ) (id : ℕ) (s : Loop)
        → InTime s front
        → early ≤ stop_of s.msms id
        → InTime s (front ++ id ∷ [])
    InTime-more front id s h k a e = elim (Bool-cases (contains front a)) [
      | inl before ↦ h a before
      | inr later ↦
          let appended : contains (front ++ id ∷ []) a ≡ (a == id) =
            rw (contains-append front (id ∷ []) a, later) (ground arith) in
          let mine : (a == id) ≡ true = sym appended ∙ e in
          subst (λ b. early ≤ stop_of s.msms b) (ground (arith, mine)) k
    ]

    -- The body of the loop for the id behind those in front, with what follows it.
    check_next :
        (n i id : ℕ) (front rest : List ℕ) (s : Loop) (stop : ℕ) (time : Option Timeval × World)
        → ((front' back' : List ℕ) (j : ℕ) (s' : Loop) (w' : World)
            → s'.known ≡ front' ++ back'
            → distinct s'.known ≡ true
            → length front' ≡ j
            → length back' ≤ n
            → InTime s' front'
            → Ensures (fail_overdue os n j s' w') (FailsLate early late s'))
        → s.known ≡ front ++ id ∷ rest
        → distinct s.known ≡ true
        → length front ≡ i
        → length rest ≤ n
        → InTime s front
        → stop ≡ stop_of s.msms id
        → (t : Timeval) × (time.0 ≡ some t) × (early ≤ t.tv_sec) × (t.tv_sec ≤ late)
        → Ensures
            (elim time.0 [
              | none ↦ err assertion
              | some t ↦
                  if ltb stop t.tv_sec
                  then (do (s', w2) ← fail os id s time.1; fail_overdue os n i s' w2)
                  else fail_overdue os n (i + 1) s time.1
            ])
            (FailsLate early late s)
    check_next n i id front rest s stop time ih e d size enough h named (t, now, above, below) =
        let Q = FailsLate early late s in
        let known : contains s.known id ≡ true =
          rw (e, contains-append front (id ∷ rest) id) (ground arith) in
        rw now (
          Ensures-if Q (ltb stop t.tv_sec) _ _
            (λ over.
              let p = perm-remove_id s.known id known in
              let apart = not_in_front front rest id (rw e at d) in
              let left : remove_id s.known id ≡ front ++ fill_gap rest =
                rw e (remove_id-front front rest id apart) in
              let fewer : length (fill_gap rest) ≤ n = omega (
                arith,
                length-perm p,
                ap length left,
                ap length e,
                length-append front (fill_gap rest),
                length-append front (id ∷ rest),
                enough,
              ) in
              Ensures-bind (OneLess id s) Q (fail os id s time.1) _ (fail-OneLess id s time.1)
                λ r (gone, same).
                  let once : distinct r.0.known ≡ true =
                    rw gone (ground (arith, distinct-perm p, d)) in
                  Ensures-map (fail_overdue os n i r.0 r.1)
                    (ih front (fill_gap rest) i r.0 r.1 (gone ∙ left) once size fewer
                      λ a k. omega (arith, h a k, same a))
                    λ q k.
                      one_more id s r q known (ground (arith, over, named, below)) (gone, same) k)
            λ under.
              ih (front ++ id ∷ []) rest (i + 1) s time.1
                (e ∙ sym (append_assoc front (id ∷ []) rest)) d
                (length-append front (id ∷ []) ∙ ap (λ k. k + 1) size) enough
                (InTime-more front id s h (ground (arith, under, named, above))))

    fail_overdue-FailsLate :
        (n i : ℕ) (front back : List ℕ) (s : Loop) (w : World)
        → s.known ≡ front ++ back
        → distinct s.known ≡ true
        → length front ≡ i
        → length back ≤ n
        → InTime s front
        → Ensures (fail_overdue os n i s w) (FailsLate early late s)
    unfolding fail_overdue
    fail_overdue-FailsLate zero i front [] s w e d size enough h =
        all_checked front s w (e ∙ append-nil front) h
    fail_overdue-FailsLate zero i front (x ∷ back) s w e d size enough h =
        absurd (omega (arith, enough))
    fail_overdue-FailsLate (suc n) i front back s w e d size enough h =
        elim (Option-cases (get_elem? s.known i)) [
          | inl past_end ↦
              let end = get_elem-end front back (rw (← e, size) past_end) in
              rw (fail_overdue, past_end)
                (all_checked front s w (e ∙ ap (λ l. front ++ l) end ∙ append-nil front) h)
          | inr (id, here) ↦
              let (rest, next) = get_elem-split front back id (rw (← e, size) here) in
              let Q = FailsLate early late s in
              rw (fail_overdue, here)
                (Ensures-bind (λ r. r.1.failsafe_stop ≡ stop_of s.msms id) Q
                  (fill_msm_params s.msms id) _ (fill_msm_params-stop s.msms id)
                  λ r named. Ensures-any Q (guard r.0 assertion) _ λ u.
                    check_next n i id front rest s r.1.failsafe_stop (gettimeofday w)
                      (λ front' back' j s' w'. fail_overdue-FailsLate n j front' back' s' w')
                      (e ∙ ap (λ l. front ++ l) next) d size (omega (arith, enough, ap length next))
                      h named (clock w))
        ]

  -- The loop that fails the measurements past their failsafe time, with fuel for as many as there
  -- are known, from a state that holds between two parts of a round, when every reading of the
  -- clock is a second from `early` to `late`: it returns, with no failed assertion; each
  -- measurement it takes off the known ones failed once, the others are known as before, the
  -- failures are counted, and the state holds again; one that it took off had a failsafe time
  -- before `late`, and one that it left known has none before `early`, so that exactly those past
  -- their time fail where the clock stays within a second.
  pub fail_overdue-SomeLate :
      (ps : List Plan) (past : List ℕ) (n early late : ℕ) (s : Loop) (w : World)
      → ClockBetween early late
      → length s.known ≤ n
      → Coordinates ps past s
      → Returns
          (fail_overdue os n 0 s w)
          (λ r. SomeFailed os ps past s r × FailsLate early late s r)
  fail_overdue-SomeLate ps past n early late s w clock enough c =
      Returns-Ensures (SomeFailed os ps past s) (FailsLate early late s) (fail_overdue os n 0 s w)
        (fail_overdue-SomeFailed os ps past n 0 s w (λ v. ((clock v).0, (clock v).1)) c)
        (fail_overdue-FailsLate early late clock n 0 [] s.known s w refl c.once refl enough
          λ a k. absurd (cc k))
