-- ===== src/FlashFlow/Overdue.antt =====
-- The loop of a round that fails the measurements past their failsafe time.
use mathlib.Core.List.{Permᴰ, append_assoc, append-nil}
use mathlib.Core.List.Permᴰ
use flashflow_research.Prelude.{
  ℕ, zero, suc, ◌+◌, ◌≡◌, inl, inr, refl, Bool, true, Option, none, some, List, [], ◌∷◌, ◌++◌, err,
  assertion, Returns, Returns-bind, Returns-map, ◌>>=◌, arith, ltb, if◌then◌else◌, Bool-cases,
  Option-cases, length, get_elem?,
}
use flashflow_research.Os.{Os, Timeval}
use flashflow_research.Sched.Count.{contains}
use flashflow_research.FlashFlow.Defs.{MsmParams, fill_msm_params}
use flashflow_research.FlashFlow.Loop.{Loop, fail, fail_overdue}
use flashflow_research.FlashFlow.Plans.{Plan}
use flashflow_research.FlashFlow.Coordinates.{
  Runs, Coordinates, contains-All, contains-get_elem, fill_msm_params-Runs,
}
use flashflow_research.FlashFlow.Cleanup.{AfterFail, fail-AfterFail}

perm-append : {xs ys : List ℕ} (zs : List ℕ) → Permᴰ xs ys → Permᴰ (zs ++ xs) (zs ++ ys)
perm-append [] p = p
perm-append (z ∷ zs) p = Permᴰ.cons refl (perm-append zs p)

perm-middle : (x : ℕ) (xs ys : List ℕ) → Permᴰ (xs ++ x ∷ ys) (x ∷ xs ++ ys)
perm-middle x [] ys = Permᴰ.refl (x ∷ ys)
perm-middle x (z ∷ xs) ys =
    Permᴰ.trans (Permᴰ.cons refl (perm-middle x xs ys)) (Permᴰ.swap refl refl)

-- The clock can be read.
abbrev pub ClockWorks : Os → Type 0
ClockWorks os = (w : os.World) → (t : Timeval) × ((os.gettimeofday w).0 ≡ some t)

module _ (os : Os) where
  open os use {World, gettimeofday}

  -- Some of the known measurements failed, in the order `failed`, and the others are known still.
  abbrev pub SomeFailed : List Plan → List ℕ → Loop → Loop × World → Type 0
  SomeFailed ps past s (s', w') =
      (failed : List ℕ) × Coordinates ps (past ++ failed) s'
      × Permᴰ (failed ++ s'.known) s.known
      × (s'.count_failure ≡ s.count_failure + length failed)

  none_failed :
      (ps : List Plan) (past : List ℕ) (s : Loop) (w : World)
      → Coordinates ps past s
      → SomeFailed ps past s (s, w)
  none_failed ps past s w c = ([], rw append-nil c, Permᴰ.refl s.known, omega arith)

  SomeFailed-step :
      (ps : List Plan) (past : List ℕ) (id : ℕ) (s : Loop) (r q : Loop × World)
      → AfterFail os ps past id s r
      → SomeFailed ps (past ++ id ∷ []) r.0 q
      → SomeFailed ps past s q
  SomeFailed-step ps past id s r q (c, p, count) (failed, c', p', count') = (
    id ∷ failed,
    rw (← append_assoc past (id ∷ []) failed) c',
    Permᴰ.trans (Permᴰ.cons refl p') p,
    omega arith,
  )

  -- The body of the loop for one id, with what follows it.
  check_id :
      (ps : List Plan) (past : List ℕ) (n i id : ℕ) (s : Loop) (w : World) (p : MsmParams)
      (time : Option Timeval × World)
      → ((past' : List ℕ) (j : ℕ) (s' : Loop) (w' : World)
          → Coordinates ps past' s'
          → Returns (fail_overdue os n j s' w') (SomeFailed ps past' s'))
      → contains s.known id ≡ true
      → Coordinates ps past s
      → (t : Timeval) → time.0 ≡ some t
      → Returns
          (elim time.0 [
            | none ↦ err assertion
            | some t ↦
                if ltb p.failsafe_stop t.tv_sec
                then (do (s', w2) ← fail os id s time.1; fail_overdue os n i s' w2)
                else fail_overdue os n (i + 1) s time.1
          ])
          (SomeFailed ps past s)
  check_id ps past n i id s w p time ih known c t e =
      elim (Bool-cases (ltb p.failsafe_stop t.tv_sec)) [
        | inl over ↦
            rw (e, over)
              (Returns-bind (AfterFail os ps past id s) (SomeFailed ps past s) (fail os id s time.1)
                _ (fail-AfterFail os ps past id s time.1 known c)
                λ r (c', q, count).
                  Returns-map (fail_overdue os n i r.0 r.1) (ih (past ++ id ∷ []) i r.0 r.1 c')
                    λ z a. SomeFailed-step ps past id s r z (c', q, count) a)
        | inr under ↦ rw (e, under) (ih past (i + 1) s time.1 c)
      ]

  -- While the clock can be read, the loop returns from any state that holds between two parts of a
  -- round, with no failed assertion. Each measurement that it takes off the known ones failed once,
  -- the others are known as before, and the state holds again.
  pub fail_overdue-SomeFailed :
      (ps : List Plan) (past : List ℕ) (n i : ℕ) (s : Loop) (w : World)
      → ClockWorks os
      → Coordinates ps past s
      → Returns (fail_overdue os n i s w) (SomeFailed ps past s)
  unfolding fail_overdue
  fail_overdue-SomeFailed ps past zero i s w clock c = none_failed ps past s w c
  fail_overdue-SomeFailed ps past (suc n) i s w clock c =
      elim (Option-cases (get_elem? s.known i)) [
        | inl past_end ↦ rw (Returns, past_end) (none_failed ps past s w c)
        | inr (id, here) ↦
            let known = contains-get_elem s.known i id here in
            rw (fail_overdue, here)
              (Returns-bind (λ (r : Bool × MsmParams). r.0 ≡ true) (SomeFailed ps past s)
                (fill_msm_params s.msms id) _
                (fill_msm_params-Runs s.msms id
                  (contains-All (Runs s.msms) s.known id known c.running))
                λ r filled. rw filled (
                  check_id ps past n i id s w r.1 (gettimeofday w)
                    (λ past' j s' w' c'. fail_overdue-SomeFailed ps past' n j s' w' clock c') known
                    c (clock w).0 (clock w).1))
      ]
