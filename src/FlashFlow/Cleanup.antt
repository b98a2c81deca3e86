-- ===== src/FlashFlow/Cleanup.antt =====
-- flashflow.c: the failure of a measurement, and the loop that fails them all.
use mathlib.Core.List.{Permᴰ, append_assoc, append-nil}
use flashflow_research.Prelude.{
  ℕ, zero, suc, ◌+◌, ◌≡◌, ◌≢◌, refl, ap, ◌∙◌, true, List, [], ◌∷◌, ◌++◌, ok, Returns, Returns-bind,
  Returns-map, ◌>>=◌, arith, length,
}
use flashflow_research.Prelude.Perms.{length-perm}
use flashflow_research.Os.{Os}
use flashflow_research.Meta.{Meta}
use flashflow_research.Sched.{Measurement}
use flashflow_research.Sched.Count.{contains}
use flashflow_research.FlashFlow.Defs.{remove_id, measurement_failed}
use flashflow_research.FlashFlow.Failed.{Fails, measurement_failed-Fails}
use flashflow_research.FlashFlow.Plans.{Plan}
use flashflow_research.FlashFlow.Staff.{Staffed, owned-IsTracked}
use flashflow_research.FlashFlow.Coordinates.{Coordinates, contains-All, contains-last_of}
use flashflow_research.FlashFlow.Loop.{Loop, last_of, fail, fail_all}
use flashflow_research.FlashFlow.Failing.{
  removed-Coordinates, perm-remove_id, known-Failing, Failing,
}

module _ (os : Os) where
  open os use {World, gettimeofday}

  -- What is left then.
  abbrev pub Failed : List Plan → List ℕ → ℕ → List ℕ → Loop → Loop × World → Type 0
  Failed ps past id others s (s', w') =
      Coordinates ps (past ++ id ∷ []) s'
      × (s'.known ≡ others)
      × (s'.count_failure ≡ s.count_failure + 1)
      × (s'.loops_without_progress ≡ s.loops_without_progress)

  Fails-Failed :
      (ps : List Plan) (past : List ℕ) (id : ℕ) (others : List ℕ) (s : Loop)
      (r : List ℕ × List Meta × List Measurement × World)
      → Failing ps past id others s
      → Fails os past id s.known s.metas s.msms r
      → Failed ps past id others s (
        record s { known = r.0; metas = r.1; msms = r.2; count_failure = s.count_failure + 1 },
        r.3,
      )
  Fails-Failed ps past id others s r c f =
      let left = f.forgotten ∙ c.removed in
      (
        removed-Coordinates ps past id others s _ c left f.given_back f.marked f.scheduled
            (omega arith),
        left,
        refl,
        refl,
      )

  pub fail-Failed :
      (ps : List Plan) (past : List ℕ) (id : ℕ) (others : List ℕ) (s : Loop) (w : World)
      → id ≢ 0
      → Failing ps past id others s
      → Returns (fail os id s w) (Failed ps past id others s)
  unfolding fail
  fail-Failed ps past id others s w n c =
      let (m, found, run) = c.now_running in
      Returns-bind (Fails os past id s.known s.metas s.msms) (Failed ps past id others s)
        (measurement_failed os id s.known s.metas s.msms w) _
        (measurement_failed-Fails os past id s.known s.metas s.msms w m
          (owned-IsTracked (id ∷ others) s.metas c.owned) c.scheduled (omega (arith, n)) found run)
        λ r f. Fails-Failed ps past id others s r c f

  -- What the failure of a known measurement leaves: all that held, one id less, one failure more.
  abbrev pub AfterFail : List Plan → List ℕ → ℕ → Loop → Loop × World → Type 0
  AfterFail ps past id s (s', w') =
      Coordinates ps (past ++ id ∷ []) s'
      × Permᴰ (id ∷ s'.known) s.known
      × (s'.count_failure ≡ s.count_failure + 1)

  pub fail-AfterFail :
      (ps : List Plan) (past : List ℕ) (id : ℕ) (s : Loop) (w : World)
      → contains s.known id ≡ true
      → Coordinates ps past s
      → Returns (fail os id s w) (AfterFail ps past id s)
  fail-AfterFail ps past id s w h c =
      let st = contains-All (Staffed ps s.metas) s.known id h c.manned.staffed in
      Returns-map (fail os id s w)
        (fail-Failed ps past id (remove_id s.known id) s w st.named
          (known-Failing ps past id s h c))
        λ r (c', left, count, same). (c', rw left (perm-remove_id s.known id h), count)

  -- All the known measurements failed, in the order `failed`.
  abbrev pub AllFailed : List Plan → List ℕ → Loop → Loop × World → Type 0
  AllFailed ps past s (s', w') =
      (s'.known ≡ [])
      × ((failed : List ℕ) × Coordinates ps (past ++ failed) s' × Permᴰ failed s.known)
      × (s'.count_failure ≡ s.count_failure + length s.known)

  nil-length : (xs : List ℕ) → length xs ≡ 0 → xs ≡ []
  nil-length [] h = refl
  nil-length (x ∷ xs) h = absurd (omega arith)

  AllFailed-step :
      (ps : List Plan) (past : List ℕ) (id : ℕ) (s : Loop) (r q : Loop × World)
      → AfterFail ps past id s r
      → AllFailed ps (past ++ id ∷ []) r.0 q
      → AllFailed ps past s q
  AllFailed-step ps past id s r q (c, p, count) (none_left, (failed, c', p'), count') = (
    none_left,
    (id ∷ failed, rw (← append_assoc past (id ∷ []) failed) c', Permᴰ.trans (Permᴰ.cons refl p') p),
    omega (arith, length-perm p),
  )

  fail_all-round :
      (ps : List Plan) (past : List ℕ) (n : ℕ) (s : Loop) (w : World) (known : List ℕ)
      → ((past' : List ℕ) (s' : Loop) (w' : World)
          → length s'.known ≡ n
          → Coordinates ps past' s'
          → Returns (fail_all os n s' w') (AllFailed ps past' s'))
      → s.known ≡ known
      → length known ≡ suc n
      → Coordinates ps past s
      → Returns
          (elim known [
            | [] ↦ ok (s, w)
            | x ∷ xs ↦ (do (s', w') ← fail os (last_of x xs) s w; fail_all os n s' w')
          ])
          (AllFailed ps past s)
  fail_all-round ps past n s w [] ih e h c = absurd (omega arith)
  fail_all-round ps past n s w (x ∷ xs) ih e h c =
      let id = last_of x xs in
      Returns-bind (AfterFail ps past id s) (AllFailed ps past s) (fail os id s w) _
        (fail-AfterFail ps past id s w (rw e (contains-last_of x xs)) c)
        λ r (c', p, count).
          Returns-map (fail_all os n r.0 r.1)
            (ih (past ++ id ∷ []) r.0 r.1 (omega (arith, length-perm p, ap length e)) c')
            λ q a. AllFailed-step ps past id s r q (c', p, count) a

  -- With fuel for as many as there are, the loop leaves no measurement known: each of them failed
  -- once, no assertion failed, and all that held between two parts of a round holds.
  pub fail_all-AllFailed :
      (ps : List Plan) (past : List ℕ) (n : ℕ) (s : Loop) (w : World)
      → length s.known ≡ n
      → Coordinates ps past s
      → Returns (fail_all os n s w) (AllFailed ps past s)
  unfolding fail_all
  fail_all-AllFailed ps past zero s w h c =
      let empty = nil-length s.known h in
      (empty, ([], rw append-nil c, rw empty Permᴰ.nil), omega arith)
  fail_all-AllFailed ps past (suc n) s w h c =
      fail_all-round ps past n s w s.known
        (λ past' s' w' h' c'. fail_all-AllFailed ps past' n s' w' h' c') refl h c
