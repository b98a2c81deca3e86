-- ===== src/FlashFlow/Finish.antt =====
-- flashflow.c: the block of a round for a measurement that is done.
use mathlib.Core.List.{Permᴰ}
use flashflow_research.Prelude.{
  ℕ, zero, suc, ◌≡◌, inl, inr, refl, ap, ◌∙◌, true, false, some, List, [], ◌∷◌, ◌++◌, map, Returns,
  Returns-bind, ok, arith, ◌==◌, Bool-cases, get_elem?,
}
use flashflow_research.Os.{Os}
use flashflow_research.Meta.{Meta, done}
use flashflow_research.TorClient.Usage.{released, tc_finished_with_meta_lem}
use flashflow_research.Sched.Count.{contains, distinct}
use flashflow_research.Sched.Preserved.{sched_mark_done-IsScheduled}
use flashflow_research.FlashFlow.Defs.{all_in_state, is_totally_done, remove_id}
use flashflow_research.FlashFlow.Failed.{after_failure, sched_mark_done-eq-ok, cons_eq}
use flashflow_research.FlashFlow.Assign.{finish_metas}
use flashflow_research.FlashFlow.Plans.{Plan}
use flashflow_research.FlashFlow.Moves.{assert_state, all_in_state-mine, all_in_state-rest}
use flashflow_research.FlashFlow.Coordinates.{Coordinates, contains-get_elem}
use flashflow_research.FlashFlow.Failing.{removed-Coordinates, known-Failing, perm-remove_id}
use flashflow_research.FlashFlow.Loop.{
  Loop, Next, next_item, same_index, main_loop_end, return_error, take_off, finish_if_done,
}

-- With no id twice, the entry at an index goes as the id that stands there does.
take_off-remove_id :
    (known : List ℕ) (i id : ℕ)
    → get_elem? known i ≡ some id
    → distinct known ≡ true
    → take_off i known ≡ remove_id known id
unfolding take_off remove_id
take_off-remove_id [] i id e d = cc
take_off-remove_id (x ∷ xs) zero id e d = let same : (x == id) ≡ true = ground arith in rw same refl
take_off-remove_id (x ∷ xs) (suc i) id e d =
    let there = contains-get_elem xs i id e in
    let other : (x == id) ≡ false = elim (Bool-cases (x == id)) [
      | inr apart ↦ apart
      | inl same ↦
          let eq : x ≡ id = ground arith in
          let here : contains xs x ≡ true = ap (contains xs) eq ∙ there in absurd (ground arith)
    ] in
    rw other (ap (◌∷◌ x) (take_off-remove_id xs i id e (ground arith)))

module _ (os : Os) where
  open os use {World}

  abbrev GivesBack : ℕ → List Meta → List Meta × World → Type 0
  GivesBack id ms (ms', w') = ms' ≡ map (after_failure id) ms

  finish_metas-GivesBack :
      (id : ℕ) (ms : List Meta) (w : World)
      → all_in_state done id ms ≡ true
      → Returns (finish_metas os id ms w) (GivesBack id ms)
  unfolding finish_metas
  finish_metas-GivesBack id [] w a = refl
  finish_metas-GivesBack id (m ∷ ms) w a =
      let rest = λ (m' : Meta) (w' : World) (e : m' ≡ after_failure id m).
        Returns-bind (GivesBack id ms) (GivesBack id (m ∷ ms)) (finish_metas os id ms w')
          (λ r. ok (m' ∷ r.0, r.1))
          (finish_metas-GivesBack id ms w' (all_in_state-rest done id m ms a))
          (λ r e'. cons_eq e e') in
      elim (Bool-cases (m.current_m_id == id)) [
        | inr other ↦ rw other (rest m w (rw other refl))
        | inl mine ↦
            let here = all_in_state-mine done id m ms mine a in
            rw (mine, assert_state m done here)
              (elim (tc_finished_with_meta_lem os m w) [
                | inl (ended, e) ↦ rw e (rest (released m) _ (rw mine refl))
                | inr (not_done, not_failed, stuck) ↦ absurd (not_done here)
              ])
      ]

  -- What the body of the loop over the known measurements leaves, by the way on: the next index, with
  -- as many known as before; the same index, with one less; or the end of the round.
  abbrev pub Handled : List Plan → List ℕ → List ℕ → Next × Loop × World → Type 0
  Handled ps past known (next_item, s', w') = Coordinates ps past s' × (s'.known ≡ known)
  Handled ps past known (same_index, s', w') =
      (id : ℕ) × Coordinates ps (past ++ id ∷ []) s' × Permᴰ (id ∷ s'.known) known
  Handled ps past known (main_loop_end, s', w') = (id : ℕ) × Coordinates ps (past ++ id ∷ []) s'
  Handled ps past known (return_error, s', w') = ⊥

  pub finish_if_done-Handled :
      (ps : List Plan) (past : List ℕ) (i id : ℕ) (s : Loop) (w : World)
      → get_elem? s.known i ≡ some id
      → Coordinates ps past s
      → Returns (finish_if_done os i id s w) (Handled ps past s.known)
  unfolding finish_if_done is_totally_done
  finish_if_done-Handled ps past i id s w here c =
      elim (Bool-cases (all_in_state done id s.metas)) [
        | inr not_yet ↦ rw not_yet (c, refl)
        | inl all_done ↦
            let there = contains-get_elem s.known i id here in
            let f = known-Failing ps past id s there c in
            let (m, found, run) = f.now_running in
            let e = sched_mark_done-eq-ok s.msms id m found run in
            let sched =
              rw e at (sched_mark_done-IsScheduled past s.msms id m c.scheduled found run) in
            let left = take_off-remove_id s.known i id here c.once in
            rw all_done (
              Returns-bind (GivesBack id s.metas) (Handled ps past s.known)
                (finish_metas os id s.metas w) _ (finish_metas-GivesBack id s.metas w all_done)
                λ r back. rw e (
                  id,
                  removed-Coordinates ps past id (remove_id s.known id) s _ f left back refl sched
                      (omega arith),
                  rw left (perm-remove_id s.known id there),
                ))
      ]
