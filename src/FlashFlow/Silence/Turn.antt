-- ===== src/FlashFlow/Silence/Turn.antt =====
-- flashflow.c: the turns of the known measurements in a quiet state.
use flashflow_research.Prelude.{
  ℕ, zero, suc, ◌+◌, ◌≤◌, ◌≡◌, ◌≢◌, inl, inr, refl, false, Option, none, some, List, [], ◌∷◌, ok,
  assertion, ◌>>=◌, guard, Ensures, Ensures-bind, Ensures-any, Bool-cases, All, All-get_elem?,
  arith, get_elem?, ◌==◌,
}
use flashflow_research.Os.{Os}
use flashflow_research.Meta.{
  Meta, CsmState, invalid, authing, authed, connected_target, bw_set, done,
}
use flashflow_research.FlashFlow.Defs.{
  fill_msm_params, all_in_state, is_totally_authed, is_totally_connected_target, is_totally_bw_set,
  is_totally_done,
}
use flashflow_research.FlashFlow.Loop.{
  Loop, Next, next_item, same_index, main_loop_end, return_error, tell_hosts, start_hosts,
  finish_if_done, handle_measurement, handle_known,
}
use flashflow_research.FlashFlow.Staff.{staff}
use flashflow_research.FlashFlow.Silence.{Quiet}

-- In a quiet state the connections of a measurement, where it has one, are not all in another state.
Quiet-all_in_state :
    (st : CsmState) (id : ℕ) (ms : List Meta)
    → st ≢ invalid
    → st ≢ authing
    → All Quiet ms
    → 1 ≤ staff id ms
    → all_in_state st id ms ≡ false
unfolding all_in_state
Quiet-all_in_state st id [] a b q h = absurd (omega (arith, h))
Quiet-all_in_state st id (m ∷ ms) a b q h = elim (Bool-cases (m.current_m_id == id)) [
  | inr other ↦ rw other (Quiet-all_in_state st id ms a b q.1 (rw other at h))
  | inl mine ↦ elim q.0 [ inl e ↦ ground (arith, e, mine, a) | inr e ↦ ground (arith, e, mine, b) ]
]

module _ (os : Os) where
  open os use {World}

  abbrev pub Unchanged : Loop → Next × Loop × World → Type 0
  Unchanged s (next, s', w') = (next ≡ next_item) × (s' ≡ s)

  handle_measurement-Unchanged :
      (i id : ℕ) (s : Loop) (w : World)
      → All Quiet s.metas
      → 1 ≤ staff id s.metas
      → Ensures (handle_measurement os i id s w) (Unchanged s)
  unfolding handle_measurement is_totally_authed is_totally_connected_target is_totally_bw_set
      finish_if_done is_totally_done tell_hosts start_hosts
  handle_measurement-Unchanged i id s w q h =
      let none_in = λ (st : CsmState) (a : st ≢ invalid) (b : st ≢ authing).
        Quiet-all_in_state st id s.metas a b q h in
      Ensures-any (Unchanged s) (fill_msm_params s.msms id) _ λ (filled, p).
        Ensures-any (Unchanged s) (guard filled assertion) _ λ u.
          rw
            (
              none_in authed (λ x. cc x) (λ x. cc x),
              none_in connected_target (λ x. cc x) (λ x. cc x),
              none_in bw_set (λ x. cc x) (λ x. cc x),
              none_in done (λ x. cc x) (λ x. cc x),
            )
            (refl, refl)

  -- The loop over the known measurements, each of them with a connection, changes nothing.
  pub handle_known-Unchanged :
      (n i : ℕ) (s : Loop) (w : World)
      → All Quiet s.metas
      → All (λ id. 1 ≤ staff id s.metas) s.known
      → Ensures (handle_known os n i s w) (Unchanged s)
  unfolding handle_known
  handle_known-Unchanged zero i s w q h = (refl, refl)
  handle_known-Unchanged (suc n) i s w q h =
      turn (get_elem? s.known i) (λ id e. All-get_elem? _ s.known i h e)
        (λ j w'. handle_known-Unchanged n j s w' q h)
    where
      turn :
          (o : Option ℕ)
          → ((id : ℕ) → o ≡ some id → 1 ≤ staff id s.metas)
          → ((j : ℕ) (w' : World) → Ensures (handle_known os n j s w') (Unchanged s))
          → Ensures {A = Next × Loop × World}
              (elim o [
                | none ↦ ok (next_item, s, w)
                | some id ↦ (do
                  (next, s', w') ← handle_measurement os i id s w
                  elim next [
                    | next_item ↦ handle_known os n (i + 1) s' w'
                    | same_index ↦ handle_known os n i s' w'
                    | main_loop_end ↦ ok (main_loop_end, s', w')
                    | return_error ↦ ok (return_error, s', w')
                  ])
              ])
              (Unchanged s)
      turn none staffed ih = (refl, refl)
      turn (some id) staffed ih =
          Ensures-bind (Unchanged s) (Unchanged s) (handle_measurement os i id s w) _
            (handle_measurement-Unchanged i id s w q (staffed id refl))
            λ r (goes_on, same). rw (goes_on, same) (ih (i + 1) r.2)
