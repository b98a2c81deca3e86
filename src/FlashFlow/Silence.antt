-- ===== src/FlashFlow/Silence.antt =====
-- flashflow.c: a run in which no client answers. What its connections and its counts do.
pub mod Failing
pub mod Found
pub mod Start
pub mod Turn
pub mod Wait
pub mod Round
pub mod Bounds
pub mod Run
use flashflow_research.Prelude.{
  ℕ, zero, suc, ◌+◌, ◌≤◌, ◌<◌, ◌≡◌, ◌⊎◌, inl, inr, refl, true, false, List, [], ◌∷◌, All, arith,
  length, ◌==◌,
}
use flashflow_research.Meta.{Meta, invalid, connected, authing}
use flashflow_research.FlashFlow.Defs.{fill_gap, remove_id}
use flashflow_research.FlashFlow.Loop.{Loop}

-- Unused, or asked for its password and without an answer.
abbrev pub Quiet : Meta → Type 0
Quiet m = (m.state ≡ invalid) ⊎ (m.state ≡ authing)

-- The same, but for the connections of one measurement, which may be connected only.
abbrev pub Half : ℕ → Meta → Type 0
Half id m = Quiet m ⊎ ((m.state ≡ connected) × ((m.current_m_id == id) ≡ true))

pub Quiet-Half : (id : ℕ) (ms : List Meta) → All Quiet ms → All (Half id) ms
Quiet-Half id [] h = tt
Quiet-Half id (m ∷ ms) h = (inl h.0, Quiet-Half id ms h.1)

-- How many measurements were completed, and how many are completed or known.
abbrev pub over : Loop → ℕ
over s = s.count_success + s.count_failure

abbrev pub begun : Loop → ℕ
begun s = over s + length s.known

-- What a part of a round leaves of a quiet state: no measurement is lost, and the count of rounds
-- without progress stays.
pub record Still (s s' : Loop) : Type 0 where
  pub quiet : All Quiet s'.metas
  pub over_le : over s ≤ over s'
  pub begun_le : begun s ≤ begun s'
  pub rounds : s'.loops_without_progress ≡ s.loops_without_progress
  pub successes : s'.count_success ≡ s.count_success

pub Still-refl : (s : Loop) → All Quiet s.metas → Still s s
Still-refl s q = record {
  quiet = q;
  over_le = omega arith;
  begun_le = omega arith;
  rounds = refl;
  successes = refl;
}

pub Still-trans : (s s' s'' : Loop) → Still s s' → Still s' s'' → Still s s''
Still-trans s s' s'' a b = record {
  quiet = b.quiet;
  over_le = omega (arith, a.over_le, b.over_le);
  begun_le = omega (arith, a.begun_le, b.begun_le);
  rounds = omega (arith, a.rounds, b.rounds);
  successes = omega (arith, a.successes, b.successes);
}

length-fill_gap : (l : List ℕ) → length (fill_gap l) ≡ length l
unfolding fill_gap
length-fill_gap [] = refl
length-fill_gap (x ∷ []) = refl
length-fill_gap (x ∷ y ∷ r) = moved (fill_gap (y ∷ r)) (length-fill_gap (y ∷ r))
  where
    moved :
        (l : List ℕ)
        → length l ≡ suc (length r)
        → length (elim l as (λ x. List ℕ) [ [] ↦ x ∷ [] | a ∷ rest ↦ a ∷ x ∷ rest ])
          ≡ suc (suc (length r))
    moved [] h = absurd (omega (arith, h))
    moved (a ∷ rest) h = omega (arith, h)

-- One id at most is taken out.
pub length-remove_id : (l : List ℕ) (id : ℕ) → length l ≤ suc (length (remove_id l id))
unfolding remove_id
length-remove_id [] id = omega arith
length-remove_id (x ∷ xs) id = ground (arith, length-fill_gap xs, length-remove_id xs id)
