-- ===== src/FlashFlow/Failed.antt =====
-- flashflow.c: measurement_failed_, against what it is to leave.
use mathlib.Core.List.{Permᴰ}
use mathlib.Core.List.Permᴰ
use flashflow_research.Prelude.{
  ℕ, ◌<◌, ◌≡◌, ◌⊎◌, inl, inr, refl, ap, true, false, some, List, [], ◌∷◌, ◌++◌, map, ◌>>=◌, Returns,
  Returns-bind, ok, arith, ◌==◌, if◌then◌else◌, Bool-cases, All,
}
use flashflow_research.Os.{Os}
use flashflow_research.Meta.{Meta}
use flashflow_research.TorClient.State.{good_change, tc_change_state}
use flashflow_research.TorClient.Socket.{tc_mark_failed, tc_finished_with_meta}
use flashflow_research.TorClient.Usage.{IsTracked, released}
use flashflow_research.Sched.Count.{contains}
use flashflow_research.Sched.{
  update, get, push_finished, complete, Measurement, in_progress, find, sched_mark_done,
}
use flashflow_research.Sched.Tracking.{IsScheduled}
use flashflow_research.Sched.Preserved.{sched_mark_done-IsScheduled}
use flashflow_research.FlashFlow.Defs.{fill_gap, remove_id, fail_metas, measurement_failed}

-- A connection after the failure of a measurement.
abbrev pub after_failure : ℕ → Meta → Meta
after_failure m_id m = if m.current_m_id == m_id then released m else m

after_failure-IsTracked :
    (m_id : ℕ) (ms : List Meta) → All IsTracked ms → All IsTracked (map (after_failure m_id) ms)
after_failure-IsTracked m_id [] h = tt
after_failure-IsTracked m_id (m ∷ ms) h = (ground arith, after_failure-IsTracked m_id ms h.1)

pub cons_eq {ℓ} : {A : Type ℓ} {x y : A} {xs ys : List A} → x ≡ y → xs ≡ ys → x ∷ xs ≡ y ∷ ys
cons_eq p q = λ i. p i ∷ q i

module _ (os : Os) where
  open os use {World}

  fail_one :
      (m : Meta) (w : World)
      → IsTracked m
      → 0 < m.current_m_id
      → Returns (tc_mark_failed m >>= λ f. tc_finished_with_meta os f w) (λ r. r.0 ≡ released m)
  unfolding tc_mark_failed tc_finished_with_meta tc_change_state good_change
  fail_one m w h b = ground arith

  abbrev FailsAll : ℕ → List Meta → List Meta × World → Type 0
  FailsAll m_id ms (ms', w') = ms' ≡ map (after_failure m_id) ms

  fail_metas_lem :
      (m_id : ℕ) (ms : List Meta) (w : World)
      → 0 < m_id
      → All IsTracked ms
      → Returns (fail_metas os m_id ms w) (FailsAll m_id ms)
  unfolding fail_metas
  fail_metas_lem m_id [] w p h = refl
  fail_metas_lem m_id (m ∷ ms) w p h =
      let rest = λ (m' : Meta) (w' : World) (e : m' ≡ after_failure m_id m).
        Returns-bind (FailsAll m_id ms) (FailsAll m_id (m ∷ ms)) (fail_metas os m_id ms w')
          (λ r. ok (m' ∷ r.0, r.1)) (fail_metas_lem m_id ms w' p h.1) (λ r e'. cons_eq e e') in
      elim (Bool-cases (m.current_m_id == m_id)) [
        | inl hit ↦ rw hit (
            Returns-bind (λ (r : Meta × World). r.0 ≡ released m) (FailsAll m_id (m ∷ ms))
              (tc_mark_failed m >>= λ f. tc_finished_with_meta os f w) _
              (fail_one m w h.0 (ground arith)) (λ r e. rest r.0 r.1 (rw hit e)))
        | inr miss ↦ rw miss (rest m w (rw miss))
      ]

-- The schedule when a measurement was marked done.
abbrev pub marked_done : ℕ → List Measurement → List Measurement
marked_done m_id msms =
    map (push_finished m_id) (update msms m_id (λ m. record m { state = complete }))

pub sched_mark_done-eq-ok :
    (msms : List Measurement) (m_id : ℕ) (m : Measurement)
    → find msms m_id ≡ some m
    → m.state ≡ in_progress
    → sched_mark_done msms m_id ≡ ok (marked_done m_id msms)
unfolding sched_mark_done get
sched_mark_done-eq-ok msms m_id m found runs = ground arith

fill_gap-perm : (xs : List ℕ) → Permᴰ (fill_gap xs) xs
unfolding fill_gap
fill_gap-perm [] = Permᴰ.nil
fill_gap-perm (x ∷ []) = Permᴰ.refl (x ∷ [])
fill_gap-perm (x ∷ y ∷ r) = moved (fill_gap (y ∷ r)) (fill_gap-perm (y ∷ r))
  where
    moved :
        (l : List ℕ)
        → Permᴰ l (y ∷ r)
        → Permᴰ (elim l [ [] ↦ x ∷ [] | a ∷ rest ↦ a ∷ x ∷ rest ]) (x ∷ y ∷ r)
    moved [] p = Permᴰ.cons refl p
    moved (a ∷ rest) p = Permᴰ.trans (Permᴰ.swap refl refl) (Permᴰ.cons refl p)

-- The id is taken out of the known ones, and the others stay, in some order; an id that is not among
-- them changes nothing.
pub remove_id-perm :
    (known : List ℕ) (m_id : ℕ)
    → ((contains known m_id ≡ true) × Permᴰ (m_id ∷ remove_id known m_id) known)
      ⊎ ((contains known m_id ≡ false) × (remove_id known m_id ≡ known))
unfolding remove_id
remove_id-perm [] m_id = inr (refl, refl)
remove_id-perm (x ∷ xs) m_id = elim (Bool-cases (x == m_id)) [
  | inl hit ↦ rw hit (inl (ground arith, Permᴰ.cons (ground arith) (fill_gap-perm xs)))
  | inr miss ↦ rw miss (elim (remove_id-perm xs m_id) [
    | inl (known, p) ↦ inl (ground arith, Permᴰ.trans (Permᴰ.swap refl refl) (Permᴰ.cons refl p))
    | inr (unknown, same) ↦ inr (ground arith, ap (◌∷◌ x) same)
  ])
]

module _ (os : Os) where
  open os use {World}

  -- What measurement_failed leaves: the id is off the known ones, each connection of the measurement
  -- is given back, and all others are as they were; the schedule has the measurement as its last
  -- completed one, and is otherwise
  -- as it was.
  pub record Fails (past : List ℕ) (m_id : ℕ) (known : List ℕ) (metas : List Meta)
      (msms : List Measurement) (r : List ℕ × List Meta × List Measurement × World) : Type 0 where
    pub forgotten : r.0 ≡ remove_id known m_id
    pub given_back : r.1 ≡ map (after_failure m_id) metas
    pub tracked : All IsTracked r.1
    pub scheduled : IsScheduled (past ++ m_id ∷ []) r.2
    pub marked : r.2 ≡ marked_done m_id msms

  -- A measurement in progress can fail at any time: while every connection is tracked the clean-up
  -- returns, with no failed assertion, and leaves what `Fails` says.
  pub measurement_failed-Fails :
      (past : List ℕ) (m_id : ℕ) (known : List ℕ) (metas : List Meta) (msms : List Measurement)
      (w : World) (m : Measurement)
      → All IsTracked metas
      → IsScheduled past msms
      → 0 < m_id
      → find msms m_id ≡ some m
      → m.state ≡ in_progress
      → Returns (measurement_failed os m_id known metas msms w) (Fails past m_id known metas msms)
  unfolding measurement_failed
  measurement_failed-Fails past m_id known metas msms w m t s p found runs =
      Returns-bind (FailsAll os m_id metas) (Fails past m_id known metas msms)
        (fail_metas os m_id metas w) _ (fail_metas_lem os m_id metas w p t)
        λ r e.
          let done = sched_mark_done-eq-ok msms m_id m found runs in
          rw done (record {
            forgotten = refl;
            given_back = e;
            tracked = rw e (after_failure-IsTracked m_id metas t);
            scheduled = rw done at (sched_mark_done-IsScheduled past msms m_id m s found runs);
            marked = refl;
          })
