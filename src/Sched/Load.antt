-- ===== src/Sched/Load.antt =====
-- What check_and_insert_measurements lets into the map.
use mathlib.Core.List.{Permᴰ, append-nil, append_assoc}
use flashflow_research.Prelude.{
  ℕ, ◌≡◌, ◌≢◌, ◌⊎◌, inl, inr, refl, sym, ap, ◌∙◌, true, false, ◌&&◌, List, [], ◌∷◌, ◌++◌, Returns,
  err, panicked, arith, Bool-cases, All,
}
use flashflow_research.Prelude.Perms.{All-perm}
use flashflow_research.Sched.Count.{contains, distinct, contains-append, distinct-perm}
use flashflow_research.Sched.{
  waiting, Measurement, ids, insert, insert_all, check_and_insert_measurements, depends_known,
}
use flashflow_research.Sched.Tracking.{Tracks, IsScheduled}

-- A measurement as `Measurement::new_from_string` makes it.
pub record IsNew (m : Measurement) : Type 0 where
  pub waits : m.state ≡ waiting
  pub nothing_finished : m.finished_depends ≡ []
  pub named : m.id ≢ 0

New-Tracks : (ms : List Measurement) → All IsNew ms → All (Tracks []) ms
New-Tracks [] h = tt
New-Tracks (m ∷ ms) h = (ground arith, New-Tracks ms h.1)

-- With no id in common the new measurements go to the end.
insert-append :
    (msms : List Measurement) (m : Measurement)
    → contains (ids msms) m.id ≡ false
    → insert msms m ≡ msms ++ m ∷ []
unfolding insert
insert-append [] m h = refl
insert-append (x ∷ xs) m h = ground (arith, insert-append xs m)

ids-perm : {xs ys : List Measurement} → Permᴰ xs ys → Permᴰ (ids xs) (ids ys)
ids-perm Permᴰ.nil = Permᴰ.nil
ids-perm (Permᴰ.cons e p) = Permᴰ.cons (ap (λ m. m.id) e) (ids-perm p)
ids-perm (Permᴰ.swap e f) = Permᴰ.swap (ap (λ m. m.id) e) (ap (λ m. m.id) f)
ids-perm (Permᴰ.trans p q) = Permᴰ.trans (ids-perm p) (ids-perm q)

ids-append : (xs ys : List Measurement) → ids (xs ++ ys) ≡ ids xs ++ ids ys
ids-append [] ys = refl
ids-append (x ∷ xs) ys = ap (◌∷◌ x.id) (ids-append xs ys)

-- In a list without repetition an entry does not stand among those before it.
fresh_in_middle :
    (xs : List ℕ) (a : ℕ) (ys : List ℕ) → distinct (xs ++ a ∷ ys) ≡ true → contains xs a ≡ false
fresh_in_middle [] a ys h = refl
fresh_in_middle (x ∷ xs) a ys h =
    ground (arith, fresh_in_middle xs a ys, contains-append xs (a ∷ ys) x)

insert_all-new :
    (known fresh : List Measurement)
    → distinct (ids (known ++ fresh)) ≡ true
    → insert_all known fresh ≡ known ++ fresh
unfolding insert_all
insert_all-new known [] h = sym (append-nil known)
insert_all-new known (m ∷ ms) h =
    let fresh = fresh_in_middle (ids known) m.id (ids ms) (rw ids-append at h) in
    rw (insert-append known m fresh)
      (insert_all-new (known ++ m ∷ []) ms (rw append_assoc h) ∙ append_assoc known (m ∷ []) ms)

-- Measurements that pass the checks go into an empty map in the order of the map, and the scheduler
-- starts from there with nothing completed; an id that stands twice, or a dependency on an unknown
-- id, is a panic.
pub check_and_insert-IsScheduled :
    (arrange : List Measurement → List Measurement) (ms : List Measurement)
    → ((l : List Measurement) → Permᴰ l (arrange l))
    → All IsNew ms
    → ((distinct (ids ms) && depends_known (ids ms) ms ≡ true)
        × Returns
            (check_and_insert_measurements arrange [] ms)
            (λ msms. IsScheduled [] msms × Permᴰ ms msms))
      ⊎ ((distinct (ids ms) && depends_known (ids ms) ms ≡ false)
          × (check_and_insert_measurements arrange [] ms ≡ err panicked))
unfolding check_and_insert_measurements
check_and_insert-IsScheduled arrange ms perm new =
    elim (Bool-cases (distinct (ids ms) && depends_known (ids ms) ms)) [
      | inl good ↦
          let unique : distinct (ids ms) ≡ true = ground arith in
          let known : depends_known (ids ms) ms ≡ true = ground arith in
          let moved = perm ms in
          inl (
            good,
            rw (unique, known, insert_all-new [] ms unique)
                (
                  record {
                    tracked = All-perm (Tracks []) moved (New-Tracks ms new);
                    unique = sym (distinct-perm (ids-perm moved)) ∙ unique;
                    once = refl;
                  },
                  moved,
                ),
          )
      | inr bad ↦ inr (bad, ground arith)
    ]
