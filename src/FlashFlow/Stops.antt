-- ===== src/FlashFlow/Stops.antt =====
-- flashflow.c: the failsafe times of the measurements, and the known ids on both sides of an index.
use flashflow_research.Prelude.{
  ℕ, ◌≡◌, inl, inr, refl, ap, ◌∙◌, true, false, none, some, List, [], ◌∷◌, ◌++◌, map, panicked,
  guard, Ensures, Ensures-any, arith, length, get_elem?, Option-cases, Option,
}
use flashflow_research.Sched.{
  Measurement, complete, find, update, get, push_finished, sched_get_fp, sched_mark_done,
  is_in_progress,
}
use flashflow_research.Sched.Count.{contains, contains-append, distinct}
use flashflow_research.FlashFlow.Defs.{fill_gap, fill_msm_params, remove_id}
use flashflow_research.FlashFlow.Coordinates.{fill_msm_params-found}

abbrev pub stop_of_found : Option Measurement → ℕ
stop_of_found none = 0
stop_of_found (some m) = m.failsafe_stop

-- The failsafe time of a measurement.
abbrev pub stop_of : List Measurement → ℕ → ℕ
stop_of msms id = stop_of_found (find msms id)

stop_of-update :
    (msms : List Measurement) (id a : ℕ)
    → stop_of (update msms id (λ m. record m { state = complete })) a ≡ stop_of msms a
unfolding find update
stop_of-update [] id a = refl
stop_of-update (m ∷ ms) id a = ground (arith, stop_of-update ms id a)

stop_of-push_finished :
    (id : ℕ) (msms : List Measurement) (a : ℕ)
    → stop_of (map (push_finished id) msms) a ≡ stop_of msms a
unfolding find
stop_of-push_finished id [] a = refl
stop_of-push_finished id (m ∷ ms) a = ground (arith, stop_of-push_finished id ms a)

pub sched_mark_done-stops :
    (msms : List Measurement) (id : ℕ)
    → Ensures (sched_mark_done msms id) (λ u. (a : ℕ) → stop_of u a ≡ stop_of msms a)
unfolding sched_mark_done
sched_mark_done-stops msms id =
    let Q = λ (u : List Measurement). (a : ℕ) → stop_of u a ≡ stop_of msms a in
    Ensures-any Q (get msms id) _ λ m.
      Ensures-any Q (guard (is_in_progress m.state) panicked) _ λ u a.
        stop_of-push_finished id (update msms id (λ m. record m { state = complete })) a
        ∙ stop_of-update msms id a

pub fill_msm_params-stop :
    (msms : List Measurement) (id : ℕ)
    → Ensures (fill_msm_params msms id) (λ r. r.1.failsafe_stop ≡ stop_of msms id)
unfolding fill_msm_params sched_get_fp get
fill_msm_params-stop msms id = elim (Option-cases (find msms id)) [
  | inl unknown ↦ rw (fill_msm_params, sched_get_fp, get, unknown) tt
  | inr (m, found) ↦ rw (fill_msm_params-found msms id m found, found) refl
]

-- Where the ids in front of an index are `front`, the id at the index is the next one.
pub get_elem-split :
    (front back : List ℕ) (id : ℕ)
    → get_elem? (front ++ back) (length front) ≡ some id
    → (rest : List ℕ) × (back ≡ id ∷ rest)
get_elem-split [] [] id h = absurd (cc h)
get_elem-split [] (x ∷ xs) id h = (xs, let e : x ≡ id = cc h in ap (λ y. y ∷ xs) e)
get_elem-split (x ∷ front) back id h = get_elem-split front back id h

pub get_elem-end :
    (front back : List ℕ) → get_elem? (front ++ back) (length front) ≡ none → back ≡ []
get_elem-end [] [] h = refl
get_elem-end [] (x ∷ xs) h = absurd (cc h)
get_elem-end (x ∷ front) back h = get_elem-end front back h

pub not_in_front :
    (front rest : List ℕ) (id : ℕ)
    → distinct (front ++ id ∷ rest) ≡ true
    → contains front id ≡ false
not_in_front [] rest id h = refl
not_in_front (x ∷ front) rest id h =
    ground (arith, h, not_in_front front rest id, contains-append front (id ∷ rest) x)

pub remove_id-front :
    (front rest : List ℕ) (id : ℕ)
    → contains front id ≡ false
    → remove_id (front ++ id ∷ rest) id ≡ front ++ fill_gap rest
unfolding remove_id
remove_id-front [] rest id h = ground arith
remove_id-front (x ∷ front) rest id h = ground (arith, remove_id-front front rest id)
