-- ===== src/Sched/Parse/Laws.antt =====
-- What the schedule's reader lets through.
use mathlib.Core.List.{Permᴰ}
use flashflow_research.Prelude.{
  subst, sym, ◌∙◌, ℕ, ◌≤◌, ◌≡◌, ◌≢◌, inl, inr, Bool, true, false, not, Option, none, some, List, [],
  ◌∷◌, Result, ok, err, panicked, >>=-eq-ok, ◌>>=◌, guard, arith, ◌==◌, Bool-cases, length,
  count_if, All, if◌then◌else◌, Returns,
}
use flashflow_research.Prelude.Perms.{All-perm}
use flashflow_research.Prelude.Text.{Bytes, codes}
use flashflow_research.Sched.{
  Measurement, sched_next_internal, sched_num, check_and_insert_measurements, is_ready,
}
use flashflow_research.Sched.Count.{contains}
use flashflow_research.Sched.Tracking.{IsScheduled}
use flashflow_research.Sched.Load.{IsNew, check_and_insert-IsScheduled}
use flashflow_research.Sched.Parse.{
  Fields, make_measurement, is_background, hosts_allowed, new_from_string, read_measurements,
  sched_new_from_txt, sched_new, is_comment, trim, ends_with,
}

-- What the checks of a line make sure of.
pub record IsAllowed (m : Measurement) : Type 0 where
  pub new : IsNew m
  pub apart : contains m.depends m.id ≡ false
  pub backgrounds : hosts_allowed m.hosts ≡ true
  pub one_background : count_if is_background m.hosts ≤ 1

make_measurement-IsAllowed :
    (k : Fields) {m : Measurement} → make_measurement k ≡ ok (some m) → IsAllowed m
unfolding make_measurement
make_measurement-IsAllowed k h = ground arith

new_from_string-IsAllowed :
    (line : Bytes) {m : Measurement} → new_from_string line ≡ ok (some m) → IsAllowed m
unfolding new_from_string
new_from_string-IsAllowed line h = elim (Bool-cases (is_comment (trim line))) [
  | inl comment ↦ ground arith
  | inr text ↦
      let (k, p, q) = >>=-eq-ok _ make_measurement (rw text at h) in make_measurement-IsAllowed k q
]

cons-IsAllowed :
    (line : Bytes) (m : Option Measurement) (rest ms : List Measurement)
    → new_from_string line ≡ ok m
    → All IsAllowed rest
    → (elim m [ none ↦ ok rest | some m ↦ ok (m ∷ rest) ]) ≡ ok ms
    → All IsAllowed ms
cons-IsAllowed line none rest ms p h e = let same : rest ≡ ms = cc e in subst (All IsAllowed) same h
cons-IsAllowed line (some m) rest ms p h e =
    let same : m ∷ rest ≡ ms = cc e in
    subst (All IsAllowed) same (new_from_string-IsAllowed line p, h)

read_measurements-IsAllowed :
    (lines : List Bytes) (ms : List Measurement)
    → read_measurements lines ≡ ok ms
    → All IsAllowed ms
unfolding read_measurements
read_measurements-IsAllowed [] [] h = tt
read_measurements-IsAllowed [] (m ∷ ms) h = cc h
read_measurements-IsAllowed (line ∷ lines) ms h =
    let (m, p, q) = >>=-eq-ok (new_from_string line) _ h in
    let (rest, p', q') = >>=-eq-ok (read_measurements lines) _ q in
    cons-IsAllowed line m rest ms p (read_measurements-IsAllowed lines rest p') q'

All-IsNew : (ms : List Measurement) → All IsAllowed ms → All IsNew ms
All-IsNew [] h = tt
All-IsNew (m ∷ ms) h = (h.0.new, All-IsNew ms h.1)

Returns-eq-ok : {A : Type 0} (P : A → Type 0) (m : Result A) {a : A} → Returns m P → m ≡ ok a → P a
Returns-eq-ok P m h e = subst (λ r. Returns r P) e h

-- A search that marks nothing changes nothing, and finds what is ready.
looks_only :
    (now : ℕ) (ms : List Measurement) (r : ℕ × List Measurement)
    → sched_next_internal false now ms ≡ ok r
    → r.0 ≢ 0
    → (r.1 ≡ ms) × (count_if is_ready ms ≢ 0)
unfolding sched_next_internal
looks_only now [] r h k = ground arith
looks_only now (m ∷ ms) r h k = elim (Bool-cases (is_ready m)) [
  | inl ready ↦ (ground arith, rw ready (λ e. ground arith))
  | inr not_ready ↦
      let (r', p, q) =
        >>=-eq-ok (sched_next_internal false now ms) (λ r. ok (r.0, m ∷ r.1)) (rw not_ready at h) in
      let (same, some_ready) = looks_only now ms r' p (ground arith) in
      (ground arith, rw not_ready some_ready)
]

-- What a schedule is like when it was read.
pub record IsRead (msms : List Measurement) (count : ℕ) : Type 0 where
  pub scheduled : IsScheduled [] msms
  pub allowed : All IsAllowed msms
  pub counted : count ≡ length msms
  pub some_ready : count_if is_ready msms ≢ 0

inserted :
    (arrange : List Measurement → List Measurement) (ms msms : List Measurement)
    → ((l : List Measurement) → Permᴰ l (arrange l))
    → All IsAllowed ms
    → check_and_insert_measurements arrange [] ms ≡ ok msms
    → IsScheduled [] msms × All IsAllowed msms
inserted arrange ms msms perm h e =
    elim (check_and_insert-IsScheduled arrange ms perm (All-IsNew ms h)) [
      | inl (good, works) ↦
          let (s, p) = Returns-eq-ok _ (check_and_insert_measurements arrange [] ms) works e in
          (s, All-perm IsAllowed p h)
      | inr (bad, panics) ↦ cc (panics, e)
    ]

read_from_txt :
    (arrange : List Measurement → List Measurement) (file : Option (List Bytes))
    (msms : List Measurement)
    → ((l : List Measurement) → Permᴰ l (arrange l))
    → sched_new_from_txt arrange file [] ≡ ok msms
    → IsScheduled [] msms × All IsAllowed msms
unfolding sched_new_from_txt
read_from_txt arrange none msms perm h = cc h
read_from_txt arrange (some lines) msms perm h =
    let (ms, p, q) = >>=-eq-ok (read_measurements lines) _ h in
    inserted arrange ms msms perm (read_measurements-IsAllowed lines ms p) q

if-eq-ok :
    {A : Type 0} (b : Bool) (m : Result A) (a : A)
    → (if b then m else err panicked) ≡ ok a
    → m ≡ ok a
if-eq-ok true m a h = h
if-eq-ok false m a h = cc h

guarded :
    (r : ℕ × List Measurement) (msms : List Measurement) (count : ℕ)
    → ◌>>=◌ {Y = List Measurement × ℕ}
        (guard (not (r.0 == 0)) panicked)
        (λ _. ok (r.1, sched_num r.1))
      ≡ ok (msms, count)
    → (r.0 ≢ 0) × (r.1 ≡ msms) × (length msms ≡ count)
unfolding sched_num
guarded r msms count h = ground arith

-- Whatever the file holds, a schedule that sched_new returns into an empty map is tracked, with nothing
-- completed; each measurement passed the checks of its line, some measurement is ready, and the number
-- returned is the number of measurements. (All else is a panic.)
pub sched_new-IsRead :
    (arrange : List Measurement → List Measurement) (read : Bytes → Option (List Bytes))
    (fname : Bytes) (msms : List Measurement) (count : ℕ)
    → ((l : List Measurement) → Permᴰ l (arrange l))
    → sched_new arrange read fname [] ≡ ok (msms, count)
    → IsRead msms count
unfolding sched_new sched_num
sched_new-IsRead arrange read fname msms count perm h =
    let (start, p, q) = >>=-eq-ok _ _ h in
    let (r, p', q') = >>=-eq-ok (sched_next_internal false 0 start) _ q in
    let (s, allowed) =
      read_from_txt arrange (read fname) start perm
        (if-eq-ok (ends_with (codes ".txt") fname) _ start p) in
    let (found, out, counted) = guarded r msms count q' in
    let (same, some_ready) = looks_only 0 start r p' found in
    let e : start ≡ msms = sym same ∙ out in
    record {
      scheduled = subst (IsScheduled []) e s;
      allowed = subst (All IsAllowed) e allowed;
      counted = sym counted;
      some_ready = subst (λ l. count_if is_ready l ≢ 0) e some_ready;
    }
