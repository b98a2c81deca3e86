-- ===== src/FlashFlow/Plans.antt =====
-- What never changes of a measurement, whatever is started, failed or completed.
use flashflow_research.Prelude.{
  ℕ, suc, length, ◌≡◌, inl, inr, refl, ap, ◌∙◌, Bool, true, false, some, List, [], ◌∷◌, map, arith,
  ◌==◌, if◌then◌else◌, Bool-cases, All, not, ◌||◌, ◌<◌, ◌*◌, ◌^◌,
}
use flashflow_research.Prelude.Text.{codes, has_prefix}
use flashflow_research.Sched.{
  Host, Measurement, complete, is_in_progress, find, update, push_finished, ids,
}
use flashflow_research.Sched.Count.{contains, distinct, contains_same}
use flashflow_research.Sched.Tracking.{started, FitsClock}
use flashflow_research.FlashFlow.Failed.{marked_done}

pub record Plan : Type 0 where
  pub id : ℕ
  pub dur : ℕ
  pub hosts : List Host
  pub depends : List ℕ

abbrev pub plans : List Measurement → List Plan
plans = map (λ m. record { id = m.id; dur = m.dur; hosts = m.hosts; depends = m.depends })

abbrev pub plan_ids : List Plan → List ℕ
plan_ids = map (λ p. p.id)

pub plan_ids-plans : (ms : List Measurement) → plan_ids (plans ms) ≡ ids ms
plan_ids-plans [] = refl
plan_ids-plans (m ∷ ms) = ap (◌∷◌ m.id) (plan_ids-plans ms)

pub length-plans : (ms : List Measurement) → length (plans ms) ≡ length ms
length-plans [] = refl
length-plans (m ∷ ms) = ap suc (length-plans ms)

-- The hosts of the measurement with an id.
abbrev pub hosts_at : List Plan → ℕ → List Host
hosts_at [] id = []
hosts_at (p ∷ ps) id = if p.id == id then p.hosts else hosts_at ps id

-- What the code takes for granted of a schedule: a host whose class starts with bg has one connection,
-- and three times a duration fits 32 bits.
abbrev pub background_fits : Host → Bool
background_fits h = not (has_prefix (codes "bg") h.class) || (h.conns == 1)

pub record Fits (p : Plan) : Type 0 where
  pub backgrounds : All (λ h. background_fits h ≡ true) p.hosts
  pub dur_fits : 3 * p.dur < 2 ^ 32

pub plans-update :
    (msms : List Measurement) (id : ℕ) (f : Measurement → Measurement)
    → ((m : Measurement) → plans (f m ∷ []) ≡ plans (m ∷ []))
    → plans (update msms id f) ≡ plans msms
unfolding update
plans-update [] id f keeps = refl
plans-update (m ∷ ms) id f keeps = ground (arith, keeps m, plans-update ms id f keeps)

plans-push_finished :
    (id : ℕ) (ms : List Measurement) → plans (map (push_finished id) ms) ≡ plans ms
plans-push_finished id [] = refl
plans-push_finished id (m ∷ ms) = ground (arith, plans-push_finished id ms)

pub plans-marked_done : (id : ℕ) (ms : List Measurement) → plans (marked_done id ms) ≡ plans ms
plans-marked_done id ms =
    plans-push_finished id (update ms id (λ m. record m { state = complete }))
    ∙ plans-update ms id (λ m. record m { state = complete }) (λ m. refl)

pub find-hosts_at :
    (ms : List Measurement) (id : ℕ) (m : Measurement)
    → find ms id ≡ some m
    → hosts_at (plans ms) id ≡ m.hosts
unfolding find
find-hosts_at [] id m h = cc
find-hosts_at (x ∷ xs) id m h = ground (arith, find-hosts_at xs id m)

pub find-Fits :
    (ms : List Measurement) (id : ℕ) (m : Measurement)
    → find ms id ≡ some m
    → All Fits (plans ms)
    → All (λ h. background_fits h ≡ true) m.hosts
unfolding find
find-Fits [] id m h f = cc
find-Fits (x ∷ xs) id m h f = elim (Bool-cases (x.id == id)) [
  | inl hit ↦ let same : x ≡ m = ground arith in rw (← same) f.0.backgrounds
  | inr miss ↦ find-Fits xs id m (rw miss at h) f.1
]

-- The known ids are those of the measurements in progress.
abbrev pub KnownRun : List ℕ → List Measurement → Type 0
KnownRun known ms = All (λ m. is_in_progress m.state ≡ contains known m.id) ms

KnownRun-pushed :
    (known : List ℕ) (id : ℕ) (ms : List Measurement)
    → KnownRun known ms
    → KnownRun known (map (push_finished id) ms)
KnownRun-pushed known id [] h = tt
KnownRun-pushed known id (m ∷ ms) h = (ground arith, KnownRun-pushed known id ms h.1)

-- Other ids make no difference to measurements of this list.
KnownRun-others :
    (known rest : List ℕ) (id : ℕ) (ms : List Measurement)
    → ((a : ℕ) → contains known a ≡ (if a == id then true else contains rest a))
    → contains (ids ms) id ≡ false
    → KnownRun known ms
    → KnownRun rest ms
KnownRun-others known rest id [] e h k = tt
KnownRun-others known rest id (m ∷ ms) e h k =
    (ground (arith, e m.id), KnownRun-others known rest id ms e (ground arith) k.1)

KnownRun-completed :
    (known rest : List ℕ) (id : ℕ) (ms : List Measurement)
    → ((a : ℕ) → contains known a ≡ (if a == id then true else contains rest a))
    → contains rest id ≡ false
    → distinct (ids ms) ≡ true
    → KnownRun known ms
    → KnownRun rest (update ms id (λ m. record m { state = complete }))
unfolding update
KnownRun-completed known rest id [] e gone d k = tt
KnownRun-completed known rest id (m ∷ ms) e gone d k = elim (Bool-cases (m.id == id)) [
  | inl hit ↦
      let fresh : contains (ids ms) id ≡ false =
        ground (arith, contains_same (ids ms) {d = m.id} {x = id}) in
      let same : m.id ≡ id = ground arith in
      rw hit (ground arith, KnownRun-others known rest id ms e fresh k.1)
  | inr miss ↦
      rw miss
        (ground (arith, e m.id), KnownRun-completed known rest id ms e gone (ground arith) k.1)
]

pub KnownRun-marked_done :
    (known rest : List ℕ) (id : ℕ) (ms : List Measurement)
    → ((a : ℕ) → contains known a ≡ (if a == id then true else contains rest a))
    → contains rest id ≡ false
    → distinct (ids ms) ≡ true
    → KnownRun known ms
    → KnownRun rest (marked_done id ms)
KnownRun-marked_done known rest id ms e gone d k =
    KnownRun-pushed rest id (update ms id (λ m. record m { state = complete }))
      (KnownRun-completed known rest id ms e gone d k)

KnownRun-fresh :
    (known : List ℕ) (id : ℕ) (ms : List Measurement)
    → contains (ids ms) id ≡ false
    → KnownRun known ms
    → KnownRun (id ∷ known) ms
KnownRun-fresh known id [] h k = tt
KnownRun-fresh known id (m ∷ ms) h k = (ground arith, KnownRun-fresh known id ms (ground arith) k.1)

pub KnownRun-started :
    (known : List ℕ) (id now : ℕ) (ms : List Measurement)
    → contains known id ≡ false
    → distinct (ids ms) ≡ true
    → KnownRun known ms
    → KnownRun (id ∷ known) (update ms id (started now))
unfolding update
KnownRun-started known id now [] gone d k = tt
KnownRun-started known id now (m ∷ ms) gone d k = elim (Bool-cases (m.id == id)) [
  | inl hit ↦
      let fresh : contains (ids ms) id ≡ false =
        ground (arith, contains_same (ids ms) {d = m.id} {x = id}) in
      rw hit (ground arith, KnownRun-fresh known id ms fresh k.1)
  | inr miss ↦ rw miss (ground arith, KnownRun-started known id now ms gone (ground arith) k.1)
]

-- The clock stays below 2 ^ 63, so that the times of the measurements fit.
pub Fits-FitsClock :
    (now : ℕ) (ms : List Measurement) → now < 2 ^ 63 → All Fits (plans ms) → All (FitsClock now) ms
Fits-FitsClock now [] h f = tt
Fits-FitsClock now (m ∷ ms) h f = (
  record { dur_fits = f.0.dur_fits; stop_fits = omega (arith, f.0.dur_fits) },
  Fits-FitsClock now ms h f.1,
)

pub find-update :
    (ms : List Measurement) (id : ℕ) (m : Measurement) (f : Measurement → Measurement)
    → ((m : Measurement) → (f m).id ≡ m.id)
    → find ms id ≡ some m
    → find (update ms id f) id ≡ some (f m)
unfolding find update
find-update [] id m f keeps h = absurd (cc h)
find-update (x ∷ xs) id m f keeps h = elim (Bool-cases (x.id == id)) [
  | inl hit ↦
      let same : x ≡ m = ground arith in
      let here : ((f x).id == id) ≡ true = ground (arith, keeps x) in
      rw (hit, here) (ap (λ y. some (f y)) same)
  | inr miss ↦ rw (miss, miss) (find-update xs id m f keeps (rw miss at h))
]
