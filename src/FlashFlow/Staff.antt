-- ===== src/FlashFlow/Staff.antt =====
-- The connections of each measurement against the hosts that it asks for.
use flashflow_research.Prelude.{
  ℕ, ◌≡◌, ◌≢◌, inl, inr, refl, ◌∙◌, subst, true, false, List, [], ◌∷◌, map, arith, ◌==◌, ◌&&◌,
  if◌then◌else◌, Bool-cases, All, length, count_if,
}
use flashflow_research.Prelude.Text.{Bytes, codes, has_prefix, bytes_eq}
use flashflow_research.Meta.{Meta}
use flashflow_research.TorClient.Usage.{IsTracked, released}
use flashflow_research.Sched.{Host}
use flashflow_research.Sched.Count.{contains}
use flashflow_research.FlashFlow.Plans.{Plan, hosts_at}
use flashflow_research.FlashFlow.Failed.{after_failure}

-- How many connections a measurement has, and how many of a class.
abbrev pub staff : ℕ → List Meta → ℕ
staff id = count_if (λ m. m.current_m_id == id)

abbrev pub staff_of : ℕ → Bytes → List Meta → ℕ
staff_of id c = count_if (λ m. (m.current_m_id == id) && bytes_eq m.class c)

abbrev pub hosts_of : Bytes → List Host → ℕ
hosts_of c = count_if (λ h. bytes_eq h.class c)

-- A measurement has as many connections as hosts, also class by class.
pub record Staffed (ps : List Plan) (metas : List Meta) (id : ℕ) : Type 0 where
  pub named : id ≢ 0
  pub size : staff id metas ≡ length (hosts_at ps id)
  pub classes : (c : Bytes) → staff_of id c metas ≡ hosts_of c (hosts_at ps id)

-- A connection is unused or of a known measurement, and a background client goes by its class.
pub record IsOwned (known : List ℕ) (m : Meta) : Type 0 where
  pub tracked : IsTracked m
  pub owner : contains (0 ∷ known) m.current_m_id ≡ true
  pub background : m.is_bg ≡ has_prefix (codes "bg") m.class

-- The connections against the known measurements.
pub record Manned (ps : List Plan) (known : List ℕ) (metas : List Meta) : Type 0 where
  pub owned : All (IsOwned known) metas
  pub staffed : All (Staffed ps metas) known

pub owned-IsTracked :
    (known : List ℕ) (metas : List Meta) → All (IsOwned known) metas → All IsTracked metas
owned-IsTracked known [] h = tt
owned-IsTracked known (m ∷ ms) h = (h.0.tracked, owned-IsTracked known ms h.1)

-- A change of the connections that counts alike for the ids that stay.
pub Staffed-same :
    (ps : List Plan) (metas metas' : List Meta) (ids : List ℕ)
    → ((id : ℕ) → contains ids id ≡ true → id ≢ 0 → staff id metas' ≡ staff id metas)
    → ((id : ℕ)
        → contains ids id ≡ true
        → id ≢ 0
        → (c : Bytes) → staff_of id c metas' ≡ staff_of id c metas)
    → All (Staffed ps metas) ids
    → All (Staffed ps metas') ids
Staffed-same ps metas metas' [] e f h = tt
Staffed-same ps metas metas' (id ∷ ids) e f h = (
  record {
    named = h.0.named;
    size = e id (ground arith) h.0.named ∙ h.0.size;
    classes = λ c. f id (ground arith) h.0.named c ∙ h.0.classes c;
  },
  Staffed-same ps metas metas' ids (λ a k. e a (ground arith)) (λ a k. f a (ground arith)) h.1,
)

pub staff-after_failure :
    (gone id : ℕ) (metas : List Meta)
    → id ≢ 0
    → (id == gone) ≡ false
    → staff id (map (after_failure gone) metas) ≡ staff id metas
staff-after_failure gone id [] h k = refl
staff-after_failure gone id (m ∷ ms) h k = ground (arith, staff-after_failure gone id ms h k)

pub staff_of-after_failure :
    (gone id : ℕ) (c : Bytes) (metas : List Meta)
    → id ≢ 0
    → (id == gone) ≡ false
    → staff_of id c (map (after_failure gone) metas) ≡ staff_of id c metas
staff_of-after_failure gone id c [] h k = refl
staff_of-after_failure gone id c (m ∷ ms) h k =
    ground (arith, staff_of-after_failure gone id c ms h k)

released-IsOwned :
    (rest : List ℕ) (m : Meta)
    → m.is_bg ≡ has_prefix (codes "bg") m.class
    → IsOwned rest (released m)
released-IsOwned rest m h = record {
  tracked = record { free = λ e. refl; busy = λ h. absurd (omega arith) };
  owner = ground arith;
  background = h;
}

pub after_failure-IsOwned :
    (known rest : List ℕ) (id : ℕ) (metas : List Meta)
    → ((a : ℕ) → contains known a ≡ (if a == id then true else contains rest a))
    → All (IsOwned known) metas
    → All (IsOwned rest) (map (after_failure id) metas)
after_failure-IsOwned known rest id [] e h = tt
after_failure-IsOwned known rest id (m ∷ ms) e h = (
  elim (Bool-cases (m.current_m_id == id)) [
    | inl hit ↦ rw hit (released-IsOwned rest m h.0.background)
    | inr miss ↦ rw miss (record {
      tracked = h.0.tracked;
      owner = ground (arith, e m.current_m_id, h.0.owner);
      background = h.0.background;
    })
  ],
  after_failure-IsOwned known rest id ms e h.1,
)

-- What a failure leaves, for the measurements that are known still.
pub Manned-after_failure :
    (ps : List Plan) (known rest : List ℕ) (id : ℕ) (metas : List Meta)
    → ((a : ℕ) → contains known a ≡ (if a == id then true else contains rest a))
    → contains rest id ≡ false
    → All (IsOwned known) metas
    → All (Staffed ps metas) rest
    → Manned ps rest (map (after_failure id) metas)
Manned-after_failure ps known rest id metas e gone o st = record {
  owned = after_failure-IsOwned known rest id metas e o;
  staffed =
      Staffed-same ps metas (map (after_failure id) metas) rest
        (λ a k n. staff-after_failure id a metas n (apart a k))
        (λ a k n c. staff_of-after_failure id a c metas n (apart a k)) st;
}
  where
    apart : (a : ℕ) → contains rest a ≡ true → (a == id) ≡ false
    apart a k = elim (Bool-cases (a == id)) [
      | inl same ↦
          let e : a ≡ id = ground arith in cc (subst (λ i. contains rest i ≡ true) e k, gone)
      | inr other ↦ other
    ]
