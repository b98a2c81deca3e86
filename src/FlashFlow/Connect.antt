-- ===== src/FlashFlow/Connect.antt =====
-- flashflow.c: find_and_connect_metas, which takes a connection for every host of a measurement.
use flashflow_research.Prelude.{
  ℕ, zero, suc, ◌+◌, ◌≡◌, ◌≢◌, ◌⊎◌, inl, inr, refl, ap, ◌∙◌, Bool, true, false, Option, none, some,
  List, [], ◌∷◌, Returns, Returns-bind, Returns-map, ok, arith, ◌==◌, ◌&&◌, if◌then◌else◌, All,
  All-set, All-get_elem?, length, get_elem?, set, count_if-set, not, ==_self,
}
use flashflow_research.Prelude.Int.{ℤ}
use flashflow_research.Prelude.Text.{Bytes, bytes_eq}
use flashflow_research.Os.{Os}
use flashflow_research.Meta.{Meta, CsmState, connected, state_number}
use flashflow_research.TorClient.Usage.{FindsAvailable, tc_next_available-FindsAvailable}
use flashflow_research.TorClient.Socket.{tc_next_available}
use flashflow_research.Sched.{Host}
use flashflow_research.Sched.Count.{contains, contains_same}
use flashflow_research.FlashFlow.Defs.{all_in_state, take_meta, connect_hosts}
use flashflow_research.FlashFlow.Staff.{staff, staff_of, hosts_of, IsOwned, owned-IsTracked}
use flashflow_research.FlashFlow.Moves.{all_in_state-rest}

-- The connection as it is taken for measurement `id`, on socket `s`.
abbrev taken : ℕ → ℤ → Meta → Meta
taken id s m = record m { fd = s; state = connected; current_m_id = id }

take_meta-set :
    (id k : ℕ) (s : ℤ) (m : Meta) (ms : List Meta)
    → take_meta k id (set ms k (record m { fd = s; state = connected })) ≡ set ms k (taken id s m)
take_meta-set id k s m [] = refl
take_meta-set id zero s m (x ∷ ms) = refl
take_meta-set id (suc k) s m (x ∷ ms) = ap (◌∷◌ x) (take_meta-set id k s m ms)

-- The conditions of `all_in_state` on one connection and on the others.
both :
    (mine fits rest : Bool)
    → fits ≡ true
    → rest ≡ true
    → (if not mine then rest else fits && rest) ≡ true
both mine fits rest h k = rw (h, k) (ground arith)

both-rest :
    (mine fits rest rest' : Bool)
    → (rest ≡ true → rest' ≡ true)
    → (if not mine then rest else fits && rest) ≡ true
    → (if not mine then rest' else fits && rest') ≡ true
both-rest true true rest rest' f h = f h
both-rest true false rest rest' f h = cc
both-rest false fits rest rest' f h = f h

all_in_state-set :
    (st : CsmState) (id k : ℕ) (y : Meta) (ms : List Meta)
    → y.state ≡ st
    → all_in_state st id ms ≡ true
    → all_in_state st id (set ms k y) ≡ true
unfolding all_in_state
all_in_state-set st id k y [] e h = refl
all_in_state-set st id zero y (x ∷ ms) e h =
    both (y.current_m_id == id) (state_number y.state == state_number st) (all_in_state st id ms)
      (ap (λ z. state_number z == state_number st) e ∙ ==_self (state_number st))
      (all_in_state-rest st id x ms h)
all_in_state-set st id (suc k) y (x ∷ ms) e h =
    both-rest (x.current_m_id == id) (state_number x.state == state_number st)
      (all_in_state st id ms) (all_in_state st id (set ms k y))
      (λ r. all_in_state-set st id k y ms e r) h

taken-IsOwned :
    (known : List ℕ) (id : ℕ) (s : ℤ) (m : Meta)
    → id ≢ 0
    → IsOwned (id ∷ known) m
    → IsOwned (id ∷ known) (taken id s m)
taken-IsOwned known id s m n o = record {
  tracked = record { free = λ e. absurd (n e); busy = λ h. (λ e. cc e, λ e. cc e) };
  owner = ground arith;
  background = o.background;
}

-- How often each measurement has a connection more, once one that was unused is taken.
staff-taken :
    (id a k : ℕ) (s : ℤ) (m : Meta) (ms : List Meta)
    → get_elem? ms k ≡ some m
    → m.current_m_id ≡ 0
    → a ≢ 0
    → staff a (set ms k (taken id s m)) ≡ staff a ms + (if id == a then 1 else 0)
staff-taken id a k s m ms e z n =
    ground (arith, count_if-set (λ m. m.current_m_id == a) ms k m (taken id s m) e)

staff_of-taken :
    (id a k : ℕ) (c : Bytes) (s : ℤ) (m : Meta) (ms : List Meta)
    → get_elem? ms k ≡ some m
    → m.current_m_id ≡ 0
    → a ≢ 0
    → staff_of a c (set ms k (taken id s m))
      ≡ staff_of a c ms + (if (id == a) && bytes_eq m.class c then 1 else 0)
staff_of-taken id a k c s m ms e z n =
    ground (
      arith,
      count_if-set (λ m. (m.current_m_id == a) && bytes_eq m.class c) ms k m (taken id s m) e,
    )

module _ (known : List ℕ) (id : ℕ) where
  -- What the search for the hosts `hs` leaves, whether it found them all or not.
  pub record Joins (hs : List Host) (metas : List Meta) (found : Bool) (metas' : List Meta)
      : Type 0 where
    pub owned : All (IsOwned (id ∷ known)) metas'
    pub ready : all_in_state connected id metas' ≡ true
    pub others : (a : ℕ) → a ≢ 0 → (id == a) ≡ false → staff a metas' ≡ staff a metas
    pub others_of :
        (a : ℕ) → a ≢ 0 → (id == a) ≡ false → (c : Bytes) → staff_of a c metas' ≡ staff_of a c metas
    pub complete :
        (found ≡ false)
        ⊎ ((staff id metas' ≡ staff id metas + length hs)
            × ((c : Bytes) → staff_of id c metas' ≡ staff_of id c metas + hosts_of c hs))

  pub Joins-none :
      (hs : List Host) (metas : List Meta)
      → All (IsOwned (id ∷ known)) metas
      → all_in_state connected id metas ≡ true
      → Joins hs metas false metas
  Joins-none hs metas o r = record {
    owned = o;
    ready = r;
    others = λ a n k. refl;
    others_of = λ a n k c. refl;
    complete = inl refl;
  }

  Joins-step :
      (h : Host) (hs : List Host) (metas metas' : List Meta) (found : Bool) (k : ℕ) (s : ℤ)
      (m : Meta)
      → id ≢ 0
      → get_elem? metas k ≡ some m
      → m.current_m_id ≡ 0
      → m.class ≡ h.class
      → Joins hs (set metas k (taken id s m)) found metas'
      → Joins (h ∷ hs) metas found metas'
  Joins-step h hs metas metas' found k s m n e z same j = record {
    owned = j.owned;
    ready = j.ready;
    others = λ a b apart. ground (arith, j.others a b apart, staff-taken id a k s m metas e z b);
    others_of = λ a b apart c.
        ground (arith, j.others_of a b apart c, staff_of-taken id a k c s m metas e z b);
    complete = elim j.complete [
      | inl missed ↦ inl missed
      | inr (size, classes) ↦ inr (
        ground (arith, size, staff-taken id id k s m metas e z n),
        λ c.
            let like : bytes_eq m.class c ≡ bytes_eq h.class c = ap (λ x. bytes_eq x c) same in
            ground (arith, classes c, staff_of-taken id id k c s m metas e z n),
      )
    ];
  }

  module _ (os : Os) where
    open os use {World}

    -- While every connection is unused or of a known measurement, or of this one and connected, the
    -- search for the hosts of a measurement returns; the connections of every other measurement are
    -- as many as before, in all and of each class, those of this one are connected, and if all
    -- hosts were found they are as many more as there are hosts, in all and of each class.
    pub connect_hosts-Joins :
        (hs : List Host) (metas : List Meta) (w : World)
        → id ≢ 0
        → All (IsOwned (id ∷ known)) metas
        → all_in_state connected id metas ≡ true
        → Returns (connect_hosts os id hs metas w) (λ r. Joins hs metas r.0 r.1)
    unfolding connect_hosts
    connect_hosts-Joins [] metas w n o r = record {
      owned = o;
      ready = r;
      others = λ a n k. refl;
      others_of = λ a n k c. refl;
      complete = inr (omega arith, λ c. omega arith);
    }
    connect_hosts-Joins (h ∷ hs) metas w n o r =
        Returns-bind (FindsAvailable os 0 metas h.class) (λ r. Joins (h ∷ hs) metas r.0 r.1)
          (tc_next_available os metas h.class w) _
          (tc_next_available-FindsAvailable os metas h.class w
            (owned-IsTracked (id ∷ known) metas o))
          λ q f. next (λ ms w' o' r'. connect_hosts-Joins hs ms w' n o' r') q f
      where
        next :
            ((ms : List Meta) (w' : World)
              → All (IsOwned (id ∷ known)) ms
              → all_in_state connected id ms ≡ true
              → Returns (connect_hosts os id hs ms w') (λ r. Joins hs ms r.0 r.1))
            → (q : Option ℕ × List Meta × World) → FindsAvailable os 0 metas h.class q
            → Returns {A = Bool × List Meta × World}
                (elim q.0 [
                  | none ↦ ok (false, q.1, q.2)
                  | some i ↦ connect_hosts os id hs (take_meta i id q.1) q.2
                ])
                (λ r. Joins (h ∷ hs) metas r.0 r.1)
        next ih (none, metas', w') e = rw e (Joins-none (h ∷ hs) metas o r)
        next ih (some j, metas', w') (k, m, s, hj, hk, hc, hi, hs', e) =
            let here : j ≡ k = omega arith in
            let ms = set metas k (taken id s m) in
            rw (here, e, take_meta-set id k s m metas)
              (Returns-map (connect_hosts os id hs ms w')
                (ih ms w'
                  (All-set (IsOwned (id ∷ known)) metas k (taken id s m) o (
                    taken-IsOwned known id s m n
                      (All-get_elem? (IsOwned (id ∷ known)) metas k o hk)))
                  (all_in_state-set connected id k (taken id s m) metas refl r))
                λ r j. Joins-step h hs metas r.1 r.0 k s m n hk hi hc j)

-- A measurement that is not known has no connection yet.
pub record Unmanned (id : ℕ) (metas : List Meta) : Type 0 where
  pub none_of : staff id metas ≡ 0
  pub none_of_class : (c : Bytes) → staff_of id c metas ≡ 0
  pub any_state : all_in_state connected id metas ≡ true

pub owned-Unmanned :
    (known : List ℕ) (id : ℕ) (metas : List Meta)
    → id ≢ 0
    → contains known id ≡ false
    → All (IsOwned known) metas
    → Unmanned id metas
unfolding all_in_state
owned-Unmanned known id [] n h o = record {
  none_of = refl;
  none_of_class = λ c. refl;
  any_state = refl;
}
owned-Unmanned known id (m ∷ ms) n h o =
    let u = owned-Unmanned known id ms n h o.1 in
    let not_mine : (m.current_m_id == id) ≡ false =
      ground (arith, o.0.owner, contains_same known {d = id} {x = m.current_m_id}) in
    record {
      none_of = rw not_mine u.none_of;
      none_of_class = λ c. rw not_mine (u.none_of_class c);
      any_state = rw not_mine u.any_state;
    }
