-- ===== src/FlashFlow/Moves.antt =====
-- Steps of the handshake on some of the connections: only their states change.
use flashflow_research.Prelude.{
  ℕ, ◌≡◌, refl, ap, ◌∙◌, Bool, true, false, List, [], ◌∷◌, arith, ◌==◌, ◌&&◌, if◌then◌else◌, All,
  ◌≢◌, ◌⊎◌, inl, inr, Bool-cases, Returns, ==_self, not, ok,
}
use flashflow_research.Prelude.Text.{Bytes}
use flashflow_research.Prelude.Int.{is_neg}
use flashflow_research.Os.{Os}
use flashflow_research.Meta.{Meta, CsmState, invalid, failed, state_number}
use flashflow_research.TorClient.Exchange.{
  Sender, auth, tell_connect, set_bw, start, sends_in, sends_to, allowed, command, run_sender,
  run_sender_lem, state_number-injective,
}
use flashflow_research.TorClient.Usage.{IsTracked}
use flashflow_research.TorClient.State.{tc_assert_state}
use flashflow_research.FlashFlow.Defs.{all_in_state}
use flashflow_research.FlashFlow.Plans.{Plan}
use flashflow_research.FlashFlow.Staff.{staff, staff_of, IsOwned, Manned, Staffed-same}

-- One after the other the connections differ in their states at most, and are tracked.
abbrev pub Moved : List Meta → List Meta → Type 0
Moved [] [] = Unit
Moved [] (m' ∷ ms') = ⊥
Moved (m ∷ ms) [] = ⊥
Moved (m ∷ ms) (m' ∷ ms') = (m' ≡ record m { state = m'.state }) × IsTracked m' × Moved ms ms'

pub Moved-refl : (ms : List Meta) → All IsTracked ms → Moved ms ms
Moved-refl [] t = tt
Moved-refl (m ∷ ms) t = (refl, t.0, Moved-refl ms t.1)

pub Moved-IsTracked : (ms ms' : List Meta) → Moved ms ms' → All IsTracked ms'
Moved-IsTracked [] [] h = tt
Moved-IsTracked [] (m' ∷ ms') h = elim h [ ]
Moved-IsTracked (m ∷ ms) [] h = elim h [ ]
Moved-IsTracked (m ∷ ms) (m' ∷ ms') h = (h.1, Moved-IsTracked ms ms' h.2)

pub Moved-trans : (a b c : List Meta) → Moved a b → Moved b c → Moved a c
Moved-trans [] [] c h k = k
Moved-trans [] (y ∷ b) c h k = elim h [ ]
Moved-trans (x ∷ a) [] c h k = elim h [ ]
Moved-trans (x ∷ a) (y ∷ b) [] h k = elim k [ ]
Moved-trans (x ∷ a) (y ∷ b) (z ∷ c) h k = (ground arith, k.1, Moved-trans a b c h.2 k.2)

Moved-IsOwned :
    (known : List ℕ) (ms ms' : List Meta)
    → Moved ms ms'
    → All (IsOwned known) ms
    → All (IsOwned known) ms'
Moved-IsOwned known [] [] h o = tt
Moved-IsOwned known [] (m' ∷ ms') h o = elim h [ ]
Moved-IsOwned known (m ∷ ms) [] h o = elim h [ ]
Moved-IsOwned known (m ∷ ms) (m' ∷ ms') h o = (
  record {
    tracked = h.1;
    owner = ground (arith, h.0, o.0.owner);
    background = ground (arith, h.0, o.0.background);
  },
  Moved-IsOwned known ms ms' h.2 o.1,
)

staff-Moved : (id : ℕ) (ms ms' : List Meta) → Moved ms ms' → staff id ms' ≡ staff id ms
staff-Moved id [] [] h = refl
staff-Moved id [] (m' ∷ ms') h = elim h [ ]
staff-Moved id (m ∷ ms) [] h = elim h [ ]
staff-Moved id (m ∷ ms) (m' ∷ ms') h =
    let same : m'.current_m_id ≡ m.current_m_id = ap (λ x. x.current_m_id) h.0 in
    ground (arith, staff-Moved id ms ms' h.2)

staff_of-Moved :
    (id : ℕ) (c : Bytes) (ms ms' : List Meta) → Moved ms ms' → staff_of id c ms' ≡ staff_of id c ms
staff_of-Moved id c [] [] h = refl
staff_of-Moved id c [] (m' ∷ ms') h = elim h [ ]
staff_of-Moved id c (m ∷ ms) [] h = elim h [ ]
staff_of-Moved id c (m ∷ ms) (m' ∷ ms') h =
    let same : m'.current_m_id ≡ m.current_m_id = ap (λ x. x.current_m_id) h.0 in
    let like : m'.class ≡ m.class = ap (λ x. x.class) h.0 in
    rw (same, like) (ground (arith, staff_of-Moved id c ms ms' h.2))

pub Moved-Manned :
    (ps : List Plan) (known : List ℕ) (ms ms' : List Meta)
    → Moved ms ms'
    → Manned ps known ms
    → Manned ps known ms'
Moved-Manned ps known ms ms' h m = record {
  owned = Moved-IsOwned known ms ms' h m.owned;
  staffed =
      Staffed-same ps ms ms' known (λ a k n. staff-Moved a ms ms' h)
        (λ a k n c. staff_of-Moved a c ms ms' h) m.staffed;
}

-- What a call that sends a command leaves: the connection as it was, or in the next state.
abbrev pub Sent {ℓ} : {W : Type ℓ} → Meta → CsmState → Bool × Meta × W → Type 0
Sent m next (told, m', w') =
    ((told ≡ false) × (m' ≡ m)) ⊎ ((told ≡ true) × (m' ≡ record m { state = next }))

pub run_sender-Sent :
    (os : Os) (c : Sender) (m : Meta) (w : os.World)
    → m.state ≡ sends_in c
    → allowed c m ≡ true
    → Returns (run_sender os c m w) (Sent m (sends_to c))
run_sender-Sent os c m w h a =
    rw (run_sender_lem os c m w h a) (elim (Bool-cases (is_neg (os.send m.fd (command c m) w).0)) [
      | inl unsent ↦ rw unsent (inl (refl, refl))
      | inr sent ↦ rw sent (inr (refl, refl))
    ])

-- The state after a command is one that a busy connection can have.
pub sent-IsTracked :
    (c : Sender) (m : Meta) → m.current_m_id ≢ 0 → IsTracked (record m { state = sends_to c })
sent-IsTracked c m n = record { free = λ e. absurd (n e); busy = λ h. in_use c }
  where
    in_use : (c : Sender) → (sends_to c ≢ invalid) × (sends_to c ≢ failed)
    in_use auth = (λ e. cc e, λ e. cc e)
    in_use (tell_connect fp conns) = (λ e. cc e, λ e. cc e)
    in_use (set_bw bw) = (λ e. cc e, λ e. cc e)
    in_use (start dur) = (λ e. cc e, λ e. cc e)

-- A call that asserts a state, in that state.
pub assert_state : (m : Meta) (st : CsmState) → m.state ≡ st → tc_assert_state m st ≡ ok tt
unfolding tc_assert_state
assert_state m st e =
    rw (ap (λ z. state_number z == state_number st) e ∙ ==_self (state_number st)) refl

-- The conditions of `all_in_state` on one connection and on the others.
pub all_in_state-mine :
    (st : CsmState) (id : ℕ) (m : Meta) (ms : List Meta)
    → (m.current_m_id == id) ≡ true
    → all_in_state st id (m ∷ ms) ≡ true
    → m.state ≡ st
unfolding all_in_state
all_in_state-mine st id m ms mine h =
    state_number-injective m.state st
      (first (state_number m.state == state_number st) (all_in_state st id ms) (rw mine at h))
  where
    first : (a b : Bool) → (a && b) ≡ true → a ≡ true
    first true b h = refl
    first false b h = cc

pub all_in_state-rest :
    (st : CsmState) (id : ℕ) (m : Meta) (ms : List Meta)
    → all_in_state st id (m ∷ ms) ≡ true
    → all_in_state st id ms ≡ true
unfolding all_in_state
all_in_state-rest st id m ms h =
    last (m.current_m_id == id) (state_number m.state == state_number st) (all_in_state st id ms) h
  where
    last : (a b c : Bool) → (if not a then c else b && c) ≡ true → c ≡ true
    last true true c h = h
    last true false c h = cc
    last false b c h = h
