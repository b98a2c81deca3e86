-- ===== src/FlashFlow/Hand.antt =====
-- flashflow.c: the loops that hand the hosts of a measurement to its connections.
use flashflow_research.Prelude.{
  ℕ, ◌+◌, ◌<◌, ◌≡◌, ◌≢◌, ◌⊎◌, inl, inr, refl, sym, ap, ◌∙◌, Bool, true, false, not, ◌&&◌, ◌||◌,
  List, [], ◌∷◌, Returns, Returns-bind, ok, arith, ◌==◌, if◌then◌else◌, Bool-cases, All, count_if,
  ==_self,
}
use flashflow_research.Prelude.Text.{
  Bytes, codes, has_prefix, bytes_eq, bytes_eq_sound, bytes_eq_refl,
}
use flashflow_research.Os.{Os}
use flashflow_research.Meta.{Meta, CsmState, invalid, failed, state_number}
use flashflow_research.TorClient.Usage.{IsTracked}
use flashflow_research.Sched.{Host}
use flashflow_research.FlashFlow.Defs.{all_in_state}
use flashflow_research.FlashFlow.Plans.{background_fits}
use flashflow_research.FlashFlow.Assign.{
  Action, unassigned, all_assigned, assign_host, assign_metas,
}
use flashflow_research.FlashFlow.Staff.{staff_of, hosts_of, IsOwned, owned-IsTracked}
use flashflow_research.FlashFlow.Moves.{
  Moved, Moved-refl, Sent, assert_state, all_in_state-mine, all_in_state-rest,
}

-- The hosts of a class that no connection stands for yet.
abbrev pub free : Bytes → List (Host × Bool) → ℕ
free c = count_if (λ p. bytes_eq (p.0).class c && not p.1)

pub free-unassigned : (c : Bytes) (hs : List Host) → free c (unassigned hs) ≡ hosts_of c hs
free-unassigned c [] = refl
free-unassigned c (h ∷ hs) = ground (arith, free-unassigned c hs)

abbrev pub Suits : Host × Bool → Type 0
Suits (h, assigned) = background_fits h ≡ true

pub Suits-unassigned :
    (hs : List Host) → All (λ h. background_fits h ≡ true) hs → All Suits (unassigned hs)
Suits-unassigned [] h = tt
Suits-unassigned (x ∷ hs) h = (h.0, Suits-unassigned hs h.1)

no_free-assigned :
    (hs : List (Host × Bool)) → ((c : Bytes) → free c hs ≡ 0) → all_assigned hs ≡ true
no_free-assigned [] f = refl
no_free-assigned ((h, true) ∷ hs) f = no_free-assigned hs (λ c. ground (arith, f c))
no_free-assigned ((h, false) ∷ hs) f =
    let self = bytes_eq_refl h.class in absurd (ground (arith, f h.class))

-- What the loops rely on of `tc_tell_connect` and of `tc_set_bw_rate`.
pub record Hands (os : Os) (act : Action os) (st next : CsmState) : Type 0 where
  pub acts :
      (h : Host) (m : Meta) (w : os.World)
      → m.state ≡ st
      → (not m.is_bg || (h.conns == 1)) ≡ true
      → Returns (act h m w) (Sent m next)
  pub in_use : (next ≢ invalid) × (next ≢ failed)

module _ (os : Os) (act : Action os) (st next : CsmState) (hand : Hands os act st next) where
  open os use {World}

  -- The connection `m` takes a host of its class, or the command fails.
  abbrev Takes : Meta → List (Host × Bool) → Bool × List (Host × Bool) × Meta × World → Type 0
  Takes m hs (told, hs', m', w') =
      ((told ≡ false) × (m' ≡ m))
      ⊎ ((told ≡ true)
          × (m' ≡ record m { state = next })
          × ((c : Bytes) → free c hs ≡ free c hs' + (if bytes_eq m.class c then 1 else 0))
          × All Suits hs')

  bg_fits :
      (h : Host) (m : Meta)
      → bytes_eq h.class m.class ≡ true
      → m.is_bg ≡ has_prefix (codes "bg") m.class
      → background_fits h ≡ true
      → (not m.is_bg || (h.conns == 1)) ≡ true
  bg_fits h m same bg f =
      let e : m.is_bg ≡ has_prefix (codes "bg") h.class =
        bg ∙ ap (has_prefix (codes "bg")) (sym (bytes_eq_sound h.class m.class same)) in
      rw e f

  assign_host-Takes :
      (hs : List (Host × Bool)) (m : Meta) (w : World)
      → m.state ≡ st
      → m.is_bg ≡ has_prefix (codes "bg") m.class
      → 0 < free m.class hs
      → All Suits hs
      → Returns (assign_host os act next hs m w) (Takes m hs)
  unfolding assign_host
  assign_host-Takes [] m w e bg f g = absurd (omega arith)
  assign_host-Takes ((h, assigned) ∷ hs) m w e bg f g =
      elim (Bool-cases (bytes_eq h.class m.class && not assigned)) [
        | inr other ↦ rw other (
            Returns-bind (Takes m hs) (Takes m ((h, assigned) ∷ hs))
              (assign_host os act next hs m w) (λ r. ok (r.0, (h, assigned) ∷ r.1, r.2, r.3))
              (assign_host-Takes hs m w e bg (rw other at f) g.1)
              λ r t. elim t [
                | inl (untold, same) ↦ inl (untold, same)
                | inr (told, changed, less, suits) ↦
                    inr (told, changed, λ c. ground (arith, less c), (g.0, suits))
              ])
        | inl fits ↦
            let same : bytes_eq h.class m.class ≡ true = ground arith in
            let new : assigned ≡ false = ground arith in
            rw fits (
              Returns-bind (Sent m next) (Takes m ((h, assigned) ∷ hs)) (act h m w) _
                (hand.acts h m w e (bg_fits h m same bg g.0))
                λ r t. elim t [
                  | inl (untold, kept) ↦ rw untold (inl (refl, kept))
                  | inr (told, changed) ↦
                      rw (told, changed, assert_state (record m { state = next }) next refl)
                        (inr (
                          refl,
                          refl,
                          λ c.
                              let like : bytes_eq h.class c ≡ bytes_eq m.class c =
                                ap (λ x. bytes_eq x c) (bytes_eq_sound h.class m.class same) in
                              rw (new, like) (ground arith),
                          g,
                        ))
                ])
      ]

  -- Every connection of the measurement is told its host, or a command failed.
  abbrev pub Told : ℕ → List Meta → Bool × List (Host × Bool) × List Meta × World → Type 0
  Told id ms (told, hs', ms', w') =
      Moved ms ms'
      × ((told ≡ false)
          ⊎ ((told ≡ true) × (all_assigned hs' ≡ true) × (all_in_state next id ms' ≡ true)))

  state_next :
      (id : ℕ) (m : Meta) (ms : List Meta)
      → all_in_state next id ms ≡ true
      → all_in_state next id (record m { state = next } ∷ ms) ≡ true
  unfolding all_in_state
  state_next id m ms h =
      let self : (state_number next == state_number next) ≡ true = ==_self (state_number next) in
      rw (self, h) (ground arith)

  state_other :
      (id : ℕ) (m : Meta) (ms : List Meta)
      → (m.current_m_id == id) ≡ false
      → all_in_state next id ms ≡ true
      → all_in_state next id (m ∷ ms) ≡ true
  unfolding all_in_state
  state_other id m ms other h = rw other h

  -- While the measurement has as many connections of every class as there are hosts that none stands
  -- for, the loop returns, as `Told` says.
  pub assign_metas-Told :
      (known : List ℕ) (id : ℕ) (hs : List (Host × Bool)) (ms : List Meta) (w : World)
      → id ≢ 0
      → All (IsOwned known) ms
      → all_in_state st id ms ≡ true
      → ((c : Bytes) → staff_of id c ms ≡ free c hs)
      → All Suits hs
      → Returns (assign_metas os act next id hs ms w) (Told id ms)
  unfolding assign_metas all_in_state
  assign_metas-Told known id hs [] w n o a f g =
      (tt, inr (refl, no_free-assigned hs (λ c. sym (f c)), refl))
  assign_metas-Told known id hs (m ∷ ms) w n o a f g = elim (Bool-cases (m.current_m_id == id)) [
    | inr other ↦ rw other (
        Returns-bind (Told id ms) (Told id (m ∷ ms)) (assign_metas os act next id hs ms w)
          (λ r. ok (r.0, r.1, m ∷ r.2, r.3))
          (assign_metas-Told known id hs ms w n o.1 (all_in_state-rest st id m ms a)
            (λ c. rw other at (f c)) g)
          λ r t. (
            (refl, o.0.tracked, t.0),
            elim t.1 [
              | inl untold ↦ inl untold
              | inr (told, all, states) ↦ inr (told, all, state_other id m r.2 other states)
            ],
          ))
    | inl mine ↦
        let here = all_in_state-mine st id m ms mine a in
        let busy : m.current_m_id ≢ 0 = λ e. ground (arith, n) in
        let some_free : 0 < free m.class hs = ground (arith, f m.class, bytes_eq_refl m.class) in
        rw mine (
          Returns-bind (Takes m hs) (Told id (m ∷ ms)) (assign_host os act next hs m w) _
            (assign_host-Takes hs m w here o.0.background some_free g)
            λ r t. elim t [
              | inl (untold, kept) ↦
                  rw (untold, kept)
                    ((refl, o.0.tracked, Moved-refl ms (owned-IsTracked known ms o.1)), inl refl)
              | inr (told, changed, less, suits) ↦
                  rw (told, changed)
                    (Returns-bind (Told id ms) (Told id (m ∷ ms))
                      (assign_metas os act next id r.1 ms r.3)
                      (λ q. ok (q.0, q.1, record m { state = next } ∷ q.2, q.3))
                      (assign_metas-Told known id r.1 ms r.3 n o.1 (all_in_state-rest st id m ms a)
                        (λ c. ground (arith, f c, less c)) suits)
                      λ q u. (
                        (refl, next_tracked m busy, u.0),
                        elim u.1 [
                          | inl stopped ↦ inl stopped
                          | inr (all_told, all, states) ↦
                              inr (all_told, all, state_next id m q.2 states)
                        ],
                      ))
            ])
  ]
    where
      next_tracked : (m : Meta) → m.current_m_id ≢ 0 → IsTracked (record m { state = next })
      next_tracked m b = record { free = λ e. absurd (b e); busy = λ h. hand.in_use }
