-- ===== src/TorClient/Usage.antt =====
-- What taking a connection into use and giving it back do, on every branch.
use flashflow_research.Prelude.{
  ℕ, suc, ◌+◌, ◌<◌, ◌≡◌, ◌≢◌, ◌⊎◌, inl, inr, refl, ap, true, false, ◌&&◌, Option, none, some, List,
  [], ◌∷◌, Returns, Returns-bind, ok, err, assertion, arith, ◌==◌, Bool-cases, All, get_elem?, set,
}
use flashflow_research.Prelude.Int.{ℤ, pos, negsuc, minus_one, is_neg}
use flashflow_research.Prelude.Text.{Bytes, bytes_eq, bytes_eq_sound}
use flashflow_research.Os.{Os}
use flashflow_research.Meta.{Meta, invalid, connected, done, failed}
use flashflow_research.TorClient.State.{tc_change_state, tc_assert_state}
use flashflow_research.TorClient.Socket.{
  connect_to, tc_make_socket, next_available_from, tc_next_available, tc_finished_with_meta,
}

-- Between two steps of the main loop: a connection of no measurement is unused, and one of a
-- measurement is neither unused nor failed.
pub record IsTracked (m : Meta) : Type 0 where
  pub free : m.current_m_id ≡ 0 → m.state ≡ invalid
  pub busy : 0 < m.current_m_id → (m.state ≢ invalid) × (m.state ≢ failed)

-- The connection as `tc_finished_with_meta` leaves it.
abbrev pub released : Meta → Meta
released m = record m { state = invalid; fd = if_open m.fd; current_m_id = 0 }
  where
    if_open : ℤ → ℤ
    if_open (pos n) = minus_one
    if_open (negsuc n) = negsuc n

module _ (os : Os) where
  open os use {World, close}

  -- A connection that is done or failed is given back: unused, of no measurement, its descriptor
  -- closed if it had one. In any other state the call is a failed assertion.
  pub tc_finished_with_meta_lem :
      (m : Meta) (w : World)
      → (((m.state ≡ done) ⊎ (m.state ≡ failed))
          × (tc_finished_with_meta os m w
              ≡ ok (released m, elim m.fd [ pos n ↦ close m.fd w | negsuc n ↦ w ])))
        ⊎ ((m.state ≢ done) × (m.state ≢ failed) × (tc_finished_with_meta os m w ≡ err assertion))
  unfolding tc_finished_with_meta tc_change_state
  tc_finished_with_meta_lem m w = ground arith

  -- What `tc_make_socket` can return on the connection `m`.
  abbrev pub MakesSocket : Meta → ℤ × Meta × World → Type 0
  MakesSocket m (s, m', w') =
      ((is_neg s ≡ true) × (m' ≡ m))
      ⊎ ((is_neg s ≡ false) × (m' ≡ record m { fd = s; state = connected }))

  connect_to-MakesSocket :
      (m : Meta) (s : ℤ) (addr : os.Addr) (w : World)
      → m.state ≡ invalid
      → is_neg s ≡ false
      → Returns (connect_to os m s addr w) (MakesSocket m)
  unfolding connect_to tc_change_state
  connect_to-MakesSocket m s addr w h k = ground arith

  tc_make_socket-MakesSocket :
      (m : Meta) (w : World) → m.state ≡ invalid → Returns (tc_make_socket os m w) (MakesSocket m)
  unfolding tc_make_socket connect_to tc_change_state tc_assert_state
  tc_make_socket-MakesSocket m w h = ground arith

  -- What the search from index `i` on can return: nothing found and nothing changed, or an unused
  -- connection of the class, which is connected now and all that has changed.
  abbrev pub FindsAvailable : ℕ → List Meta → Bytes → Option ℕ × List Meta × World → Type 0
  FindsAvailable i metas class (none, metas', w') = metas' ≡ metas
  FindsAvailable i metas class (some j, metas', w') =
      (k : ℕ) × (m : Meta) × (s : ℤ) × (j ≡ i + k)
      × (get_elem? metas k ≡ some m)
      × (m.class ≡ class)
      × (m.current_m_id ≡ 0)
      × (is_neg s ≡ false)
      × (metas' ≡ set metas k (record m { fd = s; state = connected }))

  skip-FindsAvailable :
      (i : ℕ) (m : Meta) (ms : List Meta) (class : Bytes) (r : Option ℕ × List Meta × World)
      → FindsAvailable (i + 1) ms class r
      → FindsAvailable i (m ∷ ms) class (r.0, m ∷ r.1, r.2)
  skip-FindsAvailable i m ms class (none, ms', w') h = ap (◌∷◌ m) h
  skip-FindsAvailable i m ms class (some j, ms', w') (k, n, s, hj, hk, hc, hi, hs, e) =
      (suc k, n, s, omega arith, hk, hc, hi, hs, ap (◌∷◌ m) e)

  next_available_from-FindsAvailable :
      (i : ℕ) (metas : List Meta) (class : Bytes) (w : World)
      → All IsTracked metas
      → Returns (next_available_from os i metas class w) (FindsAvailable i metas class)
  unfolding next_available_from
  next_available_from-FindsAvailable i [] class w h = refl
  next_available_from-FindsAvailable i (m ∷ ms) class w h =
      let skip = λ (w' : World).
        Returns-bind _ (FindsAvailable i (m ∷ ms) class)
          (next_available_from os (i + 1) ms class w') (λ r. ok (r.0, m ∷ r.1, r.2))
          (next_available_from-FindsAvailable (i + 1) ms class w' h.1)
          (λ r k. skip-FindsAvailable i m ms class r k) in
      elim (Bool-cases (bytes_eq m.class class && (m.current_m_id == 0))) [
        | inr other ↦ rw other (skip w)
        | inl fits ↦
            let unused : m.current_m_id ≡ 0 = ground arith in
            let same : m.class ≡ class = bytes_eq_sound m.class class (ground arith) in
            rw fits (
              Returns-bind (MakesSocket m) (FindsAvailable i (m ∷ ms) class) (tc_make_socket os m w)
                _ (tc_make_socket-MakesSocket m w (h.0.free unused))
                λ r k. elim k [
                  | inl (no_socket, e) ↦ rw (no_socket, e) (skip r.2)
                  | inr (made, e) ↦
                      rw made (0, m, r.0, omega arith, refl, same, unused, made, ap (λ x. x ∷ ms) e)
                ])
      ]

  -- While every connection is tracked the search for an unused one returns, as `FindsAvailable` says.
  pub tc_next_available-FindsAvailable :
      (metas : List Meta) (class : Bytes) (w : World)
      → All IsTracked metas
      → Returns (tc_next_available os metas class w) (FindsAvailable 0 metas class)
  unfolding tc_next_available
  tc_next_available-FindsAvailable metas class w h =
      next_available_from-FindsAvailable 0 metas class w h
