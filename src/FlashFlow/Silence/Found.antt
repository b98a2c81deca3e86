-- ===== src/FlashFlow/Silence/Found.antt =====
-- flashflow.c: connections are found for a measurement in a quiet state.
use flashflow_research.Prelude.{
  ℕ, suc, ◌+◌, ◌≡◌, ◌⊎◌, inl, inr, refl, Bool, true, false, ◌&&◌, Option, none, some, List, [], ◌∷◌,
  ok, Ensures, Ensures-bind, Ensures-any, Ensures-if, Bool-cases, All, arith, ◌==◌, ==_self,
}
use flashflow_research.Prelude.Int.{ℤ, minus_one, is_neg}
use flashflow_research.Prelude.Text.{Bytes, bytes_eq}
use flashflow_research.Os.{Os}
use flashflow_research.Meta.{Meta, invalid, connected}
use flashflow_research.TorClient.State.{tc_change_state, tc_assert_state}
use flashflow_research.TorClient.Lifecycle.{change_state_then}
use flashflow_research.TorClient.Socket.{
  is_zero, port_number, connect_to, tc_make_socket, next_available_from, tc_next_available,
}
use flashflow_research.Sched.{Host, Measurement}
use flashflow_research.FlashFlow.Defs.{
  fill_msm_params, take_meta, connect_hosts, find_and_connect_metas,
}
use flashflow_research.FlashFlow.Silence.{Half}

module _ (os : Os) where
  open os use {World, socket, getaddrinfo, connect, send, now}

  -- A connection that gets no socket stays as it was.
  abbrev Taken : Meta → ℤ × Meta × World → Type 0
  Taken m (s, m', w') =
      ((is_neg s ≡ true) × (m' ≡ m)) ⊎ ((is_neg s ≡ false) × (m'.state ≡ connected))

  connect_to-Taken :
      (m : Meta) (s : ℤ) (addr : os.Addr) (w : World)
      → is_neg s ≡ false
      → Ensures (connect_to os m s addr w) (Taken m)
  unfolding connect_to
  connect_to-Taken m s addr w h =
      Ensures-if (Taken m) (is_zero (connect s addr (port_number m.port) w).0) _ _
        (λ fine.
          Ensures-bind (λ (m' : Meta). m'.state ≡ connected) (Taken m)
            (tc_change_state (record m { fd = s }) connected) _
            (change_state_then (record m { fd = s }) connected _ (λ good. refl)) λ m' e. inr (h, e))
        λ refused. inl (ground arith, refl)

  make_socket-Taken : (m : Meta) (w : World) → Ensures (tc_make_socket os m w) (Taken m)
  unfolding tc_make_socket
  make_socket-Taken m w = Ensures-any (Taken m) (tc_assert_state m invalid) _ λ u.
      Ensures-if (Taken m) (is_neg (socket w).0) _ _ (λ neg. inl (ground arith, refl))
        λ there. looked_up there (getaddrinfo m.host (socket w).1).0
    where
      w2 : World
      w2 = (getaddrinfo m.host (socket w).1).1

      looked_up :
          is_neg (socket w).0 ≡ false
          → (found : Option os.Addr)
          → Ensures {A = ℤ × Meta × World}
              (elim found [
                | none ↦ ok (minus_one, m, w2)
                | some addr ↦ connect_to os m (socket w).0 addr w2
              ])
              (Taken m)
      looked_up there none = inl (ground arith, refl)
      looked_up there (some addr) = connect_to-Taken m (socket w).0 addr w2 there

  -- A connection that is found is connected, and of the measurement once it is given to it.
  abbrev FindsHalf : ℕ → ℕ → Option ℕ × List Meta × World → Type 0
  FindsHalf id i (none, ms', w') = All (Half id) ms'
  FindsHalf id i (some j, ms', w') = (d : ℕ) × (j ≡ i + d) × All (Half id) (take_meta d id ms')

  next_available-FindsHalf :
      (id i : ℕ) (ms : List Meta) (class : Bytes) (w : World)
      → All (Half id) ms
      → Ensures (next_available_from os i ms class w) (FindsHalf id i)
  unfolding next_available_from
  next_available-FindsHalf id i [] class w h = tt
  next_available-FindsHalf id i (m ∷ ms) class w h =
      let skip = λ (w' : World).
        Ensures-bind (FindsHalf id (i + 1)) (FindsHalf id i)
          (next_available_from os (i + 1) ms class w') (λ r. ok (r.0, m ∷ r.1, r.2))
          (next_available-FindsHalf id (i + 1) ms class w' h.1) (λ r e. skipped r e) in
      elim (Bool-cases (bytes_eq m.class class && (m.current_m_id == 0))) [
        | inr other ↦ rw other (skip w)
        | inl fits ↦ rw fits (
            Ensures-bind (Taken m) (FindsHalf id i) (tc_make_socket os m w) _
              (make_socket-Taken m w)
              λ r e. elim e [
                | inl (neg, same) ↦ rw (neg, same) (skip r.2)
                | inr (there, c) ↦ rw there (0, omega arith, (inr (c, ==_self id), h.1))
              ])
      ]
    where
      skipped :
          (r : Option ℕ × List Meta × World)
          → FindsHalf id (i + 1) r
          → FindsHalf id i (r.0, m ∷ r.1, r.2)
      skipped (none, ms', w') e = (h.0, e)
      skipped (some j, ms', w') (d, same, e) = (suc d, omega arith, (h.0, e))

  abbrev pub Halves : ℕ → Bool × List Meta × World → Type 0
  Halves id (found, ms', w') = All (Half id) ms'

  connect_hosts-Halves :
      (id : ℕ) (hs : List Host) (ms : List Meta) (w : World)
      → All (Half id) ms
      → Ensures (connect_hosts os id hs ms w) (Halves id)
  unfolding connect_hosts tc_next_available
  connect_hosts-Halves id [] ms w h = h
  connect_hosts-Halves id (host ∷ hs) ms w h =
      Ensures-bind (FindsHalf id 0) (Halves id) (next_available_from os 0 ms host.class w) _
        (next_available-FindsHalf id 0 ms host.class w h)
        λ r e. next r e (λ l v q. connect_hosts-Halves id hs l v q)
    where
      next :
          (r : Option ℕ × List Meta × World)
          → FindsHalf id 0 r
          → ((l : List Meta) (v : World)
              → All (Half id) l
              → Ensures (connect_hosts os id hs l v) (Halves id))
          → Ensures {A = Bool × List Meta × World}
              (elim r.0 [
                | none ↦ ok (false, r.1, r.2)
                | some i ↦ connect_hosts os id hs (take_meta i id r.1) r.2
              ])
              (Halves id)
      next (none, ms', w') e ih = e
      next (some j, ms', w') (d, same, e) ih =
          let here : j ≡ d = omega arith in rw here (ih (take_meta d id ms') w' e)

  pub find_and_connect_metas-Halves :
      (id : ℕ) (ms : List Meta) (msms : List Measurement) (w : World)
      → All (Half id) ms
      → Ensures (find_and_connect_metas os id ms msms w) (Halves id)
  unfolding find_and_connect_metas
  find_and_connect_metas-Halves id ms msms w h =
      Ensures-any (Halves id) (fill_msm_params msms id) _ λ p.
        Ensures-if (Halves id) p.0 _ _ (λ filled. connect_hosts-Halves id p.1.hosts ms w h)
          λ empty. h
