-- ===== src/FlashFlow/Descriptors/Client.antt =====
-- torclient.c: the descriptors that the operations on one connection take and give up.
use flashflow_research.Prelude.{
  ℕ, ◌+◌, ◌≤◌, inl, inr, subst, ◌≡◌, ◌≢◌, refl, Bool, true, false, ◌&&◌, Option, none, some, List,
  [], ◌∷◌, ok, Ensures, Ensures-bind, Ensures-any, Ensures-if, Bool-cases, arith, ◌==◌,
  if◌then◌else◌,
}
use flashflow_research.Prelude.Int.{ℤ, pos, negsuc, minus_one, is_neg}
use flashflow_research.Prelude.Text.{Bytes, bytes_eq}
use flashflow_research.Os.{Os}
use flashflow_research.Meta.{Meta, CsmState, invalid, connected}
use flashflow_research.TorClient.State.{good_change, tc_change_state, tc_assert_state}
use flashflow_research.TorClient.Lifecycle.{change_state_then}
use flashflow_research.TorClient.Socket.{
  is_zero, port_number, connect_to, tc_make_socket, next_available_from, tc_next_available,
  tc_finished_with_meta,
}
use flashflow_research.FlashFlow.Defs.{eq_ℤ}
use flashflow_research.FlashFlow.Descriptors.{
  Kernel, KernelWorks, Calm, held, opened, Keeps, Calm-Keeps, Keeps-refl, Keeps-trans, Keeps-cons,
}

module _ (os : Os) (k : Kernel os) (works : KernelWorks os k) where
  open os use {World, socket, getaddrinfo, connect, close, send, recv}

  -- What an operation on one connection leaves.
  abbrev pub Kept : Meta → World → Bool × Meta × World → Type 0
  Kept m w (good, m', w') = Keeps os k (m ∷ []) w (m' ∷ []) w'

  -- No change of state but the one to `connected` takes a connection into use.
  pub change_state-Keeps :
      (m : Meta) (t : CsmState) (w : World)
      → t ≢ connected
      → Ensures (tc_change_state m t) (λ m'. Keeps os k (m ∷ []) w (m' ∷ []) w)
  unfolding good_change
  change_state-Keeps m t w n =
      change_state_then m t (λ m'. Keeps os k (m ∷ []) w (m' ∷ []) w)
        λ good. record {
          slack = λ d. omega arith;
          quiet = λ fd h. h;
          wired = λ h. ((λ used. h.0 (λ e. ground (arith, e, n, good))), tt);
        }

  Calm-trans : (w w' w'' : World) → Calm os k w w' → Calm os k w' w'' → Calm os k w w''
  Calm-trans w w' w'' a b = record {
    stays = λ d. omega (arith, a.stays d, b.stays d);
    quiet = λ fd h. a.quiet fd (b.quiet fd h);
  }

  abbrev Connects : Meta → World → ℤ × Meta × World → Type 0
  Connects m w (s, m', w') = Keeps os k (m ∷ []) w (m' ∷ []) w'

  -- The descriptor that is taken was not open, and is.
  new_slack :
      (m : Meta) (n : ℕ) (w0 w w' : World)
      → opened os k w0 n ≡ 0
      → 1 ≤ opened os k w n
      → Calm os k w0 w
      → Calm os k w w'
      → (d : ℕ)
      → (if eq_ℤ (pos n) (pos d) then 1 else 0) + opened os k w0 d
        ≤ held d (m ∷ []) + opened os k w' d
  new_slack m n w0 w w' before after c c' d = elim (Bool-cases (n == d)) [
    | inr other ↦ rw other (omega (arith, c.stays d, c'.stays d))
    | inl same ↦
        let e : n ≡ d = ground arith in
        let before' : opened os k w0 d ≡ 0 = subst (λ x. opened os k w0 x ≡ 0) e before in
        let after' : 1 ≤ opened os k w d = subst (λ x. 1 ≤ opened os k w x) e after in
        rw same (omega (arith, before', after', c'.stays d))
  ]

  connect_to-Keeps :
      (m : Meta) (n : ℕ) (addr : os.Addr) (w0 w : World)
      → opened os k w0 n ≡ 0
      → 1 ≤ opened os k w n
      → Calm os k w0 w
      → Ensures (connect_to os m (pos n) addr w) (Connects m w0)
  unfolding connect_to
  connect_to-Keeps m n addr w0 w before after c =
      let w' = (connect (pos n) addr (port_number m.port) w).1 in
      let c' = works.connect_calm (pos n) addr (port_number m.port) w in
      Ensures-if (Connects m w0) (is_zero (connect (pos n) addr (port_number m.port) w).0) _ _
        (λ fine.
          Ensures-bind (λ m'. Keeps os k (m ∷ []) w0 (m' ∷ []) w') (Connects m w0)
            (tc_change_state (record m { fd = pos n }) connected) _
            (change_state_then (record m { fd = pos n }) connected _
              (λ good. record {
                slack = new_slack m n w0 w w' before after c c';
                quiet = λ fd h. c.quiet fd (c'.quiet fd h);
                wired = λ h. (λ used. ground arith, tt);
              }))
            λ m' h. h)
        λ refused.
          Keeps-trans os k (m ∷ []) (m ∷ []) (m ∷ []) w0 w _ (Calm-Keeps os k (m ∷ []) w0 w c)
            (Calm-Keeps os k (m ∷ []) w _ c')

  make_socket-Keeps : (m : Meta) (w : World) → Ensures (tc_make_socket os m w) (Connects m w)
  unfolding tc_make_socket
  make_socket-Keeps m w =
      Ensures-any (Connects m w) (tc_assert_state m invalid) _
        λ u. with_socket (socket w).0 (works.socket_fresh w) (getaddrinfo m.host (socket w).1).0
    where
      w2 : World
      w2 = (getaddrinfo m.host (socket w).1).1

      c2 : Calm os k w w2
      c2 =
          Calm-trans w (socket w).1 w2 (works.socket_calm w)
            (works.getaddrinfo_calm m.host (socket w).1)

      with_socket :
          (s : ℤ)
          → ((n : ℕ) → s ≡ pos n → (k.is_open w n ≡ false) × (k.is_open (socket w).1 n ≡ true))
          → (found : Option os.Addr)
          → Ensures
              (if is_neg s then ok (minus_one, m, (socket w).1) else elim found [
                | none ↦ ok (minus_one, m, w2)
                | some addr ↦ connect_to os m s addr w2
              ])
              (Connects m w)
      with_socket (negsuc n) fresh found =
          let bad : is_neg (negsuc n) ≡ true = ground arith in
          rw bad (Calm-Keeps os k (m ∷ []) w (socket w).1 (works.socket_calm w))
      with_socket (pos n) fresh none =
          let good : is_neg (pos n) ≡ false = ground arith in
          rw good (Calm-Keeps os k (m ∷ []) w w2 c2)
      with_socket (pos n) fresh (some addr) =
          let good : is_neg (pos n) ≡ false = ground arith in
          let (before, after) = fresh n refl in
          let still = (works.getaddrinfo_calm m.host (socket w).1).stays n in
          rw good (connect_to-Keeps m n addr w w2 (rw before refl) (rw after at still) c2)

  abbrev Finds : List Meta → World → Option ℕ × List Meta × World → Type 0
  Finds ms w (found, ms', w') = Keeps os k ms w ms' w'

  next_available-Keeps :
      (i : ℕ) (ms : List Meta) (class : Bytes) (w : World)
      → Ensures (next_available_from os i ms class w) (Finds ms w)
  unfolding next_available_from
  next_available-Keeps i [] class w = Keeps-refl os k [] w
  next_available-Keeps i (m ∷ ms) class w =
      let skip = λ (m' : Meta) (w' : World) (h : Keeps os k (m ∷ []) w (m' ∷ []) w').
        Ensures-bind (Finds ms w') (Finds (m ∷ ms) w) (next_available_from os (i + 1) ms class w')
          (λ r. ok (r.0, m' ∷ r.1, r.2)) (next_available-Keeps (i + 1) ms class w')
          (λ r e. Keeps-cons os k m m' ms r.1 w w' r.2 h e) in
      elim (Bool-cases (bytes_eq m.class class && (m.current_m_id == 0))) [
        | inr other ↦ rw other (skip m w (Keeps-refl os k (m ∷ []) w))
        | inl fits ↦ rw fits (
            Ensures-bind (Connects m w) (Finds (m ∷ ms) w) (tc_make_socket os m w) _
              (make_socket-Keeps m w)
              λ r e. elim (Bool-cases (is_neg r.0)) [
                | inl neg ↦ rw neg (skip r.1 r.2 e)
                | inr there ↦
                    rw there (Keeps-cons os k m r.1 ms ms w r.2 r.2 e (Keeps-refl os k ms r.2))
              ])
      ]

  pub tc_next_available-Keeps :
      (ms : List Meta) (class : Bytes) (w : World)
      → Ensures (tc_next_available os ms class w) (λ r. Keeps os k ms w r.1 r.2)
  unfolding tc_next_available
  tc_next_available-Keeps ms class w = next_available-Keeps 0 ms class w

  -- A connection that is given back holds no descriptor, and no other one is closed.
  pub tc_finished_with_meta-Keeps :
      (m : Meta) (w : World)
      → Ensures (tc_finished_with_meta os m w) (λ r. Keeps os k (m ∷ []) w (r.0 ∷ []) r.1)
  unfolding tc_finished_with_meta
  tc_finished_with_meta-Keeps m w =
      Ensures-bind (λ m'. m' ≡ record m { state = invalid })
        (λ r. Keeps os k (m ∷ []) w (r.0 ∷ []) r.1) (tc_change_state m invalid) _
        (change_state_then m invalid _ (λ good. refl))
        λ m' e. rw e (elim (Bool-cases (is_neg m.fd)) [
          | inl neg ↦ rw neg (record {
            slack = λ d. omega arith;
            quiet = λ fd h. h;
            wired = λ h. ((λ used. absurd (used refl)), tt);
          })
          | inr there ↦ rw there (record {
            slack = λ d. elim (Bool-cases (eq_ℤ m.fd (pos d))) [
              | inl mine ↦ ground (arith, mine)
              | inr other ↦ ground (arith, other, works.close_others m.fd w d other)
            ];
            quiet = works.close_quiet m.fd w;
            wired = λ h. ((λ used. absurd (used refl)), tt);
          })
        ])
