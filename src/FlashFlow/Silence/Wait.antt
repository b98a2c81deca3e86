-- ===== src/FlashFlow/Silence/Wait.antt =====
-- flashflow.c: the wait of a round in which no client answers.
use flashflow_research.Prelude.{
  ℕ, ◌+◌, ◌≤◌, ◌≡◌, ◌≢◌, ◌⊎◌, inl, inr, refl, sym, ap, ◌∙◌, subst, false, none, Option, some, List,
  [], ◌∷◌, ◌++◌, ok, ◌>>=◌, Ensures, Ensures-bind, Bool-cases, All, arith, length, ◌==◌,
}
use flashflow_research.Prelude.Int.{ℤ}
use flashflow_research.Os.{Os}
use flashflow_research.Meta.{Meta, authing, told_connect_target, setting_bw, measuring}
use flashflow_research.TorClient.Usage.{IsTracked}
use flashflow_research.FlashFlow.Plans.{Plan, find-hosts_at, hosts_at}
use flashflow_research.FlashFlow.Staff.{staff, Staffed, owned-IsTracked}
use flashflow_research.FlashFlow.Coordinates.{Coordinates, Runs}
use flashflow_research.FlashFlow.Loop.{Loop, Next, main_loop_end, return_error, fds_in}
use flashflow_research.FlashFlow.Rounds.{
  Fds, collect_fds, all_fds, epoll_add_all, epoll_delete_all, after_wait, poll_clients,
}
use flashflow_research.FlashFlow.Silence.{Quiet}

-- Each known measurement has a connection.
pub known-staffed :
    (ps : List Plan) (past : List ℕ) (s : Loop)
    → Coordinates ps past s
    → All (λ id. (id ≢ 0) × (1 ≤ staff id s.metas)) s.known
known-staffed ps past s c = each s.known c.manned.staffed c.running
  where
    each :
        (known : List ℕ)
        → All (Staffed ps s.metas) known
        → All (Runs s.msms) known
        → All (λ id. (id ≢ 0) × (1 ≤ staff id s.metas)) known
    each [] st r = tt
    each (id ∷ ids) st r =
        let (m, found, run, dur, hosts) = r.0 in
        let here : hosts_at ps id ≡ m.hosts =
          subst (λ l. hosts_at l id ≡ m.hosts) c.plans_kept (find-hosts_at s.msms id m found) in
        let size = st.0.size ∙ ap length here in
        ((st.0.named, ground (arith, size, hosts)), each ids st.1 r.1)

-- A connection of a measurement waits for an answer.
fds_in-some :
    (id : ℕ) (ms : List Meta)
    → id ≢ 0
    → All Quiet ms
    → All IsTracked ms
    → 1 ≤ staff id ms
    → (fd : ℤ) × (more : List ℤ) × (fds_in authing ms ≡ fd ∷ more)
unfolding fds_in
fds_in-some id [] n q t h = absurd (omega (arith, h))
fds_in-some id (m ∷ ms) n q t h = elim q.0 [
  | inr waits ↦ (m.fd, fds_in authing ms, ground (arith, waits))
  | inl free ↦
      let unused : (m.current_m_id == id) ≡ false = elim (Bool-cases (m.current_m_id == id)) [
        | inr other ↦ other
        | inl mine ↦ absurd ((t.0.busy (ground (arith, mine, n))).0 free)
      ] in
      let (fd, more, e) = fds_in-some id ms n q.1 t.1 (ground (arith, h, unused)) in
      (fd, more, ground (arith, free, e))
]

-- No client answers: each wait ends in a timeout or an error.
abbrev pub Silent : Os → Type 0
Silent os = (w : os.World) → ((os.epoll_wait w).0 ≡ none) ⊎ ((os.epoll_wait w).0 ≡ some [])

module _ (os : Os) (silent : Silent os) (out_fd : Option os.Stream) where
  open os use {World, epoll_wait}

  abbrev pub Waited : Loop → Next × Loop × World → Type 0
  Waited s (next, s', w') = s' ≡ record s { loops_without_progress = s.loops_without_progress + 1 }

  waited :
      (fds : Fds) (s : Loop) (v w : World)
      → Ensures
          (after_wait os out_fd fds (epoll_wait v).0 s w)
          (λ r. (r.0 ≡ main_loop_end) × Waited s r)
  unfolding after_wait
  waited fds s v w = elim (silent v) [ inl e ↦ rw e (refl, refl) | inr e ↦ rw e (refl, refl) ]

  -- A round that waits is counted; one with nothing to wait for changes nothing.
  abbrev pub Polls : Loop → Next × Loop × World → Type 0
  Polls s (next, s', w') =
      ((all_fds (collect_fds s.metas) ≡ []) × (s' ≡ s)) ⊎ Waited s (next, s', w')

  pub poll_clients-Polls : (s : Loop) (w : World) → Ensures (poll_clients os out_fd s w) (Polls s)
  unfolding poll_clients
  poll_clients-Polls s w = polled (all_fds (collect_fds s.metas)) refl
    where
      all : List ℤ
      all = all_fds (collect_fds s.metas)

      w2 : World
      w2 = (epoll_wait (epoll_add_all os all w)).1

      polled :
          (l : List ℤ)
          → all ≡ l
          → Ensures {A = Next × Loop × World}
              (elim l [
                | [] ↦ ok (main_loop_end, s, epoll_add_all os all w)
                | fd ∷ more ↦ (do
                  (next, s', w3) ←
                      after_wait os out_fd
                        (collect_fds s.metas)
                        (epoll_wait (epoll_add_all os all w)).0
                        s
                        w2
                  elim next [
                    | return_error ↦ ok (return_error, s', w3)
                    | _ ↦ ok (main_loop_end, s', epoll_delete_all os all w3)
                  ])
              ])
              (Polls s)
      polled [] h = inl (h, refl)
      polled (x ∷ xs) h =
          Ensures-bind (λ r. (r.0 ≡ main_loop_end) × Waited s r) (Polls s)
            (after_wait os out_fd (collect_fds s.metas) (epoll_wait (epoll_add_all os all w)).0 s
              w2)
            _ (waited (collect_fds s.metas) s (epoll_add_all os all w) w2)
            λ r (ends, h'). rw ends (inr h')

  some-all_fds :
      (ms : List Meta) (fd : ℤ) (more : List ℤ)
      → fds_in authing ms ≡ fd ∷ more
      → (rest : List ℤ) × (all_fds (collect_fds ms) ≡ fd ∷ rest)
  unfolding collect_fds
  some-all_fds ms fd more e = (
    ((more ++ fds_in told_connect_target ms) ++ fds_in setting_bw ms) ++ fds_in measuring ms,
    rw e refl,
  )

  -- With a measurement known, a connection waits.
  pub known-waits :
      (ps : List Plan) (past : List ℕ) (s : Loop)
      → Coordinates ps past s
      → All Quiet s.metas
      → 1 ≤ length s.known
      → all_fds (collect_fds s.metas) ≢ []
  known-waits ps past s c q some_known = first_known s.known some_known (known-staffed ps past s c)
    where
      first_known :
          (known : List ℕ)
          → 1 ≤ length known
          → All (λ id. (id ≢ 0) × (1 ≤ staff id s.metas)) known
          → all_fds (collect_fds s.metas) ≢ []
      first_known [] h st = absurd (omega (arith, h))
      first_known (id ∷ ids) h st =
          let (fd, more, e) =
            fds_in-some id s.metas st.0.0 q (owned-IsTracked s.known s.metas c.manned.owned)
              st.0.1 in
          let (rest, e') = some-all_fds s.metas fd more e in λ none_waits. cc (sym e' ∙ none_waits)
