-- ===== src/FlashFlow/Poll.antt =====
-- flashflow.c: the second half of a round, from one state that holds between two parts of it to the next.
use flashflow_research.Prelude.{
  ℕ, ◌+◌, ◌≡◌, ◌≢◌, ◌⊎◌, inl, inr, refl, sym, ◌∙◌, Bool, true, false, not, ◌&&◌, Option, none, some,
  List, [], ◌∷◌, Bool-cases, All, Returns, Returns-bind, ok, ◌>>=◌,
}
use flashflow_research.Prelude.Int.{ℤ}
use flashflow_research.Os.{Os}
use flashflow_research.Meta.{
  Meta, CsmState, invalid, authing, told_connect_target, setting_bw, measuring,
}
use flashflow_research.TorClient.Exchange.{authed_reader, connected_reader, did_set_bw_reader}
use flashflow_research.FlashFlow.Defs.{array_contains}
use flashflow_research.FlashFlow.Plans.{Plan}
use flashflow_research.FlashFlow.Coordinates.{Coordinates}
use flashflow_research.FlashFlow.Kept.{progress-Coordinates}
use flashflow_research.FlashFlow.Overdue.{ClockWorks}
use flashflow_research.FlashFlow.Begin.{Goes, still}
use flashflow_research.FlashFlow.Events.{
  distinct_fds, LeadsTo, LeadBack, Awaits, Ready, polled-Ready,
}
use flashflow_research.FlashFlow.Receive.{
  Receives, Received, read_response-Received, read_results-Received,
}
use flashflow_research.FlashFlow.Loop.{Loop, Next, next_item, main_loop_end, return_error}
use flashflow_research.FlashFlow.Rounds.{
  Fds, collect_fds, all_fds, epoll_add_all, epoll_delete_all, handle_event, handle_events,
  after_wait, poll_clients,
}
use flashflow_research.FlashFlow.Ready.{set-same, All-Ready-set}

module _ (os : Os) (receives : Receives os) (clock : ClockWorks os) where
  open os use {World, epoll_wait}

  ready-Received :
      (ps : List Plan) (past : List ℕ) (fds : Fds) (fd : ℤ) (s : Loop) (w : World) (j : ℕ)
      (m : Meta) (file : os.Stream)
      → Coordinates ps past s
      → LeadsTo s.metas fd j m
      → Awaits fds m
      → Returns (handle_event os (some file) fds fd s w) (Received os ps past j m s)
  unfolding handle_event
  ready-Received ps past fds fd s w j m file c l a =
      let in_use = λ (t : CsmState) (e : m.state ≡ t) (n : t ≢ invalid) (z : m.state ≡ invalid).
        n (sym e ∙ z) in
      rw (handle_event, l.found)
        (rw l.there (elim (Bool-cases (array_contains fds.authing_fds m.fd)) [
          | inl one ↦
              let e = a.if_authing one in
              rw one (
                read_response-Received os ps past j m s c l.there authed_reader w receives e
                  (in_use authing e (λ x. cc x)) (λ x. cc x, λ x. cc x))
          | inr not_one ↦ rw not_one (elim (Bool-cases (array_contains fds.connecting_fds m.fd)) [
            | inl two ↦
                let e = a.if_connecting two in
                rw two (
                  read_response-Received os ps past j m s c l.there connected_reader w receives e
                    (in_use told_connect_target e (λ x. cc x)) (λ x. cc x, λ x. cc x))
            | inr not_two ↦ rw not_two (elim (Bool-cases (array_contains fds.setting_bw_fds m.fd)) [
              | inl three ↦
                  let e = a.if_setting three in
                  rw three (
                    read_response-Received os ps past j m s c l.there did_set_bw_reader w receives e
                      (in_use setting_bw e (λ x. cc x)) (λ x. cc x, λ x. cc x))
              | inr not_three ↦
                  rw not_three (elim (Bool-cases (array_contains fds.measuring_fds m.fd)) [
                    | inl four ↦
                        let e = a.if_measuring four in
                        rw four (
                          read_results-Received os ps past j m s c l.there file w receives clock e
                            (in_use measuring e (λ x. cc x)))
                    | inr not_four ↦
                        rw not_four (inl (refl, c, (m.state, set-same s.metas j m l.there)))
                  ])
            ])
          ])
        ]))

  -- What a part of the second half leaves: no error, and a state that holds.
  abbrev pub RunsOn : List Plan → List ℕ → Next × Loop × World → Type 0
  RunsOn ps past (next, s, w) = ((next ≡ next_item) ⊎ (next ≡ main_loop_end)) × Goes ps past s

  handle_events-RunsOn :
      (ps : List Plan) (past : List ℕ) (fds : Fds) (events : List ℤ) (file : os.Stream) (s : Loop)
      (w : World)
      → Coordinates ps past s
      → distinct_fds events ≡ true
      → All (Ready fds s.metas) events
      → Returns (handle_events os (some file) fds events s w) (RunsOn ps past)
  unfolding handle_events
  handle_events-RunsOn ps past fds [] file s w c d r = (inl refl, still ps past s c)
  handle_events-RunsOn ps past fds (fd ∷ events) file s w c d ((j, m, l, a), rest) =
      let (unseen, later) = and_true (array_contains events fd) (distinct_fds events) d in
      Returns-bind (Received os ps past j m s) (RunsOn ps past)
        (handle_event os (some file) fds fd s w) _
        (ready-Received ps past fds fd s w j m file c l a)
        λ q k. elim k [
          | inr (ends, g) ↦ rw ends (inr refl, g)
          | inl (goes_on, c', (t, e)) ↦ rw goes_on (
              handle_events-RunsOn ps past fds events file q.1 q.2 c' later
                (rw e (All-Ready-set fds s.metas fd j m t events unseen l rest)))
        ]
    where
      and_true : (a b : Bool) → (not a && b) ≡ true → (a ≡ false) × (b ≡ true)
      and_true true b h = absurd (cc h)
      and_true false b h = (refl, h)

-- Where a round waits: the descriptor of a connection that waits for a response leads back to it, and the
-- descriptors reported are among those that were added, none of them twice.
pub record Polled (os : Os) (s : Loop) (w : os.World) : Type 0 where
  pub lead_back : LeadBack s.metas
  pub reported :
      (events : List ℤ)
      → (os.epoll_wait (epoll_add_all os (all_fds (collect_fds s.metas)) w)).0 ≡ some events
      → (distinct_fds events ≡ true)
        × All (λ fd. array_contains (all_fds (collect_fds s.metas)) fd ≡ true) events

All-polled-Ready :
    (metas : List Meta) (events : List ℤ)
    → LeadBack metas
    → All (λ fd. array_contains (all_fds (collect_fds metas)) fd ≡ true) events
    → All (Ready (collect_fds metas) metas) events
All-polled-Ready metas [] back h = tt
All-polled-Ready metas (fd ∷ events) back h =
    (polled-Ready metas fd back h.0, All-polled-Ready metas events back h.1)

-- The end of a round.
abbrev pub Ends : (os : Os) → List Plan → List ℕ → Next × Loop × os.World → Type 0
Ends os ps past (next, s, w) = (next ≡ main_loop_end) × Goes ps past s

-- The results file is open wherever a wait reports a descriptor.
abbrev pub ResultsOpen : (os : Os) → Option os.Stream → Type 0
ResultsOpen os out_fd =
    (w : os.World) (fd : ℤ) (events : List ℤ)
    → (os.epoll_wait w).0 ≡ some (fd ∷ events)
    → (file : os.Stream) × (out_fd ≡ some file)

module _ (os : Os) (receives : Receives os) (clock : ClockWorks os) (out_fd : Option os.Stream)
    (results : ResultsOpen os out_fd) where
  open os use {World, epoll_wait}

  after_wait-RunsOn :
      (ps : List Plan) (past : List ℕ) (s : Loop) (events : Option (List ℤ)) (w : World)
      → Coordinates ps past s
      → LeadBack s.metas
      → ((l : List ℤ)
          → events ≡ some l
          → (distinct_fds l ≡ true)
            × All (λ fd. array_contains (all_fds (collect_fds s.metas)) fd ≡ true) l)
      → ((fd : ℤ) (l : List ℤ) → events ≡ some (fd ∷ l) → (file : os.Stream) × (out_fd ≡ some file))
      → Returns
          (after_wait os out_fd (collect_fds s.metas) events s w)
          (RunsOn os receives clock ps past)
  unfolding after_wait
  after_wait-RunsOn ps past s none w c back h open_file =
      (inr refl, still ps past _ (progress-Coordinates ps past s (s.loops_without_progress + 1) c))
  after_wait-RunsOn ps past s (some []) w c back h open_file =
      (inr refl, still ps past _ (progress-Coordinates ps past s (s.loops_without_progress + 1) c))
  after_wait-RunsOn ps past s (some (fd ∷ events)) w c back h open_file =
      let (d, among) = h (fd ∷ events) refl in
      let (file, opened) = open_file fd events refl in
      rw opened (
        handle_events-RunsOn os receives clock ps past (collect_fds s.metas) (fd ∷ events) file
          (record s { loops_without_progress = 0 }) w (progress-Coordinates ps past s 0 c) d
          (All-polled-Ready s.metas (fd ∷ events) back among))

  wait-Ends :
      (ps : List Plan) (past : List ℕ) (s : Loop) (w : World) (fds : List ℤ)
      → Coordinates ps past s
      → LeadBack s.metas
      → ((l : List ℤ)
          → (epoll_wait w).0 ≡ some l
          → (distinct_fds l ≡ true)
            × All (λ fd. array_contains (all_fds (collect_fds s.metas)) fd ≡ true) l)
      → Returns
          (do
            (next, s', w3) ←
                after_wait os out_fd (collect_fds s.metas) (epoll_wait w).0 s (epoll_wait w).1
            elim next [
              | return_error ↦ ok (return_error, s', w3)
              | _ ↦ ok (main_loop_end, s', epoll_delete_all os fds w3)
            ])
          (Ends os ps past)
  wait-Ends ps past s w fds c back h =
      Returns-bind (RunsOn os receives clock ps past) (Ends os ps past)
        (after_wait os out_fd (collect_fds s.metas) (epoll_wait w).0 s (epoll_wait w).1) _
        (after_wait-RunsOn ps past s (epoll_wait w).0 (epoll_wait w).1 c back h (results w))
        λ r k. elim k.0 [ inl goes_on ↦ rw goes_on (refl, k.1) | inr ends ↦ rw ends (refl, k.1) ]

  poll-Ends :
      (ps : List Plan) (past : List ℕ) (s : Loop) (w : World) (l : List ℤ)
      → l ≡ all_fds (collect_fds s.metas)
      → Polled os s w
      → Coordinates ps past s
      → Returns
          (elim l [
            | [] ↦ ok (main_loop_end, s, epoll_add_all os (all_fds (collect_fds s.metas)) w)
            | fd ∷ more ↦ (do
              let (events, w2) = epoll_wait (epoll_add_all os (all_fds (collect_fds s.metas)) w)
              (next, s', w3) ← after_wait os out_fd (collect_fds s.metas) events s w2
              elim next [
                | return_error ↦ ok (return_error, s', w3)
                | _ ↦ ok (main_loop_end, s', epoll_delete_all os (all_fds (collect_fds s.metas)) w3)
              ])
          ])
          (Ends os ps past)
  poll-Ends ps past s w [] e p c = (refl, still ps past s c)
  poll-Ends ps past s w (fd ∷ more) e p c =
      wait-Ends ps past s (epoll_add_all os (all_fds (collect_fds s.metas)) w)
        (all_fds (collect_fds s.metas)) c p.lead_back p.reported

  -- From a state that holds between two parts of a round, where the wait is as `Polled` says, the
  -- clock can be read, the results file is open wherever a wait reports a descriptor, and what is received is usable, the second half of a round returns and comes
  -- to the end of the round, not to an error return, and the state holds again.
  pub poll_clients-Ends :
      (ps : List Plan) (past : List ℕ) (s : Loop) (w : World)
      → Polled os s w
      → Coordinates ps past s
      → Returns (poll_clients os out_fd s w) (Ends os ps past)
  unfolding poll_clients
  poll_clients-Ends ps past s w p c = poll-Ends ps past s w (all_fds (collect_fds s.metas)) refl p c
