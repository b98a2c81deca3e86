-- ===== src/FlashFlow/Opening.antt =====
-- flashflow.c: the state in front of the main loop, from the clients and the schedule that were read, and a
-- whole run from there.
use mathlib.Core.List.{Permᴰ}
use flashflow_research.Prelude.{
  ℕ, zero, suc, ◌+◌, ◌≡◌, ◌⊎◌, inl, inr, refl, sym, ap, ◌∙◌, subst, Bool, true, false, Option, none,
  some, List, [], ◌∷◌, Returns, Returns-map, Result, ok, ◌>>=◌, >>=-eq-ok, ◌==◌, if◌then◌else◌,
  Bool-cases, All, arith, length,
}
use flashflow_research.Prelude.Text.{Bytes, split_on}
use flashflow_research.Os.{Os}
use flashflow_research.Meta.{Meta}
use flashflow_research.TorClient.ClientFile.{
  Tokens, make_meta, meta_of_tokens, read_client_line, read_clients, tc_client_file_read,
  take_tokens, no_tokens, max_num_ctrl_socks, is_delimiter,
}
use flashflow_research.Sched.{Measurement, is_in_progress, sched_num}
use flashflow_research.Sched.Parse.{sched_new}
use flashflow_research.Sched.Parse.Laws.{IsAllowed, sched_new-IsRead}
use flashflow_research.FlashFlow.Plans.{plans, length-plans, Fits, KnownRun}
use flashflow_research.FlashFlow.Staff.{IsOwned}
use flashflow_research.FlashFlow.Coordinates.{Coordinates}
use flashflow_research.FlashFlow.Account.{finished-counts}
use flashflow_research.FlashFlow.Loop.{Loop, Next, next_item, main_loop_end}
use flashflow_research.FlashFlow.Rounds.{first_state, main_loop}
use flashflow_research.FlashFlow.Poll.{ResultsOpen}
use flashflow_research.FlashFlow.Round.{Works, AllWaitWell, main_loop-Loops}

-- Whatever holds of every new connection holds of those that the file of clients gives.
module _ (P : Meta → Type 0)
    (made : (class host port pw : Bytes) → P (make_meta class host port pw)) where
  -- The test of `meta_of_tokens`, on its own.
  tested_made :
      (class host port pw : Option Bytes) (four : Bool) (m : Meta)
      → elim class [
        | none ↦ none
        | some class ↦ elim host [
          | none ↦ none
          | some host ↦ elim port [
            | none ↦ none
            | some port ↦ elim pw [
              | none ↦ none
              | some pw ↦ if four then some (make_meta class host port pw) else none
            ]
          ]
        ]
      ]
        ≡ some m
      → P m
  tested_made none host port pw four m h = absurd (cc h)
  tested_made (some c) none port pw four m h = absurd (cc h)
  tested_made (some c) (some h') none pw four m h = absurd (cc h)
  tested_made (some c) (some h') (some p) none four m h = absurd (cc h)
  tested_made (some c) (some h') (some p) (some pw) false m h = absurd (cc h)
  tested_made (some c) (some h') (some p) (some pw) true m h =
      let e : make_meta c h' p pw ≡ m = cc h in subst P e (made c h' p pw)

  meta_of_tokens_made : (k : Tokens) (m : Meta) → meta_of_tokens k ≡ some m → P m
  unfolding meta_of_tokens
  meta_of_tokens_made k m h = tested_made k.class k.host k.port k.pw (k.token_num == 4) m h

  read_client_line_made : (line : Bytes) (m : Meta) → read_client_line line ≡ ok (some m) → P m
  unfolding read_client_line
  read_client_line_made [] m h = absurd (cc h)
  read_client_line_made (c ∷ line) m h = elim (Bool-cases (c == b'#')) [
    | inl comment ↦ absurd (cc (rw comment at h))
    | inr text ↦
        let (k, p, q) =
          >>=-eq-ok (take_tokens no_tokens (split_on is_delimiter (c ∷ line))) _ (rw text at h) in
        meta_of_tokens_made k m (cc q)
  ]

  read_clients_made :
      (room : ℕ) (lines : List Bytes) (ms : List Meta) → read_clients room lines ≡ ok ms → All P ms
  unfolding read_clients
  read_clients_made zero lines ms h = let e : [] ≡ ms = cc h in subst (All P) e tt
  read_clients_made (suc room) [] ms h = let e : [] ≡ ms = cc h in subst (All P) e tt
  read_clients_made (suc room) (line ∷ lines) ms h =
      let (r, p, q) = >>=-eq-ok (read_client_line line) _ h in
      step r p q (read_clients_made (suc room) lines) (read_clients_made room lines)
    where
      step :
          (r : Option Meta)
          → read_client_line line ≡ ok r
          → elim r [
            | none ↦ read_clients (suc room) lines
            | some m ↦ (do ms ← read_clients room lines; ok (m ∷ ms))
          ]
            ≡ ok ms
          → ((l : List Meta) → read_clients (suc room) lines ≡ ok l → All P l)
          → ((l : List Meta) → read_clients room lines ≡ ok l → All P l)
          → All P ms
      step none p q skip next = skip ms q
      step (some m) p q skip next =
          let (l, p', q') = >>=-eq-ok (read_clients room lines) (λ ms. ok (m ∷ ms)) q in
          let e : m ∷ l ≡ ms = cc q' in subst (All P) e (read_client_line_made line m p, next l p')

  pub file_read_made :
      (file : Option (List Bytes)) (metas : List Meta)
      → tc_client_file_read file ≡ ok (some metas)
      → All P metas
  unfolding tc_client_file_read
  file_read_made none metas h = absurd (cc h)
  file_read_made (some lines) metas h =
      let (l, p, q) = >>=-eq-ok (read_clients max_num_ctrl_socks lines) _ h in
      let e : l ≡ metas = cc q in subst (All P) e (read_clients_made max_num_ctrl_socks lines l p)

made-IsOwned : (class host port pw : Bytes) → IsOwned [] (make_meta class host port pw)
unfolding make_meta
made-IsOwned class host port pw = record {
  tracked = record { free = λ e. refl; busy = λ h. absurd (omega arith) };
  owner = refl;
  background = refl;
}

allowed-KnownRun : (ms : List Measurement) → All IsAllowed ms → KnownRun [] ms
allowed-KnownRun [] h = tt
allowed-KnownRun (m ∷ ms) h = (ap is_in_progress h.0.new.waits, allowed-KnownRun ms h.1)

-- When the map of measurements is empty, as in the first turn of main, then whatever the two files
-- hold and in whatever order the map is walked, once the clients and the schedule were read without
-- an error the state in front of the main loop holds, with nothing completed.
pub first_state-Coordinates :
    (arrange : List Measurement → List Measurement) (read : Bytes → Option (List Bytes))
    (fname : Bytes) (file : Option (List Bytes)) (metas : List Meta) (msms : List Measurement)
    (count : ℕ)
    → ((l : List Measurement) → Permᴰ l (arrange l))
    → tc_client_file_read file ≡ ok (some metas)
    → sched_new arrange read fname [] ≡ ok (msms, count)
    → Coordinates (plans msms) [] (first_state metas msms)
first_state-Coordinates arrange read fname file metas msms count perm h k =
    let r = sched_new-IsRead arrange read fname msms count perm k in
    record {
      manned = record {
        owned = file_read_made (IsOwned []) made-IsOwned file metas h;
        staffed = tt;
      };
      scheduled = r.scheduled;
      once = refl;
      running = tt;
      known_run = allowed-KnownRun msms r.allowed;
      plans_kept = refl;
      counted = refl;
      within = refl;
    }

-- What a run comes to: no round is left; or the schedule is finished, with no measurement known and with
-- as many successes and failures as there are measurements.
abbrev pub RunsOut : (os : Os) → ℕ → Result (Next × Loop × os.World) → Type 0
RunsOut os count r = Returns r (λ (next, s, w).
    (next ≡ next_item)
    ⊎ ((next ≡ main_loop_end) × (s.known ≡ []) × (s.count_success + s.count_failure ≡ count)))

-- A run of the coordinator, for any number of rounds: when the file of clients and the schedule
-- were read, in whatever order the map of measurements is walked, the clock works and is far from
-- its end, what is received is usable, the results file is open wherever a wait reports a
-- descriptor, the map of measurements is empty before, a host whose class starts with bg has one connection, three
-- times a duration fits 32 bits, and the rounds wait as `Polled` says, the main loop returns with
-- no failed assertion, panic, undefined behaviour or error return; either no round is left, or the
-- loop is at its end, no measurement is known, and the successes and failures add up to the number
-- of measurements read.
pub main_loop-RunsOut :
    (os : Os) (out_fd : Option os.Stream) (rounds : ℕ)
    (arrange : List Measurement → List Measurement) (read : Bytes → Option (List Bytes))
    (fname : Bytes) (file : Option (List Bytes)) (metas : List Meta) (msms : List Measurement)
    (count : ℕ) (w : os.World)
    → Works os
    → ResultsOpen os out_fd
    → ((l : List Measurement) → Permᴰ l (arrange l))
    → tc_client_file_read file ≡ ok (some metas)
    → sched_new arrange read fname [] ≡ ok (msms, count)
    → All Fits (plans msms)
    → AllWaitWell os out_fd rounds (first_state metas msms) w
    → RunsOut os count (main_loop os out_fd rounds (first_state metas msms) w)
unfolding sched_num
main_loop-RunsOut os out_fd rounds arrange read fname file metas msms count w works results perm h k
      fits waits =
    let c = first_state-Coordinates arrange read fname file metas msms count perm h k in
    let r = sched_new-IsRead arrange read fname msms count perm k in
    Returns-map (main_loop os out_fd rounds (first_state metas msms) w)
      (main_loop-Loops os works out_fd results rounds (plans msms) [] (first_state metas msms) w
        fits waits c)
      λ q (how, (over, c')). elim how [
        | inl no_round ↦ inl no_round
        | inr (ends, finished) ↦
            let (none_left, once, all, sum) = finished-counts (plans msms) over q.1 c' finished in
            let same : length q.1.msms ≡ length msms =
              sym (length-plans q.1.msms) ∙ ap length c'.plans_kept ∙ length-plans msms in
            inr (ends, none_left, sum ∙ same ∙ sym r.counted)
      ]
