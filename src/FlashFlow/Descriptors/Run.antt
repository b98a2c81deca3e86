-- ===== src/FlashFlow/Descriptors/Run.antt =====
-- flashflow.c: a whole run, with what it relies on of the system's descriptors.
use mathlib.Core.List.{Permᴰ}
use flashflow_research.Prelude.{
  ℕ, zero, suc, ◌≡◌, refl, false, Option, some, List, [], ◌∷◌, ok, Ensures-ok, Returns, Returns-map,
  Returns-Ensures, All, All-map, arith,
}
use flashflow_research.Prelude.Int.{ℤ, minus_one}
use flashflow_research.Prelude.Text.{Bytes}
use flashflow_research.Os.{Os}
use flashflow_research.Meta.{Meta, invalid}
use flashflow_research.TorClient.ClientFile.{make_meta, tc_client_file_read}
use flashflow_research.Sched.{Measurement}
use flashflow_research.Sched.Parse.{sched_new}
use flashflow_research.FlashFlow.Plans.{Plan, plans, Fits}
use flashflow_research.FlashFlow.Loop.{Loop, Next, main_loop_end}
use flashflow_research.FlashFlow.Rounds.{
  first_state, prepare_round, poll_clients, main_loop_round, main_loop,
}
use flashflow_research.FlashFlow.Round.{Works, WaitsWell, AllWaitWell, main_loop_round-Ends}
use flashflow_research.FlashFlow.Coordinates.{Coordinates}
use flashflow_research.FlashFlow.Begin.{Goes}
use flashflow_research.FlashFlow.Poll.{Ends, ResultsOpen, poll_clients-Ends}
use flashflow_research.FlashFlow.Opening.{file_read_made, RunsOut, main_loop-RunsOut}
use flashflow_research.FlashFlow.Descriptors.{Kernel, KernelWorks, held, Wired}
use flashflow_research.FlashFlow.Descriptors.Turn.{prepare_round-Keeps}
use flashflow_research.FlashFlow.Descriptors.Watched.{Sound, Keeps-Sound}
use flashflow_research.FlashFlow.Descriptors.Sound.{
  Sound-Polled, poll_clients-Sound, main_loop_round-Sound,
}

-- A connection that was never used.
abbrev Unused : Meta → Type 0
Unused m = (m.fd ≡ minus_one) × (m.state ≡ invalid)

made-Unused : (class host port pw : Bytes) → Unused (make_meta class host port pw)
unfolding make_meta
made-Unused class host port pw = (refl, refl)

Unused-held : (d : ℕ) (ms : List Meta) → All Unused ms → held d ms ≡ 0
Unused-held d [] h = refl
Unused-held d (m ∷ ms) h = rw h.0.0 (ground (arith, Unused-held d ms h.1))

Unused-Wired : (ms : List Meta) → All Unused ms → All Wired ms
Unused-Wired ms h = All-map Unused Wired ms (λ m u used. absurd (used u.1)) h

module _ (os : Os) (k : Kernel os) (works : KernelWorks os k) where
  open os use {World}

  Sound-WaitsWell : (s : Loop) (w : World) → Sound os k s.metas w → WaitsWell os s w
  Sound-WaitsWell s w h s' w' e = Sound-Polled os k works s' w' (
      Keeps-Sound os k s.metas s'.metas w w'
        (Ensures-ok _ (prepare_round os s w) _ (prepare_round-Keeps os k works s w) e) h)

  Sound-AllWaitWell :
      (out_fd : Option os.Stream) (rounds : ℕ) (s : Loop) (w : World)
      → Sound os k s.metas w
      → AllWaitWell os out_fd rounds s w
  Sound-AllWaitWell out_fd zero s w h = tt
  Sound-AllWaitWell out_fd (suc rounds) s w h = (
    Sound-WaitsWell s w h,
    λ s' w' e. Sound-AllWaitWell out_fd rounds s' w' (
        Ensures-ok _ (main_loop_round os out_fd s w) _
          (main_loop_round-Sound os k works out_fd s w h) e (λ x. cc x)),
  )

pub first_state-Sound :
    (os : Os) (k : Kernel os) (file : Option (List Bytes)) (metas : List Meta)
    (msms : List Measurement) (w : os.World)
    → tc_client_file_read file ≡ ok (some metas)
    → ((fd : ℤ) → k.watched w fd ≡ false)
    → Sound os k (first_state metas msms).metas w
first_state-Sound os k file metas msms w h unwatched =
    let unused = file_read_made Unused made-Unused file metas h in
    record {
      live = λ d. omega (arith, Unused-held d metas unused);
      wired = Unused-Wired metas unused;
      unwatched = unwatched;
    }

-- The end of a round, with the descriptors as they are to be.
abbrev pub EndsSound : (os : Os) → Kernel os → List Plan → List ℕ → Next × Loop × os.World → Type 0
EndsSound os k ps past (next, s, w) = (next ≡ main_loop_end) × Goes ps past s × Sound os k s.metas w

-- The second half of a round, from a state that holds between two parts of it and that is `Sound`,
-- while the clock can be read, what is received is usable, the results file is open wherever a wait
-- reports a descriptor, and the system works as documented: it returns and comes to the end of the
-- round, not to an error return, and the state holds and is `Sound` again.
pub poll_clients-EndsSound :
    (os : Os) (k : Kernel os) (out_fd : Option os.Stream) (ps : List Plan) (past : List ℕ)
    (s : Loop) (w : os.World)
    → Works os
    → KernelWorks os k
    → ResultsOpen os out_fd
    → Sound os k s.metas w
    → Coordinates ps past s
    → Returns (poll_clients os out_fd s w) (EndsSound os k ps past)
poll_clients-EndsSound os k out_fd ps past s w works kernel results sound c =
    Returns-map (poll_clients os out_fd s w)
      (Returns-Ensures (Ends os ps past) _ (poll_clients os out_fd s w)
        (poll_clients-Ends os works.receives works.clock out_fd results ps past s w
          (Sound-Polled os k kernel s w sound) c)
        (poll_clients-Sound os k kernel out_fd s w sound))
      λ r (e, h). (e.0, e.1, h (λ x. cc (x, e.0)))

-- One round of the main loop, from a state that holds between two rounds and is `Sound`, when the
-- clock works and is far from its end, what is received is usable, the results file is open
-- wherever a wait reports a descriptor, the system works as documented and the plans fit: it
-- returns and comes to its end, and the state holds and is `Sound` again, with the measurements
-- that were completed meanwhile behind those completed before.
pub main_loop_round-EndsSound :
    (os : Os) (k : Kernel os) (out_fd : Option os.Stream) (ps : List Plan) (past : List ℕ)
    (s : Loop) (w : os.World)
    → Works os
    → KernelWorks os k
    → ResultsOpen os out_fd
    → All Fits ps
    → Sound os k s.metas w
    → Coordinates ps past s
    → Returns (main_loop_round os out_fd s w) (EndsSound os k ps past)
main_loop_round-EndsSound os k out_fd ps past s w works kernel results fits sound c =
    Returns-map (main_loop_round os out_fd s w)
      (Returns-Ensures (Ends os ps past) _ (main_loop_round os out_fd s w)
        (main_loop_round-Ends os works out_fd results ps past s w fits
          (Sound-WaitsWell os k kernel s w sound) c)
        (main_loop_round-Sound os k kernel out_fd s w sound))
      λ r (e, h). (e.0, e.1, h (λ x. cc (x, e.0)))

-- A run of the coordinator in the first turn of main, in which the map of measurements is empty,
-- for any number of rounds: when the file of clients and the schedule were read, in whatever order
-- the map of measurements is walked, the clock works and is far from its end, what is received is
-- usable, the results file is open wherever a wait reports a descriptor, the system works as
-- documented and watches nothing at first, a host whose class starts with bg has one connection,
-- and three times a duration fits 32 bits, the main loop returns with no failed assertion, panic,
-- undefined behaviour or error return; either no round is left, or the loop is at its end, no
-- measurement is known, and the successes and failures add up to the number of measurements read.
pub main_loop-first_state-RunsOut :
    (os : Os) (k : Kernel os) (out_fd : Option os.Stream) (rounds : ℕ)
    (arrange : List Measurement → List Measurement) (read : Bytes → Option (List Bytes))
    (fname : Bytes) (file : Option (List Bytes)) (metas : List Meta) (msms : List Measurement)
    (count : ℕ) (w : os.World)
    → Works os
    → KernelWorks os k
    → ResultsOpen os out_fd
    → ((l : List Measurement) → Permᴰ l (arrange l))
    → tc_client_file_read file ≡ ok (some metas)
    → sched_new arrange read fname [] ≡ ok (msms, count)
    → All Fits (plans msms)
    → ((fd : ℤ) → k.watched w fd ≡ false)
    → RunsOut os count (main_loop os out_fd rounds (first_state metas msms) w)
main_loop-first_state-RunsOut os k out_fd rounds arrange read fname file metas msms count w works
      kernel results perm h e fits unwatched =
    main_loop-RunsOut os out_fd rounds arrange read fname file metas msms count w works results perm
      h e fits
      (Sound-AllWaitWell os k kernel out_fd rounds (first_state metas msms) w
        (first_state-Sound os k file metas msms w h unwatched))
