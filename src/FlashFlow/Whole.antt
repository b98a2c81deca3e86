-- ===== src/FlashFlow/Whole.antt =====
-- flashflow.c: one turn of main as a whole.
use mathlib.Core.List.{Permᴰ}
use mathlib.Core.Option
use flashflow_research.Prelude.{
  ℕ, suc, ◌+◌, ◌*◌, ◌<◌, ◌≡◌, ◌>>=◌, refl, ap, ◌∙◌, false, some, List, [], ◌∷◌, Result, ok, err,
  Returns, All, arith, ◌==◌,
}
use flashflow_research.Prelude.Int.{ℤ, pos}
use flashflow_research.Prelude.Text.{Bytes}
use flashflow_research.Os.{Os}
use flashflow_research.Meta.{Meta}
use flashflow_research.RotateFd.{Files, Rotated, rfd_open, rfd_close}
use flashflow_research.TorClient.ClientFile.{tc_client_file_read}
use flashflow_research.Sched.{Measurement, ids}
use flashflow_research.Sched.Parse.{sched_new}
use flashflow_research.Sched.Progress.{WellFormed}
use flashflow_research.V3bw.Input.{Glib}
use flashflow_research.V3bw.Generate.{Texts, v3bw_generate}
use flashflow_research.FlashFlow.Plans.{plans, Fits}
use flashflow_research.FlashFlow.Round.{Works}
use flashflow_research.FlashFlow.Loop.{Loop}
use flashflow_research.FlashFlow.Rounds.{first_state, main_loop}
use flashflow_research.FlashFlow.Descriptors.{Kernel, KernelWorks}
use flashflow_research.FlashFlow.Silence.Wait.{Silent}
use flashflow_research.FlashFlow.Silence.Run.{main_loop-AllFail}
use flashflow_research.FlashFlow.Main.{Outcome, finish_run, main_loop_once}

returned : {A : Type 0} (P : A → Type 0) (m : Result A) → Returns m P → (a : A) × (m ≡ ok a) × P a
returned P (ok a) h = (a, refl, h)
returned P (err e) h = elim h [ ]

module _ (os : Os) (files : Files) (texts : Texts files) (glib : Glib)
    (arrange : List Measurement → List Measurement) (stream : files.File → os.Stream)
    (flushed : os.World → Rotated files.File → files.World → files.World) (k : Kernel os)
    (rank : ℕ → ℕ) where
  -- What v3bw_generate makes of the results.
  abbrev pub generated :
      Bytes
      → Bytes
      → List Measurement
      → os.World
      → files.World
      → Outcome os files texts glib arrange stream flushed
  generated msm_out_fname v3bw_out_fname msms w f = do
    (ret, f2) ← v3bw_generate glib files texts msm_out_fname v3bw_out_fname f
    ok (some (pos 0, msms, w, f2))

  -- A turn in which every measurement failed: the results are closed and then the bandwidth file is
  -- made of them.
  abbrev pub EndsInFailure :
      ℕ
      → Rotated files.File
      → Bytes
      → Bytes
      → files.World
      → Outcome os files texts glib arrange stream flushed
      → Type 0
  EndsInFailure count rfd msm_out_fname v3bw_out_fname f outcome =
      (s : Loop) × (w : os.World) × (closed : files.World) × (s.count_success ≡ 0)
      × (s.count_failure ≡ count)
      × (rfd_close files (some rfd) (flushed w rfd f) ≡ ok closed)
      × (outcome ≡ generated msm_out_fname v3bw_out_fname s.msms w closed)

  -- What an open file is closed to.
  abbrev closed_by : files.File → Rotated files.File → files.World → files.World
  closed_by file rfd f =
      files.fclose file
        (files.symlink (files.basename rfd.fname) rfd.fname_req (files.unlink rfd.fname_req f))

  finish_run-generated :
      (rfd : Rotated files.File) (file : files.File) (in_fname out_fname : Bytes)
      (msms : List Measurement) (w : os.World) (f : files.World)
      → rfd.fd ≡ some file
      → (closed : files.World) × (rfd_close files (some rfd) (flushed w rfd f) ≡ ok closed)
        × (finish_run os files texts glib arrange stream flushed rfd in_fname out_fname msms w f
            ≡ generated in_fname out_fname msms w closed)
  unfolding finish_run rfd_close
  finish_run-generated rfd file in_fname out_fname msms w f opened =
      (closed_by file rfd (flushed w rfd f), simp opened refl, simp opened refl)

  pub main_loop_once-EndsInFailure :
      (rounds : ℕ) (prog fp_fname client_fname msm_out_fname v3bw_out_fname : Bytes) (m : Meta)
      (ms : List Meta) (msms : List Measurement) (count : ℕ) (rfd : Rotated files.File)
      (file : files.File) (w : os.World) (f : files.World)
      → Works os
      → KernelWorks os k
      → Silent os
      → ((l : List Measurement) → Permᴰ l (arrange l))
      → tc_client_file_read (texts.read_all client_fname f) ≡ ok (some (m ∷ ms))
      → sched_new arrange (λ name. texts.read_all name f) fp_fname [] ≡ ok (msms, suc count)
      → (rfd_open files msm_out_fname f).0 ≡ some rfd
      → rfd.fd ≡ some file
      → All Fits (plans msms)
      → All (WellFormed rank (ids msms)) msms
      → ((fd : ℤ) → k.watched w fd ≡ false)
      → 26 * suc count + 11 < rounds
      → EndsInFailure
          (suc count)
          rfd
          msm_out_fname
          v3bw_out_fname
          (rfd_open files msm_out_fname f).1
          (main_loop_once os files texts glib arrange stream flushed rounds
            (prog ∷ fp_fname ∷ client_fname ∷ msm_out_fname ∷ v3bw_out_fname ∷ [])
            []
            w
            f)
  unfolding main_loop_once
  main_loop_once-EndsInFailure rounds prog fp_fname client_fname msm_out_fname v3bw_out_fname m ms
        msms count rfd file w f works kernel silent perm clients sched numbered opened fits formed
        unwatched enough =
      let (r, e, (ends, known, successes, failures)) =
        returned _ (main_loop os (Option.map stream rfd.fd) rounds (first_state (m ∷ ms) msms) w) (
          main_loop-AllFail os k (Option.map stream rfd.fd) rounds rank arrange
            (λ name. texts.read_all name f) fp_fname (texts.read_all client_fname f) (m ∷ ms) msms
            (suc count) w works kernel silent perm clients sched fits formed unwatched enough) in
      let some_left : (suc count == 0) ≡ false = ground arith in
      let run = e ∙ ap (λ next. ok (next, r.1, r.2)) ends in
      let (closed, shut, same) =
        finish_run-generated rfd file msm_out_fname v3bw_out_fname r.1.msms r.2
          (rfd_open files msm_out_fname f).1 opened in
      (
        r.1,
        r.2,
        closed,
        successes,
        failures,
        shut,
        rw (clients, sched, some_left, numbered, run) same,
      )
