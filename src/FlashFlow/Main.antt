-- ===== src/FlashFlow/Main.antt =====
-- main_loop_once and main. The results that are printed while the loop runs are in the results file when it is
-- closed: `flushed` puts them there, and `stream` is what the loop prints to for an open file. The schedule is a global variable, which `msms` stands for. Log lines,
-- the release of memory and the epoll descriptor are left out.
use mathlib.Core.Option
use flashflow_research.Prelude.{
  ℕ, zero, suc, Option, none, some, List, [], ◌∷◌, Result, ok, err, undefined, ◌>>=◌, if◌then◌else◌,
  ◌==◌,
}
use flashflow_research.Prelude.Int.{ℤ, pos, minus_one}
use flashflow_research.Prelude.Text.{Bytes}
use flashflow_research.Os.{Os}
use flashflow_research.RotateFd.{Files, Rotated, rfd_open, rfd_close}
use flashflow_research.TorClient.ClientFile.{tc_client_file_read}
use flashflow_research.Sched.{Measurement}
use flashflow_research.Sched.Parse.{sched_new}
use flashflow_research.V3bw.Input.{Glib}
use flashflow_research.V3bw.Generate.{Texts, v3bw_generate}
use flashflow_research.FlashFlow.Defs.{eq_ℤ}
use flashflow_research.FlashFlow.Loop.{main_loop_end, return_error}
use flashflow_research.FlashFlow.Rounds.{first_state, main_loop}

module _ (os : Os) (files : Files) (texts : Texts files) (glib : Glib)
    (arrange : List Measurement → List Measurement) (stream : files.File → os.Stream)
    (flushed : os.World → Rotated files.File → files.World → files.World) where
  -- What is returned, with the schedule and the two worlds then; `none` where no round is left.
  abbrev pub Outcome : Type 0
  Outcome = Result (Option (ℤ × List Measurement × os.World × files.World))

  -- What follows the loop: the value of v3bw_generate is not looked at.
  unfoldable pub finish_run :
      Rotated files.File → Bytes → Bytes → List Measurement → os.World → files.World → Outcome
  finish_run out_rfd msm_out_fname v3bw_out_fname msms w f = do
    f1 ← rfd_close files (some out_rfd) (flushed w out_rfd f)
    (ret, f2) ← v3bw_generate glib files texts msm_out_fname v3bw_out_fname f1
    ok (some (pos 0, msms, w, f2))

  -- The file names are argv[1] to argv[4]; any other number of arguments is an error.
  unfoldable pub main_loop_once :
      ℕ → List Bytes → List Measurement → os.World → files.World → Outcome
  main_loop_once rounds (prog ∷ fp_fname ∷ client_fname ∷ msm_out_fname ∷ v3bw_out_fname ∷ []) msms
        w f =
      do
        clients ← tc_client_file_read (texts.read_all client_fname f)
        elim clients [
          | none ↦ ok (some (minus_one, msms, w, f))
          | some [] ↦ ok (some (minus_one, msms, w, f))
          | some (m ∷ ms) ↦ (do
            (msms', count_total) ← sched_new arrange (λ name. texts.read_all name f) fp_fname msms
            if count_total == 0 then ok (some (minus_one, msms', w, f)) else (do
              let (out_rfd, f1) = rfd_open files msm_out_fname f
              elim out_rfd [
                | none ↦ err undefined
                | some rfd ↦ (do
                  (next, s, w') ←
                      main_loop os (Option.map stream rfd.fd) rounds (first_state (m ∷ ms) msms') w
                  elim next [
                    | main_loop_end ↦ finish_run rfd msm_out_fname v3bw_out_fname s.msms w' f1
                    | return_error ↦ ok (some (minus_one, s.msms, w', f1))
                    | _ ↦ ok none
                  ])
              ]))
        ]
  main_loop_once rounds argv msms w f = ok (some (minus_one, msms, w, f))

  -- The endless loop of main, with the number of turns that are run at most.
  unfoldable pub main :
      ℕ → ℕ → List Bytes → List Measurement → os.World → files.World → Result (Option ℤ)
  main zero rounds argv msms w f = ok none
  main (suc turns) rounds argv msms w f = do
    outcome ← main_loop_once rounds argv msms w f
    elim outcome [
      | none ↦ ok none
      | some (ret, msms', w', f') ↦
          if eq_ℤ ret (pos 0) then main turns rounds argv msms' w' f' else ok (some ret)
    ]
