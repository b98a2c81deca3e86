-- ===== src/Tests/Schedule.antt =====
-- The scheduler.
use mathlib.Core.List.{Permᴰ}
use mathlib.Core.List.Permᴰ
use flashflow_research.Prelude.{
  ◌+◌, ◌≡◌, ◌≢◌, refl, true, false, List, [], ◌∷◌, Returns, ok, arith, All, ◌⊎◌, ◌&&◌, err,
  panicked,
}
use flashflow_research.Sched.{
  Measurement, find, sched_next, sched_mark_done, sched_finished, check_and_insert_measurements,
  depends_known, is_ready, ids, waiting, complete,
}
use flashflow_research.Sched.Refines.{NextMoves, MarkMoves, sched-refines}
use flashflow_research.Sched.Tracking.{IsScheduled, FitsClock, Starts, sched_next-Starts}
use flashflow_research.Sched.Preserved.{sched_mark_done-IsScheduled}
use flashflow_research.Sched.Progress.{
  WellFormed, sched_next-progress, repeated_dependency-never_ready,
}
use flashflow_research.Sched.Steps.{here, finish, work, work-Steps}
use flashflow_research.Sched.Load.{IsNew, check_and_insert-IsScheduled}
use Prim.Native.String.{String}
use flashflow_research.Prelude.{ℕ, Option, some}
use flashflow_research.Prelude.Text.{Bytes, codes, scan_digits, split_on, skip_space}
use flashflow_research.Sched.{Host, sched_num, sched_next_internal}
use flashflow_research.Sched.Parse.{
  sched_new, sched_new_from_txt, read_measurements, new_from_string, make_measurement, take_parts,
  take_word, zip_hosts, hosts_allowed, parse_all, parse_or_panic, parse_u32, parse_digits, trim,
  trim_end,
}
use flashflow_research.Sched.Parse.Laws.{IsRead, sched_new-IsRead}
use flashflow_research.Sched.Count.{distinct}
use flashflow_research.Tests.Samples.{measurement, first, second, running}

abbrev fresh : List Measurement
fresh = second ∷ first ∷ []

fresh-IsScheduled : IsScheduled [] fresh
fresh-IsScheduled = record {
  tracked = (
    record { finished = refl; completed = refl; named = omega arith },
    (record { finished = refl; completed = refl; named = omega arith }, tt),
  );
  unique = refl;
  once = refl;
}

fresh-FitsClock : All (FitsClock 1000) fresh
fresh-FitsClock = omega arith

sched_next-Starts_example : Returns (sched_next 1000 fresh) (Starts [] 1000 fresh)
sched_next-Starts_example = sched_next-Starts [] 1000 fresh fresh-IsScheduled fresh-FitsClock

sched-refines_example :
    Returns (sched_next 1000 fresh) (NextMoves fresh) × MarkMoves fresh 1 (sched_mark_done fresh 1)
sched-refines_example = sched-refines [] 1000 fresh 1 fresh-IsScheduled fresh-FitsClock

abbrev begun : List Measurement
begun = second ∷ running ∷ []

begun-IsScheduled : IsScheduled [] begun
begun-IsScheduled = record {
  tracked = (
    record { finished = refl; completed = refl; named = omega arith },
    (record { finished = refl; completed = refl; named = omega arith }, tt),
  );
  unique = refl;
  once = refl;
}

sched_mark_done-IsScheduled_example : Returns (sched_mark_done begun 1) (IsScheduled (1 ∷ []))
unfolding find
sched_mark_done-IsScheduled_example =
    sched_mark_done-IsScheduled [] begun 1 running begun-IsScheduled refl refl

fresh-WellFormed : All (WellFormed (λ id. id) (ids fresh)) fresh
fresh-WellFormed = (
  record { below = omega arith; depends_on_known = refl; named_once = refl },
  (record { below = tt; depends_on_known = refl; named_once = refl }, tt),
)

sched_next-progress_example : Returns (sched_next 1000 fresh) (λ r. r.0 ≢ 0)
unfolding sched_finished
sched_next-progress_example =
    sched_next-progress [] 1000 fresh (λ id. id) fresh-IsScheduled fresh-FitsClock fresh-WellFormed
      (refl, (refl, tt)) refl

abbrev doubled : Measurement
doubled = measurement 2 waiting (1 ∷ 1 ∷ []) (1 ∷ [])

repeated_dependency-never_ready_example : is_ready doubled ≡ false
repeated_dependency-never_ready_example =
    repeated_dependency-never_ready (1 ∷ []) doubled refl
      (record { finished = refl; completed = refl; named = omega arith }) refl

abbrev over : Measurement
over = measurement 1 complete [] []

done_one : sched_mark_done (running ∷ []) 1 ≡ ok (over ∷ [])
unfolding sched_mark_done find
done_one = refl

work-Steps_example : 1 + work (over ∷ []) ≡ work (running ∷ [])
work-Steps_example =
    work-Steps {s = running ∷ []} {n = 1} {u = over ∷ []}
      (finish {t = running ∷ []} {u = over ∷ []} 1 here done_one)

fresh-IsNew : All IsNew fresh
fresh-IsNew = (
  record { waits = refl; nothing_finished = refl; named = omega arith },
  (record { waits = refl; nothing_finished = refl; named = omega arith }, tt),
)

check_and_insert-IsScheduled_example :
    ((distinct (ids fresh) && depends_known (ids fresh) fresh ≡ true)
      × Returns
          (check_and_insert_measurements (λ l. l) [] fresh)
          (λ msms. IsScheduled [] msms × Permᴰ fresh msms))
    ⊎ ((distinct (ids fresh) && depends_known (ids fresh) fresh ≡ false)
        × (check_and_insert_measurements (λ l. l) [] fresh ≡ err panicked))
check_and_insert-IsScheduled_example =
    check_and_insert-IsScheduled (λ l. l) fresh (λ l. Permᴰ.refl l) fresh-IsNew

abbrev pub schedule_file : Bytes → Option (List Bytes)
schedule_file fname = some (
    codes "# id fp dur hosts bws conns depends"
    ∷ codes "1 AAAA 30 us,bg 1000,125000 2,1 0"
    ∷ codes "2 BBBB 30 us 1000 2 1"
    ∷ [])

abbrev of_file : ℕ → String → List Host → List ℕ → Measurement
of_file id fp hosts depends = record {
  id = id;
  fp = codes fp;
  dur = 30;
  state = waiting;
  hosts = hosts;
  depends = depends;
  finished_depends = [];
  failsafe_stop = 0;
}

abbrev us : Host
us = record { class = codes "us"; bw = 1000; conns = 2 }

abbrev bg : Host
bg = record { class = codes "bg"; bw = 125000; conns = 1 }

abbrev pub file_measurements : List Measurement
file_measurements = of_file 1 "AAAA" (us ∷ bg ∷ []) [] ∷ of_file 2 "BBBB" (us ∷ []) (1 ∷ []) ∷ []

pub file_is_read :
    sched_new (λ l. l) schedule_file (codes "sched.txt") [] ≡ ok (file_measurements, 2)
unfolding sched_new sched_new_from_txt read_measurements new_from_string make_measurement take_parts
    take_word zip_hosts hosts_allowed parse_all parse_or_panic parse_u32 parse_digits trim trim_end
    scan_digits split_on skip_space check_and_insert_measurements sched_next_internal sched_num
file_is_read = refl

sched_new-IsRead_example : IsRead file_measurements 2
sched_new-IsRead_example =
    sched_new-IsRead (λ l. l) schedule_file (codes "sched.txt") file_measurements 2
      (λ l. Permᴰ.refl l) file_is_read
