-- ===== src/Tests/Coordinator.antt =====
-- The coordinator.
use mathlib.Core.List.{Permᴰ}
use flashflow_research.Prelude.{◌≡◌, ◌⊎◌, refl, true, false, List, [], ◌∷◌, arith, Returns, All}
use flashflow_research.Prelude.Text.{Bytes}
use flashflow_research.Meta.{Meta}
use flashflow_research.TorClient.Usage.{IsTracked}
use flashflow_research.Sched.{Measurement, find}
use flashflow_research.Sched.Count.{contains}
use flashflow_research.Sched.Tracking.{IsScheduled}
use flashflow_research.FlashFlow.Defs.{remove_id, measurement_failed}
use flashflow_research.FlashFlow.Failed.{Fails, measurement_failed-Fails, remove_id-perm}
use flashflow_research.FlashFlow.Loop.{Loop, fail_all, fail_overdue}
use flashflow_research.FlashFlow.Plans.{Plan, plans, hosts_at}
use flashflow_research.FlashFlow.Staff.{IsOwned, staff_of, hosts_of}
use flashflow_research.FlashFlow.Coordinates.{Coordinates}
use flashflow_research.FlashFlow.Cleanup.{AllFailed, fail_all-AllFailed}
use flashflow_research.FlashFlow.Fuel.{fail_overdue-enough}
use flashflow_research.FlashFlow.Overdue.{ClockWorks, SomeFailed}
use flashflow_research.FlashFlow.Late.{FailsLate, fail_overdue-SomeLate}
use flashflow_research.Tests.Samples.{network, busy_client, unused_client, running, second}

abbrev pub metas : List Meta
metas = busy_client ∷ unused_client ∷ []

metas-IsTracked : All IsTracked metas
metas-IsTracked = (
  record { free = λ e. absurd (omega arith); busy = λ h. (λ e. ground arith, λ e. ground arith) },
  (record { free = λ e. refl; busy = λ h. absurd (omega arith) }, tt),
)

abbrev pub begun : List Measurement
begun = second ∷ running ∷ []

begun-IsScheduled : IsScheduled [] begun
begun-IsScheduled = record {
  tracked = (
    record { finished = refl; completed = refl; named = omega arith },
    (record { finished = refl; completed = refl; named = omega arith }, tt),
  );
  unique = refl;
  once = refl;
}

measurement_failed-Fails_example :
    Returns
      (measurement_failed network 1 (1 ∷ []) metas begun 0)
      (Fails network [] 1 (1 ∷ []) metas begun)
unfolding find
measurement_failed-Fails_example =
    measurement_failed-Fails network [] 1 (1 ∷ []) metas begun 0 running metas-IsTracked
      begun-IsScheduled (omega arith) refl refl

remove_id-perm_example :
    ((contains (1 ∷ 2 ∷ []) 1 ≡ true) × Permᴰ (1 ∷ remove_id (1 ∷ 2 ∷ []) 1) (1 ∷ 2 ∷ []))
    ⊎ ((contains (1 ∷ 2 ∷ []) 1 ≡ false) × (remove_id (1 ∷ 2 ∷ []) 1 ≡ 1 ∷ 2 ∷ []))
remove_id-perm_example = remove_id-perm (1 ∷ 2 ∷ []) 1

abbrev pub loop : Loop
loop = record {
  known = 1 ∷ [];
  metas = metas;
  msms = begun;
  loops_without_progress = 11;
  count_success = 0;
  count_failure = 0;
}

-- What the two measurements are, whatever comes of them.
abbrev pub agenda : List Plan
agenda = plans begun

metas-IsOwned : All (IsOwned (1 ∷ [])) metas
metas-IsOwned = (
  record { tracked = metas-IsTracked.0; owner = refl; background = refl },
  (record { tracked = metas-IsTracked.1.0; owner = refl; background = refl }, tt),
)

us_hosts : (c : Bytes) → staff_of 1 c metas ≡ hosts_of c (hosts_at agenda 1)
us_hosts c = ground arith

pub loop-Coordinates : Coordinates agenda [] loop
unfolding find
loop-Coordinates = record {
  manned = record {
    owned = metas-IsOwned;
    staffed = (record { named = omega arith; size = refl; classes = us_hosts }, tt);
  };
  scheduled = begun-IsScheduled;
  once = refl;
  running = ((running, refl, refl, omega arith, omega arith), tt);
  known_run = (refl, (refl, tt));
  plans_kept = refl;
  counted = refl;
  within = refl;
}

fail_all-AllFailed_example : Returns (fail_all network 1 loop 0) (AllFailed network agenda [] loop)
fail_all-AllFailed_example = fail_all-AllFailed network agenda [] 1 loop 0 refl loop-Coordinates

pub network-ClockWorks : ClockWorks network
network-ClockWorks w = (record { tv_sec = 1000; tv_usec = w }, refl)

fail_overdue-SomeLate_example :
    Returns
      (fail_overdue network 1 0 loop 0)
      (λ r. SomeFailed network agenda [] loop r × FailsLate network 1000 1000 loop r)
fail_overdue-SomeLate_example =
    fail_overdue-SomeLate network agenda [] 1 1000 1000 loop 0
      (λ w. (record { tv_sec = 1000; tv_usec = w }, refl, omega arith, omega arith)) (omega arith)
      loop-Coordinates

fail_overdue-enough_example : fail_overdue network 2 0 loop 0 ≡ fail_overdue network 1 0 loop 0
fail_overdue-enough_example = fail_overdue-enough network 1 0 loop 0 (omega arith)
