-- ===== src/Sched.antt =====
-- sched/src/lib.rs: the measurements, which of them may start, and which are complete. The global
-- map MSMS is the list of its measurements in the order in which the map is walked; its lock is
-- left out, as the program has one thread.
pub mod Count
pub mod Tracking
pub mod Preserved
pub mod Refines
pub mod Progress
pub mod Steps
pub mod Load
pub mod Parse
use flashflow_research.Prelude.{
  ℕ, zero, suc, ◌+◌, ◌*◌, ◌/◌, ◌^◌, ◌≡◌, Bool, true, false, not, ◌&&◌, ◌||◌, Option, none, some,
  List, [], ◌∷◌, ◌++◌, map, Result, ok, err, panicked, ◌>>=◌, ◌>>◌, guard, ltb, ◌==◌, if◌then◌else◌,
  length, count_if,
}
use flashflow_research.Prelude.Text.{Bytes}
use Count.{contains, distinct, all_contained}

-- `Host`
pub record Host : Type 0 where
  pub class : Bytes
  pub bw : ℕ
  pub conns : ℕ

-- `State`
pub data Status : Type 0 where
  waiting in_progress complete : Status

abbrev pub is_waiting : Status → Bool
is_waiting waiting = true
is_waiting _ = false

abbrev pub is_in_progress : Status → Bool
is_in_progress in_progress = true
is_in_progress _ = false

abbrev pub is_complete : Status → Bool
is_complete complete = true
is_complete _ = false

pub record Measurement : Type 0 where
  pub id : ℕ
  pub fp : Bytes
  pub dur : ℕ
  pub state : Status
  pub hosts : List Host
  pub depends : List ℕ
  pub finished_depends : List ℕ
  pub failsafe_stop : ℕ

-- `MSMS.get(&m_id)`
unfoldable pub find : List Measurement → ℕ → Option Measurement
find [] id = none
find (m ∷ ms) id = if m.id == id then some m else find ms id

-- The measurement with the given id is changed, through `get_mut`.
unfoldable pub update : List Measurement → ℕ → (Measurement → Measurement) → List Measurement
update [] id f = []
update (m ∷ ms) id f = if m.id == id then f m ∷ ms else m ∷ update ms id f

-- `MSMS.get(&m_id).unwrap()`
unfoldable pub get : List Measurement → ℕ → Result Measurement
get msms id = elim (find msms id) [ none ↦ err panicked | some m ↦ ok m ]

unfoldable pub sched_get_fp : List Measurement → ℕ → Result Bytes
unfolding get
sched_get_fp msms id = do m ← get msms id; ok m.fp

unfoldable pub sched_get_dur : List Measurement → ℕ → Result ℕ
unfolding get
sched_get_dur msms id = do m ← get msms id; ok m.dur

unfoldable pub sched_get_failsafe_stop : List Measurement → ℕ → Result ℕ
unfolding get
sched_get_failsafe_stop msms id = do m ← get msms id; ok m.failsafe_stop

-- The classes, bandwidths and connection counts of a measurement, and their number.
unfoldable pub sched_get_hosts : List Measurement → ℕ → Result (List Host × ℕ)
unfolding get
sched_get_hosts msms id = do m ← get msms id; ok (m.hosts, length m.hosts)

-- `now + (3 * m.dur / 2) as u64`. The library is built for debugging, so an overflow is a panic.
unfoldable pub failsafe_at : ℕ → ℕ → Result ℕ
failsafe_at now dur = do
  guard (ltb (3 * dur) (2 ^ 32)) panicked
  guard (ltb (now + 3 * dur / 2) (2 ^ 64)) panicked
  ok (now + 3 * dur / 2)

-- `now` is the time in seconds.
unfoldable pub sched_reset_failsafe_stop : List Measurement → ℕ → ℕ → Result (List Measurement)
unfolding get update
sched_reset_failsafe_stop msms id now = do
  m ← get msms id
  stop ← failsafe_at now m.dur
  ok (update msms id (λ m. record m { failsafe_stop = stop }))

-- The test of sched_next_internal.
abbrev pub is_ready : Measurement → Bool
is_ready m = is_waiting m.state && (length m.depends == length m.finished_depends)

-- The id of the first measurement that is ready, or 0, and the measurements as they are then.
unfoldable pub sched_next_internal : Bool → ℕ → List Measurement → Result (ℕ × List Measurement)
sched_next_internal mark now [] = ok (0, [])
sched_next_internal mark now (m ∷ ms) =
    let later = sched_next_internal mark now ms in
    if is_ready m
    then (if mark
        then (do
          stop ← failsafe_at now m.dur
          ok (m.id, record m { state = in_progress; failsafe_stop = stop } ∷ ms))
        else ok (m.id, m ∷ ms))
    else (do (id, ms') ← later; ok (id, m ∷ ms'))

unfoldable pub sched_next : ℕ → List Measurement → Result (ℕ × List Measurement)
unfolding sched_next_internal
sched_next now msms = sched_next_internal true now msms

-- `if m.depends.contains(&m_id) { m.finished_depends.push(m_id) }`
abbrev pub push_finished : ℕ → Measurement → Measurement
push_finished id m =
    if contains m.depends id
    then record m { finished_depends = m.finished_depends ++ id ∷ [] }
    else m

unfoldable pub sched_mark_done : List Measurement → ℕ → Result (List Measurement)
unfolding get update
sched_mark_done msms id = do
  the_m ← get msms id
  guard (is_in_progress the_m.state) panicked
  ok (map (push_finished id) (update msms id (λ m. record m { state = complete })))

unfoldable pub sched_num : List Measurement → ℕ
sched_num msms = length msms

unfoldable pub sched_num_complete : List Measurement → ℕ
sched_num_complete msms = count_if (λ m. is_complete m.state) msms

unfoldable pub sched_num_incomplete : List Measurement → ℕ
sched_num_incomplete msms = count_if (λ m. not (is_complete m.state)) msms

unfoldable pub sched_finished : List Measurement → Bool
unfolding sched_num_incomplete
sched_finished msms = sched_num_incomplete msms == 0

-- The checks of check_and_insert_measurements.
abbrev pub ids : List Measurement → List ℕ
ids = map (λ m. m.id)

abbrev pub depends_known : List ℕ → List Measurement → Bool
depends_known known [] = true
depends_known known (m ∷ ms) = all_contained known m.depends && depends_known known ms

-- `msms.insert(m.id, m)` for each measurement: one of the same id is replaced.
unfoldable pub insert : List Measurement → Measurement → List Measurement
insert [] m = m ∷ []
insert (x ∷ xs) m = if x.id == m.id then m ∷ xs else x ∷ insert xs m

unfoldable pub insert_all : List Measurement → List Measurement → List Measurement
unfolding insert
insert_all msms [] = msms
insert_all msms (m ∷ ms) = insert_all (insert msms m) ms

-- The map, once filled, is walked in an order of its own, `arrange`.
unfoldable pub check_and_insert_measurements :
    (List Measurement → List Measurement)
    → List Measurement
    → List Measurement
    → Result (List Measurement)
unfolding insert_all
check_and_insert_measurements arrange msms measurements = do
  guard (distinct (ids measurements)) panicked
  guard (depends_known (ids measurements) measurements) panicked
  ok (arrange (insert_all msms measurements))
