-- ===== src/Tests/Samples.antt =====
-- The data of the tests: a network that answers, and a few connections and measurements.
use flashflow_research.Prelude.{ℕ, ◌+◌, false, some, List, [], ◌∷◌, replicate, length}
use flashflow_research.Prelude.Int.{ℤ, pos, minus_one}
use flashflow_research.Prelude.Text.{codes}
use flashflow_research.Os.{Os}
use flashflow_research.Meta.{Meta, CsmState, invalid, authed}
use flashflow_research.Sched.{Measurement, Status, waiting, in_progress}

-- Every call works, and every response is "250 OK". The state counts the calls.
abbrev pub network : Os
network = record {
  World = ℕ;
  Addr = ℕ;
  socket = λ w. (pos (3 + w), w + 1);
  getaddrinfo = λ host w. (some 0, w + 1);
  connect = λ fd addr port w. (pos 0, w + 1);
  close = λ fd w. w + 1;
  send = λ fd msg w. (pos (length msg), w + 1);
  recv = λ fd size w. (some (codes "250 OK\n"), w + 1);
  stack = λ size w. replicate size 0;
  now = λ w. (1000, w + 1);
  epoll_add = λ fd w. w + 1;
  epoll_delete = λ fd w. w + 1;
  epoll_wait = λ w. (some (pos 4 ∷ []), w + 1);
  gettimeofday = λ w. (some (record { tv_sec = 1000; tv_usec = w }), w + 1);
  Stream = ℕ;
  print = λ file text w. w + 1;
}

abbrev pub client : CsmState → ℕ → ℤ → Meta
client state m_id fd = record {
  fd = fd;
  state = state;
  class = codes "us";
  host = codes "localhost";
  port = codes "9051";
  pw = some (codes "secret");
  is_bg = false;
  current_m_id = m_id;
}

abbrev pub unused_client : Meta
unused_client = client invalid 0 minus_one

abbrev pub busy_client : Meta
busy_client = client authed 1 (pos 4)

abbrev pub measurement : ℕ → Status → List ℕ → List ℕ → Measurement
measurement id state depends finished = record {
  id = id;
  fp = codes "0123456789ABCDEF0123456789ABCDEF01234567";
  dur = 30;
  state = state;
  hosts = record { class = codes "us"; bw = 1000; conns = 2 } ∷ [];
  depends = depends;
  finished_depends = finished;
  failsafe_stop = 0;
}

-- Measurement 2 waits for 1.
abbrev pub first : Measurement
first = measurement 1 waiting [] []

abbrev pub second : Measurement
second = measurement 2 waiting (1 ∷ []) []

abbrev pub running : Measurement
running = measurement 1 in_progress [] []
