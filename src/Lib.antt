-- ===== src/Lib.antt =====
-- FlashFlow: a coordinator that measures the bandwidth of Tor relays with a set of Tor clients.
--
-- The coordinator reads a file of clients and a schedule of measurements. It starts a measurement
-- when those it depends on are complete, takes an unused client of each class that it needs, leads
-- each through a handshake over its control port, prints what the clients report, and gives them
-- back. From the printed results it then makes a bandwidth file, with a median for each relay.
--
-- Parts:
--   Prelude     lists, integers, byte strings, decimal numbers, and `Result`, which tells a failed
--               assertion, a panic and undefined behaviour apart
--   Os          the operating system: a state and the calls on it, all of them parameters
--   Meta        common.h and common.c: enum csm_state, struct ctrl_sock_meta and their printed names
--   TorClient   torclient.c: State has the transition switch (tc_change_state_); Socket and Handshake
--               the functions on one connection; Output tc_output_result; ClientFile the reader of
--               clients. Lifecycle, Usage, Exchange, Password, Output/Laws and ClientFile/Lines are
--               about them
--   Sched       sched/src/lib.rs: the map of measurements as a list in the order of its walk. Count
--               counts ids; Parse reads a schedule; Tracking, Preserved, Progress, Steps, Load and
--               Parse/Laws are about the operations, Refines about an abstract scheduler
--   FlashFlow   flashflow.c: Defs has the helpers of main_loop_once, Assign, Loop and Rounds its main
--               loop: main_loop_round is one round, of which prepare_round and poll_clients are the
--               parts before and behind the wait for the clients. Plans, Staff, Moves, Coordinates
--               and Kept are about the state between two parts of a round; Failed, Failing, Cleanup,
--               Overdue, Stops and Late about failures; Connect, Auth, Start and Begin about the start of a
--               measurement; Hand, Phases, Turn, Finish and Handle about the turn of a known one;
--               Events, Ready, Receive and Poll about what is read from the clients; Prepare, Round,
--               Account, Opening and Fuel about whole rounds and runs; Descriptors, with a child for
--               each part of a round, about the descriptors that connections hold, and Run in it
--               about whole runs with these; Silence about a run in which no client
--               answers; Main has main_loop_once and main, and Whole is about its first turn
--   V3bw        v3bw.c: Median, Info (msm_info), Words (the tests of one word), Input (the reader and
--               the writer), Generate (v3bw_generate); Order, Info/Sums, Words/Laws and RoundTrip are about them
--   RotateFd    rotatefd.c: the numbered output file and its link; Numbers is about the number
--   Tests       concrete inputs
--
-- The coordinator calls the scheduler for the next measurement and tells it when one is over, and
-- keeps in each connection the id of its measurement. The lines that TorClient.Output prints are
-- those that V3bw.Input reads. A function that changes a C structure takes it and returns it; calls
-- of the system pass a world on.
--
-- The state between two parts of a round is the record `Coordinates` of FlashFlow.Coordinates: the known
-- measurements are those in progress, each of them has as many connections as hosts in every class,
-- every other connection is unused, the scheduler is tracked by the list of the completed measurements,
-- and the successes and failures are as many as that list is long. `Sound`
-- (FlashFlow.Descriptors.Watched) says of the connections that no two hold the same descriptor, each
-- one held is open and a connection in use has one, and that nothing is on the list of epoll.
--
-- Of the system the coordinator relies on what is in `Works` (FlashFlow.Round): the clock can be read
-- and is far from its end, and a receipt fits the buffer; on `ResultsOpen`
-- (FlashFlow.Poll), as rfd_open may return a file that is NULL, where printing is undefined; and on what is in `KernelWorks`
-- (FlashFlow.Descriptors), which says of each call what it does to the descriptors that are open and
-- to those that epoll watches: a new descriptor was not open, `close` closes no other one, and
-- `epoll_wait` reports descriptors that are watched, none of them twice. `Kernel` is what the system
-- keeps of them, and no part of the program. Of the schedule it takes for granted what is in `Fits`
-- (FlashFlow.Plans).
--
-- Bounds: numbers are natural numbers where the code has unsigned ones, and `ℤ` where a value may be
-- negative. `decimal` has 20 digits, enough for 64 bits. Sums that overflow are undefined behaviour
-- in C and panics in Rust, whose library is built for debugging. An array of clients has room for
-- 4096, a receipt 8192 bytes, a relay 60 seconds, a file name a thousand numbers. The loops over
-- the known measurements run on fuel, one unit for each of them: every turn of such a loop raises
-- its index or takes a measurement off. The main loop itself is run for a
-- number of rounds.
--
-- Not modelled: log lines, the release of memory other than in the reader of clients, JSON schedules
-- (the code panics after it has read one), and the epoll descriptor, of which the calls on it are modelled.
-- Files are lists of lines, and no text has a 0 byte in it. The library functions of C are modelled
-- as far as they are used; GLib is a parameter.
pub mod Prelude
pub mod Os
pub mod Meta
pub mod TorClient
pub mod Sched
pub mod FlashFlow
pub mod V3bw
pub mod RotateFd
pub mod Tests
