-- ===== src/Tests.antt =====
-- Concrete runs, and the theorems at inputs that meet their hypotheses.
mod Samples
mod Client
mod Schedule
mod Results
mod Coordinator
mod Files
mod Waits
mod Rounds
mod System
mod Runs
