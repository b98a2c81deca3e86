-- ===== src/FlashFlow.antt =====
-- flashflow.c: the coordinator, which takes measurements from the scheduler and has the Tor clients
-- carry them out.
pub mod Defs
pub mod Failed
pub mod Assign
pub mod Loop
pub mod Plans
pub mod Staff
pub mod Moves
pub mod Connect
pub mod Coordinates
pub mod Auth
pub mod Start
pub mod Begin
pub mod Kept
pub mod Hand
pub mod Phases
pub mod Finish
pub mod Turn
pub mod Handle
pub mod Failing
pub mod Cleanup
pub mod Overdue
pub mod Stops
pub mod Late
pub mod Rounds
pub mod Prepare
pub mod Events
pub mod Receive
pub mod Ready
pub mod Poll
pub mod Fuel
pub mod Account
pub mod Round
pub mod Opening
pub mod Descriptors
pub mod Silence
pub mod Main
pub mod Whole
