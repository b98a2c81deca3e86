-- ===== src/Tests/Waits.antt =====
-- A network in which the coordinator waits for its clients.
use flashflow_research.Os.{Os}
use flashflow_research.Prelude.{ℕ, some, List, [], ◌∷◌, Result, ok, err, arith, ◌+◌}
use flashflow_research.Prelude.Int.{ℤ}
use flashflow_research.Meta.{Meta}
use flashflow_research.FlashFlow.Begin.{ClockFits}
use flashflow_research.FlashFlow.Loop.{Loop, Next}
use flashflow_research.Tests.Samples.{network}

-- The network, with another descriptor that can be read.
abbrev pub reporting : ℤ → Os
reporting fd = record network { epoll_wait = λ w. (some (fd ∷ []), w + 1) }

pub network-ClockFits : ClockFits network
network-ClockFits w = omega arith

-- The connections where a round waits.
abbrev pub metas_of : Result (Next × Loop × ℕ) → List Meta
metas_of (ok r) = r.1.metas
metas_of (err e) = []
