-- ===== src/Loop.antt =====
-- ase/loop.cc and ase/loop.hh: event loops. Sources: the sources of a loop. Phases: how an iteration collects,
-- prepares, checks and dispatches them. MainLoop: iterations over all loops.
pub mod Sources
pub mod Phases
pub mod MainLoop
pub mod Pick
pub mod Settle
pub mod Timers
pub mod Once
pub mod Ready
pub mod Rounds
pub mod Queue
pub mod Lists
pub mod Collect
pub mod Collected
pub mod Tests
