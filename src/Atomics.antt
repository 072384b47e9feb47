-- ===== src/Atomics.antt =====
-- ase/atomics.hh: lock-free data. Stack: AtomicIntrusiveStack as atomic steps of threads. Apart, Steps: what
-- holds between the steps. Reversed: the walk of pop_reversed. Mpmc: MpmcStack as atomic steps; MpmcChain, MpmcSteps,
-- MpmcKeeps: what holds between them. Bits, BitLaws: AtomicBits. Reuse, Tests: runs.
pub mod Stack
pub mod Apart
pub mod Steps
pub mod Reversed
pub mod Mpmc
pub mod MpmcChain
pub mod MpmcSteps
pub mod MpmcKeeps
pub mod MpmcTests
pub mod Bits
pub mod BitLaws
pub mod Reuse
pub mod Tests
