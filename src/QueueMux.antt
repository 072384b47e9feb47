-- ===== src/QueueMux.antt =====
-- ase/queuemux.hh: QueueMultiplexer, which pops from several queues by priority. Multiplexer: the state and
-- the operations. Seek: the scan for the queue to pop from. Removal: used-up queues.
-- Drain, Merge: what comes out.
pub mod Multiplexer
pub mod Seek
pub mod Removal
pub mod Drain
pub mod Merge
pub mod Tests
