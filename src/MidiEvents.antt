-- ===== src/MidiEvents.antt =====
-- ase/midievent.cc and ase/midievent.hh: event streams. Output: MidiEventOutput. Reader: MidiEventReader
-- over the event vectors of several outputs.
pub mod Output
pub mod Reader
pub mod Tests
