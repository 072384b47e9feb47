-- ===== src/Transport.antt =====
-- ase/transport.cc and ase/transport.hh: bars and beats. Signature: the time signature and its conversions.
-- Position: where in a bar a tick is.
pub mod Signature
pub mod Position
pub mod Tests
