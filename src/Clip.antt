-- ===== src/Clip.antt =====
-- ase/clip.cc and ase/clip.hh. Notes: the notes of a clip and their comparisons. Generator: playback of
-- a clip. Ranges, Playback, Blocks and Jump: what it plays and where it gets to. Ticks: the ordered view of
-- the notes. Image: the undo function.
pub mod Notes
pub mod Generator
pub mod Ranges
pub mod Playback
pub mod Blocks
pub mod Jump
pub mod Ticks
pub mod Image
pub mod Tests
