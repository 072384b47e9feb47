-- ===== src/Levenshtein.antt =====
-- ase/levenshtein.cc: edit distances between strings. Restricted: damerau_levenshtein_restricted. Scripts: edit
-- scripts, of which it finds the cheapest.
pub mod Restricted
pub mod Scripts
pub mod Common
pub mod Reversal
pub mod Cells
pub mod Rows
pub mod Matrix
pub mod Optimal
pub mod Tests
