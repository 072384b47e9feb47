-- ===== src/SortNet.antt =====
-- ase/sortnet.hh: sorting with networks of comparisons. Networks: the networks. Sort: their application,
-- and fixed_sort. Bits, Tables: all Boolean inputs at once. ZeroOne: from Boolean inputs to any. Fixed: what
-- fixed_sort gives. Stable: a sort for the longer inputs.
pub mod Networks
pub mod Sort
pub mod Bits
pub mod Tables
pub mod ZeroOne
pub mod Fixed
pub mod Stable
pub mod Tests
