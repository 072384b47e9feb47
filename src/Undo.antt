-- ===== src/Undo.antt =====
-- ase/project.cc: the undo and redo stacks of ProjectImpl and UndoScope. Stacks: the operations.
-- Inverse: undo against redo. Grouping: scopes and groups.
pub mod Stacks
pub mod Inverse
pub mod Grouping
pub mod Tests
