-- ===== src/Undo/Tests.antt =====
-- The theorems about the undo stacks (ase/project.cc) where the world is a number and an undo function
-- sets it, which it takes back by setting the old number, as ClipImpl::apply_undo does with notes.
use anklang.Prelude.{ℕ, ◌≡◌, refl, List, [], ◌∷◌}
use anklang.Undo.Stacks.{Name, Project, record_all, group_undo, ungroup_undo, undo, redo}
use anklang.Undo.Inverse.{step, scope, IsIdle, IsInvertible, redo-undo}
use anklang.Undo.Grouping.{group-of-edits}

abbrev assign : ℕ → ℕ → ℕ × List (Name × ℕ)
assign f w = (f, (1 ∷ [], w) ∷ [])

assign-IsInvertible : IsInvertible assign
assign-IsInvertible = record {
  label = λ f w. 1 ∷ [];
  inverse = λ f w. w;
  records = λ f w. refl;
  takes_back = λ f w. refl;
  returns = λ f w. refl;
}

abbrev project : Project ℕ ℕ
project = record {
  undostack = step 5 ∷ step 4 ∷ scope (7 ∷ []) ∷ [];
  redostack = step 9 ∷ scope (8 ∷ []) ∷ [];
  undo_scopes_open = 0;
  undo_groups_open = 0;
  undo_group_name = [];
  world = 6;
}

project-IsIdle : IsIdle project
project-IsIdle = record { no_scopes = refl; no_groups = refl; no_name = refl }

redo-undo_example : redo assign (undo assign project) ≡ project
redo-undo_example =
    redo-undo assign assign-IsInvertible (7 ∷ []) (5 ∷ 4 ∷ []) [] project project-IsIdle refl refl

group-of-edits_example :
    ungroup_undo (record_all assign ((2 ∷ [], 3) ∷ (4 ∷ [], 5) ∷ []) (group_undo (6 ∷ []) project))
    ≡ record project {
      undostack = step 5 ∷ step 3 ∷ scope (6 ∷ []) ∷ project.undostack;
      redostack = [];
    }
group-of-edits_example =
    group-of-edits assign (6 ∷ []) (2 ∷ []) 3 ((4 ∷ [], 5) ∷ []) project project-IsIdle refl refl
