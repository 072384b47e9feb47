-- ===== src/Undo/Grouping.antt =====
-- Scopes and groups of undo steps (ase/project.cc).
use anklang.Prelude.{◌≡◌, refl, ap, ◌∙◌, false, List, [], ◌∷◌, arith, ◌⊎◌, ◌≢◌}
use anklang.Undo.Stacks.{
  Name, empty, UndoFunc, Project, close_scope, add_undo_scope, undo_scope, push_undo, record_undo,
  record_all, group_undo, ungroup_undo, undo, redo,
}
use anklang.Undo.Inverse.{step, scope, IsIdle}

-- The steps of some edits on top of a stack, the last one topmost.
abbrev pub pushed : {F : Type 0} → List (Name × F) → List (UndoFunc F) → List (UndoFunc F)
pushed [] us = us
pushed ((n, f) ∷ es) us = pushed es (step f ∷ us)

abbrev pub AllNamed : {F : Type 0} → List (Name × F) → Type 0
AllNamed [] = Unit
AllNamed ((n, f) ∷ es) = (empty n ≡ false) × AllNamed es

module _ {F W : Type 0} (apply : F → W → W × List (Name × F)) where
  -- Where no scope and no group is open, an edit with a name opens a scope of that name, pushes
  -- its function and drops what could be redone.
  record_undo-idle :
      (n : Name) (f : F) (p : Project F W)
      → IsIdle p
      → empty n ≡ false
      → record_undo apply (n, f) p
        ≡ record p { undostack = step f ∷ scope n ∷ p.undostack; redostack = [] }
  unfolding record_undo undo_scope add_undo_scope push_undo close_scope
  record_undo-idle n f p i h = ground (arith, i.no_scopes, i.no_groups, i.no_name)

  first_in_group :
      (g n : Name) (f : F) (p : Project F W)
      → IsIdle p
      → empty g ≡ false
      → empty n ≡ false
      → record_undo apply (n, f) (record p { undo_groups_open = 1; undo_group_name = g })
        ≡ record p {
          undostack = step f ∷ scope g ∷ p.undostack;
          redostack = [];
          undo_groups_open = 1;
          undo_group_name = [];
        }
  unfolding record_undo undo_scope add_undo_scope push_undo close_scope
  first_in_group g n f p i k h = ground (arith, i.no_scopes)

  later_in_group :
      (es : List (Name × F)) (p : Project F W)
      → p.undo_scopes_open ≡ 0
      → p.undo_groups_open ≡ 1
      → p.undo_group_name ≡ []
      → record_all apply es p ≡ record p { undostack = pushed es p.undostack }
  unfolding record_all
  later_in_group [] p h k e = refl
  later_in_group ((n, f) ∷ es) p h k e =
      ap (record_all apply es) (one n f p h k e)
      ∙ later_in_group es (record p { undostack = step f ∷ p.undostack }) h k e
    where
      one :
          (n : Name) (f : F) (p : Project F W)
          → p.undo_scopes_open ≡ 0
          → p.undo_groups_open ≡ 1
          → p.undo_group_name ≡ []
          → record_undo apply (n, f) p ≡ record p { undostack = step f ∷ p.undostack }
      one n f p h k e =
          unfold record_undo undo_scope add_undo_scope push_undo close_scope in ground arith

  -- Where no scope and no group is open, the edits of a group are the steps of one scope, which
  -- has the group's name; what could be redone is dropped, and the group is closed after.
  pub group-of-edits :
      (g n : Name) (f : F) (es : List (Name × F)) (p : Project F W)
      → IsIdle p
      → empty g ≡ false
      → empty n ≡ false
      → ungroup_undo (record_all apply ((n, f) ∷ es) (group_undo g p))
        ≡ record p { undostack = pushed ((n, f) ∷ es) (scope g ∷ p.undostack); redostack = [] }
  unfolding record_all
  group-of-edits g n f es p i k h =
      ap (λ t. ungroup_undo (record_all apply es (record_undo apply (n, f) t))) opened
      ∙ ap (λ t. ungroup_undo (record_all apply es t)) (first_in_group g n f p i k h)
      ∙ ap ungroup_undo (later_in_group es first i.no_scopes refl refl)
      ∙ unfold ungroup_undo in ground (arith, i.no_groups, i.no_name)
    where
      opened : group_undo g p ≡ record p { undo_groups_open = 1; undo_group_name = g }
      opened = unfold group_undo in ground (arith, i.no_groups)

      first : Project F W
      first = record p {
        undostack = step f ∷ scope g ∷ p.undostack;
        redostack = [];
        undo_groups_open = 1;
        undo_group_name = [];
      }

  -- While a scope or a group is open, neither undo nor redo changes the project.
  undo_blocked :
      (p : Project F W)
      → (p.undo_scopes_open ≢ 0) ⊎ (p.undo_groups_open ≢ 0)
      → (undo apply p ≡ p) × (redo apply p ≡ p)
  unfolding undo redo
  undo_blocked p h = (ground arith, ground arith)
