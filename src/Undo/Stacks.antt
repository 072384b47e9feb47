-- ===== src/Undo/Stacks.antt =====
-- ase/project.cc: UndoScope, undo_scope, push_undo, undo, redo and the groups. The back of a stack is
-- the head of its list. What an undo function does is a parameter: it changes the world and calls
-- `undo_scope (name) += func` for each entry of the list that it returns. Notifications are left out.
use anklang.Prelude.{
  ℕ, ◌+◌, ◌-◌, Bool, true, false, not, ◌&&◌, ◌||◌, List, [], ◌∷◌, Option, none, some, length, ltb,
  ◌==◌, if◌then◌else◌,
}

abbrev pub Name : Type 0
Name = List ℕ

abbrev pub empty {ℓ} : {A : Type ℓ} → List A → Bool
empty [] = true
empty (x ∷ xs) = false

-- ProjectImpl::UndoFunc; a scope name has no function.
pub record UndoFunc (F : Type 0) : Type 0 where
  pub func : Option F
  pub name : Name

pub record Project (F W : Type 0) : Type 0 where
  pub undostack : List (UndoFunc F)
  pub redostack : List (UndoFunc F)
  pub undo_scopes_open : ℕ
  pub undo_groups_open : ℕ
  pub undo_group_name : Name
  pub world : W

-- The loop that pops the functions above a scope name: they, in the order they are run, and the rest.
unfoldable pub pop_funcs : {F : Type 0} → List (UndoFunc F) → List F × List (UndoFunc F)
pop_funcs [] = ([], [])
pop_funcs (u ∷ us) = elim u.func [
  | none ↦ ([], u ∷ us)
  | some f ↦ (f ∷ (pop_funcs us).0, (pop_funcs us).1)
]

module _ {F W : Type 0} where
  -- ~UndoScope
  unfoldable pub close_scope : Project F W → Project F W
  close_scope p =
      if p.undo_scopes_open == 0 then p else record p { undo_scopes_open = p.undo_scopes_open - 1 }

  -- The scope that add_undo_scope returns is open behind it.
  unfoldable pub add_undo_scope : Name → Project F W → Project F W
  add_undo_scope scopename p0 =
      let p = record p0 { undo_scopes_open = p0.undo_scopes_open + 1 } in
      if empty scopename
      then p
      else if p.undo_scopes_open == 1 && (p.undo_groups_open == 0 || not (empty p.undo_group_name))
      then record p {
        undostack =
            record {
              func = none;
              name = if empty p.undo_group_name then scopename else p.undo_group_name;
            }
            ∷ p.undostack;
        undo_group_name = [];
      }
      else p

  unfoldable pub undo_scope : Name → Project F W → Project F W
  undo_scope scopename p =
      let q = add_undo_scope scopename p in
      if ltb (length p.undostack) (length q.undostack) && not (empty q.redostack)
      then record q { redostack = [] }
      else q

  unfoldable pub push_undo : F → Project F W → Project F W
  push_undo f p = record p { undostack = record { func = some f; name = [] } ∷ p.undostack }

  unfoldable pub swap_stacks : Project F W → Project F W
  swap_stacks p = record p { undostack = p.redostack; redostack = p.undostack }

  unfoldable pub group_undo : Name → Project F W → Project F W
  group_undo undoname p =
      if empty undoname
      then p
      else (let q = record p { undo_groups_open = p.undo_groups_open + 1 } in
          if q.undo_groups_open == 1 then record q { undo_group_name = undoname } else q)

  unfoldable pub ungroup_undo : Project F W → Project F W
  ungroup_undo p =
      if not (ltb 0 p.undo_groups_open)
      then p
      else (let q = record p { undo_groups_open = p.undo_groups_open - 1 } in
          if q.undo_groups_open == 0 then record q { undo_group_name = [] } else q)

  unfoldable pub clear_undo : Project F W → Project F W
  clear_undo p = record p { undostack = []; redostack = [] }

module _ {F W : Type 0} (apply : F → W → W × List (Name × F)) where
  -- `undo_scope (name) += func` with the scope closed behind it
  unfoldable pub record_undo : Name × F → Project F W → Project F W
  record_undo (name, f) p = close_scope (push_undo f (undo_scope name p))

  unfoldable pub record_all : List (Name × F) → Project F W → Project F W
  record_all [] p = p
  record_all (r ∷ rs) p = record_all rs (record_undo r p)

  -- func()
  unfoldable pub run_func : F → Project F W → Project F W
  run_func f p = record_all (apply f p.world).1 (record p { world = (apply f p.world).0 })

  unfoldable pub run_funcs : List F → Project F W → Project F W
  run_funcs [] p = p
  run_funcs (f ∷ fs) p = run_funcs fs (run_func f p)

  -- The block that runs the functions in a scope of that name
  unfoldable pub run_scope : Name → List F → Project F W → Project F W
  run_scope scopename fs p = close_scope (run_funcs fs (add_undo_scope scopename p))

  -- undo from the state behind the loop; a stack with no scope name left is an assertion.
  unfoldable pub undo_popped : List F → List (UndoFunc F) → Project F W → Project F W
  undo_popped fs [] p = record p { undostack = [] }
  undo_popped fs (u ∷ us) p =
      swap_stacks (run_scope u.name fs (swap_stacks (record p { undostack = us })))

  unfoldable pub undo : Project F W → Project F W
  undo p =
      if not (p.undo_scopes_open == 0 && p.undo_groups_open == 0)
      then p
      else if empty p.undostack
      then p
      else undo_popped (pop_funcs p.undostack).0 (pop_funcs p.undostack).1 p

  unfoldable pub redo_popped : List F → List (UndoFunc F) → Project F W → Project F W
  redo_popped fs [] p = record p { redostack = [] }
  redo_popped fs (u ∷ us) p = run_scope u.name fs (record p { redostack = us })

  unfoldable pub redo : Project F W → Project F W
  redo p =
      if not (p.undo_scopes_open == 0 && p.undo_groups_open == 0)
      then p
      else if empty p.redostack
      then p
      else redo_popped (pop_funcs p.redostack).0 (pop_funcs p.redostack).1 p
