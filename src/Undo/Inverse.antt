-- ===== src/Undo/Inverse.antt =====
-- undo and redo (ase/project.cc) where each undo function records one function that takes it back, as
-- ClipImpl::apply_undo does.
use anklang.Prelude.{
  ℕ, suc, ◌+◌, ◌≡◌, refl, sym, ap, ◌∙◌, false, List, [], ◌∷◌, ◌++◌, none, some, arith,
}
use mathlib.Core.List.{append-nil}
use anklang.Undo.Stacks.{
  Name, empty, UndoFunc, Project, close_scope, add_undo_scope, undo_scope, push_undo, swap_stacks,
  pop_funcs, record_undo, record_all, run_func, run_funcs, run_scope, undo_popped, undo,
  redo_popped, redo,
}

abbrev pub step : {F : Type 0} → F → UndoFunc F
step f = record { func = some f; name = [] }

abbrev pub scope : {F : Type 0} → Name → UndoFunc F
scope n = record { func = none; name = n }

-- Undo functions on top of a stack, the first one topmost.
abbrev pub steps : {F : Type 0} → List F → List (UndoFunc F) → List (UndoFunc F)
steps [] us = us
steps (f ∷ fs) us = step f ∷ steps fs us

-- No scope and no group is open.
pub record IsIdle {F W : Type 0} (p : Project F W) : Type 0 where
  pub no_scopes : p.undo_scopes_open ≡ 0
  pub no_groups : p.undo_groups_open ≡ 0
  pub no_name : p.undo_group_name ≡ []

pop_funcs-steps :
    {F : Type 0} (fs : List F) (n : Name) (us : List (UndoFunc F))
    → pop_funcs (steps fs (scope n ∷ us)) ≡ (fs, scope n ∷ us)
unfolding pop_funcs
pop_funcs-steps [] n us = refl
pop_funcs-steps (f ∷ fs) n us = rw (pop_funcs-steps fs n us)

module _ {F W : Type 0} where
  undo_scope-nested :
      (n : Name) (p : Project F W) (k : ℕ)
      → p.undo_scopes_open ≡ suc k
      → undo_scope n p ≡ record p { undo_scopes_open = p.undo_scopes_open + 1 }
  unfolding undo_scope add_undo_scope
  undo_scope-nested n p k h = ground arith

  record_undo-nested :
      (apply : F → W → W × List (Name × F)) (n : Name) (g : F) (p : Project F W) (k : ℕ)
      → p.undo_scopes_open ≡ suc k
      → record_undo apply (n, g) p ≡ record p { undostack = step g ∷ p.undostack }
  unfolding record_undo push_undo close_scope
  record_undo-nested apply n g p k h = rw (undo_scope-nested n p k h) (ground arith)

-- What the application of an undo function leaves behind.
pub record IsInvertible {F W : Type 0} (apply : F → W → W × List (Name × F)) : Type 0 where
  pub label : F → W → Name
  pub inverse : F → W → F
  pub records : (f : F) (w : W) → (apply f w).1 ≡ (label f w, inverse f w) ∷ []
  pub takes_back : (f : F) (w : W) → (apply (inverse f w) (apply f w).0).0 ≡ w
  pub returns : (f : F) (w : W) → inverse (inverse f w) (apply f w).0 ≡ f

module _ {F W : Type 0} (apply : F → W → W × List (Name × F)) (v : IsInvertible apply) where
  abbrev worlds : List F → W → W
  worlds [] w = w
  worlds (f ∷ fs) w = worlds fs (apply f w).0

  -- The functions that are recorded while `fs` run, the last one first, on top of `acc`.
  abbrev inverses : List F → W → List F → List F
  inverses [] w acc = acc
  inverses (f ∷ fs) w acc = inverses fs (apply f w).0 (v.inverse f w ∷ acc)

  worlds-inverses :
      (fs : List F) (w : W) (acc : List F) → worlds (inverses fs w acc) (worlds fs w) ≡ worlds acc w
  worlds-inverses [] w acc = refl
  worlds-inverses (f ∷ fs) w acc =
      worlds-inverses fs (apply f w).0 (v.inverse f w ∷ acc) ∙ ap (worlds acc) (v.takes_back f w)

  inverses-inverses :
      (fs : List F) (w : W) (acc b : List F)
      → inverses (inverses fs w acc) (worlds fs w) b ≡ inverses acc w (fs ++ b)
  inverses-inverses [] w acc b = refl
  inverses-inverses (f ∷ fs) w acc b =
      inverses-inverses fs (apply f w).0 (v.inverse f w ∷ acc) b
      ∙ rw (v.takes_back f w, v.returns f w) refl

  -- Inside an open scope a function changes the world and records one step, and nothing else.
  run_func-open :
      (f : F) (p : Project F W) (k : ℕ)
      → p.undo_scopes_open ≡ suc k
      → run_func apply f p ≡ record p {
        world = (apply f p.world).0;
        undostack = step (v.inverse f p.world) ∷ p.undostack;
      }
  unfolding run_func record_all
  run_func-open f p k h = rw (v.records f p.world, record_all) (record_undo-nested apply _ _ _ k h)

  run_funcs-open :
      (fs : List F) (p : Project F W) (k : ℕ) (acc : List F) (us : List (UndoFunc F))
      → p.undo_scopes_open ≡ suc k
      → p.undostack ≡ steps acc us
      → run_funcs apply fs p
        ≡ record p { world = worlds fs p.world; undostack = steps (inverses fs p.world acc) us }
  unfolding run_funcs
  run_funcs-open [] p k acc us h e = ground arith
  run_funcs-open (f ∷ fs) p k acc us h e = rw (run_func-open f p k h) (
      run_funcs-open fs _ k (v.inverse f p.world ∷ acc) us h
        (ap (◌∷◌ (step (v.inverse f p.world))) e))

  add_undo_scope-idle :
      (n : Name) (p : Project F W)
      → IsIdle p
      → empty n ≡ false
      → add_undo_scope n p ≡ record p { undo_scopes_open = 1; undostack = scope n ∷ p.undostack }
  unfolding add_undo_scope
  add_undo_scope-idle n p i h = ground arith

  run_scope-idle :
      (n : Name) (fs : List F) (p : Project F W)
      → IsIdle p
      → empty n ≡ false
      → run_scope apply n fs p ≡ record p {
        world = worlds fs p.world;
        undostack = steps (inverses fs p.world []) (scope n ∷ p.undostack);
      }
  unfolding run_scope
  run_scope-idle n fs p i h =
      let q : Project F W = record p { undo_scopes_open = 1; undostack = scope n ∷ p.undostack } in
      ap close_scope (
        ap (run_funcs apply fs) (add_undo_scope-idle n p i h)
        ∙ run_funcs-open fs q 0 [] (scope n ∷ p.undostack) refl refl)
      ∙ unfold close_scope in ground (arith, i.no_scopes)

  steps-filled :
      (fs : List F) (n : Name) (us : List (UndoFunc F)) → empty (steps fs (scope n ∷ us)) ≡ false
  steps-filled [] n us = refl
  steps-filled (f ∷ fs) n us = refl

  undo-runs :
      (p : Project F W)
      → IsIdle p
      → empty p.undostack ≡ false
      → undo apply p ≡ undo_popped apply (pop_funcs p.undostack).0 (pop_funcs p.undostack).1 p
  unfolding undo
  undo-runs p i h = ground arith

  redo-runs :
      (p : Project F W)
      → IsIdle p
      → empty p.redostack ≡ false
      → redo apply p ≡ redo_popped apply (pop_funcs p.redostack).0 (pop_funcs p.redostack).1 p
  unfolding redo
  redo-runs p i h = ground arith

  module _ (n : Name) (fs : List F) (us : List (UndoFunc F)) (p : Project F W) (i : IsIdle p)
      (h : empty n ≡ false) where
    IsIdle-with : (a b : List (UndoFunc F)) → IsIdle (record p { undostack = a; redostack = b })
    IsIdle-with a b = record {
      no_scopes = i.no_scopes;
      no_groups = i.no_groups;
      no_name = i.no_name;
    }

    -- undo runs the functions above the topmost scope name and moves their inverses under that name
    -- to the redo stack.
    pub undo-idle :
        p.undostack ≡ steps fs (scope n ∷ us)
        → undo apply p ≡ record p {
          world = worlds fs p.world;
          undostack = us;
          redostack = steps (inverses fs p.world []) (scope n ∷ p.redostack);
        }
    unfolding undo_popped swap_stacks
    undo-idle e =
        undo-runs p i (ap empty e ∙ steps-filled fs n us)
        ∙ ap (λ t. undo_popped apply t.0 t.1 p) (ap pop_funcs e ∙ pop_funcs-steps fs n us)
        ∙ ap swap_stacks (run_scope-idle n fs _ (IsIdle-with p.redostack us) h)

    pub redo-idle :
        p.redostack ≡ steps fs (scope n ∷ us)
        → redo apply p ≡ record p {
          world = worlds fs p.world;
          undostack = steps (inverses fs p.world []) (scope n ∷ p.undostack);
          redostack = us;
        }
    unfolding redo_popped
    redo-idle e =
        redo-runs p i (ap empty e ∙ steps-filled fs n us)
        ∙ ap (λ t. redo_popped apply t.0 t.1 p) (ap pop_funcs e ∙ pop_funcs-steps fs n us)
        ∙ run_scope-idle n fs _ (IsIdle-with p.undostack us) h

  inverses_twice : (fs : List F) (w : W) → inverses (inverses fs w []) (worlds fs w) [] ≡ fs
  inverses_twice fs w = inverses-inverses fs w [] [] ∙ append-nil fs

  module _ (n : Name) (fs : List F) (us : List (UndoFunc F)) (p : Project F W) (i : IsIdle p)
      (h : empty n ≡ false) where
    -- Where no scope and no group is open, the topmost scope has a name, and every undo
    -- function records its one inverse: redo after undo gives back the project, its world and
    -- both stacks.
    pub redo-undo : p.undostack ≡ steps fs (scope n ∷ us) → redo apply (undo apply p) ≡ p
    redo-undo e =
        let gs = inverses fs p.world [] in
        ap (redo apply) (undo-idle n fs us p i h e)
        ∙ redo-idle n gs p.redostack
            (record p {
              world = worlds fs p.world;
              undostack = us;
              redostack = steps gs (scope n ∷ p.redostack);
            })
            (record { no_scopes = i.no_scopes; no_groups = i.no_groups; no_name = i.no_name }) h
            refl
        ∙ rw (worlds-inverses fs p.world [], inverses_twice fs p.world)
            (ap (λ t. record p { undostack = t }) (sym e))

    -- Where no scope and no group is open, the topmost scope to redo has a name, and every
    -- undo function records its one inverse: undo after redo gives back the project, its
    -- world and both stacks.
    undo-redo : p.redostack ≡ steps fs (scope n ∷ us) → undo apply (redo apply p) ≡ p
    undo-redo e =
        let gs = inverses fs p.world [] in
        ap (undo apply) (redo-idle n fs us p i h e)
        ∙ undo-idle n gs p.undostack
            (record p {
              world = worlds fs p.world;
              undostack = steps gs (scope n ∷ p.undostack);
              redostack = us;
            })
            (record { no_scopes = i.no_scopes; no_groups = i.no_groups; no_name = i.no_name }) h
            refl
        ∙ rw (worlds-inverses fs p.world [], inverses_twice fs p.world)
            (ap (λ t. record p { redostack = t }) (sym e))
