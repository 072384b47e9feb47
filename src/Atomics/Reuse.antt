-- ===== src/Atomics/Reuse.antt =====
-- AtomicIntrusiveStack (ase/atomics.hh): a node that had a successor is popped, reset and pushed again.
use anklang.Prelude.{ℕ, ◌≡◌, refl, ◌∙◌, ◌≢◌, none, some, List, [], ◌∷◌, ◌++◌, arith}
use anklang.Atomics.Stack.{
  Next, store, first, idle, linking, swapping, taking, State, at_pc, Links, Without, Apart,
  own_store, push_load, push_link, push_swap, pop_load, pop_swap, Reach, start, step,
}
use anklang.Atomics.Apart.{Chain, Apart-nil}
use anklang.Atomics.Steps.{at_pc-each, Reach-Promise}

abbrev IsIdle : State → Type 0
IsIdle s = (u : ℕ) → s.pc u ≡ idle

-- Thread 1 pushes while no other thread is in the stack.
abbrev pushed_alone : State → List ℕ → ℕ → State
pushed_alone s init last = record {
  head = some (first init last);
  next = store s.next last s.head;
  pc = at_pc (at_pc (at_pc s.pc 1 (linking init last s.head)) 1 (swapping init last s.head)) 1 idle;
  content = init ++ last ∷ [] ++ s.content;
}

push_alone :
    {next : Next} (s : State) (init : List ℕ) (last : ℕ)
    → Reach next s
    → IsIdle s
    → s.next last ≡ none
    → Links s.next init last
    → Without last init
    → Apart (init ++ last ∷ []) s.content
    → Reach next (pushed_alone s init last)
unfolding at_pc
push_alone s init last r i e l w a =
    let load =
      push_load s 1 init last (i 1) e l w (a, λ u. rw (i u) (Apart-nil (init ++ last ∷ []))) in
    let loaded : State = record s { pc = at_pc s.pc 1 (linking init last s.head) } in
    let linked : State = record loaded {
      next = store s.next last s.head;
      pc = at_pc loaded.pc 1 (swapping init last s.head);
    } in
    step (step (step r load) (push_link loaded 1 init last s.head refl))
      (push_swap linked 1 init last s.head refl refl)

-- Thread 1 pops while no other thread is in the stack.
abbrev popped_alone : State → ℕ → State
popped_alone s a = record s {
  head = none;
  pc = at_pc (at_pc s.pc 1 (taking a)) 1 idle;
  content = [];
}

pop_alone :
    {next : Next} (s : State) (a : ℕ)
    → Reach next s
    → IsIdle s
    → s.head ≡ some a
    → Reach next (popped_alone s a)
unfolding at_pc
pop_alone s a r i e =
    step (step r (pop_load s 1 a (i 1) e))
      (pop_swap (record s { pc = at_pc s.pc 1 (taking a) }) 1 a refl e)

at_pc_other : {A : Type 0} (pc : ℕ → A) (t : ℕ) (k : A) (u : ℕ) → u ≢ t → at_pc pc t k u ≡ pc u
at_pc_other pc t k u n =
    at_pc-each (λ v p. v ≢ t → p ≡ pc v) pc t k (λ m. absurd (m refl)) (λ v m l. refl) u n

pushed_alone-IsIdle :
    (s : State) (init : List ℕ) (last : ℕ) → IsIdle s → IsIdle (pushed_alone s init last)
pushed_alone-IsIdle s init last i =
    let load = at_pc s.pc 1 (linking init last s.head) in
    let link = at_pc load 1 (swapping init last s.head) in
    at_pc-each (λ u p. p ≡ idle) link 1 idle refl
      (λ u n.
        at_pc_other load 1 (swapping init last s.head) u n
        ∙ at_pc_other s.pc 1 (linking init last s.head) u n
        ∙ i u)

popped_alone-IsIdle : (s : State) (a : ℕ) → IsIdle s → IsIdle (popped_alone s a)
popped_alone-IsIdle s a i =
    at_pc-each (λ u p. p ≡ idle) (at_pc s.pc 1 (taking a)) 1 idle refl
      (λ u n. at_pc_other s.pc 1 (taking a) u n ∙ i u)

abbrev no_links : Next
no_links a = none

abbrev empty_stack : State
empty_stack = record { head = none; next = no_links; pc = λ t. idle; content = [] }

-- 7 is linked to 6.
abbrev chained : State
chained = record empty_stack { next = store no_links 7 (some 6) }

abbrev taken : State
taken = popped_alone (pushed_alone chained (7 ∷ []) 6) 7

-- 7 is linked to nothing again.
abbrev reset : State
reset = record taken { next = store taken.next 7 none }

reaches_taken : Reach no_links taken
unfolding store
reaches_taken =
    let linked : Reach no_links chained =
      step start (own_store empty_stack 7 (some 6) tt (λ u. tt)) in
    let pushed =
      push_alone chained (7 ∷ []) 6 linked (λ u. refl) refl (refl, tt) ((λ e. omega (arith, e)), tt)
        (tt, (tt, tt)) in
    pop_alone (pushed_alone chained (7 ∷ []) 6) 7 pushed
      (pushed_alone-IsIdle chained (7 ∷ []) 6 (λ u. refl)) refl

taken-IsIdle : IsIdle taken
taken-IsIdle =
    popped_alone-IsIdle (pushed_alone chained (7 ∷ []) 6) 7
      (pushed_alone-IsIdle chained (7 ∷ []) 6 (λ u. refl))

reaches_reused : Reach no_links (pushed_alone reset [] 7)
unfolding store
reaches_reused =
    let owned_cell = step reaches_taken (own_store taken 7 none tt (λ u. rw (taken-IsIdle u) tt)) in
    push_alone reset [] 7 owned_cell taken-IsIdle refl tt tt (tt, tt)

-- The stack has 7, and not 6 behind it.
reused : Chain (pushed_alone reset [] 7).next (some 7) (7 ∷ [])
reused =
    let again = pushed_alone reset [] 7 in
    (Reach-Promise reaches_reused
      (pop_load again 1 7 (pushed_alone-IsIdle reset [] 7 taken-IsIdle 1) refl)).0
