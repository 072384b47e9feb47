-- ===== src/Atomics/MpmcTests.antt =====
-- MpmcStack (ase/atomics.hh): one thread pushes a node and begins to pop it, when another takes it.
use anklang.Prelude.{ℕ, refl, [], ◌∷◌, arith}
use anklang.Atomics.Stack.{at_pc}
use anklang.Atomics.Mpmc.{
  Ref, null, tail_end, node, write, idle, linking, pushing, reading, popping, clearing, State,
  taken, push_load, push_link, push_swap, pop_load, pop_read, pop_swap, Reach, start, step,
}
use anklang.Atomics.MpmcChain.{Chain}
use anklang.Atomics.MpmcKeeps.{Keeps, Reach-Keeps}

abbrev unlisted : ℕ → Ref
unlisted a = null

abbrev empty_stack : State
empty_stack = record { head = tail_end; pops = 0; intr = unlisted; pc = λ t. idle; content = [] }

abbrev loaded : State
loaded = record empty_stack { pc = at_pc empty_stack.pc 0 (linking 5 tail_end 0) }

abbrev linked : State
linked = record loaded {
  intr = write loaded.intr 5 tail_end;
  pc = at_pc loaded.pc 0 (pushing 5 tail_end 0);
}

abbrev listed : State
listed = record linked { head = node 5; pc = at_pc linked.pc 0 idle; content = 5 ∷ [] }

abbrev seen : State
seen = record listed { pc = at_pc listed.pc 0 (reading 5 0) }

abbrev seen_by_both : State
seen_by_both = record seen { pc = at_pc seen.pc 1 (reading 5 0) }

abbrev ready_to_pop : State
ready_to_pop = record seen_by_both {
  pc = at_pc seen_by_both.pc 1 (popping 5 (seen_by_both.intr 5) 0);
}

abbrev taken_by_other : State
taken_by_other = record ready_to_pop {
  head = seen_by_both.intr 5;
  pops = 1;
  pc = at_pc ready_to_pop.pc 1 (clearing 5);
  content = [];
}

reaches_ready : Reach unlisted ready_to_pop
unfolding at_pc
reaches_ready =
    step
      (step
        (step
          (step
            (step (step start (push_load empty_stack 0 5 refl refl (tt, λ u. tt)))
              (push_link loaded 0 5 tail_end 0 refl))
            (push_swap linked 0 5 tail_end 0 refl refl refl))
          (pop_load listed 0 5 refl refl))
        (pop_load seen 1 5 refl refl))
      (pop_read seen_by_both 1 5 0 refl)

Reach-Keeps_example :
    Chain taken_by_other.intr taken_by_other.head taken_by_other.content
    × Keeps ready_to_pop taken_by_other (taken 1 5)
unfolding at_pc
Reach-Keeps_example =
    Reach-Keeps reaches_ready (pop_swap ready_to_pop 1 5 (seen_by_both.intr 5) 0 refl refl refl)
      (omega arith)
