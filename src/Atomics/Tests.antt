-- ===== src/Atomics/Tests.antt =====
-- AtomicIntrusiveStack (ase/atomics.hh): two threads push at the same time.
use anklang.Prelude.{ℕ, ◌≡◌, refl, true, false, none, some, List, [], ◌∷◌, arith, ◌==◌}
use anklang.Atomics.Stack.{
  Next, store, idle, linking, swapping, State, at_pc, owned, Apart, pushed, push_load, push_link,
  push_swap, Reach, start, step,
}
use anklang.Atomics.Apart.{Chain}
use anklang.Atomics.Steps.{at_pc-each, Promise, Reach-Promise}
use anklang.Atomics.Bits.{change_bit, iter, change, set_bit, equal}
use anklang.Atomics.BitLaws.{equal-iter}
use anklang.Atomics.Reversed.{reverse_from, reverse_from-reversed}

abbrev unlinked : Next
unlinked a = none

abbrev empty_stack : State
empty_stack = record { head = none; next = unlinked; pc = λ t. idle; content = [] }

-- Both threads have read the head when the second one swaps.
abbrev loaded : State
loaded = record empty_stack { pc = at_pc empty_stack.pc 0 (linking [] 5 none) }

abbrev loaded_both : State
loaded_both = record loaded { pc = at_pc loaded.pc 1 (linking [] 6 none) }

abbrev linked : State
linked = record loaded_both {
  next = store loaded_both.next 6 none;
  pc = at_pc loaded_both.pc 1 (swapping [] 6 none);
}

abbrev swapped : State
swapped = record linked { head = some 6; pc = at_pc linked.pc 1 idle; content = 6 ∷ [] }

reaches_linked : Reach unlinked linked
unfolding at_pc
reaches_linked =
    step
      (step (step start (push_load empty_stack 0 [] 5 refl refl tt tt ((tt, tt), λ u. (tt, tt)))) (
        push_load loaded 1 [] 6 refl refl tt tt (
          (tt, tt),
          at_pc-each (λ u p. Apart (6 ∷ []) (owned p)) empty_stack.pc 0 (linking [] 5 none)
              ((λ e. omega (arith, e), tt), tt) (λ u n. (tt, tt)),
        )))
      (push_link loaded_both 1 [] 6 none refl)

Reach-Promise_example :
    Chain swapped.next swapped.head swapped.content
    × Promise linked swapped (pushed 1 (6 ∷ []) true)
unfolding at_pc
Reach-Promise_example = Reach-Promise reaches_linked (push_swap linked 1 [] 6 none refl refl)

-- 7, 8 and 9 are linked.
abbrev three_linked : Next
three_linked a = elim (a == 7) [
  | true ↦ some 8
  | false ↦ elim (a == 8) [ true ↦ some 9 | false ↦ none ]
]

reverse_from-reversed_example :
    let r = reverse_from 4 three_linked (some 7) none in Chain r.0 r.1 (9 ∷ 8 ∷ 7 ∷ [])
reverse_from-reversed_example =
    reverse_from-reversed 4 three_linked (some 7) (7 ∷ 8 ∷ 9 ∷ []) (refl, (refl, (refl, refl)))
      (omega arith)

abbrev two_blocks : List ℕ
two_blocks = 5 ∷ 0 ∷ []

set_high : set_bit two_blocks (iter 65) true ≡ (5 ∷ 2 ∷ [], false)
unfolding set_bit change change_bit
set_high = refl

equal-iter_example : equal two_blocks (iter 64) (iter 1) ≡ true
equal-iter_example = equal-iter two_blocks 1 (omega arith)
