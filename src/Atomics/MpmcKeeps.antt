-- ===== src/Atomics/MpmcKeeps.antt =====
-- What the operations of MpmcStack do in any interleaving (ase/atomics.hh).
use anklang.Prelude.{ℕ, ◌^◌, ◌≤◌, ◌<◌, ◌≡◌, refl, none, some, List, [], ◌∷◌, arith}
use anklang.Atomics.Steps.{is_empty}
use anklang.Atomics.Mpmc.{
  Ref, null, tail_end, is_tail, State, Event, silent, pushed, taken, popped, Step, push_load,
  push_link, push_swap, push_retry, pop_load, pop_tail, pop_read, pop_swap, pop_retry,
  pop_retry_tail, pop_clear, Reach, start, step,
}
use anklang.Atomics.MpmcChain.{Chain, head-content, write_self}
use anklang.Atomics.MpmcSteps.{IsValid, Step-IsValid}

-- What an operation promises: to push a node and tell whether there was none, to take the first node,
-- to find none, or to return a node with its cell cleared
abbrev pub Keeps : State → State → Event → Type 0
Keeps s u silent = u.content ≡ s.content
Keeps s u (pushed t n was_empty) = (u.content ≡ n ∷ s.content) × (was_empty ≡ is_empty s.content)
Keeps s u (taken t n) = s.content ≡ n ∷ u.content
Keeps s u (popped t none) = (s.content ≡ []) × (u.content ≡ [])
Keeps s u (popped t (some n)) = (u.content ≡ s.content) × (u.intr n ≡ null)

le-pops : {s u : State} {e : Event} → Step s e u → s.pops ≤ u.pops
le-pops (push_load s t n p z f) = omega arith
le-pops (push_link s t n r c p) = omega arith
le-pops (push_swap s t n r c p h q) = omega arith
le-pops (push_retry s t n r c p) = omega arith
le-pops (pop_load s t n p h) = omega arith
le-pops (pop_tail s t p h) = omega arith
le-pops (pop_read s t n c p) = omega arith
le-pops (pop_swap s t n r c p h q) = omega arith
le-pops (pop_retry s t n m r c p h) = omega arith
le-pops (pop_retry_tail s t n r c p h) = omega arith
le-pops (pop_clear s t n p) = omega arith

Reach-IsValid : {intr : ℕ → Ref} {s : State} → Reach intr s → s.pops < 2 ^ 64 → IsValid s
Reach-IsValid start few = record {
  chain = refl;
  distinct = tt;
  held = λ t. tt;
  apart = λ t u n. tt;
  ready = λ t. tt;
}
Reach-IsValid (step {s} r st) few =
    let before : s.pops < 2 ^ 64 = omega (arith, few, le-pops st) in
    Step-IsValid st before (Reach-IsValid r before)

is_tail-Chain : (intr : ℕ → Ref) (r : Ref) (xs : List ℕ) → Chain intr r xs → is_tail r ≡ is_empty xs
is_tail-Chain intr r [] c = rw c refl
is_tail-Chain intr r (a ∷ xs) c = rw (c.0) refl

Chain-tail : (intr : ℕ → Ref) (r : Ref) (xs : List ℕ) → r ≡ tail_end → Chain intr r xs → xs ≡ []
Chain-tail intr r [] h c = refl
Chain-tail intr r (a ∷ xs) h c = absurd (cc (h, c.0))

Step-Keeps : {s u : State} {e : Event} → Step s e u → IsValid s → Keeps s u e
Step-Keeps (push_load s t n p z f) v = refl
Step-Keeps (push_link s t n r c p) v = refl
Step-Keeps (push_swap s t n r c p h q) v =
    (refl, rw (← h) (is_tail-Chain s.intr s.head s.content v.chain))
Step-Keeps (push_retry s t n r c p) v = refl
Step-Keeps (pop_load s t n p h) v = refl
Step-Keeps (pop_tail s t p h) v =
    let empty = Chain-tail s.intr s.head s.content h v.chain in (empty, empty)
Step-Keeps (pop_read s t n c p) v = refl
Step-Keeps (pop_swap s t n r c p h q) v = head-content s.intr s.head n s.content v.chain h
Step-Keeps (pop_retry s t n m r c p h) v = refl
Step-Keeps (pop_retry_tail s t n r c p h) v =
    let empty = Chain-tail s.intr s.head s.content h v.chain in (empty, empty)
Step-Keeps (pop_clear s t n p) v = (refl, write_self s.intr n null)

-- In every state that threads reach by any sequence of atomic steps from an empty stack, where
-- each caller owns the node that it pushes and fewer than 2^64 nodes were popped: after any
-- further step the head is linked to the very nodes that were pushed and not popped. A push puts
-- its node in front and tells whether there was none, the swap of a pop takes the first node,
-- which no other thread takes, a pop without a node finds the stack empty, one with a node
-- returns it with its cell cleared, and no other step changes the nodes.
pub Reach-Keeps :
    {intr : ℕ → Ref} {s u : State} {e : Event}
    → Reach intr s
    → Step s e u
    → s.pops < 2 ^ 64
    → Chain u.intr u.head u.content × Keeps s u e
Reach-Keeps r st few =
    let v = Reach-IsValid r few in ((Step-IsValid st few v).chain, Step-Keeps st v)
