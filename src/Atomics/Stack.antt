-- ===== src/Atomics/Stack.antt =====
-- AtomicIntrusiveStack (ase/atomics.hh). Nodes are numbers, `none` is nullptr. Each step is one atomic operation
-- of one thread with the tests on local variables that follow it, or a write to the cell of a node that is
-- neither in the stack nor in a push.
use anklang.Prelude.{
  ℕ, ◌≡◌, ◌≢◌, Bool, true, false, Option, none, some, List, [], ◌∷◌, ◌++◌, ◌==◌, if◌then◌else◌,
}

-- The memory cells of atomic_next_ptrref
abbrev pub Next : Type 0
Next = ℕ → Option ℕ

unfoldable pub store : Next → ℕ → Option ℕ → Next
store next z v = λ a. if a == z then v else next a

abbrev pub is_null : Option ℕ → Bool
is_null none = true
is_null (some a) = false

-- The `first` of a chain that has `init` before its last node
abbrev pub first : List ℕ → ℕ → ℕ
first [] last = last
first (a ∷ init) last = a

-- Where a thread is. linking: `last_nextptr = exchange` is next. swapping, taking: compare_exchange_strong
-- is next, in push_chain and in pop_all.
pub data Pc : Type 0 where
  idle : Pc
  linking : (init : List ℕ) (last : ℕ) (exchange : Option ℕ) → Pc
  swapping : (init : List ℕ) (last : ℕ) (exchange : Option ℕ) → Pc
  taking : (exchange : ℕ) → Pc

-- The nodes that a thread is about to push
abbrev pub owned : Pc → List ℕ
owned idle = []
owned (linking init last exchange) = init ++ last ∷ []
owned (swapping init last exchange) = init ++ last ∷ []
owned (taking exchange) = []

-- `content` is no part of the program's state: the nodes that were pushed and are not popped.
pub record State : Type 0 where
  pub head : Option ℕ
  pub next : Next
  pub pc : ℕ → Pc
  pub content : List ℕ

unfoldable pub at_pc : {A : Type 0} → (ℕ → A) → ℕ → A → ℕ → A
at_pc pc t k = λ u. if u == t then k else pc u

-- The nodes before the last are linked to it.
abbrev pub Links : Next → List ℕ → ℕ → Type 0
Links next [] last = Unit
Links next (a ∷ init) last = (next a ≡ some (first init last)) × Links next init last

abbrev pub Without : ℕ → List ℕ → Type 0
Without a [] = Unit
Without a (x ∷ xs) = (a ≢ x) × Without a xs

abbrev pub Apart : List ℕ → List ℕ → Type 0
Apart [] ys = Unit
Apart (x ∷ xs) ys = Without x ys × Apart xs ys

-- A caller of push_chain owns the linked nodes.
abbrev pub IsFresh : State → List ℕ → Type 0
IsFresh s nodes = Apart nodes s.content × ((u : ℕ) → Apart nodes (owned (s.pc u)))

-- What a thread returns: a push with `was_empty`, a push that an assertion ends, pop_all with its pointer
pub data Event : Type 0 where
  silent : Event
  refused : (t : ℕ) → Event
  pushed : (t : ℕ) (nodes : List ℕ) (was_empty : Bool) → Event
  popped : (t : ℕ) (exchange : Option ℕ) → Event

-- own_store is what a node's owner does with its cell: it links a chain, resets popped nodes, or turns them
-- around as pop_reversed does behind pop_all.
pub data Step : State → Event → State → Type 0 where
  own_store :
      (s : State) (z : ℕ) (v : Option ℕ)
      → Without z s.content
      → ((u : ℕ) → Without z (owned (s.pc u)))
      → Step s silent (record s { next = store s.next z v })
  push_load :
      (s : State) (t : ℕ) (init : List ℕ) (last : ℕ)
      → s.pc t ≡ idle
      → s.next last ≡ none
      → Links s.next init last
      → Without last init
      → IsFresh s (init ++ last ∷ [])
      → Step s silent (record s { pc = at_pc s.pc t (linking init last s.head) })
  push_refused :
      (s : State) (t last a : ℕ) → s.pc t ≡ idle → s.next last ≡ some a → Step s (refused t) s
  push_link :
      (s : State) (t : ℕ) (init : List ℕ) (last : ℕ) (exchange : Option ℕ)
      → s.pc t ≡ linking init last exchange
      → Step s silent (record s {
        next = store s.next last exchange;
        pc = at_pc s.pc t (swapping init last exchange);
      })
  push_swap :
      (s : State) (t : ℕ) (init : List ℕ) (last : ℕ) (exchange : Option ℕ)
      → s.pc t ≡ swapping init last exchange
      → s.head ≡ exchange
      → Step s (pushed t (init ++ last ∷ []) (is_null exchange)) (record s {
        head = some (first init last);
        pc = at_pc s.pc t idle;
        content = init ++ last ∷ [] ++ s.content;
      })
  push_retry :
      (s : State) (t : ℕ) (init : List ℕ) (last : ℕ) (exchange : Option ℕ)
      → s.pc t ≡ swapping init last exchange
      → s.head ≢ exchange
      → Step s silent (record s { pc = at_pc s.pc t (linking init last s.head) })
  pop_load :
      (s : State) (t a : ℕ)
      → s.pc t ≡ idle
      → s.head ≡ some a
      → Step s silent (record s { pc = at_pc s.pc t (taking a) })
  pop_null : (s : State) (t : ℕ) → s.pc t ≡ idle → s.head ≡ none → Step s (popped t none) s
  pop_swap :
      (s : State) (t a : ℕ)
      → s.pc t ≡ taking a
      → s.head ≡ some a
      → Step s (popped t (some a)) (record s { head = none; pc = at_pc s.pc t idle; content = [] })
  pop_retry :
      (s : State) (t a b : ℕ)
      → s.pc t ≡ taking a
      → s.head ≡ some b
      → a ≢ b
      → Step s silent (record s { pc = at_pc s.pc t (taking b) })
  pop_retry_null :
      (s : State) (t a : ℕ)
      → s.pc t ≡ taking a
      → s.head ≡ none
      → Step s (popped t none) (record s { pc = at_pc s.pc t idle })

-- An empty stack, with any cells, and no thread in it
pub data Reach (next : Next) : State → Type 0 where
  start : Reach next (record { head = none; next = next; pc = λ t. idle; content = [] })
  step : {s u : State} {e : Event} → Reach next s → Step s e u → Reach next u
