-- ===== src/Atomics/Mpmc.antt =====
-- MpmcStack (ase/atomics.hh). Nodes are numbers. As in Stack, each step is one atomic operation of one thread.
use anklang.Prelude.{
  ℕ, suc, ◌%◌, ◌^◌, ◌≡◌, Bool, true, false, Option, none, some, List, [], ◌∷◌, ◌==◌, if◌then◌else◌,
}
use anklang.Atomics.Stack.{at_pc, Without}

-- nullptr, TAIL_ or a node
pub data Ref : Type 0 where
  null : Ref
  tail_end : Ref
  node : (n : ℕ) → Ref

-- The cells `intr_ptr_` of the nodes
unfoldable pub write : (ℕ → Ref) → ℕ → Ref → ℕ → Ref
write intr n r = λ a. if a == n then r else intr a

abbrev pub is_tail : Ref → Bool
is_tail tail_end = true
is_tail _ = false

-- Where a thread is, with its `ohead`. linking: the write of `intr_ptr_` is next; pushing, popping:
-- compare_exchange_weak is next; reading: the read of `intr_ptr_` is next; clearing: its reset is next.
pub data Pc : Type 0 where
  idle : Pc
  linking : (n : ℕ) (next : Ref) (counter : ℕ) → Pc
  pushing : (n : ℕ) (next : Ref) (counter : ℕ) → Pc
  reading : (n : ℕ) (counter : ℕ) → Pc
  popping : (n : ℕ) (next : Ref) (counter : ℕ) → Pc
  clearing : (n : ℕ) → Pc

abbrev pub owned : Pc → List ℕ
owned idle = []
owned (linking n next counter) = n ∷ []
owned (pushing n next counter) = n ∷ []
owned (reading n counter) = []
owned (popping n next counter) = []
owned (clearing n) = n ∷ []

-- `aba_counter` is the number of pops in 64 bits. `content` is no part of the program's state.
pub record State : Type 0 where
  pub head : Ref
  pub pops : ℕ
  pub intr : ℕ → Ref
  pub pc : ℕ → Pc
  pub content : List ℕ

-- Two counters are equal as 64 bit numbers.
abbrev pub SameCounter : ℕ → ℕ → Type 0
SameCounter a b = a % 2 ^ 64 ≡ b % 2 ^ 64

abbrev pub IsFresh : State → ℕ → Type 0
IsFresh s n = Without n s.content × ((u : ℕ) → Without n (owned (s.pc u)))

abbrev pub behind_first : List ℕ → List ℕ
behind_first [] = []
behind_first (a ∷ xs) = xs

-- What a thread has done: a push with `was_empty`, the swap of a pop, and the pop's return
pub data Event : Type 0 where
  silent : Event
  pushed : (t n : ℕ) (was_empty : Bool) → Event
  taken : (t n : ℕ) → Event
  popped : (t : ℕ) (result : Option ℕ) → Event

pub data Step : State → Event → State → Type 0 where
  push_load :
      (s : State) (t n : ℕ)
      → s.pc t ≡ idle
      → s.intr n ≡ null
      → IsFresh s n
      → Step s silent (record s { pc = at_pc s.pc t (linking n s.head s.pops) })
  push_link :
      (s : State) (t n : ℕ) (r : Ref) (c : ℕ)
      → s.pc t ≡ linking n r c
      → Step s silent (record s { intr = write s.intr n r; pc = at_pc s.pc t (pushing n r c) })
  push_swap :
      (s : State) (t n : ℕ) (r : Ref) (c : ℕ)
      → s.pc t ≡ pushing n r c
      → s.head ≡ r
      → SameCounter s.pops c
      → Step s
          (pushed t n (is_tail r))
          (record s { head = node n; pc = at_pc s.pc t idle; content = n ∷ s.content })
  push_retry :
      (s : State) (t n : ℕ) (r : Ref) (c : ℕ)
      → s.pc t ≡ pushing n r c
      → Step s silent (record s { pc = at_pc s.pc t (linking n s.head s.pops) })
  pop_load :
      (s : State) (t n : ℕ)
      → s.pc t ≡ idle
      → s.head ≡ node n
      → Step s silent (record s { pc = at_pc s.pc t (reading n s.pops) })
  pop_tail : (s : State) (t : ℕ) → s.pc t ≡ idle → s.head ≡ tail_end → Step s (popped t none) s
  pop_read :
      (s : State) (t n c : ℕ)
      → s.pc t ≡ reading n c
      → Step s silent (record s { pc = at_pc s.pc t (popping n (s.intr n) c) })
  pop_swap :
      (s : State) (t n : ℕ) (r : Ref) (c : ℕ)
      → s.pc t ≡ popping n r c
      → s.head ≡ node n
      → SameCounter s.pops c
      → Step s (taken t n) (record s {
        head = r;
        pops = suc s.pops;
        pc = at_pc s.pc t (clearing n);
        content = behind_first s.content;
      })
  pop_retry :
      (s : State) (t n m : ℕ) (r : Ref) (c : ℕ)
      → s.pc t ≡ popping n r c
      → s.head ≡ node m
      → Step s silent (record s { pc = at_pc s.pc t (reading m s.pops) })
  pop_retry_tail :
      (s : State) (t n : ℕ) (r : Ref) (c : ℕ)
      → s.pc t ≡ popping n r c
      → s.head ≡ tail_end
      → Step s (popped t none) (record s { pc = at_pc s.pc t idle })
  pop_clear :
      (s : State) (t n : ℕ)
      → s.pc t ≡ clearing n
      → Step s (popped t (some n)) (record s { intr = write s.intr n null; pc = at_pc s.pc t idle })

-- An empty stack, with any cells, and no thread in it
pub data Reach (intr : ℕ → Ref) : State → Type 0 where
  start :
      Reach intr (record { head = tail_end; pops = 0; intr = intr; pc = λ t. idle; content = [] })
  step : {s u : State} {e : Event} → Reach intr s → Step s e u → Reach intr u
