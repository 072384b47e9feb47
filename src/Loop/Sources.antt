-- ===== src/Loop/Sources.antt =====
-- EventLoop and its sources (ase/loop.cc, ase/loop.hh).
use anklang.Prelude.{
  ℕ, Bool, true, false, ◌&&◌, Option, none, some, List, [], ◌∷◌, ◌++◌, leb, ◌==◌, if◌then◌else◌,
}

pub data LoopState : Type 0 where
  waiting : LoopState
  prepared : LoopState
  needs_dispatch : LoopState

-- `polled` tells whether poll_sources_ holds the source: it is a part of sources_, in the same order.
pub record EventSource : Type 0 where
  pub id : ℕ
  pub priority : ℕ
  pub loop_state : LoopState
  pub may_recurse : Bool
  pub dispatching : Bool
  pub was_dispatching : Bool
  pub primary : Bool
  pub polled : Bool

pub record EventLoop : Type 0 where
  pub sources : List EventSource
  pub dispatch_priority : ℕ
  pub primary : Bool

-- UNDEFINED_PRIORITY is below all priorities of sources, which start at 1.
abbrev pub undefined_priority : ℕ
undefined_priority = 0

abbrev pub priority_ceiling : ℕ
priority_ceiling = 999

abbrev pub is_needs_dispatch : LoopState → Bool
is_needs_dispatch needs_dispatch = true
is_needs_dispatch _ = false

unfoldable pub find_source : List EventSource → ℕ → Option EventSource
find_source [] id = none
find_source (s ∷ sources) id =
    let rest = find_source sources id in if id == s.id then some s else rest

unfoldable pub any_primary : List EventSource → Bool
any_primary [] = false
any_primary (s ∷ sources) = let rest = any_primary sources in if s.primary then true else rest

unfoldable pub has_primary : EventLoop → Bool
has_primary loop = if loop.primary then true else any_primary loop.sources

-- For a source that is in no loop yet; `id` comes from alloc_id. The result is the source's id, or 0.
unfoldable pub add : EventLoop → EventSource → ℕ → ℕ → EventLoop × ℕ
add loop source id priority =
    if leb 1 priority && leb priority priority_ceiling
    then (
      record loop {
        sources =
            loop.sources
            ++ record source { id = id; loop_state = waiting; priority = priority; polled = false }
              ∷ [];
      },
      id,
    )
    else (loop, 0)

-- erase, at the first source that has the id
unfoldable pub remove_source : List EventSource → ℕ → List EventSource
remove_source [] id = []
remove_source (s ∷ sources) id =
    let rest = remove_source sources id in if id == s.id then sources else s ∷ rest

unfoldable pub try_remove : EventLoop → ℕ → EventLoop × Bool
try_remove loop id = elim (find_source loop.sources id) [
  | none ↦ (loop, false)
  | some s ↦ (record loop { sources = remove_source loop.sources id }, true)
]

-- A change of the source that has the id
unfoldable pub update : List EventSource → ℕ → (EventSource → EventSource) → List EventSource
update [] id f = []
update (s ∷ sources) id f =
    let rest = update sources id f in if id == s.id then f s ∷ sources else s ∷ rest
