-- ===== src/Loop/Collected.antt =====
-- What EventLoop::collect_sources_Lm (ase/loop.cc) is to collect, told by the states of the sources alone.
use anklang.Prelude.{
  ℕ, ◌≤◌, ◌<◌, ◌≡◌, refl, sym, ◌∙◌, ◌↔◌, ◌⊎◌, inl, inr, true, false, not, ◌&&◌, List, [], ◌∷◌, map,
  arith, ltb, Bool-cases,
}
use anklang.Loop.Sources.{
  LoopState, waiting, prepared, needs_dispatch, EventSource, EventLoop, undefined_priority,
  is_needs_dispatch,
}
use anklang.Loop.Phases.{recursion_barred, collect_sources}
use anklang.Loop.Collect.{top_priority, collected, collect_sources_lem}
use anklang.Loop.Lists.{All, All-imp}

-- A source may be dispatched that is in no dispatch, or that may recurse.
abbrev pub IsEligible : EventSource → Type 0
IsEligible s = (s.dispatching ≡ false) ⊎ (s.may_recurse ≡ true)

abbrev pub IsPending : EventSource → Type 0
IsPending s = IsEligible s × (s.loop_state ≡ needs_dispatch)

-- What is to be polled when `dp` is the highest priority that is pending
abbrev pub IsSelected : ℕ → EventSource → Type 0
IsSelected dp s =
    IsEligible s × ((dp < s.priority) ⊎ ((s.priority ≡ dp) × (s.loop_state ≡ needs_dispatch)))

abbrev pub Any : (EventSource → Type 0) → List EventSource → Type 0
Any P [] = ⊥
Any P (s ∷ sources) = P s ⊎ Any P sources

-- The sources in their order, unchanged but for `polled`
abbrev pub Polls : ℕ → List EventSource → List EventSource → Type 0
Polls dp [] [] = Unit
Polls dp (s ∷ sources) (t ∷ others) =
    ((t ≡ record s { polled = t.polled }) × ((t.polled ≡ true) ↔ IsSelected dp s))
    × Polls dp sources others
Polls dp _ _ = ⊥

pub record IsCollected (loop result : EventLoop) : Type 0 where
  pub highest : All (λ s. IsPending s → s.priority ≤ result.dispatch_priority) loop.sources
  pub reached :
      (result.dispatch_priority ≡ undefined_priority)
      ⊎ Any (λ s. IsPending s × (s.priority ≡ result.dispatch_priority)) loop.sources
  pub polls : Polls result.dispatch_priority loop.sources result.sources
  pub primary : result.primary ≡ loop.primary

IsEligible-recursion_barred : (s : EventSource) → (not (recursion_barred s) ≡ true) ↔ IsEligible s
IsEligible-recursion_barred s = ground arith

pending_iff : (l : LoopState) → (is_needs_dispatch l ≡ true) ↔ (l ≡ needs_dispatch)
pending_iff waiting = (λ e. cc, λ e. cc)
pending_iff prepared = (λ e. cc, λ e. cc)
pending_iff needs_dispatch = (λ e. refl, λ e. refl)

IsPending-recursion_barred :
    (s : EventSource)
    → ((not (recursion_barred s) && is_needs_dispatch s.loop_state) ≡ true) ↔ IsPending s
IsPending-recursion_barred s =
    ground (arith, IsEligible-recursion_barred s, pending_iff s.loop_state)

IsSelected-collected :
    (dp : ℕ) (s : EventSource) → ((collected dp s).polled ≡ true) ↔ IsSelected dp s
IsSelected-collected dp s = ground (arith, IsEligible-recursion_barred s, pending_iff s.loop_state)

top_priority-highest :
    (sources : List EventSource)
    → All (λ s. IsPending s → s.priority ≤ top_priority sources) sources
unfolding top_priority
top_priority-highest [] = tt
top_priority-highest (s ∷ sources) = (
  λ p. rw ((IsPending-recursion_barred s).1 p) (omega arith),
  All-imp (λ t. IsPending t → t.priority ≤ top_priority sources)
      (λ t. IsPending t → t.priority ≤ top_priority (s ∷ sources)) sources
      (λ t h p. ground (arith, h p)) (top_priority-highest sources),
)

abbrev IsTopOf : ℕ → List EventSource → Type 0
IsTopOf p sources = (p ≡ undefined_priority) ⊎ Any (λ s. IsPending s × (s.priority ≡ p)) sources

Any-imp :
    (P Q : EventSource → Type 0)
    → ((s : EventSource) → P s → Q s)
    → (sources : List EventSource) → Any P sources
    → Any Q sources
Any-imp P Q imp [] none_there = absurd none_there
Any-imp P Q imp (s ∷ sources) (inl p) = inl (imp s p)
Any-imp P Q imp (s ∷ sources) (inr a) = inr (Any-imp P Q imp sources a)

-- `top` is the highest priority of a longer list.
IsTopOf-raise :
    (s : EventSource) (sources : List EventSource) (rest top : ℕ)
    → (top ≡ rest) ⊎ ((top ≡ s.priority) × IsPending s)
    → IsTopOf rest sources
    → IsTopOf top (s ∷ sources)
IsTopOf-raise s sources rest top (inl e) (inl undefined) = inl (e ∙ undefined)
IsTopOf-raise s sources rest top (inl e) (inr a) =
    let P = λ (q : ℕ) (t : EventSource). IsPending t × (t.priority ≡ q) in
    inr (inr (Any-imp (P rest) (P top) (λ t h. (h.0, h.1 ∙ sym e)) sources a))
IsTopOf-raise s sources rest top (inr (e, p)) t = inr (inl (p, sym e))

-- One more source raises the highest priority to its own, or leaves it.
top_priority-cases :
    (s : EventSource) (sources : List EventSource)
    → (top_priority (s ∷ sources) ≡ top_priority sources)
      ⊎ ((top_priority (s ∷ sources) ≡ s.priority) × IsPending s)
unfolding top_priority
top_priority-cases s sources =
    let test = not (recursion_barred s) && is_needs_dispatch s.loop_state in
    elim (Bool-cases test) [
      | inr other ↦ rw other (inl refl)
      | inl pending ↦ rw pending (elim (Bool-cases (ltb (top_priority sources) s.priority)) [
        | inl above ↦ inr (ground arith, (IsPending-recursion_barred s).0 pending)
        | inr below ↦ inl (ground arith)
      ])
    ]

top_priority-IsTopOf : (sources : List EventSource) → IsTopOf (top_priority sources) sources
unfolding top_priority
top_priority-IsTopOf [] = inl refl
top_priority-IsTopOf (s ∷ sources) =
    IsTopOf-raise s sources (top_priority sources) (top_priority (s ∷ sources))
      (top_priority-cases s sources) (top_priority-IsTopOf sources)

collected-Polls :
    (dp : ℕ) (sources : List EventSource) → Polls dp sources (map (collected dp) sources)
collected-Polls dp [] = tt
collected-Polls dp (s ∷ sources) = ((refl, IsSelected-collected dp s), collected-Polls dp sources)

-- For any loop: after collect_sources no pending source, which is one that needs dispatch and is
-- in no dispatch or may recurse, has a priority above dispatch_priority, and dispatch_priority is
-- undefined or that of a pending source. Of the sources, whose order and other state stay,
-- exactly those are polled that are in no dispatch or may recurse, and that are above
-- dispatch_priority, or at it and need dispatch. Whether the loop is primary stays.
pub collect_sources-IsCollected : (loop : EventLoop) → IsCollected loop (collect_sources loop)
collect_sources-IsCollected loop = rw (collect_sources_lem loop) (record {
  highest = top_priority-highest loop.sources;
  reached = top_priority-IsTopOf loop.sources;
  polls = collected-Polls (top_priority loop.sources) loop.sources;
  primary = refl;
})
