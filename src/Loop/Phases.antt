-- ===== src/Loop/Phases.antt =====
-- The phases of an iteration on one loop (ase/loop.cc). The parameters are what the sources' virtual methods
-- answer, by id. Files to poll and timeouts are left out.
use anklang.Prelude.{
  ℕ, max, Bool, true, false, not, ◌&&◌, ◌||◌, Option, none, some, List, [], ◌∷◌, ltb, ◌==◌,
  if◌then◌else◌,
}
use anklang.Loop.Sources.{
  LoopState, waiting, prepared, needs_dispatch, EventSource, EventLoop, undefined_priority,
  is_needs_dispatch, remove_source, update,
}

-- Sources in dispatch are not collected, unless they may recurse.
abbrev pub recursion_barred : EventSource → Bool
recursion_barred s = s.dispatching && not s.may_recurse

-- With dispatch_priority `dp`, a source is polled that comes before all that need dispatch, or is one of them.
abbrev pub is_candidate : ℕ → EventSource → Bool
is_candidate dp s = ltb dp s.priority || ((s.priority == dp) && is_needs_dispatch s.loop_state)

-- dispatch_priority after a look at one source
abbrev pub raise : ℕ → EventSource → ℕ
raise dp s = if ltb dp s.priority && is_needs_dispatch s.loop_state then s.priority else dp

-- The first loop of collect_sources_Lm: the final dispatch_priority, and the candidates as `polled`
unfoldable pub collect_candidates : ℕ → List EventSource → ℕ × List EventSource
collect_candidates dp [] = (dp, [])
collect_candidates dp (s ∷ sources) =
    let raised = if recursion_barred s then dp else raise dp s in
    let rest = collect_candidates raised sources in
    (rest.0, record s { polled = not (recursion_barred s) && is_candidate raised s } ∷ rest.1)

-- The second loop, on the candidates
unfoldable pub keep_candidates : ℕ → List EventSource → List EventSource
keep_candidates dp [] = []
keep_candidates dp (s ∷ sources) =
    record s { polled = s.polled && is_candidate dp s } ∷ keep_candidates dp sources

unfoldable pub collect_sources : EventLoop → EventLoop
collect_sources loop =
    let c = collect_candidates undefined_priority loop.sources in
    record loop { sources = keep_candidates c.0 c.1; dispatch_priority = c.0 }

-- What a polled source becomes when a method tells if it needs dispatch, and the new dispatch_priority
unfoldable pub note_sources : LoopState → (ℕ → Bool) → ℕ → List EventSource → ℕ × List EventSource
note_sources otherwise needs dp [] = (dp, [])
note_sources otherwise needs dp (s ∷ sources) =
    let needed = s.polled && needs s.id in
    let rest = note_sources otherwise needs (if needed then max dp s.priority else dp) sources in
    (
      rest.0,
      (if s.polled
            then record s { loop_state = if needs s.id then needs_dispatch else otherwise }
            else s)
          ∷ rest.1,
    )

-- The loop, and whether it has a source to dispatch
abbrev pub noted : LoopState → (ℕ → Bool) → EventLoop → EventLoop × Bool
noted otherwise needs loop =
    let n = note_sources otherwise needs loop.dispatch_priority loop.sources in
    (record loop { sources = n.1; dispatch_priority = n.0 }, ltb undefined_priority n.0)

unfoldable pub prepare_sources : (ℕ → Bool) → EventLoop → EventLoop × Bool
prepare_sources prepare loop = noted prepared prepare loop

-- All polled sources of the loop are checked, also those that need dispatch already: the test that is to
-- skip them has `&&` between its two conditions.
unfoldable pub check_sources : (ℕ → Bool) → EventLoop → EventLoop × Bool
check_sources check loop = noted waiting check loop

unfoldable pub find_dispatch : ℕ → List EventSource → Option EventSource
find_dispatch dp [] = none
find_dispatch dp (s ∷ sources) =
    let rest = find_dispatch dp sources in
    if s.polled && ((s.priority == dp) && is_needs_dispatch s.loop_state) then some s else rest

-- Before and after the call of `dispatch`
abbrev pub begin_dispatch : EventSource → EventSource
begin_dispatch s = record s {
  loop_state = waiting;
  was_dispatching = s.dispatching;
  dispatching = true;
}

abbrev pub end_dispatch : Bool → EventSource → EventSource
end_dispatch old_was_dispatching s = record s {
  dispatching = s.was_dispatching;
  was_dispatching = old_was_dispatching;
}

-- The callback can change the loop; it tells whether the source is kept alive. The id is the source
-- that was dispatched.
unfoldable pub dispatch_source :
    (ℕ → EventLoop → EventLoop × Bool) → EventLoop → EventLoop × Option ℕ
dispatch_source dispatch loop = elim (find_dispatch loop.dispatch_priority loop.sources) [
  | none ↦ (record loop { dispatch_priority = undefined_priority }, none)
  | some s ↦
      let started = record loop {
        dispatch_priority = undefined_priority;
        sources = update loop.sources s.id begin_dispatch;
      } in
      let called = dispatch s.id started in
      let ended = update called.0.sources s.id (end_dispatch s.was_dispatching) in
      (
        record called.0 { sources = if called.1 then ended else remove_source ended s.id },
        some s.id,
      )
]

-- unpoll_sources_U
abbrev pub unpoll_sources : List EventSource → List EventSource
unpoll_sources [] = []
unpoll_sources (s ∷ sources) = record s { polled = false } ∷ unpoll_sources sources
