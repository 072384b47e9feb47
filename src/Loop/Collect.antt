-- ===== src/Loop/Collect.antt =====
-- What EventLoop::collect_sources_Lm (ase/loop.cc) gives, in one pass.
use anklang.Prelude.{
  ℕ, ◌≤◌, max, ◌≡◌, refl, ap, not, ◌&&◌, List, [], ◌∷◌, map, arith, if◌then◌else◌,
}
use anklang.Loop.Sources.{EventSource, EventLoop, undefined_priority, is_needs_dispatch}
use anklang.Loop.Phases.{
  recursion_barred, is_candidate, raise, collect_candidates, keep_candidates, collect_sources,
}

-- The highest priority of the sources that need dispatch and may be dispatched now
unfoldable pub top_priority : List EventSource → ℕ
top_priority [] = undefined_priority
top_priority (s ∷ sources) =
    let rest = top_priority sources in
    if not (recursion_barred s) && is_needs_dispatch s.loop_state then max s.priority rest else rest

-- A source once dispatch_priority is `dp`
abbrev pub collected : ℕ → EventSource → EventSource
collected dp s = record s { polled = not (recursion_barred s) && is_candidate dp s }

raised_bound : (dp : ℕ) (s : EventSource) → dp ≤ (if recursion_barred s then dp else raise dp s)
raised_bound dp s = ground arith

collect_candidates-top_priority :
    (dp : ℕ) (sources : List EventSource)
    → (collect_candidates dp sources).0 ≡ max dp (top_priority sources)
unfolding collect_candidates top_priority
collect_candidates-top_priority dp [] = omega arith
collect_candidates-top_priority dp (s ∷ sources) =
    ground (
      arith,
      collect_candidates-top_priority (if recursion_barred s then dp else raise dp s) sources,
    )

-- The second test subsumes the first.
kept :
    (dp final : ℕ) (s : EventSource)
    → (if recursion_barred s then dp else raise dp s) ≤ final
    → ((not (recursion_barred s) && is_candidate (if recursion_barred s then dp else raise dp s) s)
        && is_candidate final s)
      ≡ (not (recursion_barred s) && is_candidate final s)
kept dp final s h = ground arith

keep_candidates-collect_candidates :
    (dp final : ℕ) (sources : List EventSource)
    → (collect_candidates dp sources).0 ≤ final
    → keep_candidates final (collect_candidates dp sources).1 ≡ map (collected final) sources
unfolding collect_candidates keep_candidates
keep_candidates-collect_candidates dp final [] h = refl
keep_candidates-collect_candidates dp final (s ∷ sources) h =
    let raised = if recursion_barred s then dp else raise dp s in
    let bound : raised ≤ final = omega (arith, collect_candidates-top_priority raised sources) in
    rw (kept dp final s bound) (
      ap (λ (r : List EventSource). collected final s ∷ r)
        (keep_candidates-collect_candidates raised final sources h))

-- For any loop: the two passes of collect_sources select as one pass does, with the highest
-- priority of the sources that need dispatch and may be dispatched: polled are the sources above
-- it and those at it that need dispatch, without those in dispatch that may not recurse.
pub collect_sources_lem :
    (loop : EventLoop)
    → collect_sources loop ≡ record loop {
      sources = map (collected (top_priority loop.sources)) loop.sources;
      dispatch_priority = top_priority loop.sources;
    }
unfolding collect_sources
collect_sources_lem loop =
    let e : (collect_candidates undefined_priority loop.sources).0 ≡ top_priority loop.sources =
      omega (arith, collect_candidates-top_priority 0 loop.sources) in
    rw
      (
        keep_candidates-collect_candidates 0 (collect_candidates undefined_priority loop.sources).0
            loop.sources (omega arith),
        e,
      )
      refl
