-- ===== src/Loop/Once.antt =====
-- Sources that run once: EventLoop::exec_once and clear_source (ase/loop.cc). `once_id` is the value at the
-- caller's address, 0 when nothing is scheduled.
use anklang.Prelude.{
  ℕ, ◌≤◌, ◌≡◌, refl, ap, ◌∙◌, ◌≢◌, inl, inr, Bool, true, false, not, ◌&&◌, some, List, [], ◌∷◌,
  ◌++◌, arith, leb, ◌==◌, if◌then◌else◌, Bool-cases, Option-cases,
}
use anklang.Loop.Sources.{
  waiting, EventSource, EventLoop, priority_ceiling, find_source, remove_source, try_remove,
}
use anklang.Loop.Lists.{All, All-remove_source}

unfoldable pub clear_source : EventLoop → ℕ → (EventLoop × ℕ) × Bool
clear_source loop once_id = let r = try_remove loop once_id in ((r.0, 0), r.1)

-- What is left without the source that was scheduled before
unfoldable pub unscheduled : EventLoop → ℕ → List EventSource
unscheduled loop once_id =
    if once_id == 0 then loop.sources else (try_remove loop once_id).0.sources

-- `source` is the new timer, `id` its id from alloc_id; `callable` tells whether there is a function to call.
unfoldable pub exec_once : EventLoop → EventSource → ℕ → Bool → ℕ → ℕ → (EventLoop × ℕ) × Bool
exec_once loop source id callable once_id priority =
    if not (leb 1 priority && leb priority priority_ceiling)
    then ((loop, once_id), false)
    else if not callable
    then ((clear_source loop once_id).0, false)
    else (
      (
        record loop {
          sources =
              unscheduled loop once_id
              ++ record source {
                id = id;
                loop_state = waiting;
                priority = priority;
                polled = false;
              }
                ∷ [];
        },
        id,
      ),
      true,
    )

find_source-append :
    (sources : List EventSource) (s : EventSource)
    → All (λ t. t.id ≢ s.id) sources
    → find_source (sources ++ s ∷ []) s.id ≡ some s
unfolding find_source
find_source-append [] s a = let e : (s.id == s.id) ≡ true = ground arith in rw e refl
find_source-append (t ∷ sources) s (n, a) =
    let e : (s.id == t.id) ≡ false = ground (arith, n) in rw e (find_source-append sources s a)

remove_source-append :
    (sources : List EventSource) (s : EventSource)
    → All (λ t. t.id ≢ s.id) sources
    → remove_source (sources ++ s ∷ []) s.id ≡ sources
unfolding remove_source
remove_source-append [] s a = let e : (s.id == s.id) ≡ true = ground arith in rw e refl
remove_source-append (t ∷ sources) s (n, a) =
    let e : (s.id == t.id) ≡ false = ground (arith, n) in
    rw e (ap (λ (r : List EventSource). t ∷ r) (remove_source-append sources s a))

try_remove-append :
    (loop : EventLoop) (s : EventSource)
    → All (λ t. t.id ≢ s.id) loop.sources
    → try_remove (record loop { sources = loop.sources ++ s ∷ [] }) s.id ≡ (loop, true)
unfolding try_remove
try_remove-append loop s fresh =
    rw (find_source-append loop.sources s fresh, try_remove)
      (rw (remove_source-append loop.sources s fresh) refl)

unscheduled_fresh :
    (loop : EventLoop) (once_id id : ℕ)
    → All (λ t. t.id ≢ id) loop.sources
    → All (λ t. t.id ≢ id) (unscheduled loop once_id)
unfolding unscheduled try_remove
unscheduled_fresh loop once_id id fresh = elim (Bool-cases (once_id == 0)) [
  | inl e ↦ rw e fresh
  | inr e ↦ rw e (elim (Option-cases (find_source loop.sources once_id)) [
    | inl n ↦ rw (n, try_remove) fresh
    | inr (s, f) ↦
        rw (f, try_remove) (All-remove_source (λ t. t.id ≢ id) once_id loop.sources fresh)
  ])
]

abbrev scheduled : ℕ → ℕ → EventSource → EventSource
scheduled id priority source = record source {
  id = id;
  loop_state = waiting;
  priority = priority;
  polled = false;
}

exec_once_lem :
    (loop : EventLoop) (source : EventSource) (id once_id priority : ℕ)
    → 1 ≤ priority
    → priority ≤ priority_ceiling
    → exec_once loop source id true once_id priority ≡ (
      (record loop { sources = unscheduled loop once_id ++ scheduled id priority source ∷ [] }, id),
      true,
    )
unfolding exec_once
exec_once_lem loop source id once_id priority low high =
    let e : (leb 1 priority && leb priority priority_ceiling) ≡ true = ground arith in rw e refl

-- With an id that is not 0 and not yet in the loop, and two priorities within 1 and 999: to
-- schedule a function and then a second one with the once_id of the first leaves the loop as if
-- only the second had been scheduled, whatever once_id was before.
pub exec_once-exec_once :
    (loop : EventLoop) (first second : EventSource) (id next_id once_id priority next_priority : ℕ)
    → id ≢ 0
    → All (λ s. s.id ≢ id) loop.sources
    → 1 ≤ priority
    → priority ≤ priority_ceiling
    → 1 ≤ next_priority
    → next_priority ≤ priority_ceiling
    → exec_once
        (exec_once loop first id true once_id priority).0.0
        second
        next_id
        true
        (exec_once loop first id true once_id priority).0.1
        next_priority
      ≡ exec_once loop second next_id true once_id next_priority
unfolding unscheduled
exec_once-exec_once loop first second id next_id once_id priority next_priority used fresh low high
      next_low next_high =
    let later : (id == 0) ≡ false = ground (arith, used) in
    let removed =
      try_remove-append (record loop { sources = unscheduled loop once_id })
        (scheduled id priority first) (unscheduled_fresh loop once_id id fresh) in
    rw
      (
        exec_once_lem loop first id once_id priority low high,
        exec_once_lem loop second next_id once_id next_priority next_low next_high,
      )
      (exec_once_lem _ second next_id id next_priority next_low next_high
        ∙ rw (later, removed) refl)
