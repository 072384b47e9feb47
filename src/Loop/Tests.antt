-- ===== src/Loop/Tests.antt =====
-- Runs of ase/loop.cc on small inputs.
use anklang.Prelude.{
  ℕ, ◌+◌, ◌*◌, ◌%◌, ◌≤◌, ◌<◌, ◌≡◌, refl, Bool, true, false, some, [], ◌∷◌, arith, ◌==◌,
}
use anklang.Loop.Sources.{LoopState, waiting, needs_dispatch, EventSource, EventLoop}
use anklang.Loop.MainLoop.{
  Flagged, any_dispatchable, max_dispatch_priority, pick, can_pick, dispatch_loops, dispatch_at,
  check_loops, prepare_loops, iterate_loops,
}
use anklang.Loop.Phases.{
  collect_sources, collect_candidates, keep_candidates, prepare_sources, check_sources,
  note_sources, dispatch_source, find_dispatch,
}
use anklang.Loop.Pick.{pick-IsTop, tried, IsTop}
use anklang.Loop.Collected.{IsCollected, collect_sources-IsCollected}
use anklang.Loop.Lists.{queue}
use anklang.Loop.Rounds.{callback, dispatches, dispatches-queue}
use anklang.Loop.Ready.{iterate_loops_checked}
use anklang.Loop.Once.{exec_once, exec_once-exec_once}
use anklang.Loop.Timers.{TimedSource, unwarped, prepare, poll_timeout, prepare-poll_timeout}

abbrev source : ℕ → ℕ → LoopState → EventSource
source id priority loop_state = record {
  id = id;
  priority = priority;
  loop_state = loop_state;
  may_recurse = false;
  dispatching = false;
  was_dispatching = false;
  primary = false;
  polled = false;
}

abbrev main_loop : EventLoop
main_loop = record {
  sources = source 1 500 needs_dispatch ∷ source 2 700 waiting ∷ source 3 500 needs_dispatch ∷ [];
  dispatch_priority = 0;
  primary = false;
}

abbrev never : ℕ → Bool
never id = false

abbrev odd : ℕ → Bool
odd id = id % 2 == 1

dispatches-queue_example :
    dispatches never odd (callback odd) 2 (record { loops = main_loop ∷ []; rr_index = 4294967295 })
    ≡ some 1 ∷ some 3 ∷ []
unfolding queue
dispatches-queue_example =
    dispatches-queue 500 never odd odd main_loop 4294967295 (omega arith) (omega arith) (
      record {
        idle = refl;
        above_prepare = λ h. refl;
        above_check = λ h. ground arith;
        above_state = λ h. ground arith;
        due = λ h. refl;
      },
      (
        record {
          idle = refl;
          above_prepare = λ h. refl;
          above_check = λ h. refl;
          above_state = λ h. refl;
          due = λ h. ground arith;
        },
        (
          record {
            idle = refl;
            above_prepare = λ h. refl;
            above_check = λ h. ground arith;
            above_state = λ h. ground arith;
            due = λ h. refl;
          },
          tt,
        ),
      ),
    )

-- Three loops, two of them with the maximal priority
abbrev loops : Flagged
loops =
    (record main_loop { dispatch_priority = 700 }, false)
    ∷ (record main_loop { dispatch_priority = 500 }, true)
    ∷ (record main_loop { dispatch_priority = 500 }, true)
    ∷ []

pick-IsTop_example :
    (k : ℕ) × (l : EventLoop) × (k < 6)
    × ((pick 6 loops (max_dispatch_priority loops) 4294967295).0 ≡ some (tried 3 4294967295 k))
    × IsTop loops (tried 3 4294967295 k) l
    × ((j : ℕ) → j < k → (m : EventLoop) → ¬ IsTop loops (tried 3 4294967295 j) m)
unfolding any_dispatchable
pick-IsTop_example = pick-IsTop loops 4294967295 (omega arith) (omega arith) refl

iterate_loops_checked_example : odd 1 ≡ true
unfolding iterate_loops dispatch_loops dispatch_at check_loops prepare_loops any_dispatchable
    max_dispatch_priority pick can_pick collect_sources collect_candidates keep_candidates
    prepare_sources check_sources note_sources dispatch_source find_dispatch
iterate_loops_checked_example =
    iterate_loops_checked never odd (callback odd) (record { loops = main_loop ∷ []; rr_index = 0 })
      true 1 refl

exec_once-exec_once_example :
    exec_once
      (exec_once main_loop (source 0 1 waiting) 7 true 3 500).0.0
      (source 0 1 waiting)
      8
      true
      (exec_once main_loop (source 0 1 waiting) 7 true 3 500).0.1
      600
    ≡ exec_once main_loop (source 0 1 waiting) 8 true 3 600
exec_once-exec_once_example =
    exec_once-exec_once main_loop (source 0 1 waiting) (source 0 1 waiting) 7 8 3 500 600
      (omega arith) (omega arith) (omega arith) (omega arith) (omega arith) (omega arith)

-- The clock went back by 9 seconds.
abbrev timer : TimedSource
timer = record { expiration_usecs = 10000000; interval_msecs = 20; first_interval = false }

prepare-poll_timeout_example :
    (1020000 ≤ 10000000)
    × (1020000 ≤ 1020000)
    × (1000000 + poll_timeout (30000 ∷ 20000 ∷ []) true false * 1000 < 1020000 + 1000)
unfolding prepare unwarped
prepare-poll_timeout_example =
    prepare-poll_timeout timer 1000000 (record timer { expiration_usecs = 1020000 }) 20000 false
      (30000 ∷ []) [] true false refl (omega arith) (omega arith) (omega arith) refl

collect_sources-IsCollected_example : IsCollected main_loop (collect_sources main_loop)
collect_sources-IsCollected_example = collect_sources-IsCollected main_loop
