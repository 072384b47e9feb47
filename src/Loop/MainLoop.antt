-- ===== src/Loop/MainLoop.antt =====
-- Iterations over all loops (ase/loop.cc): MainLoop::iterate_loops_Lm with no GLib context. The parameters
-- are what the sources' virtual methods answer, by id.
use anklang.Prelude.{
  ℕ, zero, suc, ◌+◌, ◌*◌, ◌%◌, ◌^◌, max, Bool, false, not, ◌&&◌, ◌||◌, Option, none, some, List, [],
  ◌∷◌, leb, if◌then◌else◌, length, get_elem?,
}
use anklang.Loop.Sources.{EventLoop, undefined_priority, has_primary}
use anklang.Loop.Phases.{
  collect_sources, prepare_sources, check_sources, dispatch_source, unpoll_sources,
}

pub record MainLoop : Type 0 where
  pub loops : List EventLoop
  pub rr_index : ℕ

-- The loops with the flags dispatchable[]
abbrev pub Flagged : Type 0
Flagged = List (EventLoop × Bool)

unfoldable pub prepare_loops : (ℕ → Bool) → List EventLoop → Flagged
prepare_loops prepare [] = []
prepare_loops prepare (l ∷ loops) =
    prepare_sources prepare (collect_sources l) ∷ prepare_loops prepare loops

unfoldable pub check_loops : (ℕ → Bool) → Flagged → Flagged
check_loops check [] = []
check_loops check ((l, flag) ∷ loops) =
    let checked = check_sources check l in (checked.0, flag || checked.1) ∷ check_loops check loops

unfoldable pub any_dispatchable : Flagged → Bool
any_dispatchable [] = false
any_dispatchable ((l, flag) ∷ loops) = flag || any_dispatchable loops

unfoldable pub max_dispatch_priority : Flagged → ℕ
max_dispatch_priority [] = undefined_priority
max_dispatch_priority ((l, flag) ∷ loops) =
    let rest = max_dispatch_priority loops in if flag then max l.dispatch_priority rest else rest

-- The conditions that a loop meets to be picked
unfoldable pub can_pick : ℕ → Option (EventLoop × Bool) → Bool
can_pick top none = false
can_pick top (some (l, flag)) = flag && leb top l.dispatch_priority

-- The index of the picked loop and the next rr_index, after at most `fuel` round-robin steps
unfoldable pub pick : ℕ → Flagged → ℕ → ℕ → Option ℕ × ℕ
pick zero loops top rr_index = (none, rr_index)
pick (suc fuel) loops top rr_index =
    let index = rr_index % length loops in
    let stepped = (rr_index + 1) % 2 ^ 32 in
    let rest = pick fuel loops top stepped in
    if can_pick top (get_elem? loops index) then (some index, stepped) else rest

-- After two rounds over all loops each has been tried, even where rr_index wraps around in the first.
abbrev pub pick_fuel : Flagged → ℕ
pick_fuel loops = 2 * length loops

unfoldable pub dispatch_at : (ℕ → EventLoop → EventLoop × Bool) → Flagged → ℕ → Flagged × Option ℕ
dispatch_at dispatch [] index = ([], none)
dispatch_at dispatch ((l, flag) ∷ loops) zero =
    let d = dispatch_source dispatch l in ((d.0, flag) ∷ loops, d.1)
dispatch_at dispatch ((l, flag) ∷ loops) (suc index) =
    let rest = dispatch_at dispatch loops index in ((l, flag) ∷ rest.0, rest.1)

unfoldable pub unpoll_loops : Flagged → List EventLoop
unpoll_loops [] = []
unpoll_loops ((l, flag) ∷ loops) =
    record l { sources = unpoll_sources l.sources } ∷ unpoll_loops loops

-- What an iteration does: the loops after it, whether more is to be dispatched or rechecked, and the
-- source that was dispatched
pub record Iterated : Type 0 where
  pub main : MainLoop
  pub more : Bool
  pub dispatched : Option ℕ

unfoldable pub dispatch_loops :
    (ℕ → EventLoop → EventLoop × Bool) → Flagged → Option ℕ → Flagged × Option ℕ
dispatch_loops dispatch loops none = (loops, none)
dispatch_loops dispatch loops (some index) = dispatch_at dispatch loops index

module _ (prepare check : ℕ → Bool) (dispatch : ℕ → EventLoop → EventLoop × Bool) where
  unfoldable pub iterate_loops : MainLoop → Bool → Iterated
  iterate_loops main may_dispatch =
      let checked = check_loops check (prepare_loops prepare main.loops) in
      let any = any_dispatchable checked in
      let picked =
        if may_dispatch && any
        then pick (pick_fuel checked) checked (max_dispatch_priority checked) main.rr_index
        else (none, main.rr_index) in
      let d = dispatch_loops dispatch checked picked.0 in
      record {
        main = record { loops = unpoll_loops d.0; rr_index = picked.1 };
        more = any;
        dispatched = d.1;
      }

unfoldable pub found_primary : List EventLoop → Bool
found_primary [] = false
found_primary (l ∷ loops) = has_primary l || found_primary loops

-- finishable_L; `primary` is the flag of the main loop itself.
unfoldable pub finishable : Bool → List EventLoop → Bool
finishable primary loops = not (primary || found_primary loops)
