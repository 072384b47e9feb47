-- ===== src/Loop/Rounds.antt =====
-- Rounds of MainLoop::iterate_loops_Lm (ase/loop.cc) on the main loop alone.
use anklang.Prelude.{
  ℕ, zero, suc, ◌%◌, ◌<◌, max, ◌≡◌, refl, ap, ◌∙◌, Bool, true, false, ◌||◌, Option, some, List, [],
  ◌∷◌, map, arith, leb, if◌then◌else◌, length,
}
use anklang.Loop.Sources.{EventSource, EventLoop, remove_source, update, undefined_priority}
use anklang.Loop.Phases.{begin_dispatch, end_dispatch, dispatch_source, unpoll_sources}
use anklang.Loop.Lists.{
  All, All-map, All-update, All-remove_source, Distinct, Distinct-map, Distinct-update,
  Distinct-remove_source, update-update, remove_source-update, queue,
}
use anklang.Loop.Queue.{IsPolled, IsHead, queue-unpoll_sources, queue-IsHead}
use anklang.Loop.Settle.{IsCalm, settle, settle-IsSettled, settle-IsWaiting, settle_lem, IsWaiting}
use anklang.Loop.MainLoop.{
  MainLoop, Iterated, prepare_loops, check_loops, any_dispatchable, max_dispatch_priority, can_pick,
  pick, pick_fuel, dispatch_at, dispatch_loops, unpoll_loops, iterate_loops,
}

-- A callback that leaves the loop alone
abbrev pub callback : (ℕ → Bool) → ℕ → EventLoop → EventLoop × Bool
callback keep id loop = (loop, keep id)

abbrev unpolled : EventSource → EventSource
unpolled s = record s { polled = false }

unpoll_sources-map : (sources : List EventSource) → unpoll_sources sources ≡ map unpolled sources
unpoll_sources-map [] = refl
unpoll_sources-map (s ∷ sources) =
    ap (λ (r : List EventSource). unpolled s ∷ r) (unpoll_sources-map sources)

-- What a dispatch makes of the source
abbrev dispatched : Bool → EventSource → EventSource
dispatched was s = end_dispatch was (begin_dispatch s)

abbrev after : Bool → Bool → ℕ → List EventSource → List EventSource
after was kept id sources =
    let ended = update (update sources id begin_dispatch) id (end_dispatch was) in
    if kept then ended else remove_source ended id

module _ (p : ℕ) (prepare check : ℕ → Bool) where
  abbrev Waiting : List ℕ → List EventSource → Type 0
  Waiting = IsWaiting p prepare check

  unpoll-IsWaiting :
      (ids : List ℕ) (sources : List EventSource)
      → Waiting ids sources
      → Waiting ids (unpoll_sources sources)
  unpoll-IsWaiting ids sources w = record {
    calm = rw (unpoll_sources-map sources) (
        All-map (IsCalm p prepare check) (IsCalm p prepare check) unpolled sources
          (λ s c. record {
            idle = c.idle;
            above_prepare = c.above_prepare;
            above_check = c.above_check;
            above_state = c.above_state;
            due = c.due;
          })
          w.calm);
    distinct =
        rw (unpoll_sources-map sources) (Distinct-map unpolled (λ s. refl) sources w.distinct);
    queued = queue-unpoll_sources p sources ∙ w.queued;
  }

  dispatched-IsCalm :
      (was : Bool) (s : EventSource)
      → IsCalm p prepare check s
      → IsCalm p prepare check (dispatched was s)
  dispatched-IsCalm was s c = record {
    idle = c.idle;
    above_prepare = c.above_prepare;
    above_check = c.above_check;
    above_state = λ h. refl;
    due = λ e. ground arith;
  }

  after-IsWaiting :
      (was kept : Bool) (id : ℕ) (rest : List ℕ) (sources : List EventSource) (s : EventSource)
      → Waiting (id ∷ rest) sources
      → IsHead p id rest sources s
      → Waiting rest (after was kept id sources)
  after-IsWaiting was true id rest sources s w h =
      rw (update-update begin_dispatch (λ s. refl) (end_dispatch was) sources id) (record {
        calm =
            All-update (IsCalm p prepare check) id (dispatched was) sources (dispatched-IsCalm was)
              w.calm;
        distinct = Distinct-update (dispatched was) (λ s. refl) sources id w.distinct;
        queued = h.changed (dispatched was) (λ t. ground arith);
      })
  after-IsWaiting was false id rest sources s w h =
      rw
        (
          update-update begin_dispatch (λ s. refl) (end_dispatch was) sources id,
          remove_source-update (dispatched was) (λ s. refl) sources id,
        )
        (record {
          calm = All-remove_source (IsCalm p prepare check) id sources w.calm;
          distinct = Distinct-remove_source sources id w.distinct;
          queued = h.removed;
        })

module _ (p : ℕ) (keep : ℕ → Bool) where
  dispatch_lem :
      (primary : Bool) (sources : List EventSource) (id : ℕ) (rest : List ℕ) (s : EventSource)
      → IsHead p id rest sources s
      → dispatch_source
          (callback keep)
          (record { sources = sources; dispatch_priority = p; primary = primary })
        ≡ (
          record {
            sources = after s.was_dispatching (keep id) id sources;
            dispatch_priority = undefined_priority;
            primary = primary;
          },
          some id,
        )
  unfolding dispatch_source
  dispatch_lem primary sources id rest s h = rw (h.found, dispatch_source) (rw h.named refl)

or_true : (b : Bool) → (b || true) ≡ true
or_true true = refl
or_true false = refl

pick_single :
    (l : EventLoop) (rr_index : ℕ)
    → (pick
        (pick_fuel ((l, true) ∷ []))
        ((l, true) ∷ [])
        (max_dispatch_priority ((l, true) ∷ []))
        rr_index).0
      ≡ some 0
unfolding pick can_pick max_dispatch_priority
pick_single l rr_index =
    let first : rr_index % 1 ≡ 0 = omega arith in
    let good : leb (max l.dispatch_priority 0) l.dispatch_priority ≡ true = ground arith in
    rw (first, good) refl

module _ (p : ℕ) (prepare check keep : ℕ → Bool) where
  flags_lem :
      (loop : EventLoop) (id : ℕ) (rest : List ℕ)
      → 0 < p
      → IsWaiting p prepare check (id ∷ rest) loop.sources
      → check_loops check (prepare_loops prepare (loop ∷ []))
        ≡ (
          record loop {
            sources = map (settle p prepare check) loop.sources;
            dispatch_priority = p;
          },
          true,
        )
          ∷ []
  unfolding prepare_loops check_loops
  flags_lem loop id rest pos w = rw (settle_lem p prepare check loop id rest pos w) (
      ap
        (λ (b : Bool).
          (
            record loop {
              sources = map (settle p prepare check) loop.sources;
              dispatch_priority = p;
            },
            b,
          )
          ∷ [])
        (or_true _))

  -- What a round does to the main loop alone
  record IsRound (id : ℕ) (rest : List ℕ) (r : Iterated) : Type 0 where
    next : EventLoop
    alone : r.main.loops ≡ next ∷ []
    ran : r.dispatched ≡ some id
    waits : IsWaiting p prepare check rest next.sources

  iterate_loops-IsRound :
      (loop : EventLoop) (rr_index id : ℕ) (rest : List ℕ)
      → 0 < p
      → IsWaiting p prepare check (id ∷ rest) loop.sources
      → IsRound id rest (
          iterate_loops prepare check
            (callback keep)
            (record { loops = loop ∷ []; rr_index = rr_index })
            true)
  unfolding iterate_loops any_dispatchable dispatch_loops dispatch_at unpoll_loops
  iterate_loops-IsRound loop rr_index id rest pos w =
      let sources = map (settle p prepare check) loop.sources in
      let settled = settle-IsWaiting p prepare check (id ∷ rest) loop.sources w in
      let h =
        queue-IsHead p sources id rest settled.distinct
          (All-map (IsCalm p prepare check) (IsPolled p) (settle p prepare check) loop.sources
            (λ s c. (settle-IsSettled p prepare check s c).polled) w.calm)
          settled.queued in
      rw (flags_lem loop id rest pos w) (
        rw
          (
            pick_single (record loop { sources = sources; dispatch_priority = p }) rr_index,
            dispatch_lem p keep loop.primary sources id rest h.0 h.1,
          )
          (record {
            next = record loop {
              sources = unpoll_sources (after h.0.was_dispatching (keep id) id sources);
              dispatch_priority = undefined_priority;
            };
            alone = refl;
            ran = refl;
            waits = unpoll-IsWaiting p prepare check rest _ (
                after-IsWaiting p prepare check h.0.was_dispatching (keep id) id rest sources h.0
                  settled h.1);
          }))

-- What the next `n` iterations dispatch
unfoldable pub dispatches :
    (ℕ → Bool) → (ℕ → Bool) → (ℕ → EventLoop → EventLoop × Bool) → ℕ → MainLoop → List (Option ℕ)
dispatches prepare check dispatch zero main = []
dispatches prepare check dispatch (suc n) main =
    let r = iterate_loops prepare check dispatch main true in
    r.dispatched ∷ dispatches prepare check dispatch n r.main

module _ (p : ℕ) (prepare check keep : ℕ → Bool) where
  dispatches_waiting :
      (ids : List ℕ) (loop : EventLoop) (main : MainLoop)
      → 0 < p
      → main.loops ≡ loop ∷ []
      → IsWaiting p prepare check ids loop.sources
      → dispatches prepare check (callback keep) (length ids) main ≡ map some ids
  unfolding dispatches
  dispatches_waiting [] loop main pos alone w = refl
  dispatches_waiting (id ∷ rest) loop main pos alone w =
      let r = iterate_loops-IsRound p prepare check keep loop main.rr_index id rest pos w in
      let it =
        iterate_loops prepare check (callback keep)
          (record { loops = loop ∷ []; rr_index = main.rr_index }) true in
      let e : main ≡ record { loops = loop ∷ []; rr_index = main.rr_index } =
        λ i. record { loops = alone i; rr_index = main.rr_index } in
      ap (λ m. dispatches prepare check (callback keep) (suc (length rest)) m) e
      ∙ (λ i. r.ran i ∷ dispatches_waiting rest r.next it.main pos r.alone r.waits i)

  -- For the main loop alone, any rr_index, any answers of prepare and check that stay the same,
  -- and callbacks that leave the loop alone, whether they keep their source or not: where the
  -- ids are distinct, no source is in dispatch, each source above a positive priority is idle
  -- (it does not need dispatch and its prepare and check answer false), and the check of each
  -- that needs dispatch at this priority answers true, as many iterations as there are such
  -- sources dispatch them in their order, each once.
  pub dispatches-queue :
      (loop : EventLoop) (rr_index : ℕ)
      → 0 < p
      → Distinct loop.sources
      → All (IsCalm p prepare check) loop.sources
      → dispatches prepare check
          (callback keep)
          (length (queue p loop.sources))
          (record { loops = loop ∷ []; rr_index = rr_index })
        ≡ map some (queue p loop.sources)
  dispatches-queue loop rr_index pos distinct calm =
      dispatches_waiting (queue p loop.sources) loop _ pos refl
        (record { calm = calm; distinct = distinct; queued = refl })
