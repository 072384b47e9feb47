-- ===== src/Loop/Settle.antt =====
-- What the phases of an iteration (ase/loop.cc) make of a source while nothing above a priority happens.
use anklang.Prelude.{
  ℕ, ◌≤◌, ◌<◌, max, ◌≡◌, refl, sym, ap, ◌∙◌, ◌⊎◌, inl, inr, Bool, true, false, not, ◌&&◌, List, [],
  ◌∷◌, map, arith, dec_lt, if◌then◌else◌, Bool-cases, lt→ltb,
}
use mathlib.Core.List.{map-map}
use anklang.Loop.Sources.{
  LoopState, waiting, prepared, needs_dispatch, EventSource, EventLoop, is_needs_dispatch,
}
use anklang.Loop.Phases.{
  noted, recursion_barred, is_candidate, note_sources, collect_sources, prepare_sources,
  check_sources,
}
use anklang.Loop.Collect.{top_priority, collected, collect_sources_lem}
use anklang.Loop.Lists.{All, All-imp, All-map, Distinct, Distinct-map, is_due, queue}
use anklang.Loop.Queue.{IsPolled, queue_idle, queue-map}

-- What note_sources does to a source
abbrev pub noted_source : LoopState → (ℕ → Bool) → EventSource → EventSource
noted_source otherwise needs s =
    if s.polled
    then record s { loop_state = if needs s.id then needs_dispatch else otherwise }
    else s

pub note_sources_lem :
    (otherwise : LoopState) (needs : ℕ → Bool) (dp : ℕ) (sources : List EventSource)
    → (note_sources otherwise needs dp sources).1 ≡ map (noted_source otherwise needs) sources
unfolding note_sources
note_sources_lem otherwise needs dp [] = refl
note_sources_lem otherwise needs dp (s ∷ sources) =
    ap (λ (r : List EventSource). noted_source otherwise needs s ∷ r)
      (note_sources_lem otherwise needs (if s.polled && needs s.id then max dp s.priority else dp)
        sources)

-- A method does not raise dispatch_priority where it tells only of sources up to it.
note_sources_keeps :
    (otherwise : LoopState) (needs : ℕ → Bool) (dp : ℕ) (sources : List EventSource)
    → All (λ s. needs s.id ≡ true → s.priority ≤ dp) sources
    → (note_sources otherwise needs dp sources).0 ≡ dp
unfolding note_sources
note_sources_keeps otherwise needs dp [] a = refl
note_sources_keeps otherwise needs dp (s ∷ sources) (h, a) =
    let same : (if s.polled && needs s.id then max dp s.priority else dp) ≡ dp =
      ground (arith, h) in
    rw same (note_sources_keeps otherwise needs dp sources a)

pub noted_id :
    (o : LoopState) (needs : ℕ → Bool) (s : EventSource) → (noted_source o needs s).id ≡ s.id
noted_id o needs s =
    elim s.polled
      as (λ b.
        (if b then record s { loop_state = if needs s.id then needs_dispatch else o } else s).id
        ≡ s.id) [ true ↦ refl | false ↦ refl ]

noted_priority :
    (o : LoopState) (needs : ℕ → Bool) (s : EventSource)
    → (noted_source o needs s).priority ≡ s.priority
noted_priority o needs s =
    elim s.polled
      as (λ b.
        (if b
          then record s { loop_state = if needs s.id then needs_dispatch else o }
          else s).priority
        ≡ s.priority) [ true ↦ refl | false ↦ refl ]

noted_lem :
    (o : LoopState) (needs : ℕ → Bool) (loop : EventLoop)
    → 0 < loop.dispatch_priority
    → All (λ s. needs s.id ≡ true → s.priority ≤ loop.dispatch_priority) loop.sources
    → noted o needs loop ≡ (record loop { sources = map (noted_source o needs) loop.sources }, true)
noted_lem o needs loop pos a =
    rw
      (
        note_sources_lem o needs loop.dispatch_priority loop.sources,
        note_sources_keeps o needs loop.dispatch_priority loop.sources a,
        lt→ltb 0 loop.dispatch_priority pos,
      )
      refl

module _ (p : ℕ) (prepare check : ℕ → Bool) where
  -- Above priority `p` nothing happens, and what needs dispatch at `p` does so until it is dispatched.
  pub record IsCalm (s : EventSource) : Type 0 where
    pub idle : s.dispatching ≡ false
    pub above_prepare : p < s.priority → prepare s.id ≡ false
    pub above_check : p < s.priority → check s.id ≡ false
    pub above_state : p < s.priority → is_needs_dispatch s.loop_state ≡ false
    pub due : is_due p s ≡ true → check s.id ≡ true

  top_priority_bound : (sources : List EventSource) → All IsCalm sources → top_priority sources ≤ p
  unfolding top_priority
  top_priority_bound [] a = omega arith
  top_priority_bound (s ∷ sources) (c, a) =
      ground (arith, c.above_state, top_priority_bound sources a)

  due_or_later :
      (s : EventSource) (sources : List EventSource) (id : ℕ) (rest : List ℕ)
      → queue p (s ∷ sources) ≡ id ∷ rest
      → (is_due p s ≡ true) ⊎ (queue p sources ≡ id ∷ rest)
  unfolding queue
  due_or_later s sources id rest e = elim (Bool-cases (is_due p s)) [
    | inl due ↦ inl due
    | inr idle ↦ inr (sym (queue_idle p s sources idle) ∙ e)
  ]

  top_priority_reached :
      (sources : List EventSource) (id : ℕ) (rest : List ℕ)
      → All IsCalm sources
      → queue p sources ≡ id ∷ rest
      → p ≤ top_priority sources
  unfolding top_priority queue
  top_priority_reached [] id rest a e = cc
  top_priority_reached (s ∷ sources) id rest (c, a) e =
      ground (arith, due_or_later s sources id rest e, top_priority_reached sources id rest a)

  -- What the three phases make of a calm source
  abbrev pub settle : EventSource → EventSource
  settle s = noted_source waiting check (noted_source prepared prepare (collected p s))

  abbrev polled_as : Bool → EventSource → EventSource
  polled_as b s =
      noted_source waiting check (noted_source prepared prepare (record s { polled = b }))

  settle_above :
      (s : EventSource)
      → IsCalm s
      → p < s.priority
      → settle s ≡ record s { polled = true; loop_state = waiting }
  settle_above s c h =
      let e : (not (recursion_barred s) && is_candidate p s) ≡ true = ground (arith, c.idle) in
      ap (λ b. polled_as b s) e ∙ rw (c.above_check h) refl

  settle_due :
      (s : EventSource)
      → IsCalm s
      → is_due p s ≡ true
      → settle s ≡ record s { polled = true; loop_state = needs_dispatch }
  settle_due s c h =
      let e : (not (recursion_barred s) && is_candidate p s) ≡ true = ground (arith, c.idle, h) in
      ap (λ b. polled_as b s) e ∙ rw (c.due h) refl

  settle_other :
      (s : EventSource)
      → s.priority ≤ p
      → is_due p s ≡ false
      → settle s ≡ record s { polled = false }
  settle_other s l h =
      let e : (not (recursion_barred s) && is_candidate p s) ≡ false = ground (arith, h) in
      ap (λ b. polled_as b s) e

  -- What settling keeps
  pub record IsSettled (s t : EventSource) : Type 0 where
    pub calm : IsCalm t
    pub named : t.id ≡ s.id
    pub polled : IsPolled p t
    pub same_due : is_due p t ≡ is_due p s

  pub settle-IsSettled : (s : EventSource) → IsCalm s → IsSettled s (settle s)
  settle-IsSettled s c = elim (dec_lt p s.priority) [
    | yes h ↦ rw (settle_above s c h) (record {
      calm = record {
        idle = c.idle;
        above_prepare = c.above_prepare;
        above_check = c.above_check;
        above_state = λ l. refl;
        due = λ e. ground arith;
      };
      named = refl;
      polled = λ e. refl;
      same_due = ground arith;
    })
    | no l ↦ elim (Bool-cases (is_due p s)) [
      | inl h ↦ rw (settle_due s c h) (record {
        calm = record {
          idle = c.idle;
          above_prepare = c.above_prepare;
          above_check = c.above_check;
          above_state = λ l. ground arith;
          due = λ e. c.due h;
        };
        named = refl;
        polled = λ e. refl;
        same_due = ground (arith, h);
      })
      | inr h ↦ rw (settle_other s (omega arith) h) (record {
        calm = record {
          idle = c.idle;
          above_prepare = c.above_prepare;
          above_check = c.above_check;
          above_state = c.above_state;
          due = c.due;
        };
        named = refl;
        polled = λ e. ground (arith, h);
        same_due = refl;
      })
    ]
  ]

  settle_id : (s : EventSource) → (settle s).id ≡ s.id
  settle_id s =
      noted_id waiting check (noted_source prepared prepare (collected p s))
      ∙ noted_id prepared prepare (collected p s)

  -- The state between the rounds: `ids` wait for their dispatch at priority `p`.
  pub record IsWaiting (ids : List ℕ) (sources : List EventSource) : Type 0 where
    pub calm : All IsCalm sources
    pub distinct : Distinct sources
    pub queued : queue p sources ≡ ids

  pub settle-IsWaiting :
      (ids : List ℕ) (sources : List EventSource)
      → IsWaiting ids sources
      → IsWaiting ids (map settle sources)
  settle-IsWaiting ids sources w = record {
    calm = All-map IsCalm IsCalm settle sources (λ s c. (settle-IsSettled s c).calm) w.calm;
    distinct = Distinct-map settle settle_id sources w.distinct;
    queued =
        queue-map p settle sources (
          All-imp IsCalm (λ s. ((settle s).id ≡ s.id) × (is_due p (settle s) ≡ is_due p s)) sources
            (λ s c. (settle_id s, (settle-IsSettled s c).same_due)) w.calm)
        ∙ w.queued;
  }

  abbrev prepared_source : EventSource → EventSource
  prepared_source s = noted_source prepared prepare (collected p s)

  prepare_bound : (s : EventSource) → IsCalm s → prepare s.id ≡ true → s.priority ≤ p
  prepare_bound s c e = elim (dec_lt p s.priority) [
    | yes h ↦ let n = c.above_prepare h in cc
    | no h ↦ omega arith
  ]

  check_bound :
      (s : EventSource)
      → IsCalm s
      → check (prepared_source s).id ≡ true
      → (prepared_source s).priority ≤ p
  check_bound s c e =
      let i = noted_id prepared prepare (collected p s) in
      let q = noted_priority prepared prepare (collected p s) in
      elim (dec_lt p s.priority) [
        | yes h ↦ let n = ap check i ∙ c.above_check h in cc
        | no h ↦ omega (arith, q)
      ]

  pub settle_lem :
      (loop : EventLoop) (id : ℕ) (rest : List ℕ)
      → 0 < p
      → IsWaiting (id ∷ rest) loop.sources
      → check_sources check (prepare_sources prepare (collect_sources loop)).0
        ≡ (record loop { sources = map settle loop.sources; dispatch_priority = p }, true)
  unfolding prepare_sources check_sources
  settle_lem loop id rest pos w =
      let sources = loop.sources in
      let top : top_priority sources ≡ p = omega (
        arith,
        top_priority_bound sources w.calm,
        top_priority_reached sources id rest w.calm w.queued,
      ) in
      let at_top =
        λ (q : ℕ). record loop { sources = map (collected q) sources; dispatch_priority = q } in
      let collect = collect_sources_lem loop ∙ ap at_top top in
      let prepare_step = noted_lem prepared prepare (at_top p) pos (
        All-map IsCalm (λ s. prepare s.id ≡ true → s.priority ≤ p) (collected p) sources
          prepare_bound w.calm) in
      let ready = record loop {
        sources = map (noted_source prepared prepare) (map (collected p) sources);
        dispatch_priority = p;
      } in
      let shorter = map-map (noted_source prepared prepare) (collected p) sources in
      let check_step =
        noted_lem waiting check
          (record loop { sources = map prepared_source sources; dispatch_priority = p }) pos
          (All-map IsCalm (λ s. check s.id ≡ true → s.priority ≤ p) prepared_source sources
            check_bound w.calm) in
      ap (λ (l : EventLoop). noted waiting check (noted prepared prepare l).0) collect
      ∙ ap (λ (r : EventLoop × Bool). noted waiting check r.0) prepare_step
      ∙ ap
          (λ (m : List EventSource).
            noted waiting check (record loop { sources = m; dispatch_priority = p }))
          shorter
      ∙ check_step
      ∙ ap (λ (m : List EventSource). (record loop { sources = m; dispatch_priority = p }, true))
          (map-map (noted_source waiting check) prepared_source sources)
