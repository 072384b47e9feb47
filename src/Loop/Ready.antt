-- ===== src/Loop/Ready.antt =====
-- Which answers of prepare and check lead to a dispatch in ase/loop.cc.
use anklang.Prelude.{
  ℕ, zero, suc, ◌≡◌, refl, sym, ap, ◌∙◌, ◌⊎◌, inl, inr, Bool, true, ◌&&◌, Option, none, some, List,
  [], ◌∷◌, map, arith, ◌==◌, if◌then◌else◌, Bool-cases, Option-cases,
}
use anklang.Loop.Sources.{waiting, needs_dispatch, EventSource, EventLoop, is_needs_dispatch}
use anklang.Loop.Phases.{check_sources, find_dispatch, dispatch_source}
use anklang.Loop.Settle.{noted_source, noted_id, note_sources_lem}
use anklang.Loop.MainLoop.{
  MainLoop, Flagged, prepare_loops, check_loops, dispatch_at, dispatch_loops, iterate_loops,
}

-- The test of find_dispatch
abbrev is_found : ℕ → EventSource → Bool
is_found dp s = s.polled && ((s.priority == dp) && is_needs_dispatch s.loop_state)

find_cons :
    (dp : ℕ) (t : EventSource) (sources : List EventSource) (s : EventSource)
    → find_dispatch dp (t ∷ sources) ≡ some s
    → ((is_found dp t ≡ true) × (t ≡ s)) ⊎ (find_dispatch dp sources ≡ some s)
unfolding find_dispatch
find_cons dp t sources s e = elim (Bool-cases (is_found dp t)) [
  | inl h ↦
      let g : Option.some t ≡ some s =
        sym (ap (λ b. if b then some t else find_dispatch dp sources) h) ∙ e in
      inl (h, cc)
  | inr h ↦ inr (sym (ap (λ b. if b then some t else find_dispatch dp sources) h) ∙ e)
]

module _ (check : ℕ → Bool) where
  noted_ready :
      (dp : ℕ) (s : EventSource)
      → is_found dp (noted_source waiting check s) ≡ true
      → check s.id ≡ true
  noted_ready dp s h =
      let noted = λ (b : Bool).
        if b then record s { loop_state = if check s.id then needs_dispatch else waiting } else s in
      elim (Bool-cases s.polled) [
        | inl e ↦ let g = sym (ap (λ b. is_found dp (noted b)) e) ∙ h in ground (arith, g)
        | inr e ↦
            let g : is_found dp s ≡ true = sym (ap (λ b. is_found dp (noted b)) e) ∙ h in
            ground (arith, g, e)
      ]

  find_dispatch_ready :
      (at : ℕ) (sources : List EventSource) (s : EventSource)
      → find_dispatch at (map (noted_source waiting check) sources) ≡ some s
      → check s.id ≡ true
  unfolding find_dispatch
  find_dispatch_ready at [] s e = cc
  find_dispatch_ready at (t ∷ sources) s e =
      elim (find_cons at (noted_source waiting check t) (map (noted_source waiting check) sources) s
        e) [
          | inl (h, q) ↦
              ap (λ (u : EventSource). check u.id) (sym q)
              ∙ ap check (noted_id waiting check t)
              ∙ noted_ready at t h
          | inr r ↦ find_dispatch_ready at sources s r
        ]

  -- The loops after check_loops, whose sources are noted
  AllReady : Flagged → Type 0
  AllReady [] = Unit
  AllReady ((l, flag) ∷ loops) =
      ((at : ℕ) (s : EventSource) → find_dispatch at l.sources ≡ some s → check s.id ≡ true)
      × AllReady loops

  check_loops-AllReady : (loops : Flagged) → AllReady (check_loops check loops)
  unfolding check_loops check_sources AllReady
  check_loops-AllReady [] = tt
  check_loops-AllReady ((l, flag) ∷ loops) = (
    λ at s e. find_dispatch_ready at l.sources s (
        ap (find_dispatch at) (sym (note_sources_lem waiting check l.dispatch_priority l.sources))
        ∙ e),
    check_loops-AllReady loops,
  )

  module _ (dispatch : ℕ → EventLoop → EventLoop × Bool) where
    dispatch_source_found :
        (loop : EventLoop) (id : ℕ)
        → (dispatch_source dispatch loop).1 ≡ some id
        → (s : EventSource) × (find_dispatch loop.dispatch_priority loop.sources ≡ some s)
          × (s.id ≡ id)
    unfolding dispatch_source
    dispatch_source_found loop id e =
        elim (Option-cases (find_dispatch loop.dispatch_priority loop.sources)) [
          | inl n ↦
              let g : (dispatch_source dispatch loop).1 ≡ none = rw (n, dispatch_source) refl in
              absurd cc
          | inr (s, f) ↦
              let g : (dispatch_source dispatch loop).1 ≡ some s.id =
                rw (f, dispatch_source) refl in
              (s, f, cc)
        ]

    dispatch_at_ready :
        (loops : Flagged) (index id : ℕ)
        → AllReady loops
        → (dispatch_at dispatch loops index).1 ≡ some id
        → check id ≡ true
    unfolding dispatch_at AllReady
    dispatch_at_ready [] index id a e = cc
    dispatch_at_ready ((l, flag) ∷ loops) zero id (r, a) e =
        let f = dispatch_source_found l id e in ap check (sym f.2) ∙ r l.dispatch_priority f.0 f.1
    dispatch_at_ready ((l, flag) ∷ loops) (suc index) id (r, a) e =
        dispatch_at_ready loops index id a e

    dispatch_loops_ready :
        (loops : Flagged) (index : Option ℕ) (id : ℕ)
        → AllReady loops
        → (dispatch_loops dispatch loops index).1 ≡ some id
        → check id ≡ true
    unfolding dispatch_loops
    dispatch_loops_ready loops none id a e = cc
    dispatch_loops_ready loops (some index) id a e = dispatch_at_ready loops index id a e

-- For any loops, any answers of prepare and check and any callback: a source that an iteration
-- dispatches is one whose check has answered true, whatever its prepare has answered.
pub iterate_loops_checked :
    (prepare check : ℕ → Bool) (dispatch : ℕ → EventLoop → EventLoop × Bool) (main : MainLoop)
    (may_dispatch : Bool) (id : ℕ)
    → (iterate_loops prepare check dispatch main may_dispatch).dispatched ≡ some id
    → check id ≡ true
unfolding iterate_loops
iterate_loops_checked prepare check dispatch main may_dispatch id e =
    dispatch_loops_ready check dispatch _ _ id
      (check_loops-AllReady check (prepare_loops prepare main.loops)) e
