-- ===== src/QueueMux/Merge.antt =====
-- QueueMultiplexer as a merge (ase/queuemux.hh).
use anklang.Prelude.{
  ℕ, zero, suc, ◌+◌, ◌≤◌, ◌≡◌, refl, sym, ◌∙◌, arith, List, [], ◌∷◌, ◌++◌, length, get_elem?,
  Option, none, some, ◌⊎◌, inl, inr, Option-cases, ℕ_discrete, get_elem?-set, get_elem?-lt,
}
use anklang.Prelude.Int.{ℤ, ◌≤ℤ◌}
use anklang.Prelude.Totals.{total, total-append, total-set}
use anklang.QueueMux.Multiplexer.{
  Ptr, Mux, queue_ptrs, assign, count_pending, advance, peek, pop, drain,
}
use anklang.QueueMux.Removal.{get-remove_current, total-remove_current}
use anklang.QueueMux.Drain.{
  pending, AscendsFrom, QueuesFrom, IsReady, List-cases, seek-ptrs, seek-IsReady, prio_at-get,
  advance-IsReady, advance-ptrs,
}

-- The weight of what a queue still holds
abbrev weight : {V : Type 0} → (V → ℕ) → Ptr V → ℕ
weight g p = total g (p.it ∷ p.behind)

total-pending :
    {V : Type 0} (g : V → ℕ) (ps : List (Ptr V)) → total g (pending ps) ≡ total (weight g) ps
total-pending g [] = refl
total-pending g (p ∷ ps) = omega (arith, total-append g p.behind (pending ps), total-pending g ps)

module _ {V : Type 0} (priority : V → ℤ) (max_priority : ℤ) where
  length-total : (vs : List V) → length vs ≡ total (λ v. 1) vs
  length-total [] = refl
  length-total (v ∷ vs) = omega (arith, length-total vs)

  count_pending-total :
      (ps : List (Ptr V)) → count_pending priority max_priority ps ≡ total (weight (λ v. 1)) ps
  unfolding count_pending
  count_pending-total [] = refl
  count_pending-total (p ∷ ps) = omega (arith, length-total p.behind, count_pending-total ps)

  total-advance :
      (g : V → ℕ) (m : Mux V) (p : Ptr V)
      → get_elem? m.ptrs m.current ≡ some p
      → total (weight g) (advance priority max_priority m p).ptrs + g p.it ≡ total (weight g) m.ptrs
  total-advance g m p e = elim (List-cases priority max_priority p.behind) [
    | inl q ↦
        let removed = total-remove_current priority max_priority (weight g) m.ptrs m.current p e in
        let alone : weight g p ≡ g p.it = rw q (omega arith) in
        rw (advance-ptrs priority max_priority m p, q) (omega (arith, removed, alone))
    | inr (w, ws, q) ↦
        let moved = total-set (weight g) m.ptrs m.current p (record { it = w; behind = ws }) e in
        let ahead : weight g p ≡ g p.it + (g w + total g ws) = rw q refl in
        rw (advance-ptrs priority max_priority m p, q) (omega (arith, moved, ahead))
  ]

  advance-QueuesFrom :
      (z : ℤ) (m : Mux V) (p : Ptr V)
      → get_elem? m.ptrs m.current ≡ some p
      → IsReady priority max_priority m
      → QueuesFrom priority max_priority z m.ptrs
      → QueuesFrom priority max_priority (priority p.it) (advance priority max_priority m p).ptrs
  advance-QueuesFrom z m p e (inl h) from =
      absurd (omega (arith, h, (prio_at-get priority max_priority m.ptrs m.current p e).0))
  advance-QueuesFrom z m p e (inr s) from = λ j q g.
      let of_one : (k : ℕ) × (get_elem? m.ptrs k ≡ some q)
          → AscendsFrom priority max_priority (priority p.it) (q.it ∷ q.behind) =
        λ k. others k in
      let changed = rw (advance-ptrs priority max_priority m p) at g in
      elim (List-cases priority max_priority p.behind) [
        | inl r ↦
            of_one (get-remove_current priority max_priority m.ptrs m.current j q (rw r at changed))
        | inr (w, ws, r) ↦ elim (get_elem?-set m.ptrs m.current j _ q (rw r at changed)) [
          | inl same ↦ of_one (j, same)
          | inr new ↦ rw (← new) (rw r at (from m.current p e).1)
        ]
      ]
    where
      others :
          {q : Ptr V}
          → (k : ℕ) × (get_elem? m.ptrs k ≡ some q)
          → AscendsFrom priority max_priority (priority p.it) (q.it ∷ q.behind)
      others {q} (k, same) = elim (ℕ_discrete k m.current) [
        | yes c ↦ let one : q ≡ p = cc in rw one (omega arith, (from m.current p e).1)
        | no c ↦
            let (inside, there) = prio_at-get priority max_priority m.ptrs k q same in
            let here = (prio_at-get priority max_priority m.ptrs m.current p e).1 in
            let leads = rw here at (s.leads) in
            let behind = rw there at (s.others k inside c) in
            (omega (arith, leads, behind), (from k q same).1)
      ]

  drain-pop :
      (fuel : ℕ) (m : Mux V) (p : Ptr V)
      → get_elem? m.ptrs m.current ≡ some p
      → drain priority max_priority (suc fuel) m
        ≡ p.it ∷ drain priority max_priority fuel (advance priority max_priority m p)
  unfolding drain pop peek
  drain-pop fuel m p e =
      let popped : pop priority max_priority m ≡ some (p.it, advance priority max_priority m p) =
        rw (e, pop) refl in
      let peeked : peek priority max_priority m ≡ some p.it = rw (e, peek) refl in
      rw (peeked, drain, popped, drain) refl

  drain-end :
      (fuel : ℕ) (m : Mux V)
      → get_elem? m.ptrs m.current ≡ none
      → drain priority max_priority fuel m ≡ []
  unfolding drain peek
  drain-end zero m e = refl
  drain-end (suc fuel) m e =
      let ended : peek priority max_priority m ≡ none = rw (e, peek) refl in rw (ended, drain) refl

  drain-AscendsFrom :
      (fuel : ℕ) (z : ℤ) (m : Mux V)
      → ((v : V) → priority v ≤ℤ max_priority)
      → IsReady priority max_priority m
      → QueuesFrom priority max_priority z m.ptrs
      → AscendsFrom priority max_priority z (drain priority max_priority fuel m)
  unfolding drain
  drain-AscendsFrom zero z m b r from = tt
  drain-AscendsFrom (suc fuel) z m b r from = elim (Option-cases (get_elem? m.ptrs m.current)) [
    | inl e ↦ rw (drain-end (suc fuel) m e) tt
    | inr (p, e) ↦ rw (drain-pop fuel m p e) (
      (from m.current p e).0,
      drain-AscendsFrom fuel (priority p.it) (advance priority max_priority m p) b
          (advance-IsReady priority max_priority m p b e r) (advance-QueuesFrom z m p e r from),
    )
  ]

  none_left : (ps : List (Ptr V)) → (length ps ≡ 0) ⊎ (total (weight (λ v. 1)) ps ≤ 0) → ps ≡ []
  none_left [] h = refl
  none_left (p ∷ ps) h = absurd (omega (arith, h))

  total-drain_end :
      (g : V → ℕ) (fuel : ℕ) (m : Mux V)
      → m.ptrs ≡ []
      → total g (drain priority max_priority fuel m) ≡ total (weight g) m.ptrs
  total-drain_end g fuel m q =
      let none_there : get_elem? m.ptrs m.current ≡ none = rw q refl in
      rw (drain-end fuel m none_there, q) refl

  total-drain :
      (g : V → ℕ) (fuel : ℕ) (m : Mux V)
      → ((v : V) → priority v ≤ℤ max_priority)
      → IsReady priority max_priority m
      → total (weight (λ v. 1)) m.ptrs ≤ fuel
      → total g (drain priority max_priority fuel m) ≡ total (weight g) m.ptrs
  total-drain g fuel m b (inl l) h = total-drain_end g fuel m (none_left m.ptrs (inl l))
  total-drain g zero m b (inr s) h = total-drain_end g zero m (none_left m.ptrs (inr h))
  total-drain g (suc fuel) m b (inr s) h =
      let (p, e) = get_elem?-lt m.ptrs m.current s.inside in
      let rest =
        total-drain g fuel (advance priority max_priority m p) b
          (advance-IsReady priority max_priority m p b e (inr s))
          (omega (arith, h, total-advance (λ v. 1) m p e)) in
      rw (drain-pop fuel m p e) (omega (arith, rest, total-advance g m p e))

  -- All values of the queues
  abbrev pub queued : List (Option (List V)) → List V
  queued [] = []
  queued (none ∷ qs) = queued qs
  queued (some vs ∷ qs) = vs ++ queued qs

  abbrev pub EachAscends : ℤ → List (Option (List V)) → Type 0
  EachAscends z [] = Unit
  EachAscends z (none ∷ qs) = EachAscends z qs
  EachAscends z (some vs ∷ qs) = AscendsFrom priority max_priority z vs × EachAscends z qs

  queue_ptrs-QueuesFrom :
      (z : ℤ) (qs : List (Option (List V)))
      → EachAscends z qs
      → QueuesFrom priority max_priority z (queue_ptrs priority max_priority qs)
  unfolding queue_ptrs
  queue_ptrs-QueuesFrom z [] a j p e = cc
  queue_ptrs-QueuesFrom z (none ∷ qs) a j p e = queue_ptrs-QueuesFrom z qs a j p e
  queue_ptrs-QueuesFrom z (some [] ∷ qs) a j p e = queue_ptrs-QueuesFrom z qs a.1 j p e
  queue_ptrs-QueuesFrom z (some (v ∷ vs) ∷ qs) a zero p e =
      let here : record { it = v; behind = vs } ≡ p = cc in rw (← here) (a.0)
  queue_ptrs-QueuesFrom z (some (v ∷ vs) ∷ qs) a (suc j) p e = queue_ptrs-QueuesFrom z qs a.1 j p e

  queue_ptrs-pending :
      (qs : List (Option (List V))) → pending (queue_ptrs priority max_priority qs) ≡ queued qs
  unfolding queue_ptrs
  queue_ptrs-pending [] = refl
  queue_ptrs-pending (none ∷ qs) = queue_ptrs-pending qs
  queue_ptrs-pending (some [] ∷ qs) = queue_ptrs-pending qs
  queue_ptrs-pending (some (v ∷ vs) ∷ qs) = rw (queue_ptrs-pending qs) refl

  -- For queues each of which is in the order of the priorities, from `z` on, and priorities up
  -- to the largest one: after assign, the iterator yields, within as many steps as
  -- count_pending tells, values in the order of their priorities, and each value of the queues
  -- as often as they hold it.
  pub assign-merges :
      ((v : V) → priority v ≤ℤ max_priority)
      → (m : Mux V) (qs : List (Option (List V))) (z : ℤ) → EachAscends z qs
      → let a = assign priority max_priority qs m in
        let out = drain priority max_priority (count_pending priority max_priority a.ptrs) a in
        AscendsFrom priority max_priority z out × ((g : V → ℕ) → total g out ≡ total g (queued qs))
  unfolding assign
  assign-merges b m qs z h =
      let m' = record m { ptrs = queue_ptrs priority max_priority qs } in
      let a = assign priority max_priority qs m in
      let kept = seek-ptrs priority max_priority m' in
      let ready = seek-IsReady priority max_priority m' b in
      (
        drain-AscendsFrom (count_pending priority max_priority a.ptrs) z a b ready
            (rw kept (queue_ptrs-QueuesFrom z qs h)),
        λ g.
            let enough : total (weight (λ v. 1)) a.ptrs
                ≤ count_pending priority max_priority a.ptrs =
              omega (arith, count_pending-total a.ptrs) in
            let drained =
              total-drain g (count_pending priority max_priority a.ptrs) a b ready enough in
            drained
            ∙ rw kept (
                sym (total-pending g (queue_ptrs priority max_priority qs))
                ∙ rw (queue_ptrs-pending qs) refl),
      )
