-- ===== src/QueueMux/Multiplexer.antt =====
-- QueueMultiplexer (ase/queuemux.hh). A `Ptr` with values left is its first value and those behind it; the
-- multiplexer keeps no other, so `n_queues` is the length of `ptrs`.
use anklang.Prelude.{
  ℕ, zero, suc, ◌+◌, ◌-◌, Bool, ◌==◌, ltb, if◌then◌else◌, List, [], ◌∷◌, length, get_elem?, set,
  take, Option, none, some,
}
use anklang.Prelude.Int.{ℤ, ltb_ℤ}

pub record Ptr (V : Type 0) : Type 0 where
  pub it : V
  pub behind : List V

pub record Mux (V : Type 0) : Type 0 where
  pub ptrs : List (Ptr V)
  pub current : ℕ
  pub first : ℤ
  pub next : ℤ

-- The parameters: QueueMultiplexer_priority, and the largest Priority.
module _ {V : Type 0} (priority : V → ℤ) (max_priority : ℤ) where
  -- What the loop of `seek` carries
  pub record Found : Type 0 where
    pub current : ℕ
    pub first : ℤ
    pub next : ℤ

  abbrev pub start_seek : Found
  start_seek = record { current = 0; first = max_priority; next = max_priority }

  unfoldable pub seek_round : ℕ → ℤ → Found → Found
  seek_round i prio s =
      if ltb_ℤ prio s.first
      then record { current = i; first = prio; next = s.first }
      else if ltb_ℤ prio s.next
      then record s { next = prio }
      else s

  unfoldable pub seek_from : ℕ → List (Ptr V) → Found → Found
  seek_from i [] s = s
  seek_from i (p ∷ ps) s = seek_from (i + 1) ps (seek_round i (priority p.it) s)

  -- Without queues `seek` leaves all as it is.
  unfoldable pub seek : Mux V → Mux V
  seek m =
      let s = seek_from 0 m.ptrs start_seek in
      if length m.ptrs == 0
      then m
      else record m { current = s.current; first = s.first; next = s.next }

  -- The queues of `assign`: null pointers and empty queues are left out.
  unfoldable pub queue_ptrs : List (Option (List V)) → List (Ptr V)
  queue_ptrs [] = []
  queue_ptrs (none ∷ qs) = queue_ptrs qs
  queue_ptrs (some [] ∷ qs) = queue_ptrs qs
  queue_ptrs (some (v ∷ vs) ∷ qs) = record { it = v; behind = vs } ∷ queue_ptrs qs

  unfoldable pub assign : List (Option (List V)) → Mux V → Mux V
  assign queues m = seek (record m { ptrs = queue_ptrs queues })

  unfoldable pub count_pending : List (Ptr V) → ℕ
  count_pending [] = 0
  count_pending (p ∷ ps) = suc (length p.behind) + count_pending ps

  unfoldable pub more : Mux V → Bool
  more m = ltb 0 (length m.ptrs)

  -- The queue at `current` is used up.
  unfoldable pub remove_current : List (Ptr V) → ℕ → List (Ptr V)
  remove_current ps c = elim (get_elem? ps (length ps - 1)) [
    | some l ↦ take (length ps - 1) (if ltb c (length ps - 1) then set ps c l else ps)
    | none ↦ ps
  ]

  -- The part of `pop` behind the read of `p`, the queue at `current`
  unfoldable pub advance : Mux V → Ptr V → Mux V
  advance m p = elim p.behind [
    | [] ↦ seek (record m { ptrs = remove_current m.ptrs m.current })
    | v ∷ vs ↦
        let moved = record m { ptrs = set m.ptrs m.current (record { it = v; behind = vs }) } in
        if ltb_ℤ m.next (priority v) then seek moved else moved
  ]

  -- `none` is an assertion that fails, or a `current` that no `seek` has set.
  unfoldable pub peek : Mux V → Option V
  peek m = elim (get_elem? m.ptrs m.current) [ none ↦ none | some p ↦ some p.it ]

  unfoldable pub pop : Mux V → Option (V × Mux V)
  pop m = elim (get_elem? m.ptrs m.current) [ none ↦ none | some p ↦ some (p.it, advance m p) ]

  -- The values that the iterator yields from `begin` to `end`, on fuel: operator* is peek, and operator++ pops.
  unfoldable pub drain : ℕ → Mux V → List V
  drain zero m = []
  drain (suc fuel) m = elim (peek m) [
    | none ↦ []
    | some v ↦ v ∷ (elim (pop m) [ none ↦ [] | some r ↦ drain fuel r.1 ])
  ]
