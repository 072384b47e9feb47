-- ===== src/QueueMux/Tests.antt =====
-- QueueMultiplexer (ase/queuemux.hh) over queues of numbers.
use anklang.Prelude.{ℕ, true, false, ltb, ◌≡◌, refl, arith, List, [], ◌∷◌, Option, none, some}
use anklang.Prelude.Int.{ℤ, pos}
use anklang.Prelude.Totals.{total}
use anklang.QueueMux.Multiplexer.{
  Mux, seek_round, seek_from, seek, queue_ptrs, assign, count_pending, remove_current, advance,
  peek, pop, drain,
}
use anklang.QueueMux.Drain.{AscendsFrom}
use anklang.QueueMux.Merge.{queued, assign-merges}

-- Priorities above 20 count as 20.
abbrev up_to_twenty : ℕ → ℤ
up_to_twenty n = elim (ltb n 20) [ true ↦ pos n | false ↦ pos 20 ]

abbrev empty_mux : Mux ℕ
empty_mux = record { ptrs = []; current = 0; first = pos 0; next = pos 0 }

abbrev queues : List (Option (List ℕ))
queues = some (1 ∷ 4 ∷ 9 ∷ []) ∷ none ∷ some [] ∷ some (2 ∷ 3 ∷ 20 ∷ []) ∷ some (4 ∷ []) ∷ []

abbrev drained : List ℕ
drained =
    let a = assign up_to_twenty (pos 20) queues empty_mux in
    drain up_to_twenty (pos 20) (count_pending up_to_twenty (pos 20) a.ptrs) a

drained_queues : drained ≡ 1 ∷ 2 ∷ 3 ∷ 4 ∷ 4 ∷ 9 ∷ 20 ∷ []
unfolding drain peek pop advance remove_current count_pending assign queue_ptrs seek seek_from
    seek_round
drained_queues = refl

assign-merges_example :
    AscendsFrom up_to_twenty (pos 20) (pos 0) drained
    × ((g : ℕ → ℕ) → total g drained ≡ total g (queued up_to_twenty (pos 20) queues))
assign-merges_example =
    assign-merges up_to_twenty (pos 20) (λ v. ground arith) empty_mux queues (pos 0)
      (
        (omega arith, (omega arith, (omega arith, tt))),
        (tt, ((omega arith, (omega arith, (omega arith, tt))), ((omega arith, tt), tt))),
      )
