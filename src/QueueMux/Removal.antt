-- ===== src/QueueMux/Removal.antt =====
-- The removal of a queue that is used up, in QueueMultiplexer::pop (ase/queuemux.hh).
use anklang.Prelude.{
  ℕ, ◌+◌, ◌-◌, ◌≡◌, ◌∙◌, arith, ltb, List, length, get_elem?, set, some, inl, inr, Bool-cases,
  Option-cases, get_elem?-set_ne, length-set, get_elem?-take, get_elem?-some_lt, get_elem?-lt,
  get_elem?-set,
}
use anklang.Prelude.Int.{ℤ}
use anklang.Prelude.Totals.{total, total-set, total-take}
use anklang.QueueMux.Multiplexer.{Ptr, remove_current}

module _ {V : Type 0} (priority : V → ℤ) (max_priority : ℤ) where
  -- Each queue behind the removal was one before it.
  pub get-remove_current :
      (ps : List (Ptr V)) (c j : ℕ) (q : Ptr V)
      → get_elem? (remove_current priority max_priority ps c) j ≡ some q
      → (k : ℕ) × (get_elem? ps k ≡ some q)
  unfolding remove_current
  get-remove_current ps c j q e = elim (Option-cases (get_elem? ps (length ps - 1))) [
    | inl n ↦ (j, rw (n, remove_current) at e)
    | inr (l, s) ↦ elim (Bool-cases (ltb c (length ps - 1))) [
      | inl moved ↦
          elim (get_elem?-set ps c j l q (
            get_elem?-take (length ps - 1) j (set ps c l) q (rw (s, remove_current, moved) at e))) [
              | inl same ↦ (j, same)
              | inr last ↦ (length ps - 1, rw (← last) s)
            ]
      | inr last ↦ (j, get_elem?-take (length ps - 1) j ps q (rw (s, remove_current, last) at e))
    ]
  ]

  pub total-remove_current :
      (f : Ptr V → ℕ) (ps : List (Ptr V)) (c : ℕ) (p : Ptr V)
      → get_elem? ps c ≡ some p
      → total f (remove_current priority max_priority ps c) + f p ≡ total f ps
  unfolding remove_current
  total-remove_current f ps c p e = elim (Option-cases (get_elem? ps (length ps - 1))) [
    | inl n ↦
        absurd
          (cc (n, (get_elem?-lt ps (length ps - 1) (omega (arith, get_elem?-some_lt ps c p e))).1))
    | inr (l, s) ↦ elim (Bool-cases (ltb c (length ps - 1))) [
      | inl moved ↦
          let kept : get_elem? (set ps c l) (length ps - 1) ≡ some l =
            get_elem?-set_ne ps l (ground arith) ∙ s in
          let taken =
            rw (length-set ps c l) at (total-take f (set ps c l) l (rw (length-set ps c l) kept)) in
          rw (s, remove_current, moved) (omega (arith, taken, total-set f ps c p l e))
      | inr last ↦
          let inside = get_elem?-some_lt ps c p e in
          let at_end : length ps - 1 ≡ c = ground arith in
          let same : l ≡ p = cc in rw (s, remove_current, last, ← same) (total-take f ps l s)
    ]
  ]
