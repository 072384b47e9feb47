-- ===== src/Memory/Fit.antt =====
-- SequentialFitAllocator::best_fit (ase/memory.cc).
use anklang.Prelude.{
  ℕ, zero, suc, ◌≤◌, ◌<◌, Bool, ◌&&◌, ◌||◌, inl, inr, List, Option, none, some, arith, length, ltb,
  ◌==◌, Bool-cases, ℕ_discrete,
}
use anklang.Memory.Extents.{Extent32, extent_at, choose, best_fit_from, best_fit}

-- The answer `none` means that every extent is shorter than `n`; `some k` means that the `k`th is
-- long enough and none that is long enough is shorter. Both speak of the extents from `i` on.
abbrev pub IsBest : List Extent32 → ℕ → ℕ → Option ℕ → Type 0
IsBest es n i none = (j : ℕ) → i ≤ j → j < length es → (extent_at es j).length < n
IsBest es n i (some k) =
    (k < length es)
    × (n ≤ (extent_at es k).length)
    × ((j : ℕ)
        → i ≤ j
        → j < length es
        → n ≤ (extent_at es j).length
        → (extent_at es k).length ≤ (extent_at es j).length)

module _ (es : List Extent32) (n : ℕ) where
  -- extents[i] is too short.
  skip_one :
      (i : ℕ) (c : Option ℕ) → (extent_at es i).length < n → IsBest es n (suc i) c → IsBest es n i c
  skip_one i none h b =
      λ j p q. elim (ℕ_discrete i j) [ yes e ↦ rw (← e) h | no ne ↦ b j (omega arith) q ]
  skip_one i (some k) h b = (
    b.0,
    b.1,
    λ j p q r. elim (ℕ_discrete i j) [
      | yes e ↦ absurd (omega (arith, rw (← e) at r))
      | no ne ↦ b.2 j (omega arith) q r
    ],
  )

  -- extents[i] is long enough, and no longer than what `k` has.
  take_one :
      (i k : ℕ)
      → k < length es
      → n ≤ (extent_at es k).length
      → (extent_at es k).length ≤ (extent_at es i).length
      → ((j : ℕ)
          → suc i ≤ j
          → j < length es
          → n ≤ (extent_at es j).length
          → (extent_at es k).length ≤ (extent_at es j).length)
      → IsBest es n i (some k)
  take_one i k h m l b = (
    h,
    m,
    λ j p q r. elim (ℕ_discrete i j) [ yes e ↦ rw (← e) l | no ne ↦ b j (omega arith) q r ],
  )

  choose-IsBest :
      (i : ℕ) (c : Option ℕ)
      → i < length es
      → n ≤ (extent_at es i).length
      → IsBest es n (suc i) c
      → IsBest es n i (choose es i c)
  unfolding choose
  choose-IsBest i none h m b = take_one i i h m (omega arith) (λ j p q r. omega (arith, b j p q))
  choose-IsBest i (some c) h m b = elim (Bool-cases closer) [
    | inl better ↦
        rw better (take_one i i h m (omega arith) (λ j p q r. ground (arith, b.2 j p q r)))
    | inr worse ↦ rw worse (take_one i c b.0 b.1 (ground arith) b.2)
  ]
    where
      closer : Bool
      closer =
          ltb (extent_at es i).length (extent_at es c).length
          || ((extent_at es i).length == (extent_at es c).length
              && ltb (extent_at es i).start (extent_at es c).start)

  best_fit_from-IsBest :
      (i : ℕ) (c : Option ℕ)
      → i ≤ length es
      → IsBest es n i c
      → IsBest es n 0 (best_fit_from es n i c)
  unfolding best_fit_from
  best_fit_from-IsBest zero c h b = b
  best_fit_from-IsBest (suc i) c h b = elim (Bool-cases (ltb (extent_at es i).length n)) [
    | inl short ↦ rw short (best_fit_from-IsBest i c (omega arith) (skip_one i c (ground arith) b))
    | inr long ↦ elim (Bool-cases (n == (extent_at es i).length)) [
      | inl exact ↦ rw (long, exact) (omega arith, ground arith, λ j p q r. ground arith)
      | inr other ↦
          rw (long, other)
            (best_fit_from-IsBest i (choose es i c) (omega arith)
              (choose-IsBest i c (omega arith) (ground arith) b))
    ]
  ]

  -- best_fit answers an extent of at least the asked length that is no longer than any other
  -- such extent, and none only if every extent is shorter.
  pub best_fit-IsBest : IsBest es n 0 (best_fit es n)
  unfolding best_fit
  best_fit-IsBest =
      best_fit_from-IsBest (length es) none (omega arith) (λ j p q. absurd (omega arith))
