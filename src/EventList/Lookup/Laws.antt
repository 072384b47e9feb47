-- ===== src/EventList/Lookup/Laws.antt =====
-- The binary lookups of ase/utils.hh on a sorted range.
use anklang.Prelude.{
  ℕ, zero, suc, ◌+◌, ◌/◌, ◌≤◌, ◌<◌, ◌≡◌, ◌≢◌, refl, Bool, true, false, Ordering, arith, ltb, ◌⊎◌,
  inl, inr, Bool-cases,
}
use anklang.EventList.Order.{Ordering-cases}
use anklang.EventList.Lookup.{
  Search, hit, miss, search_loop, binary_lookup_fuzzy, or_end, binary_lookup, insertion_pos,
  binary_lookup_insertion_pos,
}

-- The sought value is above the elements of a first part, then equals at most one, and is below
-- the rest.
abbrev pub IsSortedRange : (ℕ → Ordering) → ℕ → Type 0
IsSortedRange cmp n = (i j : ℕ) → i < j → j < n → cmp i ≢ Ordering.gt → cmp j ≡ Ordering.lt

-- `p` splits the range: above all before it, below all from it on.
pub record Splits (cmp : ℕ → Ordering) (n p : ℕ) : Type 0 where
  pub in_range : p ≤ n
  pub above : (j : ℕ) → j < p → cmp j ≡ Ordering.gt
  pub below : (j : ℕ) → p ≤ j → j < n → cmp j ≡ Ordering.lt

abbrev pub Outcome : (ℕ → Ordering) → ℕ → Search → Type 0
Outcome cmp n (hit i) = (i < n) × (cmp i ≡ Ordering.eq)
Outcome cmp n (miss current Ordering.gt) = Splits cmp n (current + 1)
Outcome cmp n (miss current _) = Splits cmp n current

module _ (cmp : ℕ → Ordering) (n : ℕ) (sorted : IsSortedRange cmp n) where
  -- Between two rounds.
  record Window (lo hi current : ℕ) (last : Ordering) : Type 0 where
    ordered : lo ≤ hi
    in_range : hi ≤ n
    above : (j : ℕ) → j < lo → cmp j ≡ Ordering.gt
    below : (j : ℕ) → hi ≤ j → j < n → cmp j ≡ Ordering.lt
    after_gt : last ≡ Ordering.gt → current + 1 ≡ lo
    after_other : last ≢ Ordering.gt → current ≡ hi

  Window-Outcome :
      (lo hi current : ℕ) (last : Ordering)
      → hi ≤ lo
      → Window lo hi current last
      → Outcome cmp n (miss current last)
  Window-Outcome lo hi current Ordering.gt h w = record {
    in_range = omega (arith, w.after_gt refl, w.ordered, w.in_range);
    above = λ j q. w.above j (omega (arith, w.after_gt refl));
    below = λ j q r. w.below j (omega (arith, w.after_gt refl, w.ordered)) r;
  }
  Window-Outcome lo hi current Ordering.lt h w =
      let e : current ≡ hi = w.after_other (λ q. cc) in
      record {
        in_range = omega (arith, w.in_range);
        above = λ j q. w.above j (omega (arith, w.ordered));
        below = λ j q r. w.below j (omega arith) r;
      }
  Window-Outcome lo hi current Ordering.eq h w =
      let e : current ≡ hi = w.after_other (λ q. cc) in
      record {
        in_range = omega (arith, w.in_range);
        above = λ j q. w.above j (omega (arith, w.ordered));
        below = λ j q r. w.below j (omega arith) r;
      }

  le_cases : (a b : ℕ) → a ≤ b → (a ≡ b) ⊎ (a < b)
  le_cases a b h = grind arith

  narrow_lt :
      (lo hi i current : ℕ) (last : Ordering)
      → lo ≤ i
      → i < hi
      → cmp i ≡ Ordering.lt
      → Window lo hi current last
      → Window lo i i Ordering.lt
  narrow_lt lo hi i current last p q e w = record {
    ordered = p;
    in_range = omega (arith, w.in_range);
    above = w.above;
    below = λ j r s. elim (le_cases i j r) [
      | inl same ↦ rw (← same) e
      | inr more ↦ sorted i j more s (λ g. cc)
    ];
    after_gt = λ g. cc;
    after_other = λ g. refl;
  }

  narrow_gt :
      (lo hi i current : ℕ) (last : Ordering)
      → lo ≤ i
      → i < hi
      → cmp i ≡ Ordering.gt
      → Window lo hi current last
      → Window (i + 1) hi i Ordering.gt
  narrow_gt lo hi i current last p q e w = record {
    ordered = omega arith;
    in_range = w.in_range;
    above = λ j r. elim (le_cases j i (omega arith)) [
      | inl same ↦ rw same e
      | inr less ↦ elim (Ordering-cases (cmp j)) [
        | inl l ↦ absurd (cc (sorted j i less (omega (arith, w.in_range)) (λ g. cc)))
        | inr (inl l) ↦ absurd (cc (sorted j i less (omega (arith, w.in_range)) (λ g. cc)))
        | inr (inr g) ↦ g
      ]
    ];
    below = w.below;
    after_gt = λ g. refl;
    after_other = λ g. absurd (g refl);
  }

  search_loop-Outcome :
      (fuel lo hi current : ℕ) (last : Ordering)
      → hi ≤ lo + fuel
      → Window lo hi current last
      → Outcome cmp n (search_loop cmp fuel lo hi current last)
  unfolding search_loop
  search_loop-Outcome zero lo hi current last f w =
      Window-Outcome lo hi current last (omega arith) w
  search_loop-Outcome (suc fuel) lo hi current last f w = elim (Bool-cases (ltb lo hi)) [
    | inr done ↦ rw done (Window-Outcome lo hi current last (ground arith) w)
    | inl go ↦
        let i = (lo + hi) / 2 in
        let p : lo ≤ i = ground arith in
        let q : i < hi = ground arith in
        elim (Ordering-cases (cmp i)) [
          | inl e ↦
              rw (go, e)
                (search_loop-Outcome fuel lo i i Ordering.lt (omega arith)
                  (narrow_lt lo hi i current last p q e w))
          | inr (inl e) ↦ rw (go, e) (omega (arith, w.in_range), e)
          | inr (inr e) ↦
              rw (go, e)
                (search_loop-Outcome fuel (i + 1) hi i Ordering.gt (omega arith)
                  (narrow_gt lo hi i current last p q e w))
        ]
  ]

  -- On a sorted range the loop of binary_lookup_fuzzy ends by its own test within the fuel, at
  -- an element that equals the sought one or next to the place that splits the range.
  pub binary_lookup_fuzzy-Outcome : Outcome cmp n (binary_lookup_fuzzy cmp n)
  unfolding binary_lookup_fuzzy
  binary_lookup_fuzzy-Outcome = search_loop-Outcome n 0 n n Ordering.eq (omega arith) (record {
    ordered = omega arith;
    in_range = omega arith;
    above = λ j q. absurd (omega arith);
    below = λ j q r. absurd (omega arith);
    after_gt = λ g. cc;
    after_other = λ g. refl;
  })

-- What binary_lookup_insertion_pos answers: the match, or where to insert.
abbrev pub InsertsAt : (ℕ → Ordering) → ℕ → ℕ × Bool → Type 0
InsertsAt cmp n (p, true) = (p < n) × (cmp p ≡ Ordering.eq)
InsertsAt cmp n (p, false) = Splits cmp n p

insertion_pos-InsertsAt :
    (cmp : ℕ → Ordering) (n : ℕ) (s : Search) → Outcome cmp n s → InsertsAt cmp n (insertion_pos s)
unfolding insertion_pos
insertion_pos-InsertsAt cmp n (hit i) h = h
insertion_pos-InsertsAt cmp n (miss current Ordering.gt) h = h
insertion_pos-InsertsAt cmp n (miss current Ordering.lt) h = h
insertion_pos-InsertsAt cmp n (miss current Ordering.eq) h = h

-- On a sorted range binary_lookup_insertion_pos answers the place of an equal element, or the
-- place where all before are below and all from it on are above the sought one.
pub binary_lookup_insertion_pos-InsertsAt :
    (cmp : ℕ → Ordering) (n : ℕ)
    → IsSortedRange cmp n
    → InsertsAt cmp n (binary_lookup_insertion_pos cmp n)
unfolding binary_lookup_insertion_pos
binary_lookup_insertion_pos-InsertsAt cmp n sorted =
    insertion_pos-InsertsAt cmp n _ (binary_lookup_fuzzy-Outcome cmp n sorted)

-- What binary_lookup answers: the match, or `end` where nothing matches.
abbrev pub LooksUp : (ℕ → Ordering) → ℕ → ℕ → Type 0
LooksUp cmp n p =
    ((p < n) × (cmp p ≡ Ordering.eq)) ⊎ ((p ≡ n) × ((j : ℕ) → j < n → cmp j ≢ Ordering.eq))

split_ne_eq :
    (cmp : ℕ → Ordering) (n p : ℕ) → Splits cmp n p → (j : ℕ) → j < n → cmp j ≢ Ordering.eq
split_ne_eq cmp n p s j h e = elim (Bool-cases (ltb j p)) [
  | inl lt ↦ cc (s.above j (ground arith))
  | inr ge ↦ cc (s.below j (ground arith) h)
]

or_end-LooksUp :
    (cmp : ℕ → Ordering) (n : ℕ) (s : Search) → Outcome cmp n s → LooksUp cmp n (or_end n s)
unfolding or_end
or_end-LooksUp cmp n (hit i) h = inl h
or_end-LooksUp cmp n (miss current Ordering.gt) h = inr (refl, split_ne_eq cmp n _ h)
or_end-LooksUp cmp n (miss current Ordering.lt) h = inr (refl, split_ne_eq cmp n _ h)
or_end-LooksUp cmp n (miss current Ordering.eq) h = inr (refl, split_ne_eq cmp n _ h)

-- On a sorted range binary_lookup answers the place of an equal element, or the end where no
-- element of the range is equal.
pub binary_lookup-LooksUp :
    (cmp : ℕ → Ordering) (n : ℕ) → IsSortedRange cmp n → LooksUp cmp n (binary_lookup cmp n)
unfolding binary_lookup
binary_lookup-LooksUp cmp n sorted =
    or_end-LooksUp cmp n _ (binary_lookup_fuzzy-Outcome cmp n sorted)
