-- ===== src/EventList/Lookup.antt =====
-- ase/utils.hh: binary_lookup_fuzzy and the lookups made of it. An iterator is its index from `begin`;
-- `cmp i` is `cmp_elements (arg, begin[i])`. The fuel is the number of elements: each round leaves
-- fewer to look at.
pub mod Laws
use anklang.Prelude.{ℕ, zero, suc, ◌+◌, ◌/◌, Bool, true, false, Ordering, ltb, if◌then◌else◌}

-- How the loop ends: at an exact match, or with the last `current` and `cmp`.
pub data Search : Type 0 where
  hit : ℕ → Search
  miss : ℕ → Ordering → Search

unfoldable pub search_loop : (ℕ → Ordering) → ℕ → ℕ → ℕ → ℕ → Ordering → Search
search_loop cmp zero offs n_elements current last = miss current last
search_loop cmp (suc fuel) offs n_elements current last =
    let i = (offs + n_elements) / 2 in
    let round : Search = elim (cmp i) [
      | Ordering.eq ↦ hit i
      | Ordering.lt ↦ search_loop cmp fuel offs i i Ordering.lt
      | Ordering.gt ↦ search_loop cmp fuel (i + 1) n_elements i Ordering.gt
    ] in
    if ltb offs n_elements then round else miss current last

unfoldable pub binary_lookup_fuzzy : (ℕ → Ordering) → ℕ → Search
binary_lookup_fuzzy cmp n = search_loop cmp n 0 n n Ordering.eq

-- `end`, which is `n`, if there is no exact match
unfoldable pub or_end : ℕ → Search → ℕ
or_end n (hit i) = i
or_end n (miss current last) = n

unfoldable pub binary_lookup : (ℕ → Ordering) → ℕ → ℕ
binary_lookup cmp n = or_end n (binary_lookup_fuzzy cmp n)

-- "cmp > 0 indicates greater key"
unfoldable pub insertion_pos : Search → ℕ × Bool
insertion_pos (hit i) = (i, true)
insertion_pos (miss current Ordering.gt) = (current + 1, false)
insertion_pos (miss current _) = (current, false)

unfoldable pub binary_lookup_insertion_pos : (ℕ → Ordering) → ℕ → ℕ × Bool
binary_lookup_insertion_pos cmp n = insertion_pos (binary_lookup_fuzzy cmp n)
