-- ===== src/SortNet/Sort.antt =====
-- The application of a network, and fixed_sort (ase/sortnet.hh). `lesser a b` is the comparison `cmp a b` below 0.
use anklang.Prelude.{
  ℕ, Bool, true, false, Ordering, if◌then◌else◌, List, [], ◌∷◌, length, get_elem?, set, none, some,
}
use anklang.EventList.Order.{Compare}
use anklang.SortNet.Networks.{
  Network, sort_3, sort_4, sort_5, sort_6, sort_7, sort_8, sort_9, sort_10, sort_11, sort_12,
  sort_13, sort_14, sort_15, sort_16,
}

abbrev pub lesser {ℓ} : {E : Type ℓ} → Compare E → E → E → Bool
lesser cmp a b = elim (cmp a b) [ Ordering.lt ↦ true | _ ↦ false ]

-- The least of two values in front, by `min` and `max`
abbrev pub exchange {ℓ} : {E : Type ℓ} (lo hi : E → E → E) (i j : ℕ) → List E → List E
exchange lo hi i j v = elim (get_elem? v i) [
  | none ↦ v
  | some a ↦ elim (get_elem? v j) [ none ↦ v | some b ↦ set (set v i (lo a b)) j (hi a b) ]
]

-- srt (v[i], v[j], c)
abbrev pub srt {ℓ} : {E : Type ℓ} → Compare E → ℕ → ℕ → List E → List E
srt cmp = exchange (λ a b. if lesser cmp b a then b else a) (λ a b. if lesser cmp b a then a else b)

unfoldable pub run {ℓ} : {E : Type ℓ} → (E → E → E) → (E → E → E) → Network → List E → List E
run lo hi [] v = v
run lo hi ((i, j) ∷ net) v = run lo hi net (exchange lo hi i j v)

unfoldable pub sort_by {ℓ} : {E : Type ℓ} → Compare E → Network → List E → List E
sort_by cmp net v =
    run (λ a b. if lesser cmp b a then b else a) (λ a b. if lesser cmp b a then a else b) net v

-- The networks by the number of values; more are for std::sort.
abbrev pub networks : List Network
networks =
    []
    ∷ []
    ∷ ((0, 1) ∷ [])
    ∷ sort_3
    ∷ sort_4
    ∷ sort_5
    ∷ sort_6
    ∷ sort_7
    ∷ sort_8
    ∷ sort_9
    ∷ sort_10
    ∷ sort_11
    ∷ sort_12
    ∷ sort_13
    ∷ sort_14
    ∷ sort_15
    ∷ sort_16
    ∷ []

-- The parameter is std::sort.
unfoldable pub fixed_sort {ℓ} : {E : Type ℓ} → (List E → List E) → Compare E → List E → List E
fixed_sort std_sort cmp v = elim (get_elem? networks (length v)) [
  | some net ↦ sort_by cmp net v
  | none ↦ std_sort v
]
