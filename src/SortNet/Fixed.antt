-- ===== src/SortNet/Fixed.antt =====
-- fixed_sort (ase/sortnet.hh), with its networks on all Boolean inputs.

use anklang.Prelude.{
  ℕ, zero, suc, ◌+◌, ◌≡◌, ◌≢◌, refl, ◌∙◌, arith, Bool, true, false, if◌then◌else◌, List, [], ◌∷◌,
  length, get_elem?, set, some, inl, inr, Option-cases, ℕ_discrete, get_elem?-set_ne,
  get_elem?-set_self, get_elem?-some_lt,
}
use anklang.Prelude.Totals.{total, total-set}
use anklang.EventList.Order.{Compare, IsOrder}
use anklang.SortNet.Networks.{Network}
use anklang.SortNet.Sort.{exchange, run, sort_by, networks, fixed_sort}
use anklang.SortNet.ZeroOne.{sorts, Ascends, sort_by-Ascends, exchange-some, exchange-none}

-- Every network sorts the inputs of its size.
all_sort : ℕ → List Network → Bool
all_sort n [] = true
all_sort n (net ∷ nets) = let rest = all_sort (n + 1) nets in if sorts n net then rest else false

networks_sort : all_sort 0 networks ≡ true
unfolding all_sort sorts run
networks_sort = refl

all_sort-at :
    (n : ℕ) (nets : List Network) (i : ℕ) (net : Network)
    → all_sort n nets ≡ true
    → get_elem? nets i ≡ some net
    → sorts (n + i) net ≡ true
unfolding all_sort
all_sort-at n [] i net h e = cc
all_sort-at n (x ∷ nets) zero net h e =
    let here : n + 0 ≡ n = omega arith in
    let same : x ≡ net = cc in rw (here, ← same) (ground arith)
all_sort-at n (x ∷ nets) (suc i) net h e =
    let there : n + suc i ≡ n + 1 + i = omega arith in
    rw there (all_sort-at (n + 1) nets i net (ground arith) e)

module _ {E : Type 0} (g : E → ℕ) (lo hi : E → E → E)
    (same : (a b : E) → g (lo a b) + g (hi a b) ≡ g a + g b)
    (self : (a : E) → g (hi a a) ≡ g a) where
  get-set_ne : (v : List E) (i j : ℕ) (x : E) → i ≢ j → get_elem? (set v i x) j ≡ get_elem? v j
  get-set_ne v i j x n = get_elem?-set_ne v x n

  total-exchange : (i j : ℕ) (v : List E) → total g (exchange lo hi i j v) ≡ total g v
  total-exchange i j v = elim (Option-cases (get_elem? v i)) [
    | inl n ↦ rw (exchange-none lo hi i j v (inl n)) refl
    | inr (a, e) ↦ elim (Option-cases (get_elem? v j)) [
      | inl n ↦ rw (exchange-none lo hi i j v (inr n)) refl
      | inr (b, k) ↦
          let first = total-set g v i a (lo a b) e in
          rw (exchange-some lo hi i j v a b e k) (elim (ℕ_discrete i j) [
            | yes q ↦
                let one : a ≡ b = cc in
                let there : get_elem? (set v i (lo a b)) j ≡ some (lo a b) =
                  rw (← q) (get_elem?-set_self v i (lo a b) (get_elem?-some_lt v i a e)) in
                let second = total-set g (set v i (lo a b)) j (lo a b) (hi a b) there in
                let back : g (hi a b) ≡ g a = rw (← one) (self a) in
                omega (arith, first, second, back)
            | no n ↦
                let second =
                  total-set g (set v i (lo a b)) j b (hi a b) (get-set_ne v i j (lo a b) n ∙ k) in
                omega (arith, first, second, same a b)
          ])
    ]
  ]

  total-run : (net : Network) (v : List E) → total g (run lo hi net v) ≡ total g v
  unfolding run
  total-run [] v = refl
  total-run ((i, j) ∷ net) v = total-run net (exchange lo hi i j v) ∙ total-exchange i j v

total-sort_by :
    {E : Type 0} (cmp : Compare E) (g : E → ℕ) (net : Network) (v : List E)
    → total g (sort_by cmp net v) ≡ total g v
unfolding sort_by
total-sort_by cmp g net v = total-run g _ _ (λ a b. ground arith) (λ a. ground arith) net v

-- What a sort promises: the values ascend, and each is there as often as before.
pub record IsSortOf {E : Type 0} (cmp : Compare E) (v w : List E) : Type 0 where
  pub ascends : Ascends cmp w
  pub keeps : (g : E → ℕ) → total g w ≡ total g v

-- For a comparison that is an order, and a std::sort that sorts lists: fixed_sort gives for any
-- list one in which no value is lesser than the one before it, and which has each value as often.
pub fixed_sort-IsSortOf :
    {E : Type 0} {cmp : Compare E} (std_sort : List E → List E)
    → IsOrder cmp
    → ((v : List E) → IsSortOf cmp v (std_sort v))
    → (v : List E) → IsSortOf cmp v (fixed_sort std_sort cmp v)
unfolding fixed_sort
fixed_sort-IsSortOf {cmp = cmp} std_sort o s v =
    elim (Option-cases (get_elem? networks (length v))) [
      | inl n ↦ rw (n, fixed_sort) (s v)
      | inr (net, e) ↦
          let size : 0 + length v ≡ length v = omega arith in
          let right = rw size at (all_sort-at 0 networks (length v) net networks_sort e) in
          rw (e, fixed_sort)
            (record {
              ascends = sort_by-Ascends o (length v) net v right refl;
              keeps = λ g. total-sort_by cmp g net v;
            })
    ]
