-- ===== src/Prelude/Totals.antt =====
-- Sums of weights over lists. Two lists with equal sums for all weights have the same elements, each as
-- often.
use anklang.Prelude.{
  ℕ, zero, suc, ◌+◌, ◌-◌, ◌≡◌, arith, List, [], ◌∷◌, ◌++◌, length, get_elem?, set, take, some,
}

module _ {ℓ} {A : Type ℓ} (f : A → ℕ) where
  abbrev pub total : List A → ℕ
  total [] = 0
  total (x ∷ xs) = f x + total xs

  pub total-append : (xs ys : List A) → total (xs ++ ys) ≡ total xs + total ys
  total-append [] ys = omega arith
  total-append (x ∷ xs) ys = omega (arith, total-append xs ys)

  pub total-set :
      (xs : List A) (i : ℕ) (x v : A)
      → get_elem? xs i ≡ some x
      → total (set xs i v) + f x ≡ total xs + f v
  total-set [] i x v h = cc
  total-set (y ∷ xs) zero x v h = let e : y ≡ x = cc in rw e (omega arith)
  total-set (y ∷ xs) (suc i) x v h = omega (arith, total-set xs i x v h)

  -- Without the last one
  pub total-take :
      (xs : List A) (x : A)
      → get_elem? xs (length xs - 1) ≡ some x
      → total (take (length xs - 1) xs) + f x ≡ total xs
  total-take [] x h = cc
  total-take (y ∷ []) x h = let e : y ≡ x = cc in rw e (omega arith)
  total-take (y ∷ z ∷ xs) x h =
      let outer : suc (suc (length xs)) - 1 ≡ suc (length xs) = omega arith in
      let inner : suc (length xs) - 1 ≡ length xs = omega arith in
      let rest = rw inner at (total-take (z ∷ xs) x (rw inner (rw outer at h))) in
      rw outer (omega (arith, rest))
