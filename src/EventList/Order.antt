-- ===== src/EventList/Order.antt =====
-- Comparison functions (ase/utils.hh: compare_lesser). An `int` result is read by its sign alone, so
-- it is the sign here: `lt` for -1, `eq` for 0, `gt` for +1.
use anklang.Prelude.{ℕ, ◌≡◌, ◌≢◌, refl, Ordering, compare, arith, ◌⊎◌, inl, inr}

abbrev pub Compare {ℓ} : Type ℓ → Type ℓ
Compare E = E → E → Ordering

abbrev pub opposite : Ordering → Ordering
opposite Ordering.lt = Ordering.gt
opposite Ordering.eq = Ordering.eq
opposite Ordering.gt = Ordering.lt

-- What a comparison has to satisfy for a list to be sorted by it.
pub record IsOrder {ℓ} {E : Type ℓ} (cmp : Compare E) : Type ℓ where
  pub swap : (a b : E) → cmp b a ≡ opposite (cmp a b)
  pub lt_trans : (a b c : E) → cmp a b ≡ Ordering.lt → cmp b c ≡ Ordering.lt → cmp a c ≡ Ordering.lt
  pub eq_left : (a b c : E) → cmp a b ≡ Ordering.eq → cmp a c ≡ cmp b c

pub Ordering-cases : (o : Ordering) → (o ≡ Ordering.lt) ⊎ ((o ≡ Ordering.eq) ⊎ (o ≡ Ordering.gt))
Ordering-cases Ordering.lt = inl refl
Ordering-cases Ordering.eq = inr (inl refl)
Ordering-cases Ordering.gt = inr (inr refl)

module _ {ℓ} {E : Type ℓ} {cmp : Compare E} (o : IsOrder cmp) where
  pub cmp_self : (a : E) → cmp a a ≡ Ordering.eq
  cmp_self a = ground (arith, o.swap a a)

  -- Below what is not above.
  pub lt_of_ne-gt :
      (a b c : E) → cmp a b ≢ Ordering.gt → cmp b c ≡ Ordering.lt → cmp a c ≡ Ordering.lt
  lt_of_ne-gt a b c h k = ground (arith, o.lt_trans a b c, o.eq_left a b c)

  pub eq_right : (a b c : E) → cmp b c ≡ Ordering.eq → cmp a b ≡ cmp a c
  eq_right a b c h = ground (arith, o.eq_left b c a, o.swap a b, o.swap a c)

-- Aux::compare_lesser on unsigned numbers
abbrev pub compare_lesser : Compare ℕ
compare_lesser = compare

pub compare_lesser-IsOrder : IsOrder compare_lesser
compare_lesser-IsOrder = record {
  swap = λ a b. ground arith;
  lt_trans = λ a b c h k. ground arith;
  eq_left = λ a b c h. ground arith;
}
