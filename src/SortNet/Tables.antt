-- ===== src/SortNet/Tables.antt =====
-- All Boolean inputs of a network, one number for each wire.

use native.Mathlib.Nat.{pow-suc, mul_assoc, two-pow-succ}
use mathlib.Core.Path.{subst}
use anklang.Prelude.{
  ℕ, zero, suc, ◌+◌, ◌-◌, ◌*◌, ◌^◌, ◌<◌, ◌≡◌, refl, sym, ap, ◌∙◌, arith, Bool, true, false, List,
  [], ◌∷◌, map, length,
}
use anklang.SortNet.Bits.{bit, bit-low, bit-high, bit-ones, pow_pos}

-- Wire 0 comes last in the inputs' numbers: it is set at the upper half of them.
abbrev pub tables : ℕ → List ℕ
tables zero = []
tables (suc n) = (2 ^ 2 ^ n - 1) * 2 ^ 2 ^ n ∷ map (λ t. t + t * 2 ^ 2 ^ n) (tables n)

abbrev AllBelow : ℕ → List ℕ → Type 0
AllBelow m [] = Unit
AllBelow m (t ∷ ts) = (t < m) × AllBelow m ts

square : (t m : ℕ) → t < m → t + t * m < m * m
square t m h = grind arith

map-AllBelow : (m : ℕ) (ts : List ℕ) → AllBelow m ts → AllBelow (m * m) (map (λ t. t + t * m) ts)
map-AllBelow m [] a = tt
map-AllBelow m (t ∷ ts) a = (square t m a.0, map-AllBelow m ts a.1)

pow_plus : (a b : ℕ) → 2 ^ (a + b) ≡ 2 ^ a * 2 ^ b
pow_plus a zero = let e : a + 0 ≡ a = omega arith in rw e (omega arith)
pow_plus a (suc b) =
    let e : a + suc b ≡ suc (a + b) = omega arith in
    rw e (
      pow-suc 2 (a + b)
      ∙ ap (λ t. t * 2) (pow_plus a b)
      ∙ mul_assoc (2 ^ a) (2 ^ b) 2
      ∙ ap (λ t. 2 ^ a * t) (sym (pow-suc 2 b)))

doubled : (n : ℕ) → 2 ^ 2 ^ suc n ≡ 2 ^ 2 ^ n * 2 ^ 2 ^ n
doubled n = ap (λ t. 2 ^ t) (two-pow-succ n) ∙ pow_plus (2 ^ n) (2 ^ n)

half_below : (m : ℕ) → 0 < m → (m - 1) * m < m * m
half_below m h = grind arith

tables-AllBelow : (n : ℕ) → AllBelow (2 ^ 2 ^ n) (tables n)
tables-AllBelow zero = tt
tables-AllBelow (suc n) =
    let m = 2 ^ 2 ^ n in
    subst (λ k. AllBelow k (tables (suc n))) (sym (doubled n))
      (half_below m (pow_pos (2 ^ n)), map-AllBelow m (tables n) (tables-AllBelow n))

low_half :
    (n e : ℕ) (ts : List ℕ) → e < n → map (bit e) (map (λ t. t + t * 2 ^ n) ts) ≡ map (bit e) ts
low_half n e [] h = refl
low_half n e (t ∷ ts) h = cc (bit-low n e t t h, low_half n e ts h)

high_half :
    (n e : ℕ) (ts : List ℕ)
    → AllBelow (2 ^ n) ts
    → map (bit (n + e)) (map (λ t. t + t * 2 ^ n) ts) ≡ map (bit e) ts
high_half n e [] h = refl
high_half n e (t ∷ ts) h = cc (bit-high n e t t h.0, high_half n e ts h.1)

bit-none : (e : ℕ) → bit e 0 ≡ false
bit-none zero = refl
bit-none (suc e) = bit-none e

-- Every Boolean input has a number.
pub tables_lem :
    (n : ℕ) (x : List Bool) → length x ≡ n → (e : ℕ) × (e < 2 ^ n) × (map (bit e) (tables n) ≡ x)
tables_lem zero [] h = (0, omega arith, refl)
tables_lem zero (b ∷ x) h = absurd (omega arith)
tables_lem (suc n) [] h = absurd (omega arith)
tables_lem (suc n) (b ∷ x) h = go b (tables_lem n x (omega arith))
  where
    first_wire : (e : ℕ) → (2 ^ 2 ^ n - 1) * 2 ^ 2 ^ n ≡ 0 + (2 ^ 2 ^ n - 1) * 2 ^ 2 ^ n
    first_wire e = omega arith

    go :
        (b : Bool)
        → (e : ℕ) × (e < 2 ^ n) × (map (bit e) (tables n) ≡ x)
        → (e : ℕ) × (e < 2 ^ suc n) × (map (bit e) (tables (suc n)) ≡ b ∷ x)
    go false (e, l, q) =
        let off : bit e ((2 ^ 2 ^ n - 1) * 2 ^ 2 ^ n) ≡ false =
          ap (bit e) (first_wire e) ∙ bit-low (2 ^ n) e 0 (2 ^ 2 ^ n - 1) l ∙ bit-none e in
        (e, omega (arith, two-pow-succ n, l), cc (off, low_half (2 ^ n) e (tables n) l, q))
    go true (e, l, q) =
        let on : bit (2 ^ n + e) ((2 ^ 2 ^ n - 1) * 2 ^ 2 ^ n) ≡ true =
          ap (bit (2 ^ n + e)) (first_wire e)
          ∙ bit-high (2 ^ n) e 0 (2 ^ 2 ^ n - 1) (pow_pos (2 ^ n))
          ∙ bit-ones (2 ^ n) e l in
        (
          2 ^ n + e,
          omega (arith, two-pow-succ n, l),
          cc (on, high_half (2 ^ n) e (tables n) (tables-AllBelow n), q),
        )
