-- ===== src/SortNet/Bits.antt =====
-- Sets of Boolean inputs as numbers: bit `e` of a number is its value at input `e`.
use Prim.Native.Nat.{bit_and, bit_or, digits, bit_and-bitwise, bit_or-bitwise}
use native.Mathlib.Nat.{pow-suc, mul_assoc}
use anklang.Prelude.{
  ℕ, zero, suc, ◌+◌, ◌-◌, ◌*◌, ◌/◌, ◌%◌, ◌^◌, ◌≤◌, ◌<◌, ◌≡◌, refl, sym, ap, ◌∙◌, min, max, arith,
  Bool, true, false, ◌==◌, ◌&&◌, ◌||◌,
}

-- Bit `e`
abbrev pub bit : ℕ → ℕ → Bool
bit zero a = a % 2 == 1
bit (suc e) a = bit e (a / 2)

bit-zero : (e : ℕ) → bit e 0 ≡ false
bit-zero zero = refl
bit-zero (suc e) = bit-zero e

bit-digits_and : (f e a b : ℕ) → a ≤ f → bit e (digits (λ _. zero) min f a b) ≡ (bit e a && bit e b)
bit-digits_and zero e zero b h = rw (bit-zero e) refl
bit-digits_and zero e (suc a) b h = absurd (omega arith)
bit-digits_and (suc f) e zero b h = rw (bit-zero e) refl
bit-digits_and (suc f) zero (suc a) b h = ground arith
bit-digits_and (suc f) (suc e) (suc a) b h =
    let rest = bit-digits_and f e (suc a / 2) (b / 2) (omega arith) in
    let above : (digits (λ _. zero) min f (suc a / 2) (b / 2) * 2 + min (suc a % 2) (b % 2)) / 2
        ≡ digits (λ _. zero) min f (suc a / 2) (b / 2) =
      omega arith in
    ap (bit e) above ∙ rest

bit-digits_or : (f e a b : ℕ) → a ≤ f → bit e (digits (λ x. x) max f a b) ≡ (bit e a || bit e b)
bit-digits_or zero e zero b h = rw (bit-zero e) refl
bit-digits_or zero e (suc a) b h = absurd (omega arith)
bit-digits_or (suc f) e zero b h = rw (bit-zero e) refl
bit-digits_or (suc f) zero (suc a) b h = ground arith
bit-digits_or (suc f) (suc e) (suc a) b h =
    let rest = bit-digits_or f e (suc a / 2) (b / 2) (omega arith) in
    let above : (digits (λ x. x) max f (suc a / 2) (b / 2) * 2 + max (suc a % 2) (b % 2)) / 2
        ≡ digits (λ x. x) max f (suc a / 2) (b / 2) =
      omega arith in
    ap (bit e) above ∙ rest

pub bit-bit_and : (e a b : ℕ) → bit e (bit_and a b) ≡ (bit e a && bit e b)
bit-bit_and e a b = ap (bit e) (bit_and-bitwise a b) ∙ bit-digits_and a e a b (omega arith)

pub bit-bit_or : (e a b : ℕ) → bit e (bit_or a b) ≡ (bit e a || bit e b)
bit-bit_or e a b = ap (bit e) (bit_or-bitwise a b) ∙ bit-digits_or a e a b (omega arith)

twice : (n b : ℕ) → b * 2 ^ suc n ≡ b * 2 ^ n * 2
twice n b = ap (λ t. b * t) (pow-suc 2 n) ∙ sym (mul_assoc b (2 ^ n) 2)

pub pow_pos : (n : ℕ) → 0 < 2 ^ n
pow_pos zero = omega arith
pow_pos (suc n) = omega (arith, twice n 1, pow_pos n)

-- Two sets side by side
pub bit-low : (n e a b : ℕ) → e < n → bit e (a + b * 2 ^ n) ≡ bit e a
bit-low zero e a b h = absurd (omega arith)
bit-low (suc n) zero a b h = let t = twice n b in ground arith
bit-low (suc n) (suc e) a b h =
    let t = twice n b in
    let halved : (a + b * 2 ^ suc n) / 2 ≡ a / 2 + b * 2 ^ n = omega (arith, t) in
    ap (bit e) halved ∙ bit-low n e (a / 2) b (omega arith)

pub bit-high : (n e a b : ℕ) → a < 2 ^ n → bit (n + e) (a + b * 2 ^ n) ≡ bit e b
bit-high zero e a b h =
    let whole : a + b * 2 ^ 0 ≡ b = omega arith in
    let here : 0 + e ≡ e = omega arith in rw (whole, here) refl
bit-high (suc n) e a b h =
    let t = twice n b in
    let one = twice n 1 in
    let halved : (a + b * 2 ^ suc n) / 2 ≡ a / 2 + b * 2 ^ n = omega (arith, t) in
    let there : suc n + e ≡ suc (n + e) = omega arith in
    rw there (ap (bit (n + e)) halved ∙ bit-high n e (a / 2) b (omega (arith, h, one)))

pub bit-ones : (n e : ℕ) → e < n → bit e (2 ^ n - 1) ≡ true
bit-ones zero e h = absurd (omega arith)
bit-ones (suc n) zero h = let t = twice n 1 in let p = pow_pos n in ground arith
bit-ones (suc n) (suc e) h =
    let t = twice n 1 in
    let p = pow_pos n in
    let halved : (2 ^ suc n - 1) / 2 ≡ 2 ^ n - 1 = omega (arith, t, p) in
    ap (bit e) halved ∙ bit-ones n e (omega arith)
