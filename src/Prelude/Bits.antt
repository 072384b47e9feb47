-- ===== src/Prelude/Bits.antt =====
-- Masks of low bits, at numbers of any size.
use Prim.Native.Nat.{bit_and, digits, bit_and-bitwise}
use anklang.Prelude.{ℕ, zero, suc, ◌+◌, ◌*◌, ◌/◌, ◌%◌, ◌≤◌, ◌≡◌, refl, sym, min, arith}

-- The mask `c` keeps the part `part a` of a number, by the loop that `bit_and` stands for.
abbrev Keeps : ℕ → (ℕ → ℕ) → Type 0
Keeps c part = (rounds a : ℕ) → a ≤ rounds → digits (λ _. zero) min rounds a c ≡ part a

Keeps-none : Keeps 0 (λ a. zero)
Keeps-none zero a h = omega arith
Keeps-none (suc r) zero h = refl
Keeps-none (suc r) (suc a) h = omega (arith, Keeps-none r (suc a / 2) (omega arith))

-- A mask with one more bit keeps one more bit.
Keeps-next :
    (b c : ℕ) (part next : ℕ → ℕ)
    → c / 2 ≡ b
    → c % 2 ≡ 1
    → next 0 ≡ 0
    → ((a : ℕ) → next a ≡ part (a / 2) * 2 + a % 2)
    → Keeps b part
    → Keeps c next
Keeps-next b c part next q o z e k zero zero h = sym z
Keeps-next b c part next q o z e k zero (suc a) h = absurd (omega arith)
Keeps-next b c part next q o z e k (suc r) zero h = sym z
Keeps-next b c part next q o z e k (suc r) (suc a) h =
    rw (e (suc a), q, o, k r (suc a / 2) (omega arith)) (omega arith)

-- The mask of a UTF-8 continuation byte.
pub mask_63 : (a : ℕ) → bit_and a 0x3F ≡ a % 64
mask_63 a = omega (arith, bit_and-bitwise a 0x3F, six_bits a a (omega arith))
  where
    one_bit : Keeps 1 (λ a. a % 2)
    one_bit = Keeps-next 0 1 _ _ refl refl refl (λ a. omega arith) Keeps-none

    two_bits : Keeps 3 (λ a. a % 4)
    two_bits = Keeps-next 1 3 _ _ refl refl refl (λ a. omega arith) one_bit

    three_bits : Keeps 7 (λ a. a % 8)
    three_bits = Keeps-next 3 7 _ _ refl refl refl (λ a. omega arith) two_bits

    four_bits : Keeps 15 (λ a. a % 16)
    four_bits = Keeps-next 7 15 _ _ refl refl refl (λ a. omega arith) three_bits

    five_bits : Keeps 31 (λ a. a % 32)
    five_bits = Keeps-next 15 31 _ _ refl refl refl (λ a. omega arith) four_bits

    six_bits : Keeps 63 (λ a. a % 64)
    six_bits = Keeps-next 31 63 _ _ refl refl refl (λ a. omega arith) five_bits
