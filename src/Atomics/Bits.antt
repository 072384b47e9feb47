-- ===== src/Atomics/Bits.antt =====
-- AtomicBits (ase/atomics.hh): each operation on a word is atomic. The words are lists of numbers below 2^64.
use anklang.Prelude.{
  ℕ, zero, suc, ◌+◌, ◌-◌, ◌*◌, ◌/◌, ◌%◌, ◌^◌, Bool, true, false, not, ◌&&◌, ◌||◌, Option, none,
  some, List, [], ◌∷◌, ltb, ◌==◌, if◌then◌else◌, length, set, get_or, drop,
}

-- `w & (uint64 (1) << s)`
unfoldable pub bit : ℕ → ℕ → Bool
bit w zero = w % 2 == 1
bit w (suc s) = bit (w / 2) s

-- A new bit `s` of a word: fetch_or, fetch_and and fetch_xor of one bit
unfoldable pub change_bit : (Bool → Bool) → ℕ → ℕ → ℕ
change_bit f w zero = w / 2 * 2 + (if f (w % 2 == 1) then 1 else 0)
change_bit f w (suc s) = change_bit f (w / 2) s * 2 + w % 2

-- A position is block `u` of 64 bits and bit `s` of it.
pub record Iter : Type 0 where
  pub u : ℕ
  pub s : ℕ

abbrev pub iter : ℕ → Iter
iter p = record { u = p / 64; s = p % 64 }

abbrev pub valid : List ℕ → Iter → Bool
valid bits it = ltb it.u (length bits)

unfoldable pub position : Iter → ℕ
position it = it.u + it.s

-- operator== of two iterators over the same bits
unfoldable pub equal : List ℕ → Iter → Iter → Bool
equal bits a b = (not (valid bits a) && not (valid bits b)) || (position a == position b)

unfoldable pub is_set : List ℕ → Iter → Bool
is_set bits it = valid bits it && bit (get_or bits it.u 0) it.s

-- The bits and the result, which is whether the block had any bit set before
unfoldable pub change : (Bool → Bool) → List ℕ → Iter → List ℕ × Bool
change f bits it =
    if valid bits it
    then (set bits it.u (change_bit f (get_or bits it.u 0) it.s), not (get_or bits it.u 0 == 0))
    else (bits, false)

unfoldable pub set_bit : List ℕ → Iter → Bool → List ℕ × Bool
set_bit bits it toggle = change (λ b. toggle) bits it

unfoldable pub clear : List ℕ → Iter → List ℕ × Bool
clear bits it =
    if valid bits it && not (bit (get_or bits it.u 0) it.s)
    then (bits, false)
    else set_bit bits it false

unfoldable pub xor_bit : List ℕ → Iter → Bool → List ℕ × Bool
xor_bit bits it toggle = change (λ b. if toggle then not b else b) bits it

-- operator++
unfoldable pub increment : List ℕ → Iter → Iter
increment bits it =
    if valid bits it
    then (if (it.s + 1) % 64 == 0
        then record { u = it.u + 1; s = 0 }
        else record { u = it.u; s = (it.s + 1) % 64 })
    else it

-- The loop of big_inc1 behind block `u`, with the blocks from there on; `none` is a read behind the last one.
unfoldable pub next_block : ℕ → List ℕ → Option ℕ
next_block u [] = none
next_block u (w ∷ blocks) = let rest = next_block (u + 1) blocks in if w == 0 then rest else some u

unfoldable pub big_inc1 : List ℕ → Iter → Option Iter
big_inc1 bits it =
    if valid bits it
    then (if get_or bits it.u 0 == 0
        then elim (next_block (it.u + 1) (drop (it.u + 1) bits)) [
          | none ↦ none
          | some u ↦ some (record { u = u; s = 0 })
        ]
        else some (increment bits it))
    else some it

unfoldable pub all : List ℕ → Bool → Bool
all [] toggle = true
all (w ∷ bits) toggle =
    let rest = all bits toggle in if w == (if toggle then 2 ^ 64 - 1 else 0) then rest else false

unfoldable pub any : List ℕ → Bool → Bool
any [] toggle = false
any (w ∷ bits) toggle =
    let rest = any bits toggle in if w == (if toggle then 0 else 2 ^ 64 - 1) then rest else true
