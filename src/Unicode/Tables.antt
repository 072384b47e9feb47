-- ===== src/Unicode/Tables.antt =====
-- The bit operations of ase/unicode.cc on bytes, as arithmetic: checked at all 256 values.
use Prim.Native.Nat.{bit_and}
use anklang.Prelude.{
  ℕ, zero, suc, ◌+◌, ◌≤◌, false, ℕ_discrete, ◌*◌, ◌/◌, ◌%◌, ◌<◌, ◌≡◌, refl, Bool, true, ◌&&◌, arith,
  ◌==◌, if◌then◌else◌,
}
use anklang.Unicode.Char.{is_continuation, two, three, four, other, lead, in_range}

-- The test holds at `count` numbers from `first` on.
holds_from : (ℕ → Bool) → ℕ → ℕ → Bool
holds_from test first zero = true
holds_from test first (suc count) =
    let later = holds_from test (first + 1) count in if test first then later else false

holds_from_lem :
    (test : ℕ → Bool) (first count c : ℕ)
    → first ≤ c
    → c < first + count
    → holds_from test first count ≡ true
    → test c ≡ true
unfolding holds_from
holds_from_lem test first zero c lo hi h = absurd (omega arith)
holds_from_lem test first (suc count) c lo hi h = elim (ℕ_discrete first c) [
  | yes e ↦ rw (← e) (ground arith)
  | no ne ↦ holds_from_lem test (first + 1) count c (omega arith) (omega arith) (ground arith)
]

byte_lem : (test : ℕ → Bool) (c : ℕ) → c < 256 → holds_from test 0 256 ≡ true → test c ≡ true
byte_lem test c h t = holds_from_lem test 0 256 c (omega arith) h t

low_table :
    holds_from
      (λ c.
        bit_and c 0x3f == c % 64
        && bit_and c 0x1f == c % 32
        && bit_and c 0x0f == c % 16
        && bit_and c 0x07 == c % 8)
      0
      256
    ≡ true
unfolding holds_from
low_table = refl

pub low_bits :
    (c : ℕ)
    → c < 256
    → (bit_and c 0x3f ≡ c % 64)
      × (bit_and c 0x1f ≡ c % 32)
      × (bit_and c 0x0f ≡ c % 16)
      × (bit_and c 0x07 ≡ c % 8)
low_bits c h = let t = byte_lem _ c h low_table in ground arith

high_table :
    holds_from (λ c. bit_and c 0xC0 == c / 64 * 64 && bit_and c 0xF8 == c / 8 * 8) 0 256 ≡ true
unfolding holds_from
high_table = refl

pub high_bits : (c : ℕ) → c < 256 → (bit_and c 0xC0 ≡ c / 64 * 64) × (bit_and c 0xF8 ≡ c / 8 * 8)
high_bits c h = let t = byte_lem _ c h high_table in ground arith

pub is_continuation_range : (d : ℕ) → d < 256 → is_continuation d ≡ in_range 0x80 0xBF d
unfolding is_continuation
is_continuation_range d h = rw ((high_bits d h).0) (ground arith)

pub lead_range :
    (c : ℕ)
    → c < 256
    → lead c ≡ (
        if in_range 0xC0 0xDF c
        then two
        else if in_range 0xE0 0xEF c
        then three
        else if in_range 0xF0 0xF7 c
        then four
        else other)
unfolding lead
lead_range c h = rw ((high_bits c h).1) (ground arith)
