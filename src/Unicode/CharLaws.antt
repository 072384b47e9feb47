-- ===== src/Unicode/CharLaws.antt =====
-- What utf8character (ase/unicode.cc) reads, by the ranges of the bytes.
use anklang.Prelude.{ℕ, zero, suc, ◌+◌, ◌-◌, ◌*◌, ◌≤◌, ◌<◌, ◌≡◌, true, arith, [], ◌∷◌}
use anklang.Unicode.Char.{
  Bytes, byte_at, is_continuation, two, three, four, other, lead, unicode2, unicode3, unicode4,
  one_byte, rejects, multi_byte, utf8character,
}
use anklang.Unicode.Tables.{low_bits, is_continuation_range, lead_range}

abbrev pub IsByte : ℕ → Type 0
IsByte c = (0 < c) × (c < 256)

-- The bytes of a C string: none is NUL.
abbrev pub IsText : Bytes → Type 0
IsText [] = Unit
IsText (c ∷ s) = IsByte c × IsText s

pub byte_at-lt : (s : Bytes) (i : ℕ) → IsText s → byte_at s i < 256
byte_at-lt [] i t = omega arith
byte_at-lt (c ∷ s) zero t = t.0.1
byte_at-lt (c ∷ s) (suc i) t = byte_at-lt s i t.1

module _ (cp c : ℕ) (rest : Bytes) where
  -- A byte below 0x80 is itself.
  pub utf8character_ascii :
      c < 0x80 → utf8character cp (c ∷ rest) ≡ record { width = 1; unicode = c }
  unfolding utf8character multi_byte one_byte
  utf8character_ascii h =
      let l : lead c ≡ other = rw (lead_range c (omega arith)) (ground arith) in rw l (ground arith)

  pub utf8character_two :
      (d : ℕ)
      → 0xC0 ≤ c
      → c ≤ 0xDF
      → 0x80 ≤ d
      → d ≤ 0xBF
      → utf8character cp (c ∷ d ∷ rest)
        ≡ record { width = 2; unicode = (c - 0xC0) * 64 + (d - 0x80) }
  unfolding utf8character multi_byte unicode2
  utf8character_two d h1 h2 h3 h4 =
      let l : lead c ≡ two = rw (lead_range c (omega arith)) (ground arith) in
      let k : is_continuation d ≡ true =
        rw (is_continuation_range d (omega arith)) (ground arith) in
      rw (l, k, (low_bits c (omega arith)).1, (low_bits d (omega arith)).0) (ground arith)

-- The longer sequences, as the conversions without checks read them (CODEPOINT 1).
module _ (c : ℕ) (rest : Bytes) where
  pub utf8character_three :
      (d e : ℕ)
      → 0xE0 ≤ c
      → c ≤ 0xEF
      → 0x80 ≤ d
      → d ≤ 0xBF
      → 0x80 ≤ e
      → e ≤ 0xBF
      → utf8character 1 (c ∷ d ∷ e ∷ rest)
        ≡ record { width = 3; unicode = (c - 0xE0) * 4096 + (d - 0x80) * 64 + (e - 0x80) }
  unfolding utf8character multi_byte unicode3 rejects
  utf8character_three d e h1 h2 h3 h4 h5 h6 =
      let l : lead c ≡ three = rw (lead_range c (omega arith)) (ground arith) in
      let k : is_continuation d ≡ true =
        rw (is_continuation_range d (omega arith)) (ground arith) in
      let m : is_continuation e ≡ true =
        rw (is_continuation_range e (omega arith)) (ground arith) in
      rw
        (
          l,
          k,
          m,
          (low_bits c (omega arith)).2,
          (low_bits d (omega arith)).0,
          (low_bits e (omega arith)).0,
        )
        (ground arith)

  pub utf8character_four :
      (d e f : ℕ)
      → 0xF0 ≤ c
      → c ≤ 0xF7
      → 0x80 ≤ d
      → d ≤ 0xBF
      → 0x80 ≤ e
      → e ≤ 0xBF
      → 0x80 ≤ f
      → f ≤ 0xBF
      → utf8character 1 (c ∷ d ∷ e ∷ f ∷ rest) ≡ record {
        width = 4;
        unicode = (c - 0xF0) * 262144 + (d - 0x80) * 4096 + (e - 0x80) * 64 + (f - 0x80);
      }
  unfolding utf8character multi_byte unicode4 rejects
  utf8character_four d e f h1 h2 h3 h4 h5 h6 h7 h8 =
      let l : lead c ≡ four = rw (lead_range c (omega arith)) (ground arith) in
      let k : is_continuation d ≡ true =
        rw (is_continuation_range d (omega arith)) (ground arith) in
      let m : is_continuation e ≡ true =
        rw (is_continuation_range e (omega arith)) (ground arith) in
      let n : is_continuation f ≡ true =
        rw (is_continuation_range f (omega arith)) (ground arith) in
      rw
        (
          l,
          k,
          m,
          n,
          (low_bits c (omega arith)).3,
          (low_bits d (omega arith)).0,
          (low_bits e (omega arith)).0,
          (low_bits f (omega arith)).0,
        )
        (ground arith)
