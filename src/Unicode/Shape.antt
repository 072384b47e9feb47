-- ===== src/Unicode/Shape.antt =====
-- The characters that encodefs (ase/unicode.cc) escapes, and those that it copies.
use anklang.Prelude.{
  ℕ, ◌+◌, ◌≤◌, ◌<◌, ◌≡◌, refl, ◌∙◌, Bool, false, ◌&&◌, arith, leb, [], ◌∷◌, ◌++◌, length, take, ◌⊎◌,
  inl, inr, Bool-cases,
}
use anklang.Unicode.Char.{
  Bytes, Char, in_range, is_continuation, Lead, two, three, four, other, lead, unicode2, unicode3,
  unicode4, one_byte, rejects, accept, multi_byte, utf8character,
}
use anklang.Unicode.Tables.{low_bits, lead_range}
use anklang.Unicode.CharLaws.{IsByte, IsText, utf8character_ascii}

abbrev pub private_use : ℕ → Bool
private_use = in_range 0xef80 0xefff

-- The character at the head of `s` is read alike by decodefs, whatever follows it.
pub record Plain (s : Bytes) (r : Char) : Type 0 where
  pub wide : 0 < r.width
  pub fits : r.width ≤ length s
  pub not_private : private_use r.unicode ≡ false
  pub again : (rest : Bytes) → utf8character 1 (take r.width s ++ rest) ≡ r

abbrev pub Escaped : ℕ → Char → Type 0
Escaped c r = (0x80 ≤ c) × (r ≡ record { width = 1; unicode = 0xef00 + c })

abbrev pub Shape : ℕ → Bytes → Char → Type 0
Shape c s r = Escaped c r ⊎ Plain s r

lead-ge : (c : ℕ) → c < 256 → (0xC0 ≤ c) ⊎ (lead c ≡ other)
lead-ge c h = rw (lead_range c h) (ground arith)

escape : (c : ℕ) (s : Bytes) → 0x80 ≤ c → Shape c s (one_byte 3 c)
unfolding one_byte
escape c s h = inl (h, ground arith)

unicode2-lt : (c d : ℕ) → c < 256 → d < 256 → unicode2 c d < 0x800
unfolding unicode2
unicode2-lt c d h k = rw ((low_bits c h).1, (low_bits d k).0) (omega arith)

-- The first byte of a sequence goes on to the switch.
past_test : (c : ℕ) (s : Bytes) → 0xC0 ≤ c → utf8character 1 (c ∷ s) ≡ multi_byte (lead c) 1 (c ∷ s)
unfolding utf8character
past_test c s h = ground arith

accepts_all : (c w u : ℕ) → accept 1 c w u ≡ record { width = w; unicode = u }
unfolding rejects
accepts_all c w u = refl

accept-Shape :
    (c w u : ℕ) (s : Bytes)
    → 0x80 ≤ c
    → 0 < w
    → w ≤ length s
    → ((rest : Bytes) → utf8character 1 (take w s ++ rest) ≡ record { width = w; unicode = u })
    → Shape c s (accept 3 c w u)
unfolding rejects
accept-Shape c w u s h pos fits again = elim (Bool-cases (rejects 3 u)) [
  | inl bad ↦ rw bad (escape c s h)
  | inr good ↦
      rw good (inr (record { wide = pos; fits = fits; not_private = ground arith; again = again }))
]

module _ (c : ℕ) (h : 0xC0 ≤ c) (k : c < 256) where
  two-Shape : (t : Bytes) → lead c ≡ two → IsText t → Shape c (c ∷ t) (multi_byte two 3 (c ∷ t))
  unfolding multi_byte is_continuation
  two-Shape [] l t = escape c (c ∷ []) (omega arith)
  two-Shape (d ∷ s) l t = elim (Bool-cases (is_continuation d)) [
    | inr bad ↦ rw bad (escape c (c ∷ d ∷ s) (omega arith))
    | inl good ↦ rw good (
        inr (record {
          wide = omega arith;
          fits = omega arith;
          not_private = let b = unicode2-lt c d k t.0.1 in ground arith;
          again = λ rest. past_test c (d ∷ rest) h ∙ rw (l, multi_byte, good) refl;
        }))
  ]

  three-Shape : (t : Bytes) → lead c ≡ three → Shape c (c ∷ t) (multi_byte three 3 (c ∷ t))
  unfolding multi_byte is_continuation
  three-Shape [] l = escape c (c ∷ []) (omega arith)
  three-Shape (d ∷ []) l = elim (Bool-cases (is_continuation d)) [
    | inr bad ↦ rw bad (escape c (c ∷ d ∷ []) (omega arith))
    | inl good ↦ rw good (escape c (c ∷ d ∷ []) (omega arith))
  ]
  three-Shape (d ∷ e ∷ s) l = elim (Bool-cases (is_continuation d && is_continuation e)) [
    | inr bad ↦ rw bad (escape c (c ∷ d ∷ e ∷ s) (omega arith))
    | inl good ↦ rw good (
        accept-Shape c 3 (unicode3 c d e) (c ∷ d ∷ e ∷ s) (omega arith) (omega arith) (omega arith)
          (λ rest. past_test c (d ∷ e ∷ rest) h ∙ rw (l, multi_byte, good) (accepts_all c 3 _)))
  ]

  four-Shape : (t : Bytes) → lead c ≡ four → Shape c (c ∷ t) (multi_byte four 3 (c ∷ t))
  unfolding multi_byte is_continuation
  four-Shape [] l = escape c (c ∷ []) (omega arith)
  four-Shape (d ∷ []) l = elim (Bool-cases (is_continuation d)) [
    | inr bad ↦ rw bad (escape c (c ∷ d ∷ []) (omega arith))
    | inl good ↦ rw good (escape c (c ∷ d ∷ []) (omega arith))
  ]
  four-Shape (d ∷ e ∷ []) l = elim (Bool-cases (is_continuation d)) [
    | inr no_d ↦ rw no_d (escape c (c ∷ d ∷ e ∷ []) (omega arith))
    | inl is_d ↦ elim (Bool-cases (is_continuation e)) [
      | inr no_e ↦ rw (is_d, no_e) (escape c (c ∷ d ∷ e ∷ []) (omega arith))
      | inl is_e ↦ rw (is_d, is_e) (escape c (c ∷ d ∷ e ∷ []) (omega arith))
    ]
  ]
  four-Shape (d ∷ e ∷ f ∷ s) l =
      elim (Bool-cases (is_continuation d && is_continuation e && is_continuation f)) [
        | inr bad ↦ rw bad (escape c (c ∷ d ∷ e ∷ f ∷ s) (omega arith))
        | inl good ↦ rw good (
            accept-Shape c 4 (unicode4 c d e f) (c ∷ d ∷ e ∷ f ∷ s) (omega arith) (omega arith)
              (omega arith)
              (λ rest.
                past_test c (d ∷ e ∷ f ∷ rest) h ∙ rw (l, multi_byte, good) (accepts_all c 4 _)))
      ]

ascii-Plain : (c : ℕ) (s : Bytes) → c < 0x80 → Plain (c ∷ s) (record { width = 1; unicode = c })
ascii-Plain c s h = record {
  wide = omega arith;
  fits = omega arith;
  not_private = ground arith;
  again = λ rest. utf8character_ascii 1 c rest h;
}

one_byte-Shape : (c : ℕ) (s : Bytes) → Shape c (c ∷ s) (one_byte 3 c)
one_byte-Shape c s = elim (Bool-cases (leb 0x80 c)) [
  | inl high ↦ escape c (c ∷ s) (ground arith)
  | inr low ↦
      let e : one_byte 3 c ≡ record { width = 1; unicode = c } = unfold one_byte in rw low in
      rw e (inr (ascii-Plain c s (ground arith)))
]

multi_byte-Shape :
    (c : ℕ) (s : Bytes) (l : Lead)
    → IsByte c
    → IsText s
    → 0xC0 ≤ c
    → lead c ≡ l
    → Shape c (c ∷ s) (multi_byte l 3 (c ∷ s))
multi_byte-Shape c s two b t h l = two-Shape c h b.1 s l t
multi_byte-Shape c s three b t h l = three-Shape c h b.1 s l
multi_byte-Shape c s four b t h l = four-Shape c h b.1 s l
multi_byte-Shape c s other b t h l = unfold multi_byte in one_byte-Shape c s

-- Every character of a text is escaped by encodefs, or copied and then read alike.
pub head-Shape :
    (c : ℕ) (s : Bytes) → IsByte c → IsText s → Shape c (c ∷ s) (utf8character 3 (c ∷ s))
unfolding utf8character
head-Shape c s b t = elim (lead-ge c b.1) [
  | inr o ↦ rw o (unfold multi_byte in one_byte-Shape c s)
  | inl h ↦ multi_byte-Shape c s (lead c) b t h refl
]
