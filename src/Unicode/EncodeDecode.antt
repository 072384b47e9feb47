-- ===== src/Unicode/EncodeDecode.antt =====
-- utf8encode against utf8_to_unicode and utf8len (ase/unicode.cc).
use anklang.Prelude.{
  ℕ, zero, suc, ◌+◌, ◌-◌, ◌/◌, ◌%◌, ◌≤◌, ◌<◌, ◌≡◌, refl, ap, ◌∙◌, false, arith, leb, ◌==◌, List, [],
  ◌∷◌, ◌++◌, length, length-append, drop, Bool-cases, inl, inr,
}
use anklang.Prelude.Bits.{mask_63}
use anklang.Unicode.Char.{Bytes, byte_at, Char, utf8character}
use anklang.Unicode.Codec.{encode_one, utf8encode, decode_from, utf8decode}
use anklang.Unicode.CharLaws.{
  utf8character_ascii, utf8character_two, utf8character_three, utf8character_four,
}

encode_2 : (u : ℕ) → 0x80 ≤ u → u ≤ 0x7FF → encode_one u ≡ (0xC0 + u / 64) ∷ (0x80 + u % 64) ∷ []
unfolding encode_one
encode_2 u h k = ground (arith, mask_63 u)

pub encode_3 :
    (u : ℕ)
    → 0x800 ≤ u
    → u ≤ 0xFFFF
    → encode_one u ≡ (0xE0 + u / 4096) ∷ (0x80 + u / 64 % 64) ∷ (0x80 + u % 64) ∷ []
unfolding encode_one
encode_3 u h k = ground (arith, mask_63 u, mask_63 (u / 64))

encode_4 :
    (u : ℕ)
    → 0x10000 ≤ u
    → u ≤ 0x10FFFF
    → encode_one u
      ≡ (0xF0 + u / 262144) ∷ (0x80 + u / 4096 % 64) ∷ (0x80 + u / 64 % 64) ∷ (0x80 + u % 64) ∷ []
unfolding encode_one
encode_4 u h k = ground (arith, mask_63 u, mask_63 (u / 64), mask_63 (u / 4096))

encode_1 : (u : ℕ) → u ≤ 0x7F → encode_one u ≡ u ∷ []
unfolding encode_one
encode_1 u h = ground arith

-- The encoding of a code point up to 0x10FFFF, whatever follows it, is read back as that code
-- point, over all of its bytes.
pub encoded_read :
    (u : ℕ) (x : Bytes)
    → u ≤ 0x10FFFF
    → utf8character 1 (encode_one u ++ x) ≡ record { width = length (encode_one u); unicode = u }
encoded_read u x h = elim (Bool-cases (leb u 0x7F)) [
  | inl a ↦ rw (encode_1 u (ground arith)) (utf8character_ascii 1 u x (ground arith))
  | inr a ↦ elim (Bool-cases (leb u 0x7FF)) [
    | inl b ↦ rw (encode_2 u (ground arith) (ground arith)) (
        utf8character_two 1 (0xC0 + u / 64) x (0x80 + u % 64) (omega arith) (ground arith)
          (omega arith) (omega arith)
        ∙ ap (λ t. record { width = 2; unicode = t }) (omega arith))
    | inr b ↦ elim (Bool-cases (leb u 0xFFFF)) [
      | inl c ↦ rw (encode_3 u (ground arith) (ground arith)) (
          utf8character_three (0xE0 + u / 4096) x (0x80 + u / 64 % 64) (0x80 + u % 64) (omega arith)
            (ground arith) (omega arith) (omega arith) (omega arith) (omega arith)
          ∙ ap (λ t. record { width = 3; unicode = t }) (omega arith))
      | inr c ↦ rw (encode_4 u (ground arith) h) (
          utf8character_four (0xF0 + u / 262144) x (0x80 + u / 4096 % 64) (0x80 + u / 64 % 64)
            (0x80 + u % 64) (omega arith) (omega arith) (omega arith) (omega arith) (omega arith)
            (omega arith) (omega arith) (omega arith)
          ∙ ap (λ t. record { width = 4; unicode = t }) (omega arith))
    ]
  ]
]

encode_one-first :
    (u : ℕ) → 0 < u → u ≤ 0x10FFFF → (b : ℕ) × (t : Bytes) × (encode_one u ≡ (suc b) ∷ t)
encode_one-first u pos h = elim (Bool-cases (leb u 0x7F)) [
  | inl a ↦ (u - 1, [], encode_1 u (ground arith) ∙ ap (λ t. t ∷ []) (omega arith))
  | inr a ↦ elim (Bool-cases (leb u 0x7FF)) [
    | inl b ↦ (
      0xBF + u / 64,
      _,
      encode_2 u (ground arith) (ground arith) ∙ ap (λ t. t ∷ (0x80 + u % 64) ∷ []) (omega arith),
    )
    | inr b ↦ elim (Bool-cases (leb u 0xFFFF)) [
      | inl c ↦ (
        0xDF + u / 4096,
        _,
        encode_3 u (ground arith) (ground arith)
            ∙ ap (λ t. t ∷ (0x80 + u / 64 % 64) ∷ (0x80 + u % 64) ∷ []) (omega arith),
      )
      | inr c ↦ (
        0xEF + u / 262144,
        _,
        encode_4 u (ground arith) h
            ∙ ap (λ t. t ∷ (0x80 + u / 4096 % 64) ∷ (0x80 + u / 64 % 64) ∷ (0x80 + u % 64) ∷ [])
                (omega arith),
      )
    ]
  ]
]

pub drop-length : (s x : Bytes) → drop (length s) (s ++ x) ≡ x
drop-length [] x = refl
drop-length (c ∷ s) x = drop-length s x

-- Code points that UTF-8 can hold in a C string: not NUL.
abbrev pub AllCodes : List ℕ → Type 0
AllCodes [] = Unit
AllCodes (u ∷ us) = (0 < u) × (u ≤ 0x10FFFF) × AllCodes us

decode_from-step :
    (f : ℕ) (s : Bytes) (c : Char)
    → (byte_at s 0 == 0) ≡ false
    → utf8character 1 s ≡ c
    → decode_from (suc f) s ≡ c.unicode ∷ decode_from f (drop c.width s)
unfolding decode_from
decode_from-step f s c h e = rw (h, e)

encoded_starts :
    (u : ℕ) (x : Bytes)
    → 0 < u
    → u ≤ 0x10FFFF
    → ((byte_at (encode_one u ++ x) 0 == 0) ≡ false) × (0 < length (encode_one u))
encoded_starts u x pos h =
    let (b, t, e) = encode_one-first u pos h in rw e (ground arith, omega arith)

decode_from-encode :
    (us : List ℕ) (fuel : ℕ)
    → AllCodes us
    → length (utf8encode us) ≤ fuel
    → decode_from fuel (utf8encode us) ≡ us
unfolding utf8encode
decode_from-encode [] zero a h = unfold decode_from in refl
decode_from-encode [] (suc fuel) a h = unfold decode_from in refl
decode_from-encode (u ∷ us) zero a h =
    absurd
      (omega (arith, length-append (encode_one u) (utf8encode us), encoded_starts u [] a.0 a.1))
decode_from-encode (u ∷ us) (suc fuel) a h =
    let x = utf8encode us in
    let start = encoded_starts u x a.0 a.1 in
    decode_from-step fuel (encode_one u ++ x) _ start.0 (encoded_read u x a.1)
    ∙ ap (◌∷◌ u) (
        ap (decode_from fuel) (drop-length (encode_one u) x)
        ∙ decode_from-encode us fuel a.2 (omega (arith, length-append (encode_one u) x, start.1)))

-- Decoding takes back what encoding wrote, for code points from 1 to 0x10FFFF.
pub utf8decode-utf8encode : (us : List ℕ) → AllCodes us → utf8decode (utf8encode us) ≡ us
unfolding utf8decode
utf8decode-utf8encode us a = decode_from-encode us (length (utf8encode us)) a (omega arith)
