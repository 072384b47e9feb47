-- ===== src/Unicode/Codec.antt =====
-- ase/unicode.cc: utf8encode, utf8_to_unicode, utf8decode and utf8len. The fuel of the loops over a
-- string is its length: each round takes a byte or more.
use anklang.Prelude.{
  ℕ, zero, suc, ◌+◌, ◌/◌, ◌^◌, List, [], ◌∷◌, ◌++◌, length, drop, leb, ◌==◌, if◌then◌else◌,
}
use Prim.Native.Nat.{bit_and}
use anklang.Unicode.Char.{Bytes, byte_at, in_range, utf8character}

-- One code point; one above U+10FFFF is left out.
unfoldable pub encode_one : ℕ → Bytes
encode_one u =
    if leb u 0x7F
    then u ∷ []
    else if in_range 0x80 0x7FF u
    then (0xC0 + u / 2 ^ 6) ∷ (0x80 + bit_and u 0x3F) ∷ []
    else if in_range 0x800 0xFFFF u
    then (0xE0 + u / 2 ^ 12) ∷ (0x80 + bit_and (u / 2 ^ 6) 0x3F) ∷ (0x80 + bit_and u 0x3F) ∷ []
    else if in_range 0x10000 0x10FFFF u
    then (0xF0 + u / 2 ^ 18)
      ∷ (0x80 + bit_and (u / 2 ^ 12) 0x3F)
      ∷ (0x80 + bit_and (u / 2 ^ 6) 0x3F)
      ∷ (0x80 + bit_and u 0x3F)
      ∷ []
    else []

unfoldable pub utf8encode : List ℕ → Bytes
utf8encode [] = []
utf8encode (u ∷ us) = encode_one u ++ utf8encode us

-- utf8_to_unicode (const char*, uint32_t*): the code points up to the NUL
unfoldable pub decode_from : ℕ → Bytes → List ℕ
decode_from zero s = []
decode_from (suc fuel) s =
    let c = utf8character 1 s in
    let rest = c.unicode ∷ decode_from fuel (drop c.width s) in
    if byte_at s 0 == 0 then [] else rest

unfoldable pub utf8decode : Bytes → List ℕ
utf8decode s = decode_from (length s) s

-- utf8len (const char*)
unfoldable pub count_from : ℕ → Bytes → ℕ
count_from zero s = 0
count_from (suc fuel) s =
    let rest = suc (count_from fuel (drop (utf8character 0 s).width s)) in
    if byte_at s 0 == 0 then 0 else rest

unfoldable pub utf8len : Bytes → ℕ
utf8len s = count_from (length s) s
