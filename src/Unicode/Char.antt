-- ===== src/Unicode/Char.antt =====
-- ase/unicode.cc: utf8character. A string is the list of its bytes; a read at its end is the
-- terminating NUL. `cp` is the template argument CODEPOINT.
use Prim.Native.Nat.{bit_and}
use anklang.Prelude.{
  ℕ, ◌+◌, ◌-◌, ◌*◌, ◌^◌, Bool, ◌&&◌, ◌||◌, List, get_or, ltb, leb, ◌==◌, if◌then◌else◌,
}

abbrev pub Bytes : Type 0
Bytes = List ℕ

abbrev pub byte_at : Bytes → ℕ → ℕ
byte_at s i = get_or s i 0

-- What utf8character returns, and what it stores in `*unicode`.
pub record Char : Type 0 where
  pub width : ℕ
  pub unicode : ℕ

abbrev pub in_range : ℕ → ℕ → ℕ → Bool
in_range lo hi u = leb lo u && leb u hi

-- (d & 0xC0) == 0x80
unfoldable pub is_continuation : ℕ → Bool
is_continuation d = bit_and d 0xC0 == 0x80

-- The cases of `switch (c & 0xF8)`
pub data Lead : Type 0 where
  two three four other : Lead

unfoldable pub lead : ℕ → Lead
lead c =
    let k = bit_and c 0xF8 in
    if k == 0xC0 || k == 0xC8 || k == 0xD0 || k == 0xD8
    then two
    else if k == 0xE0 || k == 0xE8
    then three
    else if k == 0xF0
    then four
    else other

unfoldable pub unicode2 : ℕ → ℕ → ℕ
unicode2 c d = bit_and c 0x1f * 2 ^ 6 + bit_and d 0x3f

unfoldable pub unicode3 : ℕ → ℕ → ℕ → ℕ
unicode3 c d e = bit_and c 0x0f * 2 ^ 12 + bit_and d 0x3f * 2 ^ 6 + bit_and e 0x3f

unfoldable pub unicode4 : ℕ → ℕ → ℕ → ℕ → ℕ
unicode4 c d e f =
    bit_and c 0x07 * 2 ^ 18 + bit_and d 0x3f * 2 ^ 12 + bit_and e 0x3f * 2 ^ 6 + bit_and f 0x3f

-- The label one_byte
unfoldable pub one_byte : ℕ → ℕ → Char
one_byte cp c =
    if leb 2 cp && leb 0x80 c
    then record { width = 1; unicode = 0xef80 - 0x80 + c }
    else record { width = 1; unicode = c }

-- The tests on `*unicode` behind the 3 and 4 byte sequences
unfoldable pub rejects : ℕ → ℕ → Bool
rejects cp u = (leb 2 cp && in_range 0xd800 0xdfff u) || (leb 3 cp && in_range 0xef80 0xefff u)

abbrev pub accept : ℕ → ℕ → ℕ → ℕ → Char
accept cp c w u = if rejects cp u then one_byte cp c else record { width = w; unicode = u }

unfoldable pub multi_byte : Lead → ℕ → Bytes → Char
multi_byte two cp s =
    let c = byte_at s 0 in
    let d = byte_at s 1 in
    if is_continuation d then record { width = 2; unicode = unicode2 c d } else one_byte cp c
multi_byte three cp s =
    let c = byte_at s 0 in
    let d = byte_at s 1 in
    let e = byte_at s 2 in
    if is_continuation d && is_continuation e then accept cp c 3 (unicode3 c d e) else one_byte cp c
multi_byte four cp s =
    let c = byte_at s 0 in
    let d = byte_at s 1 in
    let e = byte_at s 2 in
    let f = byte_at s 3 in
    if is_continuation d && is_continuation e && is_continuation f
    then accept cp c 4 (unicode4 c d e f)
    else one_byte cp c
multi_byte other cp s = one_byte cp (byte_at s 0)

unfoldable pub utf8character : ℕ → Bytes → Char
utf8character cp s =
    let c = byte_at s 0 in
    if leb cp 1 && ltb c 0xc0 then record { width = 1; unicode = c } else multi_byte (lead c) cp s
