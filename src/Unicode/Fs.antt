-- ===== src/Unicode/Fs.antt =====
-- ase/unicode.cc: encodefs, decodefs and displayfs. The bytes of an invalid sequence stand at the
-- code points 0xef80..0xefff.
use anklang.Prelude.{ℕ, zero, suc, ◌-◌, [], ◌∷◌, ◌++◌, length, take, drop, ◌==◌, if◌then◌else◌}
use anklang.Prelude.Words.{u8}
use anklang.Unicode.Char.{Bytes, byte_at, in_range, utf8character}
use anklang.Unicode.Codec.{encode_one}

-- The loop that the three share: `cp` for utf8character, and what is written for an escape.
unfoldable pub walk : (ℕ → Bytes) → ℕ → ℕ → Bytes → Bytes
walk escape cp zero s = []
walk escape cp (suc fuel) s =
    let c = utf8character cp s in
    let rest = walk escape cp fuel (drop c.width s) in
    let more =
      (if in_range 0xef80 0xefff c.unicode then escape c.unicode else take c.width s) ++ rest in
    if byte_at s 0 == 0 then [] else more

unfoldable pub encodefs : Bytes → Bytes
encodefs s = walk encode_one 3 (length s) s

-- char (unicode - (0xef80 - 0x80))
abbrev pub escaped_byte : ℕ → Bytes
escaped_byte u = u8 (u - (0xef80 - 0x80)) ∷ []

unfoldable pub decodefs : Bytes → Bytes
decodefs s = walk escaped_byte 1 (length s) s

abbrev pub latin1 : ℕ → Bytes
latin1 u = encode_one (u - (0xef80 - 0x80))

unfoldable pub displayfs : Bytes → Bytes
displayfs s = walk latin1 2 (length s) s
