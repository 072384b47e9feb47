-- ===== src/Unicode/Tests.antt =====
-- The theorems about ase/unicode.cc at concrete strings.
use anklang.Prelude.{◌≡◌, refl, arith, [], ◌∷◌}
use anklang.Unicode.Char.{utf8character, multi_byte, lead, is_continuation, one_byte}
use anklang.Unicode.Codec.{encode_one, utf8encode, utf8decode, utf8len, count_from}
use anklang.Unicode.Fs.{walk, encodefs, decodefs, displayfs}
use anklang.Unicode.EncodeDecode.{utf8decode-utf8encode}
use anklang.Unicode.FsRoundTrip.{decodefs-encodefs}

-- "ä", as UTF-8 and as Latin-1
encode_umlaut : utf8encode (0xe4 ∷ []) ≡ 0xc3 ∷ 0xa4 ∷ []
unfolding utf8encode encode_one
encode_umlaut = refl

escape_umlaut : encodefs (0xe4 ∷ []) ≡ 0xee ∷ 0xbf ∷ 0xa4 ∷ []
unfolding encodefs walk utf8character multi_byte lead is_continuation one_byte encode_one
escape_umlaut = refl

display_umlaut : displayfs (0xe4 ∷ []) ≡ 0xc3 ∷ 0xa4 ∷ []
unfolding displayfs walk utf8character multi_byte lead is_continuation one_byte encode_one
display_umlaut = refl

len_umlaut : utf8len (0x61 ∷ 0xc3 ∷ 0xa4 ∷ []) ≡ 2
unfolding utf8len count_from utf8character multi_byte lead is_continuation
len_umlaut = refl

utf8decode-utf8encode_example :
    utf8decode (utf8encode (0x41 ∷ 0xe4 ∷ 0x20ac ∷ 0x1f600 ∷ []))
    ≡ 0x41 ∷ 0xe4 ∷ 0x20ac ∷ 0x1f600 ∷ []
utf8decode-utf8encode_example =
    utf8decode-utf8encode (0x41 ∷ 0xe4 ∷ 0x20ac ∷ 0x1f600 ∷ []) (omega arith)

decodefs-encodefs_example :
    decodefs (encodefs (0x61 ∷ 0xe4 ∷ 0xc3 ∷ 0xa4 ∷ 0xee ∷ 0xbf ∷ 0xa4 ∷ []))
    ≡ 0x61 ∷ 0xe4 ∷ 0xc3 ∷ 0xa4 ∷ 0xee ∷ 0xbf ∷ 0xa4 ∷ []
decodefs-encodefs_example =
    decodefs-encodefs (0x61 ∷ 0xe4 ∷ 0xc3 ∷ 0xa4 ∷ 0xee ∷ 0xbf ∷ 0xa4 ∷ []) (omega arith)
