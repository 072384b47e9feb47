-- ===== src/Strings/Quote.antt =====
-- string_to_cescape, string_to_cquote and string_from_cquote (ase/strings.cc), on bytes.
use anklang.Prelude.{
  ℕ, zero, suc, ◌+◌, ◌-◌, ◌*◌, ◌/◌, ◌%◌, true, false, ◌||◌, Option, none, some, [], ◌∷◌, ◌++◌, ltb,
  ◌==◌, if◌then◌else◌, length,
}
use anklang.Strings.Chars.{Text, is_octal}

-- The character behind the backslash, for those that have one
abbrev pub escape_letter : ℕ → Option ℕ
escape_letter d =
    if d == 7
    then some 97
    else if d == 8
    then some 98
    else if d == 9
    then some 116
    else if d == 10
    then some 110
    else if d == 11
    then some 118
    else if d == 12
    then some 102
    else if d == 13
    then some 114
    else if d == 34
    then some 34
    else if d == 92
    then some 92
    else none

-- string_format ("\\%03o", d), for a byte
abbrev pub octal_escape : ℕ → Text
octal_escape d = 92 ∷ (48 + d / 64) ∷ (48 + d / 8 % 8) ∷ (48 + d % 8) ∷ []

unfoldable pub cescape_char : ℕ → Text
cescape_char d = elim (escape_letter d) [
  | some letter ↦ 92 ∷ letter ∷ []
  | none ↦ if ltb d 32 || ltb 126 d then octal_escape d else d ∷ []
]

unfoldable pub string_to_cescape : Text → Text
string_to_cescape [] = []
string_to_cescape (d ∷ str) = cescape_char d ++ string_to_cescape str

unfoldable pub string_to_cquote : Text → Text
string_to_cquote str = 34 ∷ string_to_cescape str ++ 34 ∷ []

-- The letter of an escape sequence that is no octal number
unfoldable pub unescape_letter : ℕ → ℕ
unescape_letter c =
    if c == 97
    then 7
    else if c == 110
    then 10
    else if c == 114
    then 13
    else if c == 116
    then 9
    else if c == 98
    then 8
    else if c == 102
    then 12
    else if c == 118
    then 11
    else c

-- Up to `digits` octal digits, with `oc` read so far
unfoldable pub octal_from : ℕ → ℕ → Text → ℕ × Text
octal_from zero oc s = (oc, s)
octal_from (suc digits) oc [] = (oc, [])
octal_from (suc digits) oc (c ∷ s) =
    let rest = octal_from digits (oc * 8 + (c - 48)) s in if is_octal c then rest else (oc, c ∷ s)

-- One step of the loop behind a backslash: the character, and what is behind the sequence
unfoldable pub unescape : ℕ → Text → ℕ × Text
unescape c s =
    let octal = octal_from 2 (c - 48) s in
    if is_octal c then (octal.0 % 256, octal.1) else (unescape_letter c, s)

-- The loop, on fuel, up to the closing quote; `none` stands for unclosed quotes.
unfoldable pub unquote : ℕ → ℕ → Text → Text → Option (Text × Text)
unquote zero qchar out s = none
unquote (suc fuel) qchar out [] = none
unquote (suc fuel) qchar out (c ∷ s) = elim (c == qchar) [
  | true ↦ some (out, s)
  | false ↦ elim (c == 92) [
    | true ↦ elim s [
      | [] ↦ none
      | x ∷ t ↦ unquote fuel qchar (out ++ (unescape x t).0 ∷ []) (unescape x t).1
    ]
    | false ↦ unquote fuel qchar (out ++ c ∷ []) s
  ]
]

-- Quotes that are missing or unclosed, and characters behind them, give the input.
unfoldable pub string_from_cquote : Text → Text
string_from_cquote [] = []
string_from_cquote (q ∷ s) =
    let input = q ∷ s in
    if (q == 34) || (q == 39)
    then elim (unquote (length s) q [] s) [
      | some r ↦ (elim r.1 [ [] ↦ r.0 | _ ↦ input ])
      | none ↦ input
    ]
    else input
