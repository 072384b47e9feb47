-- ===== src/Strings/QuoteRoundTrip.antt =====
-- C strings: quoting and parsing (ase/strings.cc).
use anklang.Prelude.{
  ℕ, zero, suc, ◌+◌, ◌-◌, ◌*◌, ◌/◌, ◌%◌, ◌≤◌, ◌<◌, ◌≡◌, refl, inl, inr, true, false, ◌||◌, none,
  some, [], ◌∷◌, ◌++◌, arith, ltb, ◌==◌, if◌then◌else◌, Bool-cases, Option-cases, length,
  length-append,
}
use mathlib.Core.List.{append_assoc, append-nil}
use anklang.Strings.Chars.{Text, is_octal, IsBytes}
use anklang.Strings.Quote.{
  escape_letter, octal_escape, cescape_char, string_to_cescape, string_to_cquote, unescape_letter,
  octal_from, unescape, unquote, string_from_cquote,
}

escape_letter-some :
    (d letter : ℕ)
    → escape_letter d ≡ some letter
    → (is_octal letter ≡ false) × (unescape_letter letter ≡ d)
unfolding unescape_letter
escape_letter-some d letter h = (ground arith, ground arith)

pub escape_letter-none :
    (d : ℕ) → escape_letter d ≡ none → ((d == 34) ≡ false) × ((d == 92) ≡ false)
escape_letter-none d h = (ground arith, ground arith)

is_octal-digit : (x : ℕ) → x < 8 → is_octal (48 + x) ≡ true
is_octal-digit x h = ground arith

octal_digit : (x : ℕ) → 48 + x - 48 ≡ x
octal_digit x = omega arith

unescape-letter :
    (d letter : ℕ) (t : Text) → escape_letter d ≡ some letter → unescape letter t ≡ (d, t)
unfolding unescape
unescape-letter d letter t h =
    let (not_octal, back) = escape_letter-some d letter h in rw (not_octal, back) refl

unescape-octal :
    (d : ℕ) (t : Text)
    → d < 256
    → unescape (48 + d / 64) ((48 + d / 8 % 8) ∷ (48 + d % 8) ∷ t) ≡ (d, t)
unfolding unescape octal_from
unescape-octal d t h =
    let first = is_octal-digit (d / 64) (ground arith) in
    let second = is_octal-digit (d / 8 % 8) (ground arith) in
    let third = is_octal-digit (d % 8) (ground arith) in
    let whole : ((d / 64 * 8 + d / 8 % 8) * 8 + d % 8) % 256 ≡ d = ground arith in
    rw
      (
        first,
        second,
        third,
        octal_digit (d / 64),
        octal_digit (d / 8 % 8),
        octal_digit (d % 8),
        whole,
      )
      refl

-- The three forms of a character
pub cescape_char-letter :
    (d letter : ℕ) → escape_letter d ≡ some letter → cescape_char d ≡ 92 ∷ letter ∷ []
unfolding cescape_char
cescape_char-letter d letter q = rw (cescape_char, q) refl

pub cescape_char-none :
    (d : ℕ)
    → escape_letter d ≡ none
    → cescape_char d ≡ (if ltb d 32 || ltb 126 d then octal_escape d else d ∷ [])
unfolding cescape_char
cescape_char-none d q = rw (cescape_char, q) refl

unquote-cescape_char :
    (fuel d : ℕ) (out t : Text)
    → d < 256
    → unquote (suc fuel) 34 out (cescape_char d ++ t) ≡ unquote fuel 34 (out ++ d ∷ []) t
unfolding unquote
unquote-cescape_char fuel d out t h = elim (Option-cases (escape_letter d)) [
  | inr (letter, q) ↦ rw (cescape_char-letter d letter q, unescape-letter d letter t q) refl
  | inl q ↦ elim (Bool-cases (ltb d 32 || ltb 126 d)) [
    | inl k ↦ rw (cescape_char-none d q, k, unescape-octal d t h) refl
    | inr k ↦
        let (no_quote, no_backslash) = escape_letter-none d q in
        rw (cescape_char-none d q, k, unquote, no_quote, no_backslash) refl
  ]
]

unquote-string_to_cescape :
    (fuel : ℕ) (out str : Text)
    → IsBytes str
    → length str < fuel
    → unquote fuel 34 out (string_to_cescape str ++ 34 ∷ []) ≡ some (out ++ str, [])
unfolding string_to_cescape unquote
unquote-string_to_cescape zero out str b h = absurd (omega (arith, h))
unquote-string_to_cescape (suc fuel) out [] b h = rw (append-nil out) refl
unquote-string_to_cescape (suc fuel) out (d ∷ str) b h =
    rw
      (
        append_assoc (cescape_char d) (string_to_cescape str) (34 ∷ []),
        unquote-cescape_char fuel d out (string_to_cescape str ++ 34 ∷ []) (b.0),
        unquote-string_to_cescape fuel (out ++ d ∷ []) str (b.1) (omega (arith, h)),
        append_assoc out (d ∷ []) str,
      )
      refl

length-cescape_char : (d : ℕ) → 1 ≤ length (cescape_char d)
length-cescape_char d = elim (Option-cases (escape_letter d)) [
  | inr (letter, q) ↦ rw (cescape_char-letter d letter q) (omega arith)
  | inl q ↦ elim (Bool-cases (ltb d 32 || ltb 126 d)) [
    | inl k ↦ rw (cescape_char-none d q, k) (omega arith)
    | inr k ↦ rw (cescape_char-none d q, k) (omega arith)
  ]
]

pub length-string_to_cescape : (str : Text) → length str ≤ length (string_to_cescape str)
unfolding string_to_cescape
length-string_to_cescape [] = omega arith
length-string_to_cescape (d ∷ str) = omega (
  arith,
  length-cescape_char d,
  length-string_to_cescape str,
  length-append (cescape_char d) (string_to_cescape str),
)

-- For a string of bytes: string_from_cquote gives back the string that string_to_cquote has
-- quoted, whatever characters it has.
pub string_from_cquote-string_to_cquote :
    (str : Text) → IsBytes str → string_from_cquote (string_to_cquote str) ≡ str
unfolding string_from_cquote string_to_cquote
string_from_cquote-string_to_cquote str b =
    let room = length-string_to_cescape str in
    let size = length-append (string_to_cescape str) (34 ∷ []) in
    rw
      (unquote-string_to_cescape (length (string_to_cescape str ++ 34 ∷ [])) [] str b
        (omega (arith, room, size)))
      refl
