-- ===== src/Ini/Quoted.antt =====
-- How ase/inifile.cc reads text that string_to_cquote has quoted.
use anklang.Prelude.{
  ℕ, suc, ◌+◌, ◌-◌, ◌/◌, ◌%◌, ◌≤◌, ◌≡◌, refl, sym, ap, ◌∙◌, inl, inr, false, ◌||◌, Option, none,
  some, [], ◌∷◌, ◌++◌, arith, ltb, ◌==◌, Bool-cases, Option-cases, length, length-append,
}
use mathlib.Core.List.{append_assoc}
use anklang.Strings.Chars.{Text}
use anklang.Strings.Quote.{
  escape_letter, octal_escape, cescape_char, string_to_cescape, string_to_cquote,
}
use anklang.Strings.QuoteRoundTrip.{cescape_char-letter, cescape_char-none, escape_letter-none}
use anklang.Ini.Scan.{is_nlspace, scanned, scan_escaped, string_rtrim, scan_from, scan_value}
use anklang.Ini.Values.{IsRead, skip_whitespaces-solid}

scanned_four :
    (a b c d : ℕ) (r : Option (Text × Text))
    → scanned (a ∷ b ∷ []) (scanned (c ∷ []) (scanned (d ∷ []) r)) ≡ scanned (a ∷ b ∷ c ∷ d ∷ []) r
scanned_four a b c d none = refl
scanned_four a b c d (some r) = refl

scan_escaped-char :
    (c x : ℕ) (p : Text)
    → (c == 34) ≡ false
    → (c == 92) ≡ false
    → scan_escaped 34 (c ∷ x ∷ p) ≡ scanned (c ∷ []) (scan_escaped 34 (x ∷ p))
unfolding scan_escaped
scan_escaped-char c x p quote backslash = rw (scan_escaped, quote, backslash) refl

scan_escaped-pair :
    (x : ℕ) (p : Text) → scan_escaped 34 (92 ∷ x ∷ p) ≡ scanned (92 ∷ x ∷ []) (scan_escaped 34 p)
unfolding scan_escaped
scan_escaped-pair x p = refl

scan_escaped-octal_escape :
    (d x : ℕ) (p : Text)
    → scan_escaped 34 (octal_escape d ++ x ∷ p) ≡ scanned (octal_escape d) (scan_escaped 34 (x ∷ p))
scan_escaped-octal_escape d x p =
    let first = 48 + d / 64 in
    let second = 48 + d / 8 % 8 in
    let third = 48 + d % 8 in
    scan_escaped-pair first (second ∷ third ∷ x ∷ p)
    ∙ ap (scanned (92 ∷ first ∷ [])) (
        scan_escaped-char second third (x ∷ p) (ground arith) (ground arith)
        ∙ ap (scanned (second ∷ [])) (scan_escaped-char third x p (ground arith) (ground arith)))
    ∙ scanned_four 92 first second third (scan_escaped 34 (x ∷ p))

-- The escape of a character has no quote that scan_escaped takes for the end.
scan_escaped-cescape_char :
    (d : ℕ) (p : Text)
    → 1 ≤ length p
    → scan_escaped 34 (cescape_char d ++ p) ≡ scanned (cescape_char d) (scan_escaped 34 p)
scan_escaped-cescape_char d [] room = absurd (omega arith)
scan_escaped-cescape_char d (x ∷ p) room = elim (Option-cases (escape_letter d)) [
  | inr (letter, q) ↦ rw (cescape_char-letter d letter q) (scan_escaped-pair letter (x ∷ p))
  | inl q ↦ elim (Bool-cases (ltb d 32 || ltb 126 d)) [
    | inl k ↦ rw (cescape_char-none d q, k) (scan_escaped-octal_escape d x p)
    | inr k ↦
        let n = escape_letter-none d q in
        rw (cescape_char-none d q, k) (scan_escaped-char d x p n.0 n.1)
  ]
]

pub scan_escaped-string_to_cescape :
    (v p : Text)
    → scan_escaped 34 (string_to_cescape v ++ 34 ∷ p) ≡ some (string_to_cescape v ++ 34 ∷ [], p)
unfolding string_to_cescape scan_escaped
scan_escaped-string_to_cescape [] [] = refl
scan_escaped-string_to_cescape [] (x ∷ p) = refl
scan_escaped-string_to_cescape (d ∷ v) p =
    rw
      (
        append_assoc (cescape_char d) (string_to_cescape v) (34 ∷ p),
        scan_escaped-cescape_char d (string_to_cescape v ++ 34 ∷ p)
            (omega (arith, length-append (string_to_cescape v) (34 ∷ p))),
        scan_escaped-string_to_cescape v p,
      )
      (ap (λ (s : Text). some (s, p))
        (sym (append_assoc (cescape_char d) (string_to_cescape v) (34 ∷ []))))

string_rtrim-snoc :
    (s : Text) (c : ℕ) → is_nlspace c ≡ false → string_rtrim (s ++ c ∷ []) ≡ s ++ c ∷ []
unfolding string_rtrim
string_rtrim-snoc [] c h = rw h refl
string_rtrim-snoc (x ∷ []) c h = rw (string_rtrim-snoc [] c h, string_rtrim) refl
string_rtrim-snoc (x ∷ y ∷ s) c h = rw (string_rtrim-snoc (y ∷ s) c h, string_rtrim) refl

scan_from-quoted :
    (fuel : ℕ) (v rest : Text)
    → scan_from (suc (suc fuel)) [] (34 ∷ (string_to_cescape v ++ 34 ∷ 10 ∷ rest)) []
      ≡ some (34 ∷ (string_to_cescape v ++ 34 ∷ []), 10 ∷ rest)
unfolding scan_from
scan_from-quoted fuel v rest =
    rw (scan_escaped-string_to_cescape v (10 ∷ rest), scan_from)
      (ap (λ (s : Text). some (s, 10 ∷ rest))
        (string_rtrim-snoc (34 ∷ string_to_cescape v) 34 refl))

quoted_value :
    (v rest : Text)
    → scan_value (string_to_cquote v ++ 10 ∷ rest) [] ≡ some (string_to_cquote v, 10 ∷ rest)
unfolding scan_value string_to_cquote
quoted_value v rest =
    let body = string_to_cescape v in
    let text : Text = 34 ∷ (body ++ 34 ∷ 10 ∷ rest) in
    let enough : length text + 1 ≡ suc (suc (length text - 1)) = omega arith in
    rw (append_assoc body (34 ∷ []) (10 ∷ rest), enough) (scan_from-quoted (length text - 1) v rest)

pub string_to_cquote-IsRead : (v : Text) → IsRead (string_to_cquote v)
unfolding string_to_cquote
string_to_cquote-IsRead v = record {
  kept = λ rest. skip_whitespaces-solid 34 (string_to_cescape v ++ 34 ∷ [] ++ 10 ∷ rest) refl;
  value = quoted_value v;
}
