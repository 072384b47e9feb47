-- ===== src/Ini/Lines.antt =====
-- How IniFile parses the lines that IniWriter::output writes (ase/inifile.cc).
use anklang.Prelude.{
  ℕ, suc, ◌+◌, ◌≡◌, refl, ap, ◌∙◌, Bool, true, false, not, some, [], ◌∷◌, ◌++◌, arith, ◌==◌, length,
  length-append,
}
use mathlib.Core.List.{append_assoc}
use anklang.Strings.Chars.{Text, strchr}
use anklang.Strings.Canonify.{string_is_canonified}
use anklang.Ini.Scan.{
  is_whitespace, skip_whitespaces, string_rtrim, scan_value, skip_line, skip_commentline,
  skip_newline, skip_to_eol,
}
use anklang.Ini.File.{expect, parse_locale, parse_assignment}
use anklang.Ini.Writer.{allowed_chars, written, entry_line}
use anklang.Ini.Values.{
  Every, is_solid, scan_from-run, scan_from-plain, scan_from-stop, solid-plain, string_rtrim-append,
  skip_whitespaces-solid, scan_value-run,
}
use anklang.Ini.Entries.{
  key_ends, is_uncut, is_bare, bare-solid, canonified-bare, written-IsRead, uncut-whole, is_written,
  solid-written, c_string-whole, c_string-written,
}

-- A key with a space and the '=' behind it
key_value :
    (key p : Text)
    → Every (is_solid key_ends) key
    → scan_value (key ++ 32 ∷ 61 ∷ p) key_ends ≡ some (key, 61 ∷ p)
unfolding scan_value string_rtrim strchr
key_value key p h =
    scan_from-run key_ends key (32 ∷ 61 ∷ p) [] (length (key ++ 32 ∷ 61 ∷ p) + 1)
      (suc (suc (length p + 1))) (solid-plain key_ends key h)
      (omega (arith, length-append key (32 ∷ 61 ∷ p)))
    ∙ scan_from-plain key_ends (suc (length p + 1)) 32 key (61 ∷ p) refl
    ∙ scan_from-stop key_ends (length p + 1) 61 (key ++ 32 ∷ []) p refl
    ∙ ap (λ (s : Text). some (s, 61 ∷ p)) (string_rtrim-append key_ends key (32 ∷ []) h refl)

pub entry_line_lem :
    (key v rest : Text)
    → Every (is_solid key_ends) key
    → (string_is_canonified v allowed_chars ≡ true → Every is_written v)
    → entry_line key v ++ rest ≡ 9 ∷ (key ++ 32 ∷ 61 ∷ 32 ∷ (written v ++ 10 ∷ rest))
unfolding entry_line
entry_line_lem key v rest h w =
    rw (c_string-whole key (solid-written key h), c_string-written v w) (simp (append_assoc) refl)

-- A value that the rest of its line is read for
parse_assignment-value :
    (k : ℕ) (key p value t rest : Text)
    → Every (is_solid key_ends) (k ∷ key)
    → skip_whitespaces p ≡ p
    → scan_value p [] ≡ some (value, t)
    → skip_to_eol t ≡ some rest
    → parse_assignment (9 ∷ (k ∷ key ++ 32 ∷ 61 ∷ 32 ∷ p))
      ≡ some (record { key = k ∷ key; locale = []; value = value }, rest)
unfolding parse_assignment parse_locale expect skip_whitespaces
parse_assignment-value k key p value t rest (h, hs) kept scans ends =
    let solid : is_whitespace k ≡ false = ground (arith, h) in
    rw (solid, key_value (k ∷ key) (32 ∷ p) (h, hs), kept, scans, ends) refl

-- For a key that is not empty and has no white space, no NUL, none of "[]=:;#", no quotes and no
-- backslash, and a value that is quoted, or has neither ';' nor NUL where it is written as it
-- stands: IniFile parses the line that IniWriter writes for them into the key, no locale and the
-- value as it was written, and goes on behind the line, whatever follows.
pub parse_assignment-entry_line :
    (k : ℕ) (key v rest : Text)
    → Every (is_solid key_ends) (k ∷ key)
    → (string_is_canonified v allowed_chars ≡ true → Every is_uncut v)
    → parse_assignment (entry_line (k ∷ key) v ++ rest)
      ≡ some (record { key = k ∷ key; locale = []; value = written v }, rest)
unfolding skip_to_eol skip_newline
parse_assignment-entry_line k key v rest h u =
    let r = written-IsRead v u in
    rw (entry_line_lem (k ∷ key) v rest h (λ e. uncut-whole v (u e))) (
      parse_assignment-value k key (written v ++ 10 ∷ rest) (written v) (10 ∷ rest) rest h
        (r.kept rest) (r.value rest) refl)

skip_line-bare : (r rest : Text) → Every is_bare r → skip_line (r ++ 10 ∷ rest) ≡ rest
unfolding skip_line strchr
skip_line-bare [] rest h = refl
skip_line-bare (c ∷ r) rest (h, hs) =
    let e : (c == 10) ≡ false = ground (arith, h) in rw e (skip_line-bare r rest hs)

solid_kept :
    (u : Text) (p : Text) → Every (is_solid []) u → skip_whitespaces (u ++ 59 ∷ p) ≡ u ++ 59 ∷ p
solid_kept [] p h = skip_whitespaces-solid 59 p refl
solid_kept (c ∷ u) p (h, hs) = skip_whitespaces-solid c (u ++ 59 ∷ p) (ground (arith, h))

Every-append : (test : ℕ → Bool) (u r : Text) → Every test (u ++ r) → Every test u × Every test r
Every-append test [] r h = (tt, h)
Every-append test (c ∷ u) r (h, hs) = let e = Every-append test u r hs in ((h, e.0), e.1)

written_bare : (v : Text) → string_is_canonified v allowed_chars ≡ true → written v ≡ v
unfolding written
written_bare v e = rw e refl

comment_ends : (r rest : Text) → Every is_bare r → skip_to_eol (59 ∷ (r ++ 10 ∷ rest)) ≡ some rest
unfolding skip_to_eol skip_commentline skip_whitespaces
comment_ends r rest h = ap (λ (s : Text). some s) (skip_line-bare r rest h)

-- For a key that is not empty and has no white space, no NUL, none of "[]=:;#", no quotes and no
-- backslash, and a value with a ';' that has only characters that are written without quotes, and
-- no NUL: IniFile parses the line that IniWriter writes for them into the part of the value
-- before the first ';'.
pub parse_assignment-semicolon :
    (k : ℕ) (key u r rest : Text)
    → Every (is_solid key_ends) (k ∷ key)
    → string_is_canonified (u ++ 59 ∷ r) allowed_chars ≡ true
    → Every is_uncut u
    → Every (λ c. not (c == 0)) (u ++ 59 ∷ r)
    → parse_assignment (entry_line (k ∷ key) (u ++ 59 ∷ r) ++ rest)
      ≡ some (record { key = k ∷ key; locale = []; value = u }, rest)
unfolding strchr
parse_assignment-semicolon k key u r rest h canonical uncut whole =
    let v = u ++ 59 ∷ r in
    let bare = Every-append is_bare u (59 ∷ r) (canonified-bare v canonical whole) in
    let solid = bare-solid u bare.0 uncut in
    let p = u ++ 59 ∷ (r ++ 10 ∷ rest) in
    rw
      (
        entry_line_lem (k ∷ key) v rest h (λ e. whole),
        written_bare v canonical,
        append_assoc u (59 ∷ r) (10 ∷ rest),
      )
      (parse_assignment-value k key p u (59 ∷ (r ++ 10 ∷ rest)) rest h
        (solid_kept u (r ++ 10 ∷ rest) solid) (scan_value-run [] u 59 (r ++ 10 ∷ rest) solid refl)
        (comment_ends r rest bare.1.1))
