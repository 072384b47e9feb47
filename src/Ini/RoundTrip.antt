-- ===== src/Ini/RoundTrip.antt =====
-- From IniWriter::set to IniFile::value_as_string (ase/inifile.cc).
use anklang.Prelude.{
  ℕ, zero, suc, ◌-◌, ◌≡◌, refl, sym, ap, ◌∙◌, true, false, ◌||◌, none, some, [], ◌∷◌, ◌++◌, arith,
  ◌==◌, length, length-append,
}
use mathlib.Core.List.{append_assoc, append-nil}
use anklang.Strings.Chars.{Text, strchr}
use anklang.Strings.Canonify.{string_is_canonified}
use anklang.Strings.Split.{eq_text}
use anklang.Ini.Scan.{
  char_at, is_whitespace, skip_whitespaces, skip_commentline, skip_newline, skip_to_eol,
}
use anklang.Ini.File.{
  Assignment, Sections, expect, parse_section, parse_assignment, section_path, assign_line,
  load_from, load_ini, value_as_string,
}
use anklang.Ini.Writer.{
  allowed_chars, written, set_entry, set_in_section, set_value, entry_line, output_entries, output,
}
use anklang.Ini.Values.{Every, is_solid, skip_whitespaces-solid, scan_value-run}
use anklang.Ini.Entries.{is_uncut, uncut-whole}
use anklang.Ini.Lines.{entry_line_lem, parse_assignment-entry_line}
use anklang.Ini.Cook.{is_tame, cook_string-written}
use anklang.Ini.Paths.{
  is_name, name-solid, split_dotpath-name, split_at-first, name-apart_equals, section_path-name,
  section_name-name, assign_line-first, value_as_string-first,
}

name-inside : (s : Text) → Every is_name s → Every (is_solid (91 ∷ 93 ∷ [])) s
unfolding strchr
name-inside [] h = tt
name-inside (c ∷ s) (h, hs) = (ground (arith, h), name-inside s hs)

name_kept :
    (s p : Text) (c : ℕ)
    → Every is_name s
    → is_whitespace c ≡ false
    → skip_whitespaces (s ++ c ∷ p) ≡ s ++ c ∷ p
name_kept [] p c h w = skip_whitespaces-solid c p w
name_kept (x ∷ s) p c (h, hs) w = skip_whitespaces-solid x (s ++ c ∷ p) (ground (arith, h))

-- The line of a section
parse_section-name :
    (name rest : Text)
    → Every is_name name
    → parse_section (91 ∷ (name ++ 93 ∷ 10 ∷ rest)) ≡ some (name, rest)
unfolding parse_section expect skip_to_eol skip_newline strchr
parse_section-name name rest h =
    rw
      (
        skip_whitespaces-solid 91 (name ++ 93 ∷ 10 ∷ rest) refl,
        name_kept name (10 ∷ rest) 93 h refl,
        scan_value-run (91 ∷ 93 ∷ []) name 93 (10 ∷ rest) (name-inside name h) refl,
        skip_whitespaces-solid 93 (10 ∷ rest) refl,
        skip_whitespaces-solid 10 rest refl,
      )
      refl

-- What is written for one entry
output-first :
    (name key v : Text)
    → Every is_name name
    → Every is_name key
    → output (record { name = name; entries = (key ++ 61 ∷ v) ∷ [] } ∷ [])
      ≡ 91 ∷ (name ++ 93 ∷ 10 ∷ (entry_line key v ++ []))
unfolding output output_entries
output-first name key v n k =
    rw (section_name-name name n, split_at-first 61 key v (name-apart_equals key k), output_entries)
      (simp (append_assoc, append-nil) refl)

load_from-done :
    (fuel : ℕ) (sections : Sections) (section : Text)
    → load_from fuel sections section [] ≡ sections
unfolding load_from
load_from-done zero sections section = refl
load_from-done (suc fuel) sections section = refl

load_from-assignment :
    (fuel c : ℕ) (sections : Sections) (section p q : Text) (a : Assignment)
    → skip_commentline (c ∷ p) ≡ none
    → parse_section (c ∷ p) ≡ none
    → parse_assignment (c ∷ p) ≡ some (a, q)
    → load_from (suc fuel) sections section (c ∷ p)
      ≡ load_from fuel (assign_line sections section a) section q
unfolding load_from
load_from-assignment fuel c sections section p q a comment other e =
    rw (comment, load_from, other, load_from, e, load_from) refl

load_from-section :
    (fuel c : ℕ) (sections : Sections) (section p q name : Text)
    → skip_commentline (c ∷ p) ≡ none
    → parse_section (c ∷ p) ≡ some (name, q)
    → load_from (suc fuel) sections section (c ∷ p) ≡ load_from fuel sections (section_path name) q
unfolding load_from
load_from-section fuel c sections section p q name comment e =
    rw (comment, load_from, e, load_from) refl

-- The line of an entry is neither a comment nor a section.
no_comment : (k : ℕ) (p : Text) → is_name k ≡ true → skip_commentline (9 ∷ k ∷ p) ≡ none
unfolding skip_commentline skip_whitespaces strchr
no_comment k p h =
    let solid : is_whitespace k ≡ false = ground (arith, h) in
    let other : ((k == 35) || (k == 59)) ≡ false = ground (arith, h) in
    rw (skip_commentline, solid, other) refl

no_section : (k : ℕ) (p : Text) → is_name k ≡ true → parse_section (9 ∷ k ∷ p) ≡ none
unfolding parse_section expect skip_whitespaces strchr
no_section k p h =
    let solid : is_whitespace k ≡ false = ground (arith, h) in
    let other : (k == 91) ≡ false = ground (arith, h) in rw (solid, other) refl

load_from-entry :
    (fuel : ℕ) (name : Text) (k : ℕ) (key v : Text)
    → Every is_name name
    → Every is_name (k ∷ key)
    → (string_is_canonified v allowed_chars ≡ true → Every is_uncut v)
    → load_from (suc fuel) [] name (entry_line (k ∷ key) v ++ [])
      ≡ (name, (k ∷ key ++ 61 ∷ written v) ∷ []) ∷ []
load_from-entry fuel name k key v n h u =
    let line = entry_line_lem (k ∷ key) v [] (name-solid (k ∷ key) h) (λ e. uncut-whole v (u e)) in
    let tail = key ++ 32 ∷ 61 ∷ 32 ∷ (written v ++ 10 ∷ []) in
    let a : Assignment = record { key = k ∷ key; locale = []; value = written v } in
    let parsed =
      ap parse_assignment (sym line)
      ∙ parse_assignment-entry_line k key v [] (name-solid (k ∷ key) h) u in
    ap (load_from (suc fuel) [] name) line
    ∙ load_from-assignment fuel 9 [] name (k ∷ tail) [] a (no_comment k tail h.0)
        (no_section k tail h.0) parsed
    ∙ load_from-done fuel (assign_line [] name a) name
    ∙ assign_line-first name (k ∷ key) (written v) n h

load_ini-first :
    (name : Text) (k : ℕ) (key v : Text)
    → Every is_name name
    → Every is_name (k ∷ key)
    → (string_is_canonified v allowed_chars ≡ true → Every is_uncut v)
    → load_ini (91 ∷ (name ++ 93 ∷ 10 ∷ (entry_line (k ∷ key) v ++ [])))
      ≡ (name, (k ∷ key ++ 61 ∷ written v) ∷ []) ∷ []
unfolding load_ini skip_commentline skip_whitespaces
load_ini-first name k key v n h u =
    let rest = entry_line (k ∷ key) v ++ [] in
    let size = length-append name (93 ∷ 10 ∷ rest) in
    let fuel = length (name ++ 93 ∷ 10 ∷ rest) - 1 in
    let enough : length (name ++ 93 ∷ 10 ∷ rest) ≡ suc fuel = omega (arith, size) in
    load_from-section (length (name ++ 93 ∷ 10 ∷ rest)) 91 [] [] (name ++ 93 ∷ 10 ∷ rest) rest name
      refl (parse_section-name name rest n)
    ∙ ap (λ s. load_from (length (name ++ 93 ∷ 10 ∷ rest)) [] s rest) (section_path-name name n)
    ∙ ap (λ g. load_from g [] name rest) enough
    ∙ load_from-entry fuel name k key v n h u

set_value-first :
    (m : ℕ) (name : Text) (k : ℕ) (key v : Text)
    → Every is_name (k ∷ key)
    → set_value [] ((m ∷ name) ++ 46 ∷ (k ∷ key)) v
      ≡ record { name = m ∷ name; entries = (k ∷ key ++ 61 ∷ v) ∷ [] } ∷ []
unfolding set_value set_in_section set_entry eq_text
set_value-first m name k key v h = rw (split_dotpath-name (m ∷ name) (k ∷ key) h, set_value) refl

-- For a section and a key that are not empty and have no white space, no NUL, no dot, none of
-- "[]=:;#", no quotes and no backslash, and a value of printable ASCII characters without '"' and
-- backslash that does not start with a single quote, and has no ';' where it is written without
-- quotes: IniFile reads from what IniWriter writes for this one entry the value at its path.
pub value_as_string-set_value :
    (m : ℕ) (name : Text) (k : ℕ) (key v : Text)
    → Every is_name (m ∷ name)
    → Every is_name (k ∷ key)
    → Every is_tame v
    → (char_at v == 39) ≡ false
    → (string_is_canonified v allowed_chars ≡ true → Every is_uncut v)
    → value_as_string
        (load_ini (output (set_value [] ((m ∷ name) ++ 46 ∷ (k ∷ key)) v)))
        ((m ∷ name) ++ 46 ∷ (k ∷ key))
      ≡ v
value_as_string-set_value m name k key v n h tame start u =
    let path = (m ∷ name) ++ 46 ∷ (k ∷ key) in
    let text =
      ap output (set_value-first m name k key v h) ∙ output-first (m ∷ name) (k ∷ key) v n h in
    let loaded = ap load_ini text ∙ load_ini-first (m ∷ name) k key v n h u in
    ap (λ s. value_as_string s path) loaded
    ∙ value_as_string-first (m ∷ name) (k ∷ key) (written v) h
    ∙ cook_string-written v tame start
