-- ===== src/Ini/Writer.antt =====
-- IniWriter (ase/inifile.cc, ase/inifile.hh).
use anklang.Prelude.{
  ℕ, zero, suc, ◌+◌, true, false, ◌||◌, Option, none, some, List, [], ◌∷◌, ◌++◌, ◌==◌,
  if◌then◌else◌,
}
use anklang.Strings.Chars.{Text, Texts}
use anklang.Strings.Canonify.{string_is_canonified}
use anklang.Strings.Quote.{string_to_cquote}
use anklang.Strings.KvPairs.{c_string}
use anklang.Strings.Split.{eq_text}
use anklang.Ini.File.{split_dotpath, line_value}

pub record Section : Type 0 where
  pub name : Text
  pub entries : Texts

-- find_entry, and the assignment to what it finds or creates
unfoldable pub set_entry : Texts → Text → Text → Texts
set_entry [] key value = (key ++ 61 ∷ value) ∷ []
set_entry (entry ∷ entries) key value =
    let rest = set_entry entries key value in
    elim (line_value key entry) [ some old ↦ (key ++ 61 ∷ value) ∷ entries | none ↦ entry ∷ rest ]

-- find_section, and the change of what it finds or creates
unfoldable pub set_in_section : List Section → Text → Text → Text → List Section
set_in_section [] name key value = record { name = name; entries = set_entry [] key value } ∷ []
set_in_section (s ∷ sections) name key value =
    let rest = set_in_section sections name key value in
    if eq_text s.name name
    then record s { entries = set_entry s.entries key value } ∷ sections
    else s ∷ rest

-- The empty path, and one with nothing before or behind its last dot, change nothing. A path with no dot is
-- both the section and the key, since the test for npos lets it through.
unfoldable pub set_value : List Section → Text → Text → List Section
set_value sections path value = elim (split_dotpath path) [
  | some (name, key) ↦
      if eq_text name [] || eq_text key [] then sections else set_in_section sections name key value
  | none ↦ if eq_text path [] then sections else set_in_section sections path path value
]

-- The characters from `c` on
abbrev pub chars_from : ℕ → ℕ → Text
chars_from zero c = []
chars_from (suc n) c = c ∷ chars_from n (c + 1)

-- string_set_ascii_alnum() + "<>,;.:-_~*/+^!$=?"
abbrev pub allowed_chars : Text
allowed_chars =
    chars_from 10 48
    ++ chars_from 26 65
    ++ chars_from 26 97
    ++ 60 ∷ 62 ∷ 44 ∷ 59 ∷ 46 ∷ 58 ∷ 45 ∷ 95 ∷ 126 ∷ 42 ∷ 47 ∷ 43 ∷ 94 ∷ 33 ∷ 36 ∷ 61 ∷ 63 ∷ []

unfoldable pub written : Text → Text
written v = if string_is_canonified v allowed_chars then v else string_to_cquote v

-- What is before the first character `c`, and what is behind it
unfoldable pub split_at : ℕ → Text → Option (Text × Text)
split_at c [] = none
split_at c (x ∷ s) = elim (x == c) [
  | true ↦ some ([], s)
  | false ↦ elim (split_at c s) [ some (l, r) ↦ some (x ∷ l, r) | none ↦ none ]
]

-- The "%s" of string_format ends at a NUL.
unfoldable pub entry_line : Text → Text → Text
entry_line key value = 9 ∷ c_string key ++ 32 ∷ 61 ∷ 32 ∷ c_string (written value) ++ 10 ∷ []

-- An entry holds a '=', since set has put it there.
unfoldable pub output_entries : Texts → Text
output_entries [] = []
output_entries (raw ∷ entries) =
    (elim (split_at 61 raw) [
      | some (key, value) ↦ entry_line key value
      | none ↦ entry_line raw raw
    ])
    ++ output_entries entries

unfoldable pub section_name : Text → Text
section_name name = elim (split_at 46 name) [
  | some (sec, rest) ↦ sec ++ 32 ∷ string_to_cquote rest
  | none ↦ name
]

unfoldable pub output : List Section → Text
output [] = []
output (s ∷ sections) = elim s.entries [
  | [] ↦ output sections
  | e ∷ entries ↦
      91 ∷ section_name s.name ++ 93 ∷ 10 ∷ output_entries (e ∷ entries) ++ output sections
]
