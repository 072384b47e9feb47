-- ===== src/Strings/Match.antt =====
-- Prefixes and suffixes, identifiers, UUIDs and replacements in strings (ase/strings.cc).
use anklang.Prelude.{
  ℕ, zero, suc, ◌+◌, ◌-◌, Bool, true, false, ◌&&◌, ◌||◌, Option, none, some, [], ◌∷◌, ◌++◌, ltb,
  leb, ◌==◌, if◌then◌else◌, length, get_or, take, drop,
}
use anklang.Strings.Chars.{Text, Texts, within, is_digit, is_xdigit, c_isalnum}
use anklang.Strings.KvPairs.{equals_n}
use anklang.Strings.Split.{eq_text, substr}

unfoldable pub string_startswith : Text → Text → Bool
string_startswith string fragment =
    leb (length fragment) (length string) && eq_text (substr string 0 (length fragment)) fragment

unfoldable pub string_endswith : Text → Text → Bool
string_endswith string fragment =
    leb (length fragment) (length string)
    && eq_text (substr string (length string - length fragment) (length fragment)) fragment

-- Any of several fragments, by one of the tests above
unfoldable pub any_fragment : (Text → Text → Bool) → Text → Texts → Bool
any_fragment matches string [] = false
any_fragment matches string (frag ∷ fragments) =
    let rest = any_fragment matches string fragments in if matches string frag then true else rest

unfoldable pub identifier_char_canon : ℕ → ℕ
identifier_char_canon c =
    if is_digit c
    then c
    else if within 65 90 c
    then c - 65 + 97
    else if within 97 122 c
    then c
    else 45

-- On C strings, which end at a NUL
unfoldable pub identifier_match : Text → Text → Bool
identifier_match [] [] = true
identifier_match [] (y ∷ str2) = y == 0
identifier_match (x ∷ str1) [] = x == 0
identifier_match (x ∷ str1) (y ∷ str2) =
    let rest = identifier_match str1 str2 in
    if (x == 0) || (y == 0)
    then (x == 0) && (y == 0)
    else if identifier_char_canon x == identifier_char_canon y
    then rest
    else false

-- For an `ident` that is no shorter than `tail`
unfoldable pub match_identifier_detailed : Text → Text → Bool
match_identifier_detailed ident tail =
    let pos = length ident - length tail in
    if ltb 0 pos && (c_isalnum (get_or ident (pos - 1) 0) && c_isalnum (get_or ident pos 0))
    then false
    else identifier_match (drop pos ident) tail

unfoldable pub string_match_identifier_tail : Text → Text → Bool
string_match_identifier_tail ident tail =
    leb (length tail) (length ident) && match_identifier_detailed ident tail

unfoldable pub string_match_identifier : Text → Text → Bool
string_match_identifier ident1 ident2 =
    (length ident1 == length ident2) && match_identifier_detailed ident1 ident2

-- The characters of a UUID from position `i` on
unfoldable pub uuid_from : ℕ → Text → Bool
uuid_from i [] = true
uuid_from i (c ∷ s) =
    let rest = uuid_from (i + 1) s in
    if (i == 8) || ((i == 13) || ((i == 18) || (i == 23)))
    then (if c == 45 then rest else false)
    else if is_xdigit c
    then rest
    else false

unfoldable pub string_is_uuid : Text → Bool
string_is_uuid uuid_string = (length uuid_string == 36) && uuid_from 0 uuid_string

unfoldable pub string_substitute_char : Text → ℕ → ℕ → Text
string_substitute_char [] match subst = []
string_substitute_char (c ∷ input) match subst =
    (if c == match then subst else c) ∷ string_substitute_char input match subst

-- The test of the loops: strncmp, which stops at a NUL
unfoldable pub has_prefix : Text → Text → Bool
has_prefix s prefix = leb (length prefix) (length s) && equals_n true s prefix

-- The last string with the prefix
unfoldable pub string_vector_find : Texts → Text → Text → Text
string_vector_find [] prefix fallback = fallback
string_vector_find (s ∷ svector) prefix fallback =
    string_vector_find svector prefix (if has_prefix s prefix then s else fallback)

unfoldable pub string_vector_find_value : Texts → Text → Text → Text
string_vector_find_value [] prefix fallback = fallback
string_vector_find_value (s ∷ svector) prefix fallback =
    string_vector_find_value svector prefix
      (if has_prefix s prefix then drop (length prefix) s else fallback)

-- The position of `marker` from `i` on, as std::string::find gives it; `rounds` positions are left.
unfoldable pub find_from : Text → Text → ℕ → ℕ → Option ℕ
find_from s marker i zero = if eq_text (substr s i (length marker)) marker then some i else none
find_from s marker i (suc rounds) =
    let rest = find_from s marker (i + 1) rounds in
    if eq_text (substr s i (length marker)) marker then some i else rest

-- The loop of string_replace
unfoldable pub replace_from : ℕ → Text → Text → Text → ℕ → Text
replace_from zero s marker replacement i = s
replace_from (suc maxn) s marker replacement i = elim (find_from s marker i (length s - i)) [
  | none ↦ s
  | some at ↦
      replace_from maxn (take at s ++ replacement ++ drop (at + length marker) s) marker replacement
        (at + length replacement)
]

unfoldable pub string_replace : Text → Text → Text → ℕ → Text
string_replace input marker replacement maxn = replace_from maxn input marker replacement 0
