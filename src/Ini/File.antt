-- ===== src/Ini/File.antt =====
-- IniFile (ase/inifile.cc, ase/inifile.hh): its sections with the lines `key=value`, or `key[locale]=value`.
use anklang.Prelude.{
  ℕ, zero, suc, ◌+◌, ◌-◌, Bool, true, false, ◌&&◌, ◌||◌, Option, none, some, List, [], ◌∷◌, ◌++◌,
  map, ltb, ◌==◌, if◌then◌else◌, length, get_or, take, drop,
}
use anklang.Strings.Chars.{Text, Texts, strchr}
use anklang.Strings.Quote.{string_from_cquote}
use anklang.Strings.Split.{string_split, string_join, eq_text}
use anklang.Ini.Scan.{
  ◌>>=◌, char_at, skip_whitespaces, scan_escaped, scan_value, skip_line, skip_commentline,
  skip_to_eol,
}

pub record Assignment : Type 0 where
  pub key : Text
  pub locale : Text
  pub value : Text

-- A character that must stand here, and the white space behind it
unfoldable pub expect : Bool → Text → Option Text
expect fits [] = none
expect fits (c ∷ p) = if fits then some (skip_whitespaces p) else none

-- The optional locale in brackets
unfoldable pub parse_locale : Text → Option (Text × Text)
parse_locale p =
    if char_at p == 91
    then (do
      (locale, q) ← scan_value (skip_whitespaces (drop 1 p)) (91 ∷ 93 ∷ [])
      let closing = skip_whitespaces q
      r ← expect (char_at closing == 93) closing
      some (locale, r))
    else some ([], p)

unfoldable pub parse_assignment : Text → Option (Assignment × Text)
parse_assignment p = do
  (key, q) ← scan_value (skip_whitespaces p) (91 ∷ 93 ∷ 61 ∷ 58 ∷ [])
  (locale, r) ← parse_locale (skip_whitespaces q)
  s ← expect ((char_at r == 61) || (char_at r == 58)) r
  (value, t) ← scan_value s []
  rest ← skip_to_eol t
  some (record { key = key; locale = locale; value = value }, rest)

unfoldable pub parse_section : Text → Option (Text × Text)
parse_section p = do
  let start = skip_whitespaces p
  q ← expect (char_at start == 91) start
  (section, r) ← scan_value q (91 ∷ 93 ∷ [])
  let closing = skip_whitespaces r
  s ← expect (char_at closing == 93) closing
  rest ← skip_to_eol s
  some (section, rest)

abbrev pub Sections : Type 0
Sections = List (Text × Texts)

-- sections_[section].push_back (line)
unfoldable pub push_line : Sections → Text → Text → Sections
push_line [] section line = (section, line ∷ []) ∷ []
push_line ((name, lines) ∷ sections) section line =
    let rest = push_line sections section line in
    if eq_text name section then (name, lines ++ line ∷ []) ∷ sections else (name, lines) ∷ rest

-- The path of a section from '[branch "devel.wip"]'
abbrev pub unquoted : Text → Text
unquoted s = if char_at s == 34 then string_from_cquote s else s

unfoldable pub section_path : Text → Text
section_path section =
    if strchr section 34
    then string_join (46 ∷ []) (map unquoted (string_split section [] 18446744073709551615))
    else section

unfoldable pub attribute : Assignment → Text
attribute a = elim a.locale [ [] ↦ a.key | c ∷ l ↦ a.key ++ (91 ∷ c ∷ l) ++ 93 ∷ [] ]

unfoldable pub assign_line : Sections → Text → Assignment → Sections
assign_line sections section a =
    if strchr section 61 || strchr a.key 46
    then sections
    else push_line sections section (attribute a ++ 61 ∷ a.value)

-- The loop of load_ini, on fuel: each round takes a character at least.
unfoldable pub load_from : ℕ → Sections → Text → Text → Sections
load_from zero sections section p = sections
load_from (suc fuel) sections section [] = sections
load_from (suc fuel) sections section (c ∷ p) = elim (skip_commentline (c ∷ p)) [
  | some q ↦ load_from fuel sections section q
  | none ↦ elim (parse_section (c ∷ p)) [
    | some (name, q) ↦ load_from fuel sections (section_path name) q
    | none ↦ elim (parse_assignment (c ∷ p)) [
      | some (a, q) ↦ load_from fuel (assign_line sections section a) section q
      | none ↦ load_from fuel sections section (skip_line (c ∷ p))
    ]
  ]
]

unfoldable pub load_ini : Text → Sections
load_ini text = load_from (length text) [] [] text

-- The value of a line with the key
abbrev pub line_value : Text → Text → Option Text
line_value key line =
    if ltb (length key) (length line)
      && ((get_or line (length key) 0 == 61) && eq_text (take (length key) line) key)
    then some (drop (length key + 1) line)
    else none

unfoldable pub find_line : Text → Texts → Option Text
find_line key [] = none
find_line key (line ∷ lines) = elim (line_value key line) [
  | some v ↦ some v
  | none ↦ find_line key lines
]

unfoldable pub section_lines : Sections → Text → Texts
section_lines [] name = []
section_lines ((n, lines) ∷ sections) name =
    let rest = section_lines sections name in if eq_text n name then lines else rest

-- What is before the last dot and what is behind it
unfoldable pub split_dotpath : Text → Option (Text × Text)
split_dotpath [] = none
split_dotpath (c ∷ path) = elim (split_dotpath path) [
  | some (name, key) ↦ some (c ∷ name, key)
  | none ↦ if c == 46 then some ([], path) else none
]

unfoldable pub has_raw_value : Sections → Text → Option Text
has_raw_value sections dotpath = do
  (name, key) ← split_dotpath dotpath
  find_line key (section_lines sections name)

unfoldable pub cook_letter : ℕ → ℕ
cook_letter c =
    if c == 110
    then 10
    else if c == 114
    then 13
    else if c == 116
    then 9
    else if c == 98
    then 8
    else if c == 102
    then 12
    else if c == 118
    then 11
    else c

-- The loop of cook_string, on fuel: each round takes a character at least. Behind a backslash or an open quote
-- at the end the source reads on past the NUL.
unfoldable pub cook_from : ℕ → Text → Text → Text
cook_from zero v p = v
cook_from (suc fuel) v [] = v
cook_from (suc fuel) v (c ∷ p) = elim (c == 92) [
  | true ↦ elim p [ [] ↦ v | x ∷ t ↦ cook_from fuel (v ++ cook_letter x ∷ []) t ]
  | false ↦ elim ((c == 34) || (c == 39)) [
    | true ↦ elim (scan_escaped c p) [
      | some (s, t) ↦ cook_from fuel (v ++ string_from_cquote (take (length s - 1) s)) t
      | none ↦ cook_from fuel (v ++ char_at p ∷ []) (drop 1 p)
    ]
    | false ↦ cook_from fuel (v ++ c ∷ []) p
  ]
]

unfoldable pub cook_string : Text → Text
cook_string input = cook_from (length input) [] input

unfoldable pub value_as_string : Sections → Text → Text
value_as_string sections dotpath = elim (has_raw_value sections dotpath) [
  | some raw ↦ cook_string raw
  | none ↦ []
]
