-- ===== src/Ini/Scan.antt =====
-- The scanning functions of ase/inifile.cc. A pointer into the data is the text from there on, up to the NUL
-- that ends it. Line numbers, which only debug messages show, are left out.
use anklang.Prelude.{
  ℕ, zero, suc, ◌+◌, Bool, true, false, ◌&&◌, ◌||◌, Option, none, some, [], ◌∷◌, ◌++◌, leb, ◌==◌,
  if◌then◌else◌, length, drop,
}
use anklang.Strings.Chars.{Text, strchr}

infixl 1 ◌>>=◌
abbrev pub ◌>>=◌ {ℓ κ} : {A : Type ℓ} {B : Type κ} → Option A → (A → Option B) → Option B
none >>= f = none
some a >>= f = f a

-- ISASCIINLSPACE and ISASCIIWHITESPACE
abbrev pub is_nlspace : ℕ → Bool
is_nlspace c = (c == 32) || (leb 9 c && leb c 13)

abbrev pub is_whitespace : ℕ → Bool
is_whitespace c = (c == 32) || ((c == 9) || (leb 11 c && leb c 13))

-- *p
abbrev pub char_at : Text → ℕ
char_at [] = 0
char_at (c ∷ p) = c

unfoldable pub skip_whitespaces : Text → Text
skip_whitespaces [] = []
skip_whitespaces (c ∷ p) = let rest = skip_whitespaces p in if is_whitespace c then rest else c ∷ p

-- One character in front of what was scanned
abbrev pub scanned : Text → Option (Text × Text) → Option (Text × Text)
scanned t none = none
scanned t (some (s, p)) = some (t ++ s, p)

-- Up to and with the terminator, and what is behind it
unfoldable pub scan_escaped : ℕ → Text → Option (Text × Text)
scan_escaped term [] = none
scan_escaped term (c ∷ []) = if c == term then some (c ∷ [], []) else none
scan_escaped term (c ∷ x ∷ p) = elim (c == term) [
  | true ↦ some (c ∷ [], x ∷ p)
  | false ↦ elim (c == 92) [
    | true ↦ scanned (c ∷ x ∷ []) (scan_escaped term p)
    | false ↦ scanned (c ∷ []) (scan_escaped term (x ∷ p))
  ]
]

unfoldable pub string_rtrim : Text → Text
string_rtrim [] = []
string_rtrim (c ∷ s) = elim (string_rtrim s) [
  | [] ↦ if is_nlspace c then [] else c ∷ []
  | x ∷ t ↦ c ∷ x ∷ t
]

-- The end of a value
abbrev pub ends_value : ℕ → Bool
ends_value c = (c == 10) || ((c == 59) || (c == 35))

-- The loop, on fuel: each round moves on by a character at least, or is the last one.
unfoldable pub scan_from : ℕ → Text → Text → Text → Option (Text × Text)
scan_from zero v p termchars = none
scan_from (suc fuel) v [] termchars = some (string_rtrim v, [])
scan_from (suc fuel) v (c ∷ p) termchars = elim (c == 92) [
  | true ↦ elim p [
    | [] ↦ scan_from fuel v [] termchars
    | x ∷ t ↦ elim ((x == 10) || ((x == 13) && (char_at t == 10))) [
      | true ↦ scan_from fuel v (if x == 10 then t else drop 1 t) termchars
      | false ↦ scan_from fuel (v ++ 92 ∷ x ∷ []) t termchars
    ]
  ]
  | false ↦ elim ((c == 34) || (c == 39)) [
    | true ↦ elim (scan_escaped c p) [
      | some (s, t) ↦ scan_from fuel (v ++ c ∷ s) t termchars
      | none ↦ none
    ]
    | false ↦ elim (c == 13) [
      | true ↦
          scan_from fuel (if (char_at p == 0) || (char_at p == 10) then v else v ++ 32 ∷ []) p
            termchars
      | false ↦ elim (ends_value c || strchr termchars c) [
        | true ↦ some (string_rtrim v, c ∷ p)
        | false ↦ scan_from fuel (v ++ c ∷ []) p termchars
      ]
    ]
  ]
]

unfoldable pub scan_value : Text → Text → Option (Text × Text)
scan_value p termchars = scan_from (length p + 1) [] p termchars

unfoldable pub skip_line : Text → Text
skip_line [] = []
skip_line (c ∷ p) = let rest = skip_line p in if c == 10 then p else rest

unfoldable pub skip_commentline : Text → Option Text
skip_commentline p = elim (skip_whitespaces p) [
  | [] ↦ none
  | c ∷ q ↦ if (c == 35) || (c == 59) then some (skip_line q) else none
]

-- An optional '\r' goes before the newline, or before the end.
unfoldable pub skip_newline : Text → Option Text
skip_newline [] = some []
skip_newline (c ∷ p) =
    if c == 10
    then some p
    else if c == 13
    then (elim p [ [] ↦ some [] | x ∷ q ↦ if x == 10 then some q else none ])
    else none

unfoldable pub skip_to_eol : Text → Option Text
skip_to_eol p =
    if (char_at p == 35) || (char_at p == 59) then skip_commentline p else skip_newline p
