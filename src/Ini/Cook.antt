-- ===== src/Ini/Cook.antt =====
-- What IniFile::cook_string (ase/inifile.cc) makes of the values that IniWriter has written.
use anklang.Prelude.{
  ℕ, zero, suc, ◌-◌, ◌≤◌, ◌<◌, ◌≡◌, refl, sym, ap, ◌∙◌, ◌≢◌, inl, inr, Bool, true, false, not, ◌&&◌,
  ◌||◌, none, some, [], ◌∷◌, ◌++◌, arith, ltb, leb, ◌==◌, Bool-cases, length, take, length-append,
}
use mathlib.Core.List.{append_assoc, append-nil}
use anklang.Strings.Chars.{Text, strchr}
use anklang.Strings.Canonify.{string_is_canonified}
use anklang.Strings.Quote.{escape_letter, string_to_cescape, string_to_cquote, string_from_cquote}
use anklang.Strings.QuoteRoundTrip.{
  cescape_char-letter, cescape_char-none, length-string_to_cescape,
}
use anklang.Ini.Scan.{char_at}
use anklang.Ini.File.{cook_from, cook_string}
use anklang.Ini.Writer.{allowed_chars, written}
use anklang.Ini.Values.{Every}
use anklang.Ini.Entries.{all_pass-Every, strchr-Every, is_bare, canonified-bare}
use anklang.Ini.Quoted.{scan_escaped-string_to_cescape}

-- A character that cook_string takes over
abbrev is_raw : ℕ → Bool
is_raw c = not (c == 92) && not ((c == 34) || (c == 39))

cook_from-raw :
    (fuel : ℕ) (v u : Text) → Every is_raw u → length u ≤ fuel → cook_from fuel v u ≡ v ++ u
unfolding cook_from
cook_from-raw zero v [] h l = sym (append-nil v)
cook_from-raw (suc fuel) v [] h l = sym (append-nil v)
cook_from-raw zero v (c ∷ u) h l = absurd (omega arith)
cook_from-raw (suc fuel) v (c ∷ u) (h, hs) l =
    let a : (c == 92) ≡ false = ground (arith, h) in
    let b : ((c == 34) || (c == 39)) ≡ false = ground (arith, h) in
    rw (cook_from, a, b)
      (cook_from-raw fuel (v ++ c ∷ []) u hs (omega arith) ∙ append_assoc v (c ∷ []) u)

bare-raw : (u : Text) → Every is_bare u → Every is_raw u
unfolding strchr
bare-raw [] h = tt
bare-raw (c ∷ u) (h, hs) = (ground (arith, h), bare-raw u hs)

cook_string-raw : (u : Text) → Every is_raw u → cook_string u ≡ u
unfolding cook_string
cook_string-raw u h = cook_from-raw (length u) [] u h (omega arith)

take_snoc : (s : Text) (c : ℕ) → take (length (s ++ c ∷ []) - 1) (s ++ c ∷ []) ≡ s
take_snoc [] c = refl
take_snoc (x ∷ s) c =
    let e : length (x ∷ s ++ c ∷ []) - 1 ≡ suc (length (s ++ c ∷ []) - 1) =
      omega (arith, length-append s (c ∷ [])) in
    rw e (ap (λ (r : Text). x ∷ r) (take_snoc s c))

cook_from-nil : (fuel : ℕ) (v : Text) → cook_from fuel v [] ≡ v
unfolding cook_from
cook_from-nil zero v = refl
cook_from-nil (suc fuel) v = refl

-- Without its quotes the text is not unescaped, unless it has quotes of its own.
cook_string-quoted :
    (v : Text) → cook_string (string_to_cquote v) ≡ string_from_cquote (string_to_cescape v)
unfolding cook_string cook_from string_to_cquote
cook_string-quoted v =
    rw (scan_escaped-string_to_cescape v [], cook_from, take_snoc (string_to_cescape v) 34)
      (cook_from-nil _ (string_from_cquote (string_to_cescape v)))

-- A printable character that is neither a double quote nor a backslash
abbrev pub is_tame : ℕ → Bool
is_tame c = leb 32 c && (leb c 126 && (not (c == 34) && not (c == 92)))

tame-none : (d : ℕ) → is_tame d ≡ true → escape_letter d ≡ none
tame-none d h = ground (arith, h)

string_to_cescape-tame : (v : Text) → Every is_tame v → string_to_cescape v ≡ v
unfolding string_to_cescape
string_to_cescape-tame [] h = refl
string_to_cescape-tame (d ∷ v) (h, hs) =
    let e : (ltb d 32 || ltb 126 d) ≡ false = ground (arith, h) in
    rw (cescape_char-none d (tame-none d h), e)
      (ap (λ (r : Text). d ∷ r) (string_to_cescape-tame v hs))

string_from_cquote-unquoted :
    (v : Text) → ((char_at v == 34) || (char_at v == 39)) ≡ false → string_from_cquote v ≡ v
unfolding string_from_cquote
string_from_cquote-unquoted [] h = refl
string_from_cquote-unquoted (q ∷ s) h = rw h refl

tame-whole : (v : Text) → Every is_tame v → Every (λ c. not (c == 0)) v
tame-whole [] h = tt
tame-whole (c ∷ v) (h, hs) = (ground (arith, h), tame-whole v hs)

tame_start :
    (v : Text)
    → Every is_tame v
    → (char_at v == 39) ≡ false
    → ((char_at v == 34) || (char_at v == 39)) ≡ false
tame_start [] h n = refl
tame_start (c ∷ v) (h, hs) n = ground (arith, h, n)

-- For a value of printable ASCII characters without '"' and backslash that does not start with a
-- single quote: cook_string gives the value back from what IniWriter writes for it, quoted or
-- not.
pub cook_string-written :
    (v : Text) → Every is_tame v → (char_at v == 39) ≡ false → cook_string (written v) ≡ v
unfolding written
cook_string-written v h n = elim (Bool-cases (string_is_canonified v allowed_chars)) [
  | inl e ↦ rw e (cook_string-raw v (bare-raw v (canonified-bare v e (tame-whole v h))))
  | inr e ↦
      rw (e, cook_string-quoted v, string_to_cescape-tame v h)
        (string_from_cquote-unquoted v (tame_start v h n))
]

allowed_tame : (c : ℕ) → strchr allowed_chars c ≡ true → c ≢ 0 → is_tame c ≡ true
allowed_tame c e n =
    strchr-Every is_tame allowed_chars c (all_pass-Every is_tame allowed_chars refl) e n

escaped_not_canonified :
    (d letter : ℕ) (u : Text)
    → escape_letter d ≡ some letter
    → string_is_canonified (d ∷ u) allowed_chars ≡ false
unfolding string_is_canonified
escaped_not_canonified d letter u q =
    let used : d ≢ 0 = ground (arith, q) in
    elim (Bool-cases (strchr allowed_chars d)) [
      | inl e ↦ let none_left = tame-none d (allowed_tame d e used) in absurd cc
      | inr e ↦ rw e refl
    ]

-- For a value whose first character has an escape sequence of its own, like newline, '"' or
-- backslash: cook_string gives the escaped text from what IniWriter writes for it, which is
-- longer than the value.
pub cook_string-escaped :
    (d letter : ℕ) (u : Text)
    → escape_letter d ≡ some letter
    → (cook_string (written (d ∷ u)) ≡ string_to_cescape (d ∷ u))
      × (length (d ∷ u) < length (cook_string (written (d ∷ u))))
unfolding written string_to_cescape
cook_string-escaped d letter u q =
    let e : cook_string (written (d ∷ u)) ≡ string_to_cescape (d ∷ u) =
      rw
        (
          escaped_not_canonified d letter u q,
          cook_string-quoted (d ∷ u),
          cescape_char-letter d letter q,
        )
        (string_from_cquote-unquoted (92 ∷ letter ∷ string_to_cescape u) refl) in
    (e, rw (e, cescape_char-letter d letter q) (omega (arith, length-string_to_cescape u)))
