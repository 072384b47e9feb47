-- ===== src/Ini/Tests.antt =====
-- Runs of ase/inifile.cc on small inputs.
use anklang.Prelude.{◌<◌, ◌≡◌, refl, some, [], ◌∷◌, ◌++◌, length}
use anklang.Strings.Chars.{Text, strchr}
use anklang.Strings.Canonify.{string_is_canonified}
use anklang.Strings.Quote.{string_to_cescape}
use anklang.Ini.File.{parse_assignment, cook_string, load_ini, value_as_string}
use anklang.Ini.Writer.{written, entry_line, set_value, output}
use anklang.Ini.Lines.{parse_assignment-entry_line, parse_assignment-semicolon}
use anklang.Ini.RoundTrip.{value_as_string-set_value}
use anklang.Ini.Cook.{cook_string-escaped}

abbrev two_words : Text
two_words = b'a' ∷ b' ' ∷ b'b' ∷ []

parse_assignment-entry_line_example :
    parse_assignment (entry_line (b'k' ∷ []) two_words ++ b'#' ∷ [])
    ≡ some (record { key = b'k' ∷ []; locale = []; value = written two_words }, b'#' ∷ [])
unfolding strchr string_is_canonified
parse_assignment-entry_line_example =
    parse_assignment-entry_line (b'k') [] two_words (b'#' ∷ []) (refl, tt) (λ h. cc)

parse_assignment-semicolon_example :
    parse_assignment (entry_line (b'k' ∷ []) (b'a' ∷ 59 ∷ b'b' ∷ []) ++ [])
    ≡ some (record { key = b'k' ∷ []; locale = []; value = b'a' ∷ [] }, [])
unfolding strchr string_is_canonified
parse_assignment-semicolon_example =
    parse_assignment-semicolon (b'k') [] (b'a' ∷ []) (b'b' ∷ []) [] (refl, tt) refl (refl, tt)
      (refl, (refl, (refl, tt)))

value_as_string-set_value_example :
    value_as_string
      (load_ini (output (set_value [] (b's' ∷ 46 ∷ b'k' ∷ []) two_words)))
      (b's' ∷ 46 ∷ b'k' ∷ [])
    ≡ two_words
unfolding strchr string_is_canonified
value_as_string-set_value_example =
    value_as_string-set_value (b's') [] (b'k') [] two_words (refl, tt) (refl, tt)
      (refl, (refl, (refl, tt))) refl (λ h. cc)

cook_string-escaped_example :
    (cook_string (written (10 ∷ two_words)) ≡ string_to_cescape (10 ∷ two_words))
    × (4 < length (cook_string (written (10 ∷ two_words))))
cook_string-escaped_example = cook_string-escaped 10 110 two_words refl
