-- ===== src/Strings/Options.antt =====
-- Lists of options, separated by ':' or ';' (ase/strings.cc).
use anklang.Prelude.{
  ℕ, zero, suc, ◌+◌, ◌-◌, ◌≡◌, refl, inl, inr, Bool, true, false, ◌&&◌, ◌||◌, Option, none, some,
  [], ◌∷◌, arith, ltb, leb, ◌==◌, if◌then◌else◌, Option-cases, length, get_or, take, drop,
}
use anklang.Strings.Chars.{Text}
use anklang.Strings.KvPairs.{equals_n}

unfoldable pub is_separator : ℕ → Bool
is_separator c = (c == 59) || (c == 58)

-- `*s == 0` at the end of the string
abbrev pub at : Text → ℕ → ℕ
at s i = get_or s i 0

-- strcasestr: the first place of the needle from `i` on, with `rounds` places behind it
unfoldable pub strcasestr : Text → Text → ℕ → ℕ → Option ℕ
strcasestr haystack needle i zero = none
strcasestr haystack needle i (suc rounds) =
    let rest = strcasestr haystack needle (i + 1) rounds in
    if leb (i + length needle) (length haystack) && equals_n false (drop i haystack) needle
    then some i
    else rest

-- "no-"
abbrev pub no_prefix : Text
no_prefix = 110 ∷ 111 ∷ 45 ∷ []

-- The two conditions of the loop at `c`
unfoldable pub denies : Text → ℕ → ℕ → Bool
denies haystack l c =
    ((at haystack (c + l) == 0) && is_separator (at haystack (c + l)))
    && (((c == 3) && equals_n false haystack no_prefix)
        || (leb 4 c
            && (is_separator (at haystack 0) && equals_n false (drop 1 haystack) no_prefix)))

unfoldable pub allows : Text → ℕ → ℕ → ℕ → Bool
allows haystack l allowoption c =
    ((leb 2 allowoption && (at haystack (c + l) == 61))
      || ((at haystack (c + l) == 0) || is_separator (at haystack (c + l))))
    && ((c == 0) || is_separator (at haystack (c - 1)))

-- The loop, over all places of the needle from `i` on
unfoldable pub find_option_from : ℕ → Text → Text → ℕ → ℕ → Option ℕ → Option ℕ
find_option_from zero haystack needle allowoption i match = match
find_option_from (suc fuel) haystack needle allowoption i match =
    elim (strcasestr haystack needle i (suc (length haystack) - i)) [
      | none ↦ match
      | some c ↦ find_option_from fuel haystack needle allowoption (c + 1) (
          if allowoption == 0
          then (if denies haystack (length needle) c then some c else match)
          else if allows haystack (length needle) allowoption c
          then some c
          else match)
    ]

unfoldable pub find_option : Text → Text → ℕ → Option ℕ
find_option haystack needle allowoption =
    find_option_from (suc (length haystack)) haystack needle allowoption 0 none

-- Up to a separator
unfoldable pub separator_strlen : Text → ℕ
separator_strlen [] = 0
separator_strlen (c ∷ s) =
    let rest = separator_strlen s in if (c == 0) || is_separator c then 0 else suc rest

-- `deny > match` on pointers into one string, nullptr before all
abbrev pub later : Option ℕ → Option ℕ → Bool
later none match = false
later (some d) none = true
later (some d) (some m) = ltb m d

-- "1", "all" and "none"
abbrev pub one : Text
one = 49 ∷ []

abbrev pub all : Text
all = 97 ∷ 108 ∷ 108 ∷ []

abbrev pub none_word : Text
none_word = 110 ∷ 111 ∷ 110 ∷ 101 ∷ []

-- With no place of the feature itself
unfoldable pub all_or_none : Text → Text → Text → ℕ → Text
all_or_none string fallback denied matching =
    if leb 3 matching
    then elim (find_option string all 1) [
      | some c ↦ one
      | none ↦ elim (find_option string none_word 1) [ some c ↦ denied | none ↦ fallback ]
    ]
    else fallback

unfoldable pub string_option_find_value : Text → Text → Text → Text → ℕ → Text
string_option_find_value string feature fallback denied matching =
    let match = find_option string feature 2 in
    let deny = find_option string feature 0 in
    let l = length feature in
    if (at string 0 == 0) || (at feature 0 == 0)
    then fallback
    else if leb 2 matching && later deny match
    then denied
    else elim match [
      | some m ↦
          if at string (m + l) == 61
          then take (separator_strlen (drop (m + l + 1) string)) (drop (m + l + 1) string)
          else one
      | none ↦ all_or_none string fallback denied matching
    ]

-- "0" stands for what is denied.
unfoldable pub string_option_find : Text → Text → Text → Text
string_option_find optionlist feature fallback =
    string_option_find_value optionlist feature fallback (48 ∷ []) 3

denies-none : (haystack : Text) (l c : ℕ) → denies haystack l c ≡ false
unfolding denies is_separator
denies-none haystack l c = ground arith

find_option_from-deny :
    (fuel : ℕ) (haystack needle : Text) (i : ℕ)
    → find_option_from fuel haystack needle 0 i none ≡ none
unfolding find_option_from
find_option_from-deny zero haystack needle i = refl
find_option_from-deny (suc fuel) haystack needle i =
    elim (Option-cases (strcasestr haystack needle i (suc (length haystack) - i))) [
      | inl n ↦ rw (find_option_from, n) refl
      | inr (c, e) ↦
          rw (find_option_from, e, denies-none haystack (length needle) c)
            (find_option_from-deny fuel haystack needle (c + 1))
    ]

find_option-deny : (haystack needle : Text) → find_option haystack needle 0 ≡ none
unfolding find_option
find_option-deny haystack needle = find_option_from-deny (suc (length haystack)) haystack needle 0

-- Without matching of "all" and "none", the text for denied options makes no difference to
-- string_option_find_value, on any list of options.
denied_ignored :
    (string feature fallback denied other : Text)
    → string_option_find_value string feature fallback denied 2
      ≡ string_option_find_value string feature fallback other 2
unfolding string_option_find_value all_or_none
denied_ignored string feature fallback denied other = rw (find_option-deny string feature) refl
