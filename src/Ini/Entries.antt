-- ===== src/Ini/Entries.antt =====
-- The entries that IniWriter::output writes, and what IniFile reads of them (ase/inifile.cc).
use anklang.Prelude.{
  ℕ, false, some, inl, inr, ltb, Option-cases, ◌++◌, ◌≡◌, refl, sym, ap, ◌∙◌, ◌≢◌, Bool, true, not,
  ◌&&◌, ◌||◌, [], ◌∷◌, arith, ◌==◌, Bool-cases,
}
use anklang.Strings.Chars.{Text, strchr}
use anklang.Strings.KvPairs.{c_string}
use anklang.Strings.Quote.{escape_letter, cescape_char, string_to_cescape, string_to_cquote}
use anklang.Strings.QuoteRoundTrip.{cescape_char-letter, cescape_char-none}
use anklang.Strings.Canonify.{string_is_canonified}
use anklang.Ini.Writer.{allowed_chars, written}
use anklang.Ini.Values.{Every, is_solid, IsRead, solid-IsRead}
use anklang.Ini.Quoted.{string_to_cquote-IsRead}

-- A key has neither white space, brackets, '=' or ':', nor a character that scan_value treats in its own way.
abbrev pub key_ends : Text
key_ends = 91 ∷ 93 ∷ 61 ∷ 58 ∷ []

abbrev pub all_pass : (ℕ → Bool) → Text → Bool
all_pass test [] = true
all_pass test (c ∷ s) = test c && all_pass test s

pub all_pass-Every : (test : ℕ → Bool) (s : Text) → all_pass test s ≡ true → Every test s
all_pass-Every test [] h = tt
all_pass-Every test (c ∷ s) h = (ground (arith, h), all_pass-Every test s (ground (arith, h)))

pub strchr-Every :
    (test : ℕ → Bool) (chars : Text) (c : ℕ)
    → Every test chars
    → strchr chars c ≡ true
    → c ≢ 0
    → test c ≡ true
unfolding strchr
strchr-Every test [] c h e n = ground (arith, e, n)
strchr-Every test (x ∷ chars) c (h, hs) e n = elim (Bool-cases (x == c)) [
  | inl q ↦ let same : x ≡ c = ground (arith, q) in sym (ap test same) ∙ h
  | inr q ↦ strchr-Every test chars c hs (ground (arith, e, q)) n
]

-- A character that is written without quotes
abbrev pub is_bare : ℕ → Bool
is_bare c = is_solid [] c || (c == 59)

allowed_bare : (c : ℕ) → strchr allowed_chars c ≡ true → c ≢ 0 → is_bare c ≡ true
unfolding strchr
allowed_bare c e n =
    strchr-Every is_bare allowed_chars c (all_pass-Every is_bare allowed_chars refl) e n

-- No character is a NUL, or a semicolon.
abbrev pub is_uncut : ℕ → Bool
is_uncut c = not (c == 0) && not (c == 59)

pub canonified-bare :
    (v : Text)
    → string_is_canonified v allowed_chars ≡ true
    → Every (λ c. not (c == 0)) v
    → Every is_bare v
unfolding string_is_canonified
canonified-bare [] h n = tt
canonified-bare (c ∷ v) h (n, ns) = elim (Bool-cases (strchr allowed_chars c)) [
  | inl e ↦ (allowed_bare c e (ground (arith, n)), canonified-bare v (ground (arith, h, e)) ns)
  | inr e ↦ absurd (ground (arith, h, e))
]

pub bare-solid : (v : Text) → Every is_bare v → Every is_uncut v → Every (is_solid []) v
unfolding strchr
bare-solid [] h u = tt
bare-solid (c ∷ v) (h, hs) (u, us) = (ground (arith, h, u), bare-solid v hs us)

pub uncut-whole : (v : Text) → Every is_uncut v → Every (λ c. not (c == 0)) v
uncut-whole [] u = tt
uncut-whole (c ∷ v) (u, us) = (ground (arith, u), uncut-whole v us)

pub written-IsRead :
    (v : Text)
    → (string_is_canonified v allowed_chars ≡ true → Every is_uncut v)
    → IsRead (written v)
unfolding written
written-IsRead v h = elim (Bool-cases (string_is_canonified v allowed_chars)) [
  | inl e ↦ rw e (solid-IsRead v (bare-solid v (canonified-bare v e (uncut-whole v (h e))) (h e)))
  | inr e ↦ rw e (string_to_cquote-IsRead v)
]

-- A character that "%s" of string_format writes
abbrev pub is_written : ℕ → Bool
is_written c = not (c == 0)

pub c_string-whole : (s : Text) → Every is_written s → c_string s ≡ s
unfolding c_string
c_string-whole [] h = refl
c_string-whole (c ∷ s) (h, hs) =
    let e : (c == 0) ≡ false = ground (arith, h) in rw (e, c_string-whole s hs) refl

Every-++ : (test : ℕ → Bool) (s t : Text) → Every test s → Every test t → Every test (s ++ t)
Every-++ test [] t hs ht = ht
Every-++ test (c ∷ s) t (h, hs) ht = (h, Every-++ test s t hs ht)

escape_letter-written : (d letter : ℕ) → escape_letter d ≡ some letter → is_written letter ≡ true
escape_letter-written d letter h = ground arith

cescape_char-written : (d : ℕ) → Every is_written (cescape_char d)
cescape_char-written d = elim (Option-cases (escape_letter d)) [
  | inr (letter, q) ↦
      rw (cescape_char-letter d letter q) (refl, (escape_letter-written d letter q, tt))
  | inl q ↦ elim (Bool-cases (ltb d 32 || ltb 126 d)) [
    | inl k ↦
        rw (cescape_char-none d q, k) (refl, (ground arith, (ground arith, (ground arith, tt))))
    | inr k ↦ rw (cescape_char-none d q, k) (ground (arith, k), tt)
  ]
]

string_to_cescape-written : (v : Text) → Every is_written (string_to_cescape v)
unfolding string_to_cescape
string_to_cescape-written [] = tt
string_to_cescape-written (d ∷ v) =
    Every-++ is_written (cescape_char d) (string_to_cescape v) (cescape_char-written d)
      (string_to_cescape-written v)

pub solid-written : (s : Text) → Every (is_solid key_ends) s → Every is_written s
unfolding strchr
solid-written [] h = tt
solid-written (c ∷ s) (h, hs) = (ground (arith, h), solid-written s hs)

-- No NUL is written for a value.
pub c_string-written :
    (v : Text)
    → (string_is_canonified v allowed_chars ≡ true → Every is_written v)
    → c_string (written v) ≡ written v
unfolding written string_to_cquote
c_string-written v h = elim (Bool-cases (string_is_canonified v allowed_chars)) [
  | inl e ↦ rw e (c_string-whole v (h e))
  | inr e ↦ rw e (
      c_string-whole (34 ∷ string_to_cescape v ++ 34 ∷ []) (
        refl,
        Every-++ is_written (string_to_cescape v) (34 ∷ []) (string_to_cescape-written v)
            (refl, tt),
      ))
]
