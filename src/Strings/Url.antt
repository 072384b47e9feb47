-- ===== src/Strings/Url.antt =====
-- string_url_encode and string_url_decode (ase/strings.cc), on bytes.
use anklang.Prelude.{
  ℕ, ◌+◌, ◌-◌, ◌*◌, ◌/◌, ◌%◌, ◌<◌, ◌≡◌, refl, ◌∙◌, inl, inr, Bool, true, false, ◌&&◌, ◌||◌, [], ◌∷◌,
  ◌++◌, arith, ltb, leb, ◌==◌, if◌then◌else◌, Bool-cases,
}
use anklang.Strings.Chars.{Text, is_digit, c_isalnum, is_xdigit, strchr, IsBytes}

-- "-._~[]!()*"
abbrev pub unescaped : Text
unescaped = 45 ∷ 46 ∷ 95 ∷ 126 ∷ 91 ∷ 93 ∷ 33 ∷ 40 ∷ 41 ∷ 42 ∷ []

-- "0123456789ABCDEF", by index
abbrev pub hex : ℕ → ℕ
hex d = if ltb d 10 then 48 + d else 55 + d

-- strtol (…, 16) of one hexadecimal digit
abbrev pub hex_value : ℕ → ℕ
hex_value c = if is_digit c then c - 48 else if leb c 70 then c - 55 else c - 87

-- What is appended for the character `c`
unfoldable pub url_encode_char : Bool → ℕ → Text
url_encode_char form_url_encoded c =
    if c_isalnum c || strchr unescaped c
    then c ∷ []
    else if form_url_encoded && (c == 32)
    then 43 ∷ []
    else 37 ∷ hex (c / 16) ∷ hex (c % 16) ∷ []

unfoldable pub string_url_encode : Text → Bool → Text
string_url_encode [] form_url_encoded = []
string_url_encode (c ∷ rawstr) form_url_encoded =
    url_encode_char form_url_encoded c ++ string_url_encode rawstr form_url_encoded

-- Any other character than a '%' that starts a sequence
abbrev pub url_decode_char : Bool → ℕ → ℕ
url_decode_char form_url_encoded c = if form_url_encoded && (c == 43) then 32 else c

-- Behind the end of the string a NUL is read.
unfoldable pub string_url_decode : Text → Bool → Text
string_url_decode [] form = []
string_url_decode (c ∷ []) form = url_decode_char form c ∷ []
string_url_decode (c ∷ a ∷ []) form = url_decode_char form c ∷ string_url_decode (a ∷ []) form
string_url_decode (c ∷ a ∷ b ∷ s) form =
    let behind = string_url_decode s form in
    let next = string_url_decode (a ∷ b ∷ s) form in
    if (c == 37) && (is_xdigit a && is_xdigit b)
    then (hex_value a * 16 + hex_value b) ∷ behind
    else url_decode_char form c ∷ next

url_decode-plain :
    (form : Bool) (c : ℕ) (s : Text)
    → (c == 37) ≡ false
    → string_url_decode (c ∷ s) form ≡ url_decode_char form c ∷ string_url_decode s form
unfolding string_url_decode
url_decode-plain form c [] h = refl
url_decode-plain form c (a ∷ []) h = refl
url_decode-plain form c (a ∷ b ∷ s) h = rw h refl

hex-is_xdigit : (d : ℕ) → d < 16 → is_xdigit (hex d) ≡ true
hex-is_xdigit d h = ground arith

hex_value-hex : (d : ℕ) → d < 16 → hex_value (hex d) ≡ d
hex_value-hex d h = ground arith

decode-sequence :
    (form : Bool) (c : ℕ) (s : Text)
    → c < 256
    → string_url_decode (37 ∷ hex (c / 16) ∷ hex (c % 16) ∷ s) form ≡ c ∷ string_url_decode s form
unfolding string_url_decode
decode-sequence form c s h =
    let high : c / 16 < 16 = ground arith in
    let low : c % 16 < 16 = ground arith in
    let whole : c / 16 * 16 + c % 16 ≡ c = omega arith in
    rw
      (
        hex-is_xdigit (c / 16) high,
        hex-is_xdigit (c % 16) low,
        hex_value-hex (c / 16) high,
        hex_value-hex (c % 16) low,
        whole,
      )
      refl

kept_as_is :
    (c : ℕ) → (c_isalnum c || strchr unescaped c) ≡ true → ((c == 37) ≡ false) × ((c == 43) ≡ false)
unfolding c_isalnum strchr
kept_as_is c h = (ground arith, ground arith)

decode_other : (form : Bool) (c : ℕ) → (c == 43) ≡ false → url_decode_char form c ≡ c
decode_other form c h = ground arith

decode_plus : (form : Bool) (c : ℕ) → (form && (c == 32)) ≡ true → url_decode_char form 43 ≡ c
decode_plus form c h = ground arith

decode-encode_char :
    (form : Bool) (c : ℕ) (s : Text)
    → c < 256
    → string_url_decode (url_encode_char form c ++ s) form ≡ c ∷ string_url_decode s form
unfolding url_encode_char
decode-encode_char form c s h = elim (Bool-cases (c_isalnum c || strchr unescaped c)) [
  | inl q ↦
      let (not_percent, not_plus) = kept_as_is c q in
      rw (q, url_decode-plain form c s not_percent, decode_other form c not_plus) refl
  | inr q ↦ elim (Bool-cases (form && (c == 32))) [
    | inl k ↦ rw (q, k, url_decode-plain form 43 s refl, decode_plus form c k) refl
    | inr k ↦ rw (q, k) (decode-sequence form c s h)
  ]
]

-- For a string of bytes, with spaces as '+' or not: string_url_decode gives back the string that
-- string_url_encode has encoded.
pub string_url_decode-string_url_encode :
    (rawstr : Text) (form_url_encoded : Bool)
    → IsBytes rawstr
    → string_url_decode (string_url_encode rawstr form_url_encoded) form_url_encoded ≡ rawstr
unfolding string_url_encode string_url_decode
string_url_decode-string_url_encode [] form b = refl
string_url_decode-string_url_encode (c ∷ s) form b =
    decode-encode_char form c (string_url_encode s form) (b.0)
    ∙ rw (string_url_decode-string_url_encode s form (b.1)) refl
