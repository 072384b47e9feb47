-- ===== src/Ini/Values.antt =====
-- How ase/inifile.cc scans text that it reads as it stands.
use anklang.Prelude.{
  ℕ, zero, suc, ◌+◌, ◌≡◌, refl, sym, ap, ◌∙◌, Bool, true, false, not, ◌&&◌, ◌||◌, some, [], ◌∷◌,
  ◌++◌, arith, ◌==◌, if◌then◌else◌, length, length-append,
}
use mathlib.Core.List.{append_assoc, append-nil}
use anklang.Strings.Chars.{Text, strchr}
use anklang.Ini.Scan.{
  is_nlspace, is_whitespace, skip_whitespaces, string_rtrim, ends_value, scan_from, scan_value,
}

-- All characters pass a test.
abbrev pub Every : (ℕ → Bool) → Text → Type 0
Every test [] = Unit
Every test (c ∷ s) = (test c ≡ true) × Every test s

-- Neither a character that scan_value treats in a way of its own, nor a terminator, nor white space
abbrev pub is_plain : Text → ℕ → Bool
is_plain termchars c =
    not (c == 92)
    && (not ((c == 34) || (c == 39)) && (not (c == 13) && not (ends_value c || strchr termchars c)))

abbrev pub is_solid : Text → ℕ → Bool
is_solid termchars c = is_plain termchars c && not (is_nlspace c)

pub scan_from-plain :
    (termchars : Text) (fuel c : ℕ) (v p : Text)
    → is_plain termchars c ≡ true
    → scan_from (suc fuel) v (c ∷ p) termchars ≡ scan_from fuel (v ++ c ∷ []) p termchars
unfolding scan_from
scan_from-plain termchars fuel c v p h =
    let a : (c == 92) ≡ false = ground (arith, h) in
    let b : ((c == 34) || (c == 39)) ≡ false = ground (arith, h) in
    let d : (c == 13) ≡ false = ground (arith, h) in
    let e : (ends_value c || strchr termchars c) ≡ false = ground (arith, h) in
    rw (scan_from, a, b, d, e) refl

pub scan_from-run :
    (termchars : Text) (u r v : Text) (fuel left : ℕ)
    → Every (is_plain termchars) u
    → fuel ≡ length u + left
    → scan_from fuel v (u ++ r) termchars ≡ scan_from left (v ++ u) r termchars
scan_from-run termchars [] r v fuel left h e =
    let same : fuel ≡ left = omega arith in rw (same, append-nil v) refl
scan_from-run termchars (c ∷ u) r v zero left h e = absurd (omega arith)
scan_from-run termchars (c ∷ u) r v (suc fuel) left (h, hs) e =
    scan_from-plain termchars fuel c v (u ++ r) h
    ∙ scan_from-run termchars u r (v ++ c ∷ []) fuel left hs (omega arith)
    ∙ ap (λ s. scan_from left s r termchars) (append_assoc v (c ∷ []) u)

pub scan_from-stop :
    (termchars : Text) (fuel c : ℕ) (v p : Text)
    → (not (c == 92)
        && (not ((c == 34) || (c == 39))
            && (not (c == 13) && (ends_value c || strchr termchars c))))
      ≡ true
    → scan_from (suc fuel) v (c ∷ p) termchars ≡ some (string_rtrim v, c ∷ p)
unfolding scan_from
scan_from-stop termchars fuel c v p h =
    let a : (c == 92) ≡ false = ground (arith, h) in
    let b : ((c == 34) || (c == 39)) ≡ false = ground (arith, h) in
    let d : (c == 13) ≡ false = ground (arith, h) in
    let e : (ends_value c || strchr termchars c) ≡ true = ground (arith, h) in
    rw (scan_from, a, b, d, e) refl

string_rtrim-cons :
    (c : ℕ) (s : Text) → is_nlspace c ≡ false → string_rtrim (c ∷ s) ≡ c ∷ string_rtrim s
unfolding string_rtrim
string_rtrim-cons c s h =
    elim (string_rtrim s)
      as (λ t.
        ◌≡◌ {A = Text} (elim t [ [] ↦ if is_nlspace c then [] else c ∷ [] | x ∷ r ↦ c ∷ x ∷ r ])
          (c ∷ t)) [ [] ↦ rw h refl | x ∷ r ↦ refl ]

-- White space behind text without any is trimmed.
pub string_rtrim-append :
    (termchars u t : Text)
    → Every (is_solid termchars) u
    → string_rtrim t ≡ []
    → string_rtrim (u ++ t) ≡ u
string_rtrim-append termchars [] t h e = e
string_rtrim-append termchars (c ∷ u) t (h, hs) e =
    string_rtrim-cons c (u ++ t) (ground (arith, h))
    ∙ ap (λ (s : Text). c ∷ s) (string_rtrim-append termchars u t hs e)

pub solid-plain : (termchars u : Text) → Every (is_solid termchars) u → Every (is_plain termchars) u
solid-plain termchars [] h = tt
solid-plain termchars (c ∷ u) (h, hs) = (ground (arith, h), solid-plain termchars u hs)

pub skip_whitespaces-solid :
    (c : ℕ) (p : Text) → is_whitespace c ≡ false → skip_whitespaces (c ∷ p) ≡ c ∷ p
unfolding skip_whitespaces
skip_whitespaces-solid c p h = rw h refl

-- A value is read as it stands, up to the end of its line.
pub record IsRead (v : Text) : Type 0 where
  pub kept : (rest : Text) → skip_whitespaces (v ++ 10 ∷ rest) ≡ v ++ 10 ∷ rest
  pub value : (rest : Text) → scan_value (v ++ 10 ∷ rest) [] ≡ some (v, 10 ∷ rest)

kept_lem :
    (v rest : Text) → Every (is_solid []) v → skip_whitespaces (v ++ 10 ∷ rest) ≡ v ++ 10 ∷ rest
kept_lem [] rest h = skip_whitespaces-solid 10 rest refl
kept_lem (c ∷ v) rest (h, hs) = skip_whitespaces-solid c (v ++ 10 ∷ rest) (ground (arith, h))

-- A run of plain text and what ends it
pub scan_value-run :
    (termchars u : Text) (c : ℕ) (p : Text)
    → Every (is_solid termchars) u
    → (not (c == 92)
        && (not ((c == 34) || (c == 39))
            && (not (c == 13) && (ends_value c || strchr termchars c))))
      ≡ true
    → scan_value (u ++ c ∷ p) termchars ≡ some (u, c ∷ p)
unfolding scan_value string_rtrim
scan_value-run termchars u c p h stop =
    scan_from-run termchars u (c ∷ p) [] (length (u ++ c ∷ p) + 1) (suc (length p + 1))
      (solid-plain termchars u h) (omega (arith, length-append u (c ∷ p)))
    ∙ scan_from-stop termchars (length p + 1) c u p stop
    ∙ ap (λ (s : Text). some (s, c ∷ p))
        (ap string_rtrim (sym (append-nil u)) ∙ string_rtrim-append termchars u [] h refl)

pub solid-IsRead : (v : Text) → Every (is_solid []) v → IsRead v
unfolding strchr
solid-IsRead v h = record {
  kept = λ rest. kept_lem v rest h;
  value = λ rest. scan_value-run [] v 10 rest h refl;
}
