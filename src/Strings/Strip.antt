-- ===== src/Strings/Strip.antt =====
-- string_lstrip, string_rstrip and string_strip (ase/strings.cc).
use anklang.Prelude.{
  ℕ, zero, suc, ◌+◌, ◌-◌, ◌≤◌, ◌<◌, ◌≡◌, refl, sym, ap, ◌∙◌, inl, inr, true, false, [], ◌∷◌, arith,
  ◌==◌, if◌then◌else◌, Bool-cases, length, get_or, take, drop, length-drop,
}
use anklang.Strings.Chars.{Text, strchr}

-- " \t\v\f\n\r"
abbrev pub whitespaces : Text
whitespaces = 32 ∷ 9 ∷ 11 ∷ 12 ∷ 10 ∷ 13 ∷ []

-- The whitespaces in front
unfoldable pub leading : Text → ℕ
leading [] = 0
leading (c ∷ input) = let rest = leading input in if strchr whitespaces c then suc rest else 0

-- The loop from position `i` down: where the text without the whitespaces at its end ends
unfoldable pub end_from : Text → ℕ → ℕ
end_from input zero = 0
end_from input (suc i) =
    let rest = end_from input i in if strchr whitespaces (get_or input i 0) then rest else suc i

unfoldable pub string_lstrip : Text → Text
string_lstrip input = drop (leading input) input

unfoldable pub string_rstrip : Text → Text
string_rstrip input = take (end_from input (length input)) input

unfoldable pub string_strip : Text → Text
string_strip input =
    let a = leading input in
    let b = end_from input (length input) in if b == 0 then [] else take (b - a) (drop a input)

length-leading : (s : Text) → leading s ≤ length s
unfolding leading
length-leading [] = omega arith
length-leading (c ∷ s) = ground (arith, length-leading s)

leading-whitespace : (s : Text) (j : ℕ) → j < leading s → strchr whitespaces (get_or s j 0) ≡ true
unfolding leading
leading-whitespace [] j h = absurd (omega (arith, h))
leading-whitespace (c ∷ s) zero h = elim (Bool-cases (strchr whitespaces c)) [
  | inl q ↦ q
  | inr q ↦ absurd (omega (arith, rw q at h))
]
leading-whitespace (c ∷ s) (suc j) h = elim (Bool-cases (strchr whitespaces c)) [
  | inl q ↦ leading-whitespace s j (omega (arith, rw q at h))
  | inr q ↦ absurd (omega (arith, rw q at h))
]

get_or-drop : (a j : ℕ) (s : Text) → get_or s (a + j) 0 ≡ get_or (drop a s) j 0
get_or-drop zero j s = let e : 0 + j ≡ j = omega arith in rw e refl
get_or-drop (suc a) j [] = refl
get_or-drop (suc a) j (c ∷ s) =
    let e : suc a + j ≡ suc (a + j) = omega arith in rw (e, get_or-drop a j s) refl

end_from-leading : (s : Text) (i : ℕ) → i ≤ leading s → end_from s i ≡ 0
unfolding end_from
end_from-leading s zero h = refl
end_from-leading s (suc i) h =
    rw (leading-whitespace s i (omega (arith, h))) (end_from-leading s i (omega (arith, h)))

-- The end as it is without what leads
behind : ℕ → ℕ → ℕ
behind a e = if e == 0 then 0 else a + e

end_from-drop :
    (s : Text) (i : ℕ)
    → end_from s (leading s + i) ≡ behind (leading s) (end_from (drop (leading s) s) i)
unfolding end_from behind
end_from-drop s zero =
    let e : leading s + 0 ≡ leading s = omega arith in
    rw e (end_from-leading s (leading s) (omega arith))
end_from-drop s (suc i) =
    let e : leading s + suc i ≡ suc (leading s + i) = omega arith in
    elim (Bool-cases (strchr whitespaces (get_or (drop (leading s) s) i 0))) [
      | inl q ↦ rw (e, get_or-drop (leading s) i s, q) (end_from-drop s i)
      | inr q ↦
          let one_more : (suc i == 0) ≡ false = ground arith in
          let same : leading s + suc i ≡ suc (leading s + i) = omega arith in
          rw (e, get_or-drop (leading s) i s, q, one_more) (sym same)
    ]

pub string_rstrip-string_lstrip :
    (input : Text) → string_rstrip (string_lstrip input) ≡ string_strip input
unfolding string_rstrip string_lstrip string_strip behind
string_rstrip-string_lstrip s =
    let t = drop (leading s) s in
    let size : length s ≡ leading s + length t =
      omega (arith, length-drop (leading s) s, length-leading s) in
    let stop : end_from s (length s) ≡ behind (leading s) (end_from t (length t)) =
      ap (λ n. end_from s n) size ∙ end_from-drop s (length t) in
    elim (Bool-cases (end_from t (length t) == 0)) [
      | inl q ↦
          let none_left : end_from t (length t) ≡ 0 = ground arith in rw (stop, q, none_left) refl
      | inr q ↦
          let more : (leading s + end_from t (length t) == 0) ≡ false = ground arith in
          let rest : leading s + end_from t (length t) - leading s ≡ end_from t (length t) =
            omega arith in
          rw (stop, q, more, rest) refl
    ]
