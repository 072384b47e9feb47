-- ===== src/Strings/Multiply.antt =====
-- string_multiply (ase/strings.cc).
use anklang.Prelude.{
  ℕ, zero, suc, ◌+◌, ◌-◌, ◌/◌, ◌%◌, ◌≤◌, ◌≡◌, refl, sym, ap, ◌∙◌, inl, inr, [], ◌++◌, arith, ◌==◌,
  if◌then◌else◌, Bool-cases,
}
use mathlib.Core.List.{append_assoc, append-nil}
use anklang.Strings.Chars.{Text}

-- The recursion on fuel
unfoldable pub multiply_from : ℕ → Text → ℕ → Text
multiply_from zero s count = []
multiply_from (suc fuel) s count =
    let one_less = multiply_from fuel s (count - 1) in
    let half = multiply_from fuel s (count / 2) in
    if count == 1
    then s
    else if count % 2 == 1
    then one_less ++ s
    else if count == 0
    then []
    else half ++ half

unfoldable pub string_multiply : Text → ℕ → Text
string_multiply s count = multiply_from count s count

-- `s` for `count` times
abbrev pub repeat : ℕ → Text → Text
repeat zero s = []
repeat (suc count) s = s ++ repeat count s

repeat-+ : (a b : ℕ) (s : Text) → repeat (a + b) s ≡ repeat a s ++ repeat b s
repeat-+ zero b s = let e : 0 + b ≡ b = omega arith in rw e refl
repeat-+ (suc a) b s =
    let e : suc a + b ≡ suc (a + b) = omega arith in
    rw (e, repeat-+ a b s) (sym (append_assoc s (repeat a s) (repeat b s)))

repeat_one : (s : Text) → repeat 1 s ≡ s
repeat_one s = append-nil s

multiply_from_lem :
    (fuel : ℕ) (s : Text) (count : ℕ) → count ≤ fuel → multiply_from fuel s count ≡ repeat count s
unfolding multiply_from
multiply_from_lem zero s count h = let e : count ≡ 0 = omega arith in rw e refl
multiply_from_lem (suc fuel) s count h = elim (Bool-cases (count == 1)) [
  | inl one ↦ let e : count ≡ 1 = ground arith in rw e (sym (repeat_one s))
  | inr not_one ↦ elim (Bool-cases (count % 2 == 1)) [
    | inl odd ↦
        let split : count ≡ count - 1 + 1 = ground arith in
        let joined = ap (λ n. repeat n s) split ∙ repeat-+ (count - 1) 1 s in
        rw (not_one, odd, multiply_from_lem fuel s (count - 1) (omega arith), joined, repeat_one s)
          refl
    | inr even ↦ elim (Bool-cases (count == 0)) [
      | inl zero_times ↦ let e : count ≡ 0 = ground arith in rw e refl
      | inr more ↦
          let split : count ≡ count / 2 + count / 2 = ground arith in
          let joined = ap (λ n. repeat n s) split ∙ repeat-+ (count / 2) (count / 2) s in
          rw (not_one, even, more, multiply_from_lem fuel s (count / 2) (ground arith), joined) refl
    ]
  ]
]

-- TODO
pub string_multiply_lem : (s : Text) (count : ℕ) → string_multiply s count ≡ repeat count s
unfolding string_multiply
string_multiply_lem s count = multiply_from_lem count s count (omega arith)
