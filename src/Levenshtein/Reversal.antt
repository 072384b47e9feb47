-- ===== src/Levenshtein/Reversal.antt =====
-- The parts of strings that ase/levenshtein.cc looks at from the back, and edit scripts between them.
use anklang.Prelude.{
  ℕ, zero, suc, ◌+◌, ◌≡◌, refl, sym, ap, ◌∙◌, inl, inr, Bool, List, [], ◌∷◌, ◌++◌, arith, ◌==◌,
  if◌then◌else◌, Bool-cases, length, get_or,
}
use mathlib.Core.Path.{subst}
use mathlib.Core.List.{append_assoc, append-nil}
use anklang.Levenshtein.Restricted.{Weights, strip_prefix, strip_suffix}
use anklang.Levenshtein.Scripts.{Script, done, delete, insert, replace, transpose, cost, IsLeast}
use anklang.Levenshtein.Common.{IsLeast-cons}

-- The first `n` characters, the last one first
abbrev pub before : List ℕ → ℕ → List ℕ
before a zero = []
before a (suc n) = get_or a n 0 ∷ before a n

-- The reversed string in front of another one
abbrev shunt : List ℕ → List ℕ → List ℕ
shunt [] c = c
shunt (x ∷ a) c = shunt a (x ∷ c)

shunt-shunt : (a c d : List ℕ) → shunt (shunt a c) d ≡ shunt c (a ++ d)
shunt-shunt [] c d = refl
shunt-shunt (x ∷ a) c d = shunt-shunt a (x ∷ c) d

before-cons : (x : ℕ) (a : List ℕ) (n : ℕ) → before (x ∷ a) (suc n) ≡ before a n ++ x ∷ []
before-cons x a zero = refl
before-cons x a (suc n) = ap (λ (r : List ℕ). get_or a n 0 ∷ r) (before-cons x a n)

shunt-before : (a c : List ℕ) → shunt a c ≡ before a (length a) ++ c
shunt-before [] c = refl
shunt-before (x ∷ a) c =
    shunt-before a (x ∷ c)
    ∙ sym (append_assoc (before a (length a)) (x ∷ []) c)
    ∙ ap (λ (r : List ℕ). r ++ c) (sym (before-cons x a (length a)))

module _ (w : Weights) where
  shunt_script : {a b c d : List ℕ} → Script a b → Script c d → Script (shunt a c) (shunt b d)
  shunt_script done t = t
  shunt_script (delete x s) t = shunt_script s (delete x t)
  shunt_script (insert y s) t = shunt_script s (insert y t)
  shunt_script (replace x y s) t = shunt_script s (replace x y t)
  shunt_script (transpose x y n s) t = shunt_script s (transpose y x (λ e. n (sym e)) t)

  cost-shunt_script :
      {a b c d : List ℕ} (s : Script a b) (t : Script c d)
      → cost w (shunt_script s t) ≡ cost w s + cost w t
  unfolding shunt_script
  cost-shunt_script done t = omega arith
  cost-shunt_script (delete x s) t = omega (arith, cost-shunt_script s (delete x t))
  cost-shunt_script (insert y s) t = omega (arith, cost-shunt_script s (insert y t))
  cost-shunt_script (replace x y s) t = omega (arith, cost-shunt_script s (replace x y t))
  cost-shunt_script (transpose x y n s) t =
      omega (arith, cost-shunt_script s (transpose y x (λ e. n (sym e)) t))

  IsLeast-shunt : (a b : List ℕ) (v : ℕ) → IsLeast w a b v → IsLeast w (shunt a []) (shunt b []) v
  IsLeast-shunt a b v l =
      let back : IsLeast w (shunt (shunt a []) []) (shunt (shunt b []) []) v =
        rw (shunt-shunt a [] [], shunt-shunt b [] [], append-nil a, append-nil b) l in
      record {
        script = shunt_script l.script done;
        attained = omega (arith, cost-shunt_script l.script done, l.attained);
        least = λ s. omega (arith, back.least (shunt_script s done), cost-shunt_script s done);
      }

  pub IsLeast-before :
      (a b : List ℕ) (v : ℕ)
      → IsLeast w (before a (length a)) (before b (length b)) v
      → IsLeast w a b v
  IsLeast-before a b v l =
      let turned = λ (s : List ℕ). shunt-before s [] ∙ append-nil (before s (length s)) in
      let back = λ (s : List ℕ). shunt-shunt s [] [] ∙ append-nil s in
      let reversed : IsLeast w (shunt a []) (shunt b []) v = rw (turned a, turned b) l in
      let again = IsLeast-shunt (shunt a []) (shunt b []) v reversed in
      subst (λ (s : List ℕ). IsLeast w s b v) (back a)
        (subst (λ (s : List ℕ). IsLeast w (shunt (shunt a []) []) s v) (back b) again)

  pub IsLeast-strip_prefix :
      (a b : List ℕ) (v : ℕ)
      → IsLeast w (strip_prefix a b).0 (strip_prefix a b).1 v
      → IsLeast w a b v
  unfolding strip_prefix
  IsLeast-strip_prefix [] b v l = l
  IsLeast-strip_prefix (x ∷ a) [] v l = l
  IsLeast-strip_prefix (x ∷ a) (y ∷ b) v l =
      let rest = strip_prefix a b in
      let chosen = λ (t : Bool). if t then rest else (x ∷ a, y ∷ b) in
      elim (Bool-cases (x == y)) [
        | inl e ↦ IsLeast-cons w x y a b v (ground (arith, e)) (
            IsLeast-strip_prefix a b v
              (subst (λ (t : Bool). IsLeast w (chosen t).0 (chosen t).1 v) e l))
        | inr e ↦ subst (λ (t : Bool). IsLeast w (chosen t).0 (chosen t).1 v) e l
      ]

  pub IsLeast-strip_suffix :
      (a b : List ℕ) (n m v : ℕ)
      → IsLeast w (before a (strip_suffix a b n m).0) (before b (strip_suffix a b n m).1) v
      → IsLeast w (before a n) (before b m) v
  unfolding strip_suffix
  IsLeast-strip_suffix a b zero m v l = l
  IsLeast-strip_suffix a b (suc n) zero v l = l
  IsLeast-strip_suffix a b (suc n) (suc m) v l =
      let rest = strip_suffix a b n m in
      let chosen = λ (t : Bool). if t then rest else (suc n, suc m) in
      elim (Bool-cases (get_or a n 0 == get_or b m 0)) [
        | inl e ↦
            IsLeast-cons w (get_or a n 0) (get_or b m 0) (before a n) (before b m) v
              (ground (arith, e))
              (IsLeast-strip_suffix a b n m v (
                subst (λ (t : Bool). IsLeast w (before a (chosen t).0) (before b (chosen t).1) v) e
                  l))
        | inr e ↦
            subst (λ (t : Bool). IsLeast w (before a (chosen t).0) (before b (chosen t).1) v) e l
      ]
