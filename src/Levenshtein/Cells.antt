-- ===== src/Levenshtein/Cells.antt =====
-- The cells of the matrix in ase/levenshtein.cc are least costs where their neighbours are.
use anklang.Prelude.{
  ℕ, zero, suc, ◌+◌, ◌*◌, ◌≤◌, min, ◌≡◌, refl, sym, ap, ◌∙◌, ◌≢◌, ◌⊎◌, inl, inr, List, [], ◌∷◌,
  arith, dec_lt, length, get_or,
}
use mathlib.Core.Path.{subst}
use anklang.Levenshtein.Restricted.{Weights, min3}
use anklang.Levenshtein.Scripts.{
  Script, done, delete, insert, replace, transpose, replacing, cost, IsLeast,
}
use anklang.Levenshtein.Common.{flipped, IsLeast-flip}
use anklang.Levenshtein.Reversal.{before}

module _ (w : Weights) where
  insertions : (b : List ℕ) (j : ℕ) → Script [] (before b j)
  insertions b zero = done
  insertions b (suc j) = insert (get_or b j 0) (insertions b j)

  cost-insertions : (b : List ℕ) (j : ℕ) → cost w (insertions b j) ≡ j * w.ci
  unfolding insertions
  cost-insertions b zero = omega arith
  cost-insertions b (suc j) = omega (arith, cost-insertions b j)

  cost-from_nil : {b : List ℕ} (s : Script [] b) → length b * w.ci ≤ cost w s
  cost-from_nil done = omega arith
  cost-from_nil (insert y s) = omega (arith, cost-from_nil s)

  length-before : (b : List ℕ) (j : ℕ) → length (before b j) ≡ j
  length-before b zero = refl
  length-before b (suc j) = ap suc (length-before b j)

  pub IsLeast-insertions : (b : List ℕ) (j : ℕ) → IsLeast w [] (before b j) (j * w.ci)
  IsLeast-insertions b j = record {
    script = insertions b j;
    attained = cost-insertions b j;
    least = λ s. rw (ap (λ n. n * w.ci) (sym (length-before b j))) (cost-from_nil s);
  }

pub IsLeast-deletions : (w : Weights) (a : List ℕ) (i : ℕ) → IsLeast w (before a i) [] (i * w.cd)
IsLeast-deletions w a i =
    IsLeast-flip w (before a i) [] (i * w.cd) (IsLeast-insertions (flipped w) a i)

module _ (w : Weights) where
  -- No script that starts with a transposition is below `v`.
  abbrev pub Transposed : ℕ → ℕ → ℕ → List ℕ → List ℕ → Type 0
  Transposed v x y [] b = Unit
  Transposed v x y (q ∷ a) [] = Unit
  Transposed v x y (q ∷ a) (p ∷ b) = p ≡ x → q ≡ y → x ≢ y → (s : Script a b) → v ≤ cost w s + w.ct

  above :
      {x y : ℕ} {a b : List ℕ} (v : ℕ)
      → ((s : Script a (y ∷ b)) → v ≤ cost w s + w.cd)
      → ((s : Script (x ∷ a) b) → v ≤ cost w s + w.ci)
      → ((s : Script a b) → v ≤ cost w s + replacing w x y)
      → Transposed v x y a b
      → (s : Script (x ∷ a) (y ∷ b)) → v ≤ cost w s
  above v d i r t (delete x s) = d s
  above v d i r t (insert y s) = i s
  above v d i r t (replace x y s) = r s
  above v d i r t (transpose x y n s) = t refl refl n s

  which : (l m n : ℕ) → (min3 l m n ≡ l) ⊎ ((min3 l m n ≡ m) ⊎ (min3 l m n ≡ n))
  which l m n = omega arith

  module _ {x y : ℕ} {a b : List ℕ} {d1 d2 d3 : ℕ} (deleted : IsLeast w a (y ∷ b) d1)
      (inserted : IsLeast w (x ∷ a) b d2) (replaced : IsLeast w a b d3) where
    three : ℕ
    three = min3 (d1 + w.cd) (d2 + w.ci) (d3 + replacing w x y)

    script_of_three : (s : Script (x ∷ a) (y ∷ b)) × (cost w s ≡ three)
    unfolding three
    script_of_three = elim (which (d1 + w.cd) (d2 + w.ci) (d3 + replacing w x y)) [
      | inl e ↦ (delete x deleted.script, omega (arith, e, deleted.attained))
      | inr (inl e) ↦ (insert y inserted.script, omega (arith, e, inserted.attained))
      | inr (inr e) ↦ (replace x y replaced.script, omega (arith, e, replaced.attained))
    ]

    above_of_three :
        (v : ℕ) → v ≤ three → Transposed v x y a b → (s : Script (x ∷ a) (y ∷ b)) → v ≤ cost w s
    unfolding three
    above_of_three v h t =
        above v (λ s. omega (arith, deleted.least s)) (λ s. omega (arith, inserted.least s))
          (λ s. omega (arith, replaced.least s)) t

    pub IsLeast-three :
        Transposed (min3 (d1 + w.cd) (d2 + w.ci) (d3 + replacing w x y)) x y a b
        → IsLeast w (x ∷ a) (y ∷ b) (min3 (d1 + w.cd) (d2 + w.ci) (d3 + replacing w x y))
    unfolding three
    IsLeast-three t = record {
      script = script_of_three.0;
      attained = script_of_three.1;
      least = above_of_three three (omega arith) t;
    }

  IsLeast-four :
      {x y : ℕ} {a b : List ℕ} {d1 d2 d3 d4 : ℕ}
      → x ≢ y
      → IsLeast w (y ∷ a) (y ∷ x ∷ b) d1
      → IsLeast w (x ∷ y ∷ a) (x ∷ b) d2
      → IsLeast w (y ∷ a) (x ∷ b) d3
      → IsLeast w a b d4
      → IsLeast w
          (x ∷ y ∷ a)
          (y ∷ x ∷ b)
          (min (min3 (d1 + w.cd) (d2 + w.ci) (d3 + replacing w x y)) (d4 + w.ct))
  unfolding three
  IsLeast-four {x} {y} {a} {b} {d1} {d2} {d3} {d4} n deleted inserted replaced swapped =
      let v = min (three deleted inserted replaced) (d4 + w.ct) in
      let bound =
        above_of_three deleted inserted replaced v (omega arith)
          (λ e f g s. omega (arith, swapped.least s)) in
      elim (dec_lt (d4 + w.ct) (three deleted inserted replaced)) [
        | yes p ↦ record {
          script = transpose x y n swapped.script;
          attained = omega (arith, swapped.attained);
          least = bound;
        }
        | no p ↦
            let t = script_of_three deleted inserted replaced in
            record { script = t.0; attained = t.1 ∙ omega arith; least = bound }
      ]

  -- The same where the characters are known to be equal
  pub IsLeast-four_equal :
      {x y p q : ℕ} {a b : List ℕ} {d1 d2 d3 d4 : ℕ}
      → p ≡ x
      → q ≡ y
      → x ≢ y
      → IsLeast w (q ∷ a) (y ∷ p ∷ b) d1
      → IsLeast w (x ∷ q ∷ a) (p ∷ b) d2
      → IsLeast w (q ∷ a) (p ∷ b) d3
      → IsLeast w a b d4
      → IsLeast w
          (x ∷ q ∷ a)
          (y ∷ p ∷ b)
          (min (min3 (d1 + w.cd) (d2 + w.ci) (d3 + replacing w x y)) (d4 + w.ct))
  IsLeast-four_equal {x} {y} {p} {q} {a} {b} {d1} {d2} {d3} {d4} e f n =
      let Rule = λ (p q : ℕ).
        IsLeast w (q ∷ a) (y ∷ p ∷ b) d1
        → IsLeast w (x ∷ q ∷ a) (p ∷ b) d2
        → IsLeast w (q ∷ a) (p ∷ b) d3
        → IsLeast w a b d4
        → IsLeast w (x ∷ q ∷ a) (y ∷ p ∷ b)
            (min (min3 (d1 + w.cd) (d2 + w.ci) (d3 + replacing w x y)) (d4 + w.ct)) in
      subst (λ p. Rule p q) (sym e) (subst (λ q. Rule x q) (sym f) (IsLeast-four n))
