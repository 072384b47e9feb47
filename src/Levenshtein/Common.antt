-- ===== src/Levenshtein/Common.antt =====
-- Edit scripts between strings with a common first character, the other way round, and between reversed
-- strings. These carry what ase/levenshtein.cc strips and swaps before it fills its rows.
use anklang.Prelude.{ℕ, ◌+◌, ◌≤◌, ◌≡◌, refl, sym, ap, ◌∙◌, List, [], ◌∷◌, arith}
use anklang.Levenshtein.Restricted.{Weights}
use anklang.Levenshtein.Scripts.{Script, done, delete, insert, replace, transpose, cost, IsLeast}

-- The weights of the way back
abbrev pub flipped : Weights → Weights
flipped w = record { ci = w.cd; cd = w.ci; cs = w.cs; ct = w.ct }

pub flip : {a b : List ℕ} → Script a b → Script b a
flip done = done
flip (delete x s) = insert x (flip s)
flip (insert y s) = delete y (flip s)
flip (replace x y s) = replace y x (flip s)
flip (transpose x y n s) = transpose y x (λ e. n (sym e)) (flip s)

pub cost-flip : (w : Weights) {a b : List ℕ} (s : Script a b) → cost (flipped w) (flip s) ≡ cost w s
unfolding flip
cost-flip w done = refl
cost-flip w (delete x s) = ap (λ n. n + w.cd) (cost-flip w s)
cost-flip w (insert y s) = ap (λ n. n + w.ci) (cost-flip w s)
cost-flip w (replace x y s) = ground (arith, cost-flip w s)
cost-flip w (transpose x y n s) = ap (λ n. n + w.ct) (cost-flip w s)

-- A script to or from what is left of a string without its head, for at most a price
abbrev ToTail : Weights → List ℕ → List ℕ → ℕ → Type 0
ToTail w a [] n = Unit
ToTail w a (x ∷ b) n = (s : Script a b) × (cost w s ≤ n)

abbrev Tails : Weights → List ℕ → List ℕ → ℕ → Type 0
Tails w [] b n = Unit
Tails w (x ∷ a) [] n = Unit
Tails w (x ∷ a) (y ∷ b) n = x ≡ y → (s : Script a b) × (cost w s ≤ n)

module _ (w : Weights) where
  delete-ToTail : (x : ℕ) (a c : List ℕ) (n : ℕ) → ToTail w a c n → ToTail w (x ∷ a) c (n + w.cd)
  delete-ToTail x a [] n t = tt
  delete-ToTail x a (y ∷ b) n t = (delete x t.0, omega (arith, t.1))

  shorten_target : {a c : List ℕ} (s : Script a c) → ToTail w a c (cost w s + w.cd)
  shorten_target done = tt
  shorten_target (delete {a = a} {b = c} x s) =
      delete-ToTail x a c (cost w s + w.cd) (shorten_target s)
  shorten_target (insert y s) = (s, omega arith)
  shorten_target (replace x y s) = (delete x s, omega arith)
  shorten_target (transpose x y n s) = (replace x x (delete y s), ground arith)

module _ (w : Weights) where
  shorten_source :
      {x : ℕ} {a b : List ℕ} (s : Script (x ∷ a) b)
      → (t : Script a b) × (cost w t ≤ cost w s + w.ci)
  shorten_source s =
      let t = shorten_target (flipped w) (flip s) in
      (flip t.0, omega (arith, cost-flip (flipped w) t.0, cost-flip w s, t.1))

  delete-Tails : (x : ℕ) (a d : List ℕ) (n : ℕ) → ToTail w a d n → Tails w (x ∷ a) d n
  delete-Tails x a [] n t = tt
  delete-Tails x a (y ∷ d) n t = λ e. t

  insert-Tails : (y : ℕ) (c b : List ℕ) (s : Script c b) → Tails w c (y ∷ b) (cost w s + w.ci)
  insert-Tails y [] b s = tt
  insert-Tails y (x ∷ a) b s = λ e. shorten_source s

  without_heads : {c d : List ℕ} (s : Script c d) → Tails w c d (cost w s)
  without_heads done = tt
  without_heads (delete {a = a} {b = d} x s) =
      delete-Tails x a d (cost w s + w.cd) (shorten_target w s)
  without_heads (insert {a = c} {b = b} y s) = insert-Tails y c b s
  without_heads (replace x y s) = λ e. (s, omega arith)
  without_heads (transpose x y n s) = λ e. absurd (n e)

  pub IsLeast-cons :
      (x y : ℕ) (a b : List ℕ) (v : ℕ) → x ≡ y → IsLeast w a b v → IsLeast w (x ∷ a) (y ∷ b) v
  IsLeast-cons x y a b v e l = record {
    script = replace x y l.script;
    attained = ground (arith, l.attained);
    least = λ s. let t = without_heads s e in omega (arith, l.least t.0, t.1);
  }

pub IsLeast-flip :
    (w : Weights) (a b : List ℕ) (v : ℕ) → IsLeast (flipped w) b a v → IsLeast w a b v
IsLeast-flip w a b v l = record {
  script = flip l.script;
  attained = cost-flip (flipped w) l.script ∙ l.attained;
  least = λ s. omega (arith, l.least (flip s), cost-flip w s);
}
