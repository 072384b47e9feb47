-- ===== src/Levenshtein/Scripts.antt =====
-- Edit scripts: what the distances of ase/levenshtein.cc are the least costs of.
use anklang.Prelude.{ℕ, ◌+◌, ◌≤◌, ◌≡◌, ◌≢◌, List, [], ◌∷◌, ◌==◌, if◌then◌else◌}
use anklang.Levenshtein.Restricted.{Weights}

-- How a source becomes a target. Characters that were transposed are not edited any more.
pub data Script : List ℕ → List ℕ → Type 0 where
  done : Script [] []
  delete : {a b : List ℕ} (x : ℕ) → Script a b → Script (x ∷ a) b
  insert : {a b : List ℕ} (y : ℕ) → Script a b → Script a (y ∷ b)
  replace : {a b : List ℕ} (x y : ℕ) → Script a b → Script (x ∷ a) (y ∷ b)
  transpose : {a b : List ℕ} (x y : ℕ) → x ≢ y → Script a b → Script (x ∷ y ∷ a) (y ∷ x ∷ b)

-- A character that is replaced by itself costs nothing.
abbrev pub replacing : Weights → ℕ → ℕ → ℕ
replacing w x y = if x == y then 0 else w.cs

abbrev pub cost : Weights → {a b : List ℕ} → Script a b → ℕ
cost w done = 0
cost w (delete x s) = cost w s + w.cd
cost w (insert y s) = cost w s + w.ci
cost w (replace x y s) = cost w s + replacing w x y
cost w (transpose x y n s) = cost w s + w.ct

-- A script of that cost, and none that is cheaper
pub record IsLeast (w : Weights) (a b : List ℕ) (v : ℕ) : Type 0 where
  pub script : Script a b
  pub attained : cost w script ≡ v
  pub least : (s : Script a b) → v ≤ cost w s
