-- ===== src/Atomics/MpmcChain.antt =====
-- Chains of nodes in the cells of MpmcStack (ase/atomics.hh).
use anklang.Prelude.{ℕ, ◌≡◌, refl, sym, ◌∙◌, ◌≢◌, ◌⊎◌, inl, inr, List, [], ◌∷◌, arith}
use anklang.Atomics.Stack.{Without, Apart}
use anklang.Atomics.Mpmc.{Ref, tail_end, node, write, behind_first}

-- The nodes from a reference on
abbrev pub Chain : (ℕ → Ref) → Ref → List ℕ → Type 0
Chain intr r [] = r ≡ tail_end
Chain intr r (a ∷ xs) = (r ≡ node a) × Chain intr (intr a) xs

abbrev pub IsIn : ℕ → List ℕ → Type 0
IsIn n [] = ⊥
IsIn n (x ∷ xs) = (n ≡ x) ⊎ IsIn n xs

abbrev pub IsDistinct : List ℕ → Type 0
IsDistinct [] = Unit
IsDistinct (x ∷ xs) = Without x xs × IsDistinct xs

pub write_self : (intr : ℕ → Ref) (n : ℕ) (r : Ref) → write intr n r n ≡ r
unfolding write
write_self intr n r = ground arith

pub write_other : (intr : ℕ → Ref) (n a : ℕ) (r : Ref) → n ≢ a → write intr n r a ≡ intr a
unfolding write
write_other intr n a r h = ground arith

pub Without-IsIn : (n m : ℕ) (xs : List ℕ) → Without n xs → IsIn m xs → n ≢ m
Without-IsIn n m [] w i e = absurd i
Without-IsIn n m (x ∷ xs) w (inl h) e = w.0 (e ∙ h)
Without-IsIn n m (x ∷ xs) w (inr i) e = Without-IsIn n m xs w.1 i e

pub Chain-write :
    (intr : ℕ → Ref) (n : ℕ) (x r : Ref) (xs : List ℕ)
    → Without n xs
    → Chain intr r xs
    → Chain (write intr n x) r xs
Chain-write intr n x r [] w c = c
Chain-write intr n x r (a ∷ xs) w c =
    (c.0, rw (write_other intr n a x w.0) (Chain-write intr n x (intr a) xs w.1 c.1))

pub Apart-behind : (xs ys : List ℕ) (y : ℕ) → Apart xs (y ∷ ys) → Apart xs ys × Without y xs
Apart-behind [] ys y a = (tt, tt)
Apart-behind (x ∷ xs) ys y a =
    let (rest, without) = Apart-behind xs ys y a.1 in ((a.0.1, rest), (λ e. a.0.0 (sym e), without))

-- The node at the head is the first of the content.
pub head-content :
    (intr : ℕ → Ref) (head : Ref) (n : ℕ) (xs : List ℕ)
    → Chain intr head xs
    → head ≡ node n
    → xs ≡ n ∷ behind_first xs
head-content intr head n [] c h = absurd (cc (c, h))
head-content intr head n (x ∷ xs) c h = let same : x ≡ n = cc (c.0, h) in rw same refl
