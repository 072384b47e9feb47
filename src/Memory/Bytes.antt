-- ===== src/Memory/Bytes.antt =====
-- The free list of ase/memory.cc seen byte by byte: how many extents hold a byte.
use anklang.Prelude.{
  ℕ, zero, suc, ◌+◌, ◌≤◌, ◌<◌, ◌≡◌, refl, ◌≢◌, List, [], ◌∷◌, ◌++◌, arith, length, set, take,
  erase_at, if◌then◌else◌,
}
use anklang.Memory.Extents.{Extent32, extent_at, holds}

abbrev pub inside : ℕ → Extent32 → ℕ
inside x e = if holds e x then 1 else 0

abbrev pub count_at : ℕ → List Extent32 → ℕ
count_at x [] = 0
count_at x (e ∷ es) = inside x e + count_at x es

module _ (x : ℕ) where
  pub count_at-append :
      (es fs : List Extent32) → count_at x (es ++ fs) ≡ count_at x es + count_at x fs
  count_at-append [] fs = omega arith
  count_at-append (e ∷ es) fs = omega (arith, count_at-append es fs)

  pub count_at-set :
      (es : List Extent32) (i : ℕ) (e : Extent32)
      → i < length es
      → count_at x (set es i e) + inside x (extent_at es i) ≡ count_at x es + inside x e
  count_at-set [] i e h = absurd (omega arith)
  count_at-set (f ∷ es) zero e h = omega arith
  count_at-set (f ∷ es) (suc i) e h = omega (arith, count_at-set es i e (omega arith))

  pub count_at-erase_at :
      (es : List Extent32) (i : ℕ)
      → i < length es
      → count_at x (erase_at es i) + inside x (extent_at es i) ≡ count_at x es
  count_at-erase_at [] i h = absurd (omega arith)
  count_at-erase_at (f ∷ es) zero h = omega arith
  count_at-erase_at (f ∷ es) (suc i) h = omega (arith, count_at-erase_at es i (omega arith))

  -- Taking the last one off.
  pub count_at-take :
      (es : List Extent32) (n : ℕ)
      → length es ≡ suc n
      → count_at x (take n es) + inside x (extent_at es n) ≡ count_at x es
  count_at-take [] n h = absurd (omega arith)
  count_at-take (f ∷ []) zero h = omega arith
  count_at-take (f ∷ g ∷ es) zero h = absurd (omega arith)
  count_at-take (f ∷ es) (suc n) h = omega (arith, count_at-take es n (omega arith))

  pub inside-le-count_at :
      (es : List Extent32) (i : ℕ) → i < length es → inside x (extent_at es i) ≤ count_at x es
  inside-le-count_at es i h = omega (arith, count_at-erase_at es i h)

pub extent_at-set_self :
    (es : List Extent32) (i : ℕ) (e : Extent32) → i < length es → extent_at (set es i e) i ≡ e
extent_at-set_self [] i e h = absurd (omega arith)
extent_at-set_self (f ∷ es) zero e h = refl
extent_at-set_self (f ∷ es) (suc i) e h = extent_at-set_self es i e (omega arith)

pub extent_at-set_ne :
    (es : List Extent32) (i j : ℕ) (e : Extent32)
    → i ≢ j
    → extent_at (set es i e) j ≡ extent_at es j
extent_at-set_ne [] i j e h = refl
extent_at-set_ne (f ∷ es) zero zero e h = absurd (h refl)
extent_at-set_ne (f ∷ es) zero (suc j) e h = refl
extent_at-set_ne (f ∷ es) (suc i) zero e h = refl
extent_at-set_ne (f ∷ es) (suc i) (suc j) e h =
    extent_at-set_ne es i j e (λ q. h (omega (arith, q)))

-- A predicate on every extent of the list.
abbrev pub All : (Extent32 → Type 0) → List Extent32 → Type 0
All P [] = Unit
All P (e ∷ es) = P e × All P es

module _ (P : Extent32 → Type 0) where
  pub All-at : (es : List Extent32) (i : ℕ) → All P es → i < length es → P (extent_at es i)
  All-at [] i a h = absurd (omega arith)
  All-at (e ∷ es) zero a h = a.0
  All-at (e ∷ es) (suc i) a h = All-at es i a.1 (omega arith)

  pub All-set : (es : List Extent32) (i : ℕ) (e : Extent32) → All P es → P e → All P (set es i e)
  All-set [] i e a p = a
  All-set (f ∷ es) zero e a p = (p, a.1)
  All-set (f ∷ es) (suc i) e a p = (a.0, All-set es i e a.1 p)

  pub All-erase_at : (es : List Extent32) (i : ℕ) → All P es → All P (erase_at es i)
  All-erase_at [] i a = a
  All-erase_at (f ∷ es) zero a = a.1
  All-erase_at (f ∷ es) (suc i) a = (a.0, All-erase_at es i a.1)

  pub All-take : (n : ℕ) (es : List Extent32) → All P es → All P (take n es)
  All-take zero es a = tt
  All-take (suc n) [] a = tt
  All-take (suc n) (e ∷ es) a = (a.0, All-take n es a.1)

  pub All-push : (es : List Extent32) (e : Extent32) → All P es → P e → All P (es ++ e ∷ [])
  All-push [] e a p = (p, tt)
  All-push (f ∷ es) e a p = (a.0, All-push es e a.1 p)
