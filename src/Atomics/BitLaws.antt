-- ===== src/Atomics/BitLaws.antt =====
-- The bits after an operation, and positions of iterators (ase/atomics.hh).
use anklang.Prelude.{
  ℕ, zero, suc, ◌+◌, ◌*◌, ◌/◌, ◌%◌, ◌<◌, ◌≡◌, refl, ap, ◌≢◌, ◌⊎◌, inl, inr, Bool, true, false, ◌&&◌,
  ◌||◌, none, List, [], ◌∷◌, arith, ℕ_discrete, ltb, ◌==◌, if◌then◌else◌, Bool-cases, length, set,
  get_or, drop, length-set,
}
use anklang.Atomics.Bits.{
  bit, change_bit, Iter, iter, valid, position, equal, is_set, change, set_bit, next_block,
  big_inc1,
}

bit-change_bit_self : (f : Bool → Bool) (w s : ℕ) → bit (change_bit f w s) s ≡ f (bit w s)
unfolding bit change_bit
bit-change_bit_self f w zero = elim (Bool-cases (f (w % 2 == 1))) [
  | inl q ↦ rw q (ground arith)
  | inr q ↦ rw q (ground arith)
]
bit-change_bit_self f w (suc s) =
    let half : (change_bit f (w / 2) s * 2 + w % 2) / 2 ≡ change_bit f (w / 2) s = omega arith in
    rw half (bit-change_bit_self f (w / 2) s)

bit-change_bit_other : (f : Bool → Bool) (w s t : ℕ) → s ≢ t → bit (change_bit f w s) t ≡ bit w t
unfolding bit change_bit
bit-change_bit_other f w zero zero n = absurd (n refl)
bit-change_bit_other f w zero (suc t) n = elim (Bool-cases (f (w % 2 == 1))) [
  | inl q ↦ let half : (w / 2 * 2 + 1) / 2 ≡ w / 2 = omega arith in rw (q, half) refl
  | inr q ↦ let half : (w / 2 * 2 + 0) / 2 ≡ w / 2 = omega arith in rw (q, half) refl
]
bit-change_bit_other f w (suc s) zero n =
    let low : (change_bit f (w / 2) s * 2 + w % 2) % 2 ≡ w % 2 = omega arith in rw low refl
bit-change_bit_other f w (suc s) (suc t) n =
    let half : (change_bit f (w / 2) s * 2 + w % 2) / 2 ≡ change_bit f (w / 2) s = omega arith in
    rw half (bit-change_bit_other f (w / 2) s t (λ e. n (omega (arith, e))))

get_or-set_self : (bits : List ℕ) (u x : ℕ) → u < length bits → get_or (set bits u x) u 0 ≡ x
get_or-set_self [] u x h = absurd (omega (arith, h))
get_or-set_self (w ∷ bits) zero x h = refl
get_or-set_self (w ∷ bits) (suc u) x h = get_or-set_self bits u x (omega (arith, h))

get_or-set_other : (bits : List ℕ) (u v x : ℕ) → u ≢ v → get_or (set bits u x) v 0 ≡ get_or bits v 0
get_or-set_other [] u v x n = refl
get_or-set_other (w ∷ bits) zero zero x n = absurd (n refl)
get_or-set_other (w ∷ bits) zero (suc v) x n = refl
get_or-set_other (w ∷ bits) (suc u) zero x n = refl
get_or-set_other (w ∷ bits) (suc u) (suc v) x n =
    get_or-set_other bits u v x (λ e. n (omega (arith, e)))

is_set-change_self :
    (f : Bool → Bool) (bits : List ℕ) (it : Iter)
    → valid bits it ≡ true
    → is_set (change f bits it).0 it ≡ f (is_set bits it)
unfolding is_set change
is_set-change_self f bits it v =
    let inside : it.u < length bits = ground arith in
    let still : ltb it.u (length (set bits it.u (change_bit f (get_or bits it.u 0) it.s))) ≡ true =
      rw (length-set bits it.u (change_bit f (get_or bits it.u 0) it.s)) v in
    rw (v, still, get_or-set_self bits it.u _ inside)
      (bit-change_bit_self f (get_or bits it.u 0) it.s)

is_set-change_other :
    (f : Bool → Bool) (bits : List ℕ) (it other : Iter)
    → (it.u ≢ other.u) ⊎ (it.s ≢ other.s)
    → is_set (change f bits it).0 other ≡ is_set bits other
unfolding is_set change
is_set-change_other f bits it other n = elim (Bool-cases (valid bits it)) [
  | inr q ↦ rw q refl
  | inl q ↦
      rw (q, length-set bits it.u (change_bit f (get_or bits it.u 0) it.s))
        (ap (λ b. valid bits other && b)
          (elim (ℕ_discrete it.u other.u) [
            | no m ↦
                rw (get_or-set_other bits it.u other.u (change_bit f (get_or bits it.u 0) it.s) m)
                  refl
            | yes e ↦
                let inside : it.u < length bits = ground arith in
                let apart : it.s ≢ other.s = λ r. elim n [ inl m ↦ m e | inr m ↦ m r ] in
                rw (← e, get_or-set_self bits it.u (change_bit f (get_or bits it.u 0) it.s) inside)
                  (bit-change_bit_other f (get_or bits it.u 0) it.s other.s apart)
          ]))
]

iter_apart : (p q : ℕ) → p ≢ q → (p / 64 ≢ q / 64) ⊎ (p % 64 ≢ q % 64)
iter_apart p q n = elim (ℕ_discrete (p / 64) (q / 64)) [
  | no m ↦ inl m
  | yes e ↦ inr (λ r. n (omega (arith, e, r)))
]

-- For a position within the blocks: after set, the bit at that position is the new one, and each
-- bit at another position is the one before.
is_set-set_bit :
    (bits : List ℕ) (p q : ℕ) (toggle : Bool)
    → p < 64 * length bits
    → is_set (set_bit bits (iter p) toggle).0 (iter q)
      ≡ (if p == q then toggle else is_set bits (iter q))
unfolding set_bit
is_set-set_bit bits p q toggle h =
    let inside : valid bits (iter p) ≡ true = ground arith in
    elim (ℕ_discrete p q) [
      | yes e ↦
          let same : (p == q) ≡ true = ground arith in
          rw same (rw (← e) (is_set-change_self (λ b. toggle) bits (iter p) inside))
      | no n ↦
          let other : (p == q) ≡ false = ground arith in
          rw other (is_set-change_other (λ b. toggle) bits (iter p) (iter q) (iter_apart p q n))
    ]

or_true : (b : Bool) → (b || true) ≡ true
or_true b = ground arith

-- Below 64, the iterator at the start of block `u` and the one at position `u` compare equal.
pub equal-iter : (bits : List ℕ) (u : ℕ) → u < 64 → equal bits (iter (64 * u)) (iter u) ≡ true
unfolding equal position
equal-iter bits u h =
    let block : 64 * u / 64 ≡ u = omega arith in
    let first_bit : 64 * u % 64 ≡ 0 = omega arith in
    let low : u / 64 ≡ 0 = omega arith in
    let within : u % 64 ≡ u = omega arith in
    let same : (u + 0 == 0 + u) ≡ true = ground arith in
    rw (block, first_bit, low, within, same) (or_true _)

-- Only zero blocks
abbrev pub IsZero : List ℕ → Type 0
IsZero [] = Unit
IsZero (w ∷ blocks) = (w ≡ 0) × IsZero blocks

next_block_zero : (u : ℕ) (blocks : List ℕ) → IsZero blocks → next_block u blocks ≡ none
unfolding next_block
next_block_zero u [] z = refl
next_block_zero u (w ∷ blocks) z = rw (z.0) (next_block_zero (u + 1) blocks z.1)

get_or-drop :
    (u : ℕ) (bits : List ℕ)
    → IsZero (drop u bits)
    → (get_or bits u 0 ≡ 0) × IsZero (drop (u + 1) bits)
get_or-drop zero [] z = (refl, tt)
get_or-drop zero (w ∷ bits) z = (z.0, z.1)
get_or-drop (suc u) [] z = let e : suc u + 1 ≡ suc (u + 1) = omega arith in (refl, rw e tt)
get_or-drop (suc u) (w ∷ bits) z =
    let e : suc u + 1 ≡ suc (u + 1) = omega arith in rw e (get_or-drop u bits z)

-- Where an iterator is valid and its block and all blocks behind it are zero, big_inc1 reads
-- behind the last block.
big_inc1_zero :
    (bits : List ℕ) (it : Iter)
    → it.u < length bits
    → IsZero (drop it.u bits)
    → big_inc1 bits it ≡ none
unfolding big_inc1
big_inc1_zero bits it h z =
    let inside : valid bits it ≡ true = ground arith in
    let (here, behind) = get_or-drop it.u bits z in
    rw (inside, here, next_block_zero (it.u + 1) (drop (it.u + 1) bits) behind) refl
