-- ===== src/Atomics/Reversed.antt =====
-- pop_reversed of AtomicIntrusiveStack (ase/atomics.hh): the walk over the nodes that pop_all has given to the thread.
use anklang.Prelude.{
  ℕ, zero, suc, ◌<◌, ◌≡◌, refl, ap, Option, none, some, List, [], ◌∷◌, arith, length,
}
use anklang.Atomics.Stack.{Next, store, Without, Apart}
use anklang.Atomics.Apart.{Chain, Apart-nil, Apart-cons, store_self, Chain-store}

-- The loop, on fuel
unfoldable pub reverse_from : ℕ → Next → Option ℕ → Option ℕ → Next × Option ℕ
reverse_from zero next current prev = (next, prev)
reverse_from (suc fuel) next none prev = (next, prev)
reverse_from (suc fuel) next (some el) prev =
    reverse_from fuel (store next el prev) (next el) (some el)

-- The nodes in the other order, before others
abbrev pub reversed : List ℕ → List ℕ → List ℕ
reversed [] ys = ys
reversed (a ∷ xs) ys = reversed xs (a ∷ ys)

Chain-unique :
    (next : Next) (p : Option ℕ) (xs ys : List ℕ) → Chain next p xs → Chain next p ys → xs ≡ ys
Chain-unique next p [] [] c d = refl
Chain-unique next p [] (b ∷ ys) c d = absurd (cc (c, d.0))
Chain-unique next p (a ∷ xs) [] c d = absurd (cc (c.0, d))
Chain-unique next p (a ∷ xs) (b ∷ ys) c d =
    let same : a ≡ b = cc (c.0, d.0) in
    rw (same, Chain-unique next (next b) xs ys (rw same at (c.1)) d.1) refl

-- A chain that ends does not come back to a node.
Chain-Without :
    (next : Next) (q : Option ℕ) (a : ℕ) (xs zs : List ℕ)
    → Chain next q xs
    → Chain next (some a) zs
    → length xs < length zs
    → Without a xs
Chain-Without next q a [] zs c d h = tt
Chain-Without next q a (b ∷ xs) zs c d h = (
  λ e.
      let from : Chain next (some a) (b ∷ xs) = (rw e refl, c.1) in
      let same = ap (λ l. length l) (Chain-unique next (some a) (b ∷ xs) zs from d) in
      omega (arith, h, same),
  Chain-Without next (next b) a xs zs c.1 d (omega (arith, h)),
)

reverse_from-Chain :
    (fuel : ℕ) (next : Next) (current prev : Option ℕ) (xs ys : List ℕ)
    → Chain next current xs
    → Chain next prev ys
    → Apart xs ys
    → length xs < fuel
    → let r = reverse_from fuel next current prev in Chain r.0 r.1 (reversed xs ys)
unfolding reverse_from
reverse_from-Chain zero next current prev xs ys c d a h = absurd (omega (arith, h))
reverse_from-Chain (suc fuel) next current prev [] ys c d a h = rw c d
reverse_from-Chain (suc fuel) next current prev (x ∷ xs) ys c d a h =
    let behind = Chain-Without next (next x) x xs (x ∷ xs) c.1 (refl, c.1) (omega arith) in
    rw (c.0) (
      reverse_from-Chain fuel (store next x prev) (next x) (some x) xs (x ∷ ys)
        (Chain-store next x prev (next x) xs behind c.1)
        (refl, rw (store_self next x prev) (Chain-store next x prev prev ys a.0 d))
        (Apart-cons xs ys x a.1 behind) (omega (arith, h)))

-- Where `exchange` links to some nodes up to the end: the loop of pop_reversed ends within one
-- round more than there are nodes, and its result links to the same nodes in the other order.
pub reverse_from-reversed :
    (fuel : ℕ) (next : Next) (exchange : Option ℕ) (nodes : List ℕ)
    → Chain next exchange nodes
    → length nodes < fuel
    → let r = reverse_from fuel next exchange none in Chain r.0 r.1 (reversed nodes [])
reverse_from-reversed fuel next exchange nodes c h =
    reverse_from-Chain fuel next exchange none nodes [] c refl (Apart-nil nodes) h
