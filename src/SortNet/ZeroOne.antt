-- ===== src/SortNet/ZeroOne.antt =====
-- The zero-one principle: a network that sorts all Boolean inputs sorts any (ase/sortnet.hh).
use Prim.Native.Nat.{bit_and, bit_or}
use anklang.Prelude.{
  ℕ, zero, suc, ◌≡◌, refl, sym, ap, ◌∙◌, arith, Bool, true, false, not, ◌==◌, ◌&&◌, ◌||◌,
  if◌then◌else◌, List, [], ◌∷◌, map, length, get_elem?, set, none, some, ◌⊎◌, inl, inr,
  Option-cases, length-map,
}
use anklang.EventList.Order.{Compare, IsOrder, cmp_self}
use anklang.SortNet.Networks.{Network}
use anklang.SortNet.Sort.{lesser, exchange, run, sort_by}
use anklang.SortNet.Bits.{bit, bit-bit_and, bit-bit_or}
use anklang.SortNet.Tables.{tables, tables_lem}

-- All inputs come out sorted.
abbrev ordered : List ℕ → Bool
ordered [] = true
ordered (a ∷ []) = true
ordered (a ∷ b ∷ ws) = bit_and a b == a && ordered (b ∷ ws)

unfoldable pub sorts : ℕ → Network → Bool
sorts n net = ordered (run bit_and bit_or net (tables n))

get-map :
    {A B : Type 0} (f : A → B) (v : List A) (i : ℕ) (a : A)
    → get_elem? v i ≡ some a
    → get_elem? (map f v) i ≡ some (f a)
get-map f [] i a e = cc
get-map f (x ∷ v) zero a e = let same : x ≡ a = cc in rw same refl
get-map f (x ∷ v) (suc i) a e = get-map f v i a e

get-map-none :
    {A B : Type 0} (f : A → B) (v : List A) (i : ℕ)
    → get_elem? v i ≡ none
    → get_elem? (map f v) i ≡ none
get-map-none f [] i e = refl
get-map-none f (x ∷ v) zero e = cc
get-map-none f (x ∷ v) (suc i) e = get-map-none f v i e

map-set :
    {A B : Type 0} (f : A → B) (v : List A) (i : ℕ) (x : A)
    → map f (set v i x) ≡ set (map f v) i (f x)
map-set f [] i x = refl
map-set f (y ∷ v) zero x = refl
map-set f (y ∷ v) (suc i) x = ap (λ t. f y ∷ t) (map-set f v i x)

-- What `exchange` does where both values are there, and where one is not
module _ {A : Type 0} (lo hi : A → A → A) (i j : ℕ) (v : List A) where
  pub exchange-some :
      (a b : A)
      → get_elem? v i ≡ some a
      → get_elem? v j ≡ some b
      → exchange lo hi i j v ≡ set (set v i (lo a b)) j (hi a b)
  exchange-some a b e k = rw (e, k, exchange) refl

  pub exchange-none : (get_elem? v i ≡ none) ⊎ (get_elem? v j ≡ none) → exchange lo hi i j v ≡ v
  exchange-none (inl n) = rw (n, exchange) refl
  exchange-none (inr n) = elim (Option-cases (get_elem? v i)) [
    | inl k ↦ rw (k, exchange) refl
    | inr (a, k) ↦ rw (k, n, exchange) refl
  ]

module _ {A B : Type 0} (f : A → B) (lo hi : A → A → A) (lo' hi' : B → B → B)
    (l : (a b : A) → f (lo a b) ≡ lo' (f a) (f b))
    (h : (a b : A) → f (hi a b) ≡ hi' (f a) (f b)) where
  exchange-map :
      (i j : ℕ) (v : List A) → map f (exchange lo hi i j v) ≡ exchange lo' hi' i j (map f v)
  exchange-map i j v = elim (Option-cases (get_elem? v i)) [
    | inl n ↦
        rw
          (
            exchange-none lo hi i j v (inl n),
            exchange-none lo' hi' i j (map f v) (inl (get-map-none f v i n)),
          )
          refl
    | inr (a, e) ↦ elim (Option-cases (get_elem? v j)) [
      | inl n ↦
          rw
            (
              exchange-none lo hi i j v (inr n),
              exchange-none lo' hi' i j (map f v) (inr (get-map-none f v j n)),
            )
            refl
      | inr (b, k) ↦
          rw
            (
              exchange-some lo hi i j v a b e k,
              exchange-some lo' hi' i j (map f v) (f a) (f b) (get-map f v i a e)
                  (get-map f v j b k),
              map-set f (set v i (lo a b)) j (hi a b),
              map-set f v i (lo a b),
              l a b,
              h a b,
            )
            refl
    ]
  ]

  run-map : (net : Network) (v : List A) → map f (run lo hi net v) ≡ run lo' hi' net (map f v)
  unfolding run
  run-map [] v = refl
  run-map ((i, j) ∷ net) v =
      run-map net (exchange lo hi i j v) ∙ ap (run lo' hi' net) (exchange-map i j v)

module _ {E : Type 0} (cmp : Compare E) where
  -- No value is below the one before it.
  abbrev pub Ascends : List E → Type 0
  Ascends [] = Unit
  Ascends (a ∷ []) = Unit
  Ascends (a ∷ b ∷ v) = (lesser cmp b a ≡ false) × Ascends (b ∷ v)

  -- Which values are not below `k`
  abbrev from : E → E → Bool
  from k a = not (lesser cmp a k)

module _ {E : Type 0} {cmp : Compare E} (o : IsOrder cmp) where
  from-lo :
      (k a b : E) → from cmp k (if lesser cmp b a then b else a) ≡ (from cmp k a && from cmp k b)
  from-lo k a b = ground (arith, o.swap a b, o.lt_trans b a k, o.lt_trans a b k, o.eq_left a b k)

  from-hi :
      (k a b : E) → from cmp k (if lesser cmp b a then a else b) ≡ (from cmp k a || from cmp k b)
  from-hi k a b = ground (arith, o.swap a b, o.lt_trans b a k, o.lt_trans a b k, o.eq_left a b k)

  ordered-Ascends :
      (ws : List ℕ) (v : List E)
      → ordered ws ≡ true
      → ((k : E) → (e : ℕ) × (map (from cmp k) v ≡ map (bit e) ws))
      → Ascends cmp v
  ordered-Ascends ws [] s h = tt
  ordered-Ascends ws (a ∷ []) s h = tt
  ordered-Ascends [] (a ∷ b ∷ v) s h = absurd (cc ((h a).1))
  ordered-Ascends (w ∷ []) (a ∷ b ∷ v) s h = absurd (cc ((h a).1))
  ordered-Ascends (w ∷ x ∷ ws) (a ∷ b ∷ v) s h =
      let (e, q) = h a in
      let first : not (lesser cmp a a) ≡ bit e w = cc in
      let second : not (lesser cmp b a) ≡ bit e x = cc in
      let within : bit_and w x ≡ w = ground arith in
      let both = bit-bit_and e w x in
      let kept : bit e w ≡ (bit e w && bit e x) = sym (ap (bit e) within) ∙ both in
      let self = cmp_self o a in
      (ground arith, ordered-Ascends (x ∷ ws) (b ∷ v) (ground arith) λ k. ((h k).0, cc ((h k).1)))

  pub sort_by-Ascends :
      (n : ℕ) (net : Network) (v : List E)
      → sorts n net ≡ true
      → length v ≡ n
      → Ascends cmp (sort_by cmp net v)
  unfolding sorts sort_by
  sort_by-Ascends n net v s h = ordered-Ascends (run bit_and bit_or net (tables n)) _ s λ k.
      let (e, l, q) = tables_lem n (map (from cmp k) v) (length-map v (from cmp k) ∙ h) in
      let on_input =
        run-map (from cmp k) _ _ (λ x y. x && y) (λ x y. x || y) (from-lo k) (from-hi k) net v in
      let on_tables =
        run-map (bit e) bit_and bit_or (λ x y. x && y) (λ x y. x || y) (bit-bit_and e)
          (bit-bit_or e) net (tables n) in
      (e, on_input ∙ ap (run _ _ net) (sym q) ∙ sym on_tables)
