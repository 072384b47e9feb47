-- ===== src/Atomics/Apart.antt =====
-- Lists of nodes without common nodes, and chains of nodes in memory (ase/atomics.hh).
use anklang.Prelude.{ℕ, ◌≡◌, refl, sym, ◌∙◌, ◌≢◌, Option, none, some, List, [], ◌∷◌, ◌++◌, arith}
use anklang.Atomics.Stack.{Next, store, first, Links, Without, Apart}

-- The nodes from a pointer on
abbrev pub Chain : Next → Option ℕ → List ℕ → Type 0
Chain next p [] = p ≡ none
Chain next p (a ∷ xs) = (p ≡ some a) × Chain next (next a) xs

pub Without-append : (a : ℕ) (xs ys : List ℕ) → Without a xs → Without a ys → Without a (xs ++ ys)
Without-append a [] ys h k = k
Without-append a (x ∷ xs) ys h k = (h.0, Without-append a xs ys h.1 k)

pub Without-init :
    (a last : ℕ) (init : List ℕ) → Without a (init ++ last ∷ []) → Without a init × (a ≢ last)
Without-init a last [] h = (tt, h.0)
Without-init a last (x ∷ init) h = let r = Without-init a last init h.1 in ((h.0, r.0), r.1)

pub Apart-nil : (xs : List ℕ) → Apart xs []
Apart-nil [] = tt
Apart-nil (x ∷ xs) = (tt, Apart-nil xs)

pub Apart-append : (xs ys zs : List ℕ) → Apart xs ys → Apart xs zs → Apart xs (ys ++ zs)
Apart-append [] ys zs h k = tt
Apart-append (x ∷ xs) ys zs h k = (Without-append x ys zs h.0 k.0, Apart-append xs ys zs h.1 k.1)

pub Apart-cons : (xs ys : List ℕ) (a : ℕ) → Apart xs ys → Without a xs → Apart xs (a ∷ ys)
Apart-cons [] ys a h k = tt
Apart-cons (x ∷ xs) ys a h k = ((λ e. k.0 (sym e), h.0), Apart-cons xs ys a h.1 k.1)

pub Apart-sym : (xs ys : List ℕ) → Apart xs ys → Apart ys xs
Apart-sym [] ys h = Apart-nil ys
Apart-sym (x ∷ xs) ys h = Apart-cons ys xs x (Apart-sym xs ys h.1) h.0

pub Apart-last : (init ys : List ℕ) (last : ℕ) → Apart (init ++ last ∷ []) ys → Without last ys
Apart-last [] ys last h = h.0
Apart-last (a ∷ init) ys last h = Apart-last init ys last h.1

pub store_self : (next : Next) (z : ℕ) (v : Option ℕ) → store next z v z ≡ v
unfolding store
store_self next z v = ground arith

pub store_other : (next : Next) (z a : ℕ) (v : Option ℕ) → z ≢ a → store next z v a ≡ next a
unfolding store
store_other next z a v n = ground arith

pub Chain-store :
    (next : Next) (z : ℕ) (v p : Option ℕ) (xs : List ℕ)
    → Without z xs
    → Chain next p xs
    → Chain (store next z v) p xs
Chain-store next z v p [] w c = c
Chain-store next z v p (a ∷ xs) w c =
    (c.0, rw (store_other next z a v w.0) (Chain-store next z v (next a) xs w.1 c.1))

pub Links-store :
    (next : Next) (z last : ℕ) (v : Option ℕ) (init : List ℕ)
    → Without z init
    → Links next init last
    → Links (store next z v) init last
Links-store next z last v [] w l = tt
Links-store next z last v (a ∷ init) w l =
    (store_other next z a v w.0 ∙ l.0, Links-store next z last v init w.1 l.1)

pub Links-Chain :
    (next : Next) (init xs : List ℕ) (last : ℕ)
    → Links next init last
    → Chain next (next last) xs
    → Chain next (some (first init last)) (init ++ last ∷ [] ++ xs)
Links-Chain next [] xs last l c = (refl, c)
Links-Chain next (a ∷ init) xs last l c = (refl, rw (l.0) (Links-Chain next init xs last l.1 c))
