-- ===== src/Strings/Join.antt =====
-- Splitting a string and joining the pieces (ase/strings.cc).
use anklang.Prelude.{
  ℕ, zero, suc, ◌+◌, ◌-◌, ◌≤◌, ◌<◌, ◌≡◌, refl, sym, ap, ◌∙◌, ◌≢◌, inl, inr, true, false, [], ◌∷◌,
  ◌++◌, arith, ltb, leb, Bool-cases, length, take, drop, take-append-drop, length-drop,
  length-append,
}
use mathlib.Core.List.{append_assoc}
use anklang.Strings.Chars.{Text, Texts, drop-drop}
use anklang.Strings.Split.{
  eq_text, substr, Pieces, splits_at, piece, pieces_from, split_with, string_split, join_from,
  string_join,
}

eq_text_lem : (a b : Text) → eq_text a b ≡ true → a ≡ b
unfolding eq_text
eq_text_lem [] [] h = refl
eq_text_lem [] (y ∷ b) h = cc
eq_text_lem (x ∷ a) [] h = cc
eq_text_lem (x ∷ a) (y ∷ b) h =
    let same : x ≡ y = ground arith in
    let rest : eq_text a b ≡ true = ground arith in rw (same, eq_text_lem a b rest) refl

take-length : (s : Text) → take (length s) s ≡ s
take-length [] = refl
take-length (x ∷ s) = rw (take-length s) refl

join_from-append :
    (s j : Text) (xs ys : Texts) → join_from s j (xs ++ ys) ≡ join_from (join_from s j xs) j ys
unfolding join_from
join_from-append s j [] ys = refl
join_from-append s j (x ∷ xs) ys = join_from-append (s ++ (j ++ x)) j xs ys

-- A piece behind another, or both as one
string_join-last :
    (j : Text) (sv : Texts) (a b : Text)
    → string_join j (sv ++ a ∷ [] ++ b ∷ []) ≡ string_join j (sv ++ (a ++ (j ++ b)) ∷ [])
unfolding string_join join_from
string_join-last j [] a b = refl
string_join-last j (x ∷ sv) a b =
    rw
      (
        join_from-append x j (sv ++ a ∷ []) (b ∷ []),
        join_from-append x j sv (a ∷ []),
        join_from-append x j sv ((a ++ (j ++ b)) ∷ []),
        append_assoc (join_from x j sv) (j ++ a) (j ++ b),
        append_assoc j a (j ++ b),
      )
      refl

module _ (string splitter : Text) where
  -- Two places where the splitter stands do not overlap.
  abbrev pub NoOverlap : Type 0
  NoOverlap =
      (i j : ℕ)
      → i < j
      → splits_at string splitter i ≡ true
      → splits_at string splitter j ≡ true
      → i + length splitter ≤ j

  splits_at_lem :
      (i : ℕ)
      → splits_at string splitter i ≡ true
      → drop i string ≡ splitter ++ drop (i + length splitter) string
  splits_at_lem i h =
      let there = eq_text_lem (substr string i (length splitter)) splitter h in
      sym (take-append-drop (length splitter) (drop i string))
      ∙ rw (there, drop-drop (length splitter) i string) refl

  -- The pieces before, and all of the string behind them
  abbrev Rest : ℕ → Pieces → Type 0
  Rest i p =
      (string_join splitter (p.sv ++ drop p.l string ∷ []) ≡ string)
      × ((p.l ≤ length string) × ((j : ℕ) → i ≤ j → splits_at string splitter j ≡ true → p.l ≤ j))

  splitter-inside :
      (i : ℕ)
      → i < length string
      → drop i string ≡ splitter ++ drop (i + length splitter) string
      → i + length splitter ≤ length string
  splitter-inside i h e =
      let lengths = ap (λ t. length t) e in
      omega (
        arith,
        h,
        lengths,
        length-drop i string,
        length-append splitter (drop (i + length splitter) string),
      )

  piece-Rest :
      (i : ℕ) (p : Pieces)
      → NoOverlap
      → i < length string
      → splits_at string splitter i ≡ true
      → Rest i p
      → Rest (i + 1) (piece leb string i (length splitter) p)
  piece-Rest i p n h k r =
      let below : p.l ≤ i = r.1.1 i (omega arith) k in
      let pushed : leb p.l i ≡ true = ground arith in
      let reach : p.l + (i - p.l) ≡ i = omega arith in
      let there = splits_at_lem i k in
      let behind = drop-drop (i - p.l) p.l string ∙ ap (λ m. drop m string) reach ∙ there in
      let split : drop p.l string
          ≡ take (i - p.l) (drop p.l string) ++ (splitter ++ drop (i + length splitter) string) =
        sym (take-append-drop (i - p.l) (drop p.l string))
        ∙ ap (λ t. take (i - p.l) (drop p.l string) ++ t) behind in
      (
        rw pushed (string_join-last splitter p.sv _ _ ∙ rw (← split) (r.0)),
        (splitter-inside i h there, λ j q m. n i j (omega arith) k m),
      )

  pieces_from-Rest :
      (maxn rounds i : ℕ) (p : Pieces)
      → NoOverlap
      → i + rounds ≡ length string
      → Rest i p
      → let q =
          pieces_from leb (splits_at string splitter) (length splitter) string maxn rounds i p in
        (string_join splitter (q.sv ++ drop q.l string ∷ []) ≡ string) × (q.l ≤ length string)
  unfolding pieces_from
  pieces_from-Rest maxn zero i p n h r = (r.0, r.1.0)
  pieces_from-Rest maxn (suc rounds) i p n h r = elim (Bool-cases (ltb (length p.sv) maxn)) [
    | inr q ↦ rw q (r.0, r.1.0)
    | inl q ↦ elim (Bool-cases (splits_at string splitter i)) [
      | inl k ↦
          rw (q, k)
            (pieces_from-Rest maxn rounds (i + 1) (piece leb string i (length splitter) p) n
              (omega (arith, h)) (piece-Rest i p n (omega (arith, h)) k r))
      | inr k ↦
          rw (q, k)
            (pieces_from-Rest maxn rounds (i + 1) p n (omega (arith, h))
              (r.0, (r.1.0, λ j m. r.1.1 j (omega (arith, m)))))
    ]
  ]

  -- For a splitter that is not empty and whose places in the string do not overlap, and any
  -- limit on the number of pieces: joining what string_split gives, with the splitter between,
  -- is the string.
  pub string_join-string_split :
      (maxn : ℕ)
      → splitter ≢ []
      → NoOverlap
      → string_join splitter (string_split string splitter maxn) ≡ string
  unfolding string_split split_with string_join join_from
  string_join-string_split maxn ne n =
      let p =
        pieces_from leb (splits_at string splitter) (length splitter) string maxn (length string) 0
          (record { l = 0; sv = [] }) in
      let (joined, inside) =
        pieces_from-Rest maxn (length string) 0 (record { l = 0; sv = [] }) n (omega arith)
          (refl, (omega arith, λ j q m. omega arith)) in
      let some_left : eq_text splitter [] ≡ false = elim (Bool-cases (eq_text splitter [])) [
        | inl q ↦ absurd (ne (eq_text_lem splitter [] q))
        | inr q ↦ q
      ] in
      let pushed : leb p.l (length string) ≡ true = ground arith in
      rw (some_left, pushed, ← length-drop p.l string, take-length (drop p.l string)) joined
