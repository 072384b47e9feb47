-- ===== src/Strings/KvPairLaws.antt =====
-- Assigning and fetching in lists of "key=value" strings (ase/strings.cc).
use anklang.Prelude.{
  ℕ, suc, ◌+◌, ◌≡◌, refl, sym, ◌∙◌, ◌≢◌, inl, inr, Bool, true, false, Option, none, some, [], ◌∷◌,
  ◌++◌, arith, ltb, ◌==◌, Bool-cases, Option-cases, lt→ltb, length, set, get_or, take, drop,
  length-append,
}
use anklang.Strings.Chars.{Text, Texts, drop-drop}
use anklang.Strings.KvPairs.{
  find_eq, equals_n, kvpair_matches, kvpairs_search, c_string, kvpairs_fetch, assign_pair,
  kvpairs_assign, IsKey, IsValue,
}

module _ (casesensitive : Bool) where
  equals_n_self : (k s : Text) → equals_n casesensitive (k ++ s) k ≡ true
  unfolding equals_n
  equals_n_self [] s = refl
  equals_n_self (c ∷ k) s = ground (arith, equals_n_self k s)

  find_eq-key : (k v : Text) → IsKey k → find_eq (k ++ 61 ∷ v) ≡ some (length k)
  unfolding find_eq
  find_eq-key [] v h = refl
  find_eq-key (c ∷ k) v h = rw (h.0, h.1.0, find_eq-key k v h.1.1) refl

  take-length_append : (k s : Text) → take (length k) (k ++ s) ≡ k
  take-length_append [] s = refl
  take-length_append (c ∷ k) s = rw (take-length_append k s) refl

  drop-length_append : (k s : Text) → drop (length k) (k ++ s) ≡ s
  drop-length_append [] s = refl
  drop-length_append (c ∷ k) s = drop-length_append k s

  get_or-length_append : (k s : Text) (c : ℕ) → get_or (k ++ c ∷ s) (length k) 0 ≡ c
  get_or-length_append [] s c = refl
  get_or-length_append (x ∷ k) s c = get_or-length_append k s c

  kvpair_matches_self : (k v : Text) → kvpair_matches casesensitive k (k ++ 61 ∷ v) ≡ true
  unfolding kvpair_matches
  kvpair_matches_self k v =
      let more : ltb (length k) (length (k ++ 61 ∷ v)) ≡ true =
        lt→ltb _ _ (omega (arith, length-append k (61 ∷ v))) in
      rw (more, get_or-length_append k v 61, equals_n_self k (61 ∷ v)) refl

  -- Where the search finds the key, and where the pair is then
  kvpairs_search-set :
      (kvs : Texts) (k s : Text) (i : ℕ)
      → kvpair_matches casesensitive k s ≡ true
      → kvpairs_search kvs k casesensitive ≡ some i
      → (kvpairs_search (set kvs i s) k casesensitive ≡ some i) × (get_or (set kvs i s) i [] ≡ s)
  unfolding kvpairs_search
  kvpairs_search-set [] k s i m e = cc
  kvpairs_search-set (t ∷ kvs) k s i m e = elim (Bool-cases (kvpair_matches casesensitive k t)) [
    | inl q ↦ let here : 0 ≡ i = cc (rw q at e) in rw (← here, m) (refl, refl)
    | inr q ↦ elim (Option-cases (kvpairs_search kvs k casesensitive)) [
      | inl n ↦ absurd (cc (rw (q, n) at e))
      | inr (j, p) ↦
          let there : suc j ≡ i = cc (rw (q, p) at e) in
          let (found, stored) = kvpairs_search-set kvs k s j m p in
          rw (← there, q, found) (refl, stored)
    ]
  ]

  kvpairs_search-append :
      (kvs : Texts) (k s : Text)
      → kvpair_matches casesensitive k s ≡ true
      → kvpairs_search kvs k casesensitive ≡ none
      → (kvpairs_search (kvs ++ s ∷ []) k casesensitive ≡ some (length kvs))
        × (get_or (kvs ++ s ∷ []) (length kvs) [] ≡ s)
  unfolding kvpairs_search
  kvpairs_search-append [] k s m e = (rw m refl, refl)
  kvpairs_search-append (t ∷ kvs) k s m e = elim (Bool-cases (kvpair_matches casesensitive k t)) [
    | inl q ↦ absurd (cc (rw q at e))
    | inr q ↦ elim (Option-cases (kvpairs_search kvs k casesensitive)) [
      | inr (j, p) ↦ absurd (cc (rw (q, p) at e))
      | inl n ↦
          let (found, stored) = kvpairs_search-append kvs k s m n in rw (q, found) (refl, stored)
    ]
  ]

  c_string-value : (v : Text) → IsValue v → c_string v ≡ v
  unfolding c_string
  c_string-value [] h = refl
  c_string-value (c ∷ v) h = rw (h.0, c_string-value v h.1) refl

  -- What is fetched where a pair was found
  fetch_at :
      (kvs : Texts) (k v : Text) (i : ℕ)
      → IsValue v
      → kvpairs_search kvs k casesensitive ≡ some i
      → get_or kvs i [] ≡ k ++ 61 ∷ v
      → kvpairs_fetch kvs k casesensitive ≡ v
  unfolding kvpairs_fetch
  fetch_at kvs k v i h e g =
      let behind : drop (length k + 1) (k ++ 61 ∷ v) ≡ v =
        sym (drop-drop 1 (length k) (k ++ 61 ∷ v)) ∙ rw (drop-length_append k (61 ∷ v)) refl in
      rw (kvpairs_fetch, e, g, behind) (c_string-value v h)

  kvpairs_assign-pair :
      (kvs : Texts) (c : ℕ) (k v : Text)
      → IsKey (c ∷ k)
      → kvpairs_assign kvs (c ∷ k ++ 61 ∷ v) casesensitive
        ≡ assign_pair kvs
            (c ∷ k ++ 61 ∷ v)
            (suc (length k))
            (kvpairs_search kvs (c ∷ k) casesensitive)
  unfolding kvpairs_assign
  kvpairs_assign-pair kvs c k v h =
      let found = find_eq-key (c ∷ k) v h in
      let some_key : (suc (length k) == 0) ≡ false = ground arith in
      rw (kvpairs_assign, found, some_key, take-length_append k (61 ∷ v)) refl

  -- A value that is not empty is set or appended.
  assign_pair-value :
      (kvs : Texts) (pair : Text) (n : ℕ) (found : Option ℕ)
      → (length pair == n + 1) ≡ false
      → assign_pair kvs pair n found ≡ elim found as (λ f. Texts × Bool) [
        | some i ↦ (set kvs i pair, true)
        | none ↦ (kvs ++ pair ∷ [], false)
      ]
  unfolding assign_pair
  assign_pair-value kvs pair n none h = rw h refl
  assign_pair-value kvs pair n (some i) h = rw h refl

  -- For a key that is not empty and has neither '=' nor NUL, and a value that is not empty and
  -- has no NUL, in any list of pairs and for any case sensitivity: kvpairs_fetch gives the
  -- value that kvpairs_assign has assigned to the key.
  pub kvpairs_fetch-kvpairs_assign :
      (kvs : Texts) (key value : Text)
      → key ≢ []
      → IsKey key
      → value ≢ []
      → IsValue value
      → kvpairs_fetch (kvpairs_assign kvs (key ++ 61 ∷ value) casesensitive).0 key casesensitive
        ≡ value
  kvpairs_fetch-kvpairs_assign kvs [] v ke h ve hv = absurd (ke refl)
  kvpairs_fetch-kvpairs_assign kvs k [] ke h ve hv = absurd (ve refl)
  kvpairs_fetch-kvpairs_assign kvs (c ∷ k) (d ∷ v) ke h ve hv =
      let pair = c ∷ k ++ 61 ∷ d ∷ v in
      let some_value : (length pair == suc (length k) + 1) ≡ false =
        ground (arith, length-append k (61 ∷ d ∷ v)) in
      let matching = kvpair_matches_self (c ∷ k) (d ∷ v) in
      let assigned = kvpairs_assign-pair kvs c k (d ∷ v) h in
      elim (Option-cases (kvpairs_search kvs (c ∷ k) casesensitive)) [
        | inl n ↦
            let (found, stored) = kvpairs_search-append kvs (c ∷ k) pair matching n in
            rw
              (
                assigned,
                assign_pair-value kvs pair _ (kvpairs_search kvs (c ∷ k) casesensitive) some_value,
                n,
              )
              (fetch_at _ (c ∷ k) (d ∷ v) _ hv found stored)
        | inr (i, e) ↦
            let (found, stored) = kvpairs_search-set kvs (c ∷ k) pair i matching e in
            rw
              (
                assigned,
                assign_pair-value kvs pair _ (kvpairs_search kvs (c ∷ k) casesensitive) some_value,
                e,
              )
              (fetch_at _ (c ∷ k) (d ∷ v) _ hv found stored)
      ]
