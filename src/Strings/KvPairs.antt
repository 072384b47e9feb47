-- ===== src/Strings/KvPairs.antt =====
-- Lists of "key=value" strings (ase/strings.cc).
use anklang.Prelude.{
  ℕ, suc, ◌+◌, ◌-◌, ◌≡◌, Bool, true, false, ◌&&◌, Option, none, some, [], ◌∷◌, ◌++◌, ltb, ◌==◌,
  if◌then◌else◌, length, set, get_or, take, drop, erase_at,
}
use anklang.Strings.Chars.{Text, Texts, within}

-- A position behind one more element
abbrev pub one_on : Option ℕ → Option ℕ
one_on none = none
one_on (some i) = some (suc i)

-- The position of the first '=' of a C string
unfoldable pub find_eq : Text → Option ℕ
find_eq [] = none
find_eq (c ∷ s) =
    let rest = one_on (find_eq s) in if c == 61 then some 0 else if c == 0 then none else rest

unfoldable pub kvpair_key : Text → Text
kvpair_key key_value_pair = elim (find_eq key_value_pair) [
  | some eq ↦ take eq key_value_pair
  | none ↦ key_value_pair
]

unfoldable pub kvpair_value : Text → Text
kvpair_value key_value_pair = elim (find_eq key_value_pair) [
  | some eq ↦ drop (eq + 1) key_value_pair
  | none ↦ []
]

-- tolower of the C library, for strncasecmp
abbrev pub fold : Bool → ℕ → ℕ
fold casesensitive c = if casesensitive then c else if within 65 90 c then c + 32 else c

-- `strncmp (s, k, l) == 0` or `strncasecmp (s, k, l) == 0`, for `k` of size `l`
unfoldable pub equals_n : Bool → Text → Text → Bool
equals_n casesensitive s [] = true
equals_n casesensitive [] (y ∷ k) = y == 0
equals_n casesensitive (x ∷ s) (y ∷ k) =
    let rest = equals_n casesensitive s k in
    if fold casesensitive x == fold casesensitive y then (if x == 0 then true else rest) else false

-- The test of the loop on one string
unfoldable pub kvpair_matches : Bool → Text → Text → Bool
kvpair_matches casesensitive k s =
    (ltb (length k) (length s) && (get_or s (length k) 0 == 61)) && equals_n casesensitive s k

-- `none` for -1
unfoldable pub kvpairs_search : Texts → Text → Bool → Option ℕ
kvpairs_search [] k casesensitive = none
kvpairs_search (s ∷ kvs) k casesensitive =
    let rest = one_on (kvpairs_search kvs k casesensitive) in
    if kvpair_matches casesensitive k s then some 0 else rest

-- A string of what a `const char*` points to
unfoldable pub c_string : Text → Text
c_string [] = []
c_string (c ∷ s) = let rest = c_string s in if c == 0 then [] else c ∷ rest

unfoldable pub kvpairs_fetch : Texts → Text → Bool → Text
kvpairs_fetch kvs key casesensitive = elim (kvpairs_search kvs key casesensitive) [
  | some i ↦ c_string (drop (length key + 1) (get_or kvs i []))
  | none ↦ []
]

-- The vector and the result, for a key that is not empty
unfoldable pub assign_pair : Texts → Text → ℕ → Option ℕ → Texts × Bool
assign_pair kvs key_value_pair key_size found =
    if (length key_value_pair == key_size + 1)
      && (get_or key_value_pair (length key_value_pair - 1) 0 == 61)
    then elim found [ some i ↦ (erase_at kvs i, true) | none ↦ (kvs, false) ]
    else elim found [
      | some i ↦ (set kvs i key_value_pair, true)
      | none ↦ (kvs ++ key_value_pair ∷ [], false)
    ]

unfoldable pub kvpairs_assign : Texts → Text → Bool → Texts × Bool
kvpairs_assign kvs key_value_pair casesensitive = elim (find_eq key_value_pair) [
  | none ↦ (kvs, false)
  | some eq ↦
      if eq == 0
      then (kvs, false)
      else assign_pair kvs key_value_pair eq
          (kvpairs_search kvs (take eq key_value_pair) casesensitive)
]

-- A key that can be in a pair, and a value without a NUL
abbrev pub IsKey : Text → Type 0
IsKey [] = Unit
IsKey (c ∷ k) = ((c == 61) ≡ false) × (((c == 0) ≡ false) × IsKey k)

abbrev pub IsValue : Text → Type 0
IsValue [] = Unit
IsValue (c ∷ v) = ((c == 0) ≡ false) × IsValue v
