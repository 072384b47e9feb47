-- ===== src/Strings/Split.antt =====
-- string_split, string_split_any and string_join (ase/strings.cc).
use anklang.Prelude.{
  ℕ, zero, suc, ◌+◌, ◌-◌, Bool, true, false, [], ◌∷◌, ◌++◌, ltb, leb, ◌==◌, if◌then◌else◌, length,
  get_or, take, drop,
}
use anklang.Strings.Chars.{Text, Texts, strchr}

-- `a == b` on strings
unfoldable pub eq_text : Text → Text → Bool
eq_text [] [] = true
eq_text [] (y ∷ b) = false
eq_text (x ∷ a) [] = false
eq_text (x ∷ a) (y ∷ b) = let rest = eq_text a b in if x == y then rest else false

-- `string.substr (pos, n)`, for positions up to its end
abbrev pub substr : Text → ℕ → ℕ → Text
substr string pos n = take n (drop pos string)

-- What the loops of the split functions carry
pub record Pieces : Type 0 where
  pub l : ℕ
  pub sv : Texts

-- `string.substr (i, k) == splitter`
abbrev pub splits_at : Text → Text → ℕ → Bool
splits_at string splitter i = eq_text (substr string i (length splitter)) splitter

-- The body of a loop at `i`: a delimiter of length `k` is there, and pieces of some length only are pushed.
abbrev pub piece : (ℕ → ℕ → Bool) → Text → ℕ → ℕ → Pieces → Pieces
piece pushes string i k p = record {
  l = i + k;
  sv = if pushes p.l i then p.sv ++ substr string p.l (i - p.l) ∷ [] else p.sv;
}

-- The loops, `rounds` from `i` to the end
unfoldable pub pieces_from : (ℕ → ℕ → Bool) → (ℕ → Bool) → ℕ → Text → ℕ → ℕ → ℕ → Pieces → Pieces
pieces_from pushes delimits k string maxn zero i p = p
pieces_from pushes delimits k string maxn (suc rounds) i p =
    let rest =
      pieces_from pushes delimits k string maxn rounds (i + 1)
        (if delimits i then piece pushes string i k p else p) in
    if ltb (length p.sv) maxn then rest else p

-- The loop, and the piece behind the last delimiter
unfoldable pub split_with : (ℕ → ℕ → Bool) → (ℕ → Bool) → ℕ → Text → ℕ → Texts
split_with pushes delimits k string maxn =
    let size = length string in
    let p = pieces_from pushes delimits k string maxn size 0 (record { l = 0; sv = [] }) in
    if pushes p.l size then p.sv ++ substr string p.l (size - p.l) ∷ [] else p.sv

-- " \t\n\r\f\v"
abbrev pub whitespaces : Text
whitespaces = 32 ∷ 9 ∷ 10 ∷ 13 ∷ 12 ∷ 11 ∷ []

unfoldable pub string_whitesplit : Text → ℕ → Texts
string_whitesplit string maxn =
    split_with ltb (λ i. strchr whitespaces (get_or string i 0)) 1 string maxn

unfoldable pub string_split : Text → Text → ℕ → Texts
string_split string splitter maxn =
    if eq_text splitter []
    then string_whitesplit string maxn
    else split_with leb (splits_at string splitter) (length splitter) string maxn

-- Without splitchars: single characters, and what is left after `maxn` of them
unfoldable pub split_chars : Text → ℕ → Texts
split_chars [] maxn = []
split_chars (c ∷ string) zero = (c ∷ string) ∷ []
split_chars (c ∷ string) (suc maxn) = (c ∷ []) ∷ split_chars string maxn

unfoldable pub string_split_any : Text → Text → ℕ → Texts
string_split_any string splitchars maxn =
    if eq_text splitchars []
    then split_chars string maxn
    else split_with leb (λ i. strchr splitchars (get_or string i 0)) 1 string maxn

-- The loop of string_join behind the first string
unfoldable pub join_from : Text → Text → Texts → Text
join_from s junctor [] = s
join_from s junctor (x ∷ strvec) = join_from (s ++ (junctor ++ x)) junctor strvec

unfoldable pub string_join : Text → Texts → Text
string_join junctor [] = []
string_join junctor (s ∷ strvec) = join_from s junctor strvec

unfoldable pub string_vector_erase_empty : Texts → Texts
string_vector_erase_empty [] = []
string_vector_erase_empty ([] ∷ svector) = string_vector_erase_empty svector
string_vector_erase_empty ((c ∷ s) ∷ svector) = (c ∷ s) ∷ string_vector_erase_empty svector
