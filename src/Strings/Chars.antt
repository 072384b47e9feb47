-- ===== src/Strings/Chars.antt =====
-- Bytes of a string, and the tests of the C library on them in the C locale (ase/strings.cc).
use anklang.Prelude.{
  ℕ, zero, suc, ◌+◌, ◌<◌, ◌≡◌, refl, Bool, true, false, ◌&&◌, ◌||◌, List, [], ◌∷◌, arith, leb, ◌==◌,
  if◌then◌else◌, drop,
}

abbrev pub Text : Type 0
Text = List ℕ

abbrev pub Texts : Type 0
Texts = List Text

-- `lo <= c && c <= hi`
abbrev pub within : ℕ → ℕ → ℕ → Bool
within lo hi c = leb lo c && leb c hi

abbrev pub is_digit : ℕ → Bool
is_digit c = within 48 57 c

abbrev pub is_octal : ℕ → Bool
is_octal c = within 48 55 c

unfoldable pub c_isalnum : ℕ → Bool
c_isalnum c = within 65 90 c || (within 97 122 c || is_digit c)

abbrev pub is_xdigit : ℕ → Bool
is_xdigit c = is_digit c || (within 65 70 c || within 97 102 c)

-- `strchr (chars, c) != nullptr`: the NUL that ends `chars` is found too, and nothing behind it.
unfoldable pub strchr : Text → ℕ → Bool
strchr [] c = c == 0
strchr (x ∷ chars) c =
    let rest = strchr chars c in if x == c then true else if x == 0 then false else rest

-- All are bytes.
abbrev pub IsBytes : Text → Type 0
IsBytes [] = Unit
IsBytes (c ∷ s) = (c < 256) × IsBytes s

drop_nil : (n : ℕ) → drop {A = ℕ} n [] ≡ []
drop_nil zero = refl
drop_nil (suc n) = refl

pub drop-drop : (a b : ℕ) (s : Text) → drop a (drop b s) ≡ drop (b + a) s
drop-drop a zero s = let e : 0 + a ≡ a = omega arith in rw e refl
drop-drop a (suc b) [] = rw (drop_nil a, drop_nil (suc b + a)) refl
drop-drop a (suc b) (x ∷ s) =
    let e : suc b + a ≡ suc (b + a) = omega arith in rw (e, drop-drop a b s) refl
