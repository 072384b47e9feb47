-- ===== src/Ini/Paths.antt =====
-- The paths of entries, and the lines of a section, in ase/inifile.cc.
use anklang.Prelude.{
  ℕ, suc, ◌+◌, ◌≡◌, refl, ap, ◌≢◌, Bool, true, false, not, ◌&&◌, none, some, [], ◌∷◌, ◌++◌, arith,
  ltb, ◌==◌, length, get_or, take, drop, length-append,
}
use anklang.Strings.Chars.{Text, strchr}
use anklang.Strings.Split.{eq_text}
use anklang.Ini.File.{
  split_dotpath, section_path, attribute, assign_line, push_line, line_value, find_line,
  section_lines, has_raw_value, value_as_string, cook_string,
}
use anklang.Ini.Writer.{split_at, section_name}
use anklang.Ini.Values.{Every, is_solid}
use anklang.Ini.Entries.{key_ends}

-- A character of section names and keys: also no dot
abbrev pub is_name : ℕ → Bool
is_name c = is_solid key_ends c && not (c == 46)

pub name-solid : (s : Text) → Every is_name s → Every (is_solid key_ends) s
name-solid [] h = tt
name-solid (c ∷ s) (h, hs) = (ground (arith, h), name-solid s hs)

no_dot : (key : Text) → Every is_name key → split_dotpath key ≡ none
unfolding split_dotpath
no_dot [] h = refl
no_dot (c ∷ key) (h, hs) =
    let e : (c == 46) ≡ false = ground (arith, h) in rw (no_dot key hs, split_dotpath, e) refl

pub split_dotpath-name :
    (name key : Text) → Every is_name key → split_dotpath (name ++ 46 ∷ key) ≡ some (name, key)
unfolding split_dotpath
split_dotpath-name [] key h = rw (no_dot key h, split_dotpath) refl
split_dotpath-name (c ∷ name) key h = rw (split_dotpath-name name key h, split_dotpath) refl

-- A name does not have the characters that are told apart in it.
abbrev apart : ℕ → ℕ → Bool
apart d c = not (c == d) && not (c == 0)

strchr-apart : (d : ℕ) (s : Text) → d ≢ 0 → Every (apart d) s → strchr s d ≡ false
unfolding strchr
strchr-apart d [] n h = ground (arith, n)
strchr-apart d (c ∷ s) n (h, hs) =
    let e : (c == d) ≡ false = ground (arith, h) in
    let f : (c == 0) ≡ false = ground (arith, h) in rw (e, f) (strchr-apart d s n hs)

split_at-apart : (d : ℕ) (s : Text) → Every (apart d) s → split_at d s ≡ none
unfolding split_at
split_at-apart d [] h = refl
split_at-apart d (c ∷ s) (h, hs) =
    let e : (c == d) ≡ false = ground (arith, h) in
    rw (split_at, e, split_at-apart d s hs, split_at) refl

pub split_at-first :
    (d : ℕ) (s t : Text) → Every (apart d) s → split_at d (s ++ d ∷ t) ≡ some (s, t)
unfolding split_at
split_at-first d [] t h = let e : (d == d) ≡ true = ground arith in rw (split_at, e) refl
split_at-first d (c ∷ s) t (h, hs) =
    let e : (c == d) ≡ false = ground (arith, h) in
    rw (split_at, e, split_at-first d s t hs, split_at) refl

pub name-apart_dot : (s : Text) → Every is_name s → Every (apart 46) s
unfolding strchr
name-apart_dot [] h = tt
name-apart_dot (c ∷ s) (h, hs) = (ground (arith, h), name-apart_dot s hs)

pub name-apart_equals : (s : Text) → Every is_name s → Every (apart 61) s
unfolding strchr
name-apart_equals [] h = tt
name-apart_equals (c ∷ s) (h, hs) = (ground (arith, h), name-apart_equals s hs)

pub name-apart_quote : (s : Text) → Every is_name s → Every (apart 34) s
unfolding strchr
name-apart_quote [] h = tt
name-apart_quote (c ∷ s) (h, hs) = (ground (arith, h), name-apart_quote s hs)

pub section_path-name : (s : Text) → Every is_name s → section_path s ≡ s
unfolding section_path
section_path-name s h = rw (strchr-apart 34 s (ground arith) (name-apart_quote s h)) refl

pub section_name-name : (s : Text) → Every is_name s → section_name s ≡ s
unfolding section_name
section_name-name s h = rw (split_at-apart 46 s (name-apart_dot s h), section_name) refl

pub eq_text_self : (s : Text) → eq_text s s ≡ true
unfolding eq_text
eq_text_self [] = refl
eq_text_self (c ∷ s) = let e : (c == c) ≡ true = ground arith in rw e (eq_text_self s)

take_whole : (s t : Text) → take (length s) (s ++ t) ≡ s
take_whole [] t = refl
take_whole (c ∷ s) t = ap (λ (r : Text). c ∷ r) (take_whole s t)

get_or-middle : (s : Text) (c : ℕ) (t : Text) → get_or (s ++ c ∷ t) (length s) 0 ≡ c
get_or-middle [] c t = refl
get_or-middle (x ∷ s) c t = get_or-middle s c t

drop_whole : (s : Text) (c : ℕ) (t : Text) → drop (length s + 1) (s ++ c ∷ t) ≡ t
drop_whole [] c t = refl
drop_whole (x ∷ s) c t =
    let e : suc (length s) + 1 ≡ suc (length s + 1) = omega arith in rw e (drop_whole s c t)

pub line_value-key : (key v : Text) → line_value key (key ++ 61 ∷ v) ≡ some v
line_value-key key v =
    let longer : ltb (length key) (length (key ++ 61 ∷ v)) ≡ true =
      ground (arith, length-append key (61 ∷ v)) in
    rw
      (
        longer,
        get_or-middle key 61 v,
        take_whole key (61 ∷ v),
        eq_text_self key,
        drop_whole key 61 v,
      )
      refl

pub assign_line-first :
    (name key v : Text)
    → Every is_name name
    → Every is_name key
    → assign_line [] name (record { key = key; locale = []; value = v })
      ≡ (name, (key ++ 61 ∷ v) ∷ []) ∷ []
unfolding assign_line attribute push_line
assign_line-first name key v n k =
    rw
      (
        strchr-apart 61 name (ground arith) (name-apart_equals name n),
        strchr-apart 46 key (ground arith) (name-apart_dot key k),
      )
      refl

pub value_as_string-first :
    (name key v : Text)
    → Every is_name key
    → value_as_string ((name, (key ++ 61 ∷ v) ∷ []) ∷ []) (name ++ 46 ∷ key) ≡ cook_string v
unfolding value_as_string has_raw_value section_lines find_line
value_as_string-first name key v h =
    rw (split_dotpath-name name key h, eq_text_self name, line_value-key key v, value_as_string)
      refl
