-- ===== src/Strings/Canonify.antt =====
-- string_canonify and string_is_canonified (ase/strings.cc).
use anklang.Prelude.{
  ◌≡◌, refl, sym, ◌∙◌, inl, inr, Bool, true, false, [], ◌∷◌, ◌++◌, arith, if◌then◌else◌, Bool-cases,
}
use mathlib.Core.List.{append_assoc, append-nil}
use anklang.Strings.Chars.{Text, strchr}

-- The loop behind `rewrite_string`
unfoldable pub rewrite_string : Text → Text → Text → Text
rewrite_string [] valids substitute = []
rewrite_string (c ∷ p) valids substitute =
    let rest = rewrite_string p valids substitute in
    if strchr valids c then c ∷ rest else substitute ++ rest

-- The first loop, with the characters before `p`
unfoldable pub canonify_from : Text → Text → Text → Text → Text
canonify_from before [] valids substitute = before
canonify_from before (c ∷ p) valids substitute =
    let rest = canonify_from (before ++ c ∷ []) p valids substitute in
    if strchr valids c then rest else before ++ substitute ++ rewrite_string p valids substitute

unfoldable pub string_canonify : Text → Text → Text → Text
string_canonify string valid_chars substitute = canonify_from [] string valid_chars substitute

unfoldable pub string_is_canonified : Text → Text → Bool
string_is_canonified [] valid_chars = true
string_is_canonified (c ∷ p) valid_chars =
    let rest = string_is_canonified p valid_chars in if strchr valid_chars c then rest else false

canonify_from_lem :
    (before p valids substitute : Text)
    → canonify_from before p valids substitute ≡ before ++ rewrite_string p valids substitute
unfolding canonify_from rewrite_string
canonify_from_lem before [] valids substitute = sym (append-nil before)
canonify_from_lem before (c ∷ p) valids substitute = elim (Bool-cases (strchr valids c)) [
  | inl q ↦ rw q (
      canonify_from_lem (before ++ c ∷ []) p valids substitute
      ∙ append_assoc before (c ∷ []) (rewrite_string p valids substitute))
  | inr q ↦ rw q (append_assoc before substitute (rewrite_string p valids substitute))
]

string_is_canonified-append :
    (s t valids : Text)
    → string_is_canonified t valids ≡ true
    → string_is_canonified s valids ≡ true
    → string_is_canonified (s ++ t) valids ≡ true
unfolding string_is_canonified
string_is_canonified-append [] t valids h k = h
string_is_canonified-append (c ∷ s) t valids h k =
    ground (arith, string_is_canonified-append s t valids h)

rewrite_string-canonical :
    (p valids substitute : Text)
    → string_is_canonified substitute valids ≡ true
    → string_is_canonified (rewrite_string p valids substitute) valids ≡ true
unfolding rewrite_string string_is_canonified
rewrite_string-canonical [] valids substitute h = refl
rewrite_string-canonical (c ∷ p) valids substitute h =
    let rest = rewrite_string-canonical p valids substitute h in
    elim (Bool-cases (strchr valids c)) [
      | inl q ↦ rw (q, q) rest
      | inr q ↦ rw q (string_is_canonified-append substitute _ valids rest h)
    ]

rewrite_string-same :
    (p valids substitute : Text)
    → string_is_canonified p valids ≡ true
    → rewrite_string p valids substitute ≡ p
unfolding rewrite_string string_is_canonified
rewrite_string-same [] valids substitute h = refl
rewrite_string-same (c ∷ p) valids substitute h =
    ground (arith, rewrite_string-same p valids substitute)

pub string_canonify-string_canonify :
    (string valid_chars substitute : Text)
    → string_is_canonified substitute valid_chars ≡ true
    → let canon = string_canonify string valid_chars substitute in
      (string_is_canonified canon valid_chars ≡ true)
      × (string_canonify canon valid_chars substitute ≡ canon)
unfolding string_canonify
string_canonify-string_canonify string valids substitute h =
    let once : string_canonify string valids substitute ≡ rewrite_string string valids substitute =
      canonify_from_lem [] string valids substitute in
    let canonical = rewrite_string-canonical string valids substitute h in
    (
      rw once canonical,
      rw once (
          canonify_from_lem [] _ valids substitute
          ∙ rewrite_string-same _ valids substitute canonical),
    )
