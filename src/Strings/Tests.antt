-- ===== src/Strings/Tests.antt =====
-- Functions of ase/strings.cc at a few strings, written as their bytes.
use anklang.Prelude.{◌≡◌, refl, true, [], ◌∷◌, ◌++◌, arith}
use anklang.Strings.Chars.{Text, Texts, strchr, c_isalnum, IsBytes}
use anklang.Strings.Multiply.{multiply_from, string_multiply}
use anklang.Strings.Canonify.{canonify_from, rewrite_string, string_canonify}
use anklang.Strings.Split.{
  eq_text, pieces_from, split_with, string_whitesplit, string_split, string_split_any, string_join,
}
use anklang.Strings.Join.{string_join-string_split}
use anklang.Strings.Url.{
  url_encode_char, string_url_encode, string_url_decode, string_url_decode-string_url_encode,
}
use anklang.Strings.Quote.{cescape_char, string_to_cescape, string_to_cquote, string_from_cquote}
use anklang.Strings.QuoteRoundTrip.{string_from_cquote-string_to_cquote}
use anklang.Strings.Strip.{leading, end_from, string_strip}
use anklang.Strings.Match.{
  identifier_char_canon, identifier_match, match_identifier_detailed, string_match_identifier_tail,
  find_from, replace_from, string_replace,
}
use anklang.Strings.KvPairs.{equals_n, kvpairs_fetch, kvpairs_assign}
use anklang.Strings.KvPairLaws.{kvpairs_fetch-kvpairs_assign}
use anklang.Strings.Options.{
  is_separator, strcasestr, denies, allows, find_option_from, find_option, all_or_none,
  string_option_find_value, string_option_find,
}

-- "ab", three times
multiplied : string_multiply (97 ∷ 98 ∷ []) 3 ≡ 97 ∷ 98 ∷ 97 ∷ 98 ∷ 97 ∷ 98 ∷ []
unfolding string_multiply multiply_from
multiplied = refl

-- "a-b" with '_' for all but 'a' and 'b'
canonified : string_canonify (97 ∷ 45 ∷ 98 ∷ []) (97 ∷ 98 ∷ []) (95 ∷ []) ≡ 97 ∷ 95 ∷ 98 ∷ []
unfolding string_canonify canonify_from rewrite_string strchr
canonified = refl

-- "a, b, c" at any of ", ", one piece at most before the rest
split_any_once :
    string_split_any (97 ∷ 44 ∷ 32 ∷ 98 ∷ []) (44 ∷ 32 ∷ []) 1 ≡ (97 ∷ []) ∷ (32 ∷ 98 ∷ []) ∷ []
unfolding string_split_any split_with pieces_from eq_text strchr
split_any_once = refl

-- "aaa" at "aa": places of the splitter that overlap
split_overlapping : string_split (97 ∷ 97 ∷ 97 ∷ []) (97 ∷ 97 ∷ []) 9 ≡ [] ∷ [] ∷ []
unfolding string_split split_with pieces_from eq_text
split_overlapping = refl

-- " a  b" at whitespaces
whitesplit : string_split (32 ∷ 97 ∷ 32 ∷ 32 ∷ 98 ∷ []) [] 9 ≡ (97 ∷ []) ∷ (98 ∷ []) ∷ []
unfolding string_split string_whitesplit split_with pieces_from eq_text strchr
whitesplit = refl

-- "a,b,c" at ','
abbrev list_text : Text
list_text = 97 ∷ 44 ∷ 98 ∷ 44 ∷ 99 ∷ []

string_join-string_split_example :
    string_join (44 ∷ []) (string_split list_text (44 ∷ []) 9) ≡ list_text
string_join-string_split_example =
    string_join-string_split list_text (44 ∷ []) 9 (λ e. cc) (λ i j l s t. omega (arith, l))

-- "a b+%"
abbrev raw_text : Text
raw_text = 97 ∷ 32 ∷ 98 ∷ 43 ∷ 37 ∷ []

encoded : string_url_encode raw_text true ≡ 97 ∷ 43 ∷ 98 ∷ 37 ∷ 50 ∷ 66 ∷ 37 ∷ 50 ∷ 53 ∷ []
unfolding string_url_encode url_encode_char c_isalnum strchr
encoded = refl

raw-IsBytes : IsBytes raw_text
raw-IsBytes = (omega arith, (omega arith, (omega arith, (omega arith, (omega arith, tt)))))

string_url_decode-string_url_encode_example :
    string_url_decode (string_url_encode raw_text true) true ≡ raw_text
string_url_decode-string_url_encode_example =
    string_url_decode-string_url_encode raw_text true raw-IsBytes

-- A quote, a newline, the byte 200 and '7'
abbrev odd_text : Text
odd_text = 34 ∷ 10 ∷ 200 ∷ 55 ∷ []

quoted :
    string_to_cquote odd_text ≡ 34 ∷ (92 ∷ 34 ∷ 92 ∷ 110 ∷ 92 ∷ 51 ∷ 49 ∷ 48 ∷ 55 ∷ []) ++ 34 ∷ []
unfolding string_to_cquote string_to_cescape cescape_char
quoted = refl

string_from_cquote-string_to_cquote_example :
    string_from_cquote (string_to_cquote odd_text) ≡ odd_text
string_from_cquote-string_to_cquote_example =
    string_from_cquote-string_to_cquote odd_text
      (omega arith, (omega arith, (omega arith, (omega arith, tt))))

-- " a b " and "  "
stripped : string_strip (32 ∷ 97 ∷ 32 ∷ 98 ∷ 32 ∷ []) ≡ 97 ∷ 32 ∷ 98 ∷ []
unfolding string_strip leading end_from strchr
stripped = refl

all_stripped : string_strip (32 ∷ 32 ∷ []) ≡ []
unfolding string_strip leading end_from strchr
all_stripped = refl

-- "my-ID" and "id"
tail_matches : string_match_identifier_tail (109 ∷ 121 ∷ 45 ∷ 73 ∷ 68 ∷ []) (105 ∷ 100 ∷ []) ≡ true
unfolding string_match_identifier_tail match_identifier_detailed identifier_match
    identifier_char_canon c_isalnum
tail_matches = refl

-- "aXbX" with "--" for "X"
replaced :
    string_replace (97 ∷ 88 ∷ 98 ∷ 88 ∷ []) (88 ∷ []) (45 ∷ 45 ∷ []) 9
    ≡ 97 ∷ 45 ∷ 45 ∷ 98 ∷ 45 ∷ 45 ∷ []
unfolding string_replace replace_from find_from eq_text
replaced = refl

-- "key=1" and "x=2"
abbrev pairs : Texts
pairs = (107 ∷ 101 ∷ 121 ∷ 61 ∷ 49 ∷ []) ∷ (120 ∷ 61 ∷ 50 ∷ []) ∷ []

-- "key=new"
kvpairs_fetch-kvpairs_assign_example :
    kvpairs_fetch
      (kvpairs_assign pairs (107 ∷ 101 ∷ 121 ∷ 61 ∷ 110 ∷ 101 ∷ 119 ∷ []) true).0
      (107 ∷ 101 ∷ 121 ∷ [])
      true
    ≡ 110 ∷ 101 ∷ 119 ∷ []
kvpairs_fetch-kvpairs_assign_example =
    kvpairs_fetch-kvpairs_assign true pairs (107 ∷ 101 ∷ 121 ∷ []) (110 ∷ 101 ∷ 119 ∷ []) (λ e. cc)
      (refl, (refl, (refl, (refl, (refl, (refl, tt)))))) (λ e. cc) (refl, (refl, (refl, tt)))

-- "all:no-b": "b" is found allowed, "no-b" does not deny it.
not_denied :
    string_option_find (97 ∷ 108 ∷ 108 ∷ 58 ∷ 110 ∷ 111 ∷ 45 ∷ 98 ∷ []) (98 ∷ []) [] ≡ 49 ∷ []
unfolding string_option_find string_option_find_value all_or_none find_option find_option_from
    strcasestr allows denies is_separator equals_n
not_denied = refl
