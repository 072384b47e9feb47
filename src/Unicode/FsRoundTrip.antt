-- ===== src/Unicode/FsRoundTrip.antt =====
-- encodefs and decodefs (ase/unicode.cc): file names of any bytes survive.
use anklang.Prelude.{
  ℕ, zero, suc, ◌+◌, ◌-◌, ◌/◌, ◌%◌, ◌≤◌, ◌<◌, ◌≡◌, refl, ap, ◌∙◌, true, false, arith, ◌==◌,
  if◌then◌else◌, List, [], ◌∷◌, ◌++◌, length, take, drop, inl, inr, length-append,
}
use anklang.Prelude.Words.{u8}
use anklang.Unicode.Char.{Bytes, byte_at, Char, utf8character}
use anklang.Unicode.Codec.{encode_one}
use anklang.Unicode.Fs.{walk, encodefs, decodefs, escaped_byte}
use anklang.Unicode.CharLaws.{IsByte, IsText}
use anklang.Unicode.EncodeDecode.{encoded_read, encode_3, drop-length}
use anklang.Unicode.Shape.{private_use, Plain, head-Shape}

module _ {ℓ} {A : Type ℓ} where
  take_again : (n : ℕ) (s x : List A) → n ≤ length s → take n (take n s ++ x) ≡ take n s
  take_again zero s x h = refl
  take_again (suc n) [] x h = absurd (omega arith)
  take_again (suc n) (c ∷ s) x h = ap (◌∷◌ c) (take_again n s x (omega arith))

  drop_again : (n : ℕ) (s x : List A) → n ≤ length s → drop n (take n s ++ x) ≡ x
  drop_again zero s x h = refl
  drop_again (suc n) [] x h = absurd (omega arith)
  drop_again (suc n) (c ∷ s) x h = drop_again n s x (omega arith)

IsText-drop : (n : ℕ) (s : Bytes) → IsText s → IsText (drop n s)
IsText-drop zero s t = t
IsText-drop (suc n) [] t = t
IsText-drop (suc n) (c ∷ s) t = IsText-drop n s t.1

length-take_fits : (n : ℕ) (s : Bytes) → n ≤ length s → length (take n s) ≡ n
length-take_fits zero s h = refl
length-take_fits (suc n) [] h = absurd (omega arith)
length-take_fits (suc n) (c ∷ s) h = ap suc (length-take_fits n s (omega arith))

length-drop_rest : (n : ℕ) (s : Bytes) → length (drop n s) ≡ length s - n
length-drop_rest zero s = omega arith
length-drop_rest (suc n) [] = omega arith
length-drop_rest (suc n) (c ∷ s) = omega (arith, length-drop_rest n s)

take-append-drop : (n : ℕ) (s : Bytes) → take n s ++ drop n s ≡ s
take-append-drop zero s = refl
take-append-drop (suc n) [] = refl
take-append-drop (suc n) (c ∷ s) = ap (◌∷◌ c) (take-append-drop n s)

-- One round of the loop at a character that is not NUL.
pub walk-step :
    (escape : ℕ → Bytes) (cp f : ℕ) (s : Bytes) (c : Char)
    → (byte_at s 0 == 0) ≡ false
    → utf8character cp s ≡ c
    → walk escape cp (suc f) s
      ≡ (if private_use c.unicode then escape c.unicode else take c.width s)
        ++ walk escape cp f (drop c.width s)
unfolding walk
walk-step escape cp f s c h e = rw (h, e)

-- An escaped byte is written in three bytes, which are read back as one private code point.
escape_bytes :
    (c : ℕ)
    → 0x80 ≤ c
    → c < 256
    → encode_one (0xef00 + c) ≡ 0xEE ∷ (0x80 + (0xef00 + c) / 64 % 64) ∷ (0x80 + c % 64) ∷ []
escape_bytes c h k =
    encode_3 (0xef00 + c) (omega arith) (omega arith) ∙ ap₃ (omega arith) (omega arith)
  where
    ap₃ :
        0xE0 + (0xef00 + c) / 4096 ≡ 0xEE
        → (0xef00 + c) % 64 ≡ c % 64
        → (0xE0 + (0xef00 + c) / 4096)
            ∷ (0x80 + (0xef00 + c) / 64 % 64)
            ∷ (0x80 + (0xef00 + c) % 64)
            ∷ []
          ≡ 0xEE ∷ (0x80 + (0xef00 + c) / 64 % 64) ∷ (0x80 + c % 64) ∷ []
    ap₃ p q = rw (p, q)

abbrev Decodes : ℕ → ℕ → Bytes → Type 0
Decodes f g s = walk escaped_byte 1 g (walk encode_one 3 f s) ≡ s

module _ (f : ℕ) (c : ℕ) (t : Bytes) (b : IsByte c) where
  -- What encodefs writes for an escaped byte, and what decodefs makes of it.
  escaped-Decodes :
      (g : ℕ)
      → 0x80 ≤ c
      → utf8character 3 (c ∷ t) ≡ record { width = 1; unicode = 0xef00 + c }
      → Decodes f g t
      → Decodes (suc f) (suc g) (c ∷ t)
  escaped-Decodes g h e ih =
      let x = walk encode_one 3 f t in
      let p : private_use (0xef00 + c) ≡ true = ground arith in
      let written : walk encode_one 3 (suc f) (c ∷ t) ≡ encode_one (0xef00 + c) ++ x =
        walk-step encode_one 3 f (c ∷ t) _ (ground arith) e ∙ rw p refl in
      let u = escape_bytes c h b.1 in
      let nz : (byte_at (encode_one (0xef00 + c) ++ x) 0 == 0) ≡ false = rw u refl in
      let len : length (encode_one (0xef00 + c)) ≡ 3 = rw u refl in
      let read = encoded_read (0xef00 + c) x (omega arith) in
      let skip : drop (length (encode_one (0xef00 + c))) (encode_one (0xef00 + c) ++ x) ≡ x =
        drop-length (encode_one (0xef00 + c)) x in
      let back : u8 (0xef00 + c - (0xef80 - 0x80)) ≡ c = omega arith in
      ap (walk escaped_byte 1 (suc g)) written
      ∙ walk-step escaped_byte 1 g _ _ nz read
      ∙ rw (p, skip, back) (ap (◌∷◌ c) ih)

  -- A character that is copied.
  Plain-Decodes :
      (g : ℕ) (r : Char)
      → Plain (c ∷ t) r
      → utf8character 3 (c ∷ t) ≡ r
      → Decodes f g (drop r.width (c ∷ t))
      → Decodes (suc f) (suc g) (c ∷ t)
  Plain-Decodes g r pl e ih =
      let s = c ∷ t in
      let x = walk encode_one 3 f (drop r.width s) in
      let written : walk encode_one 3 (suc f) s ≡ take r.width s ++ x =
        walk-step encode_one 3 f s r (ground arith) e ∙ rw pl.not_private refl in
      ap (walk escaped_byte 1 (suc g)) written
      ∙ walk-step escaped_byte 1 g _ r (first_byte r.width pl.wide x) (pl.again x)
      ∙ rw (pl.not_private, take_again r.width s x pl.fits, drop_again r.width s x pl.fits, ih)
          (take-append-drop r.width s)
    where
      first_byte : (w : ℕ) → 0 < w → (x : Bytes) → (byte_at (take w (c ∷ t) ++ x) 0 == 0) ≡ false
      first_byte zero h x = absurd (omega arith)
      first_byte (suc w) h x = ground arith

-- With fuel for the bytes of the name, decodefs takes back what encodefs wrote.
walk-Decodes : (f g : ℕ) (s : Bytes) → IsText s → length s ≤ f → length s ≤ g → Decodes f g s
walk-Decodes zero zero [] t h k = unfold walk in refl
walk-Decodes zero (suc g) [] t h k = unfold walk in refl
walk-Decodes (suc f) zero [] t h k = unfold walk in refl
walk-Decodes (suc f) (suc g) [] t h k = unfold walk in refl
walk-Decodes zero g (c ∷ s) t h k = absurd (omega arith)
walk-Decodes (suc f) zero (c ∷ s) t h k = absurd (omega arith)
walk-Decodes (suc f) (suc g) (c ∷ s) t h k = elim (head-Shape c s t.0 t.1) [
  | inl (high, e) ↦
      escaped-Decodes f c s t.0 g high e (walk-Decodes f g s t.1 (omega arith) (omega arith))
  | inr pl ↦
      let r = utf8character 3 (c ∷ s) in
      let n = length-drop_rest r.width (c ∷ s) in
      Plain-Decodes f c s t.0 g r pl refl (
        walk-Decodes f g (drop r.width (c ∷ s)) (IsText-drop r.width (c ∷ s) t)
          (omega (arith, pl.wide)) (omega (arith, pl.wide)))
]

-- encodefs writes no fewer bytes than it reads.
length-le-walk :
    (f : ℕ) (s : Bytes) → IsText s → length s ≤ f → length s ≤ length (walk encode_one 3 f s)
length-le-walk f [] t h = omega arith
length-le-walk zero (c ∷ s) t h = absurd (omega arith)
length-le-walk (suc f) (c ∷ s) t h = elim (head-Shape c s t.0 t.1) [
  | inl (high, e) ↦
      let p : private_use (0xef00 + c) ≡ true = let b = t.0 in ground arith in
      let u = escape_bytes c high t.0.1 in
      rw (walk-step encode_one 3 f (c ∷ s) _ (let b = t.0 in ground arith) e, p, u)
        (omega (arith, length-le-walk f s t.1 (omega arith)))
  | inr pl ↦
      let r = utf8character 3 (c ∷ s) in
      let n = length-drop_rest r.width (c ∷ s) in
      let x = walk encode_one 3 f (drop r.width (c ∷ s)) in
      rw (walk-step encode_one 3 f (c ∷ s) r (let b = t.0 in ground arith) refl, pl.not_private)
        (omega (
          arith,
          length-append (take r.width (c ∷ s)) x,
          length-take_fits r.width (c ∷ s) pl.fits,
          length-le-walk f (drop r.width (c ∷ s)) (IsText-drop r.width (c ∷ s) t)
              (omega (arith, pl.wide)),
        ))
]

-- Any file name without NUL bytes, valid UTF-8 or not, comes back from its encoding: decodefs
-- undoes encodefs.
pub decodefs-encodefs : (s : Bytes) → IsText s → decodefs (encodefs s) ≡ s
unfolding decodefs encodefs
decodefs-encodefs s t =
    walk-Decodes (length s) (length (walk encode_one 3 (length s) s)) s t (omega arith)
      (length-le-walk (length s) s t (omega arith))
