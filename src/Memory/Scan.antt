-- ===== src/Memory/Scan.antt =====
-- The search of release_ext (ase/memory.cc) for the free neighbours of a block.
use mathlib.Core.List.{append_assoc}
use anklang.Prelude.{
  ℕ, ◌+◌, ◌≤◌, ◌<◌, ◌≡◌, ◌^◌, refl, Bool, inl, inr, List, [], ◌∷◌, ◌++◌, Option, none, some, arith,
  length, length-append, ltb, Bool-cases,
}
use anklang.Memory.Extents.{Extent32, extent_at, Scan, probe, scan}
use anklang.Memory.Bytes.{inside, count_at, All}

-- A block of at least a byte inside the blob.
abbrev pub Fits : ℕ → Extent32 → Type 0
Fits size e = (0 < e.length) × (e.start + e.length ≤ size)

abbrev pub EndsAt : List Extent32 → ℕ → Option ℕ → Type 0
EndsAt es p none = Unit
EndsAt es p (some i) = (i < length es) × ((extent_at es i).start + (extent_at es i).length ≡ p)

abbrev pub StartsAt : List Extent32 → ℕ → Option ℕ → Type 0
StartsAt es p none = Unit
StartsAt es p (some i) = (i < length es) × ((extent_at es i).start ≡ p)

-- What a scan has found are neighbours.
pub record Found (es : List Extent32) (ext : Extent32) (s : Scan) : Type 0 where
  pub after_ends : EndsAt es ext.start s.after
  pub before_starts : StartsAt es (ext.start + ext.length) s.before

pub extent_at-middle :
    (pre : List Extent32) (e : Extent32) (es : List Extent32)
    → extent_at (pre ++ e ∷ es) (length pre) ≡ e
extent_at-middle [] e es = refl
extent_at-middle (f ∷ pre) e es = extent_at-middle pre e es

pub inside_bounds : (x : ℕ) (e : Extent32) → e.start ≤ x → x < e.start + e.length → inside x e ≡ 1
inside_bounds x e h k = ground arith

-- Two blocks with no byte in common do not pass the overlap test.
apart_no_overlap :
    (size : ℕ) (e ext : Extent32)
    → size < 2 ^ 32
    → Fits size e
    → Fits size ext
    → ((x : ℕ) → inside x e + inside x ext ≤ 1)
    → (e.start < ext.start + ext.length → ext.start < e.start + e.length → ⊥)
apart_no_overlap size e ext b f g d h k = elim (Bool-cases (ltb e.start ext.start)) [
  | inl lt ↦ omega (
    arith,
    d ext.start,
    inside_bounds ext.start e (ground arith) k,
    inside_bounds ext.start ext (omega arith) (omega arith),
  )
  | inr ge ↦ omega (
    arith,
    d e.start,
    inside_bounds e.start e (omega arith) (omega arith),
    inside_bounds e.start ext (ground arith) h,
  )
]

module _ (check : Bool) (size : ℕ) (ext : Extent32) (bounded : size < 2 ^ 32)
    (g : Fits size ext) where
  probe-Found :
      (es : List Extent32) (i : ℕ) (e : Extent32) (s : Scan)
      → i < length es
      → extent_at es i ≡ e
      → Fits size e
      → Found es ext s
      → Found es ext (probe check ext i e s).0
  unfolding probe
  probe-Found es i e s h q f v = ground arith

  scan-Found-from :
      (pre rest : List Extent32) (s : Scan)
      → All (Fits size) rest
      → Found (pre ++ rest) ext s
      → Found (pre ++ rest) ext (scan check ext (length pre) rest s)
  unfolding scan
  scan-Found-from pre [] s a v = v
  scan-Found-from pre (e ∷ rest) s a v =
      let here =
        probe-Found (pre ++ e ∷ rest) (length pre) e s (omega (arith, length-append pre (e ∷ rest)))
          (extent_at-middle pre e rest) a.0 v in
      let later : Found (pre ++ e ∷ rest) ext
          (scan check ext (length pre + 1) rest (probe check ext (length pre) e s).0) =
        scan_later pre e rest (probe check ext (length pre) e s).0 (
          scan-Found-from (pre ++ e ∷ []) rest (probe check ext (length pre) e s).0 a.1
            (rw append_assoc here)) in
      elim (Bool-cases (probe check ext (length pre) e s).1) [
        | inl stop ↦ rw stop here
        | inr go ↦ rw go later
      ]
    where
      scan_later :
          (pre : List Extent32) (e : Extent32) (rest : List Extent32) (s : Scan)
          → Found ((pre ++ e ∷ []) ++ rest) ext (scan check ext (length (pre ++ e ∷ [])) rest s)
          → Found (pre ++ e ∷ rest) ext (scan check ext (length pre + 1) rest s)
      scan_later pre e rest s h =
          let n : length (pre ++ e ∷ []) ≡ length pre + 1 =
            omega (arith, length-append pre (e ∷ [])) in
          rw n at (rw append_assoc at h)

  probe-overlaps :
      (i : ℕ) (e : Extent32) (s : Scan)
      → Fits size e
      → ((x : ℕ) → inside x e + inside x ext ≤ 1)
      → (probe check ext i e s).0.overlaps_existing ≡ s.overlaps_existing
  unfolding probe
  probe-overlaps i e s f d = ground (arith, apart_no_overlap size e ext bounded f g d)

  -- A block with no free byte is not taken for an overlap.
  pub scan-overlaps :
      (i : ℕ) (es : List Extent32) (s : Scan)
      → All (Fits size) es
      → ((x : ℕ) → count_at x es + inside x ext ≤ 1)
      → (scan check ext i es s).overlaps_existing ≡ s.overlaps_existing
  unfolding scan
  scan-overlaps i [] s a d = refl
  scan-overlaps i (e ∷ es) s a d = ground (
    arith,
    probe-overlaps i e s a.0 (λ x. omega (arith, d x)),
    scan-overlaps (i + 1) es (probe check ext i e s).0 a.1 (λ x. omega (arith, d x)),
  )

  pub scan-Found :
      (es : List Extent32) (s : Scan)
      → All (Fits size) es
      → Found es ext s
      → Found es ext (scan check ext 0 es s)
  scan-Found es s a v = scan-Found-from [] es s a v
