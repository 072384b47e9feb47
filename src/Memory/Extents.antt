-- ===== src/Memory/Extents.antt =====
-- ase/memory.cc: Extent32, MEM_ALIGN and SequentialFitAllocator. The blob is its size and its bytes by
-- offset; the index -1 of the source is `none`. `check` is CHECK_FREE_OVERLAPS, which the build sets.
use anklang.Prelude.{
  ℕ, zero, suc, ◌+◌, ◌-◌, ◌*◌, ◌/◌, Bool, true, false, not, ◌&&◌, ◌||◌, List, [], ◌∷◌, ◌++◌, Option,
  none, some, length, get_or, set, take, erase_at, ltb, leb, ◌==◌, if◌then◌else◌,
}
use anklang.Prelude.Words.{u32, u64}

pub record Extent32 : Type 0 where
  pub start : ℕ
  pub length : ℕ

abbrev pub no_extent : Extent32
no_extent = record { start = 0; length = 0 }

pub record SequentialFitAllocator : Type 0 where
  pub size : ℕ
  pub bytes : ℕ → ℕ
  pub extents : List Extent32
  pub mem_alignment : ℕ

-- extents[i]; every index that the code uses is in range.
abbrev pub extent_at : List Extent32 → ℕ → Extent32
extent_at es i = get_or es i no_extent

-- MEM_ALIGN, in size_t
unfoldable pub mem_align : ℕ → ℕ → ℕ
mem_align addr alignment = u64 (alignment * (u64 (addr + alignment - 1) / alignment))

-- start <= x < start + length
abbrev pub holds : Extent32 → ℕ → Bool
holds e x = leb e.start x && ltb x (e.start + e.length)

-- Extent32::zero
unfoldable pub zero_extent : Extent32 → (ℕ → ℕ) → ℕ → ℕ
zero_extent e bytes x = if holds e x then 0 else bytes x

-- SequentialFitAllocator::sum, in size_t
unfoldable pub sum : List Extent32 → ℕ
sum [] = 0
sum (e ∷ es) = e.length + sum es

pub record Scan : Type 0 where
  pub overlaps_existing : Option ℕ
  pub before : Option ℕ
  pub after : Option ℕ

abbrev pub start_scan : Scan
start_scan = record { overlaps_existing = none; before = none; after = none }

abbrev pub is_some : Option ℕ → Bool
is_some none = false
is_some (some i) = true

-- One round of the loop of release_ext on extents[i]; `true` is its `break`.
unfoldable pub probe : Bool → Extent32 → ℕ → Extent32 → Scan → Scan × Bool
probe check ext i e s =
    if ext.start == u32 (e.start + e.length)
    then (record s { after = some i }, is_some s.before)
    else if u32 (ext.start + ext.length) == e.start
    then (record s { before = some i }, is_some s.after)
    else if check
        && ltb e.start (u32 (ext.start + ext.length))
        && ltb ext.start (u32 (e.start + e.length))
    then (record s { overlaps_existing = some i }, false)
    else (s, false)

unfoldable pub scan : Bool → Extent32 → ℕ → List Extent32 → Scan → Scan
scan check ext i [] s = s
scan check ext i (e ∷ es) s =
    let (s', stop) = probe check ext i e s in
    let rest = scan check ext (i + 1) es s' in if stop then s' else rest

abbrev pub grow : Extent32 → ℕ → Extent32
grow e n = record e { length = u32 (e.length + n) }

-- "merge with existing extents"
unfoldable pub merge : Option ℕ → Option ℕ → Extent32 → List Extent32 → List Extent32
merge (some a) none ext es = set es a (grow (extent_at es a) ext.length)
merge (some a) (some b) ext es =
    let grown = set es a (grow (extent_at es a) ext.length) in
    erase_at (set grown a (grow (extent_at grown a) (extent_at grown b).length)) b
merge none (some b) ext es =
    set es b (record { start = ext.start; length = u32 ((extent_at es b).length + ext.length) })
merge none none ext es = es ++ ext ∷ []

-- The state after `assert_return (overlaps_existing == -1)`
unfoldable pub settle : SequentialFitAllocator → Extent32 → Scan → SequentialFitAllocator
settle fma ext s = elim s.overlaps_existing [
  | some i ↦ fma
  | none ↦ record fma { extents = merge s.after s.before ext fma.extents }
]

unfoldable pub release_ext : Bool → SequentialFitAllocator → Extent32 → SequentialFitAllocator
release_ext check fma ext =
    if not (ltb 0 ext.length)
    then fma
    else if not (leb (u32 (ext.start + ext.length)) fma.size)
    then fma
    else settle (record fma { bytes = zero_extent ext fma.bytes }) ext
        (scan check ext 0 fma.extents start_scan)

-- The candidate after looking at extents[i], which is longer than asked for.
unfoldable pub choose : List Extent32 → ℕ → Option ℕ → Option ℕ
choose es i none = some i
choose es i (some c) =
    if ltb (extent_at es i).length (extent_at es c).length
      || ((extent_at es i).length == (extent_at es c).length
          && ltb (extent_at es i).start (extent_at es c).start)
    then some i
    else some c

-- The loop of best_fit with `i` extents left to look at, the last of them first.
unfoldable pub best_fit_from : List Extent32 → ℕ → ℕ → Option ℕ → Option ℕ
best_fit_from es n zero candidate = candidate
best_fit_from es n (suc i) candidate =
    let next =
      best_fit_from es n i
        (if ltb (extent_at es i).length n then candidate else choose es i candidate) in
    if ltb (extent_at es i).length n
    then next
    else if n == (extent_at es i).length
    then some i
    else next

unfoldable pub best_fit : List Extent32 → ℕ → Option ℕ
best_fit es n = best_fit_from es n (length es) none

-- "allocate from start of larger block", or unlist a block of just that length
unfoldable pub carve : List Extent32 → ℕ → ℕ → List Extent32
carve es i n =
    let e = extent_at es i in
    if ltb n e.length
    then set es i (record { start = u32 (e.start + n); length = e.length - n })
    else take (length es - 1) (set es i (extent_at es (length es - 1)))

-- The part of alloc_ext behind `find block`, for an aligned length.
unfoldable pub take_block :
    SequentialFitAllocator → Extent32 → ℕ → SequentialFitAllocator × Extent32 × Bool
take_block fma ext n = elim (best_fit fma.extents n) [
  | none ↦ (fma, ext, false)
  | some i ↦ (
    record fma { extents = carve fma.extents i n },
    record { start = (extent_at fma.extents i).start; length = n },
    true,
  )
]

-- alloc_ext; the second part of the result is `ext`, which is passed by reference.
unfoldable pub alloc_ext :
    SequentialFitAllocator → Extent32 → SequentialFitAllocator × Extent32 × Bool
alloc_ext fma ext =
    if not (ext.start == 0)
    then (fma, ext, false)
    else if not (ltb 0 ext.length)
    then (fma, ext, false)
    else take_block fma ext (u32 (mem_align ext.length fma.mem_alignment))
