-- ===== src/Memory/Alloc.antt =====
-- alloc_ext (ase/memory.cc) against the set of free bytes.
use anklang.Prelude.{
  ℕ, ◌+◌, ◌-◌, ◌*◌, ◌/◌, ◌%◌, ◌≤◌, ◌<◌, ◌≡◌, ◌^◌, refl, Bool, true, false, inl, inr, List, none,
  some, arith, length, length-set, set, ltb, Bool-cases, Option-cases, ap, ◌∙◌, ℕ_discrete,
}
use native.Mathlib.Nat.{div-add-mod, mul-mod_right}
use anklang.Prelude.Words.{u32, u64}
use anklang.Memory.Extents.{
  Extent32, SequentialFitAllocator, extent_at, mem_align, best_fit, carve, take_block, alloc_ext,
}
use anklang.Memory.Bytes.{
  inside, count_at, count_at-set, count_at-take, extent_at-set_self, extent_at-set_ne, All, All-at,
  All-set, All-take,
}
use anklang.Memory.Scan.{Fits}
use anklang.Memory.Fit.{IsBest, best_fit-IsBest}
use anklang.Memory.Release.{IsValid}

-- The block that is taken from extents[i].
abbrev pub block_of : List Extent32 → ℕ → ℕ → Extent32
block_of es i n = record { start = (extent_at es i).start; length = n }

module _ (size : ℕ) (bounded : size < 2 ^ 32) (es : List Extent32) (a : All (Fits size) es)
    (i n : ℕ) (h : i < length es) (pos : 0 < n) (m : n ≤ (extent_at es i).length) where
  carve-Fits : All (Fits size) (carve es i n)
  unfolding carve
  carve-Fits = elim (Bool-cases (ltb n (extent_at es i).length)) [
    | inl larger ↦
        rw larger
          (let f = All-at (Fits size) es i a h in All-set (Fits size) es i _ a (ground arith))
    | inr same ↦ rw same (
        All-take (Fits size) (length es - 1) _
          (All-set (Fits size) es i _ a (All-at (Fits size) es (length es - 1) a (omega arith))))
  ]

  -- What is left and the block are what was there.
  count_at-carve : (x : ℕ) → count_at x (carve es i n) + inside x (block_of es i n) ≡ count_at x es
  unfolding carve
  count_at-carve x =
      let e = extent_at es i in
      let f = All-at (Fits size) es i a h in
      let last = extent_at es (length es - 1) in
      elim (Bool-cases (ltb n e.length)) [
        | inl larger ↦ rw larger (
            let rest : Extent32 = record { start = u32 (e.start + n); length = e.length - n } in
            let split : inside x e ≡ inside x rest + inside x (block_of es i n) = ground arith in
            omega (arith, count_at-set x es i rest h, split))
        | inr same ↦ rw same (
            let whole : inside x e ≡ inside x (block_of es i n) = ground arith in
            let swapped = set es i last in
            let at_end : extent_at swapped (length es - 1) ≡ last =
              elim (ℕ_discrete i (length es - 1)) [
                | yes q ↦ rw (← q) (extent_at-set_self es i _ h)
                | no q ↦ extent_at-set_ne es i (length es - 1) last q
              ] in
            omega (
              arith,
              count_at-take x swapped (length es - 1) (length-set es i last ∙ omega arith),
              ap (inside x) at_end,
              count_at-set x es i last h,
              whole,
            ))
      ]

-- MEM_ALIGN rounds up to a multiple of the alignment, and to the next one.
pub mem_align_bounds :
    (n a : ℕ)
    → 0 < a
    → n + a ≤ 2 ^ 32
    → (n ≤ mem_align n a) × (mem_align n a < n + a) × (mem_align n a % a ≡ 0)
unfolding mem_align
mem_align_bounds n a h b =
    let sum_small : u64 (n + a - 1) ≡ n + a - 1 = omega arith in
    let q = (n + a - 1) / a in
    let e : a * q + (n + a - 1) % a ≡ n + a - 1 = div-add-mod (n + a - 1) a in
    let r : (n + a - 1) % a < a = omega arith in
    let small : u64 (a * q) ≡ a * q = omega arith in
    rw (sum_small, small) (omega arith, omega arith, mul-mod_right a q)

-- A successful allocation of `n` bytes: the block is the start of a free extent.
pub record Allocated (fma : SequentialFitAllocator) (n : ℕ) (fma' : SequentialFitAllocator)
    (ext : Extent32) : Type 0 where
  pub length_is : ext.length ≡ mem_align n fma.mem_alignment
  pub start_of : (j : ℕ) × (j < length fma.extents) × (ext.start ≡ (extent_at fma.extents j).start)
  pub in_blob : Fits fma.size ext
  pub splits : (x : ℕ) → count_at x fma'.extents + inside x ext ≡ count_at x fma.extents
  pub keeps_bytes : fma'.bytes ≡ fma.bytes
  pub keeps_size : fma'.size ≡ fma.size
  pub zeroed : (x : ℕ) → inside x ext ≡ 1 → fma'.bytes x ≡ 0
  pub valid : IsValid fma'

abbrev pub AllocResult :
    SequentialFitAllocator → ℕ → SequentialFitAllocator × Extent32 × Bool → Type 0
AllocResult fma n (fma', ext, true) = Allocated fma n fma' ext
AllocResult fma n (fma', ext, false) =
    (fma' ≡ fma)
    × ((j : ℕ)
        → j < length fma.extents
        → (extent_at fma.extents j).length < mem_align n fma.mem_alignment)

abbrev pub request : ℕ → Extent32
request n = record { start = 0; length = n }

module _ (fma : SequentialFitAllocator) (v : IsValid fma) (n : ℕ) (pos : 0 < n)
    (apos : 0 < fma.mem_alignment) (b : n + fma.mem_alignment ≤ 2 ^ 32) where
  abbrev aligned : ℕ
  aligned = mem_align n fma.mem_alignment

  carve-Allocated :
      (i : ℕ)
      → i < length fma.extents
      → aligned ≤ (extent_at fma.extents i).length
      → Allocated fma n
          (record fma { extents = carve fma.extents i aligned })
          (block_of fma.extents i aligned)
  carve-Allocated i h m =
      let p : 0 < aligned = omega (arith, mem_align_bounds n fma.mem_alignment apos b) in
      let f = All-at (Fits fma.size) fma.extents i v.fits h in
      let split = count_at-carve fma.size v.bounded fma.extents v.fits i aligned h p m in
      record {
        length_is = refl;
        start_of = (i, h, refl);
        in_blob = omega arith;
        splits = split;
        keeps_bytes = refl;
        keeps_size = refl;
        zeroed = λ x k. v.clean x (omega (arith, split x));
        valid = record {
          bounded = v.bounded;
          fits = carve-Fits fma.size v.bounded fma.extents v.fits i aligned h p m;
          apart = λ x. omega (arith, split x, v.apart x);
          clean = λ x k. v.clean x (omega (arith, split x));
        };
      }

  take_block-AllocResult : AllocResult fma n (take_block fma (request n) aligned)
  unfolding take_block
  take_block-AllocResult = elim (Option-cases (best_fit fma.extents aligned)) [
    | inl q ↦
        rw (q, take_block)
          (refl, λ j h. (rw q at (best_fit-IsBest fma.extents aligned)) j (omega arith) h)
    | inr (i, q) ↦
        rw (q, take_block)
          (let best : IsBest fma.extents aligned 0 (some i) =
              rw q at (best_fit-IsBest fma.extents aligned) in
            carve-Allocated i best.0 best.1)
  ]

  -- Of a valid allocator and for a positive size that together with the alignment does not
  -- exceed 2 ^ 32: alloc_ext grants a block of the aligned length, which starts where a free
  -- extent does, of zeroed bytes, which are the ones that stop being free, keeps all else and
  -- leaves the allocator valid; or it refuses, the allocator is as before, and no free extent
  -- is as long as the aligned size.
  pub alloc_ext-AllocResult : AllocResult fma n (alloc_ext fma (request n))
  unfolding alloc_ext
  alloc_ext-AllocResult =
      let p : ltb 0 n ≡ true = ground arith in
      let w : u32 aligned ≡ aligned = omega (arith, mem_align_bounds n fma.mem_alignment apos b) in
      rw (p, w) take_block-AllocResult

-- The length is aligned in 64 bits and then cut to 32: with an alignment of 64 and some free
-- extent, a request for more than 2 ^ 32 - 64 and less than 2 ^ 32 bytes is granted with a block
-- of length 0.
pub alloc_ext_wraps :
    (fma : SequentialFitAllocator) (n : ℕ)
    → fma.mem_alignment ≡ 64
    → 2 ^ 32 - 64 < n
    → n < 2 ^ 32
    → 0 < length fma.extents
    → let (_, ext, ok) = alloc_ext fma (request n) in (ok ≡ true) × (ext.length ≡ 0)
unfolding alloc_ext take_block mem_align
alloc_ext_wraps fma n q lo hi some_free =
    let p : ltb 0 n ≡ true = ground arith in
    let w : u32 (mem_align n 64) ≡ 0 = omega arith in
    rw (p, q, w)
      (elim (Option-cases (best_fit fma.extents 0)) [
        | inl e ↦
            let none_fits : IsBest fma.extents 0 0 none = rw e at (best_fit-IsBest fma.extents 0) in
            absurd (omega (arith, none_fits 0 (omega arith) some_free))
        | inr (i, e) ↦ rw (e, take_block) (refl, refl)
      ])
