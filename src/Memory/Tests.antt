-- ===== src/Memory/Tests.antt =====
-- The theorems about ase/memory.cc at concrete blobs.
use anklang.Prelude.{ℕ, ◌+◌, ◌-◌, ◌≡◌, ◌^◌, refl, true, [], ◌∷◌, arith}
use anklang.Memory.Extents.{
  Extent32, SequentialFitAllocator, release_ext, alloc_ext, mem_align, best_fit, best_fit_from,
  choose, carve, take_block, settle, scan, probe, merge,
}
use anklang.Memory.Bytes.{inside, count_at}
use anklang.Memory.Release.{IsValid, count_at-release_ext, release_ext-IsValid}
use anklang.Memory.Alloc.{AllocResult, request, alloc_ext-AllocResult, alloc_ext_wraps}
use anklang.Memory.RoundTrip.{release_ext-alloc_ext}

abbrev ext : ℕ → ℕ → Extent32
ext s n = record { start = s; length = n }

-- 1024 bytes, of which [0, 128) and [512, 1024) are free.
abbrev pool : SequentialFitAllocator
pool = record {
  size = 1024;
  bytes = λ x. 0;
  extents = ext 512 512 ∷ ext 0 128 ∷ [];
  mem_alignment = 64;
}

pool-IsValid : IsValid pool
pool-IsValid = record {
  bounded = omega arith;
  fits = omega arith;
  apart = λ x. ground arith;
  clean = λ x h. refl;
}

abbrev left : SequentialFitAllocator
left = record pool { extents = ext 512 512 ∷ [] }

takes_best_fit : alloc_ext pool (request 100) ≡ (left, ext 0 128, true)
unfolding alloc_ext take_block best_fit best_fit_from choose mem_align carve
takes_best_fit = refl

merges_both : (release_ext true pool (ext 128 384)).extents ≡ ext 0 1024 ∷ []
unfolding release_ext settle scan probe merge
merges_both = refl

alloc_ext-AllocResult_example : AllocResult pool 100 (left, ext 0 128, true)
unfolding alloc_ext take_block best_fit best_fit_from choose mem_align carve
alloc_ext-AllocResult_example =
    alloc_ext-AllocResult pool pool-IsValid 100 (omega arith) (omega arith) (omega arith)

count_at-release_ext_example :
    count_at 200 (release_ext true pool (ext 128 64)).extents
    ≡ count_at 200 pool.extents + inside 200 (ext 128 64)
count_at-release_ext_example =
    count_at-release_ext true pool (ext 128 64) pool-IsValid (omega arith) (λ x. ground arith) 200

release_ext-IsValid_example : IsValid (release_ext true pool (ext 128 64))
release_ext-IsValid_example =
    release_ext-IsValid true pool (ext 128 64) pool-IsValid (omega arith) (λ x. ground arith)

release_ext-alloc_ext_example :
    ((x : ℕ) → count_at x (release_ext true left (ext 0 128)).extents ≡ count_at x pool.extents)
    × IsValid (release_ext true left (ext 0 128))
release_ext-alloc_ext_example =
    release_ext-alloc_ext true pool-IsValid (omega arith) (omega arith) (omega arith) takes_best_fit

alloc_ext_wraps_example :
    let (_, ext, ok) = alloc_ext pool (request (2 ^ 32 - 1)) in (ok ≡ true) × (ext.length ≡ 0)
alloc_ext_wraps_example =
    alloc_ext_wraps pool (2 ^ 32 - 1) refl (omega arith) (omega arith) (omega arith)
