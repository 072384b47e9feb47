-- ===== src/Memory/RoundTrip.antt =====
-- alloc_ext followed by release_ext (ase/memory.cc).
use anklang.Prelude.{ℕ, ◌+◌, ◌≤◌, ◌<◌, ◌≡◌, ◌^◌, Bool, true, arith}
use anklang.Memory.Extents.{Extent32, SequentialFitAllocator, release_ext, alloc_ext}
use anklang.Memory.Bytes.{inside, count_at}
use anklang.Memory.Scan.{Fits}
use anklang.Memory.Release.{IsValid, count_at-release_ext, release_ext-IsValid}
use anklang.Memory.Alloc.{Allocated, request, alloc_ext-AllocResult}

module _ (check : Bool) {fma fma' : SequentialFitAllocator} {n : ℕ} {ext : Extent32}
    (v : IsValid fma) (pos : 0 < n) (apos : 0 < fma.mem_alignment)
    (b : n + fma.mem_alignment ≤ 2 ^ 32) (e : alloc_ext fma (request n) ≡ (fma', ext, true)) where
  allocated : Allocated fma n fma' ext
  allocated = rw e at (alloc_ext-AllocResult fma v n pos apos b)

  -- A block that a valid allocator granted, for a positive size that together with the
  -- alignment does not exceed 2 ^ 32, can be released, whether or not overlaps are checked: the
  -- same bytes are free as before the allocation, and the allocator is valid.
  pub release_ext-alloc_ext :
      ((x : ℕ) → count_at x (release_ext check fma' ext).extents ≡ count_at x fma.extents)
      × IsValid (release_ext check fma' ext)
  release_ext-alloc_ext =
      let a = allocated in
      let g : Fits fma'.size ext = rw a.keeps_size a.in_blob in
      let free = λ (x : ℕ).
        let r : count_at x fma'.extents + inside x ext ≤ 1 = omega (arith, a.splits x, v.apart x) in
        r in
      (
        λ x. omega (arith, count_at-release_ext check fma' ext a.valid g free x, a.splits x),
        release_ext-IsValid check fma' ext a.valid g free,
      )
