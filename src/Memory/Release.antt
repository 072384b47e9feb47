-- ===== src/Memory/Release.antt =====
-- release_ext (ase/memory.cc) against the set of free bytes.
use anklang.Prelude.{
  ℕ, ◌+◌, ◌≤◌, ◌<◌, ◌≡◌, ◌≢◌, ◌^◌, refl, Bool, true, List, [], ◌∷◌, Option, none, some, arith,
  length, length-set, set, ltb, leb, sym, ap, ◌∙◌,
}
use anklang.Prelude.Words.{u32}
use anklang.Memory.Extents.{
  Extent32, SequentialFitAllocator, extent_at, Scan, start_scan, scan, merge, grow, settle,
  zero_extent, release_ext,
}
use anklang.Memory.Bytes.{
  inside, count_at, count_at-set, count_at-append, count_at-erase_at, extent_at-set_self,
  extent_at-set_ne, All, All-at, All-set, All-push, All-erase_at,
}
use anklang.Memory.Scan.{Fits, EndsAt, StartsAt, scan-Found, scan-overlaps}

-- What holds of an allocator between two calls: its blocks fit, no byte is free twice, and free
-- bytes are zero.
pub record IsValid (fma : SequentialFitAllocator) : Type 0 where
  pub bounded : fma.size < 2 ^ 32
  pub fits : All (Fits fma.size) fma.extents
  pub apart : (x : ℕ) → count_at x fma.extents ≤ 1
  pub clean : (x : ℕ) → 1 ≤ count_at x fma.extents → fma.bytes x ≡ 0

module _ (size : ℕ) (bounded : size < 2 ^ 32) where
  -- Two blocks in a row, made one.
  join-Fits :
      (e f : Extent32)
      → Fits size e
      → Fits size f
      → e.start + e.length ≡ f.start
      → Fits size (grow e f.length)
  join-Fits e f h k q = ground arith

  inside-join :
      (x : ℕ) (e f : Extent32)
      → Fits size e
      → Fits size f
      → e.start + e.length ≡ f.start
      → inside x (grow e f.length) ≡ inside x e + inside x f
  inside-join x e f h k q = ground arith

  -- The new free list holds the bytes of the old one and those of the block.
  record Merged (es : List Extent32) (ext : Extent32) (fs : List Extent32) : Type 0 where
    fits : All (Fits size) fs
    counts : (x : ℕ) → count_at x fs ≡ count_at x es + inside x ext

  module _ (es : List Extent32) (ext : Extent32) (a : All (Fits size) es) (g : Fits size ext) where
    merge_after :
        (i : ℕ) → EndsAt es ext.start (some i) → Merged es ext (merge (some i) none ext es)
    unfolding merge
    merge_after i (h, q) =
        let e = extent_at es i in
        let f = All-at (Fits size) es i a h in
        record {
          fits = All-set (Fits size) es i _ a (join-Fits e ext f g q);
          counts = λ x.
              omega (arith, count_at-set x es i (grow e ext.length) h, inside-join x e ext f g q);
        }

    merge_before :
        (i : ℕ)
        → StartsAt es (ext.start + ext.length) (some i)
        → Merged es ext (merge none (some i) ext es)
    unfolding merge
    merge_before i (h, q) =
        let e = extent_at es i in
        let f = All-at (Fits size) es i a h in
        let n : u32 (e.length + ext.length) ≡ u32 (ext.length + e.length) = omega arith in
        let joined = join-Fits ext e g f (sym q) in
        rw n (record {
          fits = All-set (Fits size) es i _ a joined;
          counts = λ x.
              omega
                (arith, count_at-set x es i (grow ext e.length) h, inside-join x ext e g f (sym q));
        })

    merge_isolated : Merged es ext (merge none none ext es)
    unfolding merge
    merge_isolated = record {
      fits = All-push (Fits size) es ext a g;
      counts = λ x. omega (arith, count_at-append x es (ext ∷ []));
    }

  -- Two neighbours: the first is grown over the block and the second, which is then taken out.
  module _ (es : List Extent32) (ext : Extent32) (a : All (Fits size) es) (g : Fits size ext) where
    merge_both :
        (i j : ℕ)
        → EndsAt es ext.start (some i)
        → StartsAt es (ext.start + ext.length) (some j)
        → Merged es ext (merge (some i) (some j) ext es)
    unfolding merge
    merge_both i j (h, q) (k, r) =
        let e = extent_at es i in
        let l = extent_at es j in
        let ef = All-at (Fits size) es i a h in
        let lf = All-at (Fits size) es j a k in
        let once = set es i (grow e ext.length) in
        let ne : i ≢ j = λ s. omega (arith, ap (λ t. (extent_at es t).start) s) in
        let at_i : extent_at once i ≡ grow e ext.length = extent_at-set_self es i _ h in
        let at_j : extent_at once j ≡ l = extent_at-set_ne es i j _ ne in
        let hn : i < length once = rw length-set h in
        let f1 = join-Fits e ext ef g q in
        let q2 : (grow e ext.length).start + (grow e ext.length).length ≡ l.start = omega arith in
        let twice = set once i (grow (grow e ext.length) l.length) in
        let kn : j < length twice = rw (length-set, length-set) k in
        rw (at_i, at_j)
          (record {
            fits = All-erase_at (Fits size) twice j (
                All-set (Fits size) once i _ (All-set (Fits size) es i _ a f1)
                  (join-Fits (grow e ext.length) l f1 lf q2));
            counts = λ x. omega (
              arith,
              count_at-erase_at x twice j kn,
              ap (inside x)
                  (extent_at-set_ne once i j (grow (grow e ext.length) l.length) ne ∙ at_j),
              count_at-set x once i (grow (grow e ext.length) l.length) hn,
              ap (inside x) at_i,
              count_at-set x es i (grow e ext.length) h,
              inside-join x e ext ef g q,
              inside-join x (grow e ext.length) l f1 lf q2,
            );
          })

    merge-Merged :
        (o b : Option ℕ)
        → EndsAt es ext.start o
        → StartsAt es (ext.start + ext.length) b
        → Merged es ext (merge o b ext es)
    merge-Merged none none h k = merge_isolated es ext a g
    merge-Merged none (some j) h k = merge_before es ext a g j k
    merge-Merged (some i) none h k = merge_after es ext a g i h
    merge-Merged (some i) (some j) h k = merge_both i j h k

-- The state after a release that passes the assertions.
released : SequentialFitAllocator → Extent32 → Bool → Scan → SequentialFitAllocator
released fma ext check s = record fma {
  bytes = zero_extent ext fma.bytes;
  extents = merge s.after s.before ext fma.extents;
}

module _ (check : Bool) (fma : SequentialFitAllocator) (ext : Extent32) (v : IsValid fma)
    (g : Fits fma.size ext) (free : (x : ℕ) → count_at x fma.extents + inside x ext ≤ 1) where
  release_ext-eq-released :
      release_ext check fma ext ≡ released fma ext check (scan check ext 0 fma.extents start_scan)
  unfolding release_ext settle released
  release_ext-eq-released =
      let none_overlaps =
        scan-overlaps check fma.size ext v.bounded g 0 fma.extents start_scan v.fits free in
      let b = v.bounded in
      let positive : ltb 0 ext.length ≡ true = ground arith in
      let within : leb (u32 (ext.start + ext.length)) fma.size ≡ true = ground arith in
      rw (positive, within, none_overlaps) refl

  merged :
      let s = scan check ext 0 fma.extents start_scan in
      Merged fma.size v.bounded fma.extents ext (merge s.after s.before ext fma.extents)
  merged =
      let f =
        scan-Found check fma.size ext v.bounded g fma.extents start_scan v.fits
          (record { after_ends = tt; before_starts = tt }) in
      merge-Merged fma.size v.bounded fma.extents ext v.fits g _ _ f.after_ends f.before_starts

  -- Releasing a block that fits a valid allocator and of which no byte is free: afterwards the
  -- free extents hold each byte as often as before, and once more if it lies in the block.
  pub count_at-release_ext :
      (x : ℕ)
      → count_at x (release_ext check fma ext).extents ≡ count_at x fma.extents + inside x ext
  unfolding released
  count_at-release_ext x = rw release_ext-eq-released (merged.counts x)

  -- Releasing a block that fits a valid allocator and of which no byte is free leaves a valid
  -- one: all extents lie in the blob, none is empty, no byte is in two, and free bytes are
  -- zero.
  pub release_ext-IsValid : IsValid (release_ext check fma ext)
  unfolding released zero_extent
  release_ext-IsValid = rw release_ext-eq-released (record {
    bounded = v.bounded;
    fits = merged.fits;
    apart = λ x. omega (arith, merged.counts x, free x);
    clean = λ x h. ground (arith, v.clean x, merged.counts x);
  })

  pub size-release_ext : (release_ext check fma ext).size ≡ fma.size
  unfolding released
  size-release_ext = rw release_ext-eq-released
