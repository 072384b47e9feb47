-- ===== src/Clip/Ticks.antt =====
-- ClipImpl::tick_events (ase/clip.cc): the notes of a clip, which are sorted by ids, sorted by ticks.
use anklang.Prelude.{◌≡◌, ◌≢◌, arith, Ordering, Bool-cases, List, [], ◌∷◌, inl, inr}
use anklang.EventList.Order.{Compare, IsOrder}
use anklang.EventList.Sorted.{AllAbove, IsSorted}
use anklang.EventList.List.{is_gt, insert_before, stable_sort}
use anklang.Clip.Notes.{ClipNote, cmp_note_ids, cmp_note_ticks, cmp_note_ticks-IsOrder}

module _ {ℓ} {E : Type ℓ} {cmp : Compare E} (o : IsOrder cmp) where
  -- Nothing in the list equals `e`.
  abbrev NoneEqual : E → List E → Type 0
  NoneEqual e [] = Unit
  NoneEqual e (x ∷ xs) = (cmp e x ≢ Ordering.eq) × NoneEqual e xs

  NoneEqual-insert_before :
      (e x : E) (xs : List E)
      → cmp e x ≢ Ordering.eq
      → NoneEqual e xs
      → NoneEqual e (insert_before cmp x xs)
  unfolding insert_before
  NoneEqual-insert_before e x [] h a = (h, tt)
  NoneEqual-insert_before e x (y ∷ ys) h a = elim (Bool-cases (is_gt (cmp x y))) [
    | inl g ↦ rw g (a.0, NoneEqual-insert_before e x ys h a.1)
    | inr n ↦ rw n (h, a)
  ]

  AllAbove-insert_before :
      (e x : E) (xs : List E)
      → cmp e x ≡ Ordering.lt
      → AllAbove cmp e xs
      → AllAbove cmp e (insert_before cmp x xs)
  unfolding insert_before
  AllAbove-insert_before e x [] h a = (h, tt)
  AllAbove-insert_before e x (y ∷ ys) h a = elim (Bool-cases (is_gt (cmp x y))) [
    | inl g ↦ rw g (a.0, AllAbove-insert_before e x ys h a.1)
    | inr n ↦ rw n (h, a)
  ]

  AllAbove-le :
      (x y : E) (ys : List E) → cmp x y ≡ Ordering.lt → AllAbove cmp y ys → AllAbove cmp x ys
  AllAbove-le x y [] h a = tt
  AllAbove-le x y (z ∷ zs) h a = (o.lt_trans x y z h a.0, AllAbove-le x y zs h a.1)

  insert_before-IsSorted :
      (e : E) (xs : List E)
      → NoneEqual e xs
      → IsSorted cmp xs
      → IsSorted cmp (insert_before cmp e xs)
  unfolding insert_before
  insert_before-IsSorted e [] d s = (tt, tt)
  insert_before-IsSorted e (x ∷ xs) d s = elim (Bool-cases (is_gt (cmp e x))) [
    | inl g ↦ rw g (
      AllAbove-insert_before x e xs (ground (arith, o.swap e x)) s.0,
      insert_before-IsSorted e xs d.1 s.1,
    )
    | inr n ↦
        let below : cmp e x ≡ Ordering.lt = ground (arith, d.0) in
        rw n ((below, AllAbove-le e x xs below s.0), s)
  ]

  NoneEqual-stable_sort : (e : E) (xs : List E) → NoneEqual e xs → NoneEqual e (stable_sort cmp xs)
  unfolding stable_sort
  NoneEqual-stable_sort e [] a = tt
  NoneEqual-stable_sort e (x ∷ xs) a =
      NoneEqual-insert_before e x (stable_sort cmp xs) a.0 (NoneEqual-stable_sort e xs a.1)

differs :
    {F : Type 0} (d e : ClipNote F)
    → cmp_note_ids d e ≡ Ordering.lt
    → cmp_note_ticks d e ≢ Ordering.eq
unfolding cmp_note_ids cmp_note_ticks
differs d e h q = ground arith

AllAbove-NoneEqual :
    {F : Type 0} (d : ClipNote F) (es : List (ClipNote F))
    → AllAbove cmp_note_ids d es
    → NoneEqual cmp_note_ticks-IsOrder d es
AllAbove-NoneEqual d [] a = tt
AllAbove-NoneEqual d (e ∷ es) a = (differs d e a.0, AllAbove-NoneEqual d es a.1)

-- Notes that are sorted by ids with no id twice become strictly sorted by ticks in the ordered
-- view, which is what a generator plays from.
stable_sort-IsSorted :
    {F : Type 0} (es : List (ClipNote F))
    → IsSorted cmp_note_ids es
    → IsSorted cmp_note_ticks (stable_sort cmp_note_ticks es)
unfolding stable_sort
stable_sort-IsSorted [] s = tt
stable_sort-IsSorted (e ∷ es) s =
    insert_before-IsSorted cmp_note_ticks-IsOrder e (stable_sort cmp_note_ticks es)
      (NoneEqual-stable_sort cmp_note_ticks-IsOrder e es (AllAbove-NoneEqual e es s.0))
      (stable_sort-IsSorted es s.1)
