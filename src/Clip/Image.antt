-- ===== src/Clip/Image.antt =====
-- ClipImpl::EventImage, push_undo and apply_undo (ase/clip.cc): the undo function of a clip, as a function
-- that Undo.Stacks runs. The compressed image is what the zstd library makes of the notes; the clip's
-- notifications are left out.
use mathlib.Core.List.{append_assoc, append-nil}
use anklang.Prelude.{
  Option, none, some, suc, ◌-◌, ◌<◌, ◌≡◌, refl, sym, ap, ◌∙◌, arith, true, ◌==◌, inl, inr,
  Bool-cases, Ordering, List, [], ◌∷◌, ◌++◌, length,
}
use anklang.EventList.Order.{Compare, IsOrder}
use anklang.EventList.Sorted.{IsSorted}
use anklang.EventList.Lookup.{
  binary_lookup_insertion_pos, insertion_pos, binary_lookup_fuzzy, search_loop,
}
use anklang.EventList.List.{EventList, insert, insert_found, clear_silently, cmp_back}
use anklang.Undo.Stacks.{Name}
use anklang.Clip.Notes.{ClipNote, cmp_note_ids, cmp_note_ids-IsOrder}

module _ {ℓ} {E : Type ℓ} {cmp : Compare E} (o : IsOrder cmp) where
  above_last :
      (xs ys : List E) (e : E)
      → IsSorted cmp (xs ++ e ∷ ys)
      → 0 < length xs
      → cmp_back cmp xs e ≡ Ordering.gt
  above_last [] ys e s h = absurd (omega arith)
  above_last (x ∷ []) ys e s h = ground (arith, o.swap x e, s.0.0)
  above_last (x ∷ y ∷ xs) ys e s h =
      let at_end : suc (suc (length xs)) - 1 ≡ suc (length xs) = omega arith in
      let before : suc (length xs) - 1 ≡ length xs = omega arith in
      rw at_end (rw before at (above_last (y ∷ xs) ys e s.1 (omega arith)))

  none_listed : (xs : List E) → (length xs == 0) ≡ true → xs ≡ []
  none_listed [] h = refl
  none_listed (x ∷ xs) h = absurd (ground arith)

  insert-last :
      (l : EventList E) (ys : List E) (e : E)
      → IsSorted cmp (l.events ++ e ∷ ys)
      → (insert cmp l e).list.events ≡ l.events ++ e ∷ []
  unfolding insert insert_found binary_lookup_insertion_pos insertion_pos binary_lookup_fuzzy
      search_loop
  insert-last l ys e s = elim (Bool-cases (length l.events == 0)) [
    | inl q ↦ rw (none_listed l.events q) refl
    | inr q ↦ let above = above_last l.events ys e s (ground arith) in rw (q, above) refl
  ]

-- `for (const ClipNote &note : onotes) notes_.insert (note);`
unfoldable pub insert_all :
    {F : Type 0} → List (ClipNote F) → EventList (ClipNote F) → EventList (ClipNote F)
insert_all [] notes = notes
insert_all (note ∷ onotes) notes = insert_all onotes (insert cmp_note_ids notes note).list

insert_all-append :
    {F : Type 0} (es : List (ClipNote F)) (l : EventList (ClipNote F))
    → IsSorted cmp_note_ids (l.events ++ es)
    → (insert_all es l).events ≡ l.events ++ es
unfolding insert_all
insert_all-append [] l s = sym (append-nil l.events)
insert_all-append (e ∷ es) l s =
    let last_in = insert-last cmp_note_ids-IsOrder l es e s in
    let moved : (insert cmp_note_ids l e).list.events ++ es ≡ l.events ++ e ∷ es =
      ap (λ t. t ++ es) last_in ∙ append_assoc l.events (e ∷ []) es in
    insert_all-append es (insert cmp_note_ids l e).list (rw moved s) ∙ moved

-- What apply_undo makes of the notes of an image; an image that cannot be read is an assertion.
unfoldable pub restore :
    {F : Type 0} → Option (List (ClipNote F)) → EventList (ClipNote F) → EventList (ClipNote F)
restore none notes = notes
restore (some onotes) notes = insert_all onotes (clear_silently notes)

-- The parameters: EventImage (zstd_compress), and zstd_uncompress.
module _ {F I : Type 0} (compress : List (ClipNote F) → I)
    (uncompress : I → Option (List (ClipNote F))) where
  -- The notes after it, and the undo function that push_undo records, with the name of its scope
  unfoldable pub apply_undo :
      I × Name → EventList (ClipNote F) → EventList (ClipNote F) × List (Name × (I × Name))
  apply_undo (image, undogroup) notes =
      (restore (uncompress image) notes, (undogroup, (compress notes.events, undogroup)) ∷ [])

  -- Where uncompressing takes back compressing, and `es` is sorted by ids with no id twice: undoing to
  -- the image of `es` leaves just the notes `es`, whatever the clip held.
  pub apply_undo-restores :
      ((es : List (ClipNote F)) → uncompress (compress es) ≡ some es)
      → (es : List (ClipNote F)) (undogroup : Name) (notes : EventList (ClipNote F))
      → IsSorted cmp_note_ids es
      → (apply_undo (compress es, undogroup) notes).0.events ≡ es
  unfolding apply_undo restore clear_silently
  apply_undo-restores inverse es undogroup notes s = rw (inverse es) (insert_all-append es _ s)

  -- Where uncompressing takes back compressing, and both the image `es` and the clip's notes
  -- are sorted by ids with no id twice: the undo function that apply_undo records, when it is
  -- run, gives the clip its notes back and records the first function again.
  pub apply_undo-twice :
      ((es : List (ClipNote F)) → uncompress (compress es) ≡ some es)
      → (es : List (ClipNote F)) (undogroup : Name) (notes : EventList (ClipNote F))
      → IsSorted cmp_note_ids es
      → IsSorted cmp_note_ids notes.events
      → let undone = apply_undo (compress es, undogroup) notes in
        let redone = apply_undo (compress notes.events, undogroup) undone.0 in
        (undone.1 ≡ (undogroup, (compress notes.events, undogroup)) ∷ [])
        × (redone.0.events ≡ notes.events)
        × (redone.1 ≡ (undogroup, (compress es, undogroup)) ∷ [])
  unfolding apply_undo
  apply_undo-twice inverse es undogroup notes s k =
      let undone = apply_undo (compress es, undogroup) notes in
      (
        refl,
        apply_undo-restores inverse notes.events undogroup undone.0 k,
        ap (λ t. (undogroup, (compress t, undogroup)) ∷ [])
            (apply_undo-restores inverse es undogroup notes s),
      )
