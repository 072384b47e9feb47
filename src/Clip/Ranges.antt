-- ===== src/Clip/Ranges.antt =====
-- The notes that a round of ClipImpl::Generator::generate plays (ase/clip.cc).
use anklang.Prelude.{
  ℕ, zero, suc, ◌≤◌, ◌<◌, ◌≡◌, ◌≢◌, refl, Bool, true, false, not, ◌&&◌, arith, Ordering, Bool-cases,
  ℕ_discrete, if◌then◌else◌, List, [], ◌∷◌, ◌++◌, length, drop, get_or, inl, inr,
}
use anklang.Prelude.Int.{ℤ, pos, ◌≤ℤ◌, ltb_ℤ}
use anklang.EventList.Sorted.{cmp_at, IsSorted, IsSorted-range}
use anklang.EventList.Lookup.Laws.{InsertsAt, binary_lookup_insertion_pos-InsertsAt}
use anklang.EventList.Lookups.{before-eq-gt}
use anklang.Clip.Notes.{ClipNote, cmp_note_ticks, cmp_note_ticks-IsOrder}
use anklang.Clip.Generator.{MidiEvent, index_at, note_calls, play_notes, notes_after}

-- Ticks do not descend from `t` on.
abbrev pub TicksFrom : {F : Type 0} → ℤ → List (ClipNote F) → Type 0
TicksFrom t [] = Unit
TicksFrom t (e ∷ es) = (t ≤ℤ e.tick) × TicksFrom e.tick es

abbrev pub TicksAscend : {F : Type 0} → List (ClipNote F) → Type 0
TicksAscend [] = Unit
TicksAscend (e ∷ es) = TicksFrom e.tick es

-- What change_batch and the loading of a clip leave of a note.
abbrev pub AllPlayable : {F : Type 0} → List (ClipNote F) → Type 0
AllPlayable [] = Unit
AllPlayable (e ∷ es) = (pos 0 ≤ℤ e.id) × (pos 0 ≤ℤ e.channel) × (pos 0 ≤ℤ e.key) × AllPlayable es

TicksFrom-le :
    {F : Type 0} (s t : ℤ) (es : List (ClipNote F)) → s ≤ℤ t → TicksFrom t es → TicksFrom s es
TicksFrom-le s t [] h f = tt
TicksFrom-le s t (e ∷ es) h f = (omega (arith, h, f.0), f.1)

pub TicksFrom-TicksAscend :
    {F : Type 0} (t : ℤ) (es : List (ClipNote F)) → TicksFrom t es → TicksAscend es
TicksFrom-TicksAscend t [] f = tt
TicksFrom-TicksAscend t (e ∷ es) f = f.1

tick_le : {F : Type 0} (d e : ClipNote F) → cmp_note_ticks d e ≢ Ordering.gt → d.tick ≤ℤ e.tick
unfolding cmp_note_ticks
tick_le d e h = ground arith

pub IsSorted-TicksAscend :
    {F : Type 0} (es : List (ClipNote F)) → IsSorted cmp_note_ticks es → TicksAscend es
IsSorted-TicksAscend [] s = tt
IsSorted-TicksAscend (e ∷ []) s = tt
IsSorted-TicksAscend (d ∷ e ∷ es) s =
    (tick_le d e (λ g. cc (s.0.0)), IsSorted-TicksAscend (e ∷ es) s.1)

module _ {F : Type 0} (fzero : F) (positive : F → Bool) where
  -- The calls for the notes with ticks from `a` to below `b`, in the order of the list.
  abbrev pub calls_within : ℤ → ℤ → ℤ → List (ClipNote F) → List (ℤ × MidiEvent F)
  calls_within x a b [] = []
  calls_within x a b (e ∷ es) =
      let rest = calls_within x a b es in
      if not (ltb_ℤ e.tick a) && ltb_ℤ e.tick b
      then note_calls fzero positive x a e ++ rest
      else rest

  pub calls_within-none :
      (x a b t : ℤ) (es : List (ClipNote F)) → b ≤ℤ t → TicksFrom t es → calls_within x a b es ≡ []
  calls_within-none x a b t [] h f = refl
  calls_within-none x a b t (e ∷ es) h f =
      let late : ltb_ℤ e.tick b ≡ false = ground (arith, f.0, h) in
      ground (arith, calls_within-none x a b e.tick es (omega (arith, f.0, h)) f.1)

  play_notes-calls_within :
      (x a b t : ℤ) (es : List (ClipNote F))
      → a ≤ℤ t
      → TicksFrom t es
      → play_notes fzero positive x a b es ≡ calls_within x a b es
  unfolding play_notes
  play_notes-calls_within x a b t [] h f = refl
  play_notes-calls_within x a b t (e ∷ es) h f = elim (Bool-cases (ltb_ℤ e.tick b)) [
    | inl l ↦
        let late : ltb_ℤ e.tick a ≡ false = ground (arith, f.0, h) in
        rw (l, late, play_notes-calls_within x a b e.tick es (omega (arith, f.0, h)) f.1)
    | inr n ↦
        let late : b ≤ℤ e.tick = ground (arith, n) in
        let early : ltb_ℤ e.tick a ≡ false = ground (arith, f.0, h) in
        rw (n, early, calls_within-none x a b e.tick es late f.1) refl
  ]

  index_gt :
      (a : ℤ) (e : ClipNote F)
      → pos 0 ≤ℤ e.id
      → pos 0 ≤ℤ e.channel
      → pos 0 ≤ℤ e.key
      → cmp_note_ticks (index_at fzero positive a) e ≡ Ordering.gt
      → ltb_ℤ e.tick a ≡ true
  unfolding cmp_note_ticks
  index_gt a e h1 h2 h3 g = ground arith

  -- The loop plays the notes of its range.
  play_notes-drop :
      (x a b : ℤ) (es : List (ClipNote F)) (p : ℕ) (d : ClipNote F)
      → TicksAscend es
      → ((j : ℕ) → j < p → j < length es → ltb_ℤ (get_or es j d).tick a ≡ true)
      → ((j : ℕ) → p ≤ j → j < length es → a ≤ℤ (get_or es j d).tick)
      → play_notes fzero positive x a b (drop p es) ≡ calls_within x a b es
  unfolding play_notes
  play_notes-drop x a b [] zero d s above below = refl
  play_notes-drop x a b [] (suc p) d s above below = refl
  play_notes-drop x a b (e ∷ es) zero d s above below =
      play_notes-calls_within x a b e.tick (e ∷ es) (below 0 (omega arith) (omega arith))
        (omega arith, s)
  play_notes-drop x a b (e ∷ es) (suc p) d s above below =
      let early : ltb_ℤ e.tick a ≡ true = above 0 (omega arith) (omega arith) in
      rw early (
        play_notes-drop x a b es p d (TicksFrom-TicksAscend e.tick es s)
          (λ j q r. above (suc j) (omega arith) (omega arith))
          (λ j q r. below (suc j) (omega arith) (omega arith)))

  AllPlayable-gt :
      (a : ℤ) (es : List (ClipNote F)) (j : ℕ) (d : ClipNote F)
      → AllPlayable es
      → j < length es
      → cmp_note_ticks (index_at fzero positive a) (get_or es j d) ≡ Ordering.gt
      → ltb_ℤ (get_or es j d).tick a ≡ true
  AllPlayable-gt a [] j d w h g = absurd (omega arith)
  AllPlayable-gt a (e ∷ es) zero d w h g = index_gt a e w.0 w.1 w.2 g
  AllPlayable-gt a (e ∷ es) (suc j) d w h g = AllPlayable-gt a es j d w.3 (omega arith) g

  -- For notes that are sorted by ticks and have no negative id, channel or key, the round from
  -- `a` to `b` calls the receiver for the notes with a tick from `a` to below `b`, no more and
  -- no less, in their order.
  pub play_notes-notes_after :
      (x a b : ℤ) (es : List (ClipNote F))
      → IsSorted cmp_note_ticks es
      → AllPlayable es
      → play_notes fzero positive x a b (notes_after fzero positive a es) ≡ calls_within x a b es
  unfolding notes_after
  play_notes-notes_after x a b es s w = go _ (
      binary_lookup_insertion_pos-InsertsAt _ _
        (IsSorted-range cmp_note_ticks-IsOrder es (index_at fzero positive a) s))
    where
      index : ClipNote F
      index = index_at fzero positive a

      go :
          (at : ℕ × Bool)
          → InsertsAt (cmp_at cmp_note_ticks es index) (length es) at
          → play_notes fzero positive x a b (drop at.0 es) ≡ calls_within x a b es
      go (p, true) (h, q) =
          play_notes-drop x a b es p index (IsSorted-TicksAscend es s)
            (λ j r k.
              AllPlayable-gt a es j index w k
                (before-eq-gt cmp_note_ticks-IsOrder es index p s h q j r))
            (λ j r k. tick_le index (get_or es j index) (λ g. elim (ℕ_discrete p j) [
              | yes e ↦ cc
              | no ne ↦
                  cc
                    (IsSorted-range cmp_note_ticks-IsOrder es index s p j (omega arith) k (λ t. cc))
            ]))
      go (p, false) h =
          play_notes-drop x a b es p index (IsSorted-TicksAscend es s)
            (λ j q r. AllPlayable-gt a es j index w r (h.above j q))
            (λ j q r. tick_le index (get_or es j index) (λ g. cc (h.below j q r)))
