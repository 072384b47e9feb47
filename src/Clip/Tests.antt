-- ===== src/Clip/Tests.antt =====
-- The theorems about ase/clip.cc at a clip of three notes; velocities are numbers here.
use anklang.Prelude.{ℕ, ◌≡◌, refl, arith, Bool, false, ltb, List, [], ◌∷◌}
use anklang.Prelude.Int.{pos, ◌-ℤ◌}
use anklang.Clip.Notes.{ClipNote, cmp_note_ids, cmp_note_ticks}
use anklang.Clip.Generator.{Generator, jumpto, generate}
use anklang.EventList.Sorted.{IsSorted}
use anklang.Clip.Ranges.{AllPlayable}
use anklang.Clip.Blocks.{generate_twice, generate-in_blocks, generate-reaches}
use anklang.EventList.List.{EventList}
use anklang.Prelude.{none, some}
use anklang.Clip.Image.{apply_undo, apply_undo-twice}
use anklang.Clip.Jump.{jumpto-generate}

abbrev note : ℕ → ℕ → ℕ → ClipNote ℕ
note id key tick = record {
  id = pos id;
  channel = pos 0;
  key = pos key;
  selected = false;
  tick = pos tick;
  duration = pos 2;
  velocity = 1;
  fine_tune = 0;
}

abbrev notes : List (ClipNote ℕ)
notes = note 1 60 0 ∷ note 3 64 4 ∷ note 2 67 4 ∷ []

-- A loop of 8 ticks
abbrev generator : Generator ℕ
generator = record {
  last = 9007199254740992;
  xtick = pos 3;
  itick = pos 3;
  start_offset = 0;
  loop_start = 0;
  loop_end = 8;
  events = notes;
  muted = false;
}

abbrev is_positive : ℕ → Bool
is_positive v = ltb 0 v

notes-IsSorted : IsSorted cmp_note_ticks notes
unfolding cmp_note_ticks
notes-IsSorted = ((refl, (refl, tt)), ((refl, tt), (tt, tt)))

notes-AllPlayable : AllPlayable notes
notes-AllPlayable = omega arith

generate-in_blocks_example :
    generate 0 is_positive (pos 21) generator
    ≡ generate_twice 0 is_positive (pos 4) (pos 21) generator
generate-in_blocks_example =
    generate-in_blocks 0 is_positive (pos 4) (pos 21) generator (notes-IsSorted, notes-AllPlayable)
      (omega arith) (omega arith)

jumpto-generate_example :
    jumpto 0 is_positive (pos 21) generator
    ≡ (generate 0 is_positive (pos 21) (jumpto 0 is_positive (pos 0) generator)).0
jumpto-generate_example = jumpto-generate 0 is_positive 21 generator (omega arith) (omega arith)

by_ids : IsSorted cmp_note_ids (note 1 60 4 ∷ note 2 67 0 ∷ note 3 64 4 ∷ [])
unfolding cmp_note_ids
by_ids = ((refl, (refl, tt)), ((refl, tt), (tt, tt)))

abbrev clip : EventList (ClipNote ℕ)
clip = record { events = note 2 67 0 ∷ note 3 64 4 ∷ []; ordered = none }

clip-IsSorted : IsSorted cmp_note_ids clip.events
unfolding cmp_note_ids
clip-IsSorted = ((refl, tt), (tt, tt))

abbrev image : List (ClipNote ℕ)
image = note 1 60 4 ∷ note 2 67 0 ∷ note 3 64 4 ∷ []

-- Notes that are stored as they are
abbrev stored : List (ClipNote ℕ) → List (ClipNote ℕ)
stored es = es

apply_undo-twice_example :
    let undone = apply_undo stored some (image, 7 ∷ []) clip in
    let redone = apply_undo stored some (clip.events, 7 ∷ []) undone.0 in
    (undone.1 ≡ (7 ∷ [], (clip.events, 7 ∷ [])) ∷ [])
    × (redone.0.events ≡ clip.events)
    × (redone.1 ≡ (7 ∷ [], (image, 7 ∷ [])) ∷ [])
apply_undo-twice_example =
    apply_undo-twice stored some (λ es. refl) image (7 ∷ []) clip by_ids clip-IsSorted

generate-reaches_example :
    let r = generate 0 is_positive (pos 21) generator in
    (r.0.xtick ≡ pos 21) × (r.2 ≡ pos 21 -ℤ pos 3)
generate-reaches_example =
    generate-reaches 0 is_positive (pos 21) generator (omega arith) (omega arith) (omega arith)
