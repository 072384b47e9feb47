-- ===== src/Clip/Generator.antt =====
-- ClipImpl::Generator (ase/clip.cc), which plays the notes of a clip. The ticks that `setup` gives it are
-- never negative; the positions are negative during a delay. Ticks stay below 2 ^ 53, so 64 bit sums
-- are exact. What the receiver is called with is a list.
use anklang.Prelude.{
  ℕ, zero, suc, ◌+◌, ◌-◌, ◌*◌, ◌%◌, ◌^◌, min, Bool, false, not, ◌&&◌, ltb, leb, ◌==◌, if◌then◌else◌,
  List, [], ◌∷◌, ◌++◌, length, drop,
}
use anklang.Prelude.Int.{ℤ, pos, negsuc, pos_part, neg_part, ◌+ℤ◌, ◌-ℤ◌, ltb_ℤ}
use anklang.EventList.Sorted.{cmp_at}
use anklang.EventList.Lookup.{binary_lookup_insertion_pos}
use anklang.Clip.Notes.{ClipNote, cmp_note_ticks}

-- The two types of the events for notes
pub data MidiEventType : Type 0 where
  note_on : MidiEventType
  note_off : MidiEventType

-- The members for notes; `channel` has 4 bits.
pub record MidiEvent (F : Type 0) : Type 0 where
  pub type : MidiEventType
  pub channel : ℕ
  pub key : ℕ
  pub velocity : F
  pub tuning : F
  pub noteid : ℕ

pub record Generator (F : Type 0) : Type 0 where
  pub last : ℕ
  pub xtick : ℤ
  pub itick : ℤ
  pub start_offset : ℕ
  pub loop_start : ℕ
  pub loop_end : ℕ
  pub events : List (ClipNote F)
  pub muted : Bool

-- Conversion to an unsigned number of `w` bits
abbrev pub unsigned : ℕ → ℤ → ℕ
unsigned w (pos n) = n % 2 ^ w
unsigned w (negsuc n) = 2 ^ w - 1 - n % 2 ^ w

abbrev pub is_zero : ℤ → Bool
is_zero z = pos_part z == neg_part z

-- The parameters: the zero of `float` and the test `velo > 0`.
module _ {F : Type 0} (fzero : F) (positive : F → Bool) where
  unfoldable pub make_note_on : ℕ → ℕ → F → F → ℕ → MidiEvent F
  make_note_on chnl mkey velo tune nid = record {
    type = if positive velo then note_on else note_off;
    channel = chnl % 2 ^ 4;
    key = mkey;
    velocity = velo;
    tuning = tune;
    noteid = nid;
  }

  -- `ClipNote index = { .tick = a }`
  abbrev pub index_at : ℤ → ClipNote F
  index_at a = record {
    id = pos 0;
    channel = pos 0;
    key = pos 0;
    selected = false;
    tick = a;
    duration = pos 0;
    velocity = fzero;
    fine_tune = fzero;
  }

  -- The two calls of the receiver for a note, in the round that begins at `a` when `x` is played
  unfoldable pub note_calls : ℤ → ℤ → ClipNote F → List (ℤ × MidiEvent F)
  note_calls x a event =
      let midievent =
        make_note_on (unsigned 16 event.channel) (unsigned 8 event.key) event.velocity
          event.fine_tune (unsigned 32 event.id) in
      let noteon_tick = x +ℤ event.tick -ℤ a in
      (noteon_tick, midievent)
      ∷ (noteon_tick +ℤ event.duration, record midievent { type = note_off })
      ∷ []

  -- The loop over the notes from the one found by lookup_after
  unfoldable pub play_notes : ℤ → ℤ → ℤ → List (ClipNote F) → List (ℤ × MidiEvent F)
  play_notes x a b [] = []
  play_notes x a b (event ∷ events) =
      let rest = play_notes x a b events in
      if ltb_ℤ event.tick b then note_calls x a event ++ rest else []

  unfoldable pub notes_after : ℤ → List (ClipNote F) → List (ClipNote F)
  notes_after a events =
      drop
        (binary_lookup_insertion_pos (cmp_at cmp_note_ticks events (index_at a)) (length events)).0
        events

  -- "generate notes within [a,b)"
  unfoldable pub play_range : ℤ → ℤ → ℤ → Generator F → List (ℤ × MidiEvent F)
  play_range x a b g = if g.muted then [] else play_notes x a b (notes_after a g.events)

  unfoldable pub round_delta : ℕ → Generator F → ℕ
  round_delta ticks g =
      if ltb_ℤ g.itick (pos g.loop_end)
      then min ticks (pos_part (pos g.loop_end -ℤ g.itick))
      else ticks

  unfoldable pub wrap_loop : Generator F → Generator F
  wrap_loop g =
      if is_zero (g.itick -ℤ pos g.loop_end) then record g { itick = pos g.loop_start } else g

  unfoldable pub forward : ℕ → Generator F → Generator F
  forward delta g = record g { xtick = g.xtick +ℤ pos delta; itick = g.itick +ℤ pos delta }

  -- `while (ticks > 0)`, on fuel
  unfoldable pub play : ℕ → ℕ → Generator F → Generator F × List (ℤ × MidiEvent F)
  play zero ticks g = (g, [])
  play (suc fuel) ticks g =
      let delta = round_delta ticks g in
      let next = forward delta g in
      let rest = play fuel (ticks - delta) (wrap_loop next) in
      if ltb 0 ticks then (rest.0, play_range g.xtick g.itick next.itick g ++ rest.1) else (g, [])

  -- "consume delay": the ticks left, and the generator behind the delay
  unfoldable pub consume_delay : ℕ → Generator F → ℕ × Generator F
  consume_delay ticks g =
      let delta = min ticks (neg_part g.xtick) in
      let next = forward delta g in
      if ltb_ℤ g.xtick (pos 0)
      then (
        ticks - delta,
        if is_zero next.itick then record next { itick = pos g.start_offset } else next,
      )
      else (ticks, g)

  abbrev pub min_ℤ : ℤ → ℤ → ℤ
  min_ℤ a b = if ltb_ℤ b a then b else a

  -- The generator after it, the calls of the receiver, and the result
  unfoldable pub generate : ℤ → Generator F → Generator F × List (ℤ × MidiEvent F) × ℤ
  generate target_tick g =
      let ticks = pos_part (min_ℤ target_tick (pos g.last) -ℤ g.xtick) in
      let delayed = consume_delay ticks g in
      let played = play delayed.0 delayed.0 delayed.1 in
      if ltb_ℤ g.xtick (pos g.last) && ltb_ℤ g.xtick target_tick
      then (played.0, played.1, played.0.xtick -ℤ g.xtick)
      else (g, [], pos 0)

  -- The part of `jumpto` behind the external position `t`, with the loop's end ahead
  unfoldable pub jump_inside : ℕ → Generator F → Generator F
  jump_inside t g =
      let frag = min t (g.loop_end - g.start_offset) in
      let delta = t - frag in
      let i = g.start_offset + frag in
      if i == g.loop_end
      then record g {
        xtick = pos t;
        itick = pos (
            if ltb 0 delta
            then g.loop_start + delta % (g.loop_end - g.loop_start)
            else g.loop_start);
      }
      else record g { xtick = pos t; itick = pos i }

  unfoldable pub jumpto : ℤ → Generator F → Generator F
  jumpto (negsuc n) g = record g { xtick = negsuc n; itick = negsuc n }
  jumpto (pos n) g =
      let t = min n g.last in
      if not (ltb 0 t)
      then record g { xtick = pos t; itick = pos g.start_offset }
      else if leb g.loop_end g.start_offset
      then record g { xtick = pos t; itick = pos t }
      else jump_inside t g

  -- `bar_ticks` is what the time signature of the project answers.
  abbrev pub setup : ℕ → List (ClipNote F) → Generator F → Generator F
  setup bar_ticks notes g = record g {
    events = notes;
    muted = false;
    start_offset = 0;
    loop_start = 0;
    loop_end = bar_ticks * 2;
    last = 9007199254740992;
  }
