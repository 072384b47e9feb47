-- ===== src/Clip/Playback.antt =====
-- Playback by ClipImpl::Generator::generate (ase/clip.cc) in one block and in several.
use anklang.Prelude.{
  ℕ, zero, suc, ◌+◌, ◌-◌, ◌≤◌, ◌<◌, ◌≡◌, refl, sym, ap, ◌∙◌, Bool, true, false, not, ◌&&◌, arith,
  min, Bool-cases, ltb, leb, if◌then◌else◌, List, [], ◌∷◌, ◌++◌, ◌⊎◌, inl, inr,
}
use anklang.Prelude.Int.{ℤ, pos, pos_part, ◌+ℤ◌, ◌-ℤ◌, ◌≤ℤ◌, ltb_ℤ, int_laws}
use mathlib.Core.List.{append_assoc}
use anklang.EventList.Sorted.{IsSorted}
use anklang.Clip.Notes.{ClipNote, cmp_note_ticks}
use anklang.Clip.Generator.{
  MidiEvent, Generator, note_calls, play_range, round_delta, wrap_loop, forward, is_zero, play,
}
use anklang.Clip.Ranges.{
  AllPlayable, TicksAscend, calls_within, calls_within-none, play_notes-notes_after,
  IsSorted-TicksAscend, TicksFrom-TicksAscend,
}

shift_lem : (x t a : ℤ) (m : ℕ) → x +ℤ pos m +ℤ t -ℤ (a +ℤ pos m) ≡ x +ℤ t -ℤ a
shift_lem x t a m = omega int_laws

less_room : (b : ℕ) (i : ℤ) (m : ℕ) → pos_part (pos b -ℤ (i +ℤ pos m)) ≡ pos_part (pos b -ℤ i) - m
unfolding ◌+ℤ◌ ◌-ℤ◌
less_room b i m = ground arith

off_end :
    (b : ℕ) (i : ℤ) (m : ℕ)
    → 0 < m
    → (pos_part (pos b -ℤ i) ≡ 0) ⊎ (m < pos_part (pos b -ℤ i))
    → is_zero (i +ℤ pos m -ℤ pos b) ≡ false
unfolding ◌+ℤ◌ ◌-ℤ◌
off_end b i m h k = ground arith

module _ {F : Type 0} (fzero : F) (positive : F → Bool) where
  note_calls-shift :
      (x a : ℤ) (m : ℕ) (e : ClipNote F)
      → note_calls fzero positive (x +ℤ pos m) (a +ℤ pos m) e ≡ note_calls fzero positive x a e
  unfolding note_calls
  note_calls-shift x a m e =
      let same : x +ℤ pos m +ℤ e.tick -ℤ (a +ℤ pos m) ≡ x +ℤ e.tick -ℤ a = shift_lem x e.tick a m in
      rw same refl

  -- A range is played in two parts as it is in one.
  calls_within-split :
      (x y a c b : ℤ) (es : List (ClipNote F))
      → a ≤ℤ c
      → c ≤ℤ b
      → ((e : ClipNote F) → note_calls fzero positive y c e ≡ note_calls fzero positive x a e)
      → TicksAscend es
      → calls_within fzero positive x a b es
        ≡ calls_within fzero positive x a c es ++ calls_within fzero positive y c b es
  calls_within-split x y a c b [] h k same s = refl
  calls_within-split x y a c b (e ∷ es) h k same s =
      let ih = calls_within-split x y a c b es h k same (TicksFrom-TicksAscend e.tick es s) in
      elim (Bool-cases (ltb_ℤ e.tick a)) [
        | inl early ↦
            let early_c : ltb_ℤ e.tick c ≡ true = ground (arith, early, h) in rw (early, early_c) ih
        | inr n ↦ elim (Bool-cases (ltb_ℤ e.tick c)) [
          | inl here ↦
              let here_b : ltb_ℤ e.tick b ≡ true = ground (arith, here, k) in
              rw (n, here, here_b, ih) (sym (append_assoc (note_calls fzero positive x a e) _ _))
          | inr later ↦
              let later_c : c ≤ℤ e.tick = ground (arith, later) in
              let none_here = calls_within-none fzero positive x a c e.tick es later_c s in
              rw (n, later, none_here, same e, rw none_here at ih) refl
        ]
      ]

  -- A round over `d` ticks
  unfoldable pub after_round : ℕ → Generator F → Generator F
  after_round d g = wrap_loop fzero positive (forward fzero positive d g)

  unfoldable pub round_calls : ℕ → Generator F → List (ℤ × MidiEvent F)
  round_calls d g = play_range fzero positive g.xtick g.itick (g.itick +ℤ pos d) g

  pub play-round :
      (f t : ℕ) (g : Generator F)
      → 0 < t
      → let d = round_delta fzero positive t g in
        let rest = play fzero positive f (t - d) (after_round d g) in
        play fzero positive (suc f) t g ≡ (rest.0, round_calls d g ++ rest.1)
  unfolding play after_round round_calls forward
  play-round f t g h = let p : ltb 0 t ≡ true = ground arith in rw p refl

  pub play-idle : (f : ℕ) (g : Generator F) → play fzero positive f 0 g ≡ (g, [])
  unfolding play
  play-idle zero g = refl
  play-idle (suc f) g = refl

  pub round_delta_bounds :
      (t : ℕ) (g : Generator F)
      → 0 < t
      → (0 < round_delta fzero positive t g) × (round_delta fzero positive t g ≤ t)
  unfolding round_delta ◌-ℤ◌
  round_delta_bounds t g h = ground arith

  pub play-fuel :
      (f f' t : ℕ) (g : Generator F)
      → t ≤ f
      → t ≤ f'
      → play fzero positive f t g ≡ play fzero positive f' t g
  play-fuel f f' zero g h k = play-idle f g ∙ sym (play-idle f' g)
  play-fuel zero f' (suc t) g h k = absurd (omega arith)
  play-fuel (suc f) zero (suc t) g h k = absurd (omega arith)
  play-fuel (suc f) (suc f') (suc t) g h k =
      let d = round_delta fzero positive (suc t) g in
      let b = round_delta_bounds (suc t) g (omega arith) in
      let rest =
        play-fuel f f' (suc t - d) (after_round d g) (omega (arith, b)) (omega (arith, b)) in
      rw (play-round f (suc t) g (omega arith), play-round f' (suc t) g (omega arith), rest) refl

  -- The ticks up to the loop's end
  room : Generator F → ℕ
  room g = pos_part (pos g.loop_end -ℤ g.itick)

  round_delta-room :
      (t : ℕ) (g : Generator F)
      → round_delta fzero positive t g ≡ (if ltb 0 (room g) then min t (room g) else t)
  unfolding round_delta room ◌-ℤ◌
  round_delta-room t g = ground arith

  room-forward : (m : ℕ) (g : Generator F) → room (forward fzero positive m g) ≡ room g - m
  unfolding room forward
  room-forward m g = less_room g.loop_end g.itick m

  after_round-forward :
      (m : ℕ) (g : Generator F)
      → 0 < m
      → (room g ≡ 0) ⊎ (m < room g)
      → after_round m g ≡ forward fzero positive m g
  unfolding after_round wrap_loop forward room
  after_round-forward m g h k =
      let off : is_zero (g.itick +ℤ pos m -ℤ pos g.loop_end) ≡ false =
        off_end g.loop_end g.itick m h k in
      rw off refl

  -- A round within `m` ticks, or one that passes them and stays in the loop
  pub round_delta-cases :
      (m n : ℕ) (g : Generator F)
      → 0 < m
      → let d = round_delta fzero positive in
        (d (m + n) g ≡ d m g)
        ⊎ ((d m g ≡ m)
            × (after_round m g ≡ forward fzero positive m g)
            × (0 < n)
            × (d (m + n) g ≡ m + d n (forward fzero positive m g)))
  round_delta-cases m n g h =
      rw
        (
          round_delta-room m g,
          round_delta-room (m + n) g,
          round_delta-room n (forward fzero positive m g),
          room-forward m g,
        )
        (elim (Bool-cases (ltb 0 n && not (ltb 0 (room g) && leb (room g) m))) [
          | inl passes ↦
              inr
                (ground arith, after_round-forward m g h (ground arith), ground arith, ground arith)
          | inr q ↦ inl (ground arith)
        ])

  pub forward-forward :
      (m d : ℕ) (g : Generator F)
      → forward fzero positive d (forward fzero positive m g) ≡ forward fzero positive (m + d) g
  unfolding forward
  forward-forward m d g =
      let sum_of : (z : ℤ) → z +ℤ pos m +ℤ pos d ≡ z +ℤ pos (m + d) = λ z. omega int_laws in
      rw (sum_of g.xtick, sum_of g.itick) refl

  pub after_round-add :
      (m d : ℕ) (g : Generator F)
      → after_round (m + d) g ≡ after_round d (forward fzero positive m g)
  unfolding after_round
  after_round-add m d g = ap (wrap_loop fzero positive) (sym (forward-forward m d g))

  abbrev pub Plays : Generator F → Type 0
  Plays g = IsSorted cmp_note_ticks g.events × AllPlayable g.events

  pub round_calls-split :
      (m d : ℕ) (g : Generator F)
      → Plays g
      → round_calls (m + d) g ≡ round_calls m g ++ round_calls d (forward fzero positive m g)
  unfolding round_calls play_range forward
  round_calls-split m d g p = elim (Bool-cases g.muted) [
    | inl q ↦ rw q refl
    | inr q ↦
        let whole : g.itick +ℤ pos (m + d) ≡ g.itick +ℤ pos m +ℤ pos d = omega int_laws in
        rw
          (
            q,
            whole,
            play_notes-notes_after fzero positive g.xtick g.itick (g.itick +ℤ pos m +ℤ pos d)
                g.events p.0 p.1,
            play_notes-notes_after fzero positive g.xtick g.itick (g.itick +ℤ pos m) g.events p.0
                p.1,
            play_notes-notes_after fzero positive (g.xtick +ℤ pos m) (g.itick +ℤ pos m)
                (g.itick +ℤ pos m +ℤ pos d) g.events p.0 p.1,
          )
          (calls_within-split g.xtick (g.xtick +ℤ pos m) g.itick (g.itick +ℤ pos m)
            (g.itick +ℤ pos m +ℤ pos d) g.events (omega int_laws) (omega int_laws)
            (note_calls-shift g.xtick g.itick m) (IsSorted-TicksAscend g.events p.0))
  ]

  pub after_round-Plays : (d : ℕ) (g : Generator F) → Plays g → Plays (after_round d g)
  unfolding after_round wrap_loop forward
  after_round-Plays d g p = elim (Bool-cases (is_zero (g.itick +ℤ pos d -ℤ pos g.loop_end))) [
    | inl q ↦ rw q p
    | inr q ↦ rw q p
  ]
