-- ===== src/Clip/Blocks.antt =====
-- Playback of a clip in blocks (ase/clip.cc: ClipImpl::Generator::generate).
use mathlib.Core.List.{append_assoc, append-nil}
use anklang.Prelude.{
  ℕ, zero, suc, ◌+◌, ◌-◌, ◌≤◌, ◌≡◌, refl, Bool, false, ◌&&◌, arith, Bool-cases, ltb, if◌then◌else◌,
  List, ◌++◌, ◌⊎◌, inl, inr,
}
use anklang.Prelude.Int.{ℤ, pos, negsuc, pos_part, neg_part, ◌+ℤ◌, ◌-ℤ◌, ◌≤ℤ◌, ltb_ℤ, int_laws}
use anklang.Clip.Generator.{
  MidiEvent, Generator, round_delta, wrap_loop, forward, play, consume_delay, min_ℤ, generate,
  is_zero,
}
use anklang.Clip.Playback.{
  after_round, round_calls, play-round, play-idle, round_delta_bounds, play-fuel, round_delta-cases,
  after_round-add, round_calls-split, after_round-Plays, Plays,
}

guard_lem :
    (t : ℤ) (l : ℕ) (x : ℤ)
    → (ltb_ℤ x (pos l) && ltb_ℤ x t)
      ≡ ltb 0 (pos_part ((if ltb_ℤ (pos l) t then pos l else t) -ℤ x))
unfolding ◌-ℤ◌
guard_lem t l x = ground arith

sub_lem :
    (a b x : ℤ)
    → a ≤ℤ b
    → pos_part (b -ℤ x) ≡ pos_part (a -ℤ x) + pos_part (b -ℤ (x +ℤ pos (pos_part (a -ℤ x))))
sub_lem a b x h = elim (part_cases (a -ℤ x)) [
  | inl q ↦
      omega (int_laws, q, part_cases (b -ℤ x), part_cases (b -ℤ (x +ℤ pos (pos_part (a -ℤ x)))))
  | inr q ↦
      omega (int_laws, q, part_cases (b -ℤ x), part_cases (b -ℤ (x +ℤ pos (pos_part (a -ℤ x)))))
]
  where
    part_cases : (z : ℤ) → (pos_part z ≡ 0) ⊎ (neg_part z ≡ 0)
    part_cases (pos n) = inr refl
    part_cases (negsuc n) = inl refl

min_lem :
    (s t : ℤ) (l : ℕ)
    → s ≤ℤ t
    → (if ltb_ℤ (pos l) s then pos l else s) ≤ℤ (if ltb_ℤ (pos l) t then pos l else t)
min_lem s t l h = ground arith

ticks_lem :
    (s t : ℤ) (l : ℕ) (x : ℤ)
    → s ≤ℤ t
    → let ticks = λ (e y : ℤ). pos_part ((if ltb_ℤ (pos l) e then pos l else e) -ℤ y) in
      ticks t x ≡ ticks s x + ticks t (x +ℤ pos (ticks s x))
ticks_lem s t l x h = sub_lem _ _ x (min_lem s t l h)

counts_lem : (t x : ℤ) → x ≤ℤ t → pos (pos_part (t -ℤ x)) ≡ t -ℤ x
unfolding ◌-ℤ◌
counts_lem t x h = ground arith

-- One playback and then another
abbrev pub then_play :
    {F : Type 0}
    → (Generator F → Generator F × List (ℤ × MidiEvent F))
    → Generator F × List (ℤ × MidiEvent F)
    → Generator F × List (ℤ × MidiEvent F)
then_play next r = ((next r.0).0, r.1 ++ (next r.0).1)

module _ {F : Type 0} (fzero : F) (positive : F → Bool) where
  -- Playback that is interrupted after `m` ticks
  pub play-append :
      (f m n : ℕ) (g : Generator F)
      → m + n ≤ f
      → Plays fzero positive g
      → play fzero positive f (m + n) g
        ≡ then_play (play fzero positive f n) (play fzero positive f m g)
  play-append f zero n g h p =
      let none_first : 0 + n ≡ n = omega arith in rw (none_first, play-idle fzero positive f g) refl
  play-append zero (suc m') n g h p = absurd (omega arith)
  play-append (suc f) (suc m') n g h p =
      elim (round_delta-cases fzero positive (suc m') n g (omega arith)) [
        | inl same ↦
            let m = suc m' in
            let d = round_delta fzero positive m g in
            let b = round_delta_bounds fzero positive m g (omega arith) in
            let left : m + n - d ≡ m - d + n = omega (arith, b) in
            let ih =
              play-append f (m - d) n (after_round fzero positive d g) (omega (arith, b))
                (after_round-Plays fzero positive d g p) in
            let fuel =
              play-fuel fzero positive (suc f) f n
                (play fzero positive f (m - d) (after_round fzero positive d g)).0 (omega arith)
                (omega arith) in
            rw
              (
                play-round fzero positive f (m + n) g (omega arith),
                play-round fzero positive f m g (omega arith),
                same,
                left,
                ih,
                fuel,
                append_assoc (round_calls fzero positive d g),
              )
              refl
        | inr (all, stays, more, longer) ↦
            let m = suc m' in
            let next = forward fzero positive m g in
            let d = round_delta fzero positive n next in
            let left : m + n - (m + d) ≡ n - d = omega arith in
            let idle : m - m ≡ 0 = omega arith in
            let same = after_round-add fzero positive m d g in
            rw
              (
                play-round fzero positive f (m + n) g (omega arith),
                longer,
                left,
                same,
                round_calls-split fzero positive m d g p,
                play-round fzero positive f m g (omega arith),
                all,
                idle,
                play-idle fzero positive f (after_round fzero positive m g),
                stays,
                play-round fzero positive f n next more,
                append-nil (round_calls fzero positive m g),
                append_assoc (round_calls fzero positive m g),
              )
              refl
      ]

  after_round-xtick :
      (d : ℕ) (g : Generator F)
      → ((after_round fzero positive d g).xtick ≡ g.xtick +ℤ pos d)
        × ((after_round fzero positive d g).last ≡ g.last)
  unfolding after_round wrap_loop forward
  after_round-xtick d g = elim (Bool-cases (is_zero (g.itick +ℤ pos d -ℤ pos g.loop_end))) [
    | inl q ↦ rw q (refl, refl)
    | inr q ↦ rw q (refl, refl)
  ]

  pub play-xtick :
      (f t : ℕ) (g : Generator F)
      → t ≤ f
      → ((play fzero positive f t g).0.xtick ≡ g.xtick +ℤ pos t)
        × ((play fzero positive f t g).0.last ≡ g.last)
  play-xtick f zero g h = rw (play-idle fzero positive f g) (omega int_laws, refl)
  play-xtick zero (suc t') g h = absurd (omega arith)
  play-xtick (suc f) (suc t') g h =
      let t = suc t' in
      let d = round_delta fzero positive t g in
      let b = round_delta_bounds fzero positive t g (omega arith) in
      let ih = play-xtick f (t - d) (after_round fzero positive d g) (omega (arith, b)) in
      let moved = after_round-xtick d g in
      let sum_of : g.xtick +ℤ pos d +ℤ pos (t - d) ≡ g.xtick +ℤ pos t = omega (int_laws, b) in
      rw (play-round fzero positive f t g (omega arith), ih.0, ih.1, moved.0, moved.1)
        (sum_of, refl)

  -- The ticks from the position up to `t`, or to the end
  abbrev pub ticks_to : ℤ → Generator F → ℕ
  ticks_to t g = pos_part (min_ℤ fzero positive t (pos g.last) -ℤ g.xtick)

  -- Without a delay
  pub generate-play :
      (t : ℤ) (g : Generator F)
      → pos 0 ≤ℤ g.xtick
      → let r = play fzero positive (ticks_to t g) (ticks_to t g) g in
        generate fzero positive t g ≡ (r.0, r.1, pos (ticks_to t g))
  unfolding generate consume_delay
  generate-play t g h =
      let now : ltb_ℤ g.xtick (pos 0) ≡ false = ground arith in
      rw now (elim (Bool-cases (ltb 0 (ticks_to t g))) [
        | inl some_left ↦
            let moved = (play-xtick (ticks_to t g) (ticks_to t g) g (omega arith)).0 in
            let guard = guard_lem t g.last g.xtick in
            let counts : g.xtick +ℤ pos (ticks_to t g) -ℤ g.xtick ≡ pos (ticks_to t g) =
              omega int_laws in
            rw (guard, some_left, moved, counts) refl
        | inr done ↦
            let guard = guard_lem t g.last g.xtick in
            let none_left : ticks_to t g ≡ 0 = ground arith in
            rw (guard, none_left, play-idle fzero positive 0 g) refl
      ])

  -- What two calls do, one after the other
  abbrev pub generate_twice : ℤ → ℤ → Generator F → Generator F × List (ℤ × MidiEvent F) × ℤ
  generate_twice t1 t2 g =
      let r = generate fzero positive t1 g in
      let q = generate fzero positive t2 r.0 in (q.0, r.1 ++ q.1, r.2 +ℤ q.2)

  -- For a clip whose notes are sorted by ticks and have no negative id, channel or key, and a
  -- position that is no delay: playing up to a tick does in one call what it does in two calls,
  -- up to an earlier tick and then up to it: the same calls of the receiver, the same state,
  -- and the results add up.
  pub generate-in_blocks :
      (t1 t2 : ℤ) (g : Generator F)
      → Plays fzero positive g
      → pos 0 ≤ℤ g.xtick
      → t1 ≤ℤ t2
      → generate fzero positive t2 g ≡ generate_twice t1 t2 g
  generate-in_blocks t1 t2 g p h k =
      let n = ticks_to t1 g in
      let r = play fzero positive n n g in
      let moved = play-xtick n n g (omega arith) in
      let later : pos 0 ≤ℤ r.0.xtick = rw (moved.0) (omega int_laws) in
      let m = ticks_to t2 r.0 in
      let sum_of : ticks_to t2 g ≡ n + m =
        rw (moved.0, moved.1) (ticks_lem t1 t2 g.last g.xtick k) in
      let total : pos n +ℤ pos m ≡ pos (n + m) = omega int_laws in
      rw
        (
          generate-play t1 g h,
          generate-play t2 r.0 later,
          generate-play t2 g h,
          sum_of,
          play-append (n + m) n m g (omega arith) p,
          play-fuel fzero positive (n + m) n n g (omega arith) (omega arith),
          play-fuel fzero positive (n + m) m m r.0 (omega arith) (omega arith),
          total,
        )
        refl

  -- For a position that is no delay and a tick from it up to the end of playback: generate gets
  -- to that very tick within its fuel, and the result is the number of ticks played.
  pub generate-reaches :
      (t : ℤ) (g : Generator F)
      → pos 0 ≤ℤ g.xtick
      → g.xtick ≤ℤ t
      → t ≤ℤ pos g.last
      → let r = generate fzero positive t g in (r.0.xtick ≡ t) × (r.2 ≡ t -ℤ g.xtick)
  generate-reaches t g h k l =
      let n = ticks_to t g in
      let moved = (play-xtick n n g (omega arith)).0 in
      let to_end : ltb_ℤ (pos g.last) t ≡ false = ground arith in
      let counts = counts_lem t g.xtick k in
      rw (generate-play t g h, moved, to_end, counts) (omega int_laws, refl)
