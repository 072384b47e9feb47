-- ===== src/Clip/Jump.antt =====
-- ClipImpl::Generator::jumpto against playback (ase/clip.cc).
use native.Mathlib.Nat.{mod-eq_of_lt, add-mod_right, zero-mod}
use anklang.Prelude.{
  ℕ, zero, suc, ◌+◌, ◌-◌, ◌%◌, ◌≤◌, ◌<◌, ◌≡◌, refl, sym, ap, ◌∙◌, Bool, true, false, arith, min,
  Bool-cases, ltb, leb, ◌==◌, if◌then◌else◌, inl, inr,
}
use anklang.Prelude.Int.{pos, pos_part, ◌+ℤ◌, ◌-ℤ◌, ltb_ℤ}
use anklang.Clip.Generator.{
  Generator, round_delta, wrap_loop, forward, play, generate, jumpto, jump_inside,
}
use anklang.Clip.Playback.{after_round, play-round, play-idle}
use anklang.Clip.Blocks.{generate-play}

abbrev at : {F : Type 0} → ℕ → ℕ → Generator F → Generator F
at x i g = record g { xtick = pos x; itick = pos i }

-- The position in the clip `n` ticks after `i`
abbrev loop_at : {F : Type 0} → Generator F → ℕ → ℕ → ℕ
loop_at g i n =
    if ltb n (g.loop_end - i)
    then i + n
    else g.loop_start + (n - (g.loop_end - i)) % (g.loop_end - g.loop_start)

once_more : (s k l : ℕ) → 0 < l → (if ltb k l then s + k else s + (k - l) % l) ≡ s + k % l
once_more s k l h = elim (Bool-cases (ltb k l)) [
  | inl q ↦ let same : k % l ≡ k = mod-eq_of_lt (ground arith) in rw (q, same) refl
  | inr q ↦
      let split : k - l + l ≡ k = ground arith in
      let same : (k - l) % l ≡ k % l = sym (add-mod_right (k - l) l) ∙ ap (λ t. t % l) split in
      rw (q, same) refl
]

to_last : (t l : ℕ) → pos_part ((if ltb_ℤ (pos l) (pos t) then pos l else pos t) -ℤ pos 0) ≡ min t l
unfolding ◌-ℤ◌
to_last t l = ground arith

module _ {F : Type 0} (fzero : F) (positive : F → Bool) where
  round_delta-at :
      (n x i : ℕ) (g : Generator F)
      → i < g.loop_end
      → round_delta fzero positive n (at x i g) ≡ min n (g.loop_end - i)
  unfolding round_delta ◌-ℤ◌
  round_delta-at n x i g h = ground arith

  after_round-at :
      (d x i : ℕ) (g : Generator F)
      → after_round fzero positive d (at x i g)
        ≡ at (x + d) (if i + d == g.loop_end then g.loop_start else i + d) g
  unfolding after_round wrap_loop forward ◌+ℤ◌ ◌-ℤ◌
  after_round-at d x i g = ground arith

  loop_at-again :
      (i n : ℕ) (g : Generator F)
      → i < g.loop_end
      → g.loop_start < g.loop_end
      → g.loop_end - i ≤ n
      → loop_at g g.loop_start (n - (g.loop_end - i)) ≡ loop_at g i n
  loop_at-again i n g h k l =
      let late : ltb n (g.loop_end - i) ≡ false = ground arith in
      rw late
        (once_more g.loop_start (n - (g.loop_end - i)) (g.loop_end - g.loop_start) (omega arith))

  play-at :
      (f n x i : ℕ) (g : Generator F)
      → n ≤ f
      → i < g.loop_end
      → g.loop_start < g.loop_end
      → (play fzero positive f n (at x i g)).0 ≡ at (x + n) (loop_at g i n) g
  play-at f zero x i g h k l =
      let room : ltb 0 (g.loop_end - i) ≡ true = ground arith in
      let x0 : x + 0 ≡ x = omega arith in
      let i0 : i + 0 ≡ i = omega arith in
      rw (play-idle fzero positive f (at x i g), room, x0, i0) refl
  play-at zero (suc n') x i g h k l = absurd (omega arith)
  play-at (suc f) (suc n') x i g h k l =
      let n = suc n' in
      let room = g.loop_end - i in
      let round = play-round fzero positive f n (at x i g) (omega arith) in
      elim (Bool-cases (ltb n room)) [
        | inl short ↦
            let all : min n room ≡ n = ground arith in
            let idle : n - n ≡ 0 = omega arith in
            let inside : (i + n == g.loop_end) ≡ false = ground arith in
            rw
              (
                round,
                round_delta-at n x i g k,
                all,
                idle,
                play-idle fzero positive f (after_round fzero positive n (at x i g)),
                after_round-at n x i g,
                inside,
                short,
              )
              refl
        | inr long ↦
            let some_left : min n room ≡ room = ground arith in
            let wraps : (i + room == g.loop_end) ≡ true = ground arith in
            let total : x + room + (n - room) ≡ x + n = ground arith in
            rw
              (
                round,
                round_delta-at n x i g k,
                some_left,
                after_round-at room x i g,
                wraps,
                play-at f (n - room) (x + room) g.loop_start g (omega arith) l l,
                total,
                loop_at-again i n g k l (ground arith),
              )
              refl
      ]

  jump_inside-at :
      (t : ℕ) (g : Generator F)
      → g.start_offset < g.loop_end
      → jump_inside fzero positive t g ≡ at t (loop_at g g.start_offset t) g
  unfolding jump_inside
  jump_inside-at t g h =
      let room = g.loop_end - g.start_offset in
      elim (Bool-cases (ltb t room)) [
        | inl short ↦
            let all : min t room ≡ t = ground arith in
            let inside : (g.start_offset + t == g.loop_end) ≡ false = ground arith in
            rw (short, all, inside) refl
        | inr long ↦
            let some_left : min t room ≡ room = ground arith in
            let wraps : (g.start_offset + room == g.loop_end) ≡ true = ground arith in
            rw (long, some_left, wraps)
              (elim (Bool-cases (ltb 0 (t - room))) [
                | inl more ↦ rw more refl
                | inr done ↦
                    let none_left : t - room ≡ 0 = ground arith in
                    let start : g.loop_start + 0 ≡ g.loop_start = omega arith in
                    rw (done, none_left, zero-mod (g.loop_end - g.loop_start), start) refl
              ])
      ]

  -- Where the start and the loop's start lie before the loop's end, a jump to a tick sets the
  -- very state that playback from a jump to tick 0 gets to.
  pub jumpto-generate :
      (t : ℕ) (g : Generator F)
      → g.start_offset < g.loop_end
      → g.loop_start < g.loop_end
      → jumpto fzero positive (pos t) g
        ≡ (generate fzero positive (pos t) (jumpto fzero positive (pos 0) g)).0
  unfolding jumpto
  jumpto-generate t g h k =
      let n = min t g.last in
      let begin : min 0 g.last ≡ 0 = ground arith in
      let played = generate-play fzero positive (pos t) (at 0 g.start_offset g) (omega arith) in
      rw (begin, played, to_last t g.last, play-at n n 0 g.start_offset g (omega arith) h k)
        (elim (Bool-cases (ltb 0 n)) [
          | inl forth ↦
              let in_loop : leb g.loop_end g.start_offset ≡ false = ground arith in
              let total : 0 + n ≡ n = omega arith in
              rw (forth, in_loop, jump_inside-at n g h, total) refl
          | inr stays ↦
              let none_left : n ≡ 0 = ground arith in
              let room : ltb 0 (g.loop_end - g.start_offset) ≡ true = ground arith in
              let start : g.start_offset + 0 ≡ g.start_offset = omega arith in
              rw (stays, none_left, room, start) refl
        ])
