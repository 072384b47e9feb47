-- ===== src/Transport/Position.antt =====
-- Signatures and positions in bars (ase/transport.cc).
use anklang.Prelude.{
  ℕ, ◌+◌, ◌*◌, ◌/◌, ◌%◌, ◌^◌, ◌≤◌, ◌<◌, min, max, ◌≡◌, refl, ◌⊎◌, inl, inr, true, arith, ℕ_discrete,
  ltb, if◌then◌else◌, Bool-cases,
}
use native.Mathlib.Nat.{
  mod-lt, mod-eq_of_lt, div-add-mod, div-lt_iff_lt-mul, mul-le-mul, mul-div_cancel, mul_comm,
}
use anklang.Prelude.Int.{pos}
use anklang.Prelude.Words.{u32_small}
use anklang.Transport.Signature.{
  semiquaver_ticks, to_signed, TickSignature, is_beat_unit, set_signature, Beat, beat_from_tick,
  bar_from_tick, bar_to_tick,
}

-- A signature as set_signature leaves it: no tick count overflows an int32.
record IsValid (sig : TickSignature) : Type 0 where
  pub beats_from : 1 ≤ sig.beats_per_bar
  pub beats_to : sig.beats_per_bar ≤ 64
  pub unit : is_beat_unit sig.beat_unit ≡ true
  pub beat_ticks : sig.beat_ticks * sig.beat_unit ≡ 4 * 4838400
  pub bar_ticks : sig.bar_ticks ≡ sig.beat_ticks * sig.beats_per_bar
  pub no_overflow : sig.bar_ticks < 2 ^ 31

unit-cases :
    (unit : ℕ)
    → is_beat_unit unit ≡ true
    → (unit ≡ 1) ⊎ ((unit ≡ 2) ⊎ ((unit ≡ 4) ⊎ ((unit ≡ 8) ⊎ (unit ≡ 16))))
unit-cases unit h = ground arith

ticks_of :
    (unit : ℕ)
    → is_beat_unit unit ≡ true
    → (semiquaver_ticks * (16 / unit) * unit ≡ 4 * 4838400)
      × (semiquaver_ticks * (16 / unit) ≤ 19353600)
ticks_of unit h = elim (unit-cases unit h) [
  | inl e ↦ rw e (refl, omega arith)
  | inr (inl e) ↦ rw e (refl, omega arith)
  | inr (inr (inl e)) ↦ rw e (refl, omega arith)
  | inr (inr (inr (inl e))) ↦ rw e (refl, omega arith)
  | inr (inr (inr (inr e))) ↦ rw e (refl, omega arith)
]

set_signature-IsValid :
    (beats unit : ℕ) (sig : TickSignature)
    → is_beat_unit sig.beat_unit ≡ true
    → IsValid (set_signature beats unit sig).0
unfolding set_signature
set_signature-IsValid beats unit sig h =
    let unit' = if is_beat_unit unit then unit else sig.beat_unit in
    let known : is_beat_unit unit' ≡ true = elim (Bool-cases (is_beat_unit unit)) [
      | inl q ↦ rw (q, q) refl
      | inr q ↦ rw q h
    ] in
    let (whole, small) = ticks_of unit' known in
    let beats_to : min (max beats 1) 64 ≤ 64 = omega arith in
    let beat_same = u32_small (semiquaver_ticks * (16 / unit')) (omega (arith, small)) in
    let product = mul-le-mul small beats_to in
    let bar_same =
      u32_small (semiquaver_ticks * (16 / unit') * min (max beats 1) 64) (omega (arith, product)) in
    record {
      beats_from = omega arith;
      beats_to = beats_to;
      unit = known;
      beat_ticks = rw beat_same whole;
      bar_ticks = rw beat_same bar_same;
      no_overflow = rw (beat_same, bar_same) (omega (arith, product));
    }

to_signed-small : (half n : ℕ) → n < half → to_signed half n ≡ pos n
unfolding to_signed
to_signed-small half n h =
    let small : n < 2 * half = omega (arith, h) in
    let same = mod-eq_of_lt small in
    let low : ltb n half ≡ true = ground arith in rw (same, low) refl

-- A position: bars, beats in a bar, and ticks in a beat, where the tick counts of a beat and of a bar are whole
-- and, like the ticks past the last bar, a positive int32
pub record IsAt {S : Type 0} (semiquavers : ℕ → S) (sig : TickSignature) (tick : ℕ) (b : Beat S)
    : Type 0 where
  pub bars : ℕ
  pub beats : ℕ
  pub ticks : ℕ
  pub sums : bars * sig.bar_ticks + (beats * sig.beat_ticks + ticks) ≡ tick
  pub beats_lt : beats < sig.beats_per_bar
  pub ticks_lt : ticks < sig.beat_ticks
  pub beat_whole : sig.beat_ticks * sig.beat_unit ≡ 4 * 4838400
  pub bar_whole : sig.bar_ticks ≡ sig.beat_ticks * sig.beats_per_bar
  pub bar_fits : sig.bar_ticks < 2 ^ 31
  pub reminder_fits : beats * sig.beat_ticks + ticks < sig.bar_ticks
  pub is_bar : b.bar ≡ pos bars
  pub is_beat : b.beat ≡ pos beats
  pub is_semiquaver : b.semiquaver ≡ semiquavers ticks

beat_ticks_pos : (sig : TickSignature) → IsValid sig → 0 < sig.beat_ticks
beat_ticks_pos sig v = elim (ℕ_discrete sig.beat_ticks 0) [
  | yes e ↦ absurd (omega (arith, rw e at (v.beat_ticks)))
  | no n ↦ omega (arith, n)
]

bar_ticks_pos : (sig : TickSignature) → IsValid sig → 0 < sig.bar_ticks
bar_ticks_pos sig v =
    rw (v.bar_ticks) (omega (arith, mul-le-mul (beat_ticks_pos sig v) (v.beats_from)))

-- For any arguments of set_signature, on a signature with a beat unit of 1, 2, 4, 8 or 16, and a
-- tick from 0 up to 2^31 bars: beat_from_tick gives bars, beats and ticks that sum up to the
-- tick, where the beats are fewer than a bar has and the ticks fewer than a beat has. The
-- signature's ticks of a beat times its beat unit are four times 4838400, its ticks of a bar are
-- all those of its beats, and the ticks of a bar, and with them the ticks behind the bars, are
-- below 2^31.
pub beat_from_tick-IsAt :
    {S : Type 0} (semiquavers : ℕ → S) (beats unit : ℕ) (sig : TickSignature) (tick : ℕ)
    → is_beat_unit sig.beat_unit ≡ true
    → let set = (set_signature beats unit sig).0 in
      tick < 2 ^ 31 * set.bar_ticks
      → IsAt semiquavers set tick (beat_from_tick semiquavers set tick)
unfolding beat_from_tick
beat_from_tick-IsAt semiquavers beats unit sig tick h k =
    let set = (set_signature beats unit sig).0 in
    let v = set_signature-IsValid beats unit sig h in
    let bar_pos = bar_ticks_pos set v in
    let beat_pos = beat_ticks_pos set v in
    let reminder = tick % set.bar_ticks in
    let below : reminder < set.bar_ticks = mod-lt tick bar_pos in
    let same = u32_small reminder (omega (arith, below, v.no_overflow)) in
    let inside : reminder < set.beats_per_bar * set.beat_ticks =
      rw (← mul_comm set.beat_ticks set.beats_per_bar, ← v.bar_ticks) below in
    let beats_lt : reminder / set.beat_ticks < set.beats_per_bar =
      (div-lt_iff_lt-mul beat_pos).1 inside in
    let bars_lt : tick / set.bar_ticks < 2 ^ 31 = (div-lt_iff_lt-mul bar_pos).1 k in
    record {
      bars = tick / set.bar_ticks;
      beats = reminder / set.beat_ticks;
      ticks = reminder % set.beat_ticks;
      sums =
          rw
            (
              mul_comm (reminder / set.beat_ticks) set.beat_ticks,
              div-add-mod reminder set.beat_ticks,
              mul_comm (tick / set.bar_ticks) set.bar_ticks,
            )
            (div-add-mod tick set.bar_ticks);
      beats_lt = beats_lt;
      ticks_lt = mod-lt reminder beat_pos;
      beat_whole = v.beat_ticks;
      bar_whole = v.bar_ticks;
      bar_fits = v.no_overflow;
      reminder_fits =
          rw
            (
              mul_comm (reminder / set.beat_ticks) set.beat_ticks,
              div-add-mod reminder set.beat_ticks,
            )
            below;
      is_bar = to_signed-small (2 ^ 31) (tick / set.bar_ticks) bars_lt;
      is_beat = rw same (
          to_signed-small (2 ^ 7) (reminder / set.beat_ticks)
            (omega (arith, beats_lt, v.beats_to)));
      is_semiquaver = rw same refl;
    }

bar_from_tick-bar_to_tick :
    (sig : TickSignature) (bar : ℕ)
    → IsValid sig
    → bar < 2 ^ 31
    → bar_from_tick sig (bar_to_tick sig bar) ≡ pos bar
unfolding bar_from_tick bar_to_tick
bar_from_tick-bar_to_tick sig bar v h =
    rw (mul-div_cancel bar (bar_ticks_pos sig v)) (to_signed-small (2 ^ 31) bar h)
