-- ===== src/Transport/Signature.antt =====
-- TickSignature (ase/transport.cc): the time signature and its ticks, from the start on. `offset_` is the constant 0.
-- beat_ticks_, bar_ticks_ and bar_reminder are int32: a value is kept as its 32 bits, so that one from 2^31 on stands
-- for a negative number.
use anklang.Prelude.{
  ℕ, ◌-◌, ◌*◌, ◌/◌, ◌%◌, ◌^◌, min, max, Bool, not, ◌||◌, ltb, ◌==◌, if◌then◌else◌,
}
use anklang.Prelude.Int.{ℤ, pos, negsuc}
use anklang.Prelude.Words.{u32}

abbrev pub semiquaver_ticks : ℕ
semiquaver_ticks = 4838400 / 4

-- The conversion to a signed integer with values below `half`
unfoldable pub to_signed : ℕ → ℕ → ℤ
to_signed half n = let m = n % (2 * half) in if ltb m half then pos m else negsuc (2 * half - 1 - m)

pub record TickSignature : Type 0 where
  pub beats_per_bar : ℕ
  pub beat_unit : ℕ
  pub beat_ticks : ℕ
  pub bar_ticks : ℕ

abbrev pub is_beat_unit : ℕ → Bool
is_beat_unit unit = (unit == 1) || ((unit == 2) || ((unit == 4) || ((unit == 8) || (unit == 16))))

-- The members' initializers, before the constructor calls set_signature
abbrev pub unset : TickSignature
unset = record { beats_per_bar = 4; beat_unit = 4; beat_ticks = 0; bar_ticks = 0 }

-- The signature, and whether it is another one
unfoldable pub set_signature : ℕ → ℕ → TickSignature → TickSignature × Bool
set_signature beats_per_bar beat_unit sig =
    let beats = min (max beats_per_bar 1) 64 in
    let unit = if is_beat_unit beat_unit then beat_unit else sig.beat_unit in
    let beat_ticks = u32 (semiquaver_ticks * (16 / unit)) in
    (
      record {
        beats_per_bar = beats;
        beat_unit = unit;
        beat_ticks = beat_ticks;
        bar_ticks = u32 (beat_ticks * beats);
      },
      not (sig.beats_per_bar == beats) || not (sig.beat_unit == unit),
    )

pub record Beat (S : Type 0) : Type 0 where
  pub bar : ℤ
  pub beat : ℤ
  pub semiquaver : S

-- The parameter gives the semiquavers of some ticks, a double.
unfoldable pub beat_from_tick : {S : Type 0} → (ℕ → S) → TickSignature → ℕ → Beat S
beat_from_tick semiquavers sig tick =
    let bar_reminder = u32 (tick % sig.bar_ticks) in
    record {
      bar = to_signed (2 ^ 31) (tick / sig.bar_ticks);
      beat = to_signed (2 ^ 7) (bar_reminder / sig.beat_ticks);
      semiquaver = semiquavers (bar_reminder % sig.beat_ticks);
    }

unfoldable pub bar_from_tick : TickSignature → ℕ → ℤ
bar_from_tick sig tick = to_signed (2 ^ 31) (tick / sig.bar_ticks)

unfoldable pub bar_to_tick : TickSignature → ℕ → ℕ
bar_to_tick sig bar = bar * sig.bar_ticks
