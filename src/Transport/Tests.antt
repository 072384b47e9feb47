-- ===== src/Transport/Tests.antt =====
-- A signature of 6/8 (ase/transport.cc).
use anklang.Prelude.{◌*◌, ◌^◌, ◌<◌, ◌≡◌, refl, arith}
use anklang.Prelude.Int.{pos}
use anklang.Transport.Signature.{TickSignature, unset, set_signature, to_signed, beat_from_tick}
use anklang.Transport.Position.{IsAt, beat_from_tick-IsAt}

abbrev six_eight : TickSignature
six_eight = (set_signature 6 8 unset).0

six_eight_ticks :
    six_eight
    ≡ record { beats_per_bar = 6; beat_unit = 8; beat_ticks = 2419200; bar_ticks = 14515200 }
unfolding set_signature
six_eight_ticks = refl

position :
    beat_from_tick (λ r. r) six_eight 20000000
    ≡ record { bar = pos 1; beat = pos 2; semiquaver = 646400 }
unfolding beat_from_tick set_signature to_signed
position = refl

small_tick : 20000000 < 2 ^ 31 * six_eight.bar_ticks
unfolding set_signature
small_tick = omega arith

beat_from_tick-IsAt_example :
    IsAt (λ r. r) six_eight 20000000 (beat_from_tick (λ r. r) six_eight 20000000)
beat_from_tick-IsAt_example = beat_from_tick-IsAt (λ r. r) 6 8 unset 20000000 refl small_tick
