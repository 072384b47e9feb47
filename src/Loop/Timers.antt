-- ===== src/Loop/Timers.antt =====
-- Timers: TimedSource (ase/loop.cc, ase/loop.hh), and how long MainLoop::iterate_loops_Lm polls for them.
-- Times are in microseconds, of the clock that timestamp_realtime reads.
use anklang.Prelude.{
  ℕ, ◌+◌, ◌-◌, ◌*◌, ◌/◌, ◌%◌, ◌^◌, ◌≤◌, ◌<◌, min, ◌≡◌, refl, sym, ap, ◌∙◌, Bool, true, false, not,
  ◌&&◌, ◌||◌, Option, none, some, List, [], ◌∷◌, ◌++◌, arith, ltb, leb, ◌==◌, if◌then◌else◌,
}

pub record TimedSource : Type 0 where
  pub expiration_usecs : ℕ
  pub interval_msecs : ℕ
  pub first_interval : Bool

unfoldable pub create : ℕ → ℕ → ℕ → TimedSource
create now initial_interval_msecs repeat_interval_msecs = record {
  expiration_usecs = (now + 1000 * initial_interval_msecs) % 2 ^ 64;
  interval_msecs = repeat_interval_msecs;
  first_interval = true;
}

-- The expiration where the clock may have warped back in time
unfoldable pub unwarped : TimedSource → ℕ → ℕ
unwarped s now =
    let latest = (now + s.interval_msecs * 1000) % 2 ^ 64 in
    if not s.first_interval && ltb latest s.expiration_usecs then latest else s.expiration_usecs

-- The source, the timeout it asks for, and whether it needs dispatch
unfoldable pub prepare : TimedSource → ℕ → (TimedSource × Option ℕ) × Bool
prepare s now =
    if leb s.expiration_usecs now
    then ((s, none), true)
    else (let expiration = unwarped s now in
        let timeout = min ((expiration + 2 ^ 64 - now) % 2 ^ 64) 2147483647 in
        ((record s { expiration_usecs = expiration }, some timeout), timeout == 0))

unfoldable pub check : TimedSource → ℕ → Bool
check s now = leb s.expiration_usecs now

-- `now` is the time after the callback, whose answer is `repeat`.
unfoldable pub dispatch : TimedSource → Bool → ℕ → TimedSource × Bool
dispatch s repeat now =
    let started = record s { first_interval = false } in
    (
      if repeat
          then record started { expiration_usecs = (now + 1000 * s.interval_msecs) % 2 ^ 64 }
          else started,
      repeat,
    )

-- state.timeout_usecs after all sources are prepared
unfoldable pub least_timeout : List ℕ → ℕ
least_timeout [] = 9223372036854775807
least_timeout (t ∷ timeouts) = min t (least_timeout timeouts)

-- The milliseconds that poll may wait
unfoldable pub poll_timeout : List ℕ → Bool → Bool → ℕ
poll_timeout timeouts may_block any_dispatchable =
    let usecs = least_timeout timeouts in
    let msecs = usecs / 1000 in
    let rounded = if ltb 0 usecs && (msecs == 0) then 1 else msecs in
    min (if not may_block || any_dispatchable then 0 else rounded) 2147483647

-- The poll ends less than a millisecond after the least timeout.
poll_timeout-le :
    (timeouts : List ℕ) (may_block any_dispatchable : Bool)
    → poll_timeout timeouts may_block any_dispatchable * 1000 < least_timeout timeouts + 1000
unfolding poll_timeout
poll_timeout-le timeouts may_block any_dispatchable = ground arith

least_timeout-le :
    (before : List ℕ) (timeout : ℕ) (behind : List ℕ)
    → least_timeout (before ++ timeout ∷ behind) ≤ timeout
unfolding least_timeout
least_timeout-le [] timeout behind = omega arith
least_timeout-le (t ∷ before) timeout behind = omega (arith, least_timeout-le before timeout behind)

-- Before the expiration
prepare_waits :
    (s : TimedSource) (now : ℕ)
    → now < s.expiration_usecs
    → prepare s now ≡ (
      (
        record s { expiration_usecs = unwarped s now },
        some (min ((unwarped s now + 2 ^ 64 - now) % 2 ^ 64) 2147483647),
      ),
      min ((unwarped s now + 2 ^ 64 - now) % 2 ^ 64) 2147483647 == 0,
    )
unfolding prepare
prepare_waits s now h = let e : leb s.expiration_usecs now ≡ false = ground arith in rw e refl

unwarped_bounds :
    (s : TimedSource) (now : ℕ)
    → s.first_interval ≡ false
    → now < s.expiration_usecs
    → s.expiration_usecs < 2 ^ 64
    → now + s.interval_msecs * 1000 < 2 ^ 64
    → (now ≤ unwarped s now)
      × (unwarped s now ≤ now + s.interval_msecs * 1000)
      × (unwarped s now ≤ s.expiration_usecs)
unfolding unwarped
unwarped_bounds s now again h small room =
    (ground (arith, again), ground (arith, again), ground (arith, again))

-- For a timer past its first interval that has not expired, with times that fit in 64 bits, whose
-- prepare asks for a timeout: it then expires no later than before and at most an interval from
-- now, even where the clock went back, and a poll with that timeout among any others ends less
-- than a millisecond after the expiration.
pub prepare-poll_timeout :
    (s : TimedSource) (now : ℕ) (t : TimedSource) (timeout : ℕ) (need : Bool)
    (before behind : List ℕ) (may_block any_dispatchable : Bool)
    → s.first_interval ≡ false
    → now < s.expiration_usecs
    → s.expiration_usecs < 2 ^ 64
    → now + s.interval_msecs * 1000 < 2 ^ 64
    → prepare s now ≡ ((t, some timeout), need)
    → (t.expiration_usecs ≤ s.expiration_usecs)
      × (t.expiration_usecs ≤ now + s.interval_msecs * 1000)
      × (now + poll_timeout (before ++ timeout ∷ behind) may_block any_dispatchable * 1000
          < t.expiration_usecs + 1000)
prepare-poll_timeout s now t timeout need before behind may_block any_dispatchable again h small
      room e =
    let d = sym (prepare_waits s now h) ∙ e in
    let u = unwarped_bounds s now again h small room in
    let expires : unwarped s now ≡ t.expiration_usecs =
      ap (λ (r : (TimedSource × Option ℕ) × Bool). r.0.0.expiration_usecs) d in
    let asks : min ((unwarped s now + 2 ^ 64 - now) % 2 ^ 64) 2147483647 ≡ timeout =
      ap (λ (r : (TimedSource × Option ℕ) × Bool). elim r.0.1 [ none ↦ 0 | some m ↦ m ]) d in
    let least = least_timeout-le before timeout behind in
    let polls = poll_timeout-le (before ++ timeout ∷ behind) may_block any_dispatchable in
    (
      omega (arith, expires, u.2),
      omega (arith, expires, u.1),
      omega (arith, u.0, expires, asks, least, polls),
    )
