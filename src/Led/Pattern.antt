-- ===== src/Led/Pattern.antt =====
-- src/led.rs: what the LED shows.
use rp2350_keymouse_bridge_f.Common.{
  ℕ, ◌+◌, ◌%◌, ◌≤◌, ◌<◌, ◌≡◌, refl, ap, arith, List, [], ◌∷◌, ltb, ◌&&◌, if◌then◌else◌, length, All,
  u16_mod,
}
use rp2350_keymouse_bridge_f.Led.{
  led_max_brightness, error_total_ticks, LedMode, disconnected, connected, LedSignal, no_signal,
  activity, error, LedEvent, no_event, activity_event, error_event, LedAnimator, signalled, signal,
  breath_brightness, heartbeat_brightness, brightness_of, mode_brightness, error_is_on, shown,
  advance_ticks, is_no_event, next_brightness, next_output,
}

brightness_of-le : (m : LedMode) (tick : ℕ) → brightness_of m tick ≤ led_max_brightness
unfolding brightness_of breath_brightness heartbeat_brightness
brightness_of-le disconnected tick = ground arith
brightness_of-le connected tick = ground arith

shown-le : (e : LedEvent) (l : LedAnimator) → (shown e l).0 ≤ led_max_brightness
unfolding shown mode_brightness
shown-le no_event l = brightness_of-le l.mode l.mode_tick
shown-le activity_event l = ground (arith, brightness_of-le l.mode l.mode_tick)
shown-le error_event l = ground (arith, brightness_of-le l.mode l.mode_tick)

abbrev pub IsMild : LedSignal → Type 0
IsMild error = ⊥
IsMild other = Unit {0}

-- Signals, each followed by a brightness that is shown.
pub play : List LedSignal → LedAnimator → LedAnimator
play [] l = l
play (s ∷ signals) l = play signals (next_brightness (signal l s)).1

-- The animator in an error that has been shown for a while.
abbrev InError : ℕ → LedAnimator → Type 0
InError n l = (l.event ≡ error_event) × (l.event_tick ≡ n)

signalled-InError :
    (e : LedEvent) (s : LedSignal) (l : LedAnimator)
    → IsMild s
    → e ≡ error_event
    → signalled e s l ≡ l
unfolding signalled
signalled-InError no_event s l m h = absurd (cc)
signalled-InError activity_event s l m h = absurd (cc)
signalled-InError error_event no_signal l m h = refl
signalled-InError error_event activity l m h = refl
signalled-InError error_event error l m h = absurd m

shown-InError :
    (e : LedEvent) (l : LedAnimator)
    → e ≡ error_event
    → l.event_tick < error_total_ticks
    → shown e l ≡ ((if error_is_on l.event_tick then led_max_brightness else 0), l)
unfolding shown
shown-InError no_event l h b = absurd (cc)
shown-InError activity_event l h b = absurd (cc)
shown-InError error_event l h b = ground arith

advanced :
    (e : LedEvent) (t n : ℕ)
    → e ≡ error_event
    → t ≡ n
    → n < error_total_ticks
    → (if is_no_event e then t else (t + 1) % u16_mod) ≡ n + 1
advanced no_event t n h p b = absurd (cc)
advanced activity_event t n h p b = absurd (cc)
advanced error_event t n h p b = omega arith

signalled-error : (e : LedEvent) (l : LedAnimator) → InError 0 (signalled e error l)
unfolding signalled
signalled-error no_event l = (refl, refl)
signalled-error activity_event l = (refl, refl)
signalled-error error_event l = (refl, refl)

error-InError : (l : LedAnimator) → InError 0 (signal l error)
unfolding signal
error-InError l = signalled-error l.event l

-- What is shown leaves the position in the cycle.
shown-pwm_tick : (e : LedEvent) (l : LedAnimator) → (shown e l).1.pwm_tick ≡ l.pwm_tick
unfolding shown
shown-pwm_tick no_event l = refl
shown-pwm_tick activity_event l = ground arith
shown-pwm_tick error_event l = ground arith

advance-InError :
    (l : LedAnimator) (n : ℕ)
    → InError n l
    → n < error_total_ticks
    → InError (n + 1) (advance_ticks l)
unfolding advance_ticks
advance-InError l n h b = (h.0, advanced l.event l.event_tick n h.0 h.1 b)

next-InError :
    (l : LedAnimator) (n : ℕ) (s : LedSignal)
    → IsMild s
    → InError n l
    → n < error_total_ticks
    → InError (n + 1) (next_brightness (signal l s)).1
unfolding next_brightness signal
next-InError l n s m h b =
    rw (signalled-InError l.event s l m h.0, shown-InError l.event l h.0 (omega (arith, h.1)))
      (advance-InError l n h b)

play-InError :
    (signals : List LedSignal) (l : LedAnimator) (n : ℕ)
    → All IsMild signals
    → InError n l
    → n + length signals ≤ error_total_ticks
    → InError (n + length signals) (play signals l)
unfolding play
play-InError [] l n m h b = (h.0, omega (arith, h.1))
play-InError (s ∷ signals) l n m h b =
    let (e, t) =
      play-InError signals (next_brightness (signal l s)).1 (n + 1) m.1
        (next-InError l n s m.0 h (omega arith)) (omega arith) in
    (e, omega (arith, t))

-- An error signal, and then any signals but another error, each followed by a brightness that is
-- shown: as long as fewer than 280 have been shown, the next one is the error's pattern at that
-- moment, full in the first 40 ticks of each of three steps of 90 and dark otherwise. Activity
-- signals and the mode do not disturb it.
pub next_brightness-error :
    (l : LedAnimator) (signals : List LedSignal)
    → All IsMild signals
    → length signals < error_total_ticks
    → (next_brightness (play signals (signal l error))).0
      ≡ (if ltb (length signals % 90) 40 && ltb (length signals) 270 then led_max_brightness else 0)
unfolding next_brightness
next_brightness-error l signals m b =
    let (e, t) = play-InError signals (signal l error) 0 m (error-InError l) (omega arith) in
    rw
      (shown-InError (play signals (signal l error)).event (play signals (signal l error)) e
        (omega (arith, t)))
      (let at : (play signals (signal l error)).event_tick ≡ length signals = omega (arith, t) in
        ap (λ n. if error_is_on n then led_max_brightness else 0) at)

-- The brightness is at most 16 in every state, on every path of the animation; and the output is on
-- exactly while the position in the cycle of sixteen ticks is below it, which advances by one.
pub next_output_lem :
    (l : LedAnimator)
    → ((next_brightness l).0 ≤ led_max_brightness)
      × ((next_output l).0 ≡ ltb l.pwm_tick (next_brightness l).0)
      × ((next_output l).1.pwm_tick ≡ (l.pwm_tick + 1) % led_max_brightness)
unfolding next_output next_brightness
next_output_lem l = (
  shown-le l.event l,
  ap (λ n. ltb n (shown l.event l).0) (shown-pwm_tick l.event l),
  ap (λ (n : ℕ). (n + 1) % led_max_brightness) (shown-pwm_tick l.event l),
)
