-- ===== src/Led/Tests.antt =====
-- src/led.rs: examples.
use rp2350_keymouse_bridge_f.Common.{
  ◌%◌, ◌≡◌, arith, List, [], ◌∷◌, ◌&&◌, ltb, if◌then◌else◌, length,
}
use rp2350_keymouse_bridge_f.Led.{
  led_max_brightness, connected, LedSignal, no_signal, activity, error, LedAnimator, new, signal,
  next_brightness,
}
use rp2350_keymouse_bridge_f.Led.Pattern.{play, next_brightness-error}

abbrev signals : List LedSignal
signals = no_signal ∷ activity ∷ no_signal ∷ []

abbrev led : LedAnimator
led = new connected

next_brightness-error_example :
    (next_brightness (play signals (signal led error))).0
    ≡ (if ltb (length signals % 90) 40 && ltb (length signals) 270 then led_max_brightness else 0)
next_brightness-error_example = next_brightness-error led signals (tt, (tt, (tt, tt))) (omega arith)
