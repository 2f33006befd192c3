-- ===== src/Led.antt =====
-- src/led.rs: the status LED.
pub mod Pattern
mod Tests
use rp2350_keymouse_bridge_f.Common.{
  ℕ, ◌+◌, ◌-◌, ◌*◌, ◌/◌, ◌%◌, Bool, true, false, not, ◌&&◌, ◌||◌, ltb, leb, ◌==◌, if◌then◌else◌,
  u16_mod,
}

abbrev pub led_max_brightness : ℕ
led_max_brightness = 16

abbrev pub activity_ticks : ℕ
activity_ticks = 90

abbrev pub error_total_ticks : ℕ
error_total_ticks = 280

abbrev pub breath_period_ticks : ℕ
breath_period_ticks = 1280

abbrev pub heartbeat_period_ticks : ℕ
heartbeat_period_ticks = 1500

pub data LedMode : Type 0 where
  disconnected connected : LedMode

pub data LedSignal : Type 0 where
  no_signal activity error : LedSignal

-- `LedMode::from_u8` and `as_u8`
unfoldable pub mode_from_byte : ℕ → LedMode
mode_from_byte value = if value == 1 then connected else disconnected

unfoldable pub mode_byte : LedMode → ℕ
mode_byte disconnected = 0
mode_byte connected = 1

-- `LedSignal::from_u8`
unfoldable pub signal_from_byte : ℕ → LedSignal
signal_from_byte value = if value == 1 then activity else if value == 2 then error else no_signal

pub data LedEvent : Type 0 where
  no_event activity_event error_event : LedEvent

pub record LedAnimator : Type 0 where
  pub mode : LedMode
  pub mode_tick : ℕ
  pub event : LedEvent
  pub event_tick : ℕ
  pub pwm_tick : ℕ

unfoldable pub new : LedMode → LedAnimator
new mode = record { mode = mode; mode_tick = 0; event = no_event; event_tick = 0; pwm_tick = 0 }

unfoldable pub same_mode : LedMode → LedMode → Bool
same_mode disconnected disconnected = true
same_mode connected connected = true
same_mode disconnected connected = false
same_mode connected disconnected = false

unfoldable pub set_mode : LedAnimator → LedMode → LedAnimator
unfolding same_mode
set_mode l mode = if not (same_mode l.mode mode) then record l { mode = mode; mode_tick = 0 } else l

-- The `match` of `signal`, with the event shown.
unfoldable pub signalled : LedEvent → LedSignal → LedAnimator → LedAnimator
signalled event no_signal l = l
signalled error_event activity l = l
signalled no_event activity l = record l { event = activity_event; event_tick = 0 }
signalled activity_event activity l = record l { event = activity_event; event_tick = 0 }
signalled event error l = record l { event = error_event; event_tick = 0 }

unfoldable pub signal : LedAnimator → LedSignal → LedAnimator
unfolding signalled
signal l s = signalled l.event s l

unfoldable pub breath_brightness : ℕ → ℕ
breath_brightness tick =
    let phase = tick % breath_period_ticks in
    let half = breath_period_ticks / 2 in
    let level = if ltb phase half then phase else breath_period_ticks - 1 - phase in
    level * led_max_brightness / (half - 1) % 256

unfoldable pub heartbeat_brightness : ℕ → ℕ
heartbeat_brightness tick =
    let phase = tick % heartbeat_period_ticks in
    if ltb phase 80 || (leb 160 phase && ltb phase 240) then led_max_brightness else 1

unfoldable pub error_is_on : ℕ → Bool
error_is_on tick = ltb (tick % 90) 40 && ltb tick (90 * 3)

unfoldable pub brightness_of : LedMode → ℕ → ℕ
unfolding breath_brightness heartbeat_brightness
brightness_of disconnected tick = breath_brightness tick
brightness_of connected tick = heartbeat_brightness tick

unfoldable pub mode_brightness : LedAnimator → ℕ
unfolding brightness_of
mode_brightness l = brightness_of l.mode l.mode_tick

abbrev pub is_no_event : LedEvent → Bool
is_no_event no_event = true
is_no_event activity_event = false
is_no_event error_event = false

unfoldable pub advance_ticks : LedAnimator → LedAnimator
advance_ticks l = record l {
  mode_tick = (l.mode_tick + 1) % u16_mod;
  event_tick = if is_no_event l.event then l.event_tick else (l.event_tick + 1) % u16_mod;
}

abbrev pub event_over : LedAnimator → LedAnimator
event_over l = record l { event = no_event; event_tick = 0 }

-- The `match` of `next_brightness`: the brightness and the animator before its ticks advance.
unfoldable pub shown : LedEvent → LedAnimator → ℕ × LedAnimator
unfolding mode_brightness error_is_on
shown no_event l = (mode_brightness l, l)
shown activity_event l =
    if ltb l.event_tick activity_ticks
    then (led_max_brightness, l)
    else (mode_brightness l, event_over l)
shown error_event l =
    if leb error_total_ticks l.event_tick
    then (mode_brightness l, event_over l)
    else if error_is_on l.event_tick
    then (led_max_brightness, l)
    else (0, l)

unfoldable pub next_brightness : LedAnimator → ℕ × LedAnimator
unfolding shown advance_ticks
next_brightness l = ((shown l.event l).0, advance_ticks (shown l.event l).1)

unfoldable pub next_output : LedAnimator → Bool × LedAnimator
unfolding next_brightness
next_output l =
    let (brightness, l') = next_brightness l in
    (ltb l'.pwm_tick brightness, record l' { pwm_tick = (l'.pwm_tick + 1) % led_max_brightness })
