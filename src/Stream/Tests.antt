-- ===== src/Stream/Tests.antt =====
-- src/frame_stream.rs: the theorems at concrete streams.
use rp2350_keymouse_bridge_f.Common.{
  ℕ, ◌≡◌, ◌⊎◌, ◌<◌, refl, arith, true, false, some, List, [], ◌∷◌, ◌++◌, replicate, length,
  wrapping_add, leb, if◌then◌else◌,
}
use rp2350_keymouse_bridge_f.Protocol.{from_byte, as_byte, Frame, ping, heartbeat, max_frame_size}
use rp2350_keymouse_bridge_f.Protocol.Crc.{crc16_ccitt_false}
use rp2350_keymouse_bridge_f.Stream.{FrameBuf, view, IsValid, next_frame_action}
use rp2350_keymouse_bridge_f.Stream.Progress.{magic_at, drop_prefix_resync}
use rp2350_keymouse_bridge_f.Stream.Timeout
use rp2350_keymouse_bridge_f.Stream.Timeout.{PartialFrameTimeout, remaining_ms-expire}
use rp2350_keymouse_bridge_f.Stream.Drain.{decoded, drain_frames, Receiver, Round}
use rp2350_keymouse_bridge_f.Stream.View.{drain_view, drain_frames-view}
use rp2350_keymouse_bridge_f.Stream.Idle.{IsIdle, drain_frames-IsIdle}
use rp2350_keymouse_bridge_f.Stream.Receive.{receive_packets, receive_packets-stream}

-- Two bytes of noise, then a magic.
abbrev noisy : List ℕ
noisy = 0x00 ∷ 0x11 ∷ 0xa5 ∷ 0x5a ∷ 1 ∷ []

drop_prefix_resync_example :
    (1 < 2 → magic_at 1 noisy ≡ false) × ((magic_at 2 noisy ≡ true) ⊎ (3 ≡ length noisy))
unfolding next_frame_action
drop_prefix_resync_example = drop_prefix_resync noisy 1 refl

abbrev noisy_buf : FrameBuf
noisy_buf = record { buf = noisy ++ replicate 246 0; len = 5 }

noisy_buf-IsValid : IsValid noisy_buf
noisy_buf-IsValid = record { buf_size = refl; len_fits = omega arith }

drain_frames-view_example :
    let (b, events) = drain_frames 5 noisy_buf in
    IsValid b × (drain_view 5 (view noisy_buf) ≡ (view b, events))
drain_frames-view_example = drain_frames-view 5 noisy_buf noisy_buf-IsValid

drain_frames-IsIdle_example :
    let b = (drain_frames 5 noisy_buf).0 in IsValid b × IsIdle (view b) × (b.len < max_frame_size)
drain_frames-IsIdle_example = drain_frames-IsIdle noisy_buf noisy_buf-IsValid

abbrev timer : PartialFrameTimeout
timer = record { deadline = record { timeout_ms = 250; deadline_ms = 0; active = false } }

remaining_ms-expire_example :
    let t = Timeout.note_progress timer 1000 4 in
    (Timeout.remaining_ms t (wrapping_add 1000 249) ≡ some 1)
    × (Timeout.expire t (wrapping_add 1000 249) 4
        ≡ (if leb 250 249 then (Timeout.reset t, 0, true) else (t, 4, false)))
remaining_ms-expire_example =
    remaining_ms-expire timer 1000 249 4 (omega arith) (omega arith) (omega arith)

abbrev hello : Frame
hello = record { version = 1; flags = 0; sequence = 7; command_type = ping; payload = [] }

abbrev beat : Frame
beat = record { version = 2; flags = 1; sequence = 0; command_type = heartbeat; payload = [] }

abbrev quiet : ℕ → Round
quiet i = record { now_ms = i; interrupted = false }

abbrev fresh : Receiver
fresh = record { frame = record { buf = replicate 251 0; len = 0 }; timeout = timer }

-- Twenty-two bytes in packets of three, eleven and eight.
abbrev packets : List (List ℕ × (ℕ → Round))
packets =
    (0xa5 ∷ 0x5a ∷ 1 ∷ [], quiet)
    ∷ (0 ∷ 0 ∷ 7 ∷ 1 ∷ 0 ∷ 0 ∷ 47 ∷ 178 ∷ 0xa5 ∷ 0x5a ∷ 2 ∷ [], quiet)
    ∷ (1 ∷ 0 ∷ 0 ∷ 4 ∷ 0 ∷ 0 ∷ 8 ∷ 77 ∷ [], quiet)
    ∷ []

receive_packets-stream_example :
    let (r, events) = receive_packets packets fresh in
    (events ≡ decoded hello ∷ decoded beat ∷ []) × (r.frame.len ≡ 0)
unfolding crc16_ccitt_false as_byte from_byte
receive_packets-stream_example =
    receive_packets-stream (hello ∷ beat ∷ []) packets fresh
      (
        record { sequence_fits = omega arith; canonical = refl; payload_fits = omega arith },
        (record { sequence_fits = omega arith; canonical = refl; payload_fits = omega arith }, tt),
      )
      ((λ i. refl), ((λ i. refl), ((λ i. refl), tt))) refl refl refl
