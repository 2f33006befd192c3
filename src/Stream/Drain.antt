-- ===== src/Stream/Drain.antt =====
-- src/runtime.rs: `drain_frames`, and the packet loop of `cdc_receive_task`.
use rp2350_keymouse_bridge_f.Common.{
  ℕ, zero, suc, List, [], ◌∷◌, ◌++◌, Bool, none, some, ◌==◌, ltb, if◌then◌else◌, length, take,
  get_elem?, ok, err,
}
use rp2350_keymouse_bridge_f.Protocol.{
  legacy_protocol_version, protocol_version, Frame, DecodeError,
}
use rp2350_keymouse_bridge_f.Protocol.Codec.{decode_frame}
use rp2350_keymouse_bridge_f.Stream.{
  need_more, drop_prefix, reject, process, FrameBuf, view, shift_left, Appended,
  append_packet_chunk, sequence_from_partial, next_frame_action,
}
use rp2350_keymouse_bridge_f.Stream.Timeout
use rp2350_keymouse_bridge_f.Stream.Timeout.{PartialFrameTimeout}

-- What the loop makes of a stretch of bytes: a frame that goes on to `OwnedRequest::from_frame`, or
-- the version, sequence and cause of a NACK.
pub data FrameEvent : Type 0 where
  decoded : Frame → FrameEvent
  refused : ℕ → ℕ → DecodeError → FrameEvent

unfoldable pub response_version : List ℕ → ℕ
response_version bytes = elim (get_elem? bytes 2) [
  | none ↦ protocol_version
  | some v ↦ if v == legacy_protocol_version then legacy_protocol_version else protocol_version
]

-- The arm `FrameAction::Process`.
unfoldable pub process_frame : List ℕ → FrameEvent
process_frame bytes = elim (decode_frame bytes) [
  | ok frame ↦ decoded frame
  | err e ↦ refused (response_version bytes) (sequence_from_partial bytes) e
]

abbrev pub emit {ℓ} : {A : Type ℓ} → FrameEvent → A × List FrameEvent → A × List FrameEvent
emit e r = (r.0, e ∷ r.1)

-- The `while let` loop with fuel.
unfoldable pub drain_frames : ℕ → FrameBuf → FrameBuf × List FrameEvent
drain_frames zero b = (b, [])
drain_frames (suc fuel) b = elim (next_frame_action (view b)) [
  | none ↦ (b, [])
  | some need_more ↦ (b, [])
  | some (drop_prefix count) ↦ drain_frames fuel (shift_left b count)
  | some (reject len sequence error) ↦
      emit (refused (response_version (view b)) sequence error)
        (drain_frames fuel (shift_left b len))
  | some (process len) ↦
      emit (process_frame (take len b.buf)) (drain_frames fuel (shift_left b len))
]

-- The receiver between two packets.
pub record Receiver : Type 0 where
  pub frame : FrameBuf
  pub timeout : PartialFrameTimeout

-- `partial_timeout.reset(&mut frame_len)`
abbrev pub reset_receiver : Receiver → Receiver
reset_receiver r = record { frame = record r.frame { len = 0 }; timeout = Timeout.reset r.timeout }

-- What the environment shows in one round of the loop: the clock, and whether the session was
-- replaced or DTR was lost.
pub record Round : Type 0 where
  pub now_ms : ℕ
  pub interrupted : Bool

-- One round: copy what fits, drain the frames, note the progress. The fuel of the drain is the
-- number of bytes buffered.
abbrev pub receive_round : Round → Receiver → Appended → Receiver × List FrameEvent
receive_round round r a =
    let (b, events) = drain_frames a.frame.len a.frame in
    (record { frame = b; timeout = Timeout.note_progress r.timeout round.now_ms b.len }, events)

-- `while packet_offset < read_len`, on fuel, over the rounds that the environment shows.
unfoldable pub receive_packet : ℕ → (ℕ → Round) → List ℕ → ℕ → Receiver → Receiver × List FrameEvent
receive_packet zero rounds packet packet_offset r = (r, [])
receive_packet (suc fuel) rounds packet packet_offset r = elim (ltb packet_offset (length packet)) [
  | Bool.false ↦ (r, [])
  | Bool.true ↦
      let a = append_packet_chunk r.frame packet packet_offset in
      elim (a.copied == 0) [
        | Bool.true ↦ (reset_receiver r, [])
        | Bool.false ↦
            let (r', events) = receive_round (rounds fuel) r a in
            elim (rounds fuel).interrupted [
              | Bool.true ↦ (reset_receiver r', events)
              | Bool.false ↦
                  let (r'', later) = receive_packet fuel rounds packet a.packet_offset r' in
                  (r'', events ++ later)
            ]
      ]
]
