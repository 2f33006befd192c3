-- ===== src/Stream.antt =====
-- src/frame_stream.rs: from a CDC byte stream to frames, and the loops of src/runtime.rs over it.
pub mod Timeout
pub mod Drain
pub mod View
pub mod Progress
pub mod Idle
pub mod Reassembly
pub mod Receive
mod Tests
use rp2350_keymouse_bridge_f.Common.{
  ℕ, zero, suc, ◌+◌, ◌-◌, ◌≤◌, ◌≡◌, min, max, List, [], ◌∷◌, ◌++◌, Bool, not, ◌&&◌, ◌||◌, Option,
  none, some, ltb, leb, ◌==◌, if◌then◌else◌, length, take, drop, slice, get_or, copy_at, bytes_eq,
  from_be_bytes,
}
use rp2350_keymouse_bridge_f.Protocol.{
  magic, max_payload_size, frame_overhead, max_frame_size, DecodeError,
}

pub data FrameAction : Type 0 where
  need_more : FrameAction
  drop_prefix : ℕ → FrameAction
  reject : ℕ → ℕ → DecodeError → FrameAction
  process : ℕ → FrameAction

-- The receiver's `frame_buf` and `frame_len`.
pub record FrameBuf : Type 0 where
  pub buf : List ℕ
  pub len : ℕ

-- `buf[..len]`
abbrev pub view : FrameBuf → List ℕ
view b = take b.len b.buf

pub record IsValid (b : FrameBuf) : Type 0 where
  pub buf_size : length b.buf ≡ max_frame_size
  pub len_fits : b.len ≤ max_frame_size

-- `buf.copy_within(i..j, 0)`
abbrev pub copy_within_front : List ℕ → ℕ → ℕ → List ℕ
copy_within_front buf i j = slice i j buf ++ drop (j - i) buf

unfoldable pub shift_left : FrameBuf → ℕ → FrameBuf
shift_left b count =
    if leb b.len count
    then record b { len = 0 }
    else record { buf = copy_within_front b.buf count b.len; len = b.len - count }

-- What the call leaves in the buffer and in `packet_offset`, and the count that it returns.
pub record Appended : Type 0 where
  pub frame : FrameBuf
  pub packet_offset : ℕ
  pub copied : ℕ

unfoldable pub append_packet_chunk : FrameBuf → List ℕ → ℕ → Appended
append_packet_chunk b packet packet_offset =
    let copied = min (length b.buf - b.len) (length packet - packet_offset) in
    if leb (length b.buf) b.len || leb (length packet) packet_offset
    then record { frame = b; packet_offset = packet_offset; copied = 0 }
    else record {
      frame = record {
        buf = copy_at b.buf b.len (slice packet_offset (packet_offset + copied) packet);
        len = b.len + copied;
      };
      packet_offset = packet_offset + copied;
      copied = copied;
    }

unfoldable pub sequence_from_partial : List ℕ → ℕ
sequence_from_partial bytes =
    if leb 6 (length bytes) then from_be_bytes (get_or bytes 4 0) (get_or bytes 5 0) else 0

-- `data.windows(2).position(|window| window == MAGIC)`
abbrev pub magic_position : List ℕ → Option ℕ
magic_position [] = none
magic_position (a ∷ []) = none
magic_position (a ∷ b ∷ rest) =
    let later = magic_position (b ∷ rest) in
    if bytes_eq (a ∷ b ∷ []) magic
    then some 0
    else elim later [ none ↦ none | some i ↦ some (suc i) ]

abbrev pub unwrap_or : Option ℕ → ℕ → ℕ
unwrap_or none d = d
unwrap_or (some a) d = a

unfoldable pub next_frame_action : List ℕ → Option FrameAction
unfolding sequence_from_partial
next_frame_action bytes =
    let payload_len = from_be_bytes (get_or bytes 7 0) (get_or bytes 8 0) in
    let expected_len = frame_overhead + payload_len in
    if length bytes == 0
    then none
    else if ltb (length bytes) 2
    then some need_more
    else if not (bytes_eq (slice 0 2 bytes) magic)
    then some (drop_prefix (max (unwrap_or (magic_position bytes) (length bytes - 1)) 1))
    else if ltb (length bytes) 9
    then some need_more
    else if ltb max_payload_size payload_len
    then some (
        reject (min (length bytes) frame_overhead) (sequence_from_partial bytes)
          DecodeError.payload_too_long)
    else if ltb (length bytes) expected_len
    then some need_more
    else some (process expected_len)
