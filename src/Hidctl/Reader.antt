-- ===== src/Hidctl/Reader.antt =====
-- tools/hidctl/src/client.rs: the reader of responses.
use rp2350_keymouse_bridge_f.Common.{
  ℕ, zero, suc, ◌+◌, ◌-◌, Option, none, some, List, [], ◌∷◌, ◌++◌, Bool, true, false, ◌==◌, ltb,
  if◌then◌else◌, Result, ok, err, length, take, drop, get_or, slice, bytes_eq, from_be_bytes,
}
use rp2350_keymouse_bridge_f.Protocol.{DecodeError, magic, max_frame_size, frame_overhead}
use rp2350_keymouse_bridge_f.Protocol.Codec.{decode_frame}
use rp2350_keymouse_bridge_f.Stream.{magic_position}
use rp2350_keymouse_bridge_f.Hidctl.Client.{
  ClientError, timeout_too_large, frame_too_long, crc_failed, port_failed, invalid_frame, Response,
}

-- The buffer afterwards, with a response, none yet, or an error.
abbrev pub Scanned : Type 0
Scanned = List ℕ × Result ClientError (Option Response)

-- The last byte, which may begin the next frame.
abbrev pub last_byte : List ℕ → List ℕ
last_byte buffer = drop (length buffer - 1) buffer

abbrev pub decode_error : DecodeError → ClientError
decode_error DecodeError.bad_crc = crc_failed
decode_error other = invalid_frame other

-- The loop of `try_decode_response`. Each round but the last takes a byte at least, so that the
-- buffer's length and one is fuel enough.
unfoldable pub scan : ℕ → ℕ → List ℕ → Scanned
scan zero expected_sequence buffer = (buffer, ok none)
scan (suc fuel) expected_sequence buffer =
    let frame_len = frame_overhead + from_be_bytes (get_or buffer 7 0) (get_or buffer 8 0) in
    elim (ltb (length buffer) 2) [
      | true ↦ (buffer, ok none)
      | false ↦ elim (bytes_eq (slice 0 2 buffer) magic) [
        | false ↦ elim (magic_position buffer) [
          | some position ↦ scan fuel expected_sequence (drop position buffer)
          | none ↦ scan fuel expected_sequence (last_byte buffer)
        ]
        | true ↦ elim (ltb (length buffer) 9) [
          | true ↦ (buffer, ok none)
          | false ↦ elim (ltb max_frame_size frame_len) [
            | true ↦ (buffer, err frame_too_long)
            | false ↦ elim (ltb (length buffer) frame_len) [
              | true ↦ (buffer, ok none)
              | false ↦ elim (decode_frame (take frame_len buffer)) [
                | err e ↦ (drop frame_len buffer, err (decode_error e))
                | ok frame ↦ elim (frame.sequence == expected_sequence) [
                  | false ↦ scan fuel expected_sequence (drop frame_len buffer)
                  | true ↦ (
                    drop frame_len buffer,
                    ok (
                        some
                          (record { command_type = frame.command_type; payload = frame.payload })),
                  )
                ]
              ]
            ]
          ]
        ]
      ]
    ]

unfoldable pub try_decode_response : ℕ → List ℕ → Scanned
unfolding scan
try_decode_response expected_sequence buffer = scan (length buffer + 1) expected_sequence buffer

-- What the port gives to one read before the deadline; a read that times out gives no bytes.
pub data PortRead : Type 0 where
  bytes : List ℕ → PortRead
  read_failed : PortRead

-- What one attempt meets: a write that fails, a deadline that does not fit the clock, and the reads
-- until the deadline.
pub record Attempt : Type 0 where
  pub write_fails : Bool
  pub deadline_overflows : Bool
  pub reads : List PortRead

pub data ReadResponseError : Type 0 where
  read_timeout : ReadResponseError
  other_error : ClientError → ReadResponseError

abbrev pub ReadDone : Type 0
ReadDone = List ℕ × Result ReadResponseError Response

-- A round of the loop of `read_response`: the buffer is searched first.
abbrev pub or_read : Scanned → (List ℕ → ReadDone) → ReadDone
or_read (buffer, err e) more = (buffer, err (other_error e))
or_read (buffer, ok (some response)) more = (buffer, ok response)
or_read (buffer, ok none) more = more buffer

-- The loop over the reads, at whose end the deadline is reached.
unfoldable pub read_loop : List PortRead → ℕ → List ℕ → ReadDone
unfolding try_decode_response
read_loop [] sequence buffer =
    or_read (try_decode_response sequence buffer) (λ left. (left, err read_timeout))
read_loop (read_failed ∷ reads) sequence buffer =
    or_read (try_decode_response sequence buffer) (λ left. (left, err (other_error port_failed)))
read_loop (bytes chunk ∷ reads) sequence buffer =
    or_read (try_decode_response sequence buffer) (λ left. read_loop reads sequence (left ++ chunk))

unfoldable pub read_response : Attempt → ℕ → List ℕ → ReadDone
unfolding read_loop
read_response a sequence buffer =
    if a.deadline_overflows
    then (buffer, err (other_error timeout_too_large))
    else read_loop a.reads sequence buffer
