-- ===== src/Hidctl/Found.antt =====
-- tools/hidctl/src/client.rs: the reader finds the response that it waits for.
use rp2350_keymouse_bridge_f.Common.{
  ℕ, zero, suc, ◌+◌, ◌≤◌, ◌≡◌, ◌≢◌, sym, ◌∙◌, ap, arith, some, List, [], ◌∷◌, ◌++◌, append_assoc,
  Bool, true, false, ◌==◌, ==_refl, ne→==, ok, length, length-append, take, drop, take-append_self,
  drop-append_self, All,
}
use rp2350_keymouse_bridge_f.Protocol.{frame_overhead, Frame}
use rp2350_keymouse_bridge_f.Protocol.Codec.{decode_frame}
use rp2350_keymouse_bridge_f.Protocol.Bytes.{frame_bytes, length-frame_bytes}
use rp2350_keymouse_bridge_f.Protocol.RoundTrip.{IsWire, decode_frame-frame_bytes}
use rp2350_keymouse_bridge_f.Stream.Reassembly.{stream}
use rp2350_keymouse_bridge_f.Hidctl.Client.{Response}
use rp2350_keymouse_bridge_f.Hidctl.Reader.{scan, try_decode_response}

abbrev pub response_of : Frame → Response
response_of f = record { command_type = f.command_type; payload = f.payload }

-- A frame that was sent to answer something else.
abbrev pub IsOther : ℕ → Frame → Type 0
IsOther sequence f = IsWire f × (f.sequence ≢ sequence)

module _ (f : Frame) (w : IsWire f) (rest : List ℕ) where
  front : take (frame_overhead + length f.payload) (frame_bytes f ++ rest) ≡ frame_bytes f
  front = take-append_self (frame_bytes f) rest _ (sym (length-frame_bytes f))

  behind : drop (frame_overhead + length f.payload) (frame_bytes f ++ rest) ≡ rest
  behind = drop-append_self (frame_bytes f) rest _ (sym (length-frame_bytes f))

  decoded : decode_frame (take (frame_overhead + length f.payload) (frame_bytes f ++ rest)) ≡ ok f
  decoded = ap decode_frame front ∙ decode_frame-frame_bytes f w

  scan_whole :
      (fuel sequence : ℕ) (b : Bool)
      → (f.sequence == sequence) ≡ b
      → scan (suc fuel) sequence (frame_bytes f ++ rest)
        ≡ elim b [ true ↦ (rest, ok (some (response_of f))) | false ↦ scan fuel sequence rest ]
  unfolding scan
  scan_whole fuel sequence b e = ground (
    arith,
    w.payload_fits,
    length-append (frame_bytes f) rest,
    length-frame_bytes f,
    decoded,
    behind,
    e,
  )

scan_others :
    (fuel sequence : ℕ) (others : List Frame) (f : Frame) (rest : List ℕ)
    → All (IsOther sequence) others
    → IsWire f
    → f.sequence ≡ sequence
    → length others + 1 ≤ fuel
    → scan fuel sequence (stream others ++ (frame_bytes f ++ rest))
      ≡ (rest, ok (some (response_of f)))
scan_others zero sequence others f rest h w e n = absurd (omega arith)
scan_others (suc fuel) sequence [] f rest h w e n =
    scan_whole f w rest fuel sequence true (rw (e) (==_refl sequence))
scan_others (suc fuel) sequence (o ∷ others) f rest h w e n =
    let later = stream others ++ (frame_bytes f ++ rest) in
    let here : scan (suc fuel) sequence (frame_bytes o ++ later) ≡ scan fuel sequence later =
      scan_whole o h.0.0 later fuel sequence false (ne→== o.sequence sequence h.0.1) in
    ap (scan (suc fuel) sequence)
      (append_assoc (frame_bytes o) (stream others) (frame_bytes f ++ rest))
    ∙ (here ∙ scan_others fuel sequence others f rest h.1 w e (omega arith))

length-stream : (fs : List Frame) → length fs ≤ length (stream fs)
length-stream [] = omega arith
length-stream (f ∷ fs) =
    omega (arith, length-append (frame_bytes f) (stream fs), length-frame_bytes f, length-stream fs)

-- From a buffer that holds whole encoded frames with other sequences and then an encoded frame with
-- the sequence that is waited for, the reader takes all of these and returns the last one's type and
-- payload, and keeps the bytes behind it.
pub try_decode_response-stream :
    (sequence : ℕ) (others : List Frame) (f : Frame) (rest : List ℕ)
    → All (IsOther sequence) others
    → IsWire f
    → f.sequence ≡ sequence
    → try_decode_response sequence (stream others ++ (frame_bytes f ++ rest))
      ≡ (rest, ok (some (response_of f)))
unfolding try_decode_response
try_decode_response-stream sequence others f rest h w e =
    scan_others _ sequence others f rest h w e
      (omega (arith, length-append (stream others) (frame_bytes f ++ rest), length-stream others))
