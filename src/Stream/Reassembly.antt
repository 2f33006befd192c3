-- ===== src/Stream/Reassembly.antt =====
-- src/frame_stream.rs and src/runtime.rs: the drain loop cuts a stream of encoded frames where the
-- frames end, wherever the bytes received so far end.
use rp2350_keymouse_bridge_f.Common.{
  ℕ, zero, suc, ◌+◌, ◌≤◌, ◌<◌, ◌≡◌, refl, sym, ap, ◌∙◌, arith, List, [], ◌∷◌, ◌++◌, map, some,
  length, Bool-cases, inl, inr, length-append, All, take-append_self, drop-append_self, ltb, get_or,
}
use rp2350_keymouse_bridge_f.Protocol.{frame_overhead, Frame}
use rp2350_keymouse_bridge_f.Protocol.Bytes.{frame_bytes, length-frame_bytes}
use rp2350_keymouse_bridge_f.Protocol.RoundTrip.{IsWire, decode_frame-frame_bytes}
use rp2350_keymouse_bridge_f.Stream.{process, next_frame_action}
use rp2350_keymouse_bridge_f.Stream.Drain.{FrameEvent, decoded, emit, process_frame}
use rp2350_keymouse_bridge_f.Stream.View.{drain_view}
use rp2350_keymouse_bridge_f.Stream.Idle.{IsIdle, drain_view-idle, nil-IsIdle}

-- The bytes of frames sent one after the other.
abbrev pub stream : List Frame → List ℕ
stream [] = []
stream (f ∷ fs) = frame_bytes f ++ stream fs

pub frame_action :
    (f : Frame) (rest : List ℕ)
    → IsWire f
    → next_frame_action (frame_bytes f ++ rest) ≡ some (process (frame_overhead + length f.payload))
unfolding next_frame_action
frame_action f rest w =
    let whole = length-append (frame_bytes f) rest in
    ground (arith, w.payload_fits, whole, length-frame_bytes f)

-- A proper prefix of a frame waits for the rest of it.
prefix-IsIdle :
    (f : Frame) (xs : List ℕ) (y : ℕ) (ys : List ℕ)
    → IsWire f
    → xs ++ y ∷ ys ≡ frame_bytes f
    → IsIdle xs
unfolding next_frame_action
prefix-IsIdle f [] y ys w e = inl refl
prefix-IsIdle f (a ∷ []) y ys w e = inr refl
prefix-IsIdle f (a ∷ b ∷ c ∷ d ∷ g ∷ h ∷ i ∷ j ∷ k ∷ xs) y ys w e =
    let size = ap length e in
    let whole = length-append xs (y ∷ ys) in
    let ea : a ≡ 0xa5 = cc in
    let eb : b ≡ 0x5a = cc in
    let ej = ap (λ zs. get_or zs 7 0) e in
    let ek = ap (λ zs. get_or zs 8 0) e in
    inr (ground (arith, w.payload_fits, length-frame_bytes f))
prefix-IsIdle f (a ∷ b ∷ xs) y ys w e =
    let ea : a ≡ 0xa5 = cc in let eb : b ≡ 0x5a = cc in inr (ground arith)

-- Of two ways to split a list, the shorter front is a prefix of the longer.
append-split :
    (xs ys us vs : List ℕ)
    → xs ++ ys ≡ us ++ vs
    → length xs ≤ length us
    → (w : List ℕ) × (us ≡ xs ++ w) × (ys ≡ w ++ vs)
append-split [] ys us vs e h = (us, refl, e)
append-split (x ∷ xs) ys [] vs e h = absurd (omega arith)
append-split (x ∷ xs) ys (u ∷ us) vs e h =
    let tails : xs ++ ys ≡ us ++ vs = cc in
    let head : x ≡ u = cc in
    let (w, p, q) = append-split xs ys us vs tails (omega arith) in (w, cc, q)

short-IsIdle :
    (f : Frame) (xs missing : List ℕ)
    → IsWire f
    → frame_bytes f ≡ xs ++ missing
    → length xs < length (frame_bytes f)
    → IsIdle xs
short-IsIdle f xs [] w e h = absurd (omega (arith, ap length e, length-append xs []))
short-IsIdle f xs (y ∷ ys) w e h = prefix-IsIdle f xs y ys w (sym e)

-- The frames that a stretch of bytes completes, and those that are still to come.
pub record Split (fs : List Frame) (left : List ℕ) (events : List FrameEvent) (later : List ℕ)
    : Type 0 where
  pub complete : List Frame
  pub rest : List Frame
  pub in_order : fs ≡ complete ++ rest
  pub delivered : events ≡ map decoded complete
  pub pending : left ++ later ≡ stream rest

decoded_frame : (f : Frame) → IsWire f → process_frame (frame_bytes f) ≡ decoded f
unfolding process_frame
decoded_frame f w = rw (decode_frame-frame_bytes f w, process_frame) refl

drain_view-frame :
    (fuel : ℕ) (f : Frame) (rest : List ℕ)
    → IsWire f
    → drain_view (suc fuel) (frame_bytes f ++ rest) ≡ emit (decoded f) (drain_view fuel rest)
drain_view-frame fuel f rest w =
    rw (frame_action f rest w, drain_view)
      (rw
        (
          take-append_self (frame_bytes f) rest (frame_overhead + length f.payload)
              (sym (length-frame_bytes f)),
          drop-append_self (frame_bytes f) rest (frame_overhead + length f.payload)
              (sym (length-frame_bytes f)),
          decoded_frame f w,
        )
        refl)

-- Whatever part of a stream of frames has arrived, the loop delivers the complete frames in it, in
-- order and each once, and keeps the rest.
pub drain_view-Split :
    (fs : List Frame) (fuel : ℕ) (xs later : List ℕ)
    → All IsWire fs
    → xs ++ later ≡ stream fs
    → length xs ≤ fuel
    → Split fs (drain_view fuel xs).0 (drain_view fuel xs).1 later
drain_view-Split [] fuel [] later w e h =
    rw (drain_view-idle fuel [] nil-IsIdle)
      (record { complete = []; rest = []; in_order = refl; delivered = refl; pending = e })
drain_view-Split [] fuel (x ∷ xs) later w e h = absurd (omega (arith, ap length e))
drain_view-Split (f ∷ fs) zero xs later w e h = record {
  complete = [];
  rest = f ∷ fs;
  in_order = refl;
  delivered = refl;
  pending = e;
}
drain_view-Split (f ∷ fs) (suc fuel) xs later w e h =
    elim (Bool-cases (ltb (length xs) (length (frame_bytes f)))) [
      | inl short ↦
          let (missing, front, _) =
            append-split xs later (frame_bytes f) (stream fs) e (ground arith) in
          rw (drain_view-idle (suc fuel) xs (short-IsIdle f xs missing w.0 front (ground arith)))
            (record {
              complete = [];
              rest = f ∷ fs;
              in_order = refl;
              delivered = refl;
              pending = e;
            })
      | inr long ↦
          let (tail, front, back) =
            append-split (frame_bytes f) (stream fs) xs later (sym e) (ground arith) in
          let size = ap length front ∙ length-append (frame_bytes f) tail in
          let ih = drain_view-Split fs fuel tail later w.1 (sym back) (omega arith) in
          rw (front, drain_view-frame fuel f tail w.0)
            (record {
              complete = f ∷ ih.complete;
              rest = ih.rest;
              in_order = ap (λ gs. f ∷ gs) ih.in_order;
              delivered = ap (λ es. decoded f ∷ es) ih.delivered;
              pending = ih.pending;
            })
    ]
