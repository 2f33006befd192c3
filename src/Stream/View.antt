-- ===== src/Stream/View.antt =====
-- src/frame_stream.rs and src/runtime.rs: the buffer operations and the drain loop act on the
-- buffered bytes as plain list operations.
use rp2350_keymouse_bridge_f.Common.{
  ℕ, zero, suc, ◌+◌, ◌-◌, ◌≤◌, ◌<◌, ◌≡◌, refl, sym, ap, ◌∙◌, arith, min, List, [], ◌∷◌, ◌++◌, none,
  some, leb, length, take, drop, slice, length-append, length-take, length-drop, take-append_self,
  drop-length, take-length, append_assoc, append-nil, ◌||◌, Option-cases, Bool-cases, inl, inr,
  copy_at,
}
use rp2350_keymouse_bridge_f.Protocol.{max_frame_size}
use rp2350_keymouse_bridge_f.Stream.{
  need_more, drop_prefix, reject, process, FrameBuf, view, IsValid, shift_left, append_packet_chunk,
  next_frame_action,
}
use rp2350_keymouse_bridge_f.Stream.Drain.{
  FrameEvent, refused, response_version, process_frame, emit, drain_frames,
}
use rp2350_keymouse_bridge_f.Stream.Progress.{next_frame_action-consumed}

module _ {ℓ} {A : Type ℓ} where
  drop-take : (m n : ℕ) (xs : List A) → drop m (take n xs) ≡ take (n - m) (drop m xs)
  drop-take zero n xs = ap (λ k. take k xs) (omega arith)
  drop-take (suc m) zero xs =
      let e : 0 ≡ 0 - suc m = omega arith in ap (λ k. take k (drop (suc m) xs)) e
  drop-take (suc m) (suc n) [] = sym (take-length [] (suc n - suc m) (omega arith))
  drop-take (suc m) (suc n) (x ∷ xs) = drop-take m n xs ∙ ap (λ k. take k (drop m xs)) (omega arith)

  take-take : (m n : ℕ) (xs : List A) → m ≤ n → take m (take n xs) ≡ take m xs
  take-take zero n xs h = refl
  take-take (suc m) zero xs h = absurd (omega arith)
  take-take (suc m) (suc n) [] h = refl
  take-take (suc m) (suc n) (x ∷ xs) h = ap (λ r. x ∷ r) (take-take m n xs (omega arith))

pub length-view : (b : FrameBuf) → IsValid b → length (view b) ≡ b.len
length-view b v = omega (arith, length-take b.len b.buf, v.buf_size, v.len_fits)

-- `shift_left` drops the bytes from the front.
pub view-shift_left :
    (b : FrameBuf) (count : ℕ)
    → IsValid b
    → IsValid (shift_left b count) × (view (shift_left b count) ≡ drop count (view b))
unfolding shift_left
view-shift_left b count v = elim (Bool-cases (leb b.len count)) [
  | inl all ↦ rw all (
    record { buf_size = v.buf_size; len_fits = omega arith },
    sym (drop-length (view b) count (ground (arith, length-view b v))),
  )
  | inr part ↦
      let moved = slice count b.len b.buf in
      let kept = drop (b.len - count) b.buf in
      let size : length moved ≡ b.len - count = ground (
        arith,
        v.buf_size,
        v.len_fits,
        length-take (b.len - count) (drop count b.buf),
        length-drop count b.buf,
      ) in
      rw part (
        record {
          buf_size = omega (
            arith,
            v.buf_size,
            v.len_fits,
            size,
            length-append moved kept,
            length-drop (b.len - count) b.buf,
          );
          len_fits = omega (arith, v.len_fits);
        },
        take-append_self moved kept (b.len - count) (sym size) ∙ sym (drop-take count b.len b.buf),
      )
]

appended_lem :
    (b : FrameBuf) (packet : List ℕ) (offset : ℕ)
    → IsValid b
    → b.len < length b.buf
    → offset < length packet
    → let copied = min (length b.buf - b.len) (length packet - offset) in
      let b' : FrameBuf = record {
        buf = copy_at b.buf b.len (slice offset (offset + copied) packet);
        len = b.len + copied;
      } in
      IsValid b'
      × (view b' ≡ view b ++ slice offset (offset + copied) packet)
      × (offset + copied ≡ offset + copied)
      × (copied ≡ min (max_frame_size - b.len) (length packet - offset))
appended_lem b packet offset v room left =
    let copied = min (length b.buf - b.len) (length packet - offset) in
    let src = slice offset (offset + copied) packet in
    let rest = drop (b.len + length src) b.buf in
    let size : length src ≡ copied = omega (
      arith,
      length-take (offset + copied - offset) (drop offset packet),
      length-drop offset packet,
    ) in
    let front : length (view b ++ src) ≡ b.len + copied =
      omega (arith, length-append (view b) src, length-view b v, size) in
    let whole : copy_at b.buf b.len src ≡ view b ++ src ++ rest =
      sym (append_assoc (view b) src rest) in
    (
      record {
        buf_size = omega (
          arith,
          v.buf_size,
          v.len_fits,
          ap length whole,
          front,
          size,
          length-append (view b ++ src) rest,
          length-drop (b.len + length src) b.buf,
        );
        len_fits = omega (arith, v.buf_size, v.len_fits);
      },
      ap (λ (xs : List ℕ). take (b.len + copied) xs) whole
          ∙ take-append_self (view b ++ src) rest (b.len + copied) (sym front),
      refl,
      omega (arith, v.buf_size),
    )

-- `append_packet_chunk` appends as many of the packet's remaining bytes as there is room for.
pub view-append_packet_chunk :
    (b : FrameBuf) (packet : List ℕ) (offset : ℕ)
    → IsValid b
    → let a = append_packet_chunk b packet offset in
      IsValid a.frame
      × (view a.frame ≡ view b ++ slice offset (offset + a.copied) packet)
      × (a.packet_offset ≡ offset + a.copied)
      × (a.copied ≡ min (max_frame_size - b.len) (length packet - offset))
unfolding append_packet_chunk
view-append_packet_chunk b packet offset v =
    elim (Bool-cases (leb (length b.buf) b.len || leb (length packet) offset)) [
      | inl full ↦
          let nothing : slice offset (offset + 0) packet ≡ [] =
            let e : offset + 0 - offset ≡ 0 = omega arith in
            ap (λ k. take k (drop offset packet)) e in
          rw full (
            v,
            sym (append-nil (view b)) ∙ ap (λ r. view b ++ r) (sym nothing),
            omega arith,
            ground (arith, v.buf_size, v.len_fits),
          )
      | inr room ↦ rw room (appended_lem b packet offset v (ground arith) (ground arith))
    ]

-- The drain loop on a list of bytes, with what it leaves and the events in order.
abbrev pub drain_view : ℕ → List ℕ → List ℕ × List FrameEvent
drain_view zero xs = (xs, [])
drain_view (suc fuel) xs = elim (next_frame_action xs) [
  | none ↦ (xs, [])
  | some need_more ↦ (xs, [])
  | some (drop_prefix count) ↦ drain_view fuel (drop count xs)
  | some (reject len sequence error) ↦
      emit (refused (response_version xs) sequence error) (drain_view fuel (drop len xs))
  | some (process len) ↦ emit (process_frame (take len xs)) (drain_view fuel (drop len xs))
]

shifted :
    (fuel : ℕ) (b : FrameBuf) (count : ℕ)
    → IsValid b
    → ((c : FrameBuf)
        → IsValid c
        → let (c', events) = drain_frames fuel c in
          IsValid c' × (drain_view fuel (view c) ≡ (view c', events)))
    → let (b', events) = drain_frames fuel (shift_left b count) in
      IsValid b' × (drain_view fuel (drop count (view b)) ≡ (view b', events))
shifted fuel b count v ih =
    let (valid, same) = view-shift_left b count v in
    let (valid', same') = ih (shift_left b count) valid in
    (valid', ap (drain_view fuel) (sym same) ∙ same')

-- Refinement: the loop on the fixed buffer is the loop on the list of buffered bytes.
pub drain_frames-view :
    (fuel : ℕ) (b : FrameBuf)
    → IsValid b
    → let (b', events) = drain_frames fuel b in
      IsValid b' × (drain_view fuel (view b) ≡ (view b', events))
unfolding drain_frames
drain_frames-view zero b v = (v, refl)
drain_frames-view (suc fuel) b v = elim (Option-cases (next_frame_action (view b))) [
  | inl e ↦ rw (e, drain_frames, drain_view) (v, refl)
  | inr (need_more, e) ↦ rw (e, drain_frames, drain_view) (v, refl)
  | inr (drop_prefix count, e) ↦
      rw (e, drain_frames, drain_view)
        (let (valid, same) = shifted fuel b count v (drain_frames-view fuel) in (valid, same))
  | inr (reject len sequence error, e) ↦
      rw (e, drain_frames, drain_view)
        (let (valid, same) = shifted fuel b len v (drain_frames-view fuel) in
          (valid, ap (emit (refused (response_version (view b)) sequence error)) same))
  | inr (process len, e) ↦
      rw (e, drain_frames, drain_view)
        (let (valid, same) = shifted fuel b len v (drain_frames-view fuel) in
          let bytes : take len (view b) ≡ take len b.buf =
            take-take len b.len b.buf
              (omega (arith, next_frame_action-consumed (view b) e, length-view b v)) in
          (
            valid,
            ap (λ xs. emit (process_frame xs) (drain_view fuel (drop len (view b)))) bytes
                ∙ ap (emit (process_frame (take len b.buf))) same,
          ))
]
