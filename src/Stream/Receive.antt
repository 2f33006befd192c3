-- ===== src/Stream/Receive.antt =====
-- src/runtime.rs: the packet loop of `cdc_receive_task` delivers the frames of a byte stream, however
-- the stream is cut into packets.
use rp2350_keymouse_bridge_f.Common.{
  ℕ, zero, suc, ◌+◌, ◌-◌, ◌≤◌, ◌<◌, ◌≡◌, refl, sym, ap, ◌∙◌, arith, List, [], ◌∷◌, ◌++◌, map,
  length, take, drop, slice, Bool-cases, inl, inr, append_assoc, append-nil, All, subst, ltb, false,
  take-append-drop, drop-drop, drop-length, map-append, ◌==◌, ltb→lt, All-append,
}
use rp2350_keymouse_bridge_f.Protocol.{max_frame_size, Frame}
use rp2350_keymouse_bridge_f.Protocol.RoundTrip.{IsWire}
use rp2350_keymouse_bridge_f.Stream.{
  FrameBuf, view, IsValid, append_packet_chunk, next_frame_action,
}
use rp2350_keymouse_bridge_f.Stream.Drain.{
  FrameEvent, decoded, drain_frames, Receiver, Round, receive_round, receive_packet,
}
use rp2350_keymouse_bridge_f.Stream.View.{length-view, view-append_packet_chunk, drain_frames-view}
use rp2350_keymouse_bridge_f.Stream.Idle.{IsIdle, nil-IsIdle, IsIdle-length, drain_frames-IsIdle}
use rp2350_keymouse_bridge_f.Stream.Reassembly.{stream, frame_action, Split, drain_view-Split}

-- Between two rounds of the loop.
pub record IsReady (b : FrameBuf) : Type 0 where
  pub valid : IsValid b
  pub idle : IsIdle (view b)

slice-append-drop :
    (offset copied : ℕ) (xs : List ℕ)
    → slice offset (offset + copied) xs ++ drop (offset + copied) xs ≡ drop offset xs
slice-append-drop offset copied xs =
    let e : offset + copied - offset ≡ copied = omega arith in
    ap (λ n. take n (drop offset xs) ++ drop (offset + copied) xs) e
    ∙ (ap (λ r. take copied (drop offset xs) ++ r)
          (sym (drop-drop offset copied (offset + copied) xs refl))
        ∙ take-append-drop copied (drop offset xs))

-- One round: bytes move from the packet to the buffer, and complete frames come out.
round_lem :
    (b : FrameBuf) (packet : List ℕ) (offset : ℕ) (fs : List Frame) (later : List ℕ)
    → IsReady b
    → All IsWire fs
    → offset < length packet
    → view b ++ (drop offset packet ++ later) ≡ stream fs
    → let a = append_packet_chunk b packet offset in
      let (b', events) = drain_frames a.frame.len a.frame in
      (1 ≤ a.copied)
      × (a.packet_offset ≡ offset + a.copied)
      × IsReady b'
      × Split fs (view b') events (drop (offset + a.copied) packet ++ later)
round_lem b packet offset fs later r w left e =
    let a = append_packet_chunk b packet offset in
    let b' = (drain_frames a.frame.len a.frame).0 in
    let (valid, appended, moved, copied) = view-append_packet_chunk b packet offset r.valid in
    let (valid', idle', _) = drain_frames-IsIdle a.frame valid in
    let (_, same) = drain_frames-view a.frame.len a.frame valid in
    let room = IsIdle-length (view b) r.idle in
    let src = slice offset (offset + a.copied) packet in
    let tail = drop (offset + a.copied) packet in
    let whole : view a.frame ++ (tail ++ later) ≡ stream fs =
      ap (λ xs. xs ++ (tail ++ later)) appended
      ∙ (append_assoc (view b) src (tail ++ later)
          ∙ (ap (λ xs. view b ++ xs)
                (sym (append_assoc src tail later)
                  ∙ ap (λ xs. xs ++ later) (slice-append-drop offset a.copied packet))
              ∙ e)) in
    (
      omega (arith, length-view b r.valid),
      moved,
      record { valid = valid'; idle = idle' },
      subst (λ (p : List ℕ × List FrameEvent). Split fs p.0 p.1 (tail ++ later)) same
          (drain_view-Split fs a.frame.len (view a.frame) (tail ++ later) w whole
            (omega (arith, length-view a.frame valid))),
    )

Split-join :
    (fs : List Frame) (left left' : List ℕ) (events events' : List FrameEvent) (mid later : List ℕ)
    → (s : Split fs left events mid) → Split s.rest left' events' later
    → Split fs left' (events ++ events') later
Split-join fs left left' events events' mid later s t = record {
  complete = s.complete ++ t.complete;
  rest = t.rest;
  in_order =
      s.in_order
      ∙ (ap (λ gs. s.complete ++ gs) t.in_order ∙ sym (append_assoc s.complete t.complete t.rest));
  delivered = simp (s.delivered, t.delivered, map-append);
  pending = t.pending;
}

receive_packet-Split :
    (fuel : ℕ) (rounds : ℕ → Round) (packet : List ℕ) (offset : ℕ) (r : Receiver) (fs : List Frame)
    (later : List ℕ)
    → ((i : ℕ) → (rounds i).interrupted ≡ false)
    → IsReady r.frame
    → All IsWire fs
    → view r.frame ++ (drop offset packet ++ later) ≡ stream fs
    → length packet - offset < fuel
    → let (r', events) = receive_packet fuel rounds packet offset r in
      IsReady r'.frame × Split fs (view r'.frame) events later
unfolding receive_packet
receive_packet-Split zero rounds packet offset r fs later calm ready w e h = absurd (omega arith)
receive_packet-Split (suc fuel) rounds packet offset r fs later calm ready w e h =
    elim (Bool-cases (ltb offset (length packet))) [
      | inr over ↦
          let gone : drop offset packet ≡ [] = drop-length packet offset (ground arith) in
          rw (over, receive_packet)
            (
              ready,
              record {
                complete = [];
                rest = fs;
                in_order = refl;
                delivered = refl;
                pending = subst (λ xs. view r.frame ++ (xs ++ later) ≡ stream fs) gone e;
              },
            )
      | inl more ↦
          let left = ltb→lt offset (length packet) more in
          let a = append_packet_chunk r.frame packet offset in
          let (progress, moved, ready', split) =
            round_lem r.frame packet offset fs later ready w left e in
          let r' = (receive_round (rounds fuel) r a).0 in
          let (_, w') =
            All-append IsWire split.complete split.rest (subst (All IsWire) split.in_order w) in
          let (ready'', split') =
            receive_packet-Split fuel rounds packet a.packet_offset r' split.rest later calm ready'
              w'
              (subst (λ n. view r'.frame ++ (drop n packet ++ later) ≡ stream split.rest)
                (sym moved) split.pending)
              (omega arith) in
          let some_copied : (a.copied == 0) ≡ false = ground arith in
          rw (more, some_copied, calm fuel, receive_packet)
            (
              ready'',
              Split-join fs (view r'.frame) _ _ _ (drop (offset + a.copied) packet ++ later) later
                  split split',
            )
    ]

-- Packets read one after the other, with no reset and no timeout in between. A round copies a byte
-- at least, so a packet's length is fuel enough.
pub receive_packets : List (List ℕ × (ℕ → Round)) → Receiver → Receiver × List FrameEvent
unfolding receive_packet
receive_packets [] r = (r, [])
receive_packets ((packet, rounds) ∷ packets) r =
    let (r', events) = receive_packet (suc (length packet)) rounds packet 0 r in
    let (r'', later) = receive_packets packets r' in (r'', events ++ later)

abbrev pub contents : List (List ℕ × (ℕ → Round)) → List ℕ
contents [] = []
contents ((packet, _) ∷ packets) = packet ++ contents packets

abbrev pub IsCalm : List ℕ × (ℕ → Round) → Type 0
IsCalm (_, rounds) = (i : ℕ) → (rounds i).interrupted ≡ false

receive_packets-Split :
    (packets : List (List ℕ × (ℕ → Round))) (r : Receiver) (fs : List Frame)
    → All IsCalm packets
    → IsReady r.frame
    → All IsWire fs
    → view r.frame ++ contents packets ≡ stream fs
    → let (r', events) = receive_packets packets r in
      IsReady r'.frame × Split fs (view r'.frame) events []
unfolding receive_packets
receive_packets-Split [] r fs calm ready w e =
    (ready, record { complete = []; rest = fs; in_order = refl; delivered = refl; pending = e })
receive_packets-Split ((packet, rounds) ∷ packets) r fs calm ready w e =
    let (ready', split) =
      receive_packet-Split (suc (length packet)) rounds packet 0 r fs (contents packets) calm.0
        ready w e (omega arith) in
    let (_, w') =
      All-append IsWire split.complete split.rest (subst (All IsWire) split.in_order w) in
    let (r', events) = receive_packet (suc (length packet)) rounds packet 0 r in
    let (ready'', split') =
      receive_packets-Split packets r' split.rest calm.1 ready' w' split.pending in
    (ready'', Split-join fs (view r'.frame) _ events _ (contents packets) [] split split')

-- A whole stream leaves nothing behind: what is left would be a frame that the loop takes.
nothing_left :
    (fs : List Frame) (left : List ℕ)
    → All IsWire fs
    → IsIdle left
    → left ++ [] ≡ stream fs
    → fs ≡ []
nothing_left [] left w idle e = refl
nothing_left (f ∷ fs) left w idle e =
    let taken = frame_action f (stream fs) w.0 in
    let same = ap next_frame_action (sym (append-nil left) ∙ e) in
    elim idle [ inl n ↦ cc | inr n ↦ cc ]

-- Reassembly: take any frames that fit the wire, encode them one after the other, and cut the bytes
-- into packets in any way at all. A receiver that starts with an empty buffer, and is not
-- interrupted, delivers exactly these frames, in order and each once, and ends with an empty buffer.
pub receive_packets-stream :
    (fs : List Frame) (packets : List (List ℕ × (ℕ → Round))) (r : Receiver)
    → All IsWire fs
    → All IsCalm packets
    → contents packets ≡ stream fs
    → length r.frame.buf ≡ max_frame_size
    → r.frame.len ≡ 0
    → let (r', events) = receive_packets packets r in (events ≡ map decoded fs) × (r'.frame.len ≡ 0)
receive_packets-stream fs packets r w calm e size empty =
    let start : view r.frame ≡ [] = ap (λ n. take n r.frame.buf) empty in
    let ready : IsReady r.frame = record {
      valid = record { buf_size = size; len_fits = omega arith };
      idle = subst IsIdle (sym start) nil-IsIdle;
    } in
    let (ready', split) =
      receive_packets-Split packets r fs calm ready w
        (ap (λ xs. xs ++ contents packets) start ∙ e) in
    let (_, w') =
      All-append IsWire split.complete split.rest (subst (All IsWire) split.in_order w) in
    let none_later = nothing_left split.rest _ w' ready'.idle split.pending in
    let all : fs ≡ split.complete =
      split.in_order ∙ (ap (λ gs. split.complete ++ gs) none_later ∙ append-nil split.complete) in
    let nothing = sym (append-nil _) ∙ (split.pending ∙ ap stream none_later) in
    (
      split.delivered ∙ ap (map decoded) (sym all),
      omega (arith, length-view _ ready'.valid, ap length nothing),
    )
