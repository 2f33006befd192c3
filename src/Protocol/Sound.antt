-- ===== src/Protocol/Sound.antt =====
-- src/protocol.rs: a packet that the decoder accepts is the encoding of the frame that it returns.
use rp2350_keymouse_bridge_f.Common.{
  ℕ, zero, suc, ◌+◌, ◌≤◌, ◌<◌, ◌≡◌, refl, sym, ap, ◌∙◌, arith, List, [], ◌∷◌, ◌++◌, ok, length,
  get_or, from_be_bytes, to_be_bytes, IsBytes, All-append, subst,
}
use rp2350_keymouse_bridge_f.Protocol.{
  max_payload_size, frame_overhead, from_byte, as_byte-from_byte, Frame,
}
use rp2350_keymouse_bridge_f.Protocol.Crc.{crc16_ccitt_false}
use rp2350_keymouse_bridge_f.Protocol.Codec.{decode_frame}
use rp2350_keymouse_bridge_f.Protocol.Bytes.{covered, frame_bytes}
use rp2350_keymouse_bridge_f.Protocol.RoundTrip.{decode_shape, IsWire}

decode_frame-length :
    (input : List ℕ) {f : Frame}
    → decode_frame input ≡ ok f
    → (frame_overhead ≤ length input)
      × (length input ≡ frame_overhead + from_be_bytes (get_or input 7 0) (get_or input 8 0))
unfolding decode_frame
decode_frame-length input h = ground arith

split_tail :
    (n : ℕ) (xs : List ℕ)
    → length xs ≡ n + 2
    → (p : List ℕ) × (a : ℕ) × (b : ℕ) × (xs ≡ p ++ a ∷ b ∷ []) × (length p ≡ n)
split_tail zero (a ∷ b ∷ []) h = ([], a, b, refl, refl)
split_tail zero _ h = absurd (omega arith)
split_tail (suc n) [] h = absurd (omega arith)
split_tail (suc n) (x ∷ xs) h =
    let (p, a, b, e, l) = split_tail n xs (omega arith) in
    (x ∷ p, a, b, ap (λ r. x ∷ r) e, ap suc l)

-- What the tests of the decoder establish.
shape_facts :
    (a b v fl s1 s0 t l1 l0 c1 c0 : ℕ) (p : List ℕ) {f : Frame}
    → length p ≡ from_be_bytes l1 l0
    → decode_frame (a ∷ b ∷ v ∷ fl ∷ s1 ∷ s0 ∷ t ∷ l1 ∷ l0 ∷ (p ++ c1 ∷ c0 ∷ [])) ≡ ok f
    → (a ≡ 0xa5)
      × (b ≡ 0x5a)
      × (length p ≤ max_payload_size)
      × (from_be_bytes c1 c0 ≡ crc16_ccitt_false (v ∷ fl ∷ s1 ∷ s0 ∷ t ∷ l1 ∷ l0 ∷ p))
      × (record {
        version = v;
        flags = fl;
        sequence = from_be_bytes s1 s0;
        command_type = from_byte t;
        payload = p;
      }
          ≡ f)
shape_facts a b v fl s1 s0 t l1 l0 c1 c0 p l h =
    let e = sym (decode_shape a b v fl s1 s0 t l1 l0 c1 c0 p l) ∙ h in ground arith

shape-frame_bytes :
    (a b v fl s1 s0 t l1 l0 c1 c0 : ℕ) (p : List ℕ) {f : Frame}
    → length p ≡ from_be_bytes l1 l0
    → IsBytes (a ∷ b ∷ v ∷ fl ∷ s1 ∷ s0 ∷ t ∷ l1 ∷ l0 ∷ c1 ∷ c0 ∷ [])
    → decode_frame (a ∷ b ∷ v ∷ fl ∷ s1 ∷ s0 ∷ t ∷ l1 ∷ l0 ∷ (p ++ c1 ∷ c0 ∷ [])) ≡ ok f
    → (a ∷ b ∷ v ∷ fl ∷ s1 ∷ s0 ∷ t ∷ l1 ∷ l0 ∷ (p ++ c1 ∷ c0 ∷ []) ≡ frame_bytes f) × IsWire f
shape-frame_bytes a b v fl s1 s0 t l1 l0 c1 c0 p l bytes h =
    let (ea, eb, fits, crc, ef) = shape_facts a b v fl s1 s0 t l1 l0 c1 c0 p l h in
    let g : Frame = record {
      version = v;
      flags = fl;
      sequence = from_be_bytes s1 s0;
      command_type = from_byte t;
      payload = p;
    } in
    let covers : v ∷ fl ∷ s1 ∷ s0 ∷ t ∷ l1 ∷ l0 ∷ p ≡ covered g =
      ground (arith, as_byte-from_byte t) in
    let check : c1 ∷ c0 ∷ [] ≡ to_be_bytes (crc16_ccitt_false (covered g)) =
      rw (← covers, ← crc) (ground arith) in
    rw (← ef) (
      cc (ea, eb, covers, check),
      record {
        sequence_fits = omega arith;
        canonical = ap from_byte (as_byte-from_byte t);
        payload_fits = fits;
      },
    )

-- Soundness: a byte string that decodes is exactly the encoding of the frame returned, which is
-- within the limits. So no two byte strings decode to one frame, and nothing else is accepted.
pub decode_frame_sound :
    (input : List ℕ) {f : Frame}
    → IsBytes input
    → decode_frame input ≡ ok f
    → (input ≡ frame_bytes f) × IsWire f
decode_frame_sound (a ∷ b ∷ v ∷ fl ∷ s1 ∷ s0 ∷ t ∷ l1 ∷ l0 ∷ rest) {f} bytes h =
    let (_, size) = decode_frame-length _ h in
    let (p, c1, c0, e, l) = split_tail (from_be_bytes l1 l0) rest (omega arith) in
    let tail =
      All-append (λ b. b < 256) p (c1 ∷ c0 ∷ []) (subst IsBytes e bytes.1.1.1.1.1.1.1.1.1) in
    rw e (
      shape-frame_bytes a b v fl s1 s0 t l1 l0 c1 c0 p l (omega arith)
        (subst (λ r. decode_frame (a ∷ b ∷ v ∷ fl ∷ s1 ∷ s0 ∷ t ∷ l1 ∷ l0 ∷ r) ≡ ok f) e h))
decode_frame_sound input bytes h = absurd (omega (arith, decode_frame-length input h))
