-- ===== src/Protocol/Detect.antt =====
-- src/protocol.rs: a frame in which one byte was changed on the way is refused.
use rp2350_keymouse_bridge_f.Common.{
  ℕ, zero, suc, ◌+◌, ◌-◌, ◌<◌, ◌≡◌, ◌≢◌, sym, ap, ◌∙◌, arith, List, [], ◌∷◌, ◌++◌, ok, err, length,
  get_or, set, length-set, get_or-append, get_or-append_left, get_or-set_self, set-append_left,
  set-append_right, append-injective, to_be_bytes, IsBytes, All-append, subst, Result-cases, inl,
  inr, ltb, Bool-cases,
}
use rp2350_keymouse_bridge_f.Protocol.{Frame, DecodeError}
use rp2350_keymouse_bridge_f.Protocol.Crc.{crc16_ccitt_false, crc16_ccitt_false-lt}
use rp2350_keymouse_bridge_f.Protocol.Crc.Injective.{crc16_ccitt_false-set}
use rp2350_keymouse_bridge_f.Protocol.Codec.{decode_frame}
use rp2350_keymouse_bridge_f.Protocol.Bytes.{covered, frame_bytes, length-frame_bytes}
use rp2350_keymouse_bridge_f.Protocol.Sound.{decode_frame_sound}

-- Two messages followed by their checksums, of which one is the other with a byte changed, are one.
sealed_set :
    (xs ys : List ℕ) (i v : ℕ)
    → IsBytes xs
    → v < 256
    → i < length xs + 2
    → length xs ≡ length ys
    → set (xs ++ to_be_bytes (crc16_ccitt_false xs)) i v ≡ ys ++ to_be_bytes (crc16_ccitt_false ys)
    → get_or (xs ++ to_be_bytes (crc16_ccitt_false xs)) i 0 ≡ v
sealed_set xs ys i v bytes q h l e = elim (Bool-cases (ltb i (length xs))) [
  | inl inside ↦
      let (body, tail) =
        append-injective (set xs i v) (to_be_bytes (crc16_ccitt_false xs)) ys
          (to_be_bytes (crc16_ccitt_false ys)) (length-set xs i v ∙ l)
          (sym (set-append_left xs _ i v (ground arith)) ∙ e) in
      let same : crc16_ccitt_false xs ≡ crc16_ccitt_false ys =
        ground (arith, crc16_ccitt_false-lt xs, crc16_ccitt_false-lt ys) in
      get_or-append_left xs (to_be_bytes (crc16_ccitt_false xs)) i 0 (ground arith)
      ∙ crc16_ccitt_false-set xs i v bytes q (ground arith) (ap crc16_ccitt_false body ∙ sym same)
  | inr behind ↦
      let (body, tail) =
        append-injective xs (set (to_be_bytes (crc16_ccitt_false xs)) (i - length xs) v) ys
          (to_be_bytes (crc16_ccitt_false ys)) l
          (sym (set-append_right xs _ i (i - length xs) v (ground arith)) ∙ e) in
      let k = i - length xs in
      let seal = to_be_bytes (crc16_ccitt_false xs) in
      let kept : set seal k v ≡ seal =
        tail ∙ ap (λ zs. to_be_bytes (crc16_ccitt_false zs)) (sym body) in
      get_or-append xs seal i k 0 (ground arith)
      ∙ (ap (λ zs. get_or zs k 0) (sym kept) ∙ get_or-set_self seal k v 0 (ground arith))
]

IsBytes-set : (xs : List ℕ) (i v : ℕ) → IsBytes xs → v < 256 → IsBytes (set xs i v)
IsBytes-set [] i v h q = tt
IsBytes-set (x ∷ xs) zero v h q = (q, h.1)
IsBytes-set (x ∷ xs) (suc i) v h q = (h.0, IsBytes-set xs i v h.1 q)

corrupted_absurd :
    (f g : Frame) (i v : ℕ)
    → IsBytes (frame_bytes f)
    → v < 256
    → i < length (frame_bytes f)
    → set (frame_bytes f) i v ≡ frame_bytes g
    → get_or (frame_bytes f) i 0 ≡ v
corrupted_absurd f g zero v bytes q h e = cc
corrupted_absurd f g (suc zero) v bytes q h e = cc
corrupted_absurd f g (suc (suc i)) v bytes q h e =
    let (cover_bytes, _) = All-append (λ b. b < 256) (covered f) _ bytes.1.1 in
    let size : length (frame_bytes f) ≡ length (frame_bytes g) =
      sym (length-set (frame_bytes f) (suc (suc i)) v) ∙ ap length e in
    sealed_set (covered f) (covered g) i v cover_bytes q (omega (arith, length-frame_bytes f))
      (omega (arith, length-frame_bytes f, length-frame_bytes g)) (cc)

-- Error detection: change any single byte of a packet that the decoder accepts, wherever it stands,
-- and the decoder returns an error.
pub decode_frame-set :
    (input : List ℕ) {f : Frame} (i v : ℕ)
    → IsBytes input
    → decode_frame input ≡ ok f
    → i < length input
    → v < 256
    → get_or input i 0 ≢ v
    → (e : DecodeError) × (decode_frame (set input i v) ≡ err e)
decode_frame-set input {f} i v bytes h inside q changed =
    elim (Result-cases (decode_frame (set input i v))) [
      | inr refused ↦ refused
      | inl (g, accepted) ↦
          let (same, _) = decode_frame_sound input bytes h in
          let (same', _) =
            decode_frame_sound (set input i v) (IsBytes-set input i v bytes q) accepted in
          absurd (
            changed (
              ap (λ xs. get_or xs i 0) same
              ∙ corrupted_absurd f g i v (subst IsBytes same bytes) q
                  (subst (λ xs. i < length xs) same inside)
                  (ap (λ xs. set xs i v) (sym same) ∙ same')))
    ]
