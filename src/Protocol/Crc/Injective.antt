-- ===== src/Protocol/Crc/Injective.antt =====
-- src/protocol.rs: the checksum tells two messages apart that differ in one byte.
use rp2350_keymouse_bridge_f.Common.{
  ℕ, zero, suc, ◌-◌, ◌*◌, ◌%◌, ◌<◌, ◌≤◌, ◌≡◌, ap, sym, arith, List, [], ◌∷◌, bit_xor, u16_mod,
  Bool-cases, inl, inr, ltb, IsBytes, length, set, get_or,
}
use rp2350_keymouse_bridge_f.Common.Bits.{
  bit_xor-lt, bit_xor-cancel, bit_xor_comm, bit_xor_digit, bit_and_top,
}
use Prim.Native.Nat.{differ}
use rp2350_keymouse_bridge_f.Protocol.Crc.{
  crc_round, crc_rounds, crc_byte, crc_bytes, crc16_ccitt_false, crc_round-lt, crc_byte-lt,
}

round_low : (a : ℕ) → a < 32768 → crc_round a ≡ a * 2
unfolding crc_round
round_low a h = ground (arith, (bit_and_top 15 a (omega arith)).0 h)

round_high : (a : ℕ) → 32768 ≤ a → a < u16_mod → crc_round a ≡ bit_xor (a * 2 - u16_mod) 0x1021
unfolding crc_round
round_high a h w =
    let e : a * 2 % u16_mod ≡ a * 2 - u16_mod = omega arith in
    ground (arith, (bit_and_top 15 a w).1 h, ap (λ (t : ℕ). bit_xor t 0x1021) e)

round_high_odd : (a : ℕ) → 32768 ≤ a → a < u16_mod → crc_round a % 2 ≡ 1
round_high_odd a h w =
    let e : (a * 2 - u16_mod) % 2 ≡ 0 = omega arith in
    omega (
      arith,
      round_high a h w,
      bit_xor_digit (a * 2 - u16_mod) 0x1021,
      ap (λ (t : ℕ). differ t 1) e,
    )

crc_round-injective : (a b : ℕ) → a < u16_mod → b < u16_mod → crc_round a ≡ crc_round b → a ≡ b
crc_round-injective a b p q e = elim (Bool-cases (ltb a 32768)) [
  | inl la ↦ elim (Bool-cases (ltb b 32768)) [
    | inl lb ↦ ground (arith, round_low a, round_low b)
    | inr hb ↦ ground (arith, round_low a, round_high_odd b)
  ]
  | inr ha ↦ elim (Bool-cases (ltb b 32768)) [
    | inl lb ↦ ground (arith, round_high_odd a, round_low b)
    | inr hb ↦ ground (
      arith,
      round_high a,
      round_high b,
      bit_xor-cancel 16 (a * 2 - u16_mod) (b * 2 - u16_mod) 0x1021,
    )
  ]
]

crc_rounds-injective :
    (n a b : ℕ) → a < u16_mod → b < u16_mod → crc_rounds n a ≡ crc_rounds n b → a ≡ b
unfolding crc_rounds
crc_rounds-injective zero a b p q e = e
crc_rounds-injective (suc n) a b p q e =
    crc_round-injective a b p q
      (crc_rounds-injective n (crc_round a) (crc_round b) (crc_round-lt a) (crc_round-lt b) e)

crc_byte-injective_crc :
    (a b byte : ℕ)
    → a < u16_mod
    → b < u16_mod
    → byte < 256
    → crc_byte a byte ≡ crc_byte b byte
    → a ≡ b
unfolding crc_byte
crc_byte-injective_crc a b byte p q w e = bit_xor-cancel 16 a b (byte * 256) p q (
    crc_rounds-injective 8 (bit_xor a (byte * 256)) (bit_xor b (byte * 256))
      (bit_xor-lt 16 a (byte * 256) p (omega arith)) (bit_xor-lt 16 b (byte * 256) q (omega arith))
      e)

crc_byte-injective_byte :
    (crc x y : ℕ) → crc < u16_mod → x < 256 → y < 256 → crc_byte crc x ≡ crc_byte crc y → x ≡ y
unfolding crc_byte
crc_byte-injective_byte crc x y p wx wy e =
    let xe =
      crc_rounds-injective 8 (bit_xor crc (x * 256)) (bit_xor crc (y * 256))
        (bit_xor-lt 16 crc (x * 256) p (omega arith)) (bit_xor-lt 16 crc (y * 256) p (omega arith))
        e in
    let r : x * 256 ≡ y * 256 =
      bit_xor-cancel 16 (x * 256) (y * 256) crc (omega arith) (omega arith) (
        cc (
          xe,
          bit_xor_comm 16 crc (x * 256) p (omega arith),
          bit_xor_comm 16 crc (y * 256) p (omega arith),
        )) in
    omega arith

crc_bytes-injective_crc :
    (a b : ℕ) (bytes : List ℕ)
    → a < u16_mod
    → b < u16_mod
    → IsBytes bytes
    → crc_bytes a bytes ≡ crc_bytes b bytes
    → a ≡ b
unfolding crc_bytes
crc_bytes-injective_crc a b [] p q w e = e
crc_bytes-injective_crc a b (x ∷ xs) p q w e = crc_byte-injective_crc a b x p q w.0 (
    crc_bytes-injective_crc (crc_byte a x) (crc_byte b x) xs (crc_byte-lt a x) (crc_byte-lt b x) w.1
      e)

crc_bytes-set :
    (crc : ℕ) (bytes : List ℕ) (i v : ℕ)
    → crc < u16_mod
    → IsBytes bytes
    → v < 256
    → i < length bytes
    → crc_bytes crc (set bytes i v) ≡ crc_bytes crc bytes
    → get_or bytes i 0 ≡ v
unfolding crc_bytes
crc_bytes-set crc [] i v p w q h e = absurd (omega arith)
crc_bytes-set crc (x ∷ xs) zero v p w q h e = sym (
    crc_byte-injective_byte crc v x p q w.0 (
      crc_bytes-injective_crc (crc_byte crc v) (crc_byte crc x) xs (crc_byte-lt crc v)
        (crc_byte-lt crc x) w.1 e))
crc_bytes-set crc (x ∷ xs) (suc i) v p w q h e =
    crc_bytes-set (crc_byte crc x) xs i v (crc_byte-lt crc x) w.1 q (omega arith) e

-- Changing one byte of a message, whatever its length, changes the checksum.
pub crc16_ccitt_false-set :
    (bytes : List ℕ) (i v : ℕ)
    → IsBytes bytes
    → v < 256
    → i < length bytes
    → crc16_ccitt_false (set bytes i v) ≡ crc16_ccitt_false bytes
    → get_or bytes i 0 ≡ v
unfolding crc16_ccitt_false
crc16_ccitt_false-set bytes i v w q h e = crc_bytes-set 0xffff bytes i v (omega arith) w q h e
