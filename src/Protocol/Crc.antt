-- ===== src/Protocol/Crc.antt =====
-- src/protocol.rs: `crc16_ccitt_false`.
pub mod Injective
use rp2350_keymouse_bridge_f.Common.{
  ℕ, zero, suc, ◌*◌, ◌%◌, ◌<◌, arith, List, [], ◌∷◌, bit_xor, bit_and, ◌==◌, if◌then◌else◌, u16_mod,
}
use rp2350_keymouse_bridge_f.Common.Bits.{bit_xor-lt}

-- One round of the inner loop: a `u16` shifted left, and reduced if its top bit was set.
pub crc_round : ℕ → ℕ
crc_round crc =
    if bit_and crc 0x8000 == 0 then crc * 2 % u16_mod else bit_xor (crc * 2 % u16_mod) 0x1021

-- `for _ in 0..8`
pub crc_rounds : ℕ → ℕ → ℕ
crc_rounds zero crc = crc
crc_rounds (suc n) crc = crc_rounds n (crc_round crc)

pub crc_byte : ℕ → ℕ → ℕ
unfolding crc_rounds crc_round
crc_byte crc byte = crc_rounds 8 (bit_xor crc (byte * 256))

pub crc_bytes : ℕ → List ℕ → ℕ
unfolding crc_byte
crc_bytes crc [] = crc
crc_bytes crc (byte ∷ bytes) = crc_bytes (crc_byte crc byte) bytes

unfoldable pub crc16_ccitt_false : List ℕ → ℕ
unfolding crc_bytes
crc16_ccitt_false bytes = crc_bytes 0xffff bytes

crc_round-lt : (crc : ℕ) → crc_round crc < u16_mod
unfolding crc_round
crc_round-lt crc =
    ground (arith, bit_xor-lt 16 (crc * 2 % u16_mod) 0x1021 (omega arith) (omega arith))

crc_rounds-lt : (n crc : ℕ) → crc < u16_mod → crc_rounds n crc < u16_mod
unfolding crc_rounds
crc_rounds-lt zero crc h = h
crc_rounds-lt (suc n) crc h = crc_rounds-lt n (crc_round crc) (crc_round-lt crc)

crc_byte-lt : (crc byte : ℕ) → crc_byte crc byte < u16_mod
unfolding crc_byte
crc_byte-lt crc byte = crc_rounds-lt 7 (crc_round (bit_xor crc (byte * 256))) (crc_round-lt _)

crc_bytes-lt : (crc : ℕ) (bytes : List ℕ) → crc < u16_mod → crc_bytes crc bytes < u16_mod
unfolding crc_bytes
crc_bytes-lt crc [] h = h
crc_bytes-lt crc (byte ∷ bytes) h = crc_bytes-lt (crc_byte crc byte) bytes (crc_byte-lt crc byte)

-- The checksum is a `u16`.
pub crc16_ccitt_false-lt : (bytes : List ℕ) → crc16_ccitt_false bytes < u16_mod
unfolding crc16_ccitt_false
crc16_ccitt_false-lt bytes = crc_bytes-lt 0xffff bytes (omega arith)
