-- ===== src/Common/Words.antt =====
-- Rust's machine words: big-endian bytes and wrapping arithmetic.
use Prim.Native.Nat.{ℕ, ◌+◌, ◌-◌, ◌*◌, ◌/◌, ◌%◌, ◌<◌}
use mathlib.Core.List.{List, [], ◌∷◌}
use rp2350_keymouse_bridge_f.Common.Tests.{ltb, if◌then◌else◌}
use rp2350_keymouse_bridge_f.Common.Lists.{All}
use rp2350_keymouse_bridge_f.Common.Int.{ℤ, pos, negsuc}

-- The elements of a `&[u8]`.
abbrev pub IsBytes : List ℕ → Type 0
IsBytes = All (λ b. b < 256)

abbrev pub u16_mod : ℕ
u16_mod = 65536

abbrev pub u32_mod : ℕ
u32_mod = 4294967296

abbrev pub u64_mod : ℕ
u64_mod = 18446744073709551616

-- `u16::to_be_bytes`
abbrev pub to_be_bytes : ℕ → List ℕ
to_be_bytes w = (w / 256 % 256) ∷ (w % 256) ∷ []

-- `u16::from_be_bytes`
abbrev pub from_be_bytes : ℕ → ℕ → ℕ
from_be_bytes hi lo = hi * 256 + lo

-- `u32::from_be_bytes`
abbrev pub from_be_bytes32 : ℕ → ℕ → ℕ → ℕ → ℕ
from_be_bytes32 a b c d = ((a * 256 + b) * 256 + c) * 256 + d

-- `as i16` of a bit pattern
abbrev pub as_i16 : ℕ → ℤ
as_i16 w = if ltb w 32768 then pos w else negsuc (65535 - w)

-- `as i8` of a bit pattern
abbrev pub as_i8 : ℕ → ℤ
as_i8 w = if ltb w 128 then pos w else negsuc (255 - w)

-- `as u16` of an `i16` and `as u8` of an `i8`
abbrev pub i16_as_u16 : ℤ → ℕ
i16_as_u16 (pos n) = n % 65536
i16_as_u16 (negsuc n) = 65535 - n % 65536

abbrev pub i8_as_u8 : ℤ → ℕ
i8_as_u8 (pos n) = n % 256
i8_as_u8 (negsuc n) = 255 - n % 256

-- `u32::to_be_bytes`
abbrev pub to_be_bytes32 : ℕ → List ℕ
to_be_bytes32 w = (w / 16777216 % 256) ∷ (w / 65536 % 256) ∷ (w / 256 % 256) ∷ (w % 256) ∷ []

-- `u64::wrapping_add` and `u64::wrapping_sub`
abbrev pub wrapping_add : ℕ → ℕ → ℕ
wrapping_add a b = (a + b) % u64_mod

abbrev pub wrapping_sub : ℕ → ℕ → ℕ
wrapping_sub a b = (a + u64_mod - b) % u64_mod
