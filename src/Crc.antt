-- ===== src/Crc.antt =====
-- The CRC-16 of src/arc_protocol.c: `arc_crc16`, bit by bit, poly 0x1021, initial value 0xFFFF.
pub mod Step
pub mod Register
pub mod Lfsr
pub mod Burst
use arc_protocol.Prelude.{ℕ, zero, suc, ◌*◌, ◌^◌, ◌==◌, if◌then◌else◌, bit_and, bit_xor}
use arc_protocol.Prelude.{List, [], ◌∷◌}
use arc_protocol.Memory.{Bytes, Run, done, ◌>>=◌, read, u16}

-- One round of the inner loop.
unfoldable pub crc_bit : ℕ → ℕ
crc_bit crc = if bit_and crc 0x8000 == 0 then u16 (crc * 2) else u16 (bit_xor (crc * 2) 0x1021)

-- The inner loop with `n` rounds left.
unfoldable pub crc_bits : ℕ → ℕ → ℕ
crc_bits zero crc = crc
crc_bits (suc n) crc = crc_bits n (crc_bit crc)

-- One round of the outer loop: `crc ^= data[i] << 8`, then eight rounds of the inner.
unfoldable pub crc_byte : ℕ → ℕ → ℕ
crc_byte crc byte = crc_bits 8 (u16 (bit_xor crc (byte * 2 ^ 8)))

-- The outer loop over the bytes left.
unfoldable pub crc_loop : ℕ → Bytes → ℕ
crc_loop crc [] = crc
crc_loop crc (byte ∷ bytes) = crc_loop (crc_byte crc byte) bytes

unfoldable pub crc16 : Bytes → ℕ → Run ℕ
crc16 buf len = do bytes ← read buf 0 len; done (crc_loop 0xffff bytes)
