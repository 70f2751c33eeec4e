-- ===== src/Modbus/Crc.antt =====
-- src/modbus/modbus_crc.c: the CRC-16 of Modbus RTU.
pub mod Residue
pub mod Detection
use moxa_4vrs_gateway.Prelude.{
  ℕ, zero, suc, ◌/◌, bit_and, bit_xor, List, [], ◌∷◌, ◌==◌, if◌then◌else◌,
}

-- One round of the inner loop; the `unsigned short` never overflows.
unfoldable pub crc_bit : ℕ → ℕ
crc_bit crc = if bit_and crc 1 == 0 then crc / 2 else bit_xor (crc / 2) 0xa001

unfoldable pub crc_bits : ℕ → ℕ → ℕ
crc_bits zero crc = crc
crc_bits (suc n) crc = crc_bits n (crc_bit crc)

-- One round of the outer loop.
unfoldable pub crc_byte : ℕ → ℕ → ℕ
crc_byte crc byte = crc_bits 8 (bit_xor crc byte)

unfoldable pub crc_from : ℕ → List ℕ → ℕ
crc_from crc [] = crc
crc_from crc (byte ∷ rest) = crc_from (crc_byte crc byte) rest

-- The list is `data` up to `length`.
unfoldable pub crc16 : List ℕ → ℕ
crc16 bytes = crc_from 0xffff bytes
