-- ===== src/Examples/Frames.antt =====
-- The theorems on the frames of src/modbus at concrete bytes.
use moxa_4vrs_gateway.Prelude.{◌/◌, ◌%◌, ◌≡◌, refl, ◌≢◌, [], ◌∷◌, ◌++◌, arith}
use moxa_4vrs_gateway.Modbus.Crc.{crc16, crc_bit, crc_bits, crc_byte, crc_from}
use moxa_4vrs_gateway.Modbus.Crc.Residue.{crc16_residue}
use moxa_4vrs_gateway.Modbus.Crc.Detection.{crc16_detects_byte}

-- The check value of the digits 1 to 9, as it is published.
crc16_test : crc16 (49 ∷ 50 ∷ 51 ∷ 52 ∷ 53 ∷ 54 ∷ 55 ∷ 56 ∷ 57 ∷ []) ≡ 0x4b37
unfolding crc16 crc_from crc_byte crc_bits crc_bit
crc16_test = refl

crc16_residue_example :
    crc16 ((1 ∷ 3 ∷ []) ++ crc16 (1 ∷ 3 ∷ []) % 256 ∷ crc16 (1 ∷ 3 ∷ []) / 256 ∷ []) ≡ 0
crc16_residue_example = crc16_residue (1 ∷ 3 ∷ []) (omega arith)

crc16_detects_byte_example : crc16 (1 ∷ 4 ∷ 3 ∷ []) ≢ crc16 (1 ∷ 5 ∷ 3 ∷ [])
crc16_detects_byte_example =
    crc16_detects_byte (1 ∷ []) (3 ∷ []) 4 5 (omega arith) (omega arith) (omega arith) (omega arith)
      (λ e. absurd (omega (arith, e)))
