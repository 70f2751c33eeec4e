-- ===== src/Modbus/Crc/Detection.antt =====
-- What the check value of src/modbus/modbus_crc.c detects.
use moxa_4vrs_gateway.Prelude.{
  ℕ, zero, suc, ◌+◌, ◌*◌, ◌/◌, ◌^◌, ◌<◌, bit_xor, ◌≡◌, sym, ap, ◌∙◌, ◌≢◌, List, [], ◌∷◌, ◌++◌,
  arith, ltb, if◌then◌else◌, All, bit_and-one, xor_cancel, xor_comm, xor_top, xor-lt,
}
use moxa_4vrs_gateway.Modbus.Crc.{crc_bit, crc_bits, crc_byte, crc_from, crc16}
use moxa_4vrs_gateway.Modbus.Crc.Residue.{
  IsByte, crc_from-lt, crc_byte-lt, crc_bit-lt, crc_from-append,
}

-- The top digit of the result tells whether the polynomial was applied, and so what it came from.
undo : ℕ → ℕ
undo crc = if ltb crc 0x8000 then crc * 2 else bit_xor crc 0xa001 * 2 + 1

undo-crc_bit : (crc : ℕ) → crc < 2 ^ 16 → undo (crc_bit crc) ≡ crc
unfolding undo crc_bit
undo-crc_bit crc h =
    ground (arith, bit_and-one crc, xor_top 15 (crc / 2) 0x2001, xor_cancel (crc / 2) 0xa001)

crc_bit_injective : (a b : ℕ) → a < 2 ^ 16 → b < 2 ^ 16 → crc_bit a ≡ crc_bit b → a ≡ b
crc_bit_injective a b p q e = sym (undo-crc_bit a p) ∙ ap undo e ∙ undo-crc_bit b q

crc_bits_injective : (n a b : ℕ) → a < 2 ^ 16 → b < 2 ^ 16 → crc_bits n a ≡ crc_bits n b → a ≡ b
unfolding crc_bits
crc_bits_injective zero a b p q e = e
crc_bits_injective (suc n) a b p q e =
    crc_bit_injective a b p q
      (crc_bits_injective n (crc_bit a) (crc_bit b) (crc_bit-lt a p) (crc_bit-lt b q) e)

-- A byte is determined by the check values before and after it, and so is the one before.
crc_byte_injective :
    (c d a b : ℕ)
    → c < 2 ^ 16
    → d < 2 ^ 16
    → IsByte a
    → IsByte b
    → crc_byte c a ≡ crc_byte d b
    → bit_xor c a ≡ bit_xor d b
unfolding crc_byte
crc_byte_injective c d a b hc hd ha hb =
    crc_bits_injective 8 (bit_xor c a) (bit_xor d b) (xor-lt 16 c a hc (omega arith))
      (xor-lt 16 d b hd (omega arith))

crc_from_injective :
    (c d : ℕ) (bs : List ℕ)
    → c < 2 ^ 16
    → d < 2 ^ 16
    → All IsByte bs
    → crc_from c bs ≡ crc_from d bs
    → c ≡ d
unfolding crc_from
crc_from_injective c d [] hc hd h e = e
crc_from_injective c d (b ∷ bs) hc hd h e =
    let same = crc_byte_injective c d b b hc hd h.0 h.0 (
      crc_from_injective (crc_byte c b) (crc_byte d b) bs (crc_byte-lt c b hc h.0)
        (crc_byte-lt d b hd h.0) h.1 e) in
    sym (xor_cancel c b) ∙ ap (λ x. bit_xor x b) same ∙ xor_cancel d b

crc16_same_byte :
    (xs ys : List ℕ) (a b : ℕ)
    → All IsByte xs
    → All IsByte ys
    → IsByte a
    → IsByte b
    → crc16 (xs ++ a ∷ ys) ≡ crc16 (xs ++ b ∷ ys)
    → a ≡ b
unfolding crc16 crc_from
crc16_same_byte xs ys a b hx hy ha hb e =
    let c = crc_from 0xffff xs in
    let hc : c < 2 ^ 16 = crc_from-lt 0xffff xs (omega arith) hx in
    let same = crc_byte_injective c c a b hc hc ha hb (
      crc_from_injective (crc_byte c a) (crc_byte c b) ys (crc_byte-lt c a hc ha)
        (crc_byte-lt c b hc hb) hy
        (sym (crc_from-append 0xffff xs (a ∷ ys)) ∙ e ∙ crc_from-append 0xffff xs (b ∷ ys))) in
    sym (xor_cancel a c)
    ∙ ap (λ x. bit_xor x c) (xor_comm a c ∙ same ∙ xor_comm c b)
    ∙ xor_cancel b c

-- Two messages of bytes that differ in one byte have different check values.
pub crc16_detects_byte :
    (xs ys : List ℕ) (a b : ℕ)
    → All IsByte xs
    → All IsByte ys
    → IsByte a
    → IsByte b
    → a ≢ b
    → crc16 (xs ++ a ∷ ys) ≢ crc16 (xs ++ b ∷ ys)
crc16_detects_byte xs ys a b hx hy ha hb ne e = ne (crc16_same_byte xs ys a b hx hy ha hb e)
