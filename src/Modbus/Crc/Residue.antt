-- ===== src/Modbus/Crc/Residue.antt =====
-- The check value of src/modbus/modbus_crc.c is a 16-bit number, and a frame that ends in its own
-- check value has the residue 0.
use moxa_4vrs_gateway.Prelude.{
  ℕ, zero, suc, ◌*◌, ◌/◌, ◌%◌, ◌^◌, ◌<◌, bit_xor, ◌≡◌, refl, ap, ◌∙◌, List, [], ◌∷◌, ◌++◌, arith,
  All, bit_and-one, xor_self, xor_low_byte, xor-lt,
}
use native.Mathlib.Nat.{pow-suc}
use moxa_4vrs_gateway.Modbus.Crc.{crc_bit, crc_bits, crc_byte, crc_from, crc16}

abbrev pub IsByte : ℕ → Type 0
IsByte b = b < 256

pub crc_bit-lt : (crc : ℕ) → crc < 2 ^ 16 → crc_bit crc < 2 ^ 16
unfolding crc_bit
crc_bit-lt crc h = ground (arith, xor-lt 16 (crc / 2) 0xa001)

pub crc_bits-lt : (n crc : ℕ) → crc < 2 ^ 16 → crc_bits n crc < 2 ^ 16
unfolding crc_bits
crc_bits-lt zero crc h = h
crc_bits-lt (suc n) crc h = crc_bits-lt n (crc_bit crc) (crc_bit-lt crc h)

pub crc_byte-lt : (crc b : ℕ) → crc < 2 ^ 16 → IsByte b → crc_byte crc b < 2 ^ 16
unfolding crc_byte
crc_byte-lt crc b h k = crc_bits-lt 8 (bit_xor crc b) (xor-lt 16 crc b h (omega arith))

pub crc_from-lt : (crc : ℕ) (bs : List ℕ) → crc < 2 ^ 16 → All IsByte bs → crc_from crc bs < 2 ^ 16
unfolding crc_from
crc_from-lt crc [] h k = h
crc_from-lt crc (b ∷ bs) h k = crc_from-lt (crc_byte crc b) bs (crc_byte-lt crc b h k.0) k.1

-- The check value of bytes fits in 16 bits.
pub crc16-lt : (bs : List ℕ) → All IsByte bs → crc16 bs < 2 ^ 16
unfolding crc16
crc16-lt bs h = crc_from-lt 0xffff bs (omega arith) h

-- An even number is only halved.
crc_bit_even : (n : ℕ) → crc_bit (n * 2) ≡ n
unfolding crc_bit
crc_bit_even n = ground (arith, bit_and-one (n * 2))

crc_bits_shift : (k n : ℕ) → crc_bits k (n * 2 ^ k) ≡ n
unfolding crc_bits
crc_bits_shift zero n = omega arith
crc_bits_shift (suc k) n =
    let split : n * 2 ^ suc k ≡ n * 2 ^ k * 2 = omega (arith, ap (λ m. n * m) (pow-suc 2 k)) in
    ap (λ m. crc_bits k (crc_bit m)) split
    ∙ ap (crc_bits k) (crc_bit_even (n * 2 ^ k))
    ∙ crc_bits_shift k n

crc_byte_low : (crc : ℕ) → crc_byte crc (crc % 256) ≡ crc / 256
unfolding crc_byte
crc_byte_low crc = ap (crc_bits 8) (xor_low_byte crc) ∙ crc_bits_shift 8 (crc / 256)

crc_byte_self : (crc : ℕ) → crc_byte crc crc ≡ 0
unfolding crc_byte
crc_byte_self crc = ap (crc_bits 8) (xor_self crc) ∙ crc_bits_shift 8 0

pub crc_from-append :
    (crc : ℕ) (xs ys : List ℕ) → crc_from crc (xs ++ ys) ≡ crc_from (crc_from crc xs) ys
unfolding crc_from
crc_from-append crc [] ys = refl
crc_from-append crc (x ∷ xs) ys = crc_from-append (crc_byte crc x) xs ys

crc_from_residue : (crc : ℕ) → crc < 2 ^ 16 → crc_from crc (crc % 256 ∷ crc / 256 ∷ []) ≡ 0
unfolding crc_from
crc_from_residue crc h =
    ap (λ c. crc_byte c (crc / 256)) (crc_byte_low crc) ∙ crc_byte_self (crc / 256)

-- A message followed by its check value, the low byte first, has the check value 0.
pub crc16_residue :
    (bs : List ℕ) → All IsByte bs → crc16 (bs ++ crc16 bs % 256 ∷ crc16 bs / 256 ∷ []) ≡ 0
unfolding crc16
crc16_residue bs h = crc_from-append 0xffff bs _ ∙ crc_from_residue (crc16 bs) (crc16-lt bs h)
