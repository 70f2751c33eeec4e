-- ===== src/Installer/Digest.antt =====
-- The digest of src/installer/install_digest.c, SHA-256.
use moxa_4vrs_gateway.Prelude.{
  ℕ, zero, suc, ◌+◌, ◌-◌, ◌*◌, ◌/◌, ◌%◌, ◌^◌, min, bit_and, bit_or, bit_xor, ◌≡◌, refl, List, [],
  ◌∷◌, ◌++◌, ltb, ◌==◌, if◌then◌else◌, u32_mod, length, get_or, take, drop, replicate, bytes,
}

-- The bytes of `block` are those in use.
pub record InstallDigest : Type 0 where
  pub h : List ℕ
  pub total : ℕ
  pub block : List ℕ

abbrev pub constants : List ℕ
constants =
    0x428a2f98 ∷ 0x71374491 ∷ 0xb5c0fbcf ∷ 0xe9b5dba5 ∷ 0x3956c25b ∷ 0x59f111f1 ∷ 0x923f82a4
    ∷ 0xab1c5ed5 ∷ 0xd807aa98 ∷ 0x12835b01 ∷ 0x243185be ∷ 0x550c7dc3 ∷ 0x72be5d74 ∷ 0x80deb1fe
    ∷ 0x9bdc06a7 ∷ 0xc19bf174 ∷ 0xe49b69c1 ∷ 0xefbe4786 ∷ 0x0fc19dc6 ∷ 0x240ca1cc ∷ 0x2de92c6f
    ∷ 0x4a7484aa ∷ 0x5cb0a9dc ∷ 0x76f988da ∷ 0x983e5152 ∷ 0xa831c66d ∷ 0xb00327c8 ∷ 0xbf597fc7
    ∷ 0xc6e00bf3 ∷ 0xd5a79147 ∷ 0x06ca6351 ∷ 0x14292967 ∷ 0x27b70a85 ∷ 0x2e1b2138 ∷ 0x4d2c6dfc
    ∷ 0x53380d13 ∷ 0x650a7354 ∷ 0x766a0abb ∷ 0x81c2c92e ∷ 0x92722c85 ∷ 0xa2bfe8a1 ∷ 0xa81a664b
    ∷ 0xc24b8b70 ∷ 0xc76c51a3 ∷ 0xd192e819 ∷ 0xd6990624 ∷ 0xf40e3585 ∷ 0x106aa070 ∷ 0x19a4c116
    ∷ 0x1e376c08 ∷ 0x2748774c ∷ 0x34b0bcb5 ∷ 0x391c0cb3 ∷ 0x4ed8aa4a ∷ 0x5b9cca4f ∷ 0x682e6ff3
    ∷ 0x748f82ee ∷ 0x78a5636f ∷ 0x84c87814 ∷ 0x8cc70208 ∷ 0x90befffa ∷ 0xa4506ceb ∷ 0xbef9a3f7
    ∷ 0xc67178f2 ∷ []

abbrev pub rr : ℕ → ℕ → ℕ
rr x n = bit_or (x / 2 ^ n) (x * 2 ^ (32 - n) % u32_mod)

unfoldable pub load : List ℕ → List ℕ
load (a ∷ b ∷ c ∷ d ∷ rest) = (a * 16777216 + b * 65536 + c * 256 + d) ∷ load rest
load rest = []

-- `w[i]` for an index of sixteen at least.
unfoldable pub schedule : List ℕ → ℕ → ℕ
schedule w i =
    let x = get_or w (i - 15) 0 in
    let y = get_or w (i - 2) 0 in
    (get_or w (i - 16) 0
      + bit_xor (bit_xor (rr x 7) (rr x 18)) (x / 2 ^ 3)
      + get_or w (i - 7) 0
      + bit_xor (bit_xor (rr y 17) (rr y 19)) (y / 2 ^ 10))
    % u32_mod

unfoldable pub extend : ℕ → List ℕ → List ℕ
extend zero w = w
extend (suc count) w = extend count (w ++ (schedule w (length w) ∷ []))

pub record Words : Type 0 where
  pub a : ℕ
  pub b : ℕ
  pub c : ℕ
  pub d : ℕ
  pub e : ℕ
  pub f : ℕ
  pub g : ℕ
  pub h : ℕ

-- `t` and `u` of a round.
unfoldable pub first_sum : Words → ℕ → ℕ → ℕ
first_sum s k w =
    (s.h
      + bit_xor (bit_xor (rr s.e 6) (rr s.e 11)) (rr s.e 25)
      + bit_xor (bit_and s.e s.f) (bit_and (u32_mod - 1 - s.e) s.g)
      + k
      + w)
    % u32_mod

unfoldable pub second_sum : Words → ℕ
second_sum s =
    (bit_xor (bit_xor (rr s.a 2) (rr s.a 13)) (rr s.a 22)
      + bit_xor (bit_xor (bit_and s.a s.b) (bit_and s.a s.c)) (bit_and s.b s.c))
    % u32_mod

unfoldable pub round : Words → ℕ → ℕ → Words
round s k w =
    let t = first_sum s k w in
    record {
      a = (t + second_sum s) % u32_mod;
      b = s.a;
      c = s.b;
      d = s.c;
      e = (s.d + t) % u32_mod;
      f = s.e;
      g = s.f;
      h = s.g;
    }

unfoldable pub rounds : Words → List ℕ → List ℕ → Words
rounds s (k ∷ ks) (w ∷ ws) = rounds (round s k w) ks ws
rounds s ks ws = s

unfoldable pub compress : List ℕ → List ℕ → List ℕ
compress h p =
    let at : ℕ → ℕ = λ i. get_or h i 0 in
    let s : Words = record {
      a = at 0;
      b = at 1;
      c = at 2;
      d = at 3;
      e = at 4;
      f = at 5;
      g = at 6;
      h = at 7;
    } in
    let r = rounds s constants (extend 48 (load (take 64 p))) in
    ((at 0 + r.a) % u32_mod)
    ∷ ((at 1 + r.b) % u32_mod)
    ∷ ((at 2 + r.c) % u32_mod)
    ∷ ((at 3 + r.d) % u32_mod)
    ∷ ((at 4 + r.e) % u32_mod)
    ∷ ((at 5 + r.f) % u32_mod)
    ∷ ((at 6 + r.g) % u32_mod)
    ∷ ((at 7 + r.h) % u32_mod)
    ∷ []

abbrev pub install_digest_init : InstallDigest
install_digest_init = record {
  h =
      0x6a09e667 ∷ 0xbb67ae85 ∷ 0x3c6ef372 ∷ 0xa54ff53a ∷ 0x510e527f ∷ 0x9b05688c ∷ 0x1f83d9ab
      ∷ 0x5be0cd19 ∷ [];
  total = 0;
  block = [];
}

-- One round of the loop of `install_digest_update`, which takes these bytes.
unfoldable pub update_round : InstallDigest → List ℕ → InstallDigest
update_round s p =
    let block = s.block ++ p in
    if length block == 64
    then record s { h = compress s.h block; block = [] }
    else record s { block = block }

-- A round takes a byte at least, so that the number of bytes bounds the rounds.
unfoldable pub update_loop : ℕ → InstallDigest → List ℕ → InstallDigest
update_loop zero s p = s
update_loop (suc fuel) s [] = s
update_loop (suc fuel) s (x ∷ xs) =
    let z = min (64 - length s.block) (length (x ∷ xs)) in
    update_loop fuel (update_round s (take z (x ∷ xs))) (drop z (x ∷ xs))

unfoldable pub install_digest_update : InstallDigest → List ℕ → InstallDigest
install_digest_update s p =
    update_loop (length p) (record s { total = (s.total + length p) % 2 ^ 64 }) p

-- A number in so many bytes, the highest first.
abbrev pub bits_at : ℕ → ℕ → List ℕ
bits_at zero n = []
bits_at (suc i) n = (n / 256 ^ i % 256) ∷ bits_at i n

-- The words of the digest.
unfoldable pub install_digest_final : InstallDigest → List ℕ
install_digest_final s =
    let bits = s.total * 8 % 2 ^ 64 in
    let block = s.block ++ (128 ∷ []) in
    let close : List ℕ → List ℕ → List ℕ =
      λ h b. compress h (b ++ (replicate (56 - length b) 0 ++ bits_at 8 bits)) in
    if ltb 56 (length block)
    then close (compress s.h (block ++ replicate (64 - length block) 0)) []
    else close s.h block

abbrev pub hex_digits : List ℕ
hex_digits = bytes "0123456789abcdef"

-- The digits of so many bytes from an index on.
unfoldable pub hex_from : ℕ → List ℕ → ℕ → List ℕ
hex_from zero h i = []
hex_from (suc count) h i =
    let d = get_or h (i / 4) 0 / 2 ^ (24 - i % 4 * 8) % 256 in
    get_or hex_digits (d / 16) 0 ∷ get_or hex_digits (bit_and d 15) 0 ∷ hex_from count h (i + 1)

unfoldable pub install_digest_hex : List ℕ → List ℕ
install_digest_hex p =
    hex_from 32 (install_digest_final (install_digest_update install_digest_init p)) 0

pub length-install_digest_hex : (p : List ℕ) → length (install_digest_hex p) ≡ 64
unfolding install_digest_hex hex_from
length-install_digest_hex p = refl
