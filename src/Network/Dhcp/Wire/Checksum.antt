-- ===== src/Network/Dhcp/Wire/Checksum.antt =====
-- The Internet checksum of src/network/gateway_dhcp_wire.c.
use moxa_4vrs_gateway.Prelude.{
  ℕ, zero, suc, ◌+◌, ◌-◌, ◌/◌, ◌%◌, ◌≤◌, ◌<◌, ◌≡◌, refl, ap, ◌∙◌, inl, inr, arith, ◌==◌, Bool-cases,
}
use moxa_4vrs_gateway.Network.Dhcp.Wire.{fold, checksum, sum, ip_header, header_check}
use moxa_4vrs_gateway.Network.Dhcp.{put32}

-- Folding keeps the value up to multiples of 65535, and ends in 16 bits.
fold_lem :
    (fuel value : ℕ)
    → value ≤ fuel
    → (fold fuel value % 65535 ≡ value % 65535)
      × (fold fuel value < 65536)
      × ((0 < value) → 0 < fold fuel value)
unfolding fold
fold_lem zero value h = (refl, omega arith, λ lt. lt)
fold_lem (suc fuel) value h =
    let next = value % 65536 + value / 65536 in
    elim (Bool-cases (value / 65536 == 0)) [
      | inl e ↦ rw (e, fold) (refl, ground (arith, e), λ lt. lt)
      | inr e ↦
          let (same, small, positive) = fold_lem fuel next (ground (arith, e, h)) in
          rw (e, fold) (same ∙ omega arith, small, λ lt. positive (omega arith))
    ]

-- A sum with its own checksum added verifies.
checksum-verifies : (s : ℕ) → 0 < s → checksum (s + checksum s) ≡ 0
unfolding checksum
checksum-verifies s lt =
    let (m, small, pos_s) = fold_lem s s (omega arith) in
    let t = s + (65535 - fold s s % 65536) in
    let (n, less, pos_t) = fold_lem t t (omega arith) in
    omega (arith, lt, m, small, pos_s lt, n, less, pos_t (omega (arith, lt)))

sum-ip_header :
    (n source check : ℕ)
    → check < 65536
    → sum (ip_header n source check) 0 ≡ sum (ip_header n source 0) 0 + check
unfolding sum ip_header put32
sum-ip_header n source check small = omega (arith, small)

sum-ip_header_pos : (n source : ℕ) → 0 < sum (ip_header n source 0) 0
unfolding sum ip_header put32
sum-ip_header_pos n source = omega arith

checksum-lt : (s : ℕ) → checksum s < 65536
unfolding checksum
checksum-lt s = omega arith

-- The IP header that the client writes carries the checksum that its own receiver, which sums the whole
-- header, finds to be right, whatever the length and the source.
pub ip_header-checksum :
    (n source : ℕ) → checksum (sum (ip_header n source (header_check n source)) 0) ≡ 0
ip_header-checksum n source =
    ap checksum (sum-ip_header n source (header_check n source) (checksum-lt _))
    ∙ checksum-verifies (sum (ip_header n source 0) 0) (sum-ip_header_pos n source)
