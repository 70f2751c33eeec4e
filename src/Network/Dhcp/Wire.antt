-- ===== src/Network/Dhcp/Wire.antt =====
-- The frames of the DHCP client in src/network/gateway_dhcp_wire.c.
pub mod Checksum
use moxa_4vrs_gateway.Prelude.{
  ℕ, zero, suc, ◌+◌, ◌-◌, ◌*◌, ◌/◌, ◌%◌, Bool, true, false, not, ◌&&◌, ◌||◌, none, some, List, [],
  ◌∷◌, ◌++◌, ltb, leb, ◌==◌, if◌then◌else◌, length, take, drop, replicate, ℤ, negsuc,
}
use moxa_4vrs_gateway.Gateway.Config.{same_text}
use moxa_4vrs_gateway.Network.Ipv4.{gateway_ipv4_parse}
use moxa_4vrs_gateway.Network.Dhcp.{DhcpClient, gateway_dhcp_packet, put32, leased}
use moxa_4vrs_gateway.Network.Dhcp.Receive.{byte_at, gateway_dhcp_receive}

-- The two bytes at an index, the higher first; and the bytes of such a number.
abbrev pub word : List ℕ → ℕ → ℕ
word p i = byte_at p i * 256 + byte_at p (i + 1)

abbrev pub put : ℕ → List ℕ
put n = (n / 256 % 256) ∷ (n % 256) ∷ []

-- A byte without a pair stands for the higher one.
unfoldable pub sum : List ℕ → ℕ → ℕ
sum [] value = value
sum (a ∷ []) value = value + a * 256
sum (a ∷ b ∷ rest) value = sum rest (value + (a * 256 + b))

-- The loop of `checksum`; each round makes the value smaller, so that it bounds the rounds.
unfoldable pub fold : ℕ → ℕ → ℕ
fold zero value = value
fold (suc fuel) value = elim (value / 65536 == 0) [
  | true ↦ value
  | false ↦ fold fuel (value % 65536 + value / 65536)
]

unfoldable pub checksum : ℕ → ℕ
checksum value = 65535 - fold value value % 65536

abbrev broadcast : List ℕ
broadcast = replicate 6 255

-- The tests of the frame and of its IP header.
unfoldable pub is_datagram : DhcpClient → List ℕ → Bool
is_datagram d p =
    let n = length p in
    let v = drop 14 p in
    let header = byte_at v 0 % 16 * 4 in
    let total = word v 2 in
    leb 42 n
    && leb n 1514
    && word p 12 == 0x0800
    && (same_text (take 6 p) d.mac || same_text (take 6 p) broadcast)
    && not (same_text (take 6 (drop 6 p)) d.mac)
    && byte_at v 0 / 16 == 4
    && leb 20 header
    && leb header 60
    && leb (header + 8) total
    && leb total (n - 14)
    && byte_at v 9 == 17
    && word v 6 % 16384 == 0
    && checksum (sum (take header v) 0) == 0

-- The tests of the UDP datagram, of which the IP header and the packet have these lengths.
unfoldable pub is_udp : List ℕ → ℕ → ℕ → Bool
is_udp v header total =
    let udp = drop header v in
    let len = word udp 4 in
    let pseudo = sum (take 8 (drop 12 v)) (17 + len) in
    word udp 0 == 67
    && word udp 2 == 68
    && len == total - header
    && (word udp 6 == 0 || checksum (sum (take len udp) pseudo) == 0)

unfoldable pub gateway_dhcp_frame : DhcpClient → List ℕ → ℕ → ℤ × DhcpClient
gateway_dhcp_frame d p now =
    let v = drop 14 p in
    let header = byte_at v 0 % 16 * 4 in
    let udp = drop header v in
    if not (is_datagram d p) || not (is_udp v header (word v 2))
    then (negsuc 0, d)
    else gateway_dhcp_receive d (take (word udp 4 - 8) (drop 8 udp)) now

-- The IP header of a packet with so many bytes of its own, with this checksum.
unfoldable pub ip_header : ℕ → ℕ → ℕ → List ℕ
ip_header n source check =
    0x45
    ∷ 0
    ∷ (put (n + 28)
        ++ (0
            ∷ 0
            ∷ 0
            ∷ 0
            ∷ 64
            ∷ 17
            ∷ (put check ++ (put32 source ++ (255 ∷ 255 ∷ 255 ∷ 255 ∷ [])))))

abbrev pub header_check : ℕ → ℕ → ℕ
header_check n source = checksum (sum (ip_header n source 0) 0)

-- The frame of what the client sends, or no bytes.
unfoldable pub gateway_dhcp_broadcast : DhcpClient → ℕ → ℕ → List ℕ × DhcpClient
gateway_dhcp_broadcast d cap now =
    let (packet, next) = gateway_dhcp_packet d (cap - 42) now in
    let n = length packet in
    let source = if next.valid then leased next else 0 in
    let ethernet = broadcast ++ (d.mac ++ put 0x0800) in
    let udp = put 68 ++ (put 67 ++ (put (n + 8) ++ (0 ∷ 0 ∷ []))) in
    if ltb cap 342
    then ([], d)
    else if n == 0
    then ([], next)
    else (ethernet ++ (ip_header n source (header_check n source) ++ (udp ++ packet)), next)

-- An ARP probe of the leased address, or its announcement, or no bytes.
unfoldable pub gateway_dhcp_arp : DhcpClient → ℕ → Bool → List ℕ
gateway_dhcp_arp d cap announce = elim (gateway_ipv4_parse d.lease.address) [
  | none ↦ []
  | some target ↦
      if ltb cap 42
      then []
      else broadcast
        ++ (d.mac
            ++ (put 0x0806
                ++ (put 1
                    ++ (put 0x0800
                        ++ (6
                            ∷ 4
                            ∷ (put 1
                                ++ (d.mac
                                    ++ ((if announce then put32 target else replicate 4 0)
                                        ++ (replicate 6 0 ++ put32 target)))))))))
]

-- An ARP packet of another host that has or probes the leased address.
unfoldable pub gateway_dhcp_arp_conflict : DhcpClient → List ℕ → Bool
gateway_dhcp_arp_conflict d p = elim (gateway_ipv4_parse d.lease.address) [
  | none ↦ false
  | some target ↦
      leb 42 (length p)
      && leb (length p) 1514
      && word p 12 == 0x0806
      && word p 14 == 1
      && word p 16 == 0x0800
      && byte_at p 18 == 6
      && byte_at p 19 == 4
      && (word p 20 == 1 || word p 20 == 2)
      && not (same_text (take 6 (drop 22 p)) d.mac)
      && (same_text (take 4 (drop 28 p)) (put32 target)
          || (same_text (take 4 (drop 28 p)) (replicate 4 0)
              && same_text (take 4 (drop 38 p)) (put32 target)))
]
