-- ===== src/Examples/Network.antt =====
-- The theorems on addresses and on the DHCP client at concrete values.
use moxa_4vrs_gateway.Prelude.{
  ℕ, ◌≤◌, ◌≡◌, refl, true, false, some, List, [], ◌∷◌, ◌++◌, arith, length, drop, replicate, pos,
}
use moxa_4vrs_gateway.Gateway.Config.{same_text}
use moxa_4vrs_gateway.Network.Ipv4.{
  gateway_ipv4_parse, gateway_ipv4_format, parse_parts, parse_part, scan_part, decimal,
}
use moxa_4vrs_gateway.Network.Ipv4.RoundTrip.{gateway_ipv4_parse-format}
use moxa_4vrs_gateway.Network.Settings.{
  gateway_network_settings_init, gateway_network_settings_validate, check_lan, check_static,
  check_gateway, check_dns, unicast, optional_address,
}
use moxa_4vrs_gateway.Network.Dhcp.{
  requesting, DhcpClient, gateway_dhcp_start, due, renewing, gateway_dhcp_step,
}
use moxa_4vrs_gateway.Network.Dhcp.Receive.{
  gateway_dhcp_receive, receive_options, take_reply, Options, is_reply, read_options, read_option,
  keep, no_options, times_accepted, server_accepted, type_accepted, new_lease, lease_accepted,
  lease_time, renew_time, rebind_time, get32,
}
use moxa_4vrs_gateway.Network.Dhcp.Wire.{checksum, sum, ip_header, header_check}
use moxa_4vrs_gateway.Network.Dhcp.Wire.Checksum.{ip_header-checksum}
use moxa_4vrs_gateway.Network.Dhcp.Lease.{Taken, gateway_dhcp_receive-Taken}
use moxa_4vrs_gateway.Network.Dhcp.Life.{
  IsValid, gateway_dhcp_step-used, DhcpCall, steps, receives, probes, sends, conflicts, run,
  run-used, in_use,
}

gateway_ipv4_parse-format_example :
    gateway_ipv4_parse (gateway_ipv4_format 3232235525) ≡ some 3232235525
gateway_ipv4_parse-format_example = gateway_ipv4_parse-format 3232235525 (omega arith)

abbrev mac : List ℕ
mac = 2 ∷ 0 ∷ 0 ∷ 0 ∷ 0 ∷ 9 ∷ []

abbrev packet : List ℕ
packet =
    2
    ∷ 1
    ∷ 6
    ∷ 0
    ∷ 0
    ∷ 0
    ∷ 0
    ∷ 7
    ∷ (replicate 8 0
        ++ (192
            ∷ 168
            ∷ 0
            ∷ 5
            ∷ (replicate 8 0
                ++ (mac
                    ++ (replicate 202 0
                        ++ (99 ∷ 130 ∷ 83 ∷ 99 ∷ 53 ∷ 1 ∷ 5 ∷ 54 ∷ 4 ∷ 192 ∷ 168 ∷ 0 ∷ 1 ∷ 1 ∷ 4
                            ∷ 255 ∷ 255 ∷ 255 ∷ 0 ∷ 51 ∷ 4 ∷ 0 ∷ 0 ∷ 14 ∷ 16 ∷ 255 ∷ []))))))

-- A client that has asked for an address that it was offered.
abbrev asking : DhcpClient
asking =
    let d = gateway_dhcp_start mac 7 100 in
    let l = d.lease in
    record d {
      state = requesting;
      server = 3232235521;
      lease = record l { address = gateway_ipv4_format 3232235525 };
    }

abbrev options : Options
options = record no_options {
  seen = 39;
  type = 5;
  server = 3232235521;
  netmask = gateway_ipv4_format 4294967040;
  lifetime = 3600;
  ended = true;
}

read_example : read_options (length (drop 240 packet)) no_options (drop 240 packet) ≡ some options
unfolding read_options read_option keep get32
read_example = refl

taken_example : (gateway_dhcp_receive asking packet 200).0 ≡ pos 1
unfolding gateway_dhcp_receive receive_options take_reply is_reply read_options read_option keep
    get32 server_accepted type_accepted times_accepted new_lease lease_accepted lease_time
    renew_time rebind_time gateway_ipv4_format gateway_ipv4_parse parse_parts parse_part scan_part
    decimal same_text gateway_network_settings_init gateway_network_settings_validate check_lan
    check_static check_gateway check_dns unicast optional_address gateway_dhcp_start due
taken_example = refl

gateway_dhcp_receive-Taken_example :
    Taken asking packet 200 options (gateway_dhcp_receive asking packet 200).1
gateway_dhcp_receive-Taken_example =
    gateway_dhcp_receive-Taken asking packet 200 options read_example taken_example

-- A client whose lease is in use and is to be renewed.
abbrev using : DhcpClient
using = record asking { state = renewing; valid = true; expires_at = 5000; rebind_at = 4000 }

using-IsValid : IsValid using
unfolding gateway_dhcp_start
using-IsValid = record { used = refl; tries = omega arith }

gateway_dhcp_step-used_example :
    let e = gateway_dhcp_step using 300 true in
    IsValid e
    × ((e.valid ≡ true)
        → (true ≡ true)
          × (using.valid ≡ true)
          × (e.lease ≡ using.lease)
          × (due 300 e.expires_at ≡ false))
gateway_dhcp_step-used_example = gateway_dhcp_step-used using 300 true using-IsValid

abbrev dhcp_calls : List DhcpCall
dhcp_calls =
    steps 1 true ∷ sends 400 1 ∷ receives packet 2 ∷ probes 3 ∷ conflicts 4 ∷ steps 5 false ∷ []

run-used_example :
    let d = run (gateway_dhcp_start mac 7 0) dhcp_calls in
    (d.valid ≡ in_use d.state) × (d.retries ≤ 4)
run-used_example = run-used mac 7 0 dhcp_calls

ip_header-checksum_example :
    checksum (sum (ip_header 300 3232235525 (header_check 300 3232235525)) 0) ≡ 0
ip_header-checksum_example = ip_header-checksum 300 3232235525
