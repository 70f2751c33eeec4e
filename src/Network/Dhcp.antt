-- ===== src/Network/Dhcp.antt =====
-- The DHCP client of src/network/gateway_dhcp_client.c: its state, its clock and what it sends.
pub mod Receive
pub mod Life
pub mod Lease
pub mod Wire
use moxa_4vrs_gateway.Prelude.{
  ℕ, ◌+◌, ◌-◌, ◌*◌, ◌/◌, ◌%◌, ◌^◌, min, Bool, true, false, not, ◌&&◌, ◌||◌, none, some, List, [],
  ◌∷◌, ◌++◌, ltb, leb, ◌==◌, if◌then◌else◌, add32, sub32, length, replicate, ℤ, pos, negsuc,
}
use moxa_4vrs_gateway.Network.Ipv4.{gateway_ipv4_parse}

pub data DhcpState : Type 0 where
  dhcp_off selecting requesting probing bound renewing rebinding backoff : DhcpState

-- The texts are the bytes before the first zero.
pub record DhcpLease : Type 0 where
  pub address : List ℕ
  pub netmask : List ℕ
  pub broadcast : List ℕ
  pub gateway : List ℕ
  pub dns1 : List ℕ
  pub dns2 : List ℕ
  pub lifetime : ℕ

pub record DhcpClient : Type 0 where
  pub state : DhcpState
  pub lease : DhcpLease
  pub mac : List ℕ
  pub xid : ℕ
  pub server : ℕ
  pub requested_at : ℕ
  pub have_request : Bool
  pub started : ℕ
  pub renew_at : ℕ
  pub rebind_at : ℕ
  pub expires_at : ℕ
  pub next_send : ℕ
  pub retries : ℕ
  pub send_type : ℕ
  pub valid : Bool
  pub changed : Bool
  pub probes : ℕ
  pub error : ℕ

abbrev pub zero_lease : DhcpLease
zero_lease = record {
  address = [];
  netmask = [];
  broadcast = [];
  gateway = [];
  dns1 = [];
  dns2 = [];
  lifetime = 0;
}

-- `(int32_t)(now - when) >= 0`
unfoldable pub due : ℕ → ℕ → Bool
due now when = ltb (sub32 now when) 0x8000_0000

unfoldable pub invalidate : DhcpClient → DhcpClient
invalidate d = record d {
  changed = d.valid || d.changed;
  valid = false;
  have_request = false;
  lease = zero_lease;
}

unfoldable pub gateway_dhcp_start : List ℕ → ℕ → ℕ → DhcpClient
gateway_dhcp_start mac xid now = record {
  state = selecting;
  lease = zero_lease;
  mac = mac;
  xid = if xid == 0 then 1 else xid;
  server = 0;
  requested_at = 0;
  have_request = false;
  started = now;
  renew_at = 0;
  rebind_at = 0;
  expires_at = 0;
  next_send = now;
  retries = 0;
  send_type = 0;
  valid = false;
  changed = false;
  probes = 0;
  error = 0;
}

unfoldable pub gateway_dhcp_stop : DhcpClient → DhcpClient
gateway_dhcp_stop d =
    let c = invalidate d in record c { state = dhcp_off; send_type = 0; xid = add32 c.xid 1 }

unfoldable pub gateway_dhcp_conflict : DhcpClient → ℕ → DhcpClient
gateway_dhcp_conflict d now = record d {
  valid = false;
  changed = true;
  error = 2;
  send_type = 4;
  state = backoff;
  next_send = add32 now 10000;
}

abbrev pub is_off : DhcpState → Bool
is_off dhcp_off = true
is_off _ = false

abbrev pub is_selecting : DhcpState → Bool
is_selecting selecting = true
is_selecting _ = false

abbrev pub is_requesting : DhcpState → Bool
is_requesting requesting = true
is_requesting _ = false

abbrev pub is_probing : DhcpState → Bool
is_probing probing = true
is_probing _ = false

abbrev pub is_bound : DhcpState → Bool
is_bound bound = true
is_bound _ = false

abbrev pub is_renewing : DhcpState → Bool
is_renewing renewing = true
is_renewing _ = false

abbrev pub is_rebinding : DhcpState → Bool
is_rebinding rebinding = true
is_rebinding _ = false

abbrev pub is_backoff : DhcpState → Bool
is_backoff backoff = true
is_backoff _ = false

-- A lease whose time is over is dropped.
unfoldable pub expire : DhcpClient → ℕ → DhcpClient
expire d now =
    let c = invalidate d in
    if (d.valid || is_probing d.state) && due now d.expires_at
    then record c {
      state = selecting;
      started = now;
      next_send = now;
      retries = 0;
      xid = add32 c.xid 1;
      error = 3;
    }
    else d

-- The end of a pause.
unfoldable pub restart : DhcpClient → ℕ → DhcpClient
restart d now =
    let c = invalidate d in
    record c { state = selecting; started = now; retries = 0; xid = add32 c.xid 1 }

-- The times at which the lease is asked for again, first of its server and then of any.
unfoldable pub renew : DhcpClient → ℕ → DhcpClient
renew d now =
    let fresh = record d { xid = add32 d.xid 1; started = now; have_request = false } in
    let c = if is_bound d.state then fresh else d in
    if d.valid && due now d.rebind_at && not (is_rebinding d.state)
    then record c { state = rebinding; next_send = now; retries = 0 }
    else if is_bound d.state && due now d.renew_at
    then record fresh { state = renewing; next_send = now; retries = 0 }
    else d

-- The delay doubles up to sixteen seconds.
abbrev pub send_delay : DhcpClient → ℕ
send_delay d = if ltb d.retries 4 then 1000 * 2 ^ d.retries else 16000

unfoldable pub send : DhcpClient → ℕ → DhcpClient
send d now =
    if due now d.next_send
    then record d {
      send_type = if is_selecting d.state then 1 else 3;
      next_send = add32 now (send_delay d + d.xid % 256);
      retries = if ltb d.retries 4 then d.retries + 1 else d.retries;
    }
    else d

-- The part of `gateway_dhcp_step` from the test for probing on.
unfoldable pub proceed : DhcpClient → ℕ → DhcpClient
proceed d now =
    let c = renew d now in
    if is_probing d.state
    then d
    else if is_bound c.state
    then c
    else if not c.valid && leb 30000 (sub32 now c.started)
    then record c { state = backoff; next_send = add32 now 10000; send_type = 0; error = 1 }
    else send c now

unfoldable pub gateway_dhcp_step : DhcpClient → ℕ → Bool → DhcpClient
gateway_dhcp_step d now link =
    let down = invalidate d in
    let c = expire d now in
    if is_off d.state
    then d
    else if not link
    then record down { state = backoff; next_send = add32 now 1000; send_type = 0 }
    else if is_backoff c.state
    then (if due now c.next_send then proceed (restart c now) now else c)
    else proceed c now

unfoldable pub gateway_dhcp_probed : DhcpClient → ℕ → ℤ × DhcpClient
gateway_dhcp_probed d now =
    if not (is_probing d.state)
    then (negsuc 0, d)
    else if due now d.expires_at
    then (negsuc 0, gateway_dhcp_step d now true)
    else (pos 0, record d { state = bound; valid = true; changed = true })

-- `put32`: the bytes of a number, the highest first.
unfoldable pub put32 : ℕ → List ℕ
put32 n = (n / 16777216 % 256) ∷ (n / 65536 % 256) ∷ (n / 256 % 256) ∷ (n % 256) ∷ []

-- The address of the lease, or zero where it cannot be read.
abbrev pub leased : DhcpClient → ℕ
leased d = elim (gateway_ipv4_parse d.lease.address) [ none ↦ 0 | some a ↦ a ]

-- The options of a packet of this type, from offset 240 on.
unfoldable pub packet_options : DhcpClient → ℕ → List ℕ
packet_options d type =
    let ask = type == 3 || type == 4 in
    let address = if ask && not d.valid then 50 ∷ 4 ∷ put32 (leased d) else [] in
    let server =
      if ask && (is_requesting d.state || type == 4) then 54 ∷ 4 ∷ put32 d.server else [] in
    53
    ∷ 1
    ∷ type
    ∷ 61
    ∷ 7
    ∷ 1
    ∷ (d.mac ++ (address ++ (server ++ (55 ∷ 6 ∷ 1 ∷ 3 ∷ 6 ∷ 51 ∷ 58 ∷ 59 ∷ 255 ∷ []))))

-- The bytes of a packet before its options.
unfoldable pub packet_header : DhcpClient → ℕ → List ℕ
packet_header d seconds =
    let flags = if d.valid then 0 ∷ 0 ∷ put32 (leased d) else 128 ∷ 0 ∷ 0 ∷ 0 ∷ 0 ∷ 0 ∷ [] in
    1
    ∷ 1
    ∷ 6
    ∷ 0
    ∷ (put32 d.xid
        ++ ((seconds / 256)
            ∷ (seconds % 256)
            ∷ (flags ++ (replicate 12 0 ++ (d.mac ++ (replicate 202 0 ++ put32 0x63825363))))))

-- The bytes written, with zeroes up to 300, or none; the length is theirs.
unfoldable pub gateway_dhcp_packet : DhcpClient → ℕ → ℕ → List ℕ × DhcpClient
gateway_dhcp_packet d cap now =
    let type = d.send_type in
    let noted =
      if type == 3 && not d.have_request
      then record d { requested_at = now; have_request = true }
      else d in
    let seconds = min (sub32 now d.started / 1000) 65535 in
    let bytes = packet_header noted seconds ++ packet_options noted type in
    if type == 0 || ltb cap 300
    then ([], d)
    else (bytes ++ replicate (300 - length bytes) 0, record noted { send_type = 0 })
