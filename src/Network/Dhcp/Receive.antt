-- ===== src/Network/Dhcp/Receive.antt =====
-- `gateway_dhcp_receive` of src/network/gateway_dhcp_client.c: how a packet is read and what it does.
use moxa_4vrs_gateway.Prelude.{
  ℕ, zero, suc, ◌+◌, ◌*◌, ◌/◌, ◌%◌, bit_and, bit_or, Bool, true, false, not, ◌&&◌, ◌||◌, Option,
  none, some, List, [], ◌∷◌, ltb, leb, ◌==◌, if◌then◌else◌, add32, sub32, length, get_or, take,
  drop, ℤ, pos, negsuc,
}
use moxa_4vrs_gateway.Gateway.Config.{same_text}
use moxa_4vrs_gateway.Network.Ipv4.{gateway_ipv4_parse, gateway_ipv4_format}
use moxa_4vrs_gateway.Network.Settings.{
  lan_dhcp_client, gateway_network_settings_init, gateway_network_settings_validate, complement,
  is_ok,
}
use moxa_4vrs_gateway.Network.Dhcp.{
  DhcpState, selecting, requesting, probing, bound, renewing, rebinding, backoff, DhcpLease,
  DhcpClient, due, gateway_dhcp_step, invalidate, is_renewing, is_requesting, is_selecting,
}

-- `p[i]`
abbrev pub byte_at : List ℕ → ℕ → ℕ
byte_at p i = get_or p i 0

unfoldable pub get32 : List ℕ → ℕ → ℕ
get32 p i =
    byte_at p i * 16777216 + byte_at p (i + 1) * 65536 + byte_at p (i + 2) * 256 + byte_at p (i + 3)

-- What the loop over the options collects.
pub record Options : Type 0 where
  pub seen : ℕ
  pub type : ℕ
  pub server : ℕ
  pub netmask : List ℕ
  pub gateway : List ℕ
  pub dns1 : List ℕ
  pub dns2 : List ℕ
  pub lifetime : ℕ
  pub t1 : ℕ
  pub t2 : ℕ
  pub ended : Bool

abbrev pub no_options : Options
no_options = record {
  seen = 0;
  type = 0;
  server = 0;
  netmask = [];
  gateway = [];
  dns1 = [];
  dns2 = [];
  lifetime = 0;
  t1 = 0;
  t2 = 0;
  ended = false;
}

-- The addresses of an option that holds some.
abbrev bad_addresses : ℕ → Bool
bad_addresses len = len == 0 || not (len % 4 == 0)

-- An option is kept under its bit, which must not have been seen; the bit 0 is of those passed over.
unfoldable pub keep : Options → ℕ → Option Options
keep o bit = if bit_and o.seen bit == 0 then some (record o { seen = bit_or o.seen bit }) else none

-- The switch over the options, for one of this length and value.
unfoldable pub read_option : Options → ℕ → ℕ → List ℕ → Option Options
read_option o option len value =
    if option == 53
    then (if not (len == 1) then none else keep (record o { type = byte_at value 0 }) 1)
    else if option == 54
    then (if not (len == 4) then none else keep (record o { server = get32 value 0 }) 2)
    else if option == 1
    then (if not (len == 4)
        then none
        else keep (record o { netmask = gateway_ipv4_format (get32 value 0) }) 4)
    else if option == 3
    then (if bad_addresses len
        then none
        else keep (record o { gateway = gateway_ipv4_format (get32 value 0) }) 8)
    else if option == 6
    then (if bad_addresses len
        then none
        else keep
            (record o {
              dns1 = gateway_ipv4_format (get32 value 0);
              dns2 = if leb 8 len then gateway_ipv4_format (get32 value 4) else o.dns2;
            })
            16)
    else if option == 51
    then (if not (len == 4) then none else keep (record o { lifetime = get32 value 0 }) 32)
    else if option == 58
    then (if not (len == 4) then none else keep (record o { t1 = get32 value 0 }) 64)
    else if option == 59
    then (if not (len == 4) then none else keep (record o { t2 = get32 value 0 }) 128)
    else if option == 33 || option == 121 || option == 249 || option == 52
    then none
    else keep o 0

-- The loop over the rest of the packet. Each round takes a byte or more, so as much fuel as there are
-- bytes is enough.
unfoldable pub read_options : ℕ → Options → List ℕ → Option Options
read_options zero o p = some o
read_options (suc fuel) o [] = some o
read_options (suc fuel) o (option ∷ rest) =
    if option == 0
    then read_options fuel o rest
    else if option == 255
    then some (record o { ended = true })
    else elim rest [
      | [] ↦ none
      | len ∷ more ↦
          if ltb (length more) len then none else elim (read_option o option len (take len more)) [
            | none ↦ none
            | some next ↦ read_options fuel next (drop len more)
          ]
    ]

-- The states in which a packet is read.
abbrev pub listens : DhcpState → Bool
listens selecting = true
listens requesting = true
listens renewing = true
listens rebinding = true
listens _ = false

-- The tests of the fixed part of a packet.
unfoldable pub is_reply : DhcpClient → List ℕ → Bool
is_reply d p =
    leb 241 (length p)
    && leb (length p) 1500
    && byte_at p 0 == 2
    && byte_at p 1 == 1
    && byte_at p 2 == 6
    && get32 p 4 == d.xid
    && same_text (take 6 (drop 28 p)) d.mac
    && get32 p 236 == 0x63825363

-- The lease and its times: the conservative lifetime, and the defaults of the two other times.
unfoldable pub lease_time : Options → ℕ
lease_time o = if ltb 1728000 o.lifetime then 1728000 else o.lifetime

unfoldable pub renew_time : Options → ℕ
renew_time o = if o.t1 == 0 || leb (lease_time o) o.t1 then lease_time o / 2 else o.t1

unfoldable pub rebind_time : Options → ℕ
rebind_time o = if o.t2 == 0 || leb (lease_time o) o.t2 then lease_time o * 7 / 8 else o.t2

-- The tests of the server and of the kind of the message.
unfoldable pub server_accepted : DhcpClient → Options → Bool
server_accepted d o =
    o.ended
    && bit_and o.seen 3 == 3
    && not (o.server == 0)
    && ltb (o.server / 16777216) 224
    && not (o.server / 16777216 == 127)
    && not ((is_requesting d.state || is_renewing d.state) && not (o.server == d.server))

-- The packet of a server that takes the lease back.
unfoldable pub refuse_lease : DhcpClient → ℕ → DhcpClient
refuse_lease d now =
    let c = invalidate d in
    record c { state = backoff; next_send = add32 now 1000; send_type = 0; error = 4 }

-- An offer comes while selecting, an acknowledgement in the other states.
unfoldable pub type_accepted : DhcpClient → Options → Bool
type_accepted d o = if is_selecting d.state then o.type == 2 else o.type == 5

abbrev pub lease_base : DhcpClient → ℕ → ℕ
lease_base d now = if d.have_request then d.requested_at else now

-- The tests of the lease and of its times.
unfoldable pub times_accepted : DhcpClient → Options → ℕ → ℕ → Bool
times_accepted d o ip now =
    bit_and o.seen 36 == 36
    && leb 4 o.lifetime
    && not (ip == 0)
    && not (renew_time o == 0)
    && ltb (renew_time o) (rebind_time o)
    && ltb (rebind_time o) (lease_time o)
    && ltb (sub32 now (lease_base d now)) (lease_time o * 1000)

abbrev netmask_of : Options → ℕ
netmask_of o = elim (gateway_ipv4_parse o.netmask) [ none ↦ 0 | some a ↦ a ]

unfoldable pub new_lease : Options → ℕ → DhcpLease
new_lease o ip = record {
  address = gateway_ipv4_format ip;
  netmask = o.netmask;
  broadcast = gateway_ipv4_format (bit_or ip (complement (netmask_of o)));
  gateway = o.gateway;
  dns1 = o.dns1;
  dns2 = o.dns2;
  lifetime = lease_time o;
}

-- The settings that the lease stands for are valid.
unfoldable pub lease_accepted : DhcpLease → Bool
lease_accepted lease =
    let s = gateway_network_settings_init in
    let one = s.lan1 in
    let two = s.lan2 in
    is_ok
      (gateway_network_settings_validate (record s {
        lan1 = record one {
          address = lease.address;
          netmask = lease.netmask;
          gateway = lease.gateway;
        };
        lan2 = record two { mode = lan_dhcp_client };
        dns1 = lease.dns1;
        dns2 = lease.dns2;
      })).0

-- What an offer or an acknowledgement that passes the tests does.
unfoldable pub take_offer : DhcpClient → Options → DhcpLease → ℕ → DhcpClient
take_offer d o lease now = record d {
  lease = lease;
  server = o.server;
  state = requesting;
  have_request = false;
  send_type = 3;
  next_send = add32 now 1000;
  retries = 0;
}

unfoldable pub take_lease : DhcpClient → Options → DhcpLease → ℕ → DhcpClient
take_lease d o lease now =
    let base = lease_base d now in
    let same =
      d.valid
      && same_text d.lease.address lease.address
      && same_text d.lease.netmask lease.netmask in
    record d {
      state = if same then bound else probing;
      valid = same;
      probes = if same then d.probes else 0;
      next_send = if same then d.next_send else now;
      changed = true;
      lease = lease;
      server = o.server;
      send_type = 0;
      error = 0;
      renew_at = add32 base (renew_time o * 1000);
      rebind_at = add32 base (rebind_time o * 1000);
      expires_at = add32 base (lease_time o * 1000);
    }

-- What the options of a reply do.
unfoldable pub take_reply : DhcpClient → Options → ℕ → ℕ → ℤ × DhcpClient
take_reply d o ip now =
    let lease = new_lease o ip in
    if not (server_accepted d o)
    then (negsuc 0, d)
    else if o.type == 6 && not (is_selecting d.state)
    then (pos 0, refuse_lease d now)
    else if not (type_accepted d o) || not (times_accepted d o ip now)
    then (negsuc 0, d)
    else if (is_requesting d.state && not (same_text lease.address d.lease.address))
        || not (lease_accepted lease)
    then (negsuc 0, d)
    else if is_selecting d.state
    then (pos 0, take_offer d o lease now)
    else (pos 1, take_lease d o lease now)

-- What becomes of the options, where they could be read.
unfoldable pub receive_options : DhcpClient → Option Options → List ℕ → ℕ → ℤ × DhcpClient
receive_options d none p now = (negsuc 0, d)
receive_options d (some o) p now = take_reply d o (get32 p 16) now

unfoldable pub gateway_dhcp_receive : DhcpClient → List ℕ → ℕ → ℤ × DhcpClient
gateway_dhcp_receive d p now =
    let options = drop 240 p in
    if not (is_reply d p) || not (listens d.state)
    then (negsuc 0, d)
    else if d.valid && due now d.expires_at
    then (negsuc 0, gateway_dhcp_step d now true)
    else receive_options d (read_options (length options) no_options options) p now
