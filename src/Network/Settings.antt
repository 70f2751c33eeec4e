-- ===== src/Network/Settings.antt =====
-- The network settings of src/network/gateway_network_settings.c and their validation.
use moxa_4vrs_gateway.Prelude.{
  ℕ, ◌+◌, ◌-◌, ◌/◌, bit_and, Bool, true, false, not, ◌&&◌, ◌||◌, Option, none, some, List, [], ltb,
  ◌==◌, if◌then◌else◌, length,
}
use moxa_4vrs_gateway.Network.Ipv4.{gateway_ipv4_parse}

pub data LanMode : Type 0 where
  lan_static lan_dhcp_client : LanMode

-- The texts are the bytes before the first zero; one that fills its array has none.
pub record LanSettings : Type 0 where
  pub mode : LanMode
  pub address : List ℕ
  pub netmask : List ℕ
  pub gateway : List ℕ

pub record NetworkSettings : Type 0 where
  pub lan1 : LanSettings
  pub lan2 : LanSettings
  pub default_lan : ℕ
  pub automatic_dns : ℕ
  pub dns_lan : ℕ
  pub dns1 : List ℕ
  pub dns2 : List ℕ

pub data SettingsResult : Type 0 where
  settings_ok settings_invalid settings_address settings_mask settings_gateway settings_overlap
        settings_dns :
      SettingsResult

abbrev no_lan : LanSettings
no_lan = record { mode = lan_static; address = []; netmask = []; gateway = [] }

unfoldable pub gateway_network_settings_init : NetworkSettings
gateway_network_settings_init = record {
  lan1 = no_lan;
  lan2 = no_lan;
  default_lan = 0;
  automatic_dns = 0;
  dns_lan = 0;
  dns1 = [];
  dns2 = [];
}

unfoldable pub unicast : ℕ → Bool
unicast a = let first = a / 16777216 in not (first == 0) && not (first == 127) && ltb first 224

abbrev is_empty : List ℕ → Bool
is_empty [] = true
is_empty _ = false

abbrev refused : Option ℕ → Bool
refused none = true
refused (some a) = false

-- An address, or zero for an empty text; an address that is written must not be zero.
unfoldable pub optional_address : List ℕ → Option ℕ
optional_address s =
    if is_empty s
    then some 0
    else elim (gateway_ipv4_parse s) [ none ↦ none | some a ↦ if a == 0 then none else some a ]

-- `memchr` finds the terminating zero.
abbrev terminated : List ℕ → Bool
terminated s = ltb (length s) 16

-- `s[0] && gateway_ipv4_parse(s, &dormant)`
abbrev bad_dormant : List ℕ → Bool
bad_dormant s = not (is_empty s) && refused (gateway_ipv4_parse s)

abbrev is_static : LanMode → Bool
is_static lan_static = true
is_static _ = false

abbrev pub complement : ℕ → ℕ
complement a = 0xffff_ffff - a

-- The values of a LAN that is valid: its address, its mask and its gateway, or zeroes with DHCP.
pub record LanValues : Type 0 where
  pub addr : ℕ
  pub mask : ℕ
  pub gw : ℕ

-- The tests of the gateway, and what they leave.
unfoldable pub check_gateway : ℕ → ℕ → Bool → Option ℕ → SettingsResult × LanValues
check_gateway addr mask is_default none =
    (settings_gateway, record { addr = addr; mask = mask; gw = 0 })
check_gateway addr mask is_default (some gw) =
    let inverse = complement mask in
    let values : LanValues = record { addr = addr; mask = mask; gw = gw } in
    if not (gw == 0)
      && (not (unicast gw)
          || gw == addr
          || not (bit_and gw mask == bit_and addr mask)
          || bit_and gw inverse == 0
          || bit_and gw inverse == inverse)
    then (settings_gateway, values)
    else if is_default && gw == 0
    then (settings_gateway, values)
    else (settings_ok, values)

abbrev value_of : Option ℕ → ℕ
value_of none = 0
value_of (some a) = a

-- The tests of a LAN with a static address.
unfoldable pub check_static : LanSettings → Bool → SettingsResult × LanValues
check_static p is_default =
    let addr = value_of (gateway_ipv4_parse p.address) in
    let mask = value_of (gateway_ipv4_parse p.netmask) in
    let inverse = complement mask in
    let values : LanValues = record { addr = addr; mask = mask; gw = 0 } in
    if refused (gateway_ipv4_parse p.address) || not (unicast addr)
    then (settings_address, values)
    else if refused (gateway_ipv4_parse p.netmask)
    then (settings_mask, values)
    else if mask == 0 || ltb inverse 3 || not (bit_and inverse (inverse + 1) == 0)
    then (settings_mask, values)
    else if bit_and addr inverse == 0 || bit_and addr inverse == inverse
    then (settings_address, values)
    else check_gateway addr mask is_default (optional_address p.gateway)

-- The body of the loop over the LANs.
unfoldable pub check_lan : LanSettings → Bool → SettingsResult × LanValues
check_lan p is_default =
    let none_yet : LanValues = record { addr = 0; mask = 0; gw = 0 } in
    if not (terminated p.address) || not (terminated p.netmask) || not (terminated p.gateway)
    then (settings_invalid, none_yet)
    else if is_static p.mode
    then check_static p is_default
    else if bad_dormant p.address || bad_dormant p.netmask || bad_dormant p.gateway
    then (settings_invalid, none_yet)
    else (settings_ok, none_yet)

abbrev pub is_ok : SettingsResult → Bool
is_ok settings_ok = true
is_ok _ = false

abbrev bad_dns : Option ℕ → Bool
bad_dns none = true
bad_dns (some a) = not (a == 0) && not (unicast a)

-- The tests of the name servers.
unfoldable pub check_dns : NetworkSettings → SettingsResult
check_dns s =
    let source = if s.dns_lan == 0 then s.default_lan else s.dns_lan in
    let lan = if source == 1 then s.lan1 else s.lan2 in
    if s.automatic_dns == 0
    then (if bad_dns (optional_address s.dns1) || bad_dns (optional_address s.dns2)
        then settings_dns
        else settings_ok)
    else if not (terminated s.dns1)
        || bad_dormant s.dns1
        || not (terminated s.dns2)
        || bad_dormant s.dns2
    then settings_invalid
    else if source == 0 || is_static lan.mode
    then settings_dns
    else settings_ok

-- The result, and the LAN that is left in `invalid_lan`, or the number of LANs.
unfoldable pub gateway_network_settings_validate : NetworkSettings → SettingsResult × ℕ
gateway_network_settings_validate s =
    let (first, one) = check_lan s.lan1 (s.default_lan == 1) in
    let (second, two) = check_lan s.lan2 (s.default_lan == 2) in
    let common = bit_and one.mask two.mask in
    if ltb 2 s.default_lan
      || ltb 1 s.automatic_dns
      || ltb 2 s.dns_lan
      || (s.automatic_dns == 0 && not (s.dns_lan == 0))
    then (settings_invalid, 2)
    else if not (is_ok first)
    then (first, 0)
    else if not (is_ok second)
    then (second, 1)
    else if is_static s.lan1.mode
        && is_static s.lan2.mode
        && bit_and one.addr common == bit_and two.addr common
    then (settings_overlap, 2)
    else (check_dns s, 2)
