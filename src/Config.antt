-- ===== src/Config.antt =====
-- src/config/config_model.c: the configuration of the ports, its defaults and its names.
pub mod Values
use moxa_4vrs_gateway.Prelude.{
  ℕ, ◌+◌, Bool, false, ◌&&◌, List, [], ◌∷◌, leb, get_or, ℤ, pos, negsuc, bytes,
}

-- `FOURVRS_PORT_COUNT`
abbrev pub port_count : ℕ
port_count = 8

-- `FOURVRS_BAUD_COUNT`
abbrev pub baud_count : ℕ
baud_count = 20

pub data SerialMode : Type 0 where
  rs232 rs485_two_wire rs422 rs485_four_wire : SerialMode

pub data ParityMode : Type 0 where
  parity_none parity_even parity_odd : ParityMode

pub data TransportType : Type 0 where
  modbus_tcp modbus_udp rtu_udp raw_tcp raw_udp : TransportType

-- `port_config_t`
pub record PortSettings : Type 0 where
  pub mode : SerialMode
  pub baud_index : ℤ
  pub data_bits : ℤ
  pub parity : ParityMode
  pub stop_bits : ℤ
  pub transport : TransportType
  pub network_port : ℤ
  pub special_baud_enabled : ℤ
  pub special_baud : ℕ

abbrev port_names : List (List ℕ)
port_names =
    bytes "P1"
    ∷ bytes "P2"
    ∷ bytes "P3"
    ∷ bytes "P4"
    ∷ bytes "P5"
    ∷ bytes "P6"
    ∷ bytes "P7"
    ∷ bytes "P8"
    ∷ []

abbrev device_names : List (List ℕ)
device_names =
    bytes "ttyM0"
    ∷ bytes "ttyM1"
    ∷ bytes "ttyM2"
    ∷ bytes "ttyM3"
    ∷ bytes "ttyM4"
    ∷ bytes "ttyM5"
    ∷ bytes "ttyM6"
    ∷ bytes "ttyM7"
    ∷ []

unfoldable pub baud_values : List ℕ
baud_values =
    50 ∷ 75 ∷ 110 ∷ 134 ∷ 150 ∷ 200 ∷ 300 ∷ 600 ∷ 1200 ∷ 1800 ∷ 2400 ∷ 4800 ∷ 9600 ∷ 19200 ∷ 38400
    ∷ 57600 ∷ 115200 ∷ 230400 ∷ 460800 ∷ 921600 ∷ []

-- The item at an `int` index, or what the code answers out of range.
abbrev pub item_at {ℓ} : {A : Type ℓ} → List A → ℤ → A → A
item_at xs (pos n) d = get_or xs n d
item_at xs (negsuc n) d = d

abbrev pub default_port : ℕ → PortSettings
default_port index = record {
  mode = rs232;
  baud_index = pos 12;
  data_bits = pos 8;
  parity = parity_none;
  stop_bits = pos 1;
  transport = modbus_tcp;
  network_port = pos (502 + index);
  special_baud_enabled = pos 0;
  special_baud = 0;
}

-- The loop from `index` on over the ports that are left, each of which it sets whole.
unfoldable pub defaults_from : ℕ → List PortSettings → List PortSettings
defaults_from index [] = []
defaults_from index (p ∷ ps) = default_port index ∷ defaults_from (index + 1) ps

-- The list is `config->port`.
unfoldable pub configuration_defaults : List PortSettings → List PortSettings
configuration_defaults ports = defaults_from 0 ports

unfoldable pub config_port_name : ℤ → List ℕ
config_port_name index = item_at port_names index (bytes "P?")

unfoldable pub config_device_name : ℤ → List ℕ
config_device_name index = item_at device_names index (bytes "ttyM?")

unfoldable pub serial_mode_label : SerialMode → List ℕ
serial_mode_label rs232 = bytes "RS232"
serial_mode_label rs485_two_wire = bytes "RS485-2W"
serial_mode_label rs422 = bytes "RS422"
serial_mode_label rs485_four_wire = bytes "RS485-4W"

unfoldable pub parity_label : ParityMode → List ℕ
parity_label parity_none = bytes "None"
parity_label parity_even = bytes "Even"
parity_label parity_odd = bytes "Odd"

unfoldable pub transport_label : TransportType → List ℕ
transport_label modbus_tcp = bytes "MB TCP"
transport_label modbus_udp = bytes "MB UDP"
transport_label rtu_udp = bytes "RTU/UDP"
transport_label raw_tcp = bytes "RAW TCP"
transport_label raw_udp = bytes "RAW UDP"

unfoldable pub baud_value : ℤ → ℕ
baud_value index = item_at baud_values index 0

unfoldable pub network_port_valid : ℤ → Bool
network_port_valid (pos value) = leb 1 value && leb value 65535
network_port_valid (negsuc n) = false
