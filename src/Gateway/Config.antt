-- ===== src/Gateway/Config.antt =====
-- The configuration of the ports of src/gateway/gateway_controller.c, and its validation.
pub mod Address
pub mod Conflicts
pub mod Replacement
use moxa_4vrs_gateway.Prelude.{
  ℕ, zero, suc, ◌+◌, ◌-◌, ◌%◌, Bool, true, false, not, ◌&&◌, ◌||◌, List, [], ◌∷◌, map, ltb, leb,
  ◌==◌, if◌then◌else◌, u32_mod, get_or, set, ℤ, pos, negsuc, is_zero, bytes,
}
use moxa_4vrs_gateway.Config.{baud_count, baud_value, port_count}
use moxa_4vrs_gateway.Port.State.{PortConfig}
use moxa_4vrs_gateway.Gateway.Config.Address.{bind_address_valid}

pub data GatewayError : Type 0 where
  error_none invalid_config duplicate_uart duplicate_endpoint unsupported_transport : GatewayError
  backend_start listener_start reconfigure rollback stop : GatewayError

-- `gateway_port_config_t`. The enumerations are numbers here, since a stored document can hold values
-- that they do not name. `bind_address` holds the text up to its terminating zero.
pub record GatewayPortConfig : Type 0 where
  pub enabled : ℤ
  pub uart_index : ℕ
  pub mode : ℕ
  pub baud : ℕ
  pub data_bits : ℕ
  pub parity : ℕ
  pub stop_bits : ℕ
  pub transport : ℕ
  pub bind_address : List ℕ
  pub bind_policy : ℕ
  pub endpoint_port : ℕ
  pub special_baud_enabled : ℤ
  pub special_baud : ℕ
  pub revision : ℕ

-- The truth of an `int` in C.
abbrev pub truth : ℤ → Bool
truth z = not (is_zero z)

-- `z == 0 || z == 1`
abbrev pub is_flag : ℤ → Bool
is_flag (pos n) = leb n 1
is_flag (negsuc n) = false

-- The loop of `standard_baud` over the indices from `i` on, of which `left` are left.
unfoldable pub baud_from : ℕ → ℕ → ℕ → Bool
baud_from zero i value = false
baud_from (suc left) i value = baud_value (pos i) == value || baud_from left (i + 1) value

unfoldable pub standard_baud : ℕ → Bool
standard_baud value = baud_from baud_count 0 value

unfoldable pub validate_one : GatewayPortConfig → GatewayError
validate_one c =
    if leb port_count c.uart_index
      || leb 4 c.mode
      || ltb c.data_bits 5
      || ltb 8 c.data_bits
      || leb 3 c.parity
      || (not (c.stop_bits == 1) && not (c.stop_bits == 2))
      || c.revision == 0
      || not (is_flag c.enabled)
      || not (is_flag c.special_baud_enabled)
      || not (bind_address_valid c.bind_address)
    then invalid_config
    else if (not (truth c.special_baud_enabled) && not (standard_baud c.baud))
        || (truth c.special_baud_enabled && (c.special_baud == 0 || ltb 0xffff_ffff c.special_baud))
    then invalid_config
    else if ltb 3 c.bind_policy
    then invalid_config
    else if not (truth c.enabled)
    then error_none
    else if ltb 4 c.transport
    then unsupported_transport
    else if c.endpoint_port == 0 || ltb 65535 c.endpoint_port
    then invalid_config
    else error_none

unfoldable pub gateway_default_port : ℕ → GatewayPortConfig
gateway_default_port i = record {
  enabled = pos 1;
  uart_index = i;
  mode = 0;
  baud = 9600;
  data_bits = 8;
  parity = 0;
  stop_bits = 1;
  transport = 0;
  bind_address = bytes "0.0.0.0";
  bind_policy = 0;
  endpoint_port = 502 + i;
  special_baud_enabled = pos 0;
  special_baud = 0;
  revision = 1;
}

-- The numbers from `i` on, so many of them.
abbrev pub upto : ℕ → ℕ → List ℕ
upto i zero = []
upto i (suc n) = i ∷ upto (i + 1) n

unfoldable pub gateway_configuration_defaults : List GatewayPortConfig
gateway_configuration_defaults = map gateway_default_port (upto 0 port_count)

abbrev pub config_at : List GatewayPortConfig → ℕ → GatewayPortConfig
config_at ports i = get_or ports i (gateway_default_port 0)

-- `strcmp(a, b) == 0`
unfoldable pub same_text : List ℕ → List ℕ → Bool
same_text [] [] = true
same_text [] (y ∷ ys) = false
same_text (x ∷ xs) [] = false
same_text (x ∷ xs) (y ∷ ys) = x == y && same_text xs ys

-- Modbus TCP and raw TCP; and the three transports over UDP.
abbrev pub over_tcp : ℕ → Bool
over_tcp t = t == 0 || t == 3

abbrev pub over_udp : ℕ → Bool
over_udp t = t == 1 || t == 2 || t == 4

-- Two ports that would listen at one endpoint.
unfoldable pub same_endpoint : GatewayPortConfig → GatewayPortConfig → Bool
same_endpoint a b =
    ((over_tcp a.transport && over_tcp b.transport)
      || (over_udp a.transport && over_udp b.transport))
    && a.endpoint_port == b.endpoint_port
    && (same_text a.bind_address b.bind_address
        || same_text a.bind_address (bytes "0.0.0.0")
        || same_text b.bind_address (bytes "0.0.0.0"))

abbrev pub mark_both : List GatewayError → ℕ → ℕ → GatewayError → List GatewayError
mark_both errors i j e = set (set errors i e) j e

-- The body of the inner loop, for two ports that are both enabled.
unfoldable pub check_pair : List GatewayPortConfig → ℕ → ℕ → List GatewayError → List GatewayError
check_pair ports i j errors =
    let a = config_at ports i in
    let b = config_at ports j in
    let marked =
      if a.uart_index == b.uart_index then mark_both errors i j duplicate_uart else errors in
    if same_endpoint a b then mark_both marked i j duplicate_endpoint else marked

unfoldable pub check_from :
    List GatewayPortConfig → ℕ → List ℕ → List GatewayError → List GatewayError
check_from ports i [] errors = errors
check_from ports i (j ∷ js) errors =
    check_from ports i js
      (if truth (config_at ports j).enabled then check_pair ports i j errors else errors)

-- Each index with those behind it.
unfoldable pub check_all : List GatewayPortConfig → List ℕ → List GatewayError → List GatewayError
check_all ports [] errors = errors
check_all ports (i ∷ js) errors =
    check_all ports js
      (if truth (config_at ports i).enabled then check_from ports i js errors else errors)

abbrev pub is_error : GatewayError → Bool
is_error error_none = false
is_error _ = true

unfoldable pub count_errors : List GatewayError → ℕ
count_errors [] = 0
count_errors (e ∷ es) = (if is_error e then 1 else 0) + count_errors es

-- What is left in `errors`, and the number of failures that is returned.
unfoldable pub gateway_configuration_errors : List GatewayPortConfig → List GatewayError
gateway_configuration_errors ports =
    check_all ports (upto 0 port_count)
      (map (λ i. validate_one (config_at ports i)) (upto 0 port_count))

unfoldable pub gateway_configuration_validate : List GatewayPortConfig → ℕ
gateway_configuration_validate ports = count_errors (gateway_configuration_errors ports)

-- A conversion to `unsigned int`, of a wider number and of a flag.
abbrev pub to_u32 : ℕ → ℕ
to_u32 n = n % u32_mod

abbrev pub flag_value : ℤ → ℕ
flag_value (pos n) = to_u32 n
flag_value (negsuc n) = u32_mod - 1 - n

unfoldable pub core_config : GatewayPortConfig → PortConfig
core_config c = record {
  revision = c.revision;
  mode = c.mode;
  baud = to_u32 (if truth c.special_baud_enabled then c.special_baud else c.baud);
  data_bits = c.data_bits;
  parity = c.parity;
  stop_bits = c.stop_bits;
  special_baud_enabled = flag_value c.special_baud_enabled;
  special_baud = to_u32 c.special_baud;
  transport = c.transport;
  endpoint_port = c.endpoint_port;
}
