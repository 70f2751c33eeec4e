-- ===== src/Gateway/Persistent.antt =====
-- The stored configuration of src/config/gateway_persistence.c: its data, its defaults and its safe mode.
use moxa_4vrs_gateway.Prelude.{
  ℕ, Bool, true, not, ◌&&◌, ◌||◌, List, [], ◌∷◌, map, ltb, leb, ◌==◌, if◌then◌else◌, length, ℤ, pos,
  negsuc,
}
use moxa_4vrs_gateway.Gateway.Config.{
  GatewayPortConfig, gateway_configuration_defaults, is_flag, truth,
}

pub data ConfigResult : Type 0 where
  config_ok config_absent config_invalid config_unsupported_version : ConfigResult
  config_io_error config_unchanged config_durability_uncertain : ConfigResult

pub data ConfigSource : Type 0 where
  from_active from_backup from_defaults from_safe_mode : ConfigSource

-- `ntp_server` holds the text up to its terminating zero.
pub record ProductSettings : Type 0 where
  pub web_protocol : ℕ
  pub web_enabled : ℕ
  pub web_interface : ℕ
  pub backlight_on : ℕ
  pub ntp_enabled : ℤ
  pub ntp_interval_hours : ℕ
  pub ntp_server : List ℕ

pub record PersistentConfig : Type 0 where
  pub schema_version : ℕ
  pub settings : ProductSettings
  pub ports : List GatewayPortConfig

unfoldable pub gateway_persistent_defaults : PersistentConfig
gateway_persistent_defaults = record {
  schema_version = 1;
  settings = record {
    web_protocol = 1;
    web_enabled = 0;
    web_interface = 0;
    backlight_on = 1;
    ntp_enabled = pos 0;
    ntp_interval_hours = 1;
    ntp_server = [];
  };
  ports = gateway_configuration_defaults;
}

unfoldable pub gateway_persistent_safe_mode : PersistentConfig
gateway_persistent_safe_mode =
    let c = gateway_persistent_defaults in
    record c { ports = map (λ (p : GatewayPortConfig). record p { enabled = pos 0 }) c.ports }

abbrev is_letter_or_digit : ℕ → Bool
is_letter_or_digit ch =
    (leb 48 ch && leb ch 57) || (leb 65 ch && leb ch 90) || (leb 97 ch && leb ch 122)

-- The characters of a server name: `isalnum` in the C locale, a dot and a dash.
abbrev pub is_name_char : ℕ → Bool
is_name_char ch = is_letter_or_digit ch || ch == 46 || ch == 45

abbrev pub all_name_chars : List ℕ → Bool
all_name_chars [] = true
all_name_chars (ch ∷ cs) = is_name_char ch && all_name_chars cs

-- `GATEWAY_NTP_SERVER_MAX` is 64.
unfoldable pub gateway_product_settings_validate : ProductSettings → ℤ
gateway_product_settings_validate s =
    let n = length s.ntp_server in
    let on = s.ntp_enabled in
    if ltb 1 s.web_protocol
      || ltb 1 s.web_enabled
      || ltb 2 s.web_interface
      || ltb 1 s.backlight_on
      || not (s.ntp_interval_hours == 1 || s.ntp_interval_hours == 6 || s.ntp_interval_hours == 24)
      || not (is_flag on)
    then negsuc 0
    else if leb 64 n || (truth on && n == 0)
    then negsuc 0
    else if all_name_chars s.ntp_server
    then pos 0
    else negsuc 0
