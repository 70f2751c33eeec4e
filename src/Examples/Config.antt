-- ===== src/Examples/Config.antt =====
-- Tests of the configuration at concrete ports.
use moxa_4vrs_gateway.Prelude.{◌≡◌, refl, get_or, replicate, pos}
use moxa_4vrs_gateway.Config.{
  default_port, configuration_defaults, baud_value, baud_values, defaults_from,
}

third_port_test :
    (get_or (configuration_defaults (replicate 8 (default_port 0))) 2 (default_port 0)).network_port
    ≡ pos 504
unfolding configuration_defaults defaults_from
third_port_test = refl

fastest_test : baud_value (pos 19) ≡ 921600
unfolding baud_value baud_values
fastest_test = refl
