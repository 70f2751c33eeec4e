-- ===== src/Gateway/Config/Replacement.antt =====
-- What a configuration that src/gateway/gateway_controller.c accepts in place of one port's is by itself.
use moxa_4vrs_gateway.Prelude.{
  ℕ, zero, suc, ◌+◌, ◌<◌, ◌≡◌, refl, sym, ap, ◌∙◌, ◌≢◌, true, List, [], ◌∷◌, map, arith, ◌==◌,
  if◌then◌else◌, if_cases, get_or, set,
}
use moxa_4vrs_gateway.Config.{baud_value, baud_values}
use moxa_4vrs_gateway.Gateway.Config.{
  GatewayError, error_none, duplicate_uart, duplicate_endpoint, GatewayPortConfig, config_at,
  same_endpoint, mark_both, check_pair, truth, upto, check_from, check_all, validate_one,
  gateway_configuration_errors, baud_from, core_config, standard_baud,
}
use moxa_4vrs_gateway.Port.Machine.{config_valid}

abbrev error_at : List GatewayError → ℕ → GatewayError
error_at es k = get_or es k error_none

-- An error that is written is not lost; so no error means none before.
set-none :
    (es : List GatewayError) (i k : ℕ) (e : GatewayError)
    → e ≢ error_none
    → error_at (set es i e) k ≡ error_none
    → error_at es k ≡ error_none
set-none [] i k e n h = h
set-none (x ∷ xs) zero zero e n h = absurd (n h)
set-none (x ∷ xs) zero (suc k) e n h = h
set-none (x ∷ xs) (suc i) zero e n h = h
set-none (x ∷ xs) (suc i) (suc k) e n h = set-none xs i k e n h

mark_both-none :
    (es : List GatewayError) (i j k : ℕ) (e : GatewayError)
    → e ≢ error_none
    → error_at (mark_both es i j e) k ≡ error_none
    → error_at es k ≡ error_none
mark_both-none es i j k e n h = set-none es i k e n (set-none (set es i e) j k e n h)

check_pair-none :
    (ports : List GatewayPortConfig) (i j k : ℕ) (es : List GatewayError)
    → error_at (check_pair ports i j es) k ≡ error_none
    → error_at es k ≡ error_none
unfolding check_pair
check_pair-none ports i j k es =
    let a = config_at ports i in
    let b = config_at ports j in
    let u : duplicate_uart ≢ error_none = λ h. cc h in
    let w : duplicate_endpoint ≢ error_none = λ h. cc h in
    let marked = if a.uart_index == b.uart_index then mark_both es i j duplicate_uart else es in
    let first : error_at marked k ≡ error_none → error_at es k ≡ error_none =
      if_cases (λ x. error_at x k ≡ error_none → error_at es k ≡ error_none)
        (a.uart_index == b.uart_index) (mark_both es i j duplicate_uart) es
        (λ _. mark_both-none es i j k duplicate_uart u) (λ _ h. h) in
    if_cases (λ x. error_at x k ≡ error_none → error_at es k ≡ error_none) (same_endpoint a b)
      (mark_both marked i j duplicate_endpoint) marked
      (λ _ h. first (mark_both-none marked i j k duplicate_endpoint w h)) (λ _ h. first h)

check_from-none :
    (ports : List GatewayPortConfig) (i k : ℕ) (js : List ℕ) (es : List GatewayError)
    → error_at (check_from ports i js es) k ≡ error_none
    → error_at es k ≡ error_none
unfolding check_from
check_from-none ports i k [] es h = h
check_from-none ports i k (j ∷ js) es h =
    if_cases (λ x. error_at x k ≡ error_none → error_at es k ≡ error_none)
      (truth (config_at ports j).enabled) (check_pair ports i j es) es
      (λ _. check_pair-none ports i j k es) (λ _ e. e) (check_from-none ports i k js _ h)

check_all-none :
    (ports : List GatewayPortConfig) (k : ℕ) (js : List ℕ) (es : List GatewayError)
    → error_at (check_all ports js es) k ≡ error_none
    → error_at es k ≡ error_none
unfolding check_all
check_all-none ports k [] es h = h
check_all-none ports k (i ∷ js) es h =
    if_cases (λ x. error_at x k ≡ error_none → error_at es k ≡ error_none)
      (truth (config_at ports i).enabled) (check_from ports i js es) es
      (λ _. check_from-none ports i k js es) (λ _ e. e) (check_all-none ports k js _ h)

get_or-map-upto :
    {A : Type 0} (f : ℕ → A) (a n k : ℕ) (d : A) → k < n → get_or (map f (upto a n)) k d ≡ f (a + k)
get_or-map-upto f a zero k d h = absurd (omega arith)
get_or-map-upto f a (suc n) zero d h = ap f (omega arith)
get_or-map-upto f a (suc n) (suc k) d h =
    get_or-map-upto f (a + 1) n k d (omega arith) ∙ ap f (omega arith)

-- A port in which validation finds no error is valid by itself.
pub gateway_configuration_errors-none :
    (ports : List GatewayPortConfig) (k : ℕ)
    → k < 8
    → get_or (gateway_configuration_errors ports) k error_none ≡ error_none
    → validate_one (config_at ports k) ≡ error_none
unfolding gateway_configuration_errors
gateway_configuration_errors-none ports k small h =
    ap (λ i. validate_one (config_at ports i)) (omega arith)
    ∙ sym (get_or-map-upto (λ i. validate_one (config_at ports i)) 0 8 k error_none small)
    ∙ check_all-none ports k (upto 0 8) _ h

-- The standard baud rates are positive and fit.
baud_from_lem :
    (left i value : ℕ)
    → left + i ≡ 20
    → baud_from left i value ≡ true
    → (0 < value) × (value < 1000000)
unfolding baud_from baud_value baud_values
baud_from_lem zero i value e h = cc h
baud_from_lem (suc left) i value e h =
    ground (arith, h, baud_from_lem left (i + 1) value (omega arith))

standard_baud_lem : (value : ℕ) → standard_baud value ≡ true → (0 < value) × (value < 1000000)
unfolding standard_baud
standard_baud_lem value h = baud_from_lem 20 0 value refl h

-- An enabled port that is valid by itself has a configuration that its runtime takes.
pub core_config-valid :
    (c : GatewayPortConfig)
    → validate_one c ≡ error_none
    → truth c.enabled ≡ true
    → config_valid (core_config c) ≡ true
unfolding validate_one core_config config_valid
core_config-valid c h on = ground (arith, h, on, standard_baud_lem c.baud)
