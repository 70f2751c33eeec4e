-- ===== src/Gateway/Config/Conflicts.antt =====
-- What `gateway_configuration_validate` of src/gateway/gateway_controller.c accepts.
use moxa_4vrs_gateway.Prelude.{
  ℕ, zero, suc, ◌+◌, ◌≤◌, ◌<◌, ◌≡◌, refl, sym, ap, subst, ◌∙◌, ◌≢◌, ◌↔◌, inl, inr, Bool, true,
  false, List, [], ◌∷◌, map, arith, ◌==◌, ==_iff, Bool-cases, if_cases, if_then, if_else, length,
  set, length-set, All,
}
use moxa_4vrs_gateway.Gateway.Config.{
  GatewayError, error_none, duplicate_uart, duplicate_endpoint, GatewayPortConfig, config_at,
  same_endpoint, mark_both, check_pair, truth, upto, check_from, check_all, count_errors,
  validate_one, gateway_configuration_errors, gateway_configuration_validate,
}

abbrev pub Clean : List GatewayError → Type 0
Clean = All (λ e. e ≡ error_none)

-- Two ports that can run side by side.
abbrev pub Compatible : List GatewayPortConfig → ℕ → ℕ → Type 0
Compatible ports i j =
    ((config_at ports i).uart_index ≢ (config_at ports j).uart_index)
    × (same_endpoint (config_at ports i) (config_at ports j) ≡ false)

-- A write of an error leaves a trace.
Clean-set :
    (es : List GatewayError) (i : ℕ) (e : GatewayError)
    → i < length es
    → Clean (set es i e)
    → (e ≡ error_none)
Clean-set [] i e h c = absurd (omega arith)
Clean-set (x ∷ xs) zero e h (a, c) = a
Clean-set (x ∷ xs) (suc i) e h (a, c) = Clean-set xs i e (omega arith) c

length-mark_both :
    (es : List GatewayError) (i j : ℕ) (e : GatewayError) → length (mark_both es i j e) ≡ length es
length-mark_both es i j e = length-set (set es i e) j e ∙ length-set es i e

Clean-mark_both :
    (es : List GatewayError) (i j : ℕ) (e : GatewayError)
    → j < length es
    → Clean (mark_both es i j e)
    → e ≡ error_none
Clean-mark_both es i j e h c = Clean-set (set es i e) j e (omega (arith, length-set es i e)) c

length-check_pair :
    (ports : List GatewayPortConfig) (i j : ℕ) (es : List GatewayError)
    → length (check_pair ports i j es) ≡ length es
unfolding check_pair
length-check_pair ports i j es = ground (
  arith,
  length-mark_both es i j duplicate_uart,
  length-mark_both es i j duplicate_endpoint,
  length-mark_both (mark_both es i j duplicate_uart) i j duplicate_endpoint,
)

here_or_later : (a j : ℕ) → a ≤ j → (P : ℕ → Type 0) → P a → (a + 1 ≤ j → P j) → P j
here_or_later a j lo P here later = elim (Bool-cases (a == j)) [
  | inl e ↦ subst P ((==_iff a j).0 e) here
  | inr e ↦ later (ground arith)
]

-- An index that is on is not the one that is off.
above_off :
    (ports : List GatewayPortConfig) (a j : ℕ)
    → a ≤ j
    → truth (config_at ports a).enabled ≡ false
    → truth (config_at ports j).enabled ≡ true
    → a + 1 ≤ j
above_off ports a j lo off on = elim (Bool-cases (a == j)) [
  | inl e ↦ cc (sym off ∙ ap (λ x. truth (config_at ports x).enabled) ((==_iff a j).0 e) ∙ on)
  | inr e ↦ ground arith
]

-- A pair that leaves no error had none before it, and is compatible.
Clean-check_pair :
    (ports : List GatewayPortConfig) (i j : ℕ) (es : List GatewayError)
    → j < length es
    → Clean (check_pair ports i j es)
    → Clean es × Compatible ports i j
unfolding check_pair
Clean-check_pair ports i j es h c =
    let a = config_at ports i in
    let b = config_at ports j in
    let one = length-mark_both es i j duplicate_uart in
    elim (Bool-cases (a.uart_index == b.uart_index)) [
      | inl e ↦ elim (Bool-cases (same_endpoint a b)) [
        | inl f ↦ cc (
            Clean-mark_both (mark_both es i j duplicate_uart) i j duplicate_endpoint
              (omega (arith, one))
              (subst Clean
                (if_then _ _ _ f ∙ ap (λ x. mark_both x i j duplicate_endpoint) (if_then _ _ _ e))
                c))
        | inr f ↦ cc (
            Clean-mark_both es i j duplicate_uart h
              (subst Clean (if_else _ _ _ f ∙ if_then _ _ _ e) c))
      ]
      | inr e ↦ elim (Bool-cases (same_endpoint a b)) [
        | inl f ↦ cc (
            Clean-mark_both es i j duplicate_endpoint h (
              subst Clean
                (if_then _ _ _ f ∙ ap (λ x. mark_both x i j duplicate_endpoint) (if_else _ _ _ e))
                c))
        | inr f ↦ (subst Clean (if_else _ _ _ f ∙ if_else _ _ _ e) c, (ground arith, f))
      ]
    ]

-- A compatible pair changes nothing.
check_pair-Compatible :
    (ports : List GatewayPortConfig) (i j : ℕ) (es : List GatewayError)
    → Compatible ports i j
    → check_pair ports i j es ≡ es
unfolding check_pair
check_pair-Compatible ports i j es (u, f) =
    let e : ((config_at ports i).uart_index == (config_at ports j).uart_index) ≡ false =
      ground arith in
    if_else _ _ _ f ∙ if_else _ _ _ e

abbrev pub enabled_at : List GatewayPortConfig → ℕ → Bool
enabled_at ports i = truth (config_at ports i).enabled

length-check_from :
    (ports : List GatewayPortConfig) (i : ℕ) (js : List ℕ) (es : List GatewayError)
    → length (check_from ports i js es) ≡ length es
unfolding check_from
length-check_from ports i [] es = refl
length-check_from ports i (j ∷ js) es =
    length-check_from ports i js _
    ∙ if_cases (λ x. length x ≡ length es) (enabled_at ports j) (check_pair ports i j es) es
        (λ _. length-check_pair ports i j es) (λ _. refl)

Clean-check_from :
    (ports : List GatewayPortConfig) (i a n : ℕ) (es : List GatewayError)
    → a + n ≤ length es
    → Clean (check_from ports i (upto a n) es)
    → Clean es × ((j : ℕ) → a ≤ j → j < a + n → enabled_at ports j ≡ true → Compatible ports i j)
unfolding check_from
Clean-check_from ports i a zero es h c = (c, λ j lo hi on. absurd (omega arith))
Clean-check_from ports i a (suc n) es h c = elim (Bool-cases (enabled_at ports a)) [
  | inl e ↦
      let next = check_pair ports i a es in
      let (d, later) =
        Clean-check_from ports i (a + 1) n next (omega (arith, length-check_pair ports i a es))
          (subst (λ x. Clean (check_from ports i (upto (a + 1) n) x)) (if_then _ _ _ e) c) in
      let (clean, first) = Clean-check_pair ports i a es (omega arith) d in
      (
        clean,
        λ j lo hi on.
            here_or_later a j lo (λ x. Compatible ports i x) first
              (λ up. later j up (omega arith) on),
      )
  | inr e ↦
      let (d, later) =
        Clean-check_from ports i (a + 1) n es (omega arith)
          (subst (λ x. Clean (check_from ports i (upto (a + 1) n) x)) (if_else _ _ _ e) c) in
      (d, λ j lo hi on. later j (above_off ports a j lo e on) (omega arith) on)
]

check_from-Compatible :
    (ports : List GatewayPortConfig) (i a n : ℕ) (es : List GatewayError)
    → ((j : ℕ) → a ≤ j → j < a + n → enabled_at ports j ≡ true → Compatible ports i j)
    → check_from ports i (upto a n) es ≡ es
unfolding check_from
check_from-Compatible ports i a zero es h = refl
check_from-Compatible ports i a (suc n) es h =
    ap (check_from ports i (upto (a + 1) n)) (
      if_cases (λ x. x ≡ es) (enabled_at ports a) (check_pair ports i a es) es
        (λ e. check_pair-Compatible ports i a es (h a (omega arith) (omega arith) e)) (λ _. refl))
    ∙ check_from-Compatible ports i (a + 1) n es (λ j lo hi on. h j (omega arith) (omega arith) on)

-- Any two enabled ports of a range can run side by side.
abbrev pub AllCompatible : List GatewayPortConfig → ℕ → ℕ → Type 0
AllCompatible ports a n =
    (i j : ℕ)
    → a ≤ i
    → i < j
    → j < a + n
    → enabled_at ports i ≡ true
    → enabled_at ports j ≡ true
    → Compatible ports i j

Clean-check_all :
    (ports : List GatewayPortConfig) (a n : ℕ) (es : List GatewayError)
    → a + n ≤ length es
    → Clean (check_all ports (upto a n) es)
    → Clean es × AllCompatible ports a n
unfolding check_all
Clean-check_all ports a zero es h c = (c, λ i j lo lt hi on on2. absurd (omega arith))
Clean-check_all ports a (suc n) es h c = elim (Bool-cases (enabled_at ports a)) [
  | inl e ↦
      let next = check_from ports a (upto (a + 1) n) es in
      let (d, later) =
        Clean-check_all ports (a + 1) n next
          (omega (arith, length-check_from ports a (upto (a + 1) n) es))
          (subst (λ x. Clean (check_all ports (upto (a + 1) n) x)) (if_then _ _ _ e) c) in
      let (clean, first) = Clean-check_from ports a (a + 1) n es (omega arith) d in
      (
        clean,
        λ i j lo lt hi on on2.
            here_or_later a i lo (λ x. x < j → Compatible ports x j)
              (λ x. first j (omega arith) (omega arith) on2)
              (λ up x. later i j up lt (omega arith) on on2) lt,
      )
  | inr e ↦
      let (d, later) =
        Clean-check_all ports (a + 1) n es (omega arith)
          (subst (λ x. Clean (check_all ports (upto (a + 1) n) x)) (if_else _ _ _ e) c) in
      (d, λ i j lo lt hi on on2. later i j (above_off ports a i lo e on) lt (omega arith) on on2)
]

check_all-Compatible :
    (ports : List GatewayPortConfig) (a n : ℕ) (es : List GatewayError)
    → AllCompatible ports a n
    → check_all ports (upto a n) es ≡ es
unfolding check_all
check_all-Compatible ports a zero es h = refl
check_all-Compatible ports a (suc n) es h =
    ap (check_all ports (upto (a + 1) n)) (
      if_cases (λ x. x ≡ es) (enabled_at ports a) (check_from ports a (upto (a + 1) n) es) es
        (λ e.
          check_from-Compatible ports a (a + 1) n es
            (λ j lo hi on. h a j (omega arith) (omega arith) (omega arith) e on))
        (λ _. refl))
    ∙ check_all-Compatible ports (a + 1) n es
        (λ i j lo lt hi on on2. h i j (omega arith) lt (omega arith) on on2)

count_errors-Clean : (es : List GatewayError) → count_errors es ≡ 0 → Clean es
unfolding count_errors
count_errors-Clean [] h = tt
count_errors-Clean (error_none ∷ es) h = (refl, count_errors-Clean es (omega arith))
count_errors-Clean (_ ∷ es) h = absurd (omega arith)

Clean-count_errors : (es : List GatewayError) → Clean es → count_errors es ≡ 0
unfolding count_errors
Clean-count_errors [] c = refl
Clean-count_errors (e ∷ es) (h, c) = rw (h, Clean-count_errors es c) refl

Clean-map :
    (f : ℕ → GatewayError) (a n : ℕ)
    → Clean (map f (upto a n))
    → (i : ℕ) → a ≤ i
    → i < a + n
    → f i ≡ error_none
Clean-map f a zero c i lo hi = absurd (omega arith)
Clean-map f a (suc n) (h, c) i lo hi =
    here_or_later a i lo (λ x. f x ≡ error_none) h
      (λ up. Clean-map f (a + 1) n c i up (omega arith))

map-Clean :
    (f : ℕ → GatewayError) (a n : ℕ)
    → ((i : ℕ) → a ≤ i → i < a + n → f i ≡ error_none)
    → Clean (map f (upto a n))
map-Clean f a zero h = tt
map-Clean f a (suc n) h = (
  h a (omega arith) (omega arith),
  map-Clean f (a + 1) n (λ i lo hi. h i (omega arith) (omega arith)),
)

abbrev first_errors : List GatewayPortConfig → List GatewayError
first_errors ports = map (λ i. validate_one (config_at ports i)) (upto 0 8)

-- Every port is valid by itself, and any two that are enabled have their own UART and endpoint.
abbrev pub ConfigurationValid : List GatewayPortConfig → Type 0
ConfigurationValid ports =
    ((i : ℕ) → i < 8 → validate_one (config_at ports i) ≡ error_none) × AllCompatible ports 0 8

-- The configurations that validation finds no failure in are those whose eight ports are each valid
-- by themselves and whose enabled ports differ pairwise in UART and endpoint.
pub gateway_configuration_validate-valid :
    (ports : List GatewayPortConfig)
    → (gateway_configuration_validate ports ≡ 0) ↔ ConfigurationValid ports
unfolding gateway_configuration_validate gateway_configuration_errors
gateway_configuration_validate-valid ports = (
  λ h.
      let (c, pairs) =
        Clean-check_all ports 0 8 (first_errors ports) (omega arith) (count_errors-Clean _ h) in
      (
        λ i hi.
            Clean-map (λ k. validate_one (config_at ports k)) 0 8 c i (omega arith) (omega arith),
        pairs,
      ),
  λ (each, pairs).
      ap count_errors (check_all-Compatible ports 0 8 (first_errors ports) pairs)
      ∙ Clean-count_errors (first_errors ports)
          (map-Clean (λ k. validate_one (config_at ports k)) 0 8 (λ i lo hi. each i (omega arith))),
)
