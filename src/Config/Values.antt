-- ===== src/Config/Values.antt =====
-- The values that the tables and the defaults of src/config/config_model.c give.
use moxa_4vrs_gateway.Prelude.{
  ℕ, zero, suc, ◌+◌, ◌<◌, ◌≡◌, refl, ap, ◌∙◌, true, List, [], ◌∷◌, arith, length, get_or, pos,
}
use moxa_4vrs_gateway.Config.{
  PortSettings, port_count, baud_count, default_port, defaults_from, configuration_defaults,
  baud_values, baud_value, network_port_valid,
}

-- Each number is below the next.
abbrev pub Increasing : ℕ → List ℕ → Type 0
Increasing low [] = Unit
Increasing low (x ∷ xs) = (low < x) × Increasing x xs

Increasing-above :
    (low : ℕ) (xs : List ℕ) (j : ℕ) → Increasing low xs → j < length xs → low < get_or xs j 0
Increasing-above low [] j inc h = absurd (omega arith)
Increasing-above low (x ∷ xs) zero (lt, inc) h = lt
Increasing-above low (x ∷ xs) (suc j) (lt, inc) h =
    omega (arith, lt, Increasing-above x xs j inc (omega arith))

Increasing-get :
    (low : ℕ) (xs : List ℕ) (i j : ℕ)
    → Increasing low xs
    → i < j
    → j < length xs
    → get_or xs i 0 < get_or xs j 0
Increasing-get low [] i j inc lt h = absurd (omega arith)
Increasing-get low (x ∷ xs) i zero inc lt h = absurd (omega arith)
Increasing-get low (x ∷ xs) zero (suc j) (_, inc) lt h = Increasing-above x xs j inc (omega arith)
Increasing-get low (x ∷ xs) (suc i) (suc j) (_, inc) lt h =
    Increasing-get x xs i j inc (omega arith) (omega arith)

-- The baud rates grow with their index, so that no two indices name the same rate.
pub baud_value-lt : (i j : ℕ) → i < j → j < baud_count → baud_value (pos i) < baud_value (pos j)
unfolding baud_value baud_values
baud_value-lt i j lt h = Increasing-get 0 baud_values i j (omega arith) lt h

defaults_from-get :
    (n : ℕ) (ps : List PortSettings) (i : ℕ) (d : PortSettings)
    → i < length ps
    → get_or (defaults_from n ps) i d ≡ default_port (n + i)
unfolding defaults_from
defaults_from-get n [] i d h = absurd (omega arith)
defaults_from-get n (p ∷ ps) zero d h = ap default_port (omega arith)
defaults_from-get n (p ∷ ps) (suc i) d h =
    defaults_from-get (n + 1) ps i d (omega arith) ∙ ap default_port (omega arith)

-- By default each of the eight ports runs at 9600 baud on a valid network port of its own, 502 for
-- the first.
pub configuration_defaults_lem :
    (ports : List PortSettings) (i : ℕ)
    → length ports ≡ port_count
    → i < port_count
    → let p = get_or (configuration_defaults ports) i (default_port 0) in
      (p.network_port ≡ pos (502 + i))
      × (network_port_valid p.network_port ≡ true)
      × (baud_value p.baud_index ≡ 9600)
unfolding configuration_defaults network_port_valid baud_value baud_values
configuration_defaults_lem ports i fits h =
    rw (defaults_from-get 0 ports i (default_port 0) (omega (arith, fits)))
      (ap (λ k. pos (502 + k)) (omega arith), ground arith, refl)
