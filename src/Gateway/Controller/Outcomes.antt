-- ===== src/Gateway/Controller/Outcomes.antt =====
-- What the operations of src/gateway/gateway_controller.c come to for a valid port.
use moxa_4vrs_gateway.Prelude.{
  ℕ, zero, suc, ◌+◌, ◌%◌, ◌<◌, ◌≡◌, refl, sym, ap, subst, ◌∙◌, ◌⊎◌, true, false, not, List, [], ◌∷◌,
  map, arith, if_cases, if_else, length, ℤ, pos, negsuc, is_zero,
}
use moxa_4vrs_gateway.Gateway.Controller.{
  PortController, Controller, update_at, port_reconfiguring, transport_stop, is_disabled,
}
use moxa_4vrs_gateway.Gateway.Controller.Step.{step_port, step_from, gateway_controller_step}
use moxa_4vrs_gateway.Port.Machine.{config_valid}
use moxa_4vrs_gateway.Port.Control.{reconfigurable}
use moxa_4vrs_gateway.Port.Listener.{detach_listener_lem}
use moxa_4vrs_gateway.Gateway.Config.{GatewayError, GatewayPortConfig, core_config, truth}
use moxa_4vrs_gateway.Gateway.Controller.Requests.{
  reconfigure_port, replace, rebind, same_but_address, at_rest,
}
use moxa_4vrs_gateway.Gateway.Controller.Agreement.{IsValid, EntryListener}
use moxa_4vrs_gateway.Gateway.Controller.Transport.{transport_stop-Stopped}
use moxa_4vrs_gateway.Gateway.Controller.Requesting.{request_reconfigure_taken}
use moxa_4vrs_gateway.Gateway.Controller.Replacing.{is_up, up-serving}

module _ {B T : Type 0} where
  step_eight :
      (a b c d e f g h : PortController B T) (next now : ℕ)
      → next < 8
      → let ps = a ∷ b ∷ c ∷ d ∷ e ∷ f ∷ g ∷ h ∷ [] in
        step_from 8 0 next ps now ≡ map (λ p. step_port p now) ps
  unfolding step_from update_at
  step_eight a b c d e f g h zero now lt = refl
  step_eight a b c d e f g h (suc zero) now lt = refl
  step_eight a b c d e f g h (suc (suc zero)) now lt = refl
  step_eight a b c d e f g h (suc (suc (suc zero))) now lt = refl
  step_eight a b c d e f g h (suc (suc (suc (suc zero)))) now lt = refl
  step_eight a b c d e f g h (suc (suc (suc (suc (suc zero))))) now lt = refl
  step_eight a b c d e f g h (suc (suc (suc (suc (suc (suc zero)))))) now lt = refl
  step_eight a b c d e f g h (suc (suc (suc (suc (suc (suc (suc zero))))))) now lt = refl
  step_eight a b c d e f g h (suc (suc (suc (suc (suc (suc (suc (suc n)))))))) now lt =
      absurd (omega arith)

  step_all :
      (ps : List (PortController B T)) (next now : ℕ)
      → length ps ≡ 8
      → next < 8
      → step_from 8 0 next ps now ≡ map (λ p. step_port p now) ps
  step_all [] next now n lt = absurd (omega (arith, n))
  step_all (a ∷ []) next now n lt = absurd (omega (arith, n))
  step_all (a ∷ b ∷ []) next now n lt = absurd (omega (arith, n))
  step_all (a ∷ b ∷ c ∷ []) next now n lt = absurd (omega (arith, n))
  step_all (a ∷ b ∷ c ∷ d ∷ []) next now n lt = absurd (omega (arith, n))
  step_all (a ∷ b ∷ c ∷ d ∷ e ∷ []) next now n lt = absurd (omega (arith, n))
  step_all (a ∷ b ∷ c ∷ d ∷ e ∷ f ∷ []) next now n lt = absurd (omega (arith, n))
  step_all (a ∷ b ∷ c ∷ d ∷ e ∷ f ∷ g ∷ []) next now n lt = absurd (omega (arith, n))
  step_all (a ∷ b ∷ c ∷ d ∷ e ∷ f ∷ g ∷ h ∷ []) next now n lt =
      step_eight a b c d e f g h next now lt
  step_all (a ∷ b ∷ c ∷ d ∷ e ∷ f ∷ g ∷ h ∷ x ∷ xs) next now n lt = absurd (omega (arith, n))

  -- A turn of the controller gives each of its eight ports one turn, whichever port comes first, and
  -- the next turn starts with the next port.
  pub gateway_controller_step-map :
      (c : Controller B T) (now : ℕ)
      → length c.ports ≡ 8
      → c.next_port < 8
      → ((gateway_controller_step c now).ports ≡ map (λ p. step_port p now) c.ports)
        × ((gateway_controller_step c now).next_port ≡ (c.next_port + 1) % 8)
        × ((gateway_controller_step c now).next_port < 8)
  unfolding gateway_controller_step
  gateway_controller_step-map c now n lt =
      (step_all c.ports c.next_port now n lt, refl, ground arith)

module _ {B T : Type 0} where
  -- The listener stopped, and the change is under way; or it did not, and nothing changed.
  abbrev pub Reconfigured : PortController B T → GatewayPortConfig → ℤ × PortController B T → Type 0
  Reconfigured p config r =
      ((is_zero (transport_stop p).0 ≡ true)
        × (r.0 ≡ pos 0)
        × (r.1.lifecycle ≡ port_reconfiguring)
        × (r.1.listener_owned ≡ false)
        × (r.1.staged ≡ config)
        × (r.1.current ≡ p.current))
      ⊎ ((is_zero (transport_stop p).0 ≡ false)
          × (r.0 ≡ negsuc 0)
          × (r.1.lifecycle ≡ p.lifecycle)
          × (r.1.listener_owned ≡ true)
          × (r.1.last_error ≡ GatewayError.stop)
          × (r.1.current ≡ p.current))

module _ {B T : Type 0} (p : PortController B T) (l : EntryListener p.backend_ops p.transport_ops)
    (v : IsValid p) (now : ℕ) where
  rebind-Reconfigured : (config : GatewayPortConfig) → Reconfigured p config (rebind p config now)
  unfolding rebind
  rebind-Reconfigured config =
      let (c, owned, free) = transport_stop-Stopped p l v.runtime in
      let q = (transport_stop p).1 in
      ground (
        arith,
        c.lifecycle,
        c.current,
        owned,
        detach_listener_lem q.backend_ops q.runtime now c.valid,
      )

  replace-Reconfigured :
      (config : GatewayPortConfig)
      → is_up p.lifecycle ≡ true
      → config_valid (core_config config) ≡ true
      → Reconfigured p config (replace p config now)
  unfolding replace
  replace-Reconfigured config up good =
      let (c, owned, free) = transport_stop-Stopped p l v.runtime in
      let q = (transport_stop p).1 in
      let able : reconfigurable q.runtime.state ≡ true =
        ground (arith, up-serving p l v now q c up) in
      let (valid, taken, state) =
        request_reconfigure_taken q.backend_ops q.runtime (core_config config) now c.valid able
          good in
      ground (arith, c.lifecycle, c.current, owned, taken)

  -- A valid port whose transport reaches the runtime only as a listener does, ready or waiting for the
  -- network, takes every enabled configuration that its runtime accepts, whatever the runtime is doing, once its listener stops: the old configuration
  -- stays in force until the new one is proven, and no listener is owned meanwhile. If the listener
  -- does not stop, the request is refused, and the port stays in its state with its listener.
  pub reconfigure_port-outcome :
      (index : ℕ) (config : GatewayPortConfig)
      → is_up p.lifecycle ≡ true
      → truth config.enabled ≡ true
      → config_valid (core_config config) ≡ true
      → Reconfigured p config (reconfigure_port p index config now)
  unfolding reconfigure_port
  reconfigure_port-outcome index config up on good =
      let off : (not (at_rest p.lifecycle)) ≡ false = ground (arith, up) in
      let e : is_disabled p.lifecycle ≡ false = ground (arith, up) in
      subst (Reconfigured p config)
        (sym (if_else _ _ _ off ∙ if_else _ _ _ (ap not on) ∙ if_else _ _ _ e))
        (if_cases (Reconfigured p config) (same_but_address config p.current) (rebind p config now)
          (replace p config now) (λ _. rebind-Reconfigured config)
          (λ _. replace-Reconfigured config up good))
