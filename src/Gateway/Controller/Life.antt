-- ===== src/Gateway/Controller/Life.antt =====
-- The controller of src/gateway/gateway_controller.c over any sequence of calls of its operations.
use moxa_4vrs_gateway.Prelude.{
  ℕ, zero, suc, ◌+◌, ◌%◌, ◌<◌, ◌≡◌, refl, sym, ap, subst, ◌∙◌, inl, inr, true, not, ◌||◌, some,
  List, [], ◌∷◌, map, arith, ltb, leb, ◌==◌, if_cases, Option-cases, length, get_or, set,
  get_or-set_self, length-map, All, ℤ, negsuc,
}
use mathlib.Core.Option.{some-injective}
use moxa_4vrs_gateway.Config.{port_count}
use moxa_4vrs_gateway.Gateway.Config.{
  GatewayPortConfig, GatewayError, error_none, config_at, truth, upto, validate_one,
  gateway_configuration_errors, core_config,
}
use moxa_4vrs_gateway.Gateway.Controller.{
  PortController, Controller, gateway_controller_start, update_at, get_elem?, Binding, init_port,
  gateway_controller_init, start_port,
}
use moxa_4vrs_gateway.Gateway.Controller.Step.{step_port, step_from, gateway_controller_step}
use moxa_4vrs_gateway.Gateway.Controller.Requests.{
  gateway_controller_reconfigure, gateway_controller_network_wait, gateway_controller_shutdown,
  on_port, validate_replacement, reconfigure_port, wait_port, shut_down_port,
}
use moxa_4vrs_gateway.Gateway.Controller.Agreement.{IsValid, EntryListener}
use moxa_4vrs_gateway.Gateway.Controller.Turns.{Kept}
use moxa_4vrs_gateway.Gateway.Controller.Scheduling.{step_port-Kept}
use moxa_4vrs_gateway.Port.Machine.{init, config_valid}
use moxa_4vrs_gateway.Port.Valid.{init-IsValid}
use moxa_4vrs_gateway.Gateway.Config.Replacement.{
  gateway_configuration_errors-none, core_config-valid,
}
use moxa_4vrs_gateway.Gateway.Controller.Requesting.{start_port-Kept, shut_down_port-Kept}
use moxa_4vrs_gateway.Gateway.Controller.Replacing.{wait_port-Kept, reconfigure_port-Kept}

-- A call of one of the operations of the controller, with the time of the call.
pub data ControllerCall : Type 0 where
  starts : ℕ → ControllerCall
  steps : ℕ → ControllerCall
  reconfigures : ℕ → GatewayPortConfig → ℕ → ControllerCall
  waits : ℕ → ℕ → ℕ → ControllerCall
  shuts_down : ℕ → ControllerCall

module _ {B T : Type 0} where
  -- The controller after a call.
  unfoldable pub perform : Controller B T → ControllerCall → Controller B T
  perform c (starts now) = gateway_controller_start c now
  perform c (steps now) = gateway_controller_step c now
  perform c (reconfigures index config now) = (gateway_controller_reconfigure c index config now).1
  perform c (waits index wait now) = (gateway_controller_network_wait c index wait now).1
  perform c (shuts_down now) = gateway_controller_shutdown c now

  unfoldable pub run : Controller B T → List ControllerCall → Controller B T
  run c [] = c
  run c (x ∷ xs) = run (perform c x) xs

  -- A valid port whose transport is a listener.
  abbrev Sound : PortController B T → Type 0
  Sound p = IsValid p × EntryListener p.backend_ops p.transport_ops

  Kept-Sound : (p q : PortController B T) → Kept p q → Sound p → Sound q
  Kept-Sound p q k (_, l) = (
    k.valid,
    subst (λ ops. EntryListener ops q.transport_ops) (sym k.backend_ops)
        (subst (λ t. EntryListener p.backend_ops t) (sym k.transport_ops) l),
  )

  abbrev AllSound : List (PortController B T) → Type 0
  AllSound ps = (length ps ≡ 8) × All Sound ps

  map-Sound :
      (f : PortController B T → PortController B T)
      → ((p : PortController B T) → Sound p → Sound (f p))
      → (ps : List (PortController B T)) → All Sound ps
      → All Sound (map f ps)
  map-Sound f h [] a = tt
  map-Sound f h (p ∷ ps) (s, a) = (h p s, map-Sound f h ps a)

  update_at-Sound :
      (f : PortController B T → PortController B T)
      → ((p : PortController B T) → Sound p → Sound (f p))
      → (ps : List (PortController B T)) (i : ℕ) → All Sound ps
      → All Sound (update_at ps i f)
  unfolding update_at
  update_at-Sound f h [] i a = tt
  update_at-Sound f h (p ∷ ps) zero (s, a) = (h p s, a)
  update_at-Sound f h (p ∷ ps) (suc i) (s, a) = (s, update_at-Sound f h ps i a)

  length-update_at :
      (f : PortController B T → PortController B T) (ps : List (PortController B T)) (i : ℕ)
      → length (update_at ps i f) ≡ length ps
  unfolding update_at
  length-update_at f [] i = refl
  length-update_at f (p ∷ ps) zero = refl
  length-update_at f (p ∷ ps) (suc i) = ground (arith, length-update_at f ps i)

  get_elem?-Sound :
      (ps : List (PortController B T)) (i : ℕ) (p : PortController B T)
      → All Sound ps
      → get_elem? ps i ≡ some p
      → Sound p
  get_elem?-Sound [] i p a e = cc e
  get_elem?-Sound (q ∷ ps) zero p (s, a) e = subst Sound (some-injective q p e) s
  get_elem?-Sound (q ∷ ps) (suc i) p (s, a) e = get_elem?-Sound ps i p a e

  AllSound-map :
      (f : PortController B T → PortController B T)
      → ((p : PortController B T) → Sound p → Sound (f p))
      → (ps : List (PortController B T)) → AllSound ps
      → AllSound (map f ps)
  AllSound-map f h ps (n, a) = (length-map f ps ∙ n, map-Sound f h ps a)

  AllSound-update_at :
      (f : PortController B T → PortController B T)
      → ((p : PortController B T) → Sound p → Sound (f p))
      → (ps : List (PortController B T)) (i : ℕ) → AllSound ps
      → AllSound (update_at ps i f)
  AllSound-update_at f h ps i (n, a) = (length-update_at f ps i ∙ n, update_at-Sound f h ps i a)

  step_from-Sound :
      (left n next : ℕ) (ps : List (PortController B T)) (now : ℕ)
      → AllSound ps
      → AllSound (step_from left n next ps now)
  unfolding step_from
  step_from-Sound zero n next ps now a = a
  step_from-Sound (suc left) n next ps now a = step_from-Sound left (n + 1) next _ now (
      AllSound-update_at (λ p. step_port p now)
        (λ p s. Kept-Sound p (step_port p now) (step_port-Kept p now s.1 s.0) s) ps
        ((next + n) % port_count) a)

  on_port-Sound :
      (c : Controller B T) (i : ℕ) (f : PortController B T → ℤ × PortController B T)
      → ((p : PortController B T) → Sound p → Sound (f p).1)
      → AllSound c.ports
      → AllSound (on_port c i f).1.ports
  unfolding on_port
  on_port-Sound c i f h a = elim (Option-cases (get_elem? c.ports i)) [
    | inl e ↦ rw (e, on_port) a
    | inr (p, e) ↦
        rw (e, on_port)
          (AllSound-update_at (λ _. (f p).1) (λ _ _. h p (get_elem?-Sound c.ports i p a.1 e))
            c.ports i a)
  ]

  -- A configuration that is accepted for a port, and turns it on, is one its runtime takes.
  validate_replacement-valid :
      (ps : List (PortController B T)) (i : ℕ) (config : GatewayPortConfig)
      → length ps ≡ 8
      → i < 8
      → validate_replacement ps i config ≡ true
      → truth config.enabled ≡ true
      → config_valid (core_config config) ≡ true
  unfolding validate_replacement
  validate_replacement-valid ps i config n small h on =
      let all = set (map (λ p. p.current) ps) i config in
      let e : get_or (gateway_configuration_errors all) i error_none ≡ error_none =
        ground (arith, h) in
      let same : config_at all i ≡ config =
        get_or-set_self (map (λ p. p.current) ps) i config _
          (omega (arith, n, length-map (λ p. p.current) ps, small)) in
      core_config-valid config
        (ap validate_one (sym same) ∙ gateway_configuration_errors-none all i small e) on

  reconfigure-Sound :
      (c : Controller B T) (i : ℕ) (config : GatewayPortConfig) (now : ℕ)
      → AllSound c.ports
      → AllSound (gateway_controller_reconfigure c i config now).1.ports
  unfolding gateway_controller_reconfigure
  reconfigure-Sound c i config now a =
      if_cases (λ (r : ℤ × Controller B T). AllSound r.1.ports)
        (leb port_count i || not (validate_replacement c.ports i config)) (negsuc 0, c)
        (on_port c i (λ p. reconfigure_port p i config now)) (λ _. a)
        (λ e.
          on_port-Sound c i (λ p. reconfigure_port p i config now)
            (λ p s.
              Kept-Sound p (reconfigure_port p i config now).1
                (reconfigure_port-Kept p s.1 s.0 now i config (
                  validate_replacement-valid c.ports i config a.0 (ground (arith, e))
                    (ground (arith, e))))
                s)
            a)

  wait-Sound :
      (c : Controller B T) (i wait now : ℕ)
      → AllSound c.ports
      → AllSound (gateway_controller_network_wait c i wait now).1.ports
  unfolding gateway_controller_network_wait
  wait-Sound c i wait now a =
      let w = not (wait == 0) in
      if_cases (λ (r : ℤ × Controller B T). AllSound r.1.ports) (leb port_count i || ltb 1 wait)
        (negsuc 0, c) (on_port c i (λ p. wait_port p w now)) (λ _. a)
        (λ e.
          on_port-Sound c i (λ p. wait_port p w now)
            (λ p s. Kept-Sound p (wait_port p w now).1 (wait_port-Kept p s.1 s.0 now w) s) a)

  perform-Sound :
      (c : Controller B T) (x : ControllerCall) → AllSound c.ports → AllSound (perform c x).ports
  unfolding perform gateway_controller_start gateway_controller_step gateway_controller_shutdown
  perform-Sound c (starts now) a =
      AllSound-map (λ p. start_port p now)
        (λ p s. Kept-Sound p (start_port p now) (start_port-Kept p s.1 s.0 now) s) c.ports a
  perform-Sound c (steps now) a = step_from-Sound port_count 0 c.next_port c.ports now a
  perform-Sound c (reconfigures i config now) a = reconfigure-Sound c i config now a
  perform-Sound c (waits i wait now) a = wait-Sound c i wait now a
  perform-Sound c (shuts_down now) a =
      AllSound-map (λ p. shut_down_port p now)
        (λ p s. Kept-Sound p (shut_down_port p now) (shut_down_port-Kept p s.1 s.0 now) s) c.ports a

  run-Sound :
      (c : Controller B T) (xs : List ControllerCall) → AllSound c.ports → AllSound (run c xs).ports
  unfolding run
  run-Sound c [] a = a
  run-Sound c (x ∷ xs) a = run-Sound (perform c x) xs (perform-Sound c x a)

  init_port-Sound :
      (i : ℕ) (config : GatewayPortConfig) (e : GatewayError) (b : Binding B T)
      → EntryListener b.backend_ops b.transport_ops
      → Sound (init_port i config e b)
  unfolding init_port init
  init_port-Sound i config e b l = (
    record {
      runtime = init-IsValid i (core_config config) b.backend_context;
      home = ground arith;
      listener = ground arith;
    },
    l,
  )

  upto-Sound :
      (f : ℕ → PortController B T)
      → ((i : ℕ) → Sound (f i))
      → (a n : ℕ) → (length (map f (upto a n)) ≡ n) × All Sound (map f (upto a n))
  upto-Sound f h a zero = (refl, tt)
  upto-Sound f h a (suc n) = let (l, s) = upto-Sound f h (a + 1) n in (omega (arith, l), (h a, s))

  All-IsValid : (ps : List (PortController B T)) → All Sound ps → All IsValid ps
  All-IsValid [] a = tt
  All-IsValid (p ∷ ps) (s, a) = (s.0, All-IsValid ps a)

  -- Whatever is called on a controller after its initialisation, with any configurations and at any
  -- times, where each transport reaches its port's runtime only as a listener does: each of the eight
  -- ports has a valid runtime, in a state that goes with the port's lifecycle, and owns its listener when
  -- it is ready or degraded, and owns none while it is off, starts, is reconfigured or waits for the network.
  pub run-IsValid :
      (ports : List GatewayPortConfig) (bindings : ℕ → Binding B T) (calls : List ControllerCall)
      → ((i : ℕ) → EntryListener (bindings i).backend_ops (bindings i).transport_ops)
      → let c = run (gateway_controller_init ports bindings).1 calls in
        (length c.ports ≡ 8) × All IsValid c.ports
  unfolding gateway_controller_init
  run-IsValid ports bindings calls l =
      let errors = gateway_configuration_errors ports in
      let f : ℕ → PortController B T =
        λ i. init_port i (config_at ports i) (get_or errors i error_none) (bindings i) in
      let begun : AllSound (gateway_controller_init ports bindings).1.ports =
        upto-Sound f (λ i. init_port-Sound i _ _ (bindings i) (l i)) 0 8 in
      let (n, a) = run-Sound (gateway_controller_init ports bindings).1 calls begun in
      (n, All-IsValid _ a)
