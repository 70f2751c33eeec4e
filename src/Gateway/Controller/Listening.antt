-- ===== src/Gateway/Controller/Listening.antt =====
-- The accesses to the runtime of a port that src/network/modbus_tcp_listener.c makes by its
-- initialisation and by the dispatcher of src/modbus/modbus_dispatcher.c.
use moxa_4vrs_gateway.Prelude.{
  ℕ, zero, suc, ◌+◌, ◌%◌, refl, ◌||◌, some, [], ◌∷◌, ltb, ◌==◌, if_cases, length,
}
use moxa_4vrs_gateway.Port.State.{Backend, Port, SubmitResult}
use moxa_4vrs_gateway.Port.Life.{submits, perform}
use moxa_4vrs_gateway.Port.Listener.{makes, sets_completion, access, access_all}
use moxa_4vrs_gateway.Port.Machine.{set_completion}
use moxa_4vrs_gateway.Modbus.Adapter.{TcpRequest, modbus_tcp_submit}
use moxa_4vrs_gateway.Modbus.Mbap.{pdu_max}
use moxa_4vrs_gateway.Modbus.Dispatcher.{
  Dispatcher, serve, serve_loop, modbus_dispatcher_step, slot_at, is_waiting, client_max,
}
use moxa_4vrs_gateway.Gateway.Controller.Agreement.{Reaches}

module _ {B : Type 0} (ops : Backend B) (p : Port B) where
  pub untouched : Reaches ops p p
  unfolding access_all
  untouched = record { accesses = []; result = refl }

  pub set_completion-Reaches : (on : _) → Reaches ops p (set_completion p on)
  unfolding access_all access
  set_completion-Reaches on = record { accesses = sets_completion on ∷ []; result = refl }

  modbus_tcp_submit-Reaches :
      (r : TcpRequest) (now queue_timeout response_timeout : ℕ)
      → Reaches ops p (modbus_tcp_submit p (some r) now queue_timeout response_timeout).1
  unfolding modbus_tcp_submit access_all access perform
  modbus_tcp_submit-Reaches r now queue_timeout response_timeout =
      let R : SubmitResult × Port B × _ → Type 0 = λ x. Reaches ops p x.1 in
      if_cases R (length r.adu.pdu == 0 || ltb pdu_max (length r.adu.pdu)) _ _ (λ _. untouched)
        (λ _.
          if_cases R (ltb 256 (1 + length r.adu.pdu + 2)) _ _ (λ _. untouched)
            (λ _. record { accesses = makes (submits _ now) refl ∷ []; result = refl }))

  serve_loop-Reaches :
      (left n : ℕ) (d : Dispatcher) (now queue_timeout response_timeout : ℕ)
      → Reaches ops p (serve_loop left n d p now queue_timeout response_timeout).2
  unfolding serve_loop serve
  serve_loop-Reaches zero n d now queue_timeout response_timeout = untouched
  serve_loop-Reaches (suc left) n d now queue_timeout response_timeout =
      if_cases (λ (x : SubmitResult × Dispatcher × Port B). Reaches ops p x.2)
        (is_waiting (slot_at d ((d.next_client + n) % client_max))) _ _
        (λ _. modbus_tcp_submit-Reaches _ now queue_timeout response_timeout)
        (λ _. serve_loop-Reaches left (n + 1) d now queue_timeout response_timeout)

  -- A turn of the dispatcher submits at most one request.
  pub modbus_dispatcher_step-Reaches :
      (d : Dispatcher) (now queue_timeout response_timeout : ℕ)
      → Reaches ops p (modbus_dispatcher_step d p now queue_timeout response_timeout).2
  unfolding modbus_dispatcher_step
  modbus_dispatcher_step-Reaches d now queue_timeout response_timeout =
      serve_loop-Reaches client_max 0 d now queue_timeout response_timeout
