-- ===== src/Port/Control.antt =====
-- The requests that interrupt a port: cancel, detach, reconfigure, stop and report a failure, of
-- src/core/port_runtime.c.
use moxa_4vrs_gateway.Prelude.{
  ℕ, zero, suc, Bool, true, false, not, ◌||◌, none, some, List, [], ◌==◌, if◌then◌else◌, increment,
  ℤ, pos, negsuc,
}
use moxa_4vrs_gateway.Deadline.{deadline_after, ticks_valid_interval, elapsed}
use moxa_4vrs_gateway.Transaction.{Transaction, TransactionStatus}
use moxa_4vrs_gateway.Queue.{pop, TransactionQueue}
use moxa_4vrs_gateway.Port.State.{
  PortState, disabled, ready, active, waiting, recovering, degraded, reconfiguring, stopping,
  PortConfig, Backend, Port,
}
use moxa_4vrs_gateway.Port.Machine.{
  transition, notify_completion, update_depth, clear_active, begin_recovery, config_valid,
}

abbrev pub is_ready : PortState → Bool
is_ready ready = true
is_ready _ = false

-- The states in which `port_runtime_request_reconfigure` goes on.
abbrev pub reconfigurable : PortState → Bool
reconfigurable ready = true
reconfigurable active = true
reconfigurable waiting = true
reconfigurable recovering = true
reconfigurable degraded = true
reconfigurable _ = false

-- The states in which `port_runtime_request_stop` refuses.
abbrev pub stopped : PortState → Bool
stopped disabled = true
stopped stopping = true
stopped _ = false

abbrev pub cancelled_transaction : Transaction → Transaction
cancelled_transaction t = record t { cancelled = true; status = TransactionStatus.cancelled }

module _ {B : Type 0} where
  abbrev count_cancelled : Port B → Port B
  count_cancelled p =
      let s = p.stats in record p { stats = record s { cancelled = increment s.cancelled } }

  -- One round of the loop of `flush_queue`, which has just taken `t` and left `q`.
  unfoldable pub flush_one : Port B → Transaction → TransactionQueue → Port B
  flush_one p t q = count_cancelled (
      notify_completion (record p { queue = q }) (cancelled_transaction t)
        TransactionStatus.cancelled [] 0)

  -- `fuel` bounds the rounds.
  unfoldable pub flush_loop : ℕ → Port B → Port B
  flush_loop zero p = p
  flush_loop (suc fuel) p = elim (pop p.queue) [
    | none ↦ p
    | some (t, q) ↦ flush_loop fuel (flush_one p t q)
  ]

  -- Each round takes an entry out, so as many rounds as there are entries are enough.
  unfoldable pub flush_queue : Port B → Port B
  flush_queue p = update_depth (flush_loop p.queue.count p)

  -- The part of `port_runtime_cancel_active` up to `clear_active`.
  unfoldable pub abort_active : Backend B → Port B → Port B
  abort_active ops p =
      let t = cancelled_transaction p.active in
      let halted = record p {
        active = t;
        response_barrier_generation = t.generation;
        backend_context = ops.cancel p.backend_context t.generation;
      } in
      clear_active (notify_completion (count_cancelled halted) t TransactionStatus.cancelled [] 0)

  unfoldable pub cancel_active : Backend B → Port B → ℕ → ℤ × Port B
  cancel_active ops p now =
      let q = abort_active ops p in
      if p.has_active
      then transition
          (record q { recovery_attempts = 0; state_deadline = deadline_after now q.recovery_delay })
          recovering
      else (negsuc 0, p)

  unfoldable pub detach_listener : Backend B → Port B → ℕ → ℤ × Port B
  detach_listener ops p now =
      let q = flush_queue p in if q.has_active then cancel_active ops q now else (pos 0, q)

  unfoldable pub report_io_failure : Backend B → Port B → ℕ → List ℕ → ℤ × Port B
  report_io_failure ops p now message =
      let s = p.stats in
      let counted = record p {
        stats = record s { backend_failures = increment s.backend_failures };
      } in
      if not (is_ready p.state) || p.has_active || not (p.queue.count == 0)
      then (negsuc 0, p)
      else (pos 0, begin_recovery ops counted now message)

  -- The part that `port_runtime_request_reconfigure` and `port_runtime_request_stop` share: the
  -- active transaction is cancelled, with no barrier set.
  unfoldable pub drop_active : Backend B → Port B → Port B
  drop_active ops p =
      let t = record (p.active) { status = TransactionStatus.cancelled } in
      let stopped = record p {
        active = t;
        backend_context = ops.cancel p.backend_context p.active.generation;
      } in
      if p.has_active
      then clear_active
          (notify_completion (count_cancelled stopped) t TransactionStatus.cancelled [] 0)
      else p

  unfoldable pub request_reconfigure : Backend B → Port B → PortConfig → ℕ → ℕ → ℤ × Port B
  request_reconfigure ops p config now timeout =
      let q = flush_queue (drop_active ops p) in
      if not (config_valid config)
        || timeout == 0
        || not (ticks_valid_interval timeout)
        || not (reconfigurable p.state)
      then (negsuc 0, p)
      else transition
          (record q {
            known_good_config = q.current_config;
            staged_config = config;
            state_deadline = deadline_after now timeout;
          })
          reconfiguring

  unfoldable pub request_stop : Backend B → Port B → ℕ → ℕ → ℤ × Port B
  request_stop ops p now timeout =
      let q = flush_queue (drop_active ops p) in
      if timeout == 0 || not (ticks_valid_interval timeout) || stopped p.state
      then (negsuc 0, p)
      else transition (record q { state_deadline = deadline_after now timeout }) stopping

  unfoldable pub active_age : Port B → ℕ → ℕ
  active_age p now = if p.has_active then elapsed p.active.started_at now else 0
