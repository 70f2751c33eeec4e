-- ===== src/Port/Step.antt =====
-- `port_runtime_step` of src/core/port_runtime.c: one turn of the event loop for one port.
use moxa_4vrs_gateway.Prelude.{
  ℕ, zero, suc, Bool, true, false, not, ◌&&◌, ◌||◌, none, some, [], leb, ◌==◌, if◌then◌else◌, add32,
  increment, take, ℤ, is_zero, is_pos, bytes,
}
use moxa_4vrs_gateway.Deadline.{deadline_after, deadline_expired}
use moxa_4vrs_gateway.Transaction.{Transaction, TransactionStatus}
use moxa_4vrs_gateway.Queue.{pop}
use moxa_4vrs_gateway.Port.State.{
  PortState, disabled, starting, ready, active, waiting, recovering, degraded, reconfiguring,
  stopping, error, EventType, no_event, response, malformed, failure, transmitted, BackendEvent,
  PortConfig, Backend, Port, recovery_max_attempts,
}
use moxa_4vrs_gateway.Port.Machine.{
  transition, set_error, notify_completion, update_depth, clear_active, begin_recovery,
}

abbrev pub is_event : EventType → Bool
is_event no_event = false
is_event _ = true

abbrev mark : Transaction → TransactionStatus → Transaction
mark t status = record t { status = status }

unfoldable pub following_generation : ℕ → ℕ
following_generation g = if add32 g 1 == 0 then add32 (add32 g 1) 1 else add32 g 1

module _ {B : Type 0} where
  abbrev count_stale : Port B → Port B
  count_stale p =
      let s = p.stats in
      record p { stats = record s { stale_responses = increment s.stale_responses } }

  abbrev count_timeout : Port B → Port B
  count_timeout p =
      let s = p.stats in record p { stats = record s { timeouts = increment s.timeouts } }

  abbrev count_failure : Port B → Port B
  count_failure p =
      let s = p.stats in
      record p { stats = record s { backend_failures = increment s.backend_failures } }

  abbrev count_rollback : Port B → Port B
  count_rollback p =
      let s = p.stats in record p { stats = record s { rollbacks = increment s.rollbacks } }

  -- An event of the active transaction's generation; there always is an event here.
  unfoldable pub handle_event : Backend B → Port B → ℕ → BackendEvent → EventType → Port B
  handle_event ops p now e no_event = p
  handle_event ops p now e transmitted =
      let t = p.active in record p { active = record t { request_transmitted = true } }
  handle_event ops p now e response =
      let s = p.stats in
      let t = record (mark p.active TransactionStatus.completed) { request_transmitted = true } in
      (transition
        (clear_active (
          notify_completion
            (record p {
              active = t;
              stats = record s { completed = increment s.completed; last_success_at = now };
            })
            t TransactionStatus.completed (take e.length e.content) e.length))
        ready).1
  handle_event ops p now e malformed =
      let s = p.stats in
      let t = record (mark p.active TransactionStatus.malformed) { request_transmitted = true } in
      begin_recovery ops
        (notify_completion
          (record p { active = t; stats = record s { invalid = increment s.invalid } }) t
          TransactionStatus.malformed (take e.length e.content) e.length)
        now (bytes "malformed response")
  handle_event ops p now e failure =
      let t = mark p.active TransactionStatus.failed in
      begin_recovery ops
        (notify_completion (record (count_failure p) { active = t }) t TransactionStatus.failed []
          0)
        now (bytes "backend failure")

  -- No event came: the response deadline decides.
  unfoldable pub check_response_deadline : Backend B → Port B → ℕ → Port B
  check_response_deadline ops p now =
      let t = mark p.active TransactionStatus.timed_out in
      if p.has_active && deadline_expired p.active.response_deadline now
      then begin_recovery ops
          (notify_completion (record (count_timeout p) { active = t }) t TransactionStatus.timed_out
            [] 0)
          now (bytes "response timeout")
      else p

  unfoldable pub step_waiting : Backend B → Port B → ℕ → Port B
  step_waiting ops p now =
      let (result, event, context) = ops.poll p.backend_context now in
      let q = record p { backend_context = context } in
      if is_pos result && is_event event.type
      then (if not q.has_active || not (event.generation == q.active.generation)
          then count_stale q
          else handle_event ops q now event event.type)
      else check_response_deadline ops q now

  unfoldable pub step_starting : Backend B → Port B → ℕ → Port B
  step_starting ops p now =
      let (result, context) = ops.open_device p.backend_context now in
      let q = record p { backend_context = context } in
      if is_zero result
      then (transition (record q { recovery_attempts = 0 }) ready).1
      else if deadline_expired q.state_deadline now
      then begin_recovery ops q now (bytes "backend open failed")
      else q

  -- The transaction just taken from the queue becomes the active one.
  unfoldable pub activate : Port B → ℕ → Port B
  activate p now =
      let generation = following_generation p.generation in
      let t = p.active in
      (transition
        (record p {
          has_active = true;
          generation = generation;
          active = record t {
            generation = generation;
            started_at = now;
            response_deadline = deadline_after now t.response_timeout;
            status = TransactionStatus.active;
          };
        })
        active).1

  -- A transaction whose time in the queue is over is completed as timed out.
  unfoldable pub expire_queued : Port B → Port B
  expire_queued p =
      let t = mark p.active TransactionStatus.timed_out in
      clear_active (
        notify_completion (record (count_timeout p) { active = t }) t TransactionStatus.timed_out []
          0)

  -- The loop of `PORT_READY`; `fuel` bounds its rounds.
  unfoldable pub ready_loop : ℕ → Port B → ℕ → Port B
  ready_loop zero p now = p
  ready_loop (suc fuel) p now = elim (pop p.queue) [
    | none ↦ p
    | some (t, q) ↦
        let taken = update_depth (record p { queue = q; active = t }) in
        elim (deadline_expired t.queue_deadline now) [
          | true ↦ ready_loop fuel (expire_queued taken) now
          | false ↦ activate taken now
        ]
  ]

  -- Each round takes an entry out, so as many rounds as there are entries are enough.
  unfoldable pub step_ready : Port B → ℕ → Port B
  step_ready p now = ready_loop p.queue.count p now

  unfoldable pub step_active : Backend B → Port B → ℕ → Port B
  step_active ops p now =
      let (result, context) = ops.start p.backend_context p.active now in
      let q = record p { backend_context = context } in
      let t = mark p.active TransactionStatus.failed in
      if is_zero result
      then (transition q waiting).1
      else begin_recovery ops
          (notify_completion (record (count_failure q) { active = t }) t TransactionStatus.failed []
            0)
          now (bytes "backend start failed")

  -- An attempt to recover, made when the delay is over.
  unfoldable pub attempt_recovery : Backend B → Port B → ℕ → Port B
  attempt_recovery ops p now =
      let (result, context) = ops.recover p.backend_context now in
      let s = p.stats in
      let attempts = add32 p.recovery_attempts 1 in
      let failed = record p {
        backend_context = context;
        stats = record s { recovery_failures = increment s.recovery_failures };
        recovery_attempts = attempts;
      } in
      if is_zero result
      then (transition
          (record p {
            backend_context = context;
            stats = record s { recoveries = increment s.recoveries };
            recovery_attempts = 0;
          })
          ready).1
      else if leb recovery_max_attempts attempts
      then (transition failed degraded).1
      else record failed { state_deadline = deadline_after now failed.recovery_delay }

  -- A late event is thrown away.
  unfoldable pub discard_event : Backend B → Port B → ℕ → Port B
  discard_event ops p now =
      let (result, event, context) = ops.poll p.backend_context now in
      let q = record p { backend_context = context } in
      if is_pos result && is_event event.type then count_stale q else q

  unfoldable pub step_recovering : Backend B → Port B → ℕ → Port B
  step_recovering ops p now =
      let q = discard_event ops p now in
      if deadline_expired q.state_deadline now then attempt_recovery ops q now else q

  abbrev configure : Backend B → Port B → PortConfig → ℕ → ℤ × Port B
  configure ops p config now =
      let (result, context) = ops.reconfigure p.backend_context config now in
      (result, record p { backend_context = context })

  unfoldable pub adopt_staged : Port B → Port B
  adopt_staged p =
      let s = p.stats in
      (transition
        (record p {
          current_config = p.staged_config;
          known_good_config = p.staged_config;
          stats = record s { reconfigurations = increment s.reconfigurations };
        })
        ready).1

  -- The deadline is over: the known good configuration is asked for once more.
  unfoldable pub force_rollback : Backend B → Port B → ℕ → Port B
  force_rollback ops p now =
      let late = set_error p (bytes "reconfigure timeout") in
      let (forced, rolled) = configure ops late late.known_good_config now in
      if is_zero forced
      then (transition (count_rollback rolled) ready).1
      else (transition rolled error).1

  -- The backend did not take the staged configuration: back to the known good one.
  unfoldable pub roll_back : Backend B → Port B → ℕ → Port B
  roll_back ops p now =
      let (restored, back) = configure ops p p.known_good_config now in
      if is_zero restored
      then (transition (count_rollback (set_error back (bytes "reconfigure rolled back"))) ready).1
      else (transition (set_error back (bytes "rollback failed")) error).1

  unfoldable pub apply_staged : Backend B → Port B → ℕ → Port B
  apply_staged ops p now =
      let (taken, staged) = configure ops p p.staged_config now in
      if is_zero taken then adopt_staged staged else roll_back ops staged now

  unfoldable pub step_reconfiguring : Backend B → Port B → ℕ → Port B
  step_reconfiguring ops p now =
      if deadline_expired p.state_deadline now
      then force_rollback ops p now
      else apply_staged ops p now

  unfoldable pub step_stopping : Backend B → Port B → ℕ → Port B
  step_stopping ops p now =
      let (result, context) = ops.stop p.backend_context now in
      let q = record p { backend_context = context } in
      if is_zero result
      then (transition q disabled).1
      else if deadline_expired q.state_deadline now
      then (transition (set_error q (bytes "stop timeout")) error).1
      else q

  unfoldable pub step_in : PortState → Backend B → Port B → ℕ → Port B
  step_in disabled ops p now = p
  step_in starting ops p now = step_starting ops p now
  step_in ready ops p now = step_ready p now
  step_in active ops p now = step_active ops p now
  step_in waiting ops p now = step_waiting ops p now
  step_in recovering ops p now = step_recovering ops p now
  step_in degraded ops p now = p
  step_in reconfiguring ops p now = step_reconfiguring ops p now
  step_in stopping ops p now = step_stopping ops p now
  step_in error ops p now = p

  unfoldable pub step : Backend B → Port B → ℕ → Port B
  step ops p now = if ops.complete then step_in p.state ops p now else p
