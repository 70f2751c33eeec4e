-- ===== src/Port/Machine.antt =====
-- The state machine of src/core/port_runtime.c: its transitions, and the helpers that every
-- operation of a port shares.
use moxa_4vrs_gateway.Prelude.{
  ℕ, ◌-◌, Bool, true, false, not, ◌&&◌, ◌||◌, List, [], ◌∷◌, ◌++◌, ltb, leb, ◌==◌, if◌then◌else◌,
  increment, take, ℤ, pos, negsuc, is_neg, bytes,
}
use moxa_4vrs_gateway.Deadline.{deadline_after, ticks_valid_interval}
use moxa_4vrs_gateway.Transaction.{Transaction, TransactionStatus, zero_transaction, no_deadline}
use moxa_4vrs_gateway.Queue.{empty}
use moxa_4vrs_gateway.Port.State.{
  PortState, disabled, starting, ready, active, waiting, recovering, degraded, reconfiguring,
  stopping, error, PortConfig, Backend, Statistics, Completion, Port, error_length,
}

unfoldable pub transition_allowed : PortState → PortState → Bool
transition_allowed disabled starting = true
transition_allowed disabled _ = false
transition_allowed starting to = elim to [
  | ready ↦ true
  | recovering ↦ true
  | stopping ↦ true
  | error ↦ true
  | _ ↦ false
]
transition_allowed ready to = elim to [
  | active ↦ true
  | recovering ↦ true
  | reconfiguring ↦ true
  | stopping ↦ true
  | _ ↦ false
]
transition_allowed active to = elim to [
  | waiting ↦ true
  | recovering ↦ true
  | reconfiguring ↦ true
  | stopping ↦ true
  | _ ↦ false
]
transition_allowed waiting to = elim to [
  | ready ↦ true
  | recovering ↦ true
  | reconfiguring ↦ true
  | stopping ↦ true
  | _ ↦ false
]
transition_allowed recovering to = elim to [
  | ready ↦ true
  | degraded ↦ true
  | reconfiguring ↦ true
  | stopping ↦ true
  | error ↦ true
  | _ ↦ false
]
transition_allowed degraded to = elim to [
  | recovering ↦ true
  | reconfiguring ↦ true
  | stopping ↦ true
  | error ↦ true
  | _ ↦ false
]
transition_allowed reconfiguring to = elim to [
  | ready ↦ true
  | stopping ↦ true
  | error ↦ true
  | _ ↦ false
]
transition_allowed stopping to = elim to [ disabled ↦ true | error ↦ true | _ ↦ false ]
transition_allowed error to = elim to [
  | starting ↦ true
  | stopping ↦ true
  | disabled ↦ true
  | _ ↦ false
]

-- What `strncpy` keeps of a message.
pub truncate : List ℕ → List ℕ
truncate message = take (error_length - 1) message

abbrev zero_config : PortConfig
zero_config = record {
  revision = 0;
  mode = 0;
  baud = 0;
  data_bits = 0;
  parity = 0;
  stop_bits = 0;
  special_baud_enabled = 0;
  special_baud = 0;
  transport = 0;
  endpoint_port = 0;
}

abbrev pub zero_statistics : Statistics
zero_statistics = record {
  accepted = 0;
  completed = 0;
  timeouts = 0;
  cancelled = 0;
  queue_full = 0;
  invalid = 0;
  recoveries = 0;
  recovery_failures = 0;
  stale_responses = 0;
  backend_failures = 0;
  reconfigurations = 0;
  rollbacks = 0;
  illegal_transitions = 0;
  queue_depth = 0;
  queue_high_water = 0;
  last_success_at = 0;
}

-- The guards of `config_valid` on a configuration that is not null.
unfoldable pub config_valid : PortConfig → Bool
config_valid c =
    leb c.mode 3
    && ltb 0 c.baud
    && leb 5 c.data_bits
    && leb c.data_bits 8
    && leb c.parity 2
    && (c.stop_bits == 1 || c.stop_bits == 2)
    && leb 1 c.endpoint_port
    && leb c.endpoint_port 65535

module _ {B : Type 0} where
  unfoldable pub set_error : Port B → List ℕ → Port B
  set_error p message = record p { last_error = truncate message }

  unfoldable pub bump_illegal : Port B → Port B
  bump_illegal p =
      let s = p.stats in
      record p { stats = record s { illegal_transitions = increment s.illegal_transitions } }

  unfoldable pub transition : Port B → PortState → ℤ × Port B
  transition p next =
      if transition_allowed p.state next
      then (pos 0, record p { state = next })
      else (negsuc 0, set_error (bump_illegal p) (bytes "illegal transition"))

  unfoldable pub init : ℕ → PortConfig → B → Port B
  init port_index config backend_context = record {
    port_index = port_index;
    state = disabled;
    current_config = config;
    staged_config = zero_config;
    known_good_config = config;
    queue = empty;
    active = zero_transaction;
    has_active = false;
    next_transaction_id = 1;
    generation = 0;
    response_barrier_generation = 0;
    state_deadline = no_deadline;
    recovery_delay = 5;
    recovery_attempts = 0;
    last_error = [];
    stats = zero_statistics;
    backend_context = backend_context;
    completion = false;
    completions = [];
  }

  unfoldable pub set_completion : Port B → Bool → Port B
  set_completion p completion = record p { completion = completion }

  unfoldable pub notify_completion : Port B → Transaction → TransactionStatus → List ℕ → ℕ → Port B
  notify_completion p t status response response_length =
      let told : Completion = record {
        transaction = t;
        status = status;
        response = response;
        response_length = response_length;
      } in
      record p { completions = if p.completion then p.completions ++ told ∷ [] else p.completions }

  unfoldable pub update_depth : Port B → Port B
  update_depth p =
      let depth = p.queue.count in
      let s = p.stats in
      record p {
        stats = record s {
          queue_depth = depth;
          queue_high_water = if ltb s.queue_high_water depth then depth else s.queue_high_water;
        };
      }

  unfoldable pub clear_active : Port B → Port B
  clear_active p = record p { active = zero_transaction; has_active = false }

  -- The part of `begin_recovery` under `if (port->has_active)`.
  unfoldable pub abandon_active : Backend B → Port B → Port B
  abandon_active ops p =
      if p.has_active
      then clear_active (record p {
        response_barrier_generation = p.active.generation;
        backend_context = ops.cancel p.backend_context p.active.generation;
      })
      else p

  unfoldable pub begin_recovery : Backend B → Port B → ℕ → List ℕ → Port B
  begin_recovery ops p now message =
      let q = set_error (abandon_active ops p) message in
      (transition
        (record q { recovery_attempts = 0; state_deadline = deadline_after now q.recovery_delay })
        recovering).1

  unfoldable pub start : Backend B → Port B → ℕ → ℕ → ℤ × Port B
  start ops p now start_timeout =
      let (result, q) = transition p starting in
      if not ops.complete || not (ticks_valid_interval start_timeout)
      then (negsuc 0, p)
      else if is_neg result
      then (negsuc 0, q)
      else (pos 0, record q { state_deadline = deadline_after now start_timeout })
