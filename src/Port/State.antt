-- ===== src/Port/State.antt =====
-- src/core/port_runtime.h: the state of a port, its configuration, and what it asks of a backend.
use moxa_4vrs_gateway.Prelude.{ℕ, Bool, List, ℤ}
use moxa_4vrs_gateway.Deadline.{Deadline}
use moxa_4vrs_gateway.Transaction.{Transaction, TransactionStatus}
use moxa_4vrs_gateway.Queue.{TransactionQueue}

-- `CORE_RECOVERY_MAX_ATTEMPTS`
abbrev pub recovery_max_attempts : ℕ
recovery_max_attempts = 3

-- `CORE_ERROR_LENGTH`
abbrev pub error_length : ℕ
error_length = 32

pub data PortState : Type 0 where
  disabled starting ready active waiting recovering degraded reconfiguring stopping error :
      PortState

pub data SubmitResult : Type 0 where
  accepted queue_full port_disabled port_recovering invalid_request busy_reconfiguring :
      SubmitResult

pub data EventType : Type 0 where
  no_event response malformed failure transmitted : EventType

-- `data` of the source, of which `length` bytes count.
pub record BackendEvent : Type 0 where
  pub type : EventType
  pub generation : ℕ
  pub length : ℕ
  pub content : List ℕ

pub record PortConfig : Type 0 where
  pub revision : ℕ
  pub mode : ℕ
  pub baud : ℕ
  pub data_bits : ℕ
  pub parity : ℕ
  pub stop_bits : ℕ
  pub special_baud_enabled : ℕ
  pub special_baud : ℕ
  pub transport : ℕ
  pub endpoint_port : ℕ

-- The table of `core_backend_ops_t` over the states of `backend_context`. Each call returns its
-- `int` and the state after it; `poll` also returns what it leaves in `event`, which the caller has
-- cleared. `complete` is what `backend_valid` tests: neither the table nor an entry of it is null.
pub record Backend (B : Type 0) : Type 0 where
  pub complete : Bool
  pub open_device : B → ℕ → ℤ × B
  pub start : B → Transaction → ℕ → ℤ × B
  pub poll : B → ℕ → ℤ × BackendEvent × B
  pub cancel : B → ℕ → B
  pub recover : B → ℕ → ℤ × B
  pub reconfigure : B → PortConfig → ℕ → ℤ × B
  pub stop : B → ℕ → ℤ × B

-- One call of the completion callback with its arguments.
pub record Completion : Type 0 where
  pub transaction : Transaction
  pub status : TransactionStatus
  pub response : List ℕ
  pub response_length : ℕ

pub record Statistics : Type 0 where
  pub accepted : ℕ
  pub completed : ℕ
  pub timeouts : ℕ
  pub cancelled : ℕ
  pub queue_full : ℕ
  pub invalid : ℕ
  pub recoveries : ℕ
  pub recovery_failures : ℕ
  pub stale_responses : ℕ
  pub backend_failures : ℕ
  pub reconfigurations : ℕ
  pub rollbacks : ℕ
  pub illegal_transitions : ℕ
  pub queue_depth : ℕ
  pub queue_high_water : ℕ
  pub last_success_at : ℕ

-- `completion` says whether a callback is installed, and `completions` are its calls so far, the
-- earliest first. `last_error` holds the text up to its terminating zero.
pub record Port (B : Type 0) : Type 0 where
  pub port_index : ℕ
  pub state : PortState
  pub current_config : PortConfig
  pub staged_config : PortConfig
  pub known_good_config : PortConfig
  pub queue : TransactionQueue
  pub active : Transaction
  pub has_active : Bool
  pub next_transaction_id : ℕ
  pub generation : ℕ
  pub response_barrier_generation : ℕ
  pub state_deadline : Deadline
  pub recovery_delay : ℕ
  pub recovery_attempts : ℕ
  pub last_error : List ℕ
  pub stats : Statistics
  pub backend_context : B
  pub completion : Bool
  pub completions : List Completion
