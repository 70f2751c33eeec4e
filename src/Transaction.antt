-- ===== src/Transaction.antt =====
-- src/core/transaction.h: what travels from a listener through a port's queue to its backend.
use moxa_4vrs_gateway.Prelude.{ℕ, Bool, false, List, [], replicate}
use moxa_4vrs_gateway.Deadline.{Deadline}

abbrev pub payload_max : ℕ
payload_max = 256

abbrev pub metadata_words : ℕ
metadata_words = 4

pub data TransactionStatus : Type 0 where
  queued active completed timed_out cancelled failed malformed : TransactionStatus

pub data OperationDirection : Type 0 where
  tx_only rx_only tx_then_rx : OperationDirection

pub data ResponsePolicy : Type 0 where
  no_response fixed_length backend_framed : ResponsePolicy

pub record Operation : Type 0 where
  pub direction : OperationDirection
  pub response_policy : ResponsePolicy
  pub expected_response_length : ℕ

pub record Transaction : Type 0 where
  pub id : ℕ
  pub generation : ℕ
  pub owner_kind : ℕ
  pub owner_id : ℕ
  pub transport_metadata : List ℕ
  pub operation : Operation
  pub enqueued_at : ℕ
  pub started_at : ℕ
  pub queue_deadline : Deadline
  pub response_deadline : Deadline
  pub response_timeout : ℕ
  pub payload_length : ℕ
  pub payload : List ℕ
  pub status : TransactionStatus
  pub cancelled : Bool
  pub request_transmitted : Bool

abbrev pub no_deadline : Deadline
no_deadline = record { at = 0; armed = false }

-- `memset(&transaction, 0, sizeof(transaction))`; the unused tail of `payload` is left out.
unfoldable pub zero_transaction : Transaction
zero_transaction = record {
  id = 0;
  generation = 0;
  owner_kind = 0;
  owner_id = 0;
  transport_metadata = replicate metadata_words 0;
  operation = record {
    direction = tx_only;
    response_policy = no_response;
    expected_response_length = 0;
  };
  enqueued_at = 0;
  started_at = 0;
  queue_deadline = no_deadline;
  response_deadline = no_deadline;
  response_timeout = 0;
  payload_length = 0;
  payload = [];
  status = TransactionStatus.queued;
  cancelled = false;
  request_transmitted = false;
}
