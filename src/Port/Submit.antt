-- ===== src/Port/Submit.antt =====
-- The submission of work to a port: `port_runtime_submit_operation` of src/core/port_runtime.c and
-- its two short forms.
use moxa_4vrs_gateway.Prelude.{
  ℕ, Bool, true, false, not, ◌&&◌, Option, none, some, List, ltb, leb, ◌==◌, if◌then◌else◌, add32,
  increment, length, take, replicate,
}
use moxa_4vrs_gateway.Deadline.{deadline_after, ticks_valid_interval}
use moxa_4vrs_gateway.Transaction.{
  Transaction, TransactionStatus, Operation, OperationDirection, tx_only, rx_only, tx_then_rx,
  ResponsePolicy, no_response, fixed_length, backend_framed, zero_transaction, payload_max,
  metadata_words,
}
use moxa_4vrs_gateway.Queue.{push}
use moxa_4vrs_gateway.Port.State.{
  PortState, disabled, starting, ready, active, waiting, recovering, degraded, reconfiguring,
  stopping, error, SubmitResult, accepted, queue_full, port_disabled, port_recovering,
  invalid_request, busy_reconfiguring, Port,
}
use moxa_4vrs_gateway.Port.Machine.{update_depth}

abbrev is_no_response : ResponsePolicy → Bool
is_no_response no_response = true
is_no_response _ = false

-- The policies of an operation that receives.
abbrev receive_valid : ResponsePolicy → ℕ → Bool
receive_valid fixed_length expected = ltb 0 expected && leb expected payload_max
receive_valid backend_framed expected = expected == 0
receive_valid no_response expected = false

abbrev direction_valid : OperationDirection → ResponsePolicy → ℕ → Bool
direction_valid tx_only policy expected = is_no_response policy && expected == 0
direction_valid rx_only policy expected = receive_valid policy expected
direction_valid tx_then_rx policy expected = receive_valid policy expected

-- `none` is a null pointer.
unfoldable pub operation_valid : Option Operation → Bool
operation_valid none = false
operation_valid (some o) = direction_valid o.direction o.response_policy o.expected_response_length

abbrev is_some {ℓ} : {A : Type ℓ} → Option A → Bool
is_some none = false
is_some (some a) = true

-- The arguments of a submission; `none` is a null pointer.
pub record Request : Type 0 where
  pub payload : Option (List ℕ)
  pub length : ℕ
  pub owner_kind : ℕ
  pub owner_id : ℕ
  pub metadata : Option (List ℕ)
  pub operation : Option Operation
  pub queue_timeout : ℕ
  pub response_timeout : ℕ

unfoldable pub request_valid : Request → Bool
request_valid r =
    is_some r.payload
    && not (r.length == 0)
    && leb r.length payload_max
    && ticks_valid_interval r.queue_timeout
    && not (r.queue_timeout == 0)
    && ticks_valid_interval r.response_timeout
    && not (r.response_timeout == 0)
    && operation_valid r.operation

-- What the state of the port answers before anything is queued; `none` lets the request through.
unfoldable pub refusal : PortState → Option SubmitResult
refusal disabled = some port_disabled
refusal stopping = some port_disabled
refusal error = some port_disabled
refusal recovering = some port_recovering
refusal degraded = some port_recovering
refusal starting = some port_recovering
refusal reconfiguring = some busy_reconfiguring
refusal ready = none
refusal active = none
refusal waiting = none

unfoldable pub following_id : ℕ → ℕ
following_id id = if add32 id 1 == 0 then 1 else add32 id 1

unfoldable pub new_transaction : Request → ℕ → ℕ → List ℕ → Operation → Transaction
new_transaction r id now payload operation = record zero_transaction {
  id = id;
  owner_kind = r.owner_kind;
  owner_id = r.owner_id;
  transport_metadata = elim r.metadata [
    | none ↦ replicate metadata_words 0
    | some words ↦ take metadata_words words
  ];
  operation = operation;
  enqueued_at = now;
  queue_deadline = deadline_after now r.queue_timeout;
  response_timeout = r.response_timeout;
  payload_length = r.length;
  payload = take r.length payload;
  status = TransactionStatus.queued;
}

module _ {B : Type 0} where
  -- The part behind the guards.
  unfoldable pub accept : Port B → Transaction → SubmitResult × Port B × Option ℕ
  accept p t =
      let numbered = record p { next_transaction_id = following_id p.next_transaction_id } in
      let s = p.stats in
      elim (push p.queue t) [
        | none ↦ (
          queue_full,
          record numbered { stats = record s { queue_full = increment s.queue_full } },
          none,
        )
        | some q ↦ (
          accepted,
          update_depth
              (record numbered { queue = q; stats = record s { accepted = increment s.accepted } }),
          some t.id,
        )
      ]

  -- The result, the port after it, and what is written through `transaction_id`.
  unfoldable pub submit_admitted :
      Port B → Request → ℕ → Option (List ℕ) → Option Operation → SubmitResult × Port B × Option ℕ
  submit_admitted p r now none operation = (invalid_request, p, none)
  submit_admitted p r now (some payload) none = (invalid_request, p, none)
  submit_admitted p r now (some payload) (some operation) = elim (refusal p.state) [
    | some result ↦ (result, p, none)
    | none ↦ accept p (new_transaction r p.next_transaction_id now payload operation)
  ]

  unfoldable pub submit_operation : Port B → Request → ℕ → SubmitResult × Port B × Option ℕ
  submit_operation p r now =
      let s = p.stats in
      if request_valid r
      then submit_admitted p r now r.payload r.operation
      else (invalid_request, record p { stats = record s { invalid = increment s.invalid } }, none)

  unfoldable pub submit_with_metadata :
      Port B
      → Option (List ℕ)
      → ℕ
      → ℕ
      → ℕ
      → Option (List ℕ)
      → ℕ
      → ℕ
      → ℕ
      → SubmitResult × Port B × Option ℕ
  submit_with_metadata p payload length owner_kind owner_id metadata now queue_timeout
        response_timeout =
      submit_operation p
        (record {
          payload = payload;
          length = length;
          owner_kind = owner_kind;
          owner_id = owner_id;
          metadata = metadata;
          operation = some (record {
            direction = tx_then_rx;
            response_policy = backend_framed;
            expected_response_length = 0;
          });
          queue_timeout = queue_timeout;
          response_timeout = response_timeout;
        })
        now

  unfoldable pub submit :
      Port B → Option (List ℕ) → ℕ → ℕ → ℕ → ℕ → ℕ → ℕ → SubmitResult × Port B × Option ℕ
  submit p payload length owner_kind owner_id now queue_timeout response_timeout =
      submit_with_metadata p payload length owner_kind owner_id none now queue_timeout
        response_timeout
