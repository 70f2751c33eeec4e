-- ===== src/Modbus/Adapter/Requests.antt =====
-- What `modbus_tcp_submit` of src/modbus/modbus_tcp_adapter.c hands to a port.
use moxa_4vrs_gateway.Prelude.{
  ℕ, ◌+◌, ◌*◌, ◌/◌, ◌^◌, ◌≤◌, bit_and, ◌≡◌, Option, some, [], ◌∷◌, arith, length, get_or, take,
  length-append, All, bit_and_byte,
}
use moxa_4vrs_gateway.Transaction.{Transaction, tx_then_rx, backend_framed}
use moxa_4vrs_gateway.Port.State.{Port, SubmitResult}
use moxa_4vrs_gateway.Port.Submit.{Request}
use moxa_4vrs_gateway.Deadline.{deadline_after}
use moxa_4vrs_gateway.Port.Admission.{Outcome}
use moxa_4vrs_gateway.Modbus.Crc.{crc16}
use moxa_4vrs_gateway.Modbus.Crc.Residue.{IsByte, crc16_residue}
use moxa_4vrs_gateway.Modbus.Mbap.{Adu, pdu_max}
use moxa_4vrs_gateway.Modbus.Adapter.{TcpRequest, rtu_frame, request_metadata, owner_tcp}

-- The frame of a request is three bytes longer than its PDU, and has the check value 0.
pub rtu_frame_lem :
    (a : Adu)
    → All IsByte (a.unit_id ∷ a.pdu)
    → (length (rtu_frame a) ≡ length a.pdu + 3) × (crc16 (rtu_frame a) ≡ 0)
unfolding rtu_frame
rtu_frame_lem a h =
    let body = a.unit_id ∷ a.pdu in
    (
      omega (arith, length-append body (bit_and (crc16 body) 0xff ∷ crc16 body / 2 ^ 8 ∷ [])),
      rw (bit_and_byte (crc16 body)) (crc16_residue body h),
    )

-- The submission that a request of a TCP client stands for.
abbrev pub tcp_submission : TcpRequest → ℕ → ℕ → Request
tcp_submission r queue_timeout response_timeout = record {
  payload = some (rtu_frame r.adu);
  length = length r.adu.pdu + 3;
  owner_kind = owner_tcp;
  owner_id = r.client_id;
  metadata = some (request_metadata r);
  operation = some (record {
    direction = tx_then_rx;
    response_policy = backend_framed;
    expected_response_length = 0;
  });
  queue_timeout = queue_timeout;
  response_timeout = response_timeout;
}

-- The transaction that a request is to become.
pub record Asked (r : TcpRequest) (id now queue_timeout response_timeout : ℕ) (t : Transaction)
    : Type 0 where
  pub identifier : t.id ≡ id
  pub owner : (t.owner_kind ≡ owner_tcp) × (t.owner_id ≡ r.client_id)
  pub metadata :
      t.transport_metadata
      ≡ r.adu.transaction_id
        ∷ (r.adu.unit_id * 256 + get_or r.adu.pdu 0 0)
        ∷ r.client_epoch
        ∷ 0
        ∷ []
  pub size : (t.payload_length ≡ length r.adu.pdu + 3) × (length t.payload ≡ t.payload_length)
  pub carried : take (length r.adu.pdu + 1) t.payload ≡ r.adu.unit_id ∷ r.adu.pdu
  pub check : crc16 t.payload ≡ 0
  pub queue_deadline : t.queue_deadline ≡ deadline_after now queue_timeout
  pub response_time : t.response_timeout ≡ response_timeout

-- A request that is submitted: the port takes its transaction, or refuses it.
pub record Submitted {B : Type 0} (p : Port B) (r : TcpRequest)
    (now queue_timeout response_timeout : ℕ) (result : SubmitResult × Port B × Option ℕ)
    : Type 0 where
  pub some_bytes : 1 ≤ length r.adu.pdu
  pub few_bytes : length r.adu.pdu ≤ pdu_max
  pub transaction : Transaction
  pub asked : Asked r p.next_transaction_id now queue_timeout response_timeout transaction
  pub outcome : Outcome p transaction result
