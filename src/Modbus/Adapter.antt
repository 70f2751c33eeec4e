-- ===== src/Modbus/Adapter.antt =====
-- src/modbus/modbus_tcp_adapter.c: Modbus requests of TCP clients as frames of the serial line, and
-- the answers as frames of TCP.
pub mod Probe
pub mod Replies
pub mod Requests
use moxa_4vrs_gateway.Prelude.{
  ℕ, ◌+◌, ◌-◌, ◌*◌, ◌/◌, ◌%◌, ◌^◌, bit_and, bit_or, not, ◌&&◌, ◌||◌, Option, none, some, List, [],
  ◌∷◌, ◌++◌, ltb, leb, ◌==◌, if◌then◌else◌, length, get_or, take, drop, ℤ, pos, negsuc,
}
use moxa_4vrs_gateway.Transaction.{Transaction, tx_then_rx, backend_framed}
use moxa_4vrs_gateway.Port.State.{Port, SubmitResult, invalid_request}
use moxa_4vrs_gateway.Port.Submit.{submit_operation}
use moxa_4vrs_gateway.Modbus.Crc.{crc16}
use moxa_4vrs_gateway.Modbus.Mbap.{Adu, pdu_max}

-- `MODBUS_OWNER_TCP`
abbrev pub owner_tcp : ℕ
owner_tcp = 1

-- `MODBUS_RTU_ADU_MAX`
abbrev pub rtu_adu_max : ℕ
rtu_adu_max = 256

-- `MODBUS_EXCEPTION_GATEWAY_PATH_UNAVAILABLE`
abbrev pub gateway_path_unavailable : ℕ
gateway_path_unavailable = 0x0a

-- `MODBUS_EXCEPTION_GATEWAY_TARGET_NO_RESPONSE`
abbrev pub gateway_target_no_response : ℕ
gateway_target_no_response = 0x0b

pub record TcpRequest : Type 0 where
  pub client_id : ℕ
  pub client_epoch : ℕ
  pub adu : Adu

pub data FrameResult : Type 0 where
  incomplete complete malformed : FrameResult

-- The frame that `modbus_tcp_submit` builds in `rtu`.
unfoldable pub rtu_frame : Adu → List ℕ
rtu_frame a =
    let crc = crc16 (a.unit_id ∷ a.pdu) in
    (a.unit_id ∷ a.pdu) ++ bit_and crc 0xff ∷ crc / 2 ^ 8 ∷ []

unfoldable pub request_metadata : TcpRequest → List ℕ
request_metadata r =
    r.adu.transaction_id
    ∷ bit_or (r.adu.unit_id * 2 ^ 8) (get_or r.adu.pdu 0 0)
    ∷ r.client_epoch
    ∷ 0
    ∷ []

-- `none` is a null pointer.
unfoldable pub modbus_tcp_submit :
    {B : Type 0} → Port B → Option TcpRequest → ℕ → ℕ → ℕ → SubmitResult × Port B × Option ℕ
modbus_tcp_submit p none now queue_timeout response_timeout = (invalid_request, p, none)
modbus_tcp_submit p (some r) now queue_timeout response_timeout =
    let pdu_length = length r.adu.pdu in
    if pdu_length == 0 || ltb pdu_max pdu_length
    then (invalid_request, p, none)
    else if ltb rtu_adu_max (1 + pdu_length + 2)
    then (invalid_request, p, none)
    else submit_operation p
        (record {
          payload = some (rtu_frame r.adu);
          length = 1 + pdu_length + 2;
          owner_kind = owner_tcp;
          owner_id = r.client_id;
          metadata = some (request_metadata r);
          operation = some (record {
            direction = tx_then_rx;
            response_policy = backend_framed;
            expected_response_length = 0;
          });
          queue_timeout = queue_timeout;
          response_timeout = response_timeout;
        })
        now

-- `bytes[at] | (bytes[at + 1] << 8)`
unfoldable pub crc_at : List ℕ → ℕ → ℕ
crc_at frame at = bit_or (get_or frame at 0) (get_or frame (at + 1) 0 * 2 ^ 8)

-- The end of the probe, from `*frame_length = expected` on.
unfoldable pub probe_expected : List ℕ → ℕ → FrameResult × Option ℕ
probe_expected response expected =
    if ltb (length response) expected
    then (incomplete, some expected)
    else if not (length response == expected)
    then (malformed, some expected)
    else if crc16 (take (expected - 2) response) == crc_at response (expected - 2)
    then (complete, some expected)
    else (malformed, some expected)

-- The result and what is written through `frame_length`. The lists are `request` and `response` up to
-- their lengths; none of the pointers is null.
unfoldable pub modbus_rtu_frame_probe : List ℕ → List ℕ → FrameResult × Option ℕ
modbus_rtu_frame_probe request response =
    let function = get_or request 1 0 in
    let expected = 5 + get_or response 2 0 in
    if ltb (length request) 4
      || ltb rtu_adu_max (length request)
      || ltb rtu_adu_max (length response)
    then (malformed, none)
    else if ltb (length response) 2
    then (incomplete, none)
    else if not (get_or response 0 0 == get_or request 0 0)
    then (malformed, none)
    else if get_or response 1 0 == bit_or function 0x80
    then probe_expected response 5
    else if not (get_or response 1 0 == function)
    then (malformed, none)
    else if leb 1 function && leb function 4
    then (if ltb (length response) 3
        then (incomplete, none)
        else if ltb rtu_adu_max expected
        then (malformed, none)
        else probe_expected response expected)
    else if function == 5 || function == 6 || function == 15 || function == 16
    then probe_expected response 8
    else (malformed, none)

-- `transaction->transport_metadata[index]`
abbrev pub meta : Transaction → ℕ → ℕ
meta t index = get_or t.transport_metadata index 0

-- The result and what is written to `output` and `*output_length`; none of the pointers is null, and
-- the list is `rtu` up to `rtu_length`.
unfoldable pub modbus_tcp_build_response : Transaction → List ℕ → ℕ → ℤ × List ℕ
modbus_tcp_build_response t rtu capacity =
    let rtu_length = length rtu in
    let metadata = meta t 1 in
    let pdu_length = rtu_length - 3 in
    let length_field = 1 + pdu_length in
    let function = bit_and metadata 0xff in
    if ltb rtu_length 4 || ltb rtu_adu_max rtu_length
    then (negsuc 0, [])
    else if not (crc16 (take (rtu_length - 2) rtu) == crc_at rtu (rtu_length - 2))
    then (negsuc 1, [])
    else if not (get_or rtu 0 0 == metadata / 2 ^ 8 % 256)
    then (negsuc 2, [])
    else if not (get_or rtu 1 0 == function) && not (get_or rtu 1 0 == bit_or function 0x80)
    then (negsuc 3, [])
    else if ltb capacity (7 + pdu_length)
    then (negsuc 4, [])
    else (
      pos 0,
      meta t 0 / 2 ^ 8 % 256
          ∷ meta t 0 % 256
          ∷ 0
          ∷ 0
          ∷ length_field / 2 ^ 8 % 256
          ∷ length_field % 256
          ∷ get_or rtu 0 0
          ∷ take pdu_length (drop 1 rtu),
    )

unfoldable pub modbus_tcp_build_gateway_exception : Transaction → ℕ → ℕ → ℤ × List ℕ
modbus_tcp_build_gateway_exception t exception_code capacity =
    let metadata = meta t 1 in
    if ltb capacity 9
      || (not (exception_code == gateway_path_unavailable)
          && not (exception_code == gateway_target_no_response))
    then (negsuc 0, [])
    else (
      pos 0,
      meta t 0 / 2 ^ 8 % 256
          ∷ meta t 0 % 256
          ∷ 0
          ∷ 0
          ∷ 0
          ∷ 3
          ∷ metadata / 2 ^ 8 % 256
          ∷ bit_or (bit_and metadata 0xff) 0x80 % 256
          ∷ exception_code % 256
          ∷ [],
    )
