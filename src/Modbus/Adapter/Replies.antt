-- ===== src/Modbus/Adapter/Replies.antt =====
-- The answers that src/modbus/modbus_tcp_adapter.c sends over TCP.
use moxa_4vrs_gateway.Prelude.{
  ℕ, ◌+◌, ◌-◌, ◌*◌, ◌/◌, ◌%◌, ◌^◌, ◌≤◌, ◌<◌, bit_and, bit_or, ◌≡◌, ◌∙◌, ◌⊎◌, inl, inr, Bool, true,
  false, not, ◌&&◌, ◌||◌, List, [], ◌∷◌, arith, ltb, ◌==◌, Bool-cases, length, get_or, take, drop,
  length-take, length-drop, pos, negsuc, is_neg, bit_and_byte, or_fields,
}
use moxa_4vrs_gateway.Transaction.{Transaction}
use moxa_4vrs_gateway.Modbus.Crc.{crc16}
use moxa_4vrs_gateway.Modbus.Mbap.{Adu}
use moxa_4vrs_gateway.Modbus.Mbap.Fragments.{encode}
use moxa_4vrs_gateway.Modbus.Adapter.{
  TcpRequest, request_metadata, modbus_tcp_build_response, crc_at, meta, rtu_adu_max,
  modbus_tcp_build_gateway_exception, gateway_path_unavailable, gateway_target_no_response,
}

-- The request identifier, the unit and the PDU of an RTU frame.
abbrev pub adu_of_rtu : Transaction → List ℕ → Adu
adu_of_rtu t rtu = record {
  transaction_id = meta t 0;
  unit_id = get_or rtu 0 0;
  pdu = take (length rtu - 3) (drop 1 rtu);
}

-- When a frame is sent as the answer to a transaction.
pub record IsAnswer (t : Transaction) (rtu : List ℕ) : Type 0 where
  pub long : 4 ≤ length rtu
  pub bounded : length rtu ≤ rtu_adu_max
  pub checked : crc16 (take (length rtu - 2) rtu) ≡ crc_at rtu (length rtu - 2)
  pub unit : get_or rtu 0 0 ≡ meta t 1 / 2 ^ 8 % 256
  pub function :
      (get_or rtu 1 0 ≡ bit_and (meta t 1) 0xff)
      ⊎ (get_or rtu 1 0 ≡ bit_or (bit_and (meta t 1) 0xff) 0x80)

abbrev IsAnswer_tests : Transaction → List ℕ → ℕ → Bool
IsAnswer_tests t rtu capacity =
    not (ltb (length rtu) 4 || ltb rtu_adu_max (length rtu))
    && crc16 (take (length rtu - 2) rtu) == crc_at rtu (length rtu - 2)
    && get_or rtu 0 0 == meta t 1 / 2 ^ 8 % 256
    && (get_or rtu 1 0 == bit_and (meta t 1) 0xff
        || get_or rtu 1 0 == bit_or (bit_and (meta t 1) 0xff) 0x80)
    && not (ltb capacity (7 + (length rtu - 3)))

tests_lem :
    (t : Transaction) (rtu : List ℕ) (capacity : ℕ)
    → IsAnswer_tests t rtu capacity ≡ true
    → IsAnswer t rtu × (length rtu + 4 ≤ capacity)
tests_lem t rtu capacity e = ground arith

tests_complete :
    (t : Transaction) (rtu : List ℕ) (capacity : ℕ)
    → IsAnswer_tests t rtu capacity ≡ false
    → IsAnswer t rtu
    → capacity < length rtu + 4
tests_complete t rtu capacity e a = ground (arith, a.long, a.bounded, a.checked, a.unit, a.function)

built :
    (t : Transaction) (rtu : List ℕ) (capacity : ℕ)
    → IsAnswer_tests t rtu capacity ≡ true
    → meta t 0 < 2 ^ 16
    → modbus_tcp_build_response t rtu capacity ≡ (pos 0, encode (adu_of_rtu t rtu))
unfolding modbus_tcp_build_response
built t rtu capacity e h =
    ground (arith, length-take (length rtu - 3) (drop 1 rtu), length-drop 1 rtu)

refused :
    (t : Transaction) (rtu : List ℕ) (capacity : ℕ)
    → IsAnswer_tests t rtu capacity ≡ false
    → (is_neg (modbus_tcp_build_response t rtu capacity).0 ≡ true)
      × ((modbus_tcp_build_response t rtu capacity).1 ≡ [])
unfolding modbus_tcp_build_response
refused t rtu capacity e = ground arith

-- A response is built exactly for an answer to the transaction that fits in, and then it is the
-- encoding of the answer's unit and PDU under the identifier of the request; otherwise the result is
-- negative and nothing is written.
pub modbus_tcp_build_response_lem :
    (t : Transaction) (rtu : List ℕ) (capacity : ℕ)
    → meta t 0 < 2 ^ 16
    → (IsAnswer t rtu
        × (length rtu + 4 ≤ capacity)
        × (modbus_tcp_build_response t rtu capacity ≡ (pos 0, encode (adu_of_rtu t rtu))))
      ⊎ ((IsAnswer t rtu → capacity < length rtu + 4)
          × (is_neg (modbus_tcp_build_response t rtu capacity).0 ≡ true)
          × ((modbus_tcp_build_response t rtu capacity).1 ≡ []))
modbus_tcp_build_response_lem t rtu capacity h = elim (Bool-cases (IsAnswer_tests t rtu capacity)) [
  | inl e ↦ let (a, fits) = tests_lem t rtu capacity e in inl (a, fits, built t rtu capacity e h)
  | inr e ↦ let (a, b) = refused t rtu capacity e in inr (tests_complete t rtu capacity e, a, b)
]

abbrev pub CodeValid : ℕ → Type 0
CodeValid code = (code ≡ gateway_path_unavailable) ⊎ (code ≡ gateway_target_no_response)

-- The exception of the gateway to a request is built exactly for its two codes and with room for 9
-- bytes, and then is the encoding of the code, behind the function with its top bit set, under the
-- identifier and the unit of the request.
pub modbus_tcp_build_gateway_exception_lem :
    (t : Transaction) (r : TcpRequest) (code capacity : ℕ)
    → t.transport_metadata ≡ request_metadata r
    → r.adu.transaction_id < 2 ^ 16
    → r.adu.unit_id < 2 ^ 8
    → get_or r.adu.pdu 0 0 < 2 ^ 8
    → (CodeValid code
        × (9 ≤ capacity)
        × (modbus_tcp_build_gateway_exception t code capacity ≡ (
          pos 0,
          encode (record {
            transaction_id = r.adu.transaction_id;
            unit_id = r.adu.unit_id;
            pdu = bit_or (get_or r.adu.pdu 0 0) 0x80 % 256 ∷ code ∷ [];
          }),
        )))
      ⊎ ((CodeValid code → capacity < 9)
          × (modbus_tcp_build_gateway_exception t code capacity ≡ (negsuc 0, [])))
unfolding modbus_tcp_build_gateway_exception request_metadata
modbus_tcp_build_gateway_exception_lem t r code capacity e hid hunit hfn =
    let first = get_or r.adu.pdu 0 0 in
    let m = bit_or (r.adu.unit_id * 2 ^ 8) first in
    let joined : m ≡ r.adu.unit_id * 2 ^ 8 + first = or_fields 8 r.adu.unit_id first hfn in
    let low : bit_and m 0xff ≡ first = bit_and_byte m ∙ omega (arith, joined) in
    let high : m / 2 ^ 8 % 256 ≡ r.adu.unit_id = omega (arith, joined) in
    rw e (rw (low, high) (ground arith))
