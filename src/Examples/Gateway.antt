-- ===== src/Examples/Gateway.antt =====
-- The theorems on the MBAP stream, the adapter and the dispatcher at concrete values.
use moxa_4vrs_gateway.Prelude.{
  ℕ, ◌+◌, ◌≤◌, ◌<◌, ◌≡◌, refl, ◌⊎◌, inl, true, false, some, List, [], ◌∷◌, ◌++◌, arith, replicate,
  pos, is_neg,
}
use moxa_4vrs_gateway.Port.State.{Port, ready}
use moxa_4vrs_gateway.Port.Valid.{IsValid}
use moxa_4vrs_gateway.Queue.{empty}
use moxa_4vrs_gateway.Examples.{port_in, sent}
use moxa_4vrs_gateway.Modbus.Crc.{crc16, crc_from, crc_byte, crc_bits, crc_bit}
use moxa_4vrs_gateway.Modbus.Mbap.{
  Adu, AduFn, MbapStream, mbap_stream_init, mbap_stream_feed, parse_available, ok, feed_loop,
  append_chunk, copy_at, parse_loop,
}
use moxa_4vrs_gateway.Modbus.Mbap.Stream.{buffered}
use moxa_4vrs_gateway.Modbus.Mbap.Parser.{parse, Parsed, parse_available_refines}
use moxa_4vrs_gateway.Modbus.Mbap.Feed.{
  Fed, mbap_stream_feed-Fed, Refused, mbap_stream_feed-Refused, mbap_stream_init-IsValid,
}
use moxa_4vrs_gateway.Modbus.Mbap.Stream
use moxa_4vrs_gateway.Modbus.Mbap.Delivery.{
  observed, mbap_stream_feed-append, mbap_stream_feed-encode_all,
}
use moxa_4vrs_gateway.Modbus.Mbap.Fragments.{encode, encode_all}
use moxa_4vrs_gateway.Modbus.Adapter.{
  TcpRequest, rtu_frame, request_metadata, modbus_rtu_frame_probe, modbus_tcp_build_response,
  probe_expected, crc_at,
}
use moxa_4vrs_gateway.Transaction.{Transaction, zero_transaction}
use moxa_4vrs_gateway.Modbus.Adapter.Probe.{Accepted, modbus_rtu_frame_probe-Accepted}
use moxa_4vrs_gateway.Modbus.Adapter.Replies.{IsAnswer, adu_of_rtu, modbus_tcp_build_response_lem}
use moxa_4vrs_gateway.Modbus.Dispatcher.{
  Dispatcher, ClientSlot, zero_slot, new_slot, find_slot, find_index, modbus_dispatcher_init,
  modbus_dispatcher_enqueue,
}
use moxa_4vrs_gateway.Modbus.Dispatcher.Turns.{Turn, ServedIn, modbus_dispatcher_step-ServedIn}
use moxa_4vrs_gateway.Modbus.Dispatcher.Clients.{Enqueued, modbus_dispatcher_enqueue-Enqueued}

-- A callback that keeps what it is given, and Accepts it.
abbrev collect : AduFn (List Adu)
collect seen a = (pos 0, seen ++ a ∷ [])

abbrev reading : Adu
reading = record { transaction_id = 0x0102; unit_id = 9; pdu = 3 ∷ 0 ∷ 1 ∷ 0 ∷ 2 ∷ [] }

abbrev half : List ℕ
half = 1 ∷ 2 ∷ 0 ∷ []

parse_available_refines_example :
    Parsed mbap_stream_init
      (parse_available (some collect) [] mbap_stream_init)
      (parse (some collect) [] (buffered mbap_stream_init))
parse_available_refines_example =
    parse_available_refines (some collect) [] mbap_stream_init mbap_stream_init-IsValid

mbap_stream_feed-Fed_example :
    Fed mbap_stream_init
      (mbap_stream_feed mbap_stream_init (some (encode reading)) (some collect) [])
      (parse (some collect) [] (buffered mbap_stream_init ++ encode reading))
unfolding mbap_stream_init
mbap_stream_feed-Fed_example =
    mbap_stream_feed-Fed mbap_stream_init (encode reading) (some collect) []
      mbap_stream_init-IsValid refl (omega arith)

abbrev poisoned_stream : MbapStream
poisoned_stream = record mbap_stream_init { poisoned = true }

mbap_stream_feed-Refused_example :
    Refused poisoned_stream
      (some collect)
      []
      (mbap_stream_feed poisoned_stream (some half) (some collect) [])
mbap_stream_feed-Refused_example =
    mbap_stream_feed-Refused poisoned_stream half (some collect) []
      (record {
        storage = mbap_stream_init-IsValid.storage;
        head_in = mbap_stream_init-IsValid.head_in;
        count_in = mbap_stream_init-IsValid.count_in;
      })
      (inl refl)

clean_IsValid : Stream.IsValid mbap_stream_init
clean_IsValid = mbap_stream_init-IsValid

mbap_stream_feed-append_example :
    let first = mbap_stream_feed mbap_stream_init (some half) (some collect) [] in
    observed (mbap_stream_feed first.1 (some (0 ∷ [])) (some collect) first.2)
    ≡ observed (mbap_stream_feed mbap_stream_init (some (half ++ 0 ∷ [])) (some collect) [])
unfolding mbap_stream_init mbap_stream_feed feed_loop append_chunk copy_at parse_available
    parse_loop
mbap_stream_feed-append_example =
    mbap_stream_feed-append mbap_stream_init half (0 ∷ []) (some collect) [] clean_IsValid refl
      (omega arith) refl (omega arith)

mbap_stream_feed-encode_all_example :
    observed (
      mbap_stream_feed mbap_stream_init
        (some (encode_all (reading ∷ reading ∷ [])))
        (some collect)
        [])
    ≡ (ok, [], reading ∷ reading ∷ [], false)
unfolding mbap_stream_init
mbap_stream_feed-encode_all_example =
    mbap_stream_feed-encode_all mbap_stream_init (reading ∷ reading ∷ []) collect [] clean_IsValid
      refl refl (omega arith) (omega arith) (refl, (refl, _))

abbrev read_request : TcpRequest
read_request = record { client_id = 4; client_epoch = 1; adu = reading }

abbrev quiet_port : Port ℕ
quiet_port = port_in ready false (sent 0) empty

-- An answer of two registers, with its check value.
abbrev registers : List ℕ
registers = 9 ∷ 3 ∷ 4 ∷ 0 ∷ 1 ∷ 0 ∷ 2 ∷ 0xa3 ∷ 0xf2 ∷ []

modbus_rtu_frame_probe-Accepted_example :
    Accepted (rtu_frame reading) registers (modbus_rtu_frame_probe (rtu_frame reading) registers).1
unfolding modbus_rtu_frame_probe probe_expected rtu_frame crc_at crc16 crc_from crc_byte crc_bits
    crc_bit
modbus_rtu_frame_probe-Accepted_example =
    modbus_rtu_frame_probe-Accepted (rtu_frame reading) registers refl

abbrev asked : Transaction
asked = record zero_transaction { transport_metadata = request_metadata read_request }

modbus_tcp_build_response_lem_example :
    (IsAnswer asked registers
      × (9 + 4 ≤ 300)
      × (modbus_tcp_build_response asked registers 300
          ≡ (pos 0, encode (adu_of_rtu asked registers))))
    ⊎ ((IsAnswer asked registers → 300 < 9 + 4)
        × (is_neg (modbus_tcp_build_response asked registers 300).0 ≡ true)
        × ((modbus_tcp_build_response asked registers 300).1 ≡ []))
unfolding request_metadata
modbus_tcp_build_response_lem_example =
    modbus_tcp_build_response_lem asked registers 300 (omega arith)

-- Two clients, of which the second has a request waiting.
abbrev busy_slot : ClientSlot
busy_slot = record (new_slot 4 1) {
  requests = read_request ∷ read_request ∷ [];
  head = 1;
  count = 1;
}

abbrev two_clients : Dispatcher
two_clients = record modbus_dispatcher_init {
  clients = new_slot 2 1 ∷ busy_slot ∷ replicate 6 zero_slot;
  next_client = 7;
}

-- The first turn serves the client, at a port that takes its request.
abbrev any_turn : Turn ℕ
any_turn = record { port = quiet_port; now = 3; queue_timeout = 10; response_timeout = 20 }

modbus_dispatcher_step-ServedIn_example : ServedIn two_clients 1 (replicate 8 any_turn)
modbus_dispatcher_step-ServedIn_example =
    modbus_dispatcher_step-ServedIn two_clients 1 (replicate 8 any_turn) refl (omega arith)
      (omega arith) (record { storage = refl; head_in = omega arith; count_in = omega arith }) refl
      (omega arith)

modbus_dispatcher_enqueue-Enqueued_example :
    Enqueued two_clients 1 read_request (modbus_dispatcher_enqueue two_clients read_request)
unfolding find_slot find_index
modbus_dispatcher_enqueue-Enqueued_example =
    modbus_dispatcher_enqueue-Enqueued two_clients read_request 1 refl
      (record { storage = refl; head_in = omega arith; count_in = omega arith })
