-- ===== src/Modbus/Dispatcher.antt =====
-- src/modbus/modbus_dispatcher.c: the TCP clients of a port take turns with their requests.
pub mod Turns
pub mod Clients
use moxa_4vrs_gateway.Prelude.{
  ℕ, zero, suc, ◌+◌, ◌-◌, ◌%◌, Bool, true, false, not, ◌&&◌, Option, none, some, List, [], ◌∷◌,
  ◌==◌, if◌then◌else◌, add32, get_or, set, replicate, ℤ, pos, negsuc,
}
use moxa_4vrs_gateway.Port.State.{Port, SubmitResult, accepted, invalid_request}
use moxa_4vrs_gateway.Modbus.Adapter.{TcpRequest, modbus_tcp_submit}

-- `MODBUS_CLIENT_MAX`
abbrev pub client_max : ℕ
client_max = 8

-- `MODBUS_CLIENT_QUEUE_MAX`
abbrev pub client_queue_max : ℕ
client_queue_max = 2

abbrev pub zero_request : TcpRequest
zero_request = record {
  client_id = 0;
  client_epoch = 0;
  adu = record { transaction_id = 0; unit_id = 0; pdu = [] };
}

pub record ClientSlot : Type 0 where
  pub id : ℕ
  pub epoch : ℕ
  pub connected : Bool
  pub requests : List TcpRequest
  pub head : ℕ
  pub count : ℕ

unfoldable pub zero_slot : ClientSlot
zero_slot = record {
  id = 0;
  epoch = 0;
  connected = false;
  requests = replicate client_queue_max zero_request;
  head = 0;
  count = 0;
}

pub record Dispatcher : Type 0 where
  pub clients : List ClientSlot
  pub next_client : ℕ
  pub queue_full : ℕ
  pub disconnected_drops : ℕ
  pub submitted : ℕ

unfoldable pub modbus_dispatcher_init : Dispatcher
modbus_dispatcher_init = record {
  clients = replicate client_max zero_slot;
  next_client = 0;
  queue_full = 0;
  disconnected_drops = 0;
  submitted = 0;
}

abbrev pub slot_at : Dispatcher → ℕ → ClientSlot
slot_at d i = get_or d.clients i zero_slot

abbrev pub with_slot : Dispatcher → ℕ → ClientSlot → Dispatcher
with_slot d i slot = record d { clients = set d.clients i slot }

abbrev pub shifted : Option ℕ → Option ℕ
shifted none = none
shifted (some i) = some (suc i)

-- The index of the first slot that passes a test.
unfoldable pub find_index : (ClientSlot → Bool) → List ClientSlot → Option ℕ
find_index test [] = none
find_index test (slot ∷ slots) =
    let later = find_index test slots in if test slot then some 0 else shifted later

abbrev pub has_id : ℕ → ClientSlot → Bool
has_id id slot = slot.connected && slot.id == id

abbrev pub is_free : ClientSlot → Bool
is_free slot = not slot.connected

unfoldable pub find_slot : Dispatcher → ℕ → Option ℕ
find_slot d id = find_index (has_id id) d.clients

abbrev pub new_slot : ℕ → ℕ → ClientSlot
new_slot id epoch = record zero_slot { connected = true; id = id; epoch = epoch }

unfoldable pub take_slot : Dispatcher → Option ℕ → ClientSlot → ℤ × Dispatcher
take_slot d none slot = (negsuc 0, d)
take_slot d (some i) slot = (pos 0, with_slot d i slot)

unfoldable pub modbus_dispatcher_connect : Dispatcher → ℕ → ℕ → ℤ × Dispatcher
modbus_dispatcher_connect d client_id epoch =
    if epoch == 0 then (negsuc 0, d) else elim (find_slot d client_id) [
      | some i ↦ (negsuc 0, d)
      | none ↦ take_slot d (find_index is_free d.clients) (new_slot client_id epoch)
    ]

unfoldable pub modbus_dispatcher_disconnect : Dispatcher → ℕ → ℕ → Dispatcher
modbus_dispatcher_disconnect d client_id epoch = elim (find_slot d client_id) [
  | none ↦ d
  | some i ↦
      let slot = slot_at d i in
      let dropped = with_slot d i zero_slot in
      if slot.epoch == epoch
      then record dropped { disconnected_drops = add32 d.disconnected_drops slot.count }
      else d
]

unfoldable pub modbus_dispatcher_enqueue : Dispatcher → TcpRequest → ℤ × Dispatcher
modbus_dispatcher_enqueue d r = elim (find_slot d r.client_id) [
  | none ↦ (negsuc 0, d)
  | some i ↦
      let slot = slot_at d i in
      let tail = (slot.head + slot.count) % client_queue_max in
      if not (slot.epoch == r.client_epoch)
      then (negsuc 0, d)
      else if slot.count == client_queue_max
      then (negsuc 1, record d { queue_full = add32 d.queue_full 1 })
      else (
        pos 0,
        with_slot d i (record slot { requests = set slot.requests tail r; count = slot.count + 1 }),
      )
]

abbrev pub is_waiting : ClientSlot → Bool
is_waiting slot = slot.connected && not (slot.count == 0)

abbrev pub is_accepted : SubmitResult → Bool
is_accepted accepted = true
is_accepted _ = false

module _ {B : Type 0} where
  -- The turn of the client in a slot, which has a request waiting.
  unfoldable pub serve : Dispatcher → Port B → ℕ → ℕ → ℕ → ℕ → SubmitResult × Dispatcher × Port B
  serve d p index now queue_timeout response_timeout =
      let slot = slot_at d index in
      let request = get_or slot.requests slot.head zero_request in
      let (result, q, _) = modbus_tcp_submit p (some request) now queue_timeout response_timeout in
      let moved = record d { next_client = (index + 1) % client_max } in
      let advanced = record slot {
        head = (slot.head + 1) % client_queue_max;
        count = slot.count - 1;
      } in
      let counted = record (with_slot moved index advanced) { submitted = add32 d.submitted 1 } in
      (result, (if is_accepted result then counted else moved), q)

  -- The rounds of the loop from `n` on, of which `left` are left.
  unfoldable pub serve_loop :
      ℕ → ℕ → Dispatcher → Port B → ℕ → ℕ → ℕ → SubmitResult × Dispatcher × Port B
  serve_loop zero n d p now queue_timeout response_timeout = (invalid_request, d, p)
  serve_loop (suc left) n d p now queue_timeout response_timeout =
      let index = (d.next_client + n) % client_max in
      let later = serve_loop left (n + 1) d p now queue_timeout response_timeout in
      if is_waiting (slot_at d index)
      then serve d p index now queue_timeout response_timeout
      else later

  unfoldable pub modbus_dispatcher_step :
      Dispatcher → Port B → ℕ → ℕ → ℕ → SubmitResult × Dispatcher × Port B
  modbus_dispatcher_step d p now queue_timeout response_timeout =
      serve_loop client_max 0 d p now queue_timeout response_timeout

unfoldable pub modbus_dispatcher_client_current : Dispatcher → ℕ → ℕ → Bool
modbus_dispatcher_client_current d client_id epoch =
    elim (find_index (λ slot. slot.connected && slot.id == client_id && slot.epoch == epoch)
      d.clients) [ none ↦ false | some i ↦ true ]
