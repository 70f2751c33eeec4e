-- ===== src/Examples.antt =====
-- The theorems at concrete ports, queues and frames, with tests of the operations on them.
pub mod Ports
pub mod Frames
pub mod Gateway
pub mod Uart
pub mod Config
pub mod Panel
pub mod Controls
pub mod Network
pub mod Installer
use moxa_4vrs_gateway.Prelude.{
  ℕ, ◌≡◌, refl, ◌⊎◌, Bool, true, false, none, some, [], ◌∷◌, arith, length, set, pos,
}
use moxa_4vrs_gateway.Transaction.{backend_framed, tx_then_rx, Transaction, zero_transaction}
use moxa_4vrs_gateway.Queue.Fifo
use moxa_4vrs_gateway.Port.State.{
  PortConfig, Backend, BackendEvent, response, Port, PortState, active,
}
use moxa_4vrs_gateway.Port.Transitions.{is_busy}
use moxa_4vrs_gateway.Port.Machine.{init, zero_statistics, start}
use moxa_4vrs_gateway.Port.Submit.{Request}
use moxa_4vrs_gateway.Queue.{TransactionQueue, empty}
use moxa_4vrs_gateway.Port.Valid.{IsValid}

abbrev pub serial : PortConfig
serial = record {
  revision = 1;
  mode = 1;
  baud = 9600;
  data_bits = 8;
  parity = 0;
  stop_bits = 1;
  special_baud_enabled = 0;
  special_baud = 0;
  transport = 0;
  endpoint_port = 502;
}

abbrev pub answer : ℕ → BackendEvent
answer g = record { type = response; generation = g; length = 2; content = 7 ∷ 8 ∷ [] }

-- A device that answers every poll under the generation that its state names.
abbrev pub device : Backend ℕ
device = record {
  complete = true;
  open_device = λ b now. (pos 0, b);
  start = λ b t now. (pos 0, b);
  poll = λ b now. (pos 1, answer b, b);
  cancel = λ b g. b;
  recover = λ b now. (pos 0, b);
  reconfigure = λ b c now. (pos 0, b);
  stop = λ b now. (pos 0, b);
}

abbrev pub question : Request
question = record {
  payload = some (1 ∷ 3 ∷ 0 ∷ []);
  length = 3;
  owner_kind = 1;
  owner_id = 2;
  metadata = none;
  operation = some (record {
    direction = tx_then_rx;
    response_policy = backend_framed;
    expected_response_length = 0;
  });
  queue_timeout = 10;
  response_timeout = 10;
}

-- A port of `device` in a given state, with a callback installed.
abbrev pub port_in : PortState → Bool → Transaction → TransactionQueue → Port ℕ
port_in s busy t q = record (init 0 serial 1) {
  state = s;
  has_active = busy;
  active = t;
  queue = q;
  generation = 1;
  completion = true;
  stats = record zero_statistics { queue_depth = q.count; queue_high_water = q.count };
}

pub port_in-IsValid :
    (s : PortState) (busy : Bool) (t : Transaction) (q : TransactionQueue)
    → busy ≡ is_busy s
    → (busy ≡ false) ⊎ (t.generation ≡ 1)
    → Fifo.IsValid q
    → IsValid (port_in s busy t q)
unfolding init
port_in-IsValid s busy t q e c v = record {
  sound = record {
    queued = v;
    current = c;
    depth = refl;
    high_water = omega arith;
    id_known = (omega arith, omega arith);
    generation_in = omega arith;
  };
  busy = e;
}

-- A transaction with its time in the queue, and one that is at the device.
abbrev pub sent : ℕ → Transaction
sent late = record zero_transaction {
  id = late;
  generation = 1;
  payload_length = 3;
  payload = 1 ∷ 3 ∷ 0 ∷ [];
  queue_deadline = record { at = late; armed = true };
  response_timeout = 10;
}

-- A queue that goes round the end of its storage.
abbrev pub two_queued : TransactionQueue
two_queued = record {
  entries = set (set empty.entries 7 (sent 5)) 0 (sent 100);
  head = 7;
  count = 2;
  bytes = 6;
}

pub two_queued-IsValid : Fifo.IsValid two_queued
unfolding zero_transaction empty
two_queued-IsValid = omega arith
