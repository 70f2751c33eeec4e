-- ===== src/Uart.antt =====
-- src/uart/uart_backend.c: the part of the serial backend that a transaction goes through. What it
-- reads and writes is logged by its trace functions, which change nothing here and are left out.
pub mod Events
use moxa_4vrs_gateway.Prelude.{
  ℕ, zero, suc, ◌+◌, ◌-◌, Bool, true, false, not, ◌&&◌, ◌||◌, Option, none, some, List, [], ◌++◌,
  ltb, leb, ◌==◌, if◌then◌else◌, increment, length, take, drop, ℤ, pos, negsuc, is_zero, is_pos,
  is_neg,
}
use moxa_4vrs_gateway.Transaction.{
  Transaction, Operation, OperationDirection, tx_only, rx_only, tx_then_rx, ResponsePolicy,
  fixed_length, backend_framed, zero_transaction, payload_max,
}
use moxa_4vrs_gateway.Port.State.{
  BackendEvent, EventType, no_event, response, malformed, failure, transmitted,
}
use moxa_4vrs_gateway.Modbus.Adapter.{FrameResult, incomplete, complete}

-- `UART_IO_BUDGET`
abbrev pub io_budget : ℕ
io_budget = 64

-- `UART_RX_CAPACITY`
abbrev pub uart_capacity : ℕ
uart_capacity = payload_max

-- `UART_RECOVERY_DRAIN_LIMIT`
abbrev pub drain_limit : ℕ
drain_limit = 512

-- The calls of `uart_syscalls_t` that move bytes, over the states of the device. A read also
-- returns the bytes that it stores.
pub record Syscalls (W : Type 0) : Type 0 where
  pub read_fn : W → ℕ → ℤ × List ℕ × W
  pub write_fn : W → List ℕ → ℤ × W
  pub tcflush_fn : W → ℤ × W
  pub last_error_fn : W → ℕ

-- `uart_frame_probe_fn` on the request and on what has been received.
abbrev pub FrameProbe : Type 0
FrameProbe = List ℕ → List ℕ → FrameResult × Option ℕ

pub record UartStats : Type 0 where
  pub bytes_read : ℕ
  pub bytes_written : ℕ
  pub short_writes : ℕ
  pub partial_reads : ℕ
  pub read_calls : ℕ
  pub write_calls : ℕ
  pub temporary_errors : ℕ
  pub hard_errors : ℕ
  pub rx_overflows : ℕ
  pub recovery_drained : ℕ

-- `opened` says that `fd` is not negative. `tx` and `rx` are the buffers up to `tx_length` and
-- `rx_length`.
pub record Uart (W : Type 0) : Type 0 where
  pub opened : Bool
  pub tx : List ℕ
  pub tx_offset : ℕ
  pub rx : List ℕ
  pub expected_response_length : ℕ
  pub active_generation : ℕ
  pub active_transaction_id : ℕ
  pub transmit_reported : Bool
  pub tx_completed_at : ℕ
  pub recovery_sequence : ℕ
  pub recovery_at_previous_start : ℕ
  pub recovery_since_previous_transaction : Bool
  pub operation : Operation
  pub frame_probe : Option FrameProbe
  pub stats : UartStats
  pub device : W

-- The values of `EAGAIN`, `EWOULDBLOCK` and `EINTR` on Linux.
abbrev eagain : ℕ
eagain = 11

abbrev ewouldblock : ℕ
ewouldblock = 11

abbrev eintr : ℕ
eintr = 4

unfoldable pub temporary_error : ℕ → Bool
temporary_error error = error == eagain || error == ewouldblock || error == eintr

unfoldable pub add_counter : ℕ → ℕ → ℕ
add_counter value amount = if ltb (0xffff_ffff - value) amount then 0xffff_ffff else value + amount

abbrev pub no_backend_event : BackendEvent
no_backend_event = record { type = no_event; generation = 0; length = 0; content = [] }

-- The absolute value of a positive result.
abbrev pub amount : ℤ → ℕ
amount (pos n) = n
amount (negsuc n) = 0

abbrev is_framed : ResponsePolicy → Bool
is_framed backend_framed = true
is_framed _ = false

abbrev is_fixed : ResponsePolicy → Bool
is_fixed fixed_length = true
is_fixed _ = false

abbrev is_tx_only : OperationDirection → Bool
is_tx_only tx_only = true
is_tx_only _ = false

abbrev is_rx_only : OperationDirection → Bool
is_rx_only rx_only = true
is_rx_only _ = false

abbrev is_tx_then_rx : OperationDirection → Bool
is_tx_then_rx tx_then_rx = true
is_tx_then_rx _ = false

abbrev is_absent {ℓ} : {A : Type ℓ} → Option A → Bool
is_absent none = true
is_absent (some a) = false

-- The result, and what is left in `event`.
abbrev pub Polled : Type 0 → Type 0
Polled W = ℤ × BackendEvent × Uart W

-- The event for a frame of so many bytes, with the result of the probe and the length that it gives;
-- `none` is no event yet.
unfoldable pub framed_event : FrameResult → Option ℕ → ℕ → Option EventType
framed_event incomplete expected count = none
framed_event complete (some expected) count =
    some (if expected == count then response else malformed)
framed_event complete none count = some malformed
framed_event FrameResult.malformed expected count = some malformed

module _ {W : Type 0} where
  abbrev event_of : Uart W → EventType → BackendEvent
  event_of u type = record no_backend_event { type = type; generation = u.active_generation }

  abbrev received_of : Uart W → EventType → BackendEvent
  received_of u type = record (event_of u type) { length = length u.rx; content = u.rx }

  unfoldable pub backend_start : Uart W → Transaction → ℤ × Uart W
  backend_start u t =
      let taken = record u { operation = t.operation } in
      if not u.opened
        || t.payload_length == 0
        || ltb uart_capacity t.operation.expected_response_length
      then (negsuc 0, u)
      else if is_framed t.operation.response_policy && is_absent u.frame_probe
      then (negsuc 0, taken)
      else (
        pos 0,
        record taken {
          tx = if is_rx_only t.operation.direction then [] else take t.payload_length t.payload;
          tx_offset = 0;
          rx = [];
          expected_response_length = t.operation.expected_response_length;
          active_generation = t.generation;
          active_transaction_id = t.id;
          transmit_reported = false;
          tx_completed_at = 0;
          recovery_since_previous_transaction =
              not (u.recovery_sequence == u.recovery_at_previous_start);
          recovery_at_previous_start = u.recovery_sequence;
        },
      )

  -- A call failed: what its error comes to.
  unfoldable pub after_error : Syscalls W → Uart W → Polled W
  after_error sys u =
      let s = u.stats in
      if temporary_error (sys.last_error_fn u.device)
      then (
        pos 0,
        no_backend_event,
        record u { stats = record s { temporary_errors = increment s.temporary_errors } },
      )
      else (
        pos 1,
        event_of u failure,
        record u { stats = record s { hard_errors = increment s.hard_errors } },
      )

  -- The part of `backend_poll` while bytes are left to send.
  unfoldable pub poll_send : Syscalls W → Uart W → ℕ → Polled W
  poll_send sys u now =
      let remaining = length u.tx - u.tx_offset in
      let budget = if ltb remaining io_budget then remaining else io_budget in
      let (result, device) = sys.write_fn u.device (take budget (drop u.tx_offset u.tx)) in
      let s = u.stats in
      let called = record s { write_calls = increment s.write_calls } in
      let offset = u.tx_offset + amount result in
      let sent = record u {
        device = device;
        tx_offset = offset;
        tx_completed_at = if offset == length u.tx then now else u.tx_completed_at;
        stats = record called {
          short_writes =
              if ltb (amount result) budget then increment s.short_writes else s.short_writes;
          bytes_written = add_counter s.bytes_written (amount result);
        };
      } in
      if is_pos result
      then (pos 0, no_backend_event, sent)
      else if is_neg result
      then after_error sys (record u { device = device; stats = called })
      else (pos 0, no_backend_event, record u { device = device; stats = called })

  -- What has been received, judged by the policy of the operation.
  unfoldable pub judge_received : Uart W → Option FrameProbe → Polled W
  judge_received u none =
      if is_fixed u.operation.response_policy && leb u.expected_response_length (length u.rx)
      then (
        pos 1,
        received_of u (if length u.rx == u.expected_response_length then response else malformed),
        u,
      )
      else (pos 0, no_backend_event, u)
  judge_received u (some probe) =
      if is_fixed u.operation.response_policy && leb u.expected_response_length (length u.rx)
      then (
        pos 1,
        received_of u (if length u.rx == u.expected_response_length then response else malformed),
        u,
      )
      else if is_framed u.operation.response_policy
      then (let (framed, expected) = probe u.tx u.rx in
          elim (framed_event framed expected (length u.rx)) [
            | none ↦ (pos 0, no_backend_event, u)
            | some type ↦ (pos 1, received_of u type, u)
          ])
      else (pos 0, no_backend_event, u)

  -- The part of `backend_poll` that receives.
  unfoldable pub poll_receive : Syscalls W → Uart W → Polled W
  poll_receive sys u =
      let remaining = uart_capacity - length u.rx in
      let budget = if ltb remaining io_budget then remaining else io_budget in
      let (result, content, device) = sys.read_fn u.device budget in
      let s = u.stats in
      let called = record s { read_calls = increment s.read_calls } in
      let got = record u {
        device = device;
        rx = u.rx ++ take (amount result) content;
        stats = record called {
          partial_reads =
              if ltb (amount result) budget then increment s.partial_reads else s.partial_reads;
          bytes_read = add_counter s.bytes_read (amount result);
        };
      } in
      if budget == 0
      then (
        pos 1,
        event_of u malformed,
        record u { stats = record s { rx_overflows = increment s.rx_overflows } },
      )
      else if is_pos result
      then judge_received got got.frame_probe
      else if is_neg result
      then after_error sys (record u { device = device; stats = called })
      else (pos 0, no_backend_event, record u { device = device; stats = called })

  unfoldable pub backend_poll : Syscalls W → Uart W → ℕ → Polled W
  backend_poll sys u now =
      if not u.opened
      then (negsuc 0, no_backend_event, u)
      else if u.active_generation == 0
      then (pos 0, no_backend_event, u)
      else if ltb u.tx_offset (length u.tx)
      then poll_send sys u now
      else if is_tx_then_rx u.operation.direction && not u.transmit_reported
      then (pos 1, event_of u transmitted, record u { transmit_reported = true })
      else if is_tx_only u.operation.direction
      then (pos 1, event_of u response, u)
      else poll_receive sys u

  abbrev idle_uart : Uart W → Uart W
  idle_uart u = record u {
    tx = [];
    tx_offset = 0;
    rx = [];
    expected_response_length = 0;
    active_generation = 0;
    active_transaction_id = 0;
    transmit_reported = false;
    operation = zero_transaction.operation;
  }

  unfoldable pub backend_cancel : Uart W → ℕ → Uart W
  backend_cancel u generation = if u.active_generation == generation then idle_uart u else u

  -- The loop that drains: the bytes drained, whether a hard error ended it, and the device after it.
  -- Each round but the last drains a byte at least; `fuel` bounds the rounds.
  unfoldable pub drain_loop : ℕ → Syscalls W → ℕ → W → ℕ × Bool × W
  drain_loop zero sys total device = (total, false, device)
  drain_loop (suc fuel) sys total device =
      let (result, content, after) = sys.read_fn device io_budget in
      let later = drain_loop fuel sys (total + amount result) after in
      if ltb total drain_limit
      then (if is_pos result
          then later
          else (total, is_neg result && not (temporary_error (sys.last_error_fn after)), after))
      else (total, false, device)

  unfoldable pub backend_recover : Syscalls W → Uart W → ℤ × Uart W
  backend_recover sys u =
      let (total, hard, device) = drain_loop drain_limit sys 0 u.device in
      let (flushed, after) = sys.tcflush_fn device in
      let s = u.stats in
      let counted = record u {
        device = device;
        recovery_sequence = increment u.recovery_sequence;
        stats = record s { recovery_drained = add_counter s.recovery_drained total };
      } in
      if not u.opened
      then (negsuc 0, u)
      else if hard
      then (
        negsuc 0,
        record u { device = device; stats = record s { hard_errors = increment s.hard_errors } },
      )
      else if leb drain_limit total
      then (negsuc 0, counted)
      else if is_zero flushed
      then (pos 0, idle_uart (record counted { device = after }))
      else (negsuc 0, record counted { device = after })
