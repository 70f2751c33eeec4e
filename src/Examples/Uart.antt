-- ===== src/Examples/Uart.antt =====
-- The theorems on the serial backend at a concrete device.
use moxa_4vrs_gateway.Prelude.{ℕ, ◌≤◌, true, false, none, [], ◌∷◌, arith, length, replicate, pos}
use moxa_4vrs_gateway.Transaction.{backend_framed, tx_then_rx}
use moxa_4vrs_gateway.Uart.{Uart, Syscalls, uart_capacity, backend_poll}
use moxa_4vrs_gateway.Uart.Events.{Reported, backend_poll-Reported, backend_poll-bounded}

-- A device that takes whatever is written, and stores as many bytes as it is asked for.
abbrev echo : Syscalls ℕ
echo = record {
  read_fn = λ w n. (pos n, replicate n 7, w);
  write_fn = λ w xs. (pos (length xs), w);
  tcflush_fn = λ w. (pos 0, w);
  last_error_fn = λ w. 11;
}

abbrev receiving : Uart ℕ
receiving = record {
  opened = true;
  tx = 1 ∷ 3 ∷ [];
  tx_offset = 2;
  rx = 1 ∷ [];
  expected_response_length = 0;
  active_generation = 5;
  active_transaction_id = 6;
  transmit_reported = true;
  tx_completed_at = 9;
  recovery_sequence = 0;
  recovery_at_previous_start = 0;
  recovery_since_previous_transaction = false;
  operation = record {
    direction = tx_then_rx;
    response_policy = backend_framed;
    expected_response_length = 0;
  };
  frame_probe = none;
  stats = record {
    bytes_read = 0;
    bytes_written = 0;
    short_writes = 0;
    partial_reads = 0;
    read_calls = 0;
    write_calls = 0;
    temporary_errors = 0;
    hard_errors = 0;
    rx_overflows = 0;
    recovery_drained = 0;
  };
  device = 0;
}

backend_poll-Reported_example : Reported receiving (backend_poll echo receiving 3)
backend_poll-Reported_example = backend_poll-Reported echo receiving 3

backend_poll-bounded_example : length (backend_poll echo receiving 3).2.rx ≤ uart_capacity
backend_poll-bounded_example =
    backend_poll-bounded echo receiving 3 (omega arith) (λ w n. omega arith)
