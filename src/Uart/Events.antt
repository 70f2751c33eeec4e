-- ===== src/Uart/Events.antt =====
-- What src/uart/uart_backend.c reports of a transaction.
use moxa_4vrs_gateway.Prelude.{
  ℕ, ◌-◌, ◌≤◌, ◌≡◌, refl, ◌≢◌, ◌⊎◌, true, ◌++◌, arith, ltb, ◌==◌, if◌then◌else◌, if_then, length,
  take, length-append, length-take, pos,
}
use moxa_4vrs_gateway.Port.State.{no_event}
use moxa_4vrs_gateway.Uart.{
  amount, io_budget, no_backend_event, Uart, Syscalls, Polled, poll_send, poll_receive,
  judge_received, after_error, uart_capacity, backend_poll, backend_cancel,
}

module _ {W : Type 0} where
  -- A poll reports an event exactly with a positive result, and then of the generation of the active
  -- transaction; its bytes are those that it says.
  pub record Reported (u : Uart W) (r : Polled W) : Type 0 where
    pub reported : (r.0 ≡ pos 1) ⊎ (r.1.type ≡ no_event)
    pub generation : r.0 ≡ pos 1 → r.1.generation ≡ u.active_generation
    pub active : r.0 ≡ pos 1 → u.active_generation ≢ 0
    pub sized : r.1.length ≡ length r.1.content

  abbrev Silent : Uart W → Polled W → Type 0
  Silent u r =
      ((r.0 ≡ pos 1) ⊎ (r.1.type ≡ no_event))
      × (r.0 ≡ pos 1 → r.1.generation ≡ u.active_generation)
      × (r.1.length ≡ length r.1.content)

  poll_send-Silent : (sys : Syscalls W) (u : Uart W) (now : ℕ) → Silent u (poll_send sys u now)
  unfolding poll_send after_error
  poll_send-Silent sys u now = ground arith

  poll_receive-Silent : (sys : Syscalls W) (u : Uart W) → Silent u (poll_receive sys u)
  unfolding poll_receive after_error judge_received
  poll_receive-Silent sys u = ground arith

  -- Whatever the device does, a poll reports an event only with a positive result, while a transaction
  -- is active, and under that transaction's generation.
  pub backend_poll-Reported :
      (sys : Syscalls W) (u : Uart W) (now : ℕ) → Reported u (backend_poll sys u now)
  unfolding backend_poll
  backend_poll-Reported sys u now =
      let (a, b, c) = poll_send-Silent sys u now in
      let (d, e, f) = poll_receive-Silent sys u in
      record {
        reported = ground arith;
        generation = ground arith;
        active = ground arith;
        sized = ground arith;
      }

  poll_receive-bounded :
      (sys : Syscalls W) (u : Uart W)
      → length u.rx ≤ uart_capacity
      → ((w : W) (n : ℕ) → amount (sys.read_fn w n).0 ≤ n)
      → length (poll_receive sys u).2.rx ≤ uart_capacity
  unfolding poll_receive after_error judge_received
  poll_receive-bounded sys u h contract =
      let budget =
        if ltb (uart_capacity - length u.rx) io_budget
        then uart_capacity - length u.rx
        else io_budget in
      let content = (sys.read_fn u.device budget).1 in
      let n = amount (sys.read_fn u.device budget).0 in
      let small : n ≤ budget = contract u.device budget in
      let fits : budget ≤ uart_capacity - length u.rx = ground arith in
      let grown : length (u.rx ++ take n content) ≤ uart_capacity =
        omega (arith, length-append u.rx (take n content), length-take n content, small, fits, h) in
      ground arith

  -- Once the active transaction is cancelled, an open backend reports nothing and reads nothing,
  -- whatever the device still sends.
  backend_cancel-quiet :
      (sys : Syscalls W) (u : Uart W) (now : ℕ)
      → u.opened ≡ true
      → backend_poll sys (backend_cancel u u.active_generation) now
        ≡ (pos 0, no_backend_event, backend_cancel u u.active_generation)
  unfolding backend_poll backend_cancel
  backend_cancel-quiet sys u now on =
      let same : (u.active_generation == u.active_generation) ≡ true = ground arith in
      rw (if_then _ _ _ same) (rw on refl)

  -- If a read stores no more than it is asked for, a poll keeps what is received within its buffer.
  pub backend_poll-bounded :
      (sys : Syscalls W) (u : Uart W) (now : ℕ)
      → length u.rx ≤ uart_capacity
      → ((w : W) (n : ℕ) → amount (sys.read_fn w n).0 ≤ n)
      → length (backend_poll sys u now).2.rx ≤ uart_capacity
  unfolding backend_poll poll_send after_error
  backend_poll-bounded sys u now h contract =
      let received = poll_receive-bounded sys u h contract in ground arith
