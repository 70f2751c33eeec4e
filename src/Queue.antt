-- ===== src/Queue.antt =====
-- `transaction_queue_t` of src/core/port_runtime.h with `queue_push` and `queue_pop` of
-- src/core/port_runtime.c: a ring of transactions, bounded in entries and in payload bytes.
pub mod Fifo
use moxa_4vrs_gateway.Prelude.{
  ℕ, ◌%◌, ◌||◌, Option, none, some, List, ltb, leb, ◌==◌, if◌then◌else◌, add32, sub32, get_or, set,
  replicate,
}
use moxa_4vrs_gateway.Transaction.{Transaction, zero_transaction}

-- `CORE_QUEUE_CAPACITY`
abbrev pub capacity : ℕ
capacity = 8

-- `CORE_QUEUE_BYTES_MAX`
abbrev pub bytes_max : ℕ
bytes_max = 1024

pub record TransactionQueue : Type 0 where
  pub entries : List Transaction
  pub head : ℕ
  pub count : ℕ
  pub bytes : ℕ

unfoldable pub empty : TransactionQueue
empty = record { entries = replicate capacity zero_transaction; head = 0; count = 0; bytes = 0 }

-- `none` is the -1 of a queue that is full.
unfoldable pub push : TransactionQueue → Transaction → Option TransactionQueue
push q t =
    if leb capacity q.count || ltb bytes_max (add32 q.bytes t.payload_length)
    then none
    else some (record q {
      entries = set q.entries (add32 q.head q.count % capacity) t;
      count = add32 q.count 1;
      bytes = add32 q.bytes t.payload_length;
    })

-- The entry at the head and the queue behind it; `none` is the -1 of an empty queue.
unfoldable pub pop : TransactionQueue → Option (Transaction × TransactionQueue)
pop q =
    let t = get_or q.entries q.head zero_transaction in
    if q.count == 0
    then none
    else some (
      t,
      record q {
        bytes = sub32 q.bytes t.payload_length;
        head = add32 q.head 1 % capacity;
        count = sub32 q.count 1;
      },
    )
