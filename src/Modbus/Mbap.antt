-- ===== src/Modbus/Mbap.antt =====
-- src/modbus/mbap_stream.c: the bytes of a TCP connection, cut into Modbus requests.
pub mod Frames
pub mod Stream
pub mod Parser
pub mod Feed
pub mod Fragments
pub mod Delivery
use moxa_4vrs_gateway.Prelude.{
  ℕ, zero, suc, ◌+◌, ◌-◌, ◌*◌, ◌%◌, ◌^◌, min, bit_or, Bool, true, false, not, ◌||◌, Option, none,
  some, List, [], ◌∷◌, ltb, ◌==◌, if◌then◌else◌, add32, sub32, length, get_or, set, take, drop,
  replicate, ℤ, pos, negsuc, is_zero, is_pos, is_neg,
}

-- `MBAP_HEADER_SIZE`
abbrev pub header_size : ℕ
header_size = 7

-- `MBAP_PDU_MAX`
abbrev pub pdu_max : ℕ
pdu_max = 253

-- `MBAP_ADU_MAX`
abbrev pub adu_max : ℕ
adu_max = header_size + pdu_max

-- `MBAP_LENGTH_MIN`
abbrev pub length_min : ℕ
length_min = 2

-- `MBAP_LENGTH_MAX`
abbrev pub length_max : ℕ
length_max = 254

-- `MBAP_RX_CAPACITY`
abbrev pub rx_capacity : ℕ
rx_capacity = adu_max * 4

pub data MbapResult : Type 0 where
  ok overflow malformed stopped : MbapResult

-- The bytes of `pdu` that count; there are `pdu_length` of them.
pub record Adu : Type 0 where
  pub transaction_id : ℕ
  pub unit_id : ℕ
  pub pdu : List ℕ

pub record MbapStream : Type 0 where
  pub bytes : List ℕ
  pub head : ℕ
  pub count : ℕ
  pub frames : ℕ
  pub malformed : ℕ
  pub overflows : ℕ
  pub poisoned : Bool

-- A call of an `mbap_adu_fn` on a state of its own.
abbrev pub AduFn : Type 0 → Type 0
AduFn C = C → Adu → ℤ × C

-- `((unsigned int)hi << 8) | lo`
unfoldable pub word : ℕ → ℕ → ℕ
word hi lo = bit_or (hi * 2 ^ 8) lo

unfoldable pub peek : MbapStream → ℕ → ℕ
peek s offset = get_or s.bytes ((s.head + offset) % rx_capacity) 0

-- The bytes from an offset on.
abbrev pub peek_from : MbapStream → ℕ → ℕ → List ℕ
peek_from s offset zero = []
peek_from s offset (suc n) = peek s offset ∷ peek_from s (offset + 1) n

unfoldable pub mbap_stream_init : MbapStream
mbap_stream_init = record {
  bytes = replicate rx_capacity 0;
  head = 0;
  count = 0;
  frames = 0;
  malformed = 0;
  overflows = 0;
  poisoned = false;
}

abbrev pub reject : MbapStream → MbapStream
reject s = record s { malformed = add32 s.malformed 1; poisoned = true }

unfoldable pub consume : MbapStream → ℕ → MbapStream
consume s frame_length = record s {
  head = (s.head + frame_length) % rx_capacity;
  count = s.count - frame_length;
  frames = add32 s.frames 1;
}

abbrev pub adu_at : MbapStream → ℕ → Adu
adu_at s mbap_length = record {
  transaction_id = word (peek s 0) (peek s 1);
  unit_id = peek s 6;
  pdu = peek_from s 7 (mbap_length - 1);
}

-- `memcpy(bytes + at, data, length)` within the array.
unfoldable pub copy_at : List ℕ → ℕ → List ℕ → List ℕ
copy_at bytes at [] = bytes
copy_at bytes at (b ∷ content) = copy_at (set bytes at b) (at + 1) content

-- One round of the copying loop of `mbap_stream_feed`, with `chunk` bytes of `data`.
unfoldable pub append_chunk : MbapStream → List ℕ → ℕ → MbapStream
append_chunk s content chunk =
    let tail = (s.head + s.count) % rx_capacity in
    let first = min (rx_capacity - tail) chunk in
    record s {
      bytes =
          copy_at (copy_at s.bytes tail (take first content)) 0
            (take (chunk - first) (drop first content));
      count = s.count + chunk;
    }

abbrev pub overflowed : MbapStream → MbapStream
overflowed s = record s { overflows = add32 s.overflows 1; poisoned = true }

-- The loop `while (length != 0)`; the Boolean says that it ends without an overflow. `fuel` bounds its
-- rounds.
unfoldable pub feed_loop : ℕ → MbapStream → List ℕ → Bool × MbapStream
feed_loop zero s content = (true, s)
feed_loop (suc fuel) s content =
    let room = sub32 rx_capacity s.count in
    let chunk = if ltb (length content) room then length content else room in
    let later = feed_loop fuel (append_chunk s content chunk) (drop chunk content) in
    if length content == 0 then (true, s) else if room == 0 then (false, overflowed s) else later

abbrev pub feed_result : ℤ → MbapResult
feed_result parsed = if is_neg parsed then malformed else if is_pos parsed then stopped else ok

module _ {C : Type 0} where
  unfoldable pub call_back : Option (AduFn C) → C → Adu → ℤ × C
  call_back none c adu = (pos 0, c)
  call_back (some callback) c adu = callback c adu

  -- The loop of `parse_available`, with its result, the stream and the callback's state after it.
  -- `fuel` bounds its rounds.
  unfoldable pub parse_loop : ℕ → Option (AduFn C) → C → MbapStream → ℤ × MbapStream × C
  parse_loop zero callback c s = (pos 0, s, c)
  parse_loop (suc fuel) callback c s =
      let protocol = word (peek s 2) (peek s 3) in
      let mbap_length = word (peek s 4) (peek s 5) in
      let frame_length = 6 + mbap_length in
      let (answer, d) = call_back callback c (adu_at s mbap_length) in
      let later = parse_loop fuel callback d (consume s frame_length) in
      if ltb s.count header_size
      then (pos 0, s, c)
      else if not (protocol == 0) || ltb mbap_length length_min || ltb length_max mbap_length
      then (negsuc 0, reject s, c)
      else if ltb adu_max frame_length
      then (negsuc 0, reject s, c)
      else if ltb s.count frame_length
      then (pos 0, s, c)
      else if is_zero answer
      then later
      else (pos 1, s, d)

  -- Each round takes a byte at least, so as many rounds as there are bytes are enough.
  unfoldable pub parse_available : Option (AduFn C) → C → MbapStream → ℤ × MbapStream × C
  parse_available callback c s = parse_loop s.count callback c s

  -- `data` up to `length`; `none` is a null pointer with a length other than 0.
  unfoldable pub mbap_stream_feed :
      MbapStream → Option (List ℕ) → Option (AduFn C) → C → MbapResult × MbapStream × C
  mbap_stream_feed s none callback c = (malformed, s, c)
  mbap_stream_feed s (some content) callback c =
      let (whole, t) = feed_loop (length content) s content in
      let (parsed, u, d) = parse_available callback c t in
      if s.poisoned
      then (malformed, s, c)
      else if ltb (sub32 rx_capacity s.count) (length content)
      then (overflow, overflowed s, c)
      else if whole
      then (feed_result parsed, u, d)
      else (overflow, t, c)

unfoldable pub mbap_stream_buffered : Option MbapStream → ℕ
mbap_stream_buffered none = 0
mbap_stream_buffered (some s) = s.count
