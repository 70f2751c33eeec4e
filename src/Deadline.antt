-- ===== src/Deadline.antt =====
-- src/core/deadline.c: deadlines over a tick counter that wraps at 2^32.
pub mod Window
use moxa_4vrs_gateway.Prelude.{ℕ, Bool, false, ltb, if◌then◌else◌, add32, sub32}

-- `CORE_TICK_HALF_RANGE`
abbrev pub half_range : ℕ
half_range = 0x8000_0000

pub record Deadline : Type 0 where
  pub at : ℕ
  pub armed : Bool

unfoldable pub ticks_valid_interval : ℕ → Bool
ticks_valid_interval interval = ltb interval half_range

unfoldable pub deadline_after : ℕ → ℕ → Deadline
unfolding ticks_valid_interval
deadline_after now interval = record {
  at = add32 now interval;
  armed = ticks_valid_interval interval;
}

unfoldable pub deadline_expired : Deadline → ℕ → Bool
deadline_expired d now = if d.armed then ltb (sub32 now d.at) half_range else false

unfoldable pub elapsed : ℕ → ℕ → ℕ
elapsed since now = sub32 now since
