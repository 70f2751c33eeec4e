-- ===== src/Deadline/Window.antt =====
-- When a deadline is due: the arithmetic of src/core/deadline.c across the wrap of the counter.
use moxa_4vrs_gateway.Prelude.{ℕ, ◌+◌, ◌<◌, ◌≡◌, ◌&&◌, arith, ltb, leb, u32_mod, add32}
use moxa_4vrs_gateway.Deadline.{
  half_range, ticks_valid_interval, deadline_after, deadline_expired, elapsed,
}

-- A deadline set `interval` ticks ahead is due exactly from `interval` ticks on, for half the
-- range of the counter, wherever the counter stands and whether or not it wraps on the way; one set
-- with an interval of half the range or more is never due.
pub expired-after :
    (now interval passed : ℕ)
    → now < u32_mod
    → interval < u32_mod
    → passed < u32_mod
    → deadline_expired (deadline_after now interval) (add32 now passed)
      ≡ (ltb interval half_range && leb interval passed && ltb passed (interval + half_range))
unfolding deadline_expired deadline_after ticks_valid_interval
expired-after now interval passed hn hi hp = ground arith

-- The time between two readings is what passed, if less than one turn of the counter did.
pub elapsed-add :
    (since passed : ℕ)
    → since < u32_mod
    → passed < u32_mod
    → elapsed since (add32 since passed) ≡ passed
unfolding elapsed
elapsed-add since passed hs hp = omega arith
