-- ===== src/Panel/KeyRepeat.antt =====
-- src/panel/key_repeat.c: when a key of the panel that is held down repeats.
pub mod Release
use moxa_4vrs_gateway.Prelude.{
  ℕ, ◌-◌, Bool, true, false, not, ◌&&◌, ◌||◌, ltb, ◌==◌, if◌then◌else◌, sub32, ℤ, pos, negsuc,
}

-- The flags of the source are Booleans here.
pub record KeyRepeat : Type 0 where
  pub pressed_at : ℕ
  pub emitted_at : ℕ
  pub context : ℕ
  pub mask : ℕ
  pub blocked : Bool
  pub started : Bool
  pub initialized : Bool

unfoldable pub key_repeat_init : KeyRepeat
key_repeat_init = record {
  pressed_at = 0;
  emitted_at = 0;
  context = 0;
  mask = 0;
  blocked = false;
  started = false;
  initialized = false;
}

-- `(mask == 1U ? -1 : 1) * steps` for a positive number of steps.
abbrev pub directed : ℕ → ℕ → ℤ
directed mask steps = if mask == 1 then negsuc (steps - 1) else pos steps

-- The part for a key that was already down, which may repeat.
unfoldable pub repeat_held : KeyRepeat → ℕ → ℕ → Bool → ℤ × KeyRepeat
repeat_held s now mask numeric =
    let long = ltb 5000 (sub32 now s.pressed_at) in
    let interval = if s.started then (if long && not numeric then 10 else 100) else 500 in
    if ltb (sub32 now s.emitted_at) interval then (pos 0, s) else (
      directed mask (if numeric && long then 10 else 1),
      record s { emitted_at = now; started = true },
    )

abbrev pub enter_context : KeyRepeat → ℕ → KeyRepeat
enter_context s context =
    if s.initialized then s else record s { context = context; initialized = true }

-- The part behind the first use of the state.
unfoldable pub repeat_in : KeyRepeat → ℕ → ℕ → ℕ → Bool → Bool → ℤ × KeyRepeat
repeat_in s now mask context allowed numeric =
    if not (context == s.context) || not allowed || ltb 2 mask
    then (
      pos 0,
      record s { context = context; blocked = not (mask == 0); mask = 0; started = false },
    )
    else if mask == 0
    then (pos 0, record s { mask = 0; blocked = false; started = false })
    else if s.blocked
    then (pos 0, s)
    else if not (mask == s.mask)
    then (
      directed mask 1,
      record s { mask = mask; pressed_at = now; emitted_at = now; started = false },
    )
    else repeat_held s now mask numeric

unfoldable pub key_repeat_scaled : KeyRepeat → ℕ → ℕ → ℕ → Bool → Bool → ℤ × KeyRepeat
key_repeat_scaled s now mask context allowed numeric =
    repeat_in (enter_context s context) now mask context allowed numeric

unfoldable pub key_repeat_step : KeyRepeat → ℕ → ℕ → ℕ → Bool → ℤ × KeyRepeat
key_repeat_step s now mask context allowed = key_repeat_scaled s now mask context allowed false
