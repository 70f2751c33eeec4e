-- ===== src/Examples/Panel.antt =====
-- The theorems on the keys of the panel at concrete states.
use moxa_4vrs_gateway.Prelude.{◌≤◌, ◌≡◌, refl, ◌≢◌, ◌⊎◌, true, false, arith, sub32, pos}
use moxa_4vrs_gateway.Panel.KeyRepeat.{KeyRepeat, key_repeat_scaled, repeat_in, repeat_held}
use moxa_4vrs_gateway.Panel.KeyRepeat.Release.{
  Paused, key_repeat_scaled-blocked, key_repeat_scaled-Paused,
}

abbrev held_key : KeyRepeat
held_key = record {
  pressed_at = 0xffff_ff00;
  emitted_at = 0xffff_ff00;
  context = 3;
  mask = 2;
  blocked = false;
  started = false;
  initialized = true;
}

key_repeat_scaled-blocked_example :
    let first = key_repeat_scaled held_key 5 2 4 true false in
    (first.0 ≡ pos 0)
    × (first.1.blocked ≡ true)
    × ((key_repeat_scaled first.1 900 2 4 true false).0 ≡ pos 0)
    × ((key_repeat_scaled first.1 900 2 4 true false).1.blocked ≡ true)
key_repeat_scaled-blocked_example =
    key_repeat_scaled-blocked held_key 5 2 4 true false 900 2 refl (λ e. absurd (omega (arith, e)))
      (λ e. absurd (omega (arith, e))) (λ e. absurd (omega (arith, e)))

one_step : pos 1 ≢ pos 0
one_step e = cc

key_repeat_scaled-Paused_example :
    Paused held_key.pressed_at held_key.emitted_at 300 false
    × ((false ≡ true) ⊎ (500 ≤ sub32 300 held_key.emitted_at))
    × Paused held_key.pressed_at 300 400 false
unfolding key_repeat_scaled repeat_in repeat_held
key_repeat_scaled-Paused_example =
    key_repeat_scaled-Paused held_key 300 400 true false true false refl one_step one_step
