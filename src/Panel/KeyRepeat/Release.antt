-- ===== src/Panel/KeyRepeat/Release.antt =====
-- What a key that is held down gives, by src/panel/key_repeat.c.
use moxa_4vrs_gateway.Prelude.{ℕ, ◌≤◌, ◌<◌, ◌≡◌, ◌≢◌, ◌⊎◌, Bool, true, false, arith, sub32, pos}
use moxa_4vrs_gateway.Panel.KeyRepeat.{KeyRepeat, key_repeat_scaled, repeat_in, repeat_held}

-- A key that is down when the screen or the edited field changes gives nothing, at that call and at
-- the next one in the same place with a key still down, so that only a release lets it act again.
pub key_repeat_scaled-blocked :
    (s : KeyRepeat) (now mask context : ℕ) (allowed numeric : Bool) (later held : ℕ)
    → s.initialized ≡ true
    → context ≢ s.context
    → mask ≢ 0
    → held ≢ 0
    → let first = key_repeat_scaled s now mask context allowed numeric in
      (first.0 ≡ pos 0)
      × (first.1.blocked ≡ true)
      × ((key_repeat_scaled first.1 later held context allowed numeric).0 ≡ pos 0)
      × ((key_repeat_scaled first.1 later held context allowed numeric).1.blocked ≡ true)
unfolding key_repeat_scaled repeat_in repeat_held
key_repeat_scaled-blocked s now mask context allowed numeric later held on other down still =
    ground arith

-- The pause from one step to the next at `now` of a key that went down at `pressed`.
abbrev pub Paused : ℕ → ℕ → ℕ → Bool → Type 0
Paused pressed last now numeric =
    (10 ≤ sub32 now last)
    × (((numeric ≡ false) × (5000 < sub32 now pressed)) ⊎ (100 ≤ sub32 now last))

-- A key that goes on being held in one place pauses 10 ticks or more between two steps: 500 or more
-- before the first repeat, and 100 or more unless it has been down for more than 5000 ticks outside a
-- numeric field. The pause before a second repeat counts from the first one.
pub key_repeat_scaled-Paused :
    (s : KeyRepeat) (now later : ℕ) (allowed numeric still_allowed still_numeric : Bool)
    → s.initialized ≡ true
    → (key_repeat_scaled s now s.mask s.context allowed numeric).0 ≢ pos 0
    → let next = (key_repeat_scaled s now s.mask s.context allowed numeric).1 in
      (key_repeat_scaled next later s.mask s.context still_allowed still_numeric).0 ≢ pos 0
      → Paused s.pressed_at s.emitted_at now numeric
        × ((s.started ≡ true) ⊎ (500 ≤ sub32 now s.emitted_at))
        × Paused s.pressed_at now later still_numeric
unfolding key_repeat_scaled repeat_in repeat_held
key_repeat_scaled-Paused s now later allowed numeric still_allowed still_numeric on moved again =
    ground arith
