-- ===== src/Prelude/Ring.antt =====
-- Arrays used as rings: the items from an index on, going round at the capacity.
use Prim.Native.Nat.{ℕ, zero, suc, ◌+◌, ◌-◌, ◌%◌, ◌≤◌, ◌<◌}
use mathlib.Core.Path.{◌≡◌, refl, sym, ap, ap₂, ◌∙◌}
use mathlib.Core.Logic.{◌≢◌}
use mathlib.Core.List.{List, [], ◌∷◌, ◌++◌}
use native.Mathlib.Omega.{arith}
use native.Mathlib.Decide.{dec_lt}
use native.Mathlib.Nat.{mod-add-mod, mod-eq_of_lt, mod-eq-sub-mod, add-zero}
use moxa_4vrs_gateway.Prelude.Lists.{
  length, get_or, set, take, drop, take-append, drop-append, get_or-set_self, get_or-set_ne,
}

-- A ring that is not full does not reach round to its own head.
pub add-mod-ne : (cap h k : ℕ) → h < cap → 0 < k → k < cap → (h + k) % cap ≢ h
add-mod-ne cap h k hh pk hk = elim (dec_lt (h + k) cap) [
  | yes below ↦ omega (arith, mod-eq_of_lt below)
  | no beyond ↦ omega (
    arith,
    mod-eq-sub-mod {n = h + k} {m = cap} (omega arith),
    mod-eq_of_lt {n = h + k - cap} {m = cap} (omega arith),
  )
]

module _ {ℓ} {A : Type ℓ} (blank : A) (cap : ℕ) where
  -- The `n` items of `buf` from `h` on.
  abbrev pub ring_items : List A → ℕ → ℕ → List A
  ring_items buf h zero = []
  ring_items buf h (suc n) = get_or buf h blank ∷ ring_items buf ((h + 1) % cap) n

  pub length-ring_items : (buf : List A) (h n : ℕ) → length (ring_items buf h n) ≡ n
  length-ring_items buf h zero = refl
  length-ring_items buf h (suc n) = ap suc (length-ring_items buf ((h + 1) % cap) n)

  pub ring_items_of_pos :
      (buf : List A) (h n : ℕ)
      → 0 < n
      → ring_items buf h n ≡ get_or buf h blank ∷ ring_items buf ((h + 1) % cap) (n - 1)
  ring_items_of_pos buf h zero p = absurd (omega arith)
  ring_items_of_pos buf h (suc n) p = ap (λ k. ring_items buf h (suc k)) (omega arith)

  step_round : (h n : ℕ) → (h + suc n) % cap ≡ ((h + 1) % cap + n) % cap
  step_round h n = rw mod-add-mod (ap (λ k. k % cap) (omega arith))

  -- A write just behind the items adds one to them.
  pub ring_items-set :
      (buf : List A) (h n i : ℕ) (v : A)
      → cap ≤ length buf
      → h < cap
      → n < cap
      → i ≡ (h + n) % cap
      → ring_items (set buf i v) h (suc n) ≡ ring_items buf h n ++ v ∷ []
  ring_items-set buf h zero i v fits hh hn at =
      rw (at, add-zero, mod-eq_of_lt hh, get_or-set_self buf h v blank (omega arith))
  ring_items-set buf h (suc n) i v fits hh hn at =
      ap₂ ◌∷◌ (get_or-set_ne buf i h v blank (rw at (add-mod-ne cap h (suc n) hh (omega arith) hn)))
        (ring_items-set buf ((h + 1) % cap) n i v fits (omega arith) (omega arith)
          (at ∙ step_round h n))

  pub ring_items-append :
      (buf : List A) (h m n : ℕ)
      → h < cap
      → ring_items buf h (m + n) ≡ ring_items buf h m ++ ring_items buf ((h + m) % cap) n
  ring_items-append buf h zero n hh =
      rw (add-zero, mod-eq_of_lt hh) (ap (ring_items buf h) (omega arith))
  ring_items-append buf h (suc m) n hh =
      ap (ring_items buf h) {y = suc (m + n)} (omega arith)
      ∙ ap (◌∷◌ (get_or buf h blank)) (
          ring_items-append buf ((h + 1) % cap) m n (omega arith)
          ∙ ap (λ k. ring_items buf ((h + 1) % cap) m ++ ring_items buf k n) (rw (step_round h m)))

  pub ring_items-drop :
      (buf : List A) (h m n : ℕ)
      → h < cap
      → m ≤ n
      → drop m (ring_items buf h n) ≡ ring_items buf ((h + m) % cap) (n - m)
  ring_items-drop buf h m n hh le =
      let xs = ring_items buf h m in
      let ys = ring_items buf ((h + m) % cap) (n - m) in
      ap (λ k. drop m (ring_items buf h k)) {x = n} {y = m + (n - m)} (omega arith)
      ∙ ap (drop m) (ring_items-append buf h m (n - m) hh)
      ∙ ap (λ k. drop k (xs ++ ys)) (sym (length-ring_items buf h m))
      ∙ drop-append xs ys

  pub ring_items-take :
      (buf : List A) (h m n : ℕ)
      → h < cap
      → m ≤ n
      → take m (ring_items buf h n) ≡ ring_items buf h m
  ring_items-take buf h m n hh le =
      let xs = ring_items buf h m in
      let ys = ring_items buf ((h + m) % cap) (n - m) in
      ap (λ k. take m (ring_items buf h k)) {x = n} {y = m + (n - m)} (omega arith)
      ∙ ap (take m) (ring_items-append buf h m (n - m) hh)
      ∙ ap (λ k. take k (xs ++ ys)) (sym (length-ring_items buf h m))
      ∙ take-append xs ys

  pub ring_items-get :
      (buf : List A) (h n i : ℕ)
      → h < cap
      → i < n
      → get_or (ring_items buf h n) i blank ≡ get_or buf ((h + i) % cap) blank
  ring_items-get buf h zero i hh lt = absurd (omega arith)
  ring_items-get buf h (suc n) zero hh lt =
      ap (λ k. get_or buf k blank)
        (sym (ap (λ k. k % cap) {x = h + 0} {y = h} (omega arith) ∙ mod-eq_of_lt hh))
  ring_items-get buf h (suc n) (suc i) hh lt =
      ring_items-get buf ((h + 1) % cap) n i (omega arith) (omega arith)
      ∙ ap (λ k. get_or buf k blank) (sym (step_round h i))
