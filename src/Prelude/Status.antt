-- ===== src/Prelude/Status.antt =====
-- Steps that may fail on a state that they change all the same: `true` is the result 0, and `false`
-- the result -1, with which the function that makes the step returns at once.
use mathlib.Core.Path.{◌≡◌, refl}
use mathlib.Core.Bool.{Bool, true, false}

module _ {ℓ} {S : Type ℓ} where
  -- A step that succeeds hands the state to the next one.
  infixl 5 ◌>>=◌
  abbrev pub ◌>>=◌ : Bool × S → (S → Bool × S) → Bool × S
  r >>= k = elim r.0 [ true ↦ k r.1 | false ↦ (false, r.1) ]

  -- A chain of steps that succeeded did so step by step.
  pub bind_true :
      (r : Bool × S) (k : S → Bool × S) {s' : S}
      → (r >>= k) ≡ (true, s')
      → (s1 : S) × (r ≡ (true, s1)) × (k s1 ≡ (true, s'))
  bind_true (true, s1) k h = (s1, refl, h)
  bind_true (false, s1) k h = cc

  pub bind_assoc : (r : Bool × S) (k m : S → Bool × S) → (r >>= k >>= m) ≡ (r >>= λ s. k s >>= m)
  bind_assoc (true, s1) k m = refl
  bind_assoc (false, s1) k m = refl

  -- A function that succeeded passed its guard.
  pub guard_true :
      (b : Bool) (r : Bool × S) (s : S) {s' : S}
      → ◌≡◌ {A = Bool × S} (elim b [ false ↦ (false, s) | true ↦ r ]) (true, s')
      → (b ≡ true) × (r ≡ (true, s'))
  guard_true true r s e = (refl, e)
  guard_true false r s e = cc

  pub guard_false :
      (b : Bool) (r : Bool × S) (s : S) {s' : S}
      → ◌≡◌ {A = Bool × S} (elim b [ true ↦ (false, s) | false ↦ r ]) (true, s')
      → (b ≡ false) × (r ≡ (true, s'))
  guard_false false r s e = (refl, e)
  guard_false true r s e = cc
