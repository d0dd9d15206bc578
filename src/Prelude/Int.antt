-- ===== src/Prelude/Int.antt =====
-- Signed integers over the native numbers, for the C functions that return or take an `int`.
use Prim.Native.Nat.{ℕ, suc, ◌+◌, ◌-◌, ◌*◌, ◌≤◌}
use mathlib.Core.Bool.{Bool}
use entropy_os.Prelude.Tests.{ltb, if◌then◌else◌}

-- `negsuc n` is -(n + 1).
pub data ℤ : Type 0 where
  pos : ℕ → ℤ
  negsuc : ℕ → ℤ

-- how far an integer lies above 0, and how far below
abbrev pub above : ℤ → ℕ
above (pos n) = n
above (negsuc n) = 0

abbrev pub below : ℤ → ℕ
below (pos n) = 0
below (negsuc n) = suc n

-- the difference of two numbers
abbrev pub minus : ℕ → ℕ → ℤ
minus a b = if ltb a b then negsuc (b - a - 1) else pos (a - b)

infixl 65 ◌+ℤ◌
abbrev pub ◌+ℤ◌ : ℤ → ℤ → ℤ
x +ℤ y = minus (above x + above y) (below x + below y)

infix 50 ◌≤ℤ◌
abbrev pub ◌≤ℤ◌ : ℤ → ℤ → Type 0
x ≤ℤ y = above x + below y ≤ above y + below x

abbrev pub ltℤ : ℤ → ℤ → Bool
ltℤ x y = ltb (above x + below y) (above y + below x)

-- An integer cut to an interval, from above first, as the code does.
abbrev pub clamp : ℤ → ℤ → ℤ → ℤ
clamp low high x = let y = if ltℤ high x then high else x in if ltℤ y low then low else y

infixl 65 ◌-ℤ◌
abbrev pub ◌-ℤ◌ : ℤ → ℤ → ℤ
x -ℤ y = minus (above x + below y) (below x + above y)

-- a number times an integer
abbrev pub times : ℕ → ℤ → ℤ
times k x = minus (k * above x) (k * below x)

-- The same cut, from below first.
abbrev pub clamp_up : ℤ → ℤ → ℤ → ℤ
clamp_up low high x = let y = if ltℤ x low then low else x in if ltℤ high y then high else y
