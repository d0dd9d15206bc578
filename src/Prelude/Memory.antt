-- ===== src/Prelude/Memory.antt =====
-- Memory as a function from offsets to bytes, little-endian words in it, and copies.
use Prim.Native.Nat.{ℕ, zero, suc, ◌+◌, ◌-◌, ◌*◌, ◌/◌, ◌%◌, ◌^◌, ◌≤◌, ◌<◌}
use mathlib.Core.Path.{◌≡◌}
use mathlib.Core.Logic.{◌⊎◌}
use mathlib.Core.Bool.{Bool, true, false, ◌&&◌}
use mathlib.Core.List.{List, [], ◌∷◌}
use native.Mathlib.Omega.{arith}
use entropy_os.Prelude.Tests.{ltb, leb, ◌==◌, if◌then◌else◌}

abbrev pub Bytes : Type 0
Bytes = ℕ → ℕ

abbrev pub zeros : Bytes
zeros _ = 0

-- `dst[off .. off + n) = src[0 .. n)`
unfoldable pub overlay : Bytes → ℕ → ℕ → Bytes → Bytes
overlay dst off n src k = if leb off k && ltb k (off + n) then src (k - off) else dst k

unfoldable pub put8 : Bytes → ℕ → ℕ → Bytes
put8 b off v k = if k == off then v % 256 else b k

unfoldable pub put16 : Bytes → ℕ → ℕ → Bytes
put16 b off v k = if k == off then v % 256 else if k == off + 1 then v / 256 % 256 else b k

unfoldable pub put32 : Bytes → ℕ → ℕ → Bytes
put32 b off v k =
    if k == off
    then v % 256
    else if k == off + 1
    then v / 256 % 256
    else if k == off + 2
    then v / 65536 % 256
    else if k == off + 3
    then v / 16777216 % 256
    else b k

unfoldable pub get16 : Bytes → ℕ → ℕ
get16 b off = b off + 256 * b (off + 1)

unfoldable pub get32 : Bytes → ℕ → ℕ
get32 b off = b off + 256 * b (off + 1) + 65536 * b (off + 2) + 16777216 * b (off + 3)

-- the `n` bytes from an offset on
unfoldable pub bytes_at : Bytes → ℕ → ℕ → List ℕ
bytes_at b off zero = []
bytes_at b off (suc n) = b off ∷ bytes_at b (off + 1) n

-- `memcpy` of a list of bytes to an offset
unfoldable pub put_bytes : Bytes → ℕ → List ℕ → Bytes
put_bytes b off [] = b
put_bytes b off (x ∷ xs) = put8 (put_bytes b (off + 1) xs) off x

-- `memcmp(…) == 0`
unfoldable pub same_bytes : List ℕ → List ℕ → Bool
same_bytes [] [] = true
same_bytes [] (y ∷ ys) = false
same_bytes (x ∷ xs) [] = false
same_bytes (x ∷ xs) (y ∷ ys) = (x == y) && same_bytes xs ys

pub get32-put32 : (b : Bytes) (off v : ℕ) → get32 (put32 b off v) off ≡ v % 2 ^ 32
unfolding get32 put32
get32-put32 b off v = ground arith

pub put32_outside : (b : Bytes) (off v k : ℕ) → (k < off) ⊎ (off + 4 ≤ k) → put32 b off v k ≡ b k
unfolding put32
put32_outside b off v k h = ground arith

pub get32-put32_ne :
    (b : Bytes) (off v k : ℕ) → (k + 4 ≤ off) ⊎ (off + 4 ≤ k) → get32 (put32 b off v) k ≡ get32 b k
unfolding get32
get32-put32_ne b off v k h = ground (
  arith,
  put32_outside b off v k,
  put32_outside b off v (k + 1),
  put32_outside b off v (k + 2),
  put32_outside b off v (k + 3),
)
