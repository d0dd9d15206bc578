-- ===== src/Prelude/Slices.antt =====
-- Parts of lists: what `take` and `drop` do one behind the other and to lists joined.
use Prim.Native.Nat.{ℕ, zero, suc, ◌+◌, ◌-◌, ◌≤◌}
use mathlib.Core.Path.{◌≡◌, refl, ap, sym, ◌∙◌}
use mathlib.Core.List.{List, [], ◌∷◌, ◌++◌}
use native.Mathlib.Omega.{arith}
use entropy_os.Prelude.Lists.{length, take, drop}

module _ {ℓ} {A : Type ℓ} where
  drop-nil : (n : ℕ) → drop {A = A} n [] ≡ []
  drop-nil zero = refl
  drop-nil (suc n) = refl

  take-nil : (n : ℕ) → take {A = A} n [] ≡ []
  take-nil zero = refl
  take-nil (suc n) = refl

  pub drop-append : (ys zs : List A) (m : ℕ) → drop (length ys + m) (ys ++ zs) ≡ drop m zs
  drop-append [] zs m = let none : 0 + m ≡ m = omega arith in ap (λ (k : ℕ). drop k zs) none
  drop-append (y ∷ ys) zs m =
      let next : suc (length ys) + m ≡ suc (length ys + m) = omega arith in
      ap (λ (k : ℕ). drop k (y ∷ (ys ++ zs))) next ∙ drop-append ys zs m

  pub drop-drop : (xs : List A) (n m : ℕ) → drop m (drop n xs) ≡ drop (n + m) xs
  drop-drop xs zero m = let none : m ≡ 0 + m = omega arith in ap (λ (k : ℕ). drop k xs) none
  drop-drop [] (suc n) zero = sym (drop-nil (suc n + 0))
  drop-drop [] (suc n) (suc m) = sym (drop-nil (suc n + suc m))
  drop-drop (x ∷ xs) (suc n) m =
      let next : suc (n + m) ≡ suc n + m = omega arith in
      drop-drop xs n m ∙ ap (λ (k : ℕ). drop k (x ∷ xs)) next

  pub drop-take : (xs : List A) (m n : ℕ) → drop m (take n xs) ≡ take (n - m) (drop m xs)
  drop-take xs zero n = let all : n ≡ n - 0 = omega arith in ap (λ (k : ℕ). take k xs) all
  drop-take xs (suc m) zero =
      let none : 0 ≡ 0 - suc m = omega arith in ap (λ (k : ℕ). take k (drop (suc m) xs)) none
  drop-take [] (suc m) (suc n) = sym (take-nil (suc n - suc m))
  drop-take (x ∷ xs) (suc m) (suc n) =
      let next : n - m ≡ suc n - suc m = omega arith in
      drop-take xs m n ∙ ap (λ (k : ℕ). take k (drop m xs)) next

  pub take_append :
      (ys zs : List A) (n : ℕ) → length ys ≤ n → take n (ys ++ zs) ≡ ys ++ take (n - length ys) zs
  take_append [] zs n h = let all : n ≡ n - 0 = omega arith in ap (λ (k : ℕ). take k zs) all
  take_append (y ∷ ys) zs zero h = absurd (omega arith)
  take_append (y ∷ ys) zs (suc n) h =
      let next : n - length ys ≡ suc n - suc (length ys) = omega arith in
      ap (λ ws. y ∷ ws) (take_append ys zs n (omega arith) ∙ ap (λ (k : ℕ). ys ++ take k zs) next)
