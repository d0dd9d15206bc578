-- ===== src/MassStorage/Blocks.antt =====
-- The blocks of a disk, and runs of them as one list of bytes.
use entropy_os.Prelude.{
  ℕ, zero, suc, ◌+◌, ◌-◌, ◌*◌, ◌≤◌, ◌<◌, ◌≡◌, refl, ap, ap₂, sym, ◌∙◌, ◌&&◌, List, [], ◌∷◌, ◌++◌,
  length, take, drop, take-append-drop, length-append, drop-drop, ltb, leb, if◌then◌else◌, arith,
}

-- `n` blocks from `lba` on
abbrev pub span : (ℕ → List ℕ) → ℕ → ℕ → List ℕ
span f lba zero = []
span f lba (suc n) = f lba ++ span f (lba + 1) n

-- Blocks of which `n` from `lba` on are replaced by bytes.
abbrev pub stored : ℕ → ℕ → ℕ → List ℕ → (ℕ → List ℕ) → ℕ → List ℕ
stored size lba n bytes f l =
    if leb lba l && ltb l (lba + n) then take size (drop ((l - lba) * size) bytes) else f l

pub span-ext :
    (f g : ℕ → List ℕ) → ((l : ℕ) → f l ≡ g l) → (lba n : ℕ) → span f lba n ≡ span g lba n
span-ext f g h lba zero = refl
span-ext f g h lba (suc n) = ap₂ (λ (x y : List ℕ). x ++ y) (h lba) (span-ext f g h (lba + 1) n)

no_more : (xs : List ℕ) (k : ℕ) → length xs ≤ k → drop k xs ≡ []
no_more [] zero h = refl
no_more [] (suc k) h = refl
no_more (x ∷ xs) zero h = absurd (omega arith)
no_more (x ∷ xs) (suc k) h = no_more xs k (omega arith)

stored_here :
    (size lba n i : ℕ) (bytes : List ℕ) (f : ℕ → List ℕ)
    → i < n
    → stored size lba n bytes f (lba + i) ≡ take size (drop (i * size) bytes)
stored_here size lba n i bytes f h =
    let here : (lba + i) - lba ≡ i = omega arith in ground (arith, here, h)

-- The last `m` of the blocks that were stored are the last bytes.
stored_rest :
    (size lba n i m l : ℕ) (bytes : List ℕ) (f : ℕ → List ℕ)
    → length bytes ≡ n * size
    → i + m ≡ n
    → l ≡ lba + i
    → span (stored size lba n bytes f) l m ≡ drop (i * size) bytes
stored_rest size lba n i zero l bytes f len e at =
    let all : i ≡ n = omega (arith, e) in
    sym (no_more bytes (i * size) (omega (arith, len, ap (λ (k : ℕ). k * size) all)))
stored_rest size lba n i (suc m) l bytes f len e at =
    let after : i * size + size ≡ (i + 1) * size = omega arith in
    let first =
      ap (stored size lba n bytes f) at ∙ stored_here size lba n i bytes f (omega (arith, e)) in
    ap₂ (λ (x y : List ℕ). x ++ y) first
      (stored_rest size lba n (i + 1) m (l + 1) bytes f len (omega (arith, e)) (omega (arith, at)))
    ∙ ap (λ (ys : List ℕ). take size (drop (i * size) bytes) ++ ys)
        (sym (drop-drop bytes (i * size) size ∙ ap (λ (k : ℕ). drop k bytes) after))
    ∙ take-append-drop size (drop (i * size) bytes)

pub length-span :
    (size : ℕ) (f : ℕ → List ℕ)
    → ((l : ℕ) → length (f l) ≡ size)
    → (lba n : ℕ) → length (span f lba n) ≡ n * size
length-span size f h lba zero = omega arith
length-span size f h lba (suc n) =
    length-append (f lba) (span f (lba + 1) n)
    ∙ omega (arith, h lba, length-span size f h (lba + 1) n)

-- What was stored is what a run of the same blocks holds.
pub span-stored :
    (size lba n : ℕ) (bytes : List ℕ) (f : ℕ → List ℕ)
    → length bytes ≡ n * size
    → span (stored size lba n bytes f) lba n ≡ bytes
span-stored size lba n bytes f len =
    let none_before : 0 * size ≡ 0 = omega arith in
    stored_rest size lba n 0 n lba bytes f len (omega arith) (omega arith)
    ∙ ap (λ (k : ℕ). drop k bytes) none_before
