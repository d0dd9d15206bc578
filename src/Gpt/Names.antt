-- ===== src/Gpt/Names.antt =====
-- A name of a partition that fs/gpt/gpt.c turns into 16-bit units reads back.
use entropy_os.Prelude.{
  ℕ, zero, suc, ◌+◌, ◌%◌, ◌≤◌, ◌<◌, ◌≡◌, ◌≢◌, refl, ap, subst, ◌∙◌, Bool, true, false, not, ◌||◌,
  some, List, [], ◌∷◌, length, length-set, set, drop, same_bytes, get_elem?, get_elem?-set_self,
  get_elem?-set_ne, ltb, leb, ==_false, if◌then◌else◌, if-elim, arith,
}
use entropy_os.Gpt.Data.{
  max_partitions, Entry, Gpt, zero_guid, generate_guid, widen, to_units, from_units,
}
use entropy_os.Gpt.Operations.{
  Info, got, refused, new_entry, info_from, info_of, get_partition, add_partition,
}
use entropy_os.Gpt.Verify.{IsSized}
use entropy_os.Gpt.Changes.{Added, add_partition-Added}

-- The bytes of a C string before its NUL.
abbrev pub IsText : List ℕ → Type 0
IsText [] = Unit
IsText (x ∷ xs) = (1 ≤ x) × (x < 256) × IsText xs

to_units_below :
    (xs : List ℕ) (i : ℕ) (out : List ℕ) (j : ℕ)
    → j < i
    → get_elem? (to_units xs i out) j ≡ get_elem? out j
unfolding to_units
to_units_below [] i out j h = get_elem?-set_ne out 0 (omega arith)
to_units_below (x ∷ xs) i out j h =
    if-elim (λ (ys : List ℕ). get_elem? ys j ≡ get_elem? out j) (ltb i 35)
      (λ e.
        to_units_below xs (i + 1) (set out i (widen x)) j (omega arith)
        ∙ get_elem?-set_ne out (widen x) (omega arith))
      (λ e. get_elem?-set_ne out 0 (omega arith))

drop-get_elem? :
    (xs : List ℕ) (i : ℕ) {x : ℕ} → get_elem? xs i ≡ some x → drop i xs ≡ x ∷ drop (suc i) xs
drop-get_elem? [] i h = cc
drop-get_elem? (y ∷ xs) zero h = ground arith
drop-get_elem? (y ∷ xs) (suc i) h = drop-get_elem? xs i h

widen_back : (x : ℕ) → x < 256 → widen x % 256 ≡ x
widen_back x h = ground arith

widen_pos : (x : ℕ) → 1 ≤ x → widen x ≢ 0
widen_pos x h = ground arith

from_units_cons :
    (n u : ℕ) (us xs : List ℕ)
    → u ≢ 0
    → from_units n us ≡ some xs
    → from_units (suc n) (u ∷ us) ≡ some (u % 256 ∷ xs)
unfolding from_units
from_units_cons n u us xs ne h = rw (==_false ne, h) refl

from_units-to_units :
    (xs : List ℕ) (i n : ℕ) (out : List ℕ)
    → IsText xs
    → i + length xs ≤ 35
    → length out ≡ 36
    → length xs < n
    → from_units n (drop i (to_units xs i out)) ≡ some xs
unfolding from_units to_units
from_units-to_units [] i zero out t fits long more = absurd (omega arith)
from_units-to_units [] i (suc n) out t fits long more =
    rw (drop-get_elem? (set out i 0) i (get_elem?-set_self out i 0 (omega (arith, long)))) refl
from_units-to_units (x ∷ xs) i zero out t fits long more = absurd (omega arith)
from_units-to_units (x ∷ xs) i (suc n) out (pos, byte, t) fits long more =
    let r = to_units xs (i + 1) (set out i (widen x)) in
    let here : ltb i 35 ≡ true = ground arith in
    let next : i + 1 ≡ suc i = omega arith in
    let head : get_elem? r i ≡ some (widen x) =
      to_units_below xs (i + 1) (set out i (widen x)) i (omega arith)
      ∙ get_elem?-set_self out i (widen x) (omega (arith, long)) in
    let tail : from_units n (drop (suc i) r) ≡ some xs =
      subst (λ (k : ℕ). from_units n (drop k r) ≡ some xs) next
        (from_units-to_units xs (i + 1) n (set out i (widen x)) t (omega arith)
          (length-set out i (widen x) ∙ long) (omega arith)) in
    ap (λ (b : Bool). from_units (suc n) (drop i (if b then r else set out i 0))) here
    ∙ ap (from_units (suc n)) (drop-get_elem? r i head)
    ∙ from_units_cons n (widen x) (drop (suc i) r) xs (widen_pos x pos) tail
    ∙ ap (λ (y : ℕ). some (y ∷ xs)) (widen_back x byte)

get_elem?_lt : (es : List Entry) (i : ℕ) {e : Entry} → get_elem? es i ≡ some e → i < length es
get_elem?_lt [] i h = cc
get_elem?_lt (x ∷ es) zero h = omega arith
get_elem?_lt (x ∷ es) (suc i) h = omega (arith, get_elem?_lt es i h)

-- An array as the code declares it: 128 entries, each with 36 units for the name.
pub record IsArray (es : List Entry) : Type 0 where
  pub count : length es ≡ max_partitions
  pub units : (i : ℕ) {e : Entry} → get_elem? es i ≡ some e → length e.name ≡ 36

abbrev pub text_info : ℕ → ℕ → List ℕ → List ℕ → List ℕ → Info
text_info first last type_guid guid name = record {
  type_guid = type_guid;
  partition_guid = guid;
  first_lba = first;
  last_lba = last;
  attributes = 0;
  name = name;
}

get_partition_at :
    (i : ℕ) (g : Gpt)
    → g.initialized ≡ true
    → i < max_partitions
    → get_partition i g ≡ info_of (get_elem? g.partitions i)
unfolding get_partition
get_partition_at i g on lt =
    let passed : (not g.initialized || leb max_partitions i) ≡ false = ground arith in
    ap (λ (b : Bool). if b then refused else info_of (get_elem? g.partitions i)) passed

info_of_text :
    (first last : ℕ) (type_guid guid name : List ℕ) (old : Entry)
    → same_bytes type_guid zero_guid ≡ false
    → IsText name
    → length name ≤ 35
    → length old.name ≡ 36
    → info_of (some (new_entry first last type_guid guid (some name) old))
      ≡ got (text_info first last type_guid guid name)
unfolding info_of info_from new_entry
info_of_text first last type_guid guid name old used text short units =
    rw (used, from_units-to_units name 0 72 old.name text (omega arith) units (omega arith)) refl

-- After `gpt_add_partition` has succeeded with a name of at most 35 bytes and a type that is not the
-- zero GUID, there is an index, below 128, for which `gpt_get_partition` gives just that
-- partition, with its name.
pub get_partition-add_partition :
    (first last : ℕ) (type_guid name : List ℕ) (g : Gpt) {g' : Gpt}
    → IsSized g.header
    → IsArray g.partitions
    → same_bytes type_guid zero_guid ≡ false
    → IsText name
    → length name ≤ 35
    → add_partition first last type_guid (some name) g ≡ (true, g')
    → (i : ℕ) × (i < max_partitions)
      × (get_partition i g' ≡ got (text_info first last type_guid (generate_guid g.seed).0 name))
get_partition-add_partition first last type_guid name g {g'} s array used text short e =
    let a = add_partition-Added first last type_guid (some name) g s e in
    let lt = get_elem?_lt g.partitions a.index a.was in
    (a.index, omega (arith, lt, array.count), here a lt)
  where
    here :
        (a : Added first last type_guid (some name) g g')
        → a.index < length g.partitions
        → get_partition a.index g'
          ≡ got (text_info first last type_guid (generate_guid g.seed).0 name)
    here a lt =
        get_partition_at a.index g' a.stored.initialized (omega (arith, lt, array.count))
        ∙ ap (λ (es : List Entry). info_of (get_elem? es a.index)) a.stored.partitions
        ∙ ap info_of (
            get_elem?-set_self g.partitions a.index
              (new_entry first last type_guid (generate_guid g.seed).0 (some name) a.old) lt)
        ∙ info_of_text first last type_guid (generate_guid g.seed).0 name a.old used text short
            (array.units a.index a.was)
