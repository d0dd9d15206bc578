-- ===== src/Fat32/Name.antt =====
-- fs/fat32/fat32.c: 8.3 names. A C string is the list of its characters, which has no NUL.
use entropy_os.Prelude.{
  ℕ, zero, suc, ◌+◌, ◌-◌, ◌&&◌, not, List, [], ◌∷◌, ltb, leb, ◌==◌, if◌then◌else◌, set, get_or,
  replicate,
}

abbrev pub space : ℕ
space = b' '

abbrev pub dot : ℕ
dot = b'.'

-- the letters 'a' to 'z' become capitals
abbrev pub upper : ℕ → ℕ
upper x = if leb b'a' x && leb x b'z' then x - 32 else x

-- the first loop of `name_to_fat`, with what is left of the name
unfoldable pub base_from : List ℕ → ℕ → List ℕ → List ℕ × List ℕ
base_from [] j out = (out, [])
base_from (x ∷ xs) j out =
    let rest = base_from xs (j + 1) (set out j (upper x)) in
    if not (x == dot) && ltb j 8 then rest else (out, x ∷ xs)

-- the second loop
unfoldable pub ext_from : List ℕ → ℕ → List ℕ → List ℕ
ext_from [] j out = out
ext_from (x ∷ xs) j out =
    let rest = ext_from xs (j + 1) (set out j (upper x)) in if ltb j 11 then rest else out

-- the part behind the first loop
unfoldable pub after_base : List ℕ → List ℕ → List ℕ
after_base out [] = out
after_base out (x ∷ xs) = if x == dot then ext_from xs 8 out else out

-- `name_to_fat`
unfoldable pub name_to_fat : List ℕ → List ℕ
name_to_fat name = let (out, rest) = base_from name 0 (replicate 11 space) in after_base out rest

-- the loops of `fat32_list_files` that copy a part of the name up to a space, with `n` places left
unfoldable pub copy_part : ℕ → ℕ → List ℕ → List ℕ
copy_part zero j name = []
copy_part (suc n) j name =
    let x = get_or name j space in
    let rest = copy_part n (j + 1) name in if x == space then [] else x ∷ rest

append_part : List ℕ → List ℕ → List ℕ
append_part [] ys = ys
append_part (x ∷ xs) ys = x ∷ append_part xs ys

-- the name that `fat32_list_files` hands to its callback
unfoldable pub shown_name : List ℕ → List ℕ
unfolding append_part
shown_name name =
    append_part (copy_part 8 0 name)
      (if get_or name 8 space == space then [] else dot ∷ copy_part 3 8 name)
