-- ===== src/Ps2/Keyboard/Direct.antt =====
-- The poll of drivers/ps2/keyboard_ps2.c, which reads the ports with no ring between.
use entropy_os.Prelude.{
  ℕ, zero, suc, ◌%◌, ◌<◌, ◌≡◌, refl, ap, sym, subst, ◌∙◌, Bool, true, false, Option, none, some,
  List, [], ◌∷◌, length, if◌then◌else◌, arith,
}
use entropy_os.Ps2.Controller.{Controller, data_port, status_port}
use entropy_os.Ps2.Controller.Incoming.{IsQueue}
use entropy_os.Ps2.Keyboard.{is_skipped, direct_poll}
use entropy_os.Ps2.Keyboard.Codes.{first_code}

-- the bytes that wait, with no regard to where they come from
abbrev pub bytes_of : List (Bool × ℕ) → List ℕ
bytes_of [] = []
bytes_of ((aux, byte) ∷ ps) = byte ∷ bytes_of ps

module _ {c : Controller} (law : IsQueue c) where
  pub record Direct (found : Option ℕ × List ℕ) (out : Option (Option ℕ × c.State)) : Type 0 where
    pub after : c.State
    pub result : out ≡ some (found.0, after)
    pub left : bytes_of (law.pending after) ≡ found.1

  either-Direct :
      (skip : Bool) (found found' : Option ℕ × List ℕ) (out out' : Option (Option ℕ × c.State))
      → Direct found out
      → Direct found' out'
      → Direct (if skip then found else found') (if skip then out else out')
  either-Direct true found found' out out' d d' = d
  either-Direct false found found' out out' d d' = d'

  abbrev when :
      Bool → Option (Option ℕ × c.State) → Option (Option ℕ × c.State) → Option (Option ℕ × c.State)
  when b x y = elim b [ false ↦ x | true ↦ y ]

  -- On a controller as documented, with more fuel than bytes wait, the poll ends, and returns the first make code among all of
  -- them, so that a byte of the mouse counts for a key; it takes no byte after that one.
  pub direct_poll-Direct :
      (n : ℕ) (hw : c.State) (ps : List (Bool × ℕ))
      → length ps < n
      → law.pending hw ≡ ps
      → Direct (first_code (bytes_of ps)) (direct_poll c n hw)
  unfolding direct_poll
  direct_poll-Direct zero hw ps fuel w = absurd (omega arith)
  direct_poll-Direct (suc n) hw [] fuel w =
      let hw1 = (c.inb status_port hw).1 in
      let (b, hw2) = c.inb data_port hw1 in
      subst
        (λ (r : Bool).
          Direct (none, [])
            (when r (some (none, hw1))
              (if is_skipped b then direct_poll c n hw2 else some (some (b % 128), hw2))))
        (sym (law.status_empty hw w))
        (record { after = hw1; result = refl; left = ap bytes_of (law.status_keeps hw ∙ w) })
  direct_poll-Direct (suc n) hw ((aux, byte) ∷ ps) fuel w =
      let hw1 = (c.inb status_port hw).1 in
      let r2 = c.inb data_port hw1 in
      let (ready, _) = law.status_ready hw aux byte ps w in
      let (same, w2) = law.data_takes hw1 aux byte ps (law.status_keeps hw ∙ w) in
      let found = first_code (bytes_of (((aux, byte) ∷ ps))) in
      let d =
        either-Direct (is_skipped byte) (first_code (bytes_of ps)) (some (byte % 128), bytes_of ps)
          (direct_poll c n r2.1) (some (some (byte % 128), r2.1))
          (direct_poll-Direct n r2.1 ps (omega arith) w2)
          (record { after = r2.1; result = refl; left = ap bytes_of w2 }) in
      let d2 =
        subst
          (λ (b : ℕ).
            Direct found
              (if is_skipped b then direct_poll c n r2.1 else some (some (b % 128), r2.1)))
          (sym same) d in
      subst
        (λ (r : Bool). Direct found (
          when r (some (none, hw1))
            (if is_skipped r2.0 then direct_poll c n r2.1 else some (some (r2.0 % 128), r2.1))))
        (sym ready) d2
