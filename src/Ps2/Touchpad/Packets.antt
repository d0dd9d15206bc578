-- ===== src/Ps2/Touchpad/Packets.antt =====
-- The loop of `touchpad_poll` in drivers/ps2/ps2.c, and the queue it reads.
use entropy_os.Prelude.{
  ℕ, zero, suc, ◌+◌, ◌-◌, ◌*◌, ◌%◌, ◌<◌, ◌≡◌, ap, ◌∙◌, Option, some, List, [], ◌∷◌, length, arith,
}
use entropy_os.Ps2.Ring.{Ring, put_back}
use entropy_os.Ps2.Ring.Queue.{
  Holds, without_first, without_first-Holds, ring_pop-first, ring_pop-empty,
}
use entropy_os.Ps2.Touchpad.{
  Motion, add_packet, Fetch, first, second, third, next_packet, read_packets,
}

-- The bytes by threes.
abbrev pub packets : List ℕ → Motion → Motion
packets (b0 ∷ b1 ∷ b2 ∷ xs) m = packets xs (add_packet b0 b1 b2 m)
packets xs m = m

-- what three divides them with
abbrev pub leftover : List ℕ → List ℕ
leftover (b0 ∷ b1 ∷ b2 ∷ xs) = leftover xs
leftover xs = xs

next_packet-none : (r : Ring) → Holds r [] → next_packet r ≡ Fetch.short r
unfolding next_packet
next_packet-none r h = ap (first r) (ring_pop-empty r h)

-- Bytes that were taken are in the ring still.
put_back_one : (r : Ring) → r.tail < 64 → put_back 1 (without_first r) ≡ r
unfolding put_back
put_back_one r h =
    let e : ((r.tail + 1) % 64 + 64 - 1) % 64 ≡ r.tail = omega arith in
    ap (λ (t : ℕ). record r { tail = t }) e

put_back_two : (r : Ring) → r.tail < 64 → put_back 2 (without_first (without_first r)) ≡ r
unfolding put_back
put_back_two r h =
    let e : (((r.tail + 1) % 64 + 1) % 64 + 64 - 2) % 64 ≡ r.tail = omega arith in
    ap (λ (t : ℕ). record r { tail = t }) e

next_packet-one : (r : Ring) (x : ℕ) → Holds r (x ∷ []) → next_packet r ≡ Fetch.short r
unfolding next_packet
next_packet-one r x h =
    let r1 = without_first r in
    ap (first r) (ring_pop-first r x [] h)
    ∙ ap (second x r1) (ring_pop-empty r1 (without_first-Holds r x [] h))
    ∙ ap Fetch.short (put_back_one r h.tail)

next_packet-two : (r : Ring) (x y : ℕ) → Holds r (x ∷ y ∷ []) → next_packet r ≡ Fetch.short r
unfolding next_packet
next_packet-two r x y h =
    let h1 = without_first-Holds r x (y ∷ []) h in
    let r1 = without_first r in
    let r2 = without_first r1 in
    ap (first r) (ring_pop-first r x (y ∷ []) h)
    ∙ ap (second x r1) (ring_pop-first r1 y [] h1)
    ∙ ap (third x y r2) (ring_pop-empty r2 (without_first-Holds r1 y [] h1))
    ∙ ap Fetch.short (put_back_two r h.tail)

next_packet-three :
    (r : Ring) (x y z : ℕ) (xs : List ℕ)
    → Holds r (x ∷ y ∷ z ∷ xs)
    → next_packet r ≡ Fetch.packet x y z (without_first (without_first (without_first r)))
unfolding next_packet
next_packet-three r x y z xs h =
    let h1 = without_first-Holds r x (y ∷ z ∷ xs) h in
    let r1 = without_first r in
    let h2 = without_first-Holds r1 y (z ∷ xs) h1 in
    let r2 = without_first r1 in
    ap (first r) (ring_pop-first r x (y ∷ z ∷ xs) h)
    ∙ ap (second x r1) (ring_pop-first r1 y (z ∷ xs) h1)
    ∙ ap (third x y r2) (ring_pop-first r2 z xs h2)

-- what the loop does once it has tried to take a packet
abbrev follow : ℕ → Motion → Fetch → Option (Ring × Motion)
follow n m f = elim f [
  | Fetch.short r' ↦ some (r', m)
  | Fetch.packet b0 b1 b2 r' ↦ read_packets n r' (add_packet b0 b1 b2 m)
]

-- The outcome of the loop.
pub record Packeted (xs : List ℕ) (m : Motion) (out : Option (Ring × Motion)) : Type 0 where
  pub ring : Ring
  pub result : out ≡ some (ring, packets xs m)
  pub left : Holds ring (leftover xs)

-- With fuel for a third of the bytes, the loop ends: it has added up the bytes by threes, and
-- one or two bytes that are left over are back in the ring.
pub read_packets-Packeted :
    (n : ℕ) (r : Ring) (xs : List ℕ) (m : Motion)
    → length xs < 3 * n
    → Holds r xs
    → Packeted xs m (read_packets n r m)
unfolding read_packets
read_packets-Packeted zero r xs m fuel h = absurd (omega arith)
read_packets-Packeted (suc n) r [] m fuel h = record {
  ring = r;
  result = ap (follow n m) (next_packet-none r h);
  left = h;
}
read_packets-Packeted (suc n) r (x ∷ []) m fuel h = record {
  ring = r;
  result = ap (follow n m) (next_packet-one r x h);
  left = h;
}
read_packets-Packeted (suc n) r (x ∷ y ∷ []) m fuel h = record {
  ring = r;
  result = ap (follow n m) (next_packet-two r x y h);
  left = h;
}
read_packets-Packeted (suc n) r (x ∷ y ∷ z ∷ xs) m fuel h =
    let r1 = without_first r in
    let r2 = without_first r1 in
    let h1 = without_first-Holds r x (y ∷ z ∷ xs) h in
    let h2 = without_first-Holds r1 y (z ∷ xs) h1 in
    let h3 = without_first-Holds r2 z xs h2 in
    let rest =
      read_packets-Packeted n (without_first r2) xs (add_packet x y z m) (omega arith) h3 in
    record {
      ring = rest.ring;
      result = ap (follow n m) (next_packet-three r x y z xs h) ∙ rest.result;
      left = rest.left;
    }
