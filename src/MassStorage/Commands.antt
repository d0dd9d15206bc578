-- ===== src/MassStorage/Commands.antt =====
-- What a device of the bulk-only transport reads in the commands of drivers/thumbdrive/mass_storage.c.
use entropy_os.Prelude.{
  ℕ, ◌+◌, ◌*◌, ◌/◌, ◌%◌, ◌^◌, ◌<◌, ◌≡◌, refl, ap, ◌∙◌, List, length, get_or, arith,
}
use entropy_os.MassStorage.{from_le32, from_be32, cbw, cdb10}

-- The fields of a command block wrapper, where the transport puts them; the logical block address and the number
-- of blocks stand in the command block with the highest byte first.
pub record Command : Type 0 where
  pub tag : ℕ
  pub transfer_length : ℕ
  pub flags : ℕ
  pub op : ℕ
  pub lba : ℕ
  pub count : ℕ

abbrev pub decode : List ℕ → Command
decode b = record {
  tag = from_le32 4 b;
  transfer_length = from_le32 8 b;
  flags = get_or b 12 0;
  op = get_or b 15 0;
  lba = from_be32 17 b;
  count = 256 * get_or b 22 0 + get_or b 23 0;
}

-- the wrapper's length and signature
abbrev pub IsWrapper : List ℕ → Type 0
IsWrapper b = (length b ≡ 31) × (from_le32 0 b ≡ 0x43425355)

pub cbw-IsWrapper :
    (tag flags op lba count len : ℕ) → IsWrapper (cbw tag flags (cdb10 op lba count) len)
unfolding cbw cdb10
cbw-IsWrapper tag flags op lba count len = (refl, refl)

-- words read back, in either order
le32_back :
    (v : ℕ)
    → v < 2 ^ 32
    → v % 256 + 256 * (v / 256 % 256) + 65536 * (v / 65536 % 256) + 16777216 * (v / 16777216 % 256)
      ≡ v
le32_back v h = omega arith

be32_back :
    (v : ℕ)
    → v < 2 ^ 32
    → 16777216 * (v / 16777216 % 256) + 65536 * (v / 65536 % 256) + 256 * (v / 256 % 256) + v % 256
      ≡ v
be32_back v h = omega arith

be16_back : (v : ℕ) → 256 * (v / 256 % 256) + v % 256 ≡ v % 65536
be16_back v = omega arith

-- What the device reads in a command is what the code put there, but that it sees the number of
-- blocks modulo 65536 only.
pub decode-cbw :
    (tag flags op lba count len : ℕ)
    → tag < 2 ^ 32
    → lba < 2 ^ 32
    → len < 2 ^ 32
    → decode (cbw tag flags (cdb10 op lba count) len) ≡ record {
      tag = tag;
      transfer_length = len;
      flags = flags;
      op = op;
      lba = lba;
      count = count % 65536;
    }
unfolding cbw cdb10
decode-cbw tag flags op lba count len ht hl hn =
    ap (λ (x : ℕ). fields x (decode w).transfer_length (decode w).lba (decode w).count)
      (le32_back tag ht)
    ∙ ap (λ (x : ℕ). fields tag x (decode w).lba (decode w).count) (le32_back len hn)
    ∙ ap (λ (x : ℕ). fields tag len x (decode w).count) (be32_back lba hl)
    ∙ ap (λ (x : ℕ). fields tag len lba x) (be16_back count)
  where
    w : List ℕ
    w = cbw tag flags (cdb10 op lba count) len

    fields : ℕ → ℕ → ℕ → ℕ → Command
    fields t n l c = record {
      tag = t;
      transfer_length = n;
      flags = flags;
      op = op;
      lba = l;
      count = c;
    }
