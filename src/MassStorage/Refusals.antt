-- ===== src/MassStorage/Refusals.antt =====
-- When the operations of drivers/thumbdrive/mass_storage.c report success.
use entropy_os.Prelude.{
  ℕ, ◌/◌, ◌^◌, ◌≤◌, ◌<◌, ◌≡◌, refl, ap, subst, sym, ◌∙◌, ◌⊎◌, inl, inr, Bool, true, false, not,
  Option, none, some, List, [], ◌==◌, if-elim, arith,
}
use entropy_os.MassStorage.{
  UsbHost, Disk, cbw, cdb10, from_le32, csw_valid, send_cbw, recv_csw, recv_data, data_length,
  read_transfers, ms_read_blocks,
}

-- What a status must be: 13 bytes at least, with the signature and the tag of the command. The byte
-- that says whether the command succeeded is not asked for.
pub record IsStatus (expected : ℕ) (ba : List ℕ × ℕ) : Type 0 where
  pub room : 13 ≤ ba.1
  pub signature : from_le32 0 ba.0 ≡ 0x53425355
  pub tag : from_le32 4 ba.0 ≡ expected

csw_valid-IsStatus : (tag : ℕ) (ba : List ℕ × ℕ) → csw_valid tag ba ≡ true → IsStatus tag ba
unfolding csw_valid
csw_valid-IsStatus tag ba h = record {
  room = ground (arith, h);
  signature = ground (arith, h);
  tag = ground (arith, h);
}

none-some :
    {A : Type 0} {S : Type 0} (s s' : S) (a : A) → ◌≡◌ {A = Option A × S} (none, s) (some a, s') → ⊥
none-some {A} {S} s s' a h =
    subst (λ (o : Option A). elim o [ none ↦ Unit | some x ↦ ⊥ ]) (ap (λ (x : Option A × S). x.0) h)
      tt

-- A chain of calls that ended well got past each of them.
through :
    {A : Type 0} {S : Type 0} (ok : Bool) (s s' : S) (rest : Option A × S) (a : A)
    → (elim ok as (λ x. Option A × S) [ false ↦ (none, s) | true ↦ rest ]) ≡ (some a, s')
    → (ok ≡ true) × (rest ≡ (some a, s'))
through true s s' rest a h = (refl, h)
through false s s' rest a h = absurd (none-some s s' a h)

through_some :
    {A B : Type 0} {S : Type 0} (o : Option B) (s s' : S) (rest : B → Option A × S) (a : A)
    → (elim o as (λ x. Option A × S) [ none ↦ (none, s) | some b ↦ rest b ]) ≡ (some a, s')
    → (b : B) × (o ≡ some b) × (rest b ≡ (some a, s'))
through_some (some b) s s' rest a h = (b, refl, h)
through_some none s s' rest a h = absurd (none-some s s' a h)

valid-IsStatus :
    (tag : ℕ) (o : Option (List ℕ × ℕ))
    → (elim o [ none ↦ false | some ba ↦ csw_valid tag ba ]) ≡ true
    → (ba : List ℕ × ℕ) × (o ≡ some ba) × IsStatus tag ba
valid-IsStatus tag none h = absurd (grind (arith, h))
valid-IsStatus tag (some ba) h = (ba, refl, csw_valid-IsStatus tag ba h)

module _ (u : UsbHost) (lba count : ℕ) (d : Disk u) where
  abbrev len : ℕ
  len = data_length u count d

  -- the states of the host after the command, and after the data
  abbrev host1 : u.State
  host1 = (u.bulk_out d.ep_out (cbw 0xA5 0x80 (cdb10 0x28 lba count) len) d.host).1

  abbrev host2 : u.State
  host2 = (u.bulk_in d.ep_in len host1).1

  -- The three transfers of a read that succeeded.
  pub record Transferred (buf : List ℕ) : Type 0 where
    pub sent : (u.bulk_out d.ep_out (cbw 0xA5 0x80 (cdb10 0x28 lba count) len) d.host).0 ≡ true
    pub actual : ℕ
    pub got : (u.bulk_in d.ep_in len host1).0 ≡ some (buf, actual)
    pub status : List ℕ × ℕ
    pub answered : (u.bulk_in d.ep_in 13 host2).0 ≡ some status
    pub valid : IsStatus 0xA5 status

  read_transfers-Transferred :
      (buf : List ℕ) (d' : Disk u) → read_transfers u lba count d ≡ (some buf, d') → Transferred buf
  unfolding read_transfers send_cbw recv_data recv_csw cdb10
  read_transfers-Transferred buf d' h =
      let d1 : Disk u = record d { host = host1 } in
      let d2 : Disk u = record d { host = host2 } in
      let d3 : Disk u = record d { host = (u.bulk_in d.ep_in 13 host2).1 } in
      let ok : Bool = elim (u.bulk_in d.ep_in 13 host2).0 [
        | none ↦ false
        | some ba ↦ csw_valid 0xA5 ba
      ] in
      let end : List ℕ × ℕ → Option (List ℕ) × Disk u =
        λ ba. elim ok [ false ↦ (none, d3) | true ↦ (some ba.0, d3) ] in
      let (e1, h1) =
        through (u.bulk_out d.ep_out (cbw 0xA5 0x80 (cdb10 0x28 lba count) len) d.host).0 d1 d'
          (elim (u.bulk_in d.ep_in len host1).0 [ none ↦ (none, d2) | some ba ↦ end ba ]) buf h in
      let (ba, e2, h2) = through_some (u.bulk_in d.ep_in len host1).0 d2 d' end buf h1 in
      let (e3, h3) = through ok d3 d' (some ba.0, d3) buf h2 in
      let (st, e4, v) = valid-IsStatus 0xA5 (u.bulk_in d.ep_in 13 host2).0 e3 in
      let same : ba.0 ≡ buf =
        ap (λ (x : Option (List ℕ) × Disk u). elim x.0 [ none ↦ [] | some b ↦ b ]) h3 in
      record {
        sent = e1;
        actual = ba.1;
        got = e2 ∙ ap (λ (b : List ℕ). some (b, ba.1)) same;
        status = st;
        answered = e4;
        valid = v;
      }

  -- `ms_read_blocks` reports success only on a disk that is present, and then for no blocks at all, or
  -- when the address fits 32 bits, the command went out, the data came in the buffer that is
  -- returned, and a status of 13 bytes came with the signature and the tag of the command.
  pub ms_read_blocks-Transferred :
      (buf : List ℕ) (d' : Disk u)
      → ms_read_blocks u lba count d ≡ (some buf, d')
      → (d.present ≡ true) × (((count ≡ 0) × (buf ≡ [])) ⊎ ((lba < 2 ^ 32) × Transferred buf))
  unfolding ms_read_blocks
  ms_read_blocks-Transferred buf d' h =
      if-elim Claimed (not d.present) (λ away e. absurd (none-some d d' buf e))
        (λ here.
          if-elim Claimed (count == 0)
            (λ empty e. (
              ground (arith, here),
              inl (
                ground (arith, empty),
                sym (ap (λ (x : Option (List ℕ) × Disk u). elim x.0 [ none ↦ [] | some b ↦ b ]) e),
              ),
            ))
            (λ some_blocks.
              if-elim Claimed (not (lba / 2 ^ 32 == 0)) (λ high e. absurd (none-some d d' buf e))
                (λ low e. (
                  ground (arith, here),
                  inr (ground (arith, low), read_transfers-Transferred buf d' e),
                ))))
        h
    where
      Claimed : Option (List ℕ) × Disk u → Type 0
      Claimed out =
          out ≡ (some buf, d')
          → (d.present ≡ true) × (((count ≡ 0) × (buf ≡ [])) ⊎ ((lba < 2 ^ 32) × Transferred buf))
