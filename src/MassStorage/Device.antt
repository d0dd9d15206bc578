-- ===== src/MassStorage/Device.antt =====
-- The interface between the driver of drivers/thumbdrive/mass_storage.c and the disk behind the host.
use entropy_os.Prelude.{ℕ, ◌+◌, ◌*◌, ◌≤◌, ◌<◌, ◌≡◌, ◌≢◌, true, some, List, ◌∷◌, [], ◌++◌, length}
use entropy_os.MassStorage.{UsbHost, le32, from_le32}
use entropy_os.MassStorage.Blocks.{span, stored}
use entropy_os.MassStorage.Commands.{decode, IsWrapper}

-- Where in a command the device is: it waits for one, it has bytes for the host, it waits for the bytes of
-- some blocks, or it has the status of the command with some tag.
pub data Phase : Type 0 where
  idle : Phase
  sending : List ℕ → ℕ → Phase
  receiving : ℕ → ℕ → ℕ → Phase
  status : ℕ → Phase

-- the status of a command that succeeded
abbrev pub good_status : ℕ → List ℕ
good_status tag = le32 0x53425355 ++ le32 tag ++ le32 0 ++ (0 ∷ [])

-- What the driver relies on of the host: a disk of `capacity` blocks of `size` bytes behind two pipes.
-- Bytes for the blocks may not start with the signature of a command.
pub record IsDisk (u : UsbHost) (ep_in ep_out size capacity : ℕ) : Type 1 where
  pub blocks : u.State → ℕ → List ℕ
  pub phase : u.State → Phase → Type 0
  pub takes_read :
      (s : u.State) (b : List ℕ)
      → phase s Phase.idle
      → IsWrapper b
      → (decode b).op ≡ 0x28
      → (decode b).flags ≡ 0x80
      → (decode b).lba + (decode b).count ≤ capacity
      → (decode b).count < 65536
      → ((u.bulk_out ep_out b s).0 ≡ true)
        × phase
            (u.bulk_out ep_out b s).1
            (Phase.sending (span (blocks s) (decode b).lba (decode b).count) (decode b).tag)
        × (blocks (u.bulk_out ep_out b s).1 ≡ blocks s)
  pub takes_write :
      (s : u.State) (b : List ℕ)
      → phase s Phase.idle
      → IsWrapper b
      → (decode b).op ≡ 0x2A
      → (decode b).flags ≡ 0
      → (decode b).lba + (decode b).count ≤ capacity
      → ((u.bulk_out ep_out b s).0 ≡ true)
        × phase
            (u.bulk_out ep_out b s).1
            (Phase.receiving (decode b).lba (decode b).count (decode b).tag)
        × (blocks (u.bulk_out ep_out b s).1 ≡ blocks s)
  pub sends :
      (s : u.State) (bytes : List ℕ) (tag len : ℕ)
      → phase s (Phase.sending bytes tag)
      → length bytes ≡ len
      → ((u.bulk_in ep_in len s).0 ≡ some (bytes, len))
        × phase (u.bulk_in ep_in len s).1 (Phase.status tag)
        × (blocks (u.bulk_in ep_in len s).1 ≡ blocks s)
  pub receives :
      (s : u.State) (lba n tag : ℕ) (bytes : List ℕ)
      → phase s (Phase.receiving lba n tag)
      → length bytes ≡ n * size
      → from_le32 0 bytes ≢ 0x43425355
      → ((u.bulk_out ep_out bytes s).0 ≡ true)
        × phase (u.bulk_out ep_out bytes s).1 (Phase.status tag)
        × (blocks (u.bulk_out ep_out bytes s).1 ≡ stored size lba n bytes (blocks s))
  pub answers :
      (s : u.State) (tag : ℕ)
      → phase s (Phase.status tag)
      → ((u.bulk_in ep_in 13 s).0 ≡ some (good_status tag, 13))
        × phase (u.bulk_in ep_in 13 s).1 Phase.idle
        × (blocks (u.bulk_in ep_in 13 s).1 ≡ blocks s)
  pub block_size : (s : u.State) (l : ℕ) → length (blocks s l) ≡ size
