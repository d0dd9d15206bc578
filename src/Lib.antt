-- ===== src/Lib.antt =====
-- Verification library of the operating system's own C code.
--
-- Which file models what (paths from the repository's root):
--
-- * Prelude and its children: numbers, lists, and memory as a function from offsets to bytes.
-- * Scheduler (scheduler/scheduler.c): Table has `task_entry_t`, the globals and every function that
--   changes slots of the table; Run has those that run tasks. The other children are about the
--   invariant (Invariant, Slots, Running, Reach), `scheduler_add_task` (Add) and the round robin
--   (Fairness).
-- * Block (drivers/block/block.c): a request goes to the SATA disk, or else to the USB device.
-- * Fat32 (fs/fat32/fat32.c): Volume has the mounted volume with clusters and the table, Name the 8.3
--   names, Directory searching, listing and deleting, ReadFile, WriteFile and MakeDirectory the
--   functions of these names, Format `fat32_format` and `fat32_init`. The children of Volume and of
--   Format are about clusters, the table and the disk after formatting.
-- * Gpt (fs/gpt/gpt.c): Crc has the checksum, Data the header and the entries with their bytes,
--   Operations and Init the functions of the file; the other children are about what those
--   functions leave on the disk and in memory.
-- * Gui (gui/helpers.c, gui/fonts.c, gui/console.c): Rows has the loops over pixels, Screen the screen
--   with its back buffer and the boxes, Fonts the glyphs, Console the text and the log.
-- * Ps2 (drivers/ps2, drivers/hid, drivers/touchpad.c, drivers/usb/touchpad_adapter.c): Ring has the two
--   rings of bytes, Controller the ports and `ps2_touchpad_init`, Touchpad the `touchpad_poll` of ps2.c
--   and Stream the one of touchpad.c, Keyboard the polls of the keyboard, Adapter the choice between
--   the HID layer and PS/2.
-- * MassStorage (drivers/thumbdrive/mass_storage.c): the commands and transfers of the USB disk, over the
--   calls of a USB host. Commands and Device are about the other side: what the device reads in a
--   command, and what it does. Emulator (drivers/usb/usb_host_xhci.c) has the host's calls, which emulate
--   a disk on the block layer; its children are about the loops over sectors (Sectors), the search for
--   the last one (Probe), the phases of a command (Phases) and the disk as a whole (Disk).
-- * Pci (drivers/pci/pci.c): the configuration space; the children are about the search and the walk
--   along the capabilities. Pci.Express (drivers/pcie/pcie.c): the table of devices and its search.
--
-- How the parts interact: Fat32, Gpt and the emulated USB disk call Block; Block stands for its two drivers with sectors that
-- may fail. The keyboard and the touchpad share the controller through the rings. The console draws on
-- the buffer that Screen chooses.
--
-- Conventions. A function that changes globals takes and returns the record of those globals. A result
-- of 0 or -1 is a Boolean, `true` for 0. A `uint32_t` or `uint64_t` is a number, with the wrap-around
-- written out where the code computes. Static buffers hold no state between calls, and are local
-- values. The messages of `text` are left out.
--
-- A `double` of the scheduler is the type `Seconds`, a parameter with the operations that the code
-- uses. A task's function is a parameter too: the list of the calls of the scheduler's API that it
-- makes while it runs. A task that itself calls a function that runs tasks is not modelled.
--
-- A device is a record of what its sectors hold and of the sectors at which reads and writes fail; the
-- failures do not change with time, and a write that fails may leave anything in its sector.
--
-- The ports of the PS/2 controller and of PCI are parameters, as operations on a hidden state.
-- Where a theorem needs that the hardware behaves as documented, it takes `IsQueue` (the bytes of
-- keyboard and mouse wait in a queue) or `IsConfig` (the data port shows the register whose address was
-- written); the modules Tests have hardware for which these hold. `UsbHost` is the interface of the USB
-- host's calls, and `IsDisk` what the driver needs of a disk behind it; MassStorage/Emulator/Disk has
-- both for the code of usb_host_xhci.c. Whether an xHCI controller answers is a parameter there.
--
-- Fuel: the loops that follow a chain of clusters on the disk take fuel, since the code has no bound
-- of its own for a chain that runs in a circle. A chain of distinct clusters needs one unit of fuel more
-- than it has clusters. The loops that poll the PS/2 controller take fuel, since the hardware may go on
-- for ever: one unit more than bytes wait, 22 for the packets of a full ring, and 64 for its keys. The
-- walk along the capabilities of a PCI device needs one unit more than the list is long. The search for
-- the last sector of a SATA disk goes 30 rounds, as in the code, and then halves an interval with its
-- length as fuel.
--
-- Not modelled: the exFAT file system under fs/exfat (a copy of another project's library), the desktop
-- with its widgets and pictures, the pictures of the font, `touchpad_poll_absolute` (floating point),
-- the installers and boot loaders, the kernel's entry, and the SATA and xHCI drivers.
pub mod Prelude
pub mod Scheduler
pub mod Block
pub mod Fat32
pub mod Gpt
pub mod Gui
pub mod Ps2
pub mod MassStorage
pub mod Pci
