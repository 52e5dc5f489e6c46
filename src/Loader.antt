-- ===== src/Loader.antt =====
-- HostLoaderApp/hid_bootloader_cli.c: the memory image that the boot loader's host application
-- programs, and how it cuts blocks out of it. Addresses and lengths are numbers: no caller passes
-- a negative one, for which the two functions have a test too.
pub mod Sscanf
pub mod Hex
pub mod Options
pub mod Blocks
pub mod Program
pub mod Wanted
pub mod Flash
pub mod Main
pub mod Libusb
pub mod Uhid
pub mod Iokit
pub mod Win32
use iss_notify_firmware.Common.{
  ℕ, zero, suc, ◌+◌, ◌-◌, Bool, true, false, ◌||◌, List, [], ◌∷◌, ◌==◌, leb, if◌then◌else◌,
  replicate,
}

-- `MAX_MEMORY_SIZE`
abbrev pub max_memory_size : ℕ
max_memory_size = 0x10000

-- `firmware_image` and `firmware_mask`, by address.
pub record Image : Type 0 where
  pub image : ℕ → ℕ
  pub mask : ℕ → ℕ

-- `for (i = begin; i <= end; i++)`, with the rounds left.
unfoldable pub any_masked : ℕ → ℕ → Image → Bool
any_masked zero i im = false
any_masked (suc n) i im =
    let rest = any_masked n (i + 1) im in if im.mask i == 0 then rest else true

unfoldable pub ihex_bytes_within_range : ℕ → ℕ → Image → Bool
ihex_bytes_within_range begin end im =
    if leb max_memory_size begin || leb max_memory_size end
    then false
    else any_masked (end + 1 - begin) begin im

-- The second loop of `ihex_get_data`, with the rounds left.
unfoldable pub copy_bytes : ℕ → ℕ → Image → List ℕ
copy_bytes zero addr im = []
copy_bytes (suc n) addr im =
    (if im.mask addr == 0 then 255 else im.image addr) ∷ copy_bytes n (addr + 1) im

-- What `ihex_get_data` leaves in `bytes`.
unfoldable pub ihex_get_data : ℕ → ℕ → Image → List ℕ
ihex_get_data addr len im =
    if leb max_memory_size (addr + len) then replicate len 255 else copy_bytes len addr im
