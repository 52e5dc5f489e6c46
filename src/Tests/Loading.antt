-- ===== src/Tests/Loading.antt =====
-- A block of an image.
use iss_notify_firmware.Common.{◌≡◌, arith, ◌==◌, ltb, if◌then◌else◌, length, get_elem?, some}
use iss_notify_firmware.Loader.{Image, ihex_get_data}
use iss_notify_firmware.Loader.Blocks.{byte_at, ihex_get_data_lem}

-- A file with one byte, at address 5.
abbrev one_byte : Image
one_byte = record { image = λ a. 7; mask = λ a. if a == 5 then 1 else 0 }

ihex_get_data_lem_example :
    (length (ihex_get_data 4 4 one_byte) ≡ 4)
    × (get_elem? (ihex_get_data 4 4 one_byte) 1
        ≡ some (if ltb 8 0x10000 then byte_at one_byte 5 else 255))
ihex_get_data_lem_example = ihex_get_data_lem 4 4 1 one_byte (omega arith)
