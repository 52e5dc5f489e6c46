-- ===== src/Loader/Main/Whole.antt =====
-- From the text of a hex file to the chip's memory.
use iss_notify_firmware.Common.{
  ℕ, suc, ◌+◌, ◌-◌, ◌^◌, ◌<◌, Bool, true, false, ◌&&◌, some, List, [], ◌∷◌, Bytes, ◌≡◌, refl, arith,
  ap, ◌∙◌, ltb, leb, ◌==◌, if◌then◌else◌, get_or, length, All, Bool-cases, inl, inr,
}
use iss_notify_firmware.Loader.{Image}
use iss_notify_firmware.Loader.Blocks.{byte_at}
use iss_notify_firmware.Loader.Hex.{blank, signed_lt}
use iss_notify_firmware.Loader.Hex.Record.{put_byte, put_bytes, signed_lt-false}
use iss_notify_firmware.Loader.Hex.File.{
  hex_file, put_lines, count_bytes, Fits, read_intel_hex-hex_file,
}
use iss_notify_firmware.Loader.Options.{Options, defaults, parse_options}
use iss_notify_firmware.Loader.Wanted.{HalfKay}
use iss_notify_firmware.Loader.Main.{Host, went, read_file, boot, main}
use iss_notify_firmware.Loader.Main.Waiting.{Appears}
use iss_notify_firmware.Loader.Main.Upload.{main-byte_at}

-- Does a line with an address and bytes hold a byte for an address?
abbrev covers : ℕ → Bytes → ℕ → Bool
covers a bs x = leb a x && ltb x (a + length bs)

-- The byte for an address: that of the last line that holds one.
abbrev pub file_byte : List (ℕ × Bytes) → ℕ → ℕ → ℕ
file_byte [] x old = old
file_byte ((a, bs) ∷ lines) x old =
    file_byte lines x (if covers a bs x then get_or bs (x - a) old else old)

byte_at-put_byte :
    (a b x : ℕ) (im : Image) → byte_at (put_byte a b im) x ≡ (if x == a then b else byte_at im x)
byte_at-put_byte a b x im = ground arith

get_or_cons :
    (b : ℕ) (bs : Bytes) (old x a : ℕ)
    → get_or (b ∷ bs) (x - a) old ≡ (if leb x a then b else get_or bs (x - (a + 1)) old)
get_or_cons b bs old x a = elim (Bool-cases (leb x a)) [
  | inl e ↦ (let here : x - a ≡ 0 = ground arith in rw e (ap (λ k. get_or (b ∷ bs) k old) here))
  | inr e ↦
      (let behind : x - a ≡ suc (x - (a + 1)) = ground arith in
        rw e (ap (λ k. get_or (b ∷ bs) k old) behind))
]

byte_at-put_bytes :
    (a : ℕ) (bs : Bytes) (im : Image) (x : ℕ)
    → byte_at (put_bytes a bs im) x
      ≡ (if covers a bs x then get_or bs (x - a) (byte_at im x) else byte_at im x)
byte_at-put_bytes a [] im x = ground arith
byte_at-put_bytes a (b ∷ bs) im x = ground (
  arith,
  byte_at-put_bytes (a + 1) bs (put_byte a b im) x,
  byte_at-put_byte a b x im,
  get_or_cons b bs (byte_at im x) x a,
)

byte_at-put_lines :
    (lines : List (ℕ × Bytes)) (im : Image) (x : ℕ)
    → byte_at (put_lines lines im) x ≡ file_byte lines x (byte_at im x)
byte_at-put_lines [] im x = refl
byte_at-put_lines ((a, bs) ∷ lines) im x =
    byte_at-put_lines lines (put_bytes a bs im) x
    ∙ ap (file_byte lines x) (byte_at-put_bytes a bs im x)

read_file-hex_file :
    {D : Type 0} (host : Host D) (name : Bytes) (lines : List (ℕ × Bytes)) (d : D)
    → host.content name d ≡ some (hex_file lines)
    → All Fits lines
    → count_bytes lines < 2 ^ 31
    → read_file host name d ≡ some (went (put_lines lines blank.memory))
unfolding read_file
read_file-hex_file host name lines d e fits few =
    let positive : signed_lt (count_bytes lines) 0 ≡ false =
      signed_lt-false (count_bytes lines) 0 (omega arith) few in
    rw (e, read_file) (rw (read_intel_hex-hex_file lines fits (omega arith)) (rw positive refl))

last_read :
    (waited : Bool) (lines lines' : List (ℕ × Bytes)) (x : ℕ)
    → byte_at (if waited then put_lines lines' blank.memory else put_lines lines blank.memory) x
      ≡ file_byte (if waited then lines' else lines) x 255
last_read true lines lines' x = byte_at-put_lines lines' blank.memory x
last_read false lines lines' x = byte_at-put_lines lines blank.memory x

module _ {D : Type 0} (host : Host D) (kay : HalfKay host.teensy) where
  -- On a chip that takes and writes each block where its address says and is erased by the one at
  -- address 0: if the arguments are understood, name a file and a chip with less than 64 K of
  -- code, the device is found after `k` rounds without it (fewer than the fuel), of which the
  -- first, if there is one, does the hard reboot that was asked for or, with none asked for, may
  -- wait, and the file is, at the beginning and when the device is found, an Intel hex file of
  -- data lines of at most 255 bytes that end below the last of the 64 K, and an end line, with
  -- fewer than 2^31 bytes: then `main` ends without an error, and behind the programming, before
  -- the new program is started and the device closed, the chip holds at each address below the
  -- code size the byte of the last line that has one for it, and 255 where no line has, by the
  -- file as it was last read.
  pub main-hex_file :
      (fuel k : ℕ) (args : List Bytes) (o : Options) (name : Bytes)
      (lines lines' : List (ℕ × Bytes)) (d last : D)
      → k < fuel
      → parse_options args defaults ≡ some o
      → o.filename ≡ some name
      → 0 < o.code_size
      → o.code_size < 2 ^ 16
      → Appears host k o.wait_for_device_to_appear o.hard_reboot_device d last
      → host.content name d ≡ some (hex_file lines)
      → host.content name last ≡ some (hex_file lines')
      → All Fits lines × (count_bytes lines < 2 ^ 31)
      → All Fits lines' × (count_bytes lines' < 2 ^ 31)
      → (d' : D) × (main host fuel args d ≡ some (went (host.teensy_close (boot host o d'))))
        × ((x : ℕ)
            → x < o.code_size
            → kay.flash d' x ≡ file_byte (if ltb 0 k then lines' else lines) x 255)
  main-hex_file fuel k args o name lines lines' d last more parsed named sized small appears text
        text' ok ok' =
      let (d', e, p) =
        main-byte_at host kay fuel k args o name (put_lines lines blank.memory)
          (put_lines lines' blank.memory) d last more parsed named sized small appears
          (read_file-hex_file host name lines d text ok.0 ok.1)
          (read_file-hex_file host name lines' last text' ok'.0 ok'.1) in
      (d', e, λ x h. p x h ∙ last_read (ltb 0 k) lines lines' x)
