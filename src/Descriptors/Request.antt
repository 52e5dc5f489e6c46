-- ===== src/Descriptors/Request.antt =====
-- What a request for a descriptor brings.
use iss_notify_firmware.Common.{
  ℕ, ◌+◌, ◌*◌, ◌/◌, ◌%◌, ◌^◌, ◌<◌, ◌≤◌, Bool, true, false, [], ◌∷◌, Bytes, codes, u8, bit_and, ◌≡◌,
  refl, arith, ◌==◌, if◌then◌else◌, length, take, get_or,
}
use iss_notify_firmware.Common.Bits.{bit_and-mask}
use iss_notify_firmware.Descriptors.Layout.{Usb, device_size, words}
use iss_notify_firmware.Descriptors.{
  Address, null, device_descriptor, configuration_descriptor, language_string, manufacturer_string,
  product_string, usb_device, configuration, language, manufacturer, product, at, header_size,
  get_string, get_descriptor, config, cdc_cci_interface, cdc_functional_header, cdc_functional_acm,
  cdc_functional_union, cdc_notification_endpoint, cdc_dci_interface, cdc_data_out_endpoint,
  cdc_data_in_endpoint, configuration_size,
}

module _ (usb : Usb) where
  -- A text as a string descriptor without a final NUL.
  abbrev text_descriptor : Bytes → Bytes
  text_descriptor s = (2 + length s * 2) ∷ usb.dtype_string ∷ words s

  -- The strings by the numbers that stand in bytes 14 and 15 of the device descriptor.
  abbrev named_text : ℕ → Bytes
  named_text number =
      if number == 0
      then text_descriptor (usb.language_id_eng ∷ [])
      else if number == get_or (usb_device usb) 14 0
      then text_descriptor (codes "Open Notify")
      else if number == get_or (usb_device usb) 15 0
      then text_descriptor (codes "LED Notifier")
      else []

  -- The descriptor of a type and a number.
  abbrev pub wanted : ℕ → ℕ → Bytes
  wanted type number =
      if type == usb.dtype_device
      then usb_device usb
      else if type == usb.dtype_configuration
      then configuration usb
      else if type == usb.dtype_string
      then named_text number
      else []

  -- The bytes that are sent for an address and a size are the wanted ones, and all in the object.
  abbrev pub Sends : Address × ℕ → Bytes → Type 0
  Sends (a, size) bytes = (take size (at usb a) ≡ bytes) × (size ≤ length (at usb a))

  Sends-if :
      (b : Bool) (p q : Address × ℕ) (u v : Bytes)
      → Sends p u
      → Sends q v
      → Sends (if b then p else q) (if b then u else v)
  Sends-if true p q u v h k = h
  Sends-if false p q u v h k = k

  nothing : usb.no_descriptor ≡ 0 → Sends (null, usb.no_descriptor) []
  unfolding at
  nothing none = rw none (refl, omega arith)

  language_bytes : Sends (language_string, header_size usb language_string) (named_text 0)
  unfolding at header_size language
  language_bytes = (refl, omega arith)

  manufacturer_bytes :
      Sends (manufacturer_string, header_size usb manufacturer_string) (named_text 1)
  unfolding at header_size manufacturer usb_device
  manufacturer_bytes = (refl, omega arith)

  product_bytes : Sends (product_string, header_size usb product_string) (named_text 2)
  unfolding at header_size product usb_device
  product_bytes = (refl, omega arith)

  get_string_lem :
      (number : ℕ) → usb.no_descriptor ≡ 0 → Sends (get_string usb number) (named_text number)
  unfolding get_string usb_device
  get_string_lem number none = Sends-if (number == 0) _ _ _ _ language_bytes (
      Sends-if (number == 1) _ _ _ _ manufacturer_bytes
        (Sends-if (number == 2) _ _ _ _ product_bytes (nothing none)))

  device_bytes : Sends (device_descriptor, device_size) (usb_device usb)
  unfolding at usb_device
  device_bytes = (refl, omega arith)

  configuration_bytes : Sends (configuration_descriptor, configuration_size) (configuration usb)
  unfolding at configuration config cdc_cci_interface cdc_functional_header cdc_functional_acm
      cdc_functional_union cdc_notification_endpoint cdc_dci_interface cdc_data_out_endpoint
      cdc_data_in_endpoint
  configuration_bytes = (refl, omega arith)

  -- For each 16-bit value of a request, with 0 for no descriptor: the address and size that are
  -- returned stand for exactly the bytes of the descriptor of that type and number, all of them
  -- inside the object; the strings are found under the numbers that the device descriptor gives
  -- for the manufacturer and the product, with the text that they should have and no final NUL,
  -- and any other request gets no bytes.
  pub get_descriptor_lem :
      (value : ℕ)
      → value < 2 ^ 16
      → usb.no_descriptor ≡ 0
      → Sends (get_descriptor usb value) (wanted (value / 2 ^ 8) (value % 2 ^ 8))
  unfolding get_descriptor
  get_descriptor_lem value h none =
      let type : u8 (value / 2 ^ 8) ≡ value / 2 ^ 8 = omega arith in
      let number : bit_and value 255 ≡ value % 2 ^ 8 = bit_and-mask 8 value in
      rw (type, number)
        (Sends-if (value / 2 ^ 8 == usb.dtype_device) _ _ _ _ device_bytes (
          Sends-if (value / 2 ^ 8 == usb.dtype_configuration) _ _ _ _ configuration_bytes (
            Sends-if (value / 2 ^ 8 == usb.dtype_string) _ _ _ _
              (get_string_lem (value % 2 ^ 8) none) (nothing none))))
