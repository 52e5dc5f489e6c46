-- ===== src/Descriptors.antt =====
-- Descriptors.c and Descriptors.h: the descriptors by which the USB host knows the device, as the
-- bytes that stand in the flash memory, and the search for one.
pub mod Layout
pub mod Request
pub mod Configuration
use iss_notify_firmware.Common.{
  ℕ, ◌+◌, ◌/◌, ◌%◌, ◌^◌, List, [], ◌∷◌, ◌++◌, Bytes, codes, u8, bit_and, bit_or, ◌==◌,
  if◌then◌else◌, get_or,
}
use iss_notify_firmware.Descriptors.Layout.{
  Usb, device_size, configuration_header_size, interface_size, functional_header_size,
  functional_acm_size, functional_union_size, endpoint_size, string_len, word, words,
}

abbrev cdc_notification_epnum : ℕ
cdc_notification_epnum = 2

abbrev cdc_tx_epnum : ℕ
cdc_tx_epnum = 3

abbrev cdc_rx_epnum : ℕ
cdc_rx_epnum = 4

abbrev cdc_notification_epsize : ℕ
cdc_notification_epsize = 8

abbrev cdc_txrx_epsize : ℕ
cdc_txrx_epsize = 16

-- `sizeof(USB_Descriptor_Configuration_t)`
abbrev pub configuration_size : ℕ
configuration_size =
    configuration_header_size + interface_size + functional_header_size + functional_acm_size
    + functional_union_size + endpoint_size + interface_size + endpoint_size + endpoint_size

-- What `*DescriptorAddress` may point to.
pub data Address : Type 0 where
  null device_descriptor configuration_descriptor : Address
  language_string manufacturer_string product_string : Address

module _ (usb : Usb) where
  unfoldable pub usb_device : Bytes
  usb_device =
      device_size
      ∷ usb.dtype_device
      ∷ word usb.version_01_10 (
          usb.cdc_class
          ∷ usb.no_specific_subclass
          ∷ usb.no_specific_protocol
          ∷ usb.fixed_control_endpoint_size
          ∷ word 0x03EB (
              word 0x2044 (
                word usb.version_00_01
                  (0x01 ∷ 0x02 ∷ usb.use_internal_serial ∷ usb.fixed_num_configurations ∷ []))))

  unfoldable pub config : Bytes
  config =
      configuration_header_size
      ∷ usb.dtype_configuration
      ∷ word configuration_size (
          2
          ∷ 1
          ∷ usb.no_descriptor
          ∷ bit_or usb.config_attr_reserved usb.config_attr_selfpowered
          ∷ usb.config_power_ma 100
          ∷ [])

  unfoldable pub cdc_cci_interface : Bytes
  cdc_cci_interface =
      interface_size ∷ usb.dtype_interface ∷ 0 ∷ 0 ∷ 1 ∷ usb.cdc_class ∷ usb.acm_subclass
      ∷ usb.at_command_protocol ∷ usb.no_descriptor ∷ []

  unfoldable pub cdc_functional_header : Bytes
  cdc_functional_header =
      functional_header_size
      ∷ usb.dtype_csinterface
      ∷ usb.dsubtype_header
      ∷ word usb.version_01_10 []

  unfoldable pub cdc_functional_acm : Bytes
  cdc_functional_acm = functional_acm_size ∷ usb.dtype_csinterface ∷ usb.dsubtype_acm ∷ 0x06 ∷ []

  unfoldable pub cdc_functional_union : Bytes
  cdc_functional_union =
      functional_union_size ∷ usb.dtype_csinterface ∷ usb.dsubtype_union ∷ 0 ∷ 1 ∷ []

  unfoldable pub cdc_notification_endpoint : Bytes
  cdc_notification_endpoint =
      endpoint_size
      ∷ usb.dtype_endpoint
      ∷ bit_or usb.endpoint_dir_in cdc_notification_epnum
      ∷ bit_or (bit_or usb.ep_type_interrupt usb.endpoint_attr_no_sync) usb.endpoint_usage_data
      ∷ word cdc_notification_epsize (0xFF ∷ [])

  unfoldable pub cdc_dci_interface : Bytes
  cdc_dci_interface =
      interface_size ∷ usb.dtype_interface ∷ 1 ∷ 0 ∷ 2 ∷ usb.cdc_data_class ∷ usb.no_data_subclass
      ∷ usb.no_data_protocol ∷ usb.no_descriptor ∷ []

  unfoldable pub cdc_data_out_endpoint : Bytes
  cdc_data_out_endpoint =
      endpoint_size
      ∷ usb.dtype_endpoint
      ∷ bit_or usb.endpoint_dir_out cdc_rx_epnum
      ∷ bit_or (bit_or usb.ep_type_bulk usb.endpoint_attr_no_sync) usb.endpoint_usage_data
      ∷ word cdc_txrx_epsize (0x01 ∷ [])

  unfoldable pub cdc_data_in_endpoint : Bytes
  cdc_data_in_endpoint =
      endpoint_size
      ∷ usb.dtype_endpoint
      ∷ bit_or usb.endpoint_dir_in cdc_tx_epnum
      ∷ bit_or (bit_or usb.ep_type_bulk usb.endpoint_attr_no_sync) usb.endpoint_usage_data
      ∷ word cdc_txrx_epsize (0x01 ∷ [])

  -- The members of the structure, in its order.
  unfoldable pub configuration : Bytes
  configuration =
      config ++ cdc_cci_interface ++ cdc_functional_header ++ cdc_functional_acm
      ++ cdc_functional_union ++ cdc_notification_endpoint ++ cdc_dci_interface
      ++ cdc_data_out_endpoint ++ cdc_data_in_endpoint

  unfoldable pub language : Bytes
  language = string_len 1 ∷ usb.dtype_string ∷ words (usb.language_id_eng ∷ [])

  -- The texts end with a NUL.
  unfoldable pub manufacturer : Bytes
  manufacturer = string_len 11 ∷ usb.dtype_string ∷ words (codes "Open Notify" ++ 0 ∷ [])

  unfoldable pub product : Bytes
  product = string_len 12 ∷ usb.dtype_string ∷ words (codes "LED Notifier" ++ 0 ∷ [])

  -- The object at an address.
  unfoldable pub at : Address → Bytes
  at null = []
  at device_descriptor = usb_device
  at configuration_descriptor = configuration
  at language_string = language
  at manufacturer_string = manufacturer
  at product_string = product

  -- `Size = pgm_read_byte(&….Header.Size)`
  unfoldable pub header_size : Address → ℕ
  header_size a = get_or (at a) 0 0

  -- The inner `switch`.
  unfoldable pub get_string : ℕ → Address × ℕ
  get_string number =
      if number == 0x00
      then (language_string, header_size language_string)
      else if number == 0x01
      then (manufacturer_string, header_size manufacturer_string)
      else if number == 0x02
      then (product_string, header_size product_string)
      else (null, usb.no_descriptor)

  -- `CALLBACK_USB_GetDescriptor`: what it stores and what it returns.
  unfoldable pub get_descriptor : ℕ → Address × ℕ
  get_descriptor value =
      let type = u8 (value / 2 ^ 8) in
      let number = bit_and value 0xFF in
      if type == usb.dtype_device
      then (device_descriptor, device_size)
      else if type == usb.dtype_configuration
      then (configuration_descriptor, configuration_size)
      else if type == usb.dtype_string
      then get_string number
      else (null, usb.no_descriptor)
