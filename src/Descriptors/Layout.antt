-- ===== src/Descriptors/Layout.antt =====
-- The USB library's descriptor structures as the bytes that they are packed into, a word with its
-- low byte first, and the library's constants, which are parameters.
use iss_notify_firmware.Common.{ℕ, ◌+◌, ◌*◌, ◌/◌, ◌^◌, List, [], ◌∷◌, Bytes, u8}

-- Constants of the library. A descriptor type is what stands in a header's second byte.
pub record Usb : Type 0 where
  pub dtype_device : ℕ
  pub dtype_configuration : ℕ
  pub dtype_string : ℕ
  pub dtype_interface : ℕ
  pub dtype_endpoint : ℕ
  pub dtype_csinterface : ℕ
  pub no_descriptor : ℕ
  pub use_internal_serial : ℕ
  pub fixed_control_endpoint_size : ℕ
  pub fixed_num_configurations : ℕ
  pub version_01_10 : ℕ
  pub version_00_01 : ℕ
  pub config_attr_reserved : ℕ
  pub config_attr_selfpowered : ℕ
  pub config_power_ma : ℕ → ℕ
  pub cdc_class : ℕ
  pub no_specific_subclass : ℕ
  pub no_specific_protocol : ℕ
  pub acm_subclass : ℕ
  pub at_command_protocol : ℕ
  pub cdc_data_class : ℕ
  pub no_data_subclass : ℕ
  pub no_data_protocol : ℕ
  pub dsubtype_header : ℕ
  pub dsubtype_acm : ℕ
  pub dsubtype_union : ℕ
  pub endpoint_dir_in : ℕ
  pub endpoint_dir_out : ℕ
  pub ep_type_interrupt : ℕ
  pub ep_type_bulk : ℕ
  pub endpoint_attr_no_sync : ℕ
  pub endpoint_usage_data : ℕ
  pub language_id_eng : ℕ

-- `sizeof` the structures.
abbrev pub device_size : ℕ
device_size = 18

abbrev pub configuration_header_size : ℕ
configuration_header_size = 9

abbrev pub interface_size : ℕ
interface_size = 9

abbrev pub functional_header_size : ℕ
functional_header_size = 5

abbrev pub functional_acm_size : ℕ
functional_acm_size = 4

abbrev pub functional_union_size : ℕ
functional_union_size = 5

abbrev pub endpoint_size : ℕ
endpoint_size = 7

-- `USB_STRING_LEN(n)`
abbrev pub string_len : ℕ → ℕ
string_len n = 2 + n * 2

abbrev pub word : ℕ → Bytes → Bytes
word v s = u8 v ∷ u8 (v / 2 ^ 8) ∷ s

-- An array of words.
abbrev pub words : List ℕ → Bytes
words [] = []
words (v ∷ vs) = word v (words vs)
