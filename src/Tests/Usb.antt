-- ===== src/Tests/Usb.antt =====
-- Requests for the descriptors, with the library's constants as they are for the firmware's chip.
use iss_notify_firmware.Common.{◌/◌, refl, arith}
use iss_notify_firmware.Descriptors.Layout.{Usb}
use iss_notify_firmware.Descriptors.{configuration, get_descriptor}
use iss_notify_firmware.Descriptors.Request.{Sends, wanted, get_descriptor_lem}
use iss_notify_firmware.Descriptors.Configuration.{IsConsistent, parts, configuration-IsConsistent}

abbrev lufa : Usb
lufa = record {
  dtype_device = 1;
  dtype_configuration = 2;
  dtype_string = 3;
  dtype_interface = 4;
  dtype_endpoint = 5;
  dtype_csinterface = 0x24;
  no_descriptor = 0;
  use_internal_serial = 0xDC;
  fixed_control_endpoint_size = 8;
  fixed_num_configurations = 1;
  version_01_10 = 0x0110;
  version_00_01 = 0x0001;
  config_attr_reserved = 0x80;
  config_attr_selfpowered = 0x40;
  config_power_ma = λ n. n / 2;
  cdc_class = 2;
  no_specific_subclass = 0;
  no_specific_protocol = 0;
  acm_subclass = 2;
  at_command_protocol = 1;
  cdc_data_class = 0x0A;
  no_data_subclass = 0;
  no_data_protocol = 0;
  dsubtype_header = 0;
  dsubtype_acm = 2;
  dsubtype_union = 6;
  endpoint_dir_in = 0x80;
  endpoint_dir_out = 0;
  ep_type_interrupt = 3;
  ep_type_bulk = 2;
  endpoint_attr_no_sync = 0;
  endpoint_usage_data = 0;
  language_id_eng = 0x0409;
}

get_descriptor_lem_example : Sends lufa (get_descriptor lufa 0x0302) (wanted lufa 3 2)
get_descriptor_lem_example = get_descriptor_lem lufa 0x0302 (omega arith) refl

configuration-IsConsistent_example : IsConsistent lufa (configuration lufa) (parts lufa)
configuration-IsConsistent_example =
    configuration-IsConsistent lufa (omega arith) (omega arith) (omega arith) (omega arith)
