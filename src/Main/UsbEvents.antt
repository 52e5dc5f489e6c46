-- ===== src/Main/UsbEvents.antt =====
-- The USB event handlers of ISS-Notify.c, over the two calls of the USB library's CDC driver.
use iss_notify_firmware.Common.{Bool, true, ◌&&◌}

-- The library's calls for `VirtualSerial_CDC_Interface`, over an abstract state.
record CdcDriver (S : Type 0) : Type 0 where
  pub configure_endpoints : S → Bool × S
  pub process_control_request : S → S

module _ {S : Type 0} (cdc : CdcDriver S) where
  unfoldable event_usb_device_connect : S → S
  event_usb_device_connect s = s

  unfoldable event_usb_device_disconnect : S → S
  event_usb_device_disconnect s = s

  -- `ConfigSuccess` and the state; the function returns nothing.
  unfoldable event_usb_device_configuration_changed : S → Bool × S
  event_usb_device_configuration_changed s =
      let (ok, s') = cdc.configure_endpoints s in (true && ok, s')

  unfoldable event_usb_device_control_request : S → S
  event_usb_device_control_request s = cdc.process_control_request s
