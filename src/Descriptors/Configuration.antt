-- ===== src/Descriptors/Configuration.antt =====
-- The configuration as a host reads it: one descriptor behind the other.
use iss_notify_firmware.Common.{
  ℕ, zero, suc, ◌+◌, ◌*◌, ◌^◌, Bool, ◌||◌, Option, none, some, List, [], ◌∷◌, Bytes, ◌≡◌, ◌≢◌, refl,
  arith, ◌==◌, ltb, if◌then◌else◌, ◌>>=◌, length, take, drop, get_or, ne→==-false, ==_self,
}
use iss_notify_firmware.Descriptors.Layout.{Usb}
use iss_notify_firmware.Descriptors.{
  configuration, config, cdc_cci_interface, cdc_functional_header, cdc_functional_acm,
  cdc_functional_union, cdc_notification_endpoint, cdc_dci_interface, cdc_data_out_endpoint,
  cdc_data_in_endpoint,
}

-- Each descriptor begins with its length; `none` if that is 0 or more than is left.
unfoldable pub split : ℕ → Bytes → Option (List Bytes)
split zero s = none
split (suc fuel) [] = some []
split (suc fuel) (n ∷ s) =
    if n == 0 || ltb (length (n ∷ s)) n
    then none
    else split fuel (drop n (n ∷ s)) >>= λ ds. some (take n (n ∷ s) ∷ ds)

module _ (usb : Usb) where
  abbrev type_is : ℕ → Bytes → Bool
  type_is t d = get_or d 1 0 == t

  -- The descriptors of endpoints up to the next interface.
  abbrev endpoints : List Bytes → ℕ
  endpoints [] = 0
  endpoints (d ∷ ds) =
      if type_is usb.dtype_interface d
      then 0
      else if type_is usb.dtype_endpoint d
      then suc (endpoints ds)
      else endpoints ds

  abbrev interfaces : List Bytes → ℕ
  interfaces [] = 0
  interfaces (d ∷ ds) = if type_is usb.dtype_interface d then suc (interfaces ds) else interfaces ds

  -- Each interface says how many endpoints follow it.
  abbrev EndpointsTold : List Bytes → Type 0
  EndpointsTold [] = Unit
  EndpointsTold (d ∷ ds) =
      ((if type_is usb.dtype_interface d then get_or d 4 0 else endpoints ds) ≡ endpoints ds)
      × EndpointsTold ds

  -- The header tells the size of the whole and the number of interfaces.
  pub record IsConsistent (s : Bytes) (ds : List Bytes) : Type 0 where
    pub whole : split (length s) s ≡ some ds
    pub size : get_or s 2 0 + 2 ^ 8 * get_or s 3 0 ≡ length s
    interface_count : get_or s 4 0 ≡ interfaces ds
    endpoint_counts : EndpointsTold ds

  abbrev pub parts : List Bytes
  parts =
      config usb
      ∷ cdc_cci_interface usb
      ∷ cdc_functional_header usb
      ∷ cdc_functional_acm usb
      ∷ cdc_functional_union usb
      ∷ cdc_notification_endpoint usb
      ∷ cdc_dci_interface usb
      ∷ cdc_data_out_endpoint usb
      ∷ cdc_data_in_endpoint usb
      ∷ []

  -- If the types of a configuration, an interface, an endpoint and a class-specific descriptor
  -- differ as the hypotheses say, the bytes of the configuration split, by the length that each
  -- part begins with, into exactly its nine descriptors; the header tells the size of the whole
  -- and the number of interfaces, and each interface how many endpoints follow it.
  pub configuration-IsConsistent :
      usb.dtype_configuration ≢ usb.dtype_interface
      → usb.dtype_csinterface ≢ usb.dtype_interface
      → usb.dtype_endpoint ≢ usb.dtype_interface
      → usb.dtype_csinterface ≢ usb.dtype_endpoint
      → IsConsistent (configuration usb) parts
  unfolding split configuration config cdc_cci_interface cdc_functional_header cdc_functional_acm
      cdc_functional_union cdc_notification_endpoint cdc_dci_interface cdc_data_out_endpoint
      cdc_data_in_endpoint
  configuration-IsConsistent a b c d =
      let a' = ne→==-false _ _ a in
      let b' = ne→==-false _ _ b in
      let c' = ne→==-false _ _ c in
      let i = ==_self usb.dtype_interface in
      record {
        whole = refl;
        size = refl;
        interface_count = rw (a', b', c', i) refl;
        endpoint_counts =
            rw (a', b', c', i, ne→==-false _ _ d, ==_self usb.dtype_endpoint) (omega arith);
      }
