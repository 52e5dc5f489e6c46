-- ===== src/Commands/ClockText.antt =====
-- Setting the clock by a text, and being told the time.
use iss_notify_firmware.Common.{
  ℕ, List, [], ◌∷◌, ◌++◌, Bytes, codes, length, u8, ◌≡◌, ◌≢◌, refl, ap, ◌∙◌, arith, append_assoc,
  inl,
}
use iss_notify_firmware.Twi.{Twi}
use iss_notify_firmware.Rtc.{Time, mktime, get_time, set_time, reset_rtc}
use iss_notify_firmware.Rtc.Chip.{RegisterChip, IsReady}
use iss_notify_firmware.Rtc.Clock.{
  IsStorable, reset_rtc-Holds, get_time-set_time, get_time-reset_rtc,
}
use iss_notify_firmware.Stdio.{fscanf}
use iss_notify_firmware.Stdio.Digits.{Stops}
use iss_notify_firmware.Stdio.Fields.{fscanf-lit, fscanf-int16-two_digits}
use iss_notify_firmware.Firmware.{Firmware, print}
use iss_notify_firmware.Commands.Settings.{
  clock_format, time_text, say_time, set_clock_with, set_clock,
}

scan_time :
    (t : Time) (rest : Bytes)
    → IsStorable t
    → Stops rest
    → fscanf clock_format (time_text t ++ rest)
      ≡ (t.year ∷ t.month ∷ t.day ∷ t.hour ∷ t.minute ∷ t.second ∷ [], rest)
unfolding time_text
scan_time t rest h stops = simp append_assoc (
    rw
      (
        fscanf-lit b'Y',
        fscanf-int16-two_digits t.year _ _ (omega arith) refl,
        fscanf-lit b'M',
        fscanf-int16-two_digits t.month _ _ (omega arith) refl,
        fscanf-lit b'D',
        fscanf-int16-two_digits t.day _ _ (omega arith) refl,
        fscanf-lit b'H',
        fscanf-int16-two_digits t.hour _ _ (omega arith) refl,
        fscanf-lit b'M',
        fscanf-int16-two_digits t.minute _ _ (omega arith) refl,
        fscanf-lit b'S',
        fscanf-int16-two_digits t.second _ rest (omega arith) stops,
      )
      (unfold fscanf in refl))

time-bytes :
    (t : Time)
    → IsStorable t
    → mktime (u8 t.year) (u8 t.month) (u8 t.day) (u8 t.hour) (u8 t.minute) (u8 t.second) ≡ t
unfolding mktime
time-bytes t h = ground arith

module _ {B : Type 0} (twi : Twi B) where
  -- What `set_clock` makes of the text of a time.
  pub set_clock_text :
      (fw : Firmware B) (t : Time) (rest : Bytes)
      → fw.input ≡ time_text t ++ rest
      → IsStorable t
      → Stops rest
      → set_clock twi fw ≡ record fw {
        input = rest;
        output = fw.output ++ codes "set";
        rtc = set_time twi t (reset_rtc twi fw.rtc);
      }
  unfolding set_clock set_clock_with print
  set_clock_text fw t rest text fits stops =
      rw (ap (fscanf clock_format) text ∙ scan_time t rest fits stops, time-bytes t fits)

module _ {B : Type 0} (twi : Twi B) where
  pub said :
      (fw : Firmware B) → (say_time twi fw).output ≡ fw.output ++ time_text (get_time twi fw.rtc).0
  unfolding say_time print
  said fw = refl

  set_clock_with_err :
      (vs : List ℕ)
      → length vs ≢ 6
      → (fw : Firmware B) → set_clock_with twi vs fw ≡ print (codes "err") fw
  unfolding set_clock_with
  set_clock_with_err [] h fw = refl
  set_clock_with_err (a ∷ []) h fw = refl
  set_clock_with_err (a ∷ b ∷ []) h fw = refl
  set_clock_with_err (a ∷ b ∷ c ∷ []) h fw = refl
  set_clock_with_err (a ∷ b ∷ c ∷ d ∷ []) h fw = refl
  set_clock_with_err (a ∷ b ∷ c ∷ d ∷ e ∷ []) h fw = refl
  set_clock_with_err (a ∷ b ∷ c ∷ d ∷ e ∷ g ∷ []) h fw = absurd (h refl)
  set_clock_with_err (a ∷ b ∷ c ∷ d ∷ e ∷ g ∷ i ∷ vs) h fw = refl

module _ {B : Type 0} (twi : Twi B) (chip : RegisterChip twi) where
  say_time-set_clock :
      (fw : Firmware B) (t : Time) (rest : Bytes)
      → fw.input ≡ time_text t ++ rest
      → IsReady fw.rtc
      → IsStorable t
      → Stops rest
      → ((set_clock twi fw).input ≡ rest)
        × ((set_clock twi fw).output ≡ fw.output ++ codes "set")
        × ((say_time twi (set_clock twi fw)).output ≡ (fw.output ++ codes "set") ++ time_text t)
  say_time-set_clock fw t rest text ready fits stops =
      let reset =
        (reset_rtc-Holds twi chip fw.rtc (record { ready = ready; holds = refl })).ready in
      let told = get_time-set_time twi chip t (reset_rtc twi fw.rtc) 3 reset fits (inl refl) in
      rw (set_clock_text twi fw t rest text fits stops)
        (refl, refl, said twi _ ∙ ap (λ x. (fw.output ++ codes "set") ++ time_text x) told.0)

  -- On a chip that keeps its registers, with the driver's buffers of eight bytes: where the scan
  -- of the input does not bring six numbers, `set_clock` replies "err", but the seconds of the
  -- clock are 0 all the same, and the other fields of the time as before.
  pub set_clock_err :
      (fw : Firmware B)
      → length (fscanf clock_format fw.input).0 ≢ 6
      → IsReady fw.rtc
      → ((set_clock twi fw).output ≡ fw.output ++ codes "err")
        × ((get_time twi (set_clock twi fw).rtc).0 ≡ record (get_time twi fw.rtc).0 { second = 0 })
  set_clock_err fw bad ready =
      let state = record fw {
        input = (fscanf clock_format fw.input).1;
        rtc = reset_rtc twi fw.rtc;
      } in
      let err = set_clock_with_err twi (fscanf clock_format fw.input).0 bad state in
      unfold set_clock in
      rw err (unfold print in (refl, (get_time-reset_rtc twi chip fw.rtc ready).1))
