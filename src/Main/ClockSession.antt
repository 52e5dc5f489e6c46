-- ===== src/Main/ClockSession.antt =====
-- The clock is set in one round of the main loop and read in the next.
use iss_notify_firmware.Common.{ℕ, some, ◌++◌, Bytes, codes, ◌≡◌, refl, ap, sym, ◌∙◌, inl}
use iss_notify_firmware.Twi.{Twi}
use iss_notify_firmware.Rtc.{Rtc, Time, get_time, set_time, reset_rtc}
use iss_notify_firmware.Rtc.Chip.{RegisterChip, IsReady, Holds, update, registers_of}
use iss_notify_firmware.Rtc.Clock.{
  time_in, time_in_cleared, IsStorable, reset_rtc-Holds, get_time-Holds, set_time-Holds,
  get_time-set_time,
}
use iss_notify_firmware.Rtc.Alarm.{clear_alarm0-Holds}
use iss_notify_firmware.Stdio.Digits.{NoSpace}
use iss_notify_firmware.Firmware.{Firmware, print}
use iss_notify_firmware.Commands.Settings.{time_text, say_time}
use iss_notify_firmware.Commands.ClockText.{set_clock_text, said}
use iss_notify_firmware.Commands.Dispatch.{Command, respond}
use iss_notify_firmware.Commands.Invariant.{IsWellFormed}
use iss_notify_firmware.Main.{iteration}
use iss_notify_firmware.Main.Command.{command_text, Clears, none_yet, once_more, iteration_command}

time_text-NoSpace : (t : Time) (s : Bytes) → NoSpace (time_text t ++ s)
unfolding time_text
time_text-NoSpace t s = refl

module _ {B : Type 0} (twi : Twi B) (chip : RegisterChip twi) where
  -- The chip's registers behind clearings of the alarm.
  record ShowsTime (t : Time) (r : Rtc B) : Type 0 where
    registers : ℕ → ℕ
    holds : Holds twi chip registers r
    shows : time_in registers ≡ t

  Clears-ShowsTime : {r r' : Rtc B} (t : Time) → Clears twi r r' → ShowsTime t r → ShowsTime t r'
  Clears-ShowsTime t none_yet h = h
  Clears-ShowsTime t (once_more {r'} c) h =
      let before = Clears-ShowsTime t c h in
      record {
        registers = update (update before.registers 0x0d 0) 7 0x80;
        holds = clear_alarm0-Holds twi chip r' before.holds;
        shows = time_in_cleared before.registers ∙ before.shows;
      }

  set_time-ShowsTime :
      (t : Time) (r : Rtc B)
      → IsStorable t
      → IsReady r
      → ShowsTime t (set_time twi t (reset_rtc twi r))
  set_time-ShowsTime t r fits ready =
      let reset = reset_rtc-Holds twi chip r (record { ready = ready; holds = refl }) in
      let done = set_time-Holds twi chip t (reset_rtc twi r) reset in
      record {
        registers = registers_of twi chip (set_time twi t (reset_rtc twi r));
        holds = record { ready = done.ready; holds = refl };
        shows =
            sym (get_time-Holds twi chip _ (record { ready = done.ready; holds = refl })).0
            ∙ (get_time-set_time twi chip t (reset_rtc twi r) 3 reset.ready fits (inl refl)).0;
      }

  sets :
      (fw : Firmware B) (t : Time) (rest : Bytes)
      → fw.input ≡ time_text t ++ command_text b't' rest
      → IsStorable t
      → respond twi Command.set_clock fw
        ≡ some (record fw {
          input = command_text b't' rest;
          output = fw.output ++ codes "set";
          rtc = set_time twi t (reset_rtc twi fw.rtc);
        })
  unfolding respond
  sets fw t rest text fits =
      ap some (set_clock_text twi fw t (command_text b't' rest) text fits refl)

  says : (fw : Firmware B) → respond twi Command.say_time fw ≡ some (say_time twi fw)
  unfolding respond
  says fw = refl

  say_time-input : (fw : Firmware B) → (say_time twi fw).input ≡ fw.input
  unfolding say_time print
  say_time-input fw = refl

  -- On a chip that keeps its registers: from a well-formed state whose input is the command "ISST"
  -- with the text of a time whose fields fit the clock's registers, then the command "ISSt" and a
  -- text that does not begin with white space, two rounds of the main loop, with no interrupt in
  -- them, end and read exactly the two commands; the replies are "set" and the text of the same
  -- time, also where the rounds clear an alarm.
  pub clock_session :
      (fw : Firmware B) (t : Time) (rest : Bytes)
      → fw.input ≡ command_text b'T' (time_text t ++ command_text b't' rest)
      → IsStorable t
      → NoSpace rest
      → IsWellFormed fw
      → (fw₁ : Firmware B) × (fw₂ : Firmware B) × (iteration twi fw ≡ some fw₁)
        × (iteration twi fw₁ ≡ some fw₂)
        × (fw₂.output ≡ (fw.output ++ codes "set") ++ time_text t)
        × (fw₂.input ≡ rest)
  clock_session fw t rest text fits clear w =
      let heard = record fw { input = time_text t ++ command_text b't' rest } in
      let (fw₁, first, same₁, w₁) =
        iteration_command twi 6 b'T' Command.set_clock (time_text t ++ command_text b't' rest) refl
          text (time_text-NoSpace t _) w (sets heard t rest refl fits) in
      let asked = record fw₁ { input = rest } in
      let (fw₂, second, same₂, w₂) =
        iteration_command twi 3 b't' Command.say_time rest refl same₁.input clear w₁ (says asked) in
      let shown = Clears-ShowsTime t same₁.clock (set_time-ShowsTime t fw.rtc fits w.clock) in
      let told : (get_time twi fw₁.rtc).0 ≡ t =
        (get_time-Holds twi chip fw₁.rtc shown.holds).0 ∙ shown.shows in
      (
        fw₁,
        fw₂,
        first,
        second,
        same₂.output
            ∙ said twi asked
            ∙ ap (λ o. o ++ time_text (get_time twi fw₁.rtc).0) same₁.output
            ∙ ap (λ x. (fw.output ++ codes "set") ++ time_text x) told,
        same₂.input ∙ say_time-input asked,
      )
