-- ===== src/Main/Command.antt =====
-- A round of the main loop on the text of a command.
use iss_notify_firmware.Common.{
  ℕ, Bool, true, false, some, [], ◌∷◌, Bytes, get_elem?, ◌≡◌, refl, ap, ◌∙◌, subst, ltb,
  if◌then◌else◌, ◌>>=◌, Bool-cases, inl, inr,
}
use iss_notify_firmware.Twi.{Twi}
use iss_notify_firmware.Rtc.{Rtc, clear_alarm0}
use iss_notify_firmware.Stdio.{fscanf}
use iss_notify_firmware.Stdio.Digits.{NoSpace}
use iss_notify_firmware.Stdio.Fields.{fscanf-lit, fscanf-char, fscanf-space}
use iss_notify_firmware.Firmware.{Firmware, led_show}
use iss_notify_firmware.Commands.Dispatch.{Command, commands, respond}
use iss_notify_firmware.Commands.Lookup.{dispatch_entry}
use iss_notify_firmware.Commands.Invariant.{IsWellFormed, Keeps, respond-IsWellFormed}
use iss_notify_firmware.Main.{command_format, obey, listen, handle_alarm, handle_reset, iteration}
use iss_notify_firmware.Main.Rainbow.{advance, rainbow_step}
use iss_notify_firmware.Main.Rotation.{shown, rainbow_step-shown}
use iss_notify_firmware.Main.Events.{rainbow_step_off, handle_alarm-IsWellFormed, iteration-Keeps}

-- "ISS", the letter, and a line's end.
abbrev pub command_text : ℕ → Bytes → Bytes
command_text letter rest = b'I' ∷ b'S' ∷ b'S' ∷ letter ∷ b'\n' ∷ rest

scan_command :
    (letter : ℕ) (rest : Bytes)
    → NoSpace rest
    → fscanf command_format (command_text letter rest) ≡ (letter ∷ [], rest)
scan_command letter rest clear =
    rw
      (
        fscanf-lit b'I',
        fscanf-lit b'S',
        fscanf-lit b'S',
        fscanf-char letter,
        fscanf-space [] rest clear,
      )
      (unfold fscanf in refl)

-- Two states of the clock's driver with nothing but clearings of the alarm in between.
pub data Clears {B : Type 0} (twi : Twi B) (r : Rtc B) : Rtc B → Type 0 where
  none_yet : Clears twi r r
  once_more : {r' : Rtc B} → Clears twi r r' → Clears twi r (clear_alarm0 twi r')

-- What the part of a round behind the command leaves alone.
pub record SameStore {B : Type 0} (twi : Twi B) (s t : Firmware B) : Type 0 where
  pub input : t.input ≡ s.input
  pub output : t.output ≡ s.output
  pub eeprom : t.eeprom ≡ s.eeprom
  pub clock : Clears twi s.rtc t.rtc

module _ {B : Type 0} (twi : Twi B) where
  pub listen_command :
      (i letter : ℕ) (command : Command) (fw : Firmware B) (rest : Bytes)
      → get_elem? commands i ≡ some (letter, command)
      → fw.input ≡ command_text letter rest
      → NoSpace rest
      → listen twi fw ≡ respond twi command (record fw { input = rest })
  unfolding listen obey
  listen_command i letter command fw rest entry text clear =
      rw (ap (fscanf command_format) text ∙ scan_command letter rest clear)
        (dispatch_entry twi (record fw { input = rest }) i letter command entry)

  Clears-trans : {a b c : Rtc B} → Clears twi a b → Clears twi b c → Clears twi a c
  Clears-trans h none_yet = h
  Clears-trans h (once_more k) = once_more (Clears-trans h k)

  SameStore-refl : (s : Firmware B) → SameStore twi s s
  SameStore-refl s = record { input = refl; output = refl; eeprom = refl; clock = none_yet }

  SameStore-trans : {a b c : Firmware B} → SameStore twi a b → SameStore twi b c → SameStore twi a c
  SameStore-trans h k = record {
    input = k.input ∙ h.input;
    output = k.output ∙ h.output;
    eeprom = k.eeprom ∙ h.eeprom;
    clock = Clears-trans h.clock k.clock;
  }

  -- The driver and all else as they were, or the alarm cleared.
  SameStore-if :
      (b : Bool) (s x : Firmware B) → SameStore twi s x → SameStore twi s (if b then x else s)
  SameStore-if true s x h = h
  SameStore-if false s x h = SameStore-refl s

  handle_alarm-SameStore : (fw : Firmware B) → SameStore twi fw (handle_alarm twi fw)
  unfolding handle_alarm
  handle_alarm-SameStore fw =
      SameStore-if (ltb 0 fw.alarm) fw _
        (record { input = refl; output = refl; eeprom = refl; clock = once_more none_yet })

  Clears-if : (b : Bool) (r : Rtc B) → Clears twi r (if b then clear_alarm0 twi r else r)
  Clears-if true r = once_more none_yet
  Clears-if false r = none_yet

  handle_reset-SameStore : (fw : Firmware B) → SameStore twi fw (handle_reset twi fw)
  unfolding handle_reset
  handle_reset-SameStore fw = record {
    input = refl;
    output = refl;
    eeprom = refl;
    clock = Clears-if (ltb 0 fw.reset_alarm) fw.rtc;
  }

  led_show-SameStore : (fw : Firmware B) → SameStore twi fw (led_show fw)
  unfolding led_show
  led_show-SameStore fw = record { input = refl; output = refl; eeprom = refl; clock = none_yet }

  advance-SameStore : (fw : Firmware B) → SameStore twi fw (advance fw)
  unfolding advance
  advance-SameStore fw =
      SameStore-if _ fw _ (record { input = refl; output = refl; eeprom = refl; clock = none_yet })

  shown-SameStore : (fw : Firmware B) → SameStore twi fw (shown fw)
  unfolding led_show
  shown-SameStore fw =
      let h = advance-SameStore fw in
      record { input = h.input; output = h.output; eeprom = h.eeprom; clock = h.clock }

  pub rainbow_step-SameStore :
      {fw : Firmware B}
      → IsWellFormed fw
      → (fw' : Firmware B) × (rainbow_step fw ≡ some fw') × SameStore twi fw fw'
  rainbow_step-SameStore {fw} w = elim (Bool-cases fw.do_rainbow) [
    | inl on ↦ (shown fw, rainbow_step-shown fw on w.lights w.wheel, shown-SameStore fw)
    | inr off ↦ (fw, rainbow_step_off twi fw off, SameStore-refl fw)
  ]

  -- The round goes on to its end.
  iteration_heard :
      (fw : Firmware B) {heard : Firmware B}
      → listen twi fw ≡ some heard
      → IsWellFormed heard
      → (fw' : Firmware B) × (iteration twi fw ≡ some fw') × SameStore twi heard fw'
  unfolding iteration
  iteration_heard fw {heard} e w =
      let ready = handle_alarm-IsWellFormed twi w in
      let (turned, drawn, same) = rainbow_step-SameStore ready in
      (
        handle_reset twi (led_show turned),
        rw e (ap (λ m. m >>= λ fw₂. some (handle_reset twi (led_show fw₂))) drawn),
        SameStore-trans (handle_alarm-SameStore heard) (
            SameStore-trans same (
              SameStore-trans (led_show-SameStore turned)
                (handle_reset-SameStore (led_show turned)))),
      )

  -- The round on the text of a command.
  pub iteration_command :
      (i letter : ℕ) (command : Command) {fw answered : Firmware B} (rest : Bytes)
      → get_elem? commands i ≡ some (letter, command)
      → fw.input ≡ command_text letter rest
      → NoSpace rest
      → IsWellFormed fw
      → respond twi command (record fw { input = rest }) ≡ some answered
      → (fw' : Firmware B) × (iteration twi fw ≡ some fw')
        × SameStore twi answered fw'
        × IsWellFormed fw'
  iteration_command i letter command {fw} {answered} rest entry text clear w e =
      let heard = listen_command i letter command fw rest entry text clear ∙ e in
      let kept : IsWellFormed answered =
        subst Keeps e
          (respond-IsWellFormed twi command {fw = record fw { input = rest }} (assumption)) in
      let (fw', round, same) = iteration_heard fw heard kept in
      (fw', round, same, subst Keeps round (iteration-Keeps twi w))
