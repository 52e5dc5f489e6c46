-- ===== src/Main/Session.antt =====
-- What the host is told in two rounds of the main loop.
use iss_notify_firmware.Common.{
  some, List, ◌++◌, Bytes, codes, length, All, take, take-fill, ◌≡◌, ◌≤◌, refl, ap, ◌∙◌, arith,
}
use iss_notify_firmware.Twi.{Twi}
use iss_notify_firmware.Stdio.Digits.{NoSpace, unsigned_decimal-NoSpace}
use iss_notify_firmware.Firmware.{Firmware, Eeprom, Pass, max_pass, print}
use iss_notify_firmware.Commands.Passes.{dump_mem}
use iss_notify_firmware.Commands.Passes.Upload.{
  upload_text, IsPass, uploaded, dump_text, set_passes-upload, dump_mem_stored,
}
use iss_notify_firmware.Commands.Dispatch.{Command, respond}
use iss_notify_firmware.Commands.Invariant.{IsWellFormed}
use iss_notify_firmware.Main.{iteration}
use iss_notify_firmware.Main.Command.{command_text, SameStore, iteration_command}

module _ {B : Type 0} (twi : Twi B) where
  -- The first round.
  iteration-upload :
      {fw : Firmware B} (ps : List Pass) (rest : Bytes)
      → fw.input ≡ command_text b'u' (upload_text ps rest)
      → length ps ≤ max_pass
      → All IsPass ps
      → NoSpace rest
      → IsWellFormed fw
      → (fw' : Firmware B) × (iteration twi fw ≡ some fw')
        × SameStore twi (uploaded fw ps rest) fw'
        × IsWellFormed fw'
  iteration-upload {fw} ps rest text few fits clear w =
      iteration_command twi 4 b'u' Command.set_passes (upload_text ps rest) refl text
        (unsigned_decimal-NoSpace (length ps) _) w
        (unfold respond in
          set_passes-upload (record fw { input = upload_text ps rest }) ps rest refl few fits clear
            w.array)

  pub answers : (fw : Firmware B) → respond twi Command.dump_mem fw ≡ some (dump_mem fw)
  unfolding respond
  answers fw = refl

  dump_mem-input : (fw : Firmware B) → (dump_mem fw).input ≡ fw.input
  unfolding dump_mem print
  dump_mem-input fw = refl

  dump_mem-eeprom : (fw : Firmware B) → (dump_mem fw).eeprom ≡ fw.eeprom
  unfolding dump_mem print
  dump_mem-eeprom fw = refl

  -- From a well-formed state whose input is the command "ISSu" with the text of at most ten
  -- passes, whose fields fit their types, then the command "ISSd" and a text that does not begin
  -- with white space: two rounds of the main loop, with no interrupt in them, end and read exactly
  -- the two commands; the replies are "set" and the dump of the colour and of exactly these passes
  -- in order, whatever the EEPROM held before, and the EEPROM holds these passes in front, and
  -- their number.
  pub upload_session :
      (fw : Firmware B) (ps : List Pass) (rest : Bytes)
      → fw.input ≡ command_text b'u' (upload_text ps (command_text b'd' rest))
      → length ps ≤ max_pass
      → All IsPass ps
      → NoSpace rest
      → IsWellFormed fw
      → (fw₁ : Firmware B) × (fw₂ : Firmware B) × (iteration twi fw ≡ some fw₁)
        × (iteration twi fw₁ ≡ some fw₂)
        × (fw₂.output ≡ (fw.output ++ codes "set") ++ dump_text fw.eeprom.color ps)
        × (fw₂.input ≡ rest)
        × (fw₂.eeprom ≡ (uploaded fw ps rest).eeprom)
  upload_session fw ps rest text few fits clear w =
      let (fw₁, first, same₁, w₁) =
        iteration-upload ps (command_text b'd' rest) text few fits refl w in
      let asked = record fw₁ { input = rest } in
      let (fw₂, second, same₂, w₂) =
        iteration_command twi 5 b'd' Command.dump_mem rest refl same₁.input clear w₁
          (answers asked) in
      let stored : asked.eeprom ≡ (uploaded fw ps rest).eeprom = same₁.eeprom in
      let dumped : (dump_mem asked).output ≡ asked.output ++ dump_text asked.eeprom.color ps =
        dump_mem_stored asked ps (ap (λ (e : Eeprom). e.num_passes) stored)
          (ap (λ (e : Eeprom). take (length ps) e.passes) stored
            ∙ take-fill fw.eeprom.passes ps (omega (arith, w.slots)))
          few in
      (
        fw₁,
        fw₂,
        first,
        second,
        same₂.output
            ∙ dumped
            ∙ ap (λ o. o ++ dump_text asked.eeprom.color ps) same₁.output
            ∙ ap (λ (e : Eeprom). (fw.output ++ codes "set") ++ dump_text e.color ps) stored,
        same₂.input ∙ dump_mem-input asked,
        same₂.eeprom ∙ dump_mem-eeprom asked ∙ stored,
      )
