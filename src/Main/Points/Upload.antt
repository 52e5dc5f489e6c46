-- ===== src/Main/Points/Upload.antt =====
-- An upload and a dump while the interrupts come.
use iss_notify_firmware.Common.{
  some, List, ◌++◌, Bytes, codes, length, All, take, fill, take-fill, ◌≡◌, ◌≤◌, refl, ap, ◌∙◌,
  arith,
}
use iss_notify_firmware.Twi.{Twi}
use iss_notify_firmware.Stdio.Digits.{NoSpace, unsigned_decimal-NoSpace}
use iss_notify_firmware.Firmware.{Firmware, Eeprom, Pass, max_pass, print}
use iss_notify_firmware.Commands.Passes.{dump_mem}
use iss_notify_firmware.Commands.Passes.Upload.{
  upload_text, IsPass, uploaded, dump_text, set_passes-upload, dump_mem_stored,
}
use iss_notify_firmware.Commands.Dispatch.{Command, respond}
use iss_notify_firmware.Commands.Invariant.{IsWellFormed}
use iss_notify_firmware.Main.Command.{command_text, listen_command}
use iss_notify_firmware.Main.Session.{answers}
use iss_notify_firmware.Main.Points.{listening, Running, at, statement}
use iss_notify_firmware.Main.Points.Lap.{
  Content, content, Lap, Round, Answers, Round-told, Lap-goes_on,
}

-- The EEPROM with the passes in front, and their number.
abbrev pub with_passes : List Pass → Eeprom → Eeprom
with_passes ps e = record e { passes = fill e.passes ps; num_passes = length ps }

module _ {B : Type 0} (twi : Twi B) where
  Answers-upload :
      (ps : List Pass) (rest out : Bytes) (e : Eeprom)
      → length ps ≤ max_pass
      → All IsPass ps
      → NoSpace rest
      → Answers twi
          (record { input = command_text b'u' (upload_text ps rest); output = out; eeprom = e })
          (record { input = rest; output = out ++ codes "set"; eeprom = with_passes ps e })
  unfolding respond
  Answers-upload ps rest out e few fits clear x w h = (
    uploaded x ps rest,
    listen_command twi 4 b'u' Command.set_passes x (upload_text ps rest) refl
          (ap (λ (c : Content). c.input) h) (unsigned_decimal-NoSpace (length ps) _)
        ∙ set_passes-upload (record x { input = upload_text ps rest }) ps rest refl few fits clear
            w.array,
    (λ i. record {
      input = rest;
      output = (h i).output ++ codes "set";
      eeprom = with_passes ps (h i).eeprom;
    }),
  )

  dumped :
      (fw : Firmware B)
      → content (dump_mem fw) ≡ record (content fw) { output = (dump_mem fw).output }
  unfolding dump_mem print
  dumped fw = refl

  Answers-dump :
      (ps : List Pass) (rest out : Bytes) (e : Eeprom)
      → length ps ≤ max_pass
      → e.num_passes ≡ length ps
      → take (length ps) e.passes ≡ ps
      → NoSpace rest
      → Answers twi
          (record { input = command_text b'd' rest; output = out; eeprom = e })
          (record { input = rest; output = out ++ dump_text e.color ps; eeprom = e })
  Answers-dump ps rest out e few number same clear x w h =
      let asked = record x { input = rest } in
      let stored : asked.eeprom ≡ e = ap (λ (c : Content). c.eeprom) h in
      let said : (dump_mem asked).output ≡ asked.output ++ dump_text asked.eeprom.color ps =
        dump_mem_stored asked ps (ap (λ (m : Eeprom). m.num_passes) stored ∙ number)
          (ap (λ (m : Eeprom). take (length ps) m.passes) stored ∙ same) few in
      (
        dump_mem asked,
        listen_command twi 5 b'd' Command.dump_mem x rest refl (ap (λ (c : Content). c.input) h)
              clear
            ∙ answers twi asked,
        dumped asked ∙ ap (λ o. record (content asked) { output = o }) said ∙ (λ i. record {
          input = rest;
          output = (h i).output ++ dump_text (h i).eeprom.color ps;
          eeprom = (h i).eeprom;
        }),
      )

  -- From a well-formed state at the beginning of the main loop whose input is the command "ISSu"
  -- with the text of at most ten passes, whose fields fit their types, then the command "ISSd" and
  -- a text that does not begin with white space, and with nothing further from the host: however
  -- the two interrupts fall between the statements of two rounds, no statement of the rounds is
  -- stuck, and after the second round the firmware stands at the beginning of the loop, has read
  -- exactly the two commands, has replied "set" and the dump of the colour and of exactly these
  -- passes, and has them in the EEPROM in front, with their number.
  pub interrupted_upload :
      (fw : Firmware B) (ps : List Pass) (rest : Bytes) {r s t u : Running B}
      → fw.input ≡ command_text b'u' (upload_text ps (command_text b'd' rest))
      → length ps ≤ max_pass
      → All IsPass ps
      → NoSpace rest
      → IsWellFormed fw
      → Lap twi (at listening fw) r
      → Round twi (at listening fw) s
      → Lap twi s t
      → Round twi s u
      → ((v : Running B) × (statement twi r.point r.firmware ≡ some v))
        × ((v : Running B) × (statement twi t.point t.firmware ≡ some v))
        × (u.point ≡ listening)
        × (u.firmware.output ≡ (fw.output ++ codes "set") ++ dump_text fw.eeprom.color ps)
        × (u.firmware.input ≡ rest)
        × (u.firmware.eeprom ≡ with_passes ps fw.eeprom)
  interrupted_upload fw ps rest {s} {t} {u} text few fits clear w early first amid second =
      let out = fw.output ++ codes "set" in
      let e = with_passes ps fw.eeprom in
      let before : Content = record {
        input = command_text b'u' (upload_text ps (command_text b'd' rest));
        output = fw.output;
        eeprom = fw.eeprom;
      } in
      let between : Content = record { input = command_text b'd' rest; output = out; eeprom = e } in
      let behind : Content = record {
        input = rest;
        output = out ++ dump_text e.color ps;
        eeprom = e;
      } in
      let asks : content fw ≡ before =
        λ i. record { input = text i; output = fw.output; eeprom = fw.eeprom } in
      let dumps : Answers twi between behind =
        Answers-dump ps rest out e few refl (take-fill fw.eeprom.passes ps (omega (arith, w.slots)))
          clear in
      let loads : Answers twi before between =
        Answers-upload ps (command_text b'd' rest) fw.output fw.eeprom few fits refl in
      let (w₁, at_start, told) = Round-told twi before between first loads w refl asks in
      let (w₂, at_end, said) = Round-told twi between behind second dumps w₁ at_start told in
      (
        Lap-goes_on twi before between early loads w refl asks,
        Lap-goes_on twi between behind amid dumps w₁ at_start told,
        at_end,
        ap (λ (c : Content). c.output) said,
        ap (λ (c : Content). c.input) said,
        ap (λ (c : Content). c.eeprom) said,
      )
