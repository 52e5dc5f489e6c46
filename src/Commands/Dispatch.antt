-- ===== src/Commands/Dispatch.antt =====
-- commands.h: the table of the commands, and the search that the main loop makes in it.
use iss_notify_firmware.Common.{ℕ, Option, some, List, [], ◌∷◌, ◌==◌, if◌then◌else◌}
use iss_notify_firmware.Twi.{Twi}
use iss_notify_firmware.Firmware.{Firmware}
use iss_notify_firmware.Commands.Settings
use iss_notify_firmware.Commands.Passes

-- The functions that `cmd.resp` points to.
pub data Command : Type 0 where
  ack say_ms set_color say_time set_passes dump_mem set_clock : Command
  wb_red wb_green wb_blue set_wb show_color toggle_rainbow : Command

-- `COMMANDS`
abbrev pub commands : List (ℕ × Command)
commands =
    (b'a', ack)
    ∷ (b'm', say_ms)
    ∷ (b'c', set_color)
    ∷ (b't', say_time)
    ∷ (b'u', set_passes)
    ∷ (b'd', dump_mem)
    ∷ (b'T', set_clock)
    ∷ (b'r', wb_red)
    ∷ (b'g', wb_green)
    ∷ (b'b', wb_blue)
    ∷ (b'W', set_wb)
    ∷ (b'l', show_color)
    ∷ (b'x', toggle_rainbow)
    ∷ []

module _ {B : Type 0} (twi : Twi B) where
  -- `command.resp()`
  unfoldable pub respond : Command → Firmware B → Option (Firmware B)
  respond ack fw = some (Settings.ack fw)
  respond say_ms fw = some (Settings.say_ms fw)
  respond set_color fw = some (Settings.set_color fw)
  respond say_time fw = some (Settings.say_time twi fw)
  respond set_passes fw = Passes.set_passes fw
  respond dump_mem fw = some (Passes.dump_mem fw)
  respond set_clock fw = some (Settings.set_clock twi fw)
  respond wb_red fw = some (Settings.wb_red fw)
  respond wb_green fw = some (Settings.wb_green fw)
  respond wb_blue fw = some (Settings.wb_blue fw)
  respond set_wb fw = some (Settings.set_wb fw)
  respond show_color fw = some (Settings.show_color fw)
  respond toggle_rainbow fw = some (Settings.toggle_rainbow fw)

  -- The loop over the table: the first entry with the letter responds; with none, nothing happens.
  unfoldable pub dispatch : List (ℕ × Command) → ℕ → Firmware B → Option (Firmware B)
  dispatch [] c fw = some fw
  dispatch ((k, command) ∷ table) c fw = if k == c then respond command fw else dispatch table c fw
