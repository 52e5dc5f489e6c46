-- ===== src/Commands/Invariant.antt =====
-- The invariant of the firmware's state, and that every command keeps it.
use iss_notify_firmware.Common.{
  ℕ, zero, suc, ◌+◌, ◌≤◌, ◌<◌, ◌^◌, ◌*◌, ◌/◌, u8, u16, take, Bool, true, false, Option, none, some,
  List, [], ◌∷◌, Bytes, codes, length, length-set, length-fill, set, ◌==◌, if◌then◌else◌, ◌>>=◌,
  ◌≡◌, refl, ◌∙◌, arith,
}
use iss_notify_firmware.Led.{Light, dark}
use iss_notify_firmware.Led.Wire.{IsIdle}
use iss_notify_firmware.Led.Frame.{led-frame}
use iss_notify_firmware.Twi.{Twi}
use iss_notify_firmware.Rtc.{mktime}
use iss_notify_firmware.Rtc.Chip.{IsReady}
use iss_notify_firmware.Rtc.Ready.{get_time-IsReady, set_time-IsReady, reset_rtc-IsReady}
use iss_notify_firmware.Stdio.{fscanf}
use iss_notify_firmware.Firmware.{Firmware, Pass, max_pass, print, led_show}
use iss_notify_firmware.Commands.Settings
use iss_notify_firmware.Commands.Settings.{paint}
use iss_notify_firmware.Commands.Passes
use iss_notify_firmware.Commands.Dispatch.{Command, respond, dispatch}

-- The arrays have their lengths, the LED pins are at rest, the wheel stands at 0 to 7, and the
-- two times are 32-bit numbers.
pub record IsWellFormed {B : Type 0} (fw : Firmware B) : Type 0 where
  pub lights : length fw.show ≡ 8
  pub idle : IsIdle fw.leds
  pub wheel : fw.bow_rotate ≤ 7
  pub slots : length fw.eeprom.passes ≡ max_pass
  pub array : length fw.stack ≡ max_pass
  pub clock : IsReady fw.rtc
  pub now : fw.ms < 2 ^ 32
  pub turned : fw.previous_millis < 2 ^ 32

length-paint : (n i : ℕ) (l : Light) (show : List Light) → length (paint n i l show) ≡ length show
unfolding paint
length-paint zero i l show = refl
length-paint (suc n) i l show = length-paint n (i + 1) l (set show i l) ∙ length-set show i l

-- A computation that, if it gives a state, gives a well-formed one.
abbrev pub Keeps : {B : Type 0} → Option (Firmware B) → Type 0
Keeps none = Unit
Keeps (some fw) = IsWellFormed fw

pub Keeps-bind :
    {A B : Type 0} (m : Option A) (f : A → Option (Firmware B))
    → ((a : A) → m ≡ some a → Keeps (f a))
    → Keeps (m >>= f)
Keeps-bind none f h = tt
Keeps-bind (some a) f h = h a refl

length-update_block :
    (num : ℕ) (block stored passes : List Pass)
    → Passes.update_block num block stored ≡ some passes
    → length passes ≡ length stored
unfolding Passes.update_block
length-update_block num block stored passes h =
    ground (arith, length-fill stored (take (u16 (6 * num) / 6) block))

module _ {B : Type 0} where
  pub if-IsWellFormed :
      (b : Bool) {x y : Firmware B}
      → IsWellFormed x
      → IsWellFormed y
      → IsWellFormed (if b then x else y)
  if-IsWellFormed true h k = h
  if-IsWellFormed false h k = k

  if-Keeps : (b : Bool) (x y : Option (Firmware B)) → Keeps x → Keeps y → Keeps (if b then x else y)
  if-Keeps true x y h k = h
  if-Keeps false x y h k = k

  print-IsWellFormed :
      (text : Bytes) {fw : Firmware B} → IsWellFormed fw → IsWellFormed (print text fw)
  unfolding print
  print-IsWellFormed text w = assumption

  pub led_show-IsWellFormed : {fw : Firmware B} → IsWellFormed fw → IsWellFormed (led_show fw)
  unfolding led_show
  led_show-IsWellFormed {fw} w =
      let idle = (led-frame fw.wb fw.show fw.leds w.lights w.idle).idle in assumption idle

  -- All lights in one colour.
  pub painted :
      (l : Light) {fw : Firmware B}
      → IsWellFormed fw
      → IsWellFormed (record fw { show = paint 8 0 l fw.show })
  painted l {fw} w = let lights = length-paint 8 0 l fw.show ∙ w.lights in assumption lights

  err : {fw : Firmware B} → IsWellFormed fw → IsWellFormed (print (codes "err") fw)
  err w = print-IsWellFormed (codes "err") w

  show_white-IsWellFormed :
      {fw : Firmware B} → IsWellFormed fw → IsWellFormed (Settings.show_white fw)
  unfolding Settings.show_white
  show_white-IsWellFormed w = print-IsWellFormed (codes "set") (led_show-IsWellFormed (painted _ w))

  set_color_with-IsWellFormed :
      (vs : List ℕ) {fw : Firmware B}
      → IsWellFormed fw
      → IsWellFormed (Settings.set_color_with vs fw)
  unfolding Settings.set_color_with
  set_color_with-IsWellFormed [] w = err w
  set_color_with-IsWellFormed (v ∷ []) w = print-IsWellFormed (codes "set") (assumption)
  set_color_with-IsWellFormed (v ∷ u ∷ vs) w = err w

  wb_red_with-IsWellFormed :
      (vs : List ℕ) {fw : Firmware B} → IsWellFormed fw → IsWellFormed (Settings.wb_red_with vs fw)
  unfolding Settings.wb_red_with
  wb_red_with-IsWellFormed [] w = err w
  wb_red_with-IsWellFormed (v ∷ []) w = show_white-IsWellFormed (assumption)
  wb_red_with-IsWellFormed (v ∷ u ∷ vs) w = err w

  wb_green_with-IsWellFormed :
      (vs : List ℕ) {fw : Firmware B}
      → IsWellFormed fw
      → IsWellFormed (Settings.wb_green_with vs fw)
  unfolding Settings.wb_green_with
  wb_green_with-IsWellFormed [] w = err w
  wb_green_with-IsWellFormed (v ∷ []) w = show_white-IsWellFormed (assumption)
  wb_green_with-IsWellFormed (v ∷ u ∷ vs) w = err w

  wb_blue_with-IsWellFormed :
      (vs : List ℕ) {fw : Firmware B} → IsWellFormed fw → IsWellFormed (Settings.wb_blue_with vs fw)
  unfolding Settings.wb_blue_with
  wb_blue_with-IsWellFormed [] w = err w
  wb_blue_with-IsWellFormed (v ∷ []) w = show_white-IsWellFormed (assumption)
  wb_blue_with-IsWellFormed (v ∷ u ∷ vs) w = err w

  set_wb_with-IsWellFormed :
      (vs : List ℕ) {fw : Firmware B} → IsWellFormed fw → IsWellFormed (Settings.set_wb_with vs fw)
  unfolding Settings.set_wb_with
  set_wb_with-IsWellFormed [] w = err w
  set_wb_with-IsWellFormed (b ∷ []) w = err w
  set_wb_with-IsWellFormed (b ∷ g ∷ []) w = err w
  set_wb_with-IsWellFormed (b ∷ g ∷ r ∷ []) {fw} w =
      let all = painted dark w in
      print-IsWellFormed (codes "set") (led_show-IsWellFormed (assumption (all.lights)))
  set_wb_with-IsWellFormed (b ∷ g ∷ r ∷ v ∷ vs) w = err w

  show_color_with-IsWellFormed :
      (vs : List ℕ) {fw : Firmware B}
      → IsWellFormed fw
      → IsWellFormed (Settings.show_color_with vs fw)
  unfolding Settings.show_color_with
  show_color_with-IsWellFormed [] w = err w
  show_color_with-IsWellFormed (b ∷ []) w = err w
  show_color_with-IsWellFormed (b ∷ g ∷ []) w = err w
  show_color_with-IsWellFormed (b ∷ g ∷ r ∷ []) w = led_show-IsWellFormed (painted _ w)
  show_color_with-IsWellFormed (b ∷ g ∷ r ∷ v ∷ vs) w = err w

  toggle_rainbow-IsWellFormed :
      {fw : Firmware B} → IsWellFormed fw → IsWellFormed (Settings.toggle_rainbow fw)
  unfolding Settings.toggle_rainbow
  toggle_rainbow-IsWellFormed {fw} w =
      let off = painted dark w in
      if-IsWellFormed fw.do_rainbow (led_show-IsWellFormed (assumption (off.lights))) (assumption)

  set_passes_with-Keeps :
      (vs : List ℕ) {fw : Firmware B} → IsWellFormed fw → Keeps (Passes.set_passes_with vs fw)
  unfolding Passes.set_passes_with
  set_passes_with-Keeps [] w = err w
  set_passes_with-Keeps (num ∷ []) {fw} w =
      Keeps-bind (Passes.read_passes Passes.loop_fuel num 0 fw.stack fw.input) _ λ r _.
        Keeps-bind (Passes.update_block num r.0 fw.eeprom.passes) _ λ passes e.
          let slots = length-update_block num r.0 fw.eeprom.passes passes e ∙ w.slots in
          print-IsWellFormed (codes "set") (assumption slots)
  set_passes_with-Keeps (num ∷ v ∷ vs) w = err w

module _ {B : Type 0} (twi : Twi B) where
  set_clock_with-IsWellFormed :
      (vs : List ℕ) {fw : Firmware B}
      → IsWellFormed fw
      → IsWellFormed (Settings.set_clock_with twi vs fw)
  unfolding Settings.set_clock_with
  set_clock_with-IsWellFormed [] w = err w
  set_clock_with-IsWellFormed (a ∷ []) w = err w
  set_clock_with-IsWellFormed (a ∷ b ∷ []) w = err w
  set_clock_with-IsWellFormed (a ∷ b ∷ c ∷ []) w = err w
  set_clock_with-IsWellFormed (a ∷ b ∷ c ∷ d ∷ []) w = err w
  set_clock_with-IsWellFormed (a ∷ b ∷ c ∷ d ∷ e ∷ []) w = err w
  set_clock_with-IsWellFormed (a ∷ b ∷ c ∷ d ∷ e ∷ g ∷ []) {fw} w =
      let t = mktime (u8 a) (u8 b) (u8 c) (u8 d) (u8 e) (u8 g) in
      let clock = set_time-IsReady twi t fw.rtc w.clock in
      print-IsWellFormed (codes "set") (assumption clock)
  set_clock_with-IsWellFormed (a ∷ b ∷ c ∷ d ∷ e ∷ g ∷ i ∷ vs) w = err w

  pub respond-IsWellFormed :
      (command : Command) {fw : Firmware B} → IsWellFormed fw → Keeps (respond twi command fw)
  unfolding respond
  respond-IsWellFormed Command.ack w = unfold Settings.ack in print-IsWellFormed (codes "ack") w
  respond-IsWellFormed Command.say_ms w = unfold Settings.say_ms in print-IsWellFormed _ w
  respond-IsWellFormed Command.set_color {fw} w =
      unfold Settings.set_color in
      set_color_with-IsWellFormed (fscanf Settings.one_number fw.input).0 (assumption)
  respond-IsWellFormed Command.say_time w =
      unfold Settings.say_time in
      let clock = get_time-IsReady twi _ w.clock in print-IsWellFormed _ (assumption clock)
  respond-IsWellFormed Command.set_passes {fw} w =
      unfold Passes.set_passes in
      set_passes_with-Keeps (fscanf Passes.count_format fw.input).0 (assumption)
  respond-IsWellFormed Command.dump_mem w =
      unfold Passes.dump_mem in print-IsWellFormed _ (print-IsWellFormed _ (print-IsWellFormed _ w))
  respond-IsWellFormed Command.set_clock {fw} w =
      unfold Settings.set_clock in
      let clock = reset_rtc-IsReady twi _ w.clock in
      set_clock_with-IsWellFormed (fscanf Settings.clock_format fw.input).0 (assumption clock)
  respond-IsWellFormed Command.wb_red {fw} w =
      unfold Settings.wb_red in
      wb_red_with-IsWellFormed (fscanf Settings.one_number fw.input).0 (assumption)
  respond-IsWellFormed Command.wb_green {fw} w =
      unfold Settings.wb_green in
      wb_green_with-IsWellFormed (fscanf Settings.one_number fw.input).0 (assumption)
  respond-IsWellFormed Command.wb_blue {fw} w =
      unfold Settings.wb_blue in
      wb_blue_with-IsWellFormed (fscanf Settings.one_number fw.input).0 (assumption)
  respond-IsWellFormed Command.set_wb {fw} w =
      unfold Settings.set_wb in
      set_wb_with-IsWellFormed (fscanf Settings.three_numbers fw.input).0 (assumption)
  respond-IsWellFormed Command.show_color {fw} w =
      unfold Settings.show_color in
      show_color_with-IsWellFormed (fscanf Settings.three_numbers fw.input).0 (assumption)
  respond-IsWellFormed Command.toggle_rainbow w = toggle_rainbow-IsWellFormed w

  pub dispatch-IsWellFormed :
      (table : List (ℕ × Command)) (c : ℕ) {fw : Firmware B}
      → IsWellFormed fw
      → Keeps (dispatch twi table c fw)
  unfolding dispatch
  dispatch-IsWellFormed [] c w = w
  dispatch-IsWellFormed ((k, command) ∷ table) c {fw} w =
      if-Keeps (k == c) _ _ (respond-IsWellFormed command w) (dispatch-IsWellFormed table c w)
