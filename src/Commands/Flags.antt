-- ===== src/Commands/Flags.antt =====
-- The commands leave alone the flags and the mask that they share with the interrupts.
use iss_notify_firmware.Common.{
  ℕ, Bool, true, false, Option, none, some, List, [], ◌∷◌, ◌≡◌, refl, ◌==◌, if◌then◌else◌, ◌>>=◌,
}
use iss_notify_firmware.Twi.{Twi}
use iss_notify_firmware.Stdio.{fscanf}
use iss_notify_firmware.Firmware.{Firmware, print, led_show}
use iss_notify_firmware.Commands.Settings
use iss_notify_firmware.Commands.Passes
use iss_notify_firmware.Commands.Dispatch.{Command, respond, dispatch}

-- The flags of the alarm, the note of the pass and the interrupt mask of two states.
abbrev pub SameFlags : {B : Type 0} → Firmware B → Firmware B → Type 0
SameFlags s t =
    (t.alarm ≡ s.alarm) × (t.reset_alarm ≡ s.reset_alarm) × (t.pass ≡ s.pass) × (t.eimsk ≡ s.eimsk)

-- A computation that, if it gives a state, gives one with the same flags.
abbrev pub KeepsFlags : {B : Type 0} → Firmware B → Option (Firmware B) → Type 0
KeepsFlags s none = Unit
KeepsFlags s (some t) = SameFlags s t

KeepsFlags-bind :
    {A B : Type 0} (s : Firmware B) (m : Option A) (f : A → Option (Firmware B))
    → ((a : A) → KeepsFlags s (f a))
    → KeepsFlags s (m >>= f)
KeepsFlags-bind s none f h = tt
KeepsFlags-bind s (some a) f h = h a

module _ {B : Type 0} where
  if-SameFlags :
      (b : Bool) (s x y : Firmware B)
      → SameFlags s x
      → SameFlags s y
      → SameFlags s (if b then x else y)
  if-SameFlags true s x y h k = h
  if-SameFlags false s x y h k = k

  if-KeepsFlags :
      (b : Bool) (s : Firmware B) (x y : Option (Firmware B))
      → KeepsFlags s x
      → KeepsFlags s y
      → KeepsFlags s (if b then x else y)
  if-KeepsFlags true s x y h k = h
  if-KeepsFlags false s x y h k = k

  set_color_with-SameFlags :
      (vs : List ℕ) (fw : Firmware B) → SameFlags fw (Settings.set_color_with vs fw)
  unfolding Settings.set_color_with print
  set_color_with-SameFlags [] fw = (refl, refl, refl, refl)
  set_color_with-SameFlags (v ∷ []) fw = (refl, refl, refl, refl)
  set_color_with-SameFlags (v ∷ u ∷ vs) fw = (refl, refl, refl, refl)

  wb_red_with-SameFlags :
      (vs : List ℕ) (fw : Firmware B) → SameFlags fw (Settings.wb_red_with vs fw)
  unfolding Settings.wb_red_with Settings.show_white print led_show
  wb_red_with-SameFlags [] fw = (refl, refl, refl, refl)
  wb_red_with-SameFlags (v ∷ []) fw = (refl, refl, refl, refl)
  wb_red_with-SameFlags (v ∷ u ∷ vs) fw = (refl, refl, refl, refl)

  wb_green_with-SameFlags :
      (vs : List ℕ) (fw : Firmware B) → SameFlags fw (Settings.wb_green_with vs fw)
  unfolding Settings.wb_green_with Settings.show_white print led_show
  wb_green_with-SameFlags [] fw = (refl, refl, refl, refl)
  wb_green_with-SameFlags (v ∷ []) fw = (refl, refl, refl, refl)
  wb_green_with-SameFlags (v ∷ u ∷ vs) fw = (refl, refl, refl, refl)

  wb_blue_with-SameFlags :
      (vs : List ℕ) (fw : Firmware B) → SameFlags fw (Settings.wb_blue_with vs fw)
  unfolding Settings.wb_blue_with Settings.show_white print led_show
  wb_blue_with-SameFlags [] fw = (refl, refl, refl, refl)
  wb_blue_with-SameFlags (v ∷ []) fw = (refl, refl, refl, refl)
  wb_blue_with-SameFlags (v ∷ u ∷ vs) fw = (refl, refl, refl, refl)

  set_wb_with-SameFlags :
      (vs : List ℕ) (fw : Firmware B) → SameFlags fw (Settings.set_wb_with vs fw)
  unfolding Settings.set_wb_with print led_show
  set_wb_with-SameFlags [] fw = (refl, refl, refl, refl)
  set_wb_with-SameFlags (b ∷ []) fw = (refl, refl, refl, refl)
  set_wb_with-SameFlags (b ∷ g ∷ []) fw = (refl, refl, refl, refl)
  set_wb_with-SameFlags (b ∷ g ∷ r ∷ []) fw = (refl, refl, refl, refl)
  set_wb_with-SameFlags (b ∷ g ∷ r ∷ v ∷ vs) fw = (refl, refl, refl, refl)

  show_color_with-SameFlags :
      (vs : List ℕ) (fw : Firmware B) → SameFlags fw (Settings.show_color_with vs fw)
  unfolding Settings.show_color_with print led_show
  show_color_with-SameFlags [] fw = (refl, refl, refl, refl)
  show_color_with-SameFlags (b ∷ []) fw = (refl, refl, refl, refl)
  show_color_with-SameFlags (b ∷ g ∷ []) fw = (refl, refl, refl, refl)
  show_color_with-SameFlags (b ∷ g ∷ r ∷ []) fw = (refl, refl, refl, refl)
  show_color_with-SameFlags (b ∷ g ∷ r ∷ v ∷ vs) fw = (refl, refl, refl, refl)

  set_passes_with-KeepsFlags :
      (vs : List ℕ) (fw : Firmware B) → KeepsFlags fw (Passes.set_passes_with vs fw)
  unfolding Passes.set_passes_with print
  set_passes_with-KeepsFlags [] fw = (refl, refl, refl, refl)
  set_passes_with-KeepsFlags (num ∷ []) fw =
      KeepsFlags-bind fw (Passes.read_passes Passes.loop_fuel num 0 fw.stack fw.input) _ λ r.
        KeepsFlags-bind fw (Passes.update_block num r.0 fw.eeprom.passes) _
          λ passes. (refl, refl, refl, refl)
  set_passes_with-KeepsFlags (num ∷ v ∷ vs) fw = (refl, refl, refl, refl)

module _ {B : Type 0} (twi : Twi B) where
  set_clock_with-SameFlags :
      (vs : List ℕ) (fw : Firmware B) → SameFlags fw (Settings.set_clock_with twi vs fw)
  unfolding Settings.set_clock_with print
  set_clock_with-SameFlags [] fw = (refl, refl, refl, refl)
  set_clock_with-SameFlags (a ∷ []) fw = (refl, refl, refl, refl)
  set_clock_with-SameFlags (a ∷ b ∷ []) fw = (refl, refl, refl, refl)
  set_clock_with-SameFlags (a ∷ b ∷ c ∷ []) fw = (refl, refl, refl, refl)
  set_clock_with-SameFlags (a ∷ b ∷ c ∷ d ∷ []) fw = (refl, refl, refl, refl)
  set_clock_with-SameFlags (a ∷ b ∷ c ∷ d ∷ e ∷ []) fw = (refl, refl, refl, refl)
  set_clock_with-SameFlags (a ∷ b ∷ c ∷ d ∷ e ∷ g ∷ []) fw = (refl, refl, refl, refl)
  set_clock_with-SameFlags (a ∷ b ∷ c ∷ d ∷ e ∷ g ∷ i ∷ vs) fw = (refl, refl, refl, refl)

  respond-KeepsFlags :
      (command : Command) (fw : Firmware B) → KeepsFlags fw (respond twi command fw)
  unfolding respond
  respond-KeepsFlags Command.ack fw =
      unfold Settings.ack in unfold print in (refl, refl, refl, refl)
  respond-KeepsFlags Command.say_ms fw =
      unfold Settings.say_ms in unfold print in (refl, refl, refl, refl)
  respond-KeepsFlags Command.set_color fw =
      unfold Settings.set_color in
      set_color_with-SameFlags (fscanf Settings.one_number fw.input).0 _
  respond-KeepsFlags Command.say_time fw =
      unfold Settings.say_time in unfold print in (refl, refl, refl, refl)
  respond-KeepsFlags Command.set_passes fw =
      unfold Passes.set_passes in
      set_passes_with-KeepsFlags (fscanf Passes.count_format fw.input).0
        (record fw { input = (fscanf Passes.count_format fw.input).1 })
  respond-KeepsFlags Command.dump_mem fw =
      unfold Passes.dump_mem in unfold print in (refl, refl, refl, refl)
  respond-KeepsFlags Command.set_clock fw =
      unfold Settings.set_clock in
      set_clock_with-SameFlags (fscanf Settings.clock_format fw.input).0 _
  respond-KeepsFlags Command.wb_red fw =
      unfold Settings.wb_red in wb_red_with-SameFlags (fscanf Settings.one_number fw.input).0 _
  respond-KeepsFlags Command.wb_green fw =
      unfold Settings.wb_green in wb_green_with-SameFlags (fscanf Settings.one_number fw.input).0 _
  respond-KeepsFlags Command.wb_blue fw =
      unfold Settings.wb_blue in wb_blue_with-SameFlags (fscanf Settings.one_number fw.input).0 _
  respond-KeepsFlags Command.set_wb fw =
      unfold Settings.set_wb in set_wb_with-SameFlags (fscanf Settings.three_numbers fw.input).0 _
  respond-KeepsFlags Command.show_color fw =
      unfold Settings.show_color in
      show_color_with-SameFlags (fscanf Settings.three_numbers fw.input).0 _
  respond-KeepsFlags Command.toggle_rainbow fw =
      unfold Settings.toggle_rainbow in
      unfold led_show in
      if-SameFlags fw.do_rainbow fw _ _ (refl, refl, refl, refl) (refl, refl, refl, refl)

  pub dispatch-KeepsFlags :
      (table : List (ℕ × Command)) (c : ℕ) (fw : Firmware B)
      → KeepsFlags fw (dispatch twi table c fw)
  unfolding dispatch
  dispatch-KeepsFlags [] c fw = (refl, refl, refl, refl)
  dispatch-KeepsFlags ((k, command) ∷ table) c fw =
      if-KeepsFlags (k == c) fw _ _ (respond-KeepsFlags command fw) (dispatch-KeepsFlags table c fw)
