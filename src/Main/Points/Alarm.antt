-- ===== src/Main/Points/Alarm.antt =====
-- The alarm while the interrupts fall between any two statements: the mask of INT3, the handling of
-- the flag, and the moment in which an alarm is dropped.
use iss_notify_firmware.Common.{
  ℕ, Bool, true, false, Option, none, some, ◌∷◌, [], List, ◌≡◌, ◌⊎◌, inl, inr, refl, subst, sym, ap,
  ◌∙◌, arith, ltb, if◌then◌else◌, ◌>>=◌, bit,
}
use iss_notify_firmware.Twi.{Twi}
use iss_notify_firmware.Stdio.{fscanf}
use iss_notify_firmware.Firmware.{Firmware, led_show}
use iss_notify_firmware.Commands.Flags.{SameFlags, KeepsFlags, dispatch-KeepsFlags}
use iss_notify_firmware.Commands.Dispatch.{commands}
use iss_notify_firmware.Main.{int3_bit, int3_isr, timer3_isr, listen, obey, command_format}
use iss_notify_firmware.Main.Rainbow.{rainbow_step, advance, rotate}
use iss_notify_firmware.Main.Interrupts.{set_bit-three}
use iss_notify_firmware.Main.Points.{
  Point, listening, testing_alarm, clearing, noting, enabling, lowering, turning, showing,
  testing_reset, clearing_reset, lowering_reset, enabling_again, Running, at, statement, Step, run,
  int3, timer3, host, Reach, here, next,
}
use iss_notify_firmware.Main.Points.Invariant.{After}

module _ {B : Type 0} where
  -- The rainbow leaves the flags and the clock alone.
  abbrev pub Untouched : Firmware B → Option (Firmware B) → Type 0
  Untouched s none = Unit
  Untouched s (some t) = SameFlags s t × (t.rtc ≡ s.rtc)

  Untouched-if :
      (b : Bool) (s : Firmware B) (x : Option (Firmware B))
      → Untouched s x
      → Untouched s (if b then x else some s)
  Untouched-if true s x h = h
  Untouched-if false s x h = ((refl, refl, refl, refl), refl)

  Untouched-bind :
      {A : Type 0} (s : Firmware B) (m : Option A) (f : A → Firmware B)
      → ((a : A) → Untouched s (some (f a)))
      → Untouched s (m >>= λ a. some (f a))
  Untouched-bind s none f h = tt
  Untouched-bind s (some a) f h = h a

  advance-Untouched : (fw : Firmware B) → Untouched fw (some (advance fw))
  unfolding advance
  advance-Untouched fw = ground arith

  pub rainbow_step-Untouched : (fw : Firmware B) → Untouched fw (rainbow_step fw)
  unfolding rainbow_step led_show
  rainbow_step-Untouched fw = Untouched-if fw.do_rainbow fw _ (
      Untouched-bind fw (rotate 8 0 (advance fw).bow_rotate (advance fw).show) _
        (λ show. advance-Untouched fw))

module _ {B : Type 0} (twi : Twi B) where
  obey-KeepsFlags : (vs : List ℕ) (fw : Firmware B) → KeepsFlags fw (obey twi vs fw)
  unfolding obey
  obey-KeepsFlags [] fw = (refl, refl, refl, refl)
  obey-KeepsFlags (c ∷ []) fw = dispatch-KeepsFlags twi commands c fw
  obey-KeepsFlags (c ∷ d ∷ vs) fw = (refl, refl, refl, refl)

  pub listen-KeepsFlags : (fw : Firmware B) → KeepsFlags fw (listen twi fw)
  unfolding listen
  listen-KeepsFlags fw = obey-KeepsFlags (fscanf command_format fw.input).0 _

  -- At the beginning of a round INT3 is enabled or the flag is up.
  abbrev Hears : Firmware B → Type 0
  Hears fw = (bit fw.eimsk int3_bit ≡ 1) ⊎ (fw.alarm ≡ 1)

  abbrev early : Point → Bool
  early listening = true
  early testing_alarm = true
  early _ = false

  abbrev HearsAt : Running B → Type 0
  HearsAt r = early r.point ≡ true → Hears r.firmware

  heard :
      (s : Firmware B) (m : Option (Firmware B))
      → KeepsFlags s m
      → Hears s
      → After HearsAt (m >>= λ fw. some (at testing_alarm fw))
  heard s none k h = tt
  heard s (some t) k (inl on) = λ _. inl (ap (λ x. bit x int3_bit) k.3 ∙ on)
  heard s (some t) k (inr up) = λ _. inr (k.0 ∙ up)

  shown : (m : Option (Firmware B)) → After HearsAt (m >>= λ fw. some (at showing fw))
  shown none = tt
  shown (some fw) = λ e. absurd (cc)

  late :
      (p q : Point) (b : Bool)
      → early p ≡ false
      → early q ≡ false
      → early (if b then p else q) ≡ false
  late p q true h k = h
  late p q false h k = k

  statement-HearsAt :
      (p : Point) (fw : Firmware B) → HearsAt (at p fw) → After HearsAt (statement twi p fw)
  unfolding statement
  statement-HearsAt listening fw h = heard fw (listen twi fw) (listen-KeepsFlags fw) (h refl)
  statement-HearsAt testing_alarm fw h =
      λ e. let no_more = late clearing turning (ltb 0 fw.alarm) refl refl in absurd (cc)
  statement-HearsAt clearing fw h = λ e. absurd (cc)
  statement-HearsAt noting fw h = λ e. absurd (cc)
  statement-HearsAt enabling fw h = λ e. absurd (cc)
  statement-HearsAt lowering fw h = λ e. absurd (cc)
  statement-HearsAt turning fw h = shown (rainbow_step fw)
  statement-HearsAt showing fw h = λ e. absurd (cc)
  statement-HearsAt testing_reset fw h = λ e.
      let no_more = late clearing_reset lowering_reset (ltb 0 fw.reset_alarm) refl refl in
      absurd (cc)
  statement-HearsAt clearing_reset fw h = λ e. absurd (cc)
  statement-HearsAt lowering_reset fw h = λ e. absurd (cc)
  statement-HearsAt enabling_again fw h = λ e. inl (set_bit-three fw.eimsk)

  Step-HearsAt : {s t : Running B} → Step twi s t → HearsAt s → HearsAt t
  Step-HearsAt {s} (run e) h = subst (After HearsAt) e (statement-HearsAt s.point s.firmware h)
  Step-HearsAt {s} (int3 on e) h = subst HearsAt (sym e) (unfold int3_isr in λ _. inr refl)
  Step-HearsAt {s} (timer3 e) h = subst HearsAt (sym e) (unfold timer3_isr in h)
  Step-HearsAt {s} (host text e) h = subst HearsAt (sym e) h

  Reach-HearsAt : {s t : Running B} → Reach twi s t → HearsAt s → HearsAt t
  Reach-HearsAt here h = h
  Reach-HearsAt (next r step) h = Step-HearsAt step (Reach-HearsAt r h)

  -- If INT3 is enabled or the alarm's flag is up in a state, at any statement, then at the
  -- beginning of every later round INT3 is enabled or the flag is up, whatever the host sends and
  -- however the interrupts fall between the statements: the firmware never waits for an alarm with
  -- INT3 masked.
  pub points-hear :
      {s t : Running B}
      → Reach twi s t
      → (bit s.firmware.eimsk int3_bit ≡ 1) ⊎ (s.firmware.alarm ≡ 1)
      → t.point ≡ listening
      → (bit t.firmware.eimsk int3_bit ≡ 1) ⊎ (t.firmware.alarm ≡ 1)
  points-hear r h first = Reach-HearsAt r (λ _. h) (ap early first)
