-- ===== src/Main/Points/Stray.antt =====
-- A byte of the input that begins no command, with the interrupts between any two statements.
use iss_notify_firmware.Common.{
  ℕ, Option, some, [], ◌∷◌, ◌++◌, Bytes, ◌≡◌, ◌≢◌, refl, sym, subst, ap, ◌∙◌, append-nil,
  append_assoc, ◌>>=◌,
}
use iss_notify_firmware.Twi.{Twi}
use iss_notify_firmware.Firmware.{Firmware, led_show}
use iss_notify_firmware.Commands.Invariant.{IsWellFormed}
use iss_notify_firmware.Main.{int3_isr, timer3_isr}
use iss_notify_firmware.Main.Stray.{
  SameStream, listen_stray, rainbow_step-SameStream, Blocked, Blocked-SameStream,
}
use iss_notify_firmware.Main.Points.{
  Point, listening, testing_alarm, clearing, noting, enabling, lowering, turning, showing,
  testing_reset, clearing_reset, lowering_reset, enabling_again, Running, at, statement, Step, run,
  int3, timer3, host, Reach, here, next,
}
use iss_notify_firmware.Main.Points.Invariant.{After, points-IsWellFormed}

module _ {B : Type 0} (twi : Twi B) where
  -- A statement that ends, and leaves the stream alone.
  abbrev Leaves : Firmware B → Option (Running B) → Type 0
  Leaves s m = (t : Running B) × (m ≡ some t) × SameStream s t.firmware

  statement-Leaves :
      (p : Point) {fw : Firmware B} (c : ℕ) (rest : Bytes)
      → fw.input ≡ c ∷ rest
      → c ≢ b'I'
      → IsWellFormed fw
      → Leaves fw (statement twi p fw)
  unfolding statement
  statement-Leaves listening {fw} c rest i h w =
      (at testing_alarm fw, rw (listen_stray twi fw c rest i h) refl, (refl, refl))
  statement-Leaves testing_alarm c rest i h w = (_, refl, (refl, refl))
  statement-Leaves clearing c rest i h w = (_, refl, (refl, refl))
  statement-Leaves noting c rest i h w = (_, refl, (refl, refl))
  statement-Leaves enabling c rest i h w = (_, refl, (refl, refl))
  statement-Leaves lowering c rest i h w = (_, refl, (refl, refl))
  statement-Leaves turning c rest i h w =
      let (fw', e, same) = rainbow_step-SameStream twi w in
      (at showing fw', ap (λ m. m >>= λ fw''. some (at showing fw'')) e, same)
  statement-Leaves showing c rest i h w = (_, refl, unfold led_show in (refl, refl))
  statement-Leaves testing_reset c rest i h w = (_, refl, (refl, refl))
  statement-Leaves clearing_reset c rest i h w = (_, refl, (refl, refl))
  statement-Leaves lowering_reset c rest i h w = (_, refl, (refl, refl))
  statement-Leaves enabling_again c rest i h w = (_, refl, (refl, refl))

  abbrev BlockedAt : ℕ → Bytes → Bytes → Running B → Type 0
  BlockedAt c rest out r = Blocked twi c rest out r.firmware

  Step-BlockedAt :
      {s t : Running B} (c : ℕ) (rest out : Bytes)
      → Step twi s t
      → c ≢ b'I'
      → IsWellFormed s.firmware
      → BlockedAt c rest out s
      → BlockedAt c rest out t
  Step-BlockedAt {s} {t} c rest out (run e) h w (more, i, o) =
      let (t', ends, same) = statement-Leaves s.point c (rest ++ more) i h w in
      let same' : SameStream s.firmware t.firmware =
        subst (After (λ r. SameStream s.firmware r.firmware)) (sym ends ∙ e) same in
      Blocked-SameStream twi s.firmware t.firmware c rest out same' (more, i, o)
  Step-BlockedAt c rest out (int3 on e) h w b =
      subst (BlockedAt c rest out) (sym e) (unfold int3_isr in b)
  Step-BlockedAt c rest out (timer3 e) h w b =
      subst (BlockedAt c rest out) (sym e) (unfold timer3_isr in b)
  Step-BlockedAt c rest out (host text e) h w (more, i, o) =
      subst (BlockedAt c rest out) (sym e)
        (more ++ text, ap (λ x. x ++ text) i ∙ ap (λ x. c ∷ x) (append_assoc rest more text), o)

  Reach-BlockedAt :
      {s t : Running B} (c : ℕ) (rest out : Bytes)
      → Reach twi s t
      → c ≢ b'I'
      → IsWellFormed s.firmware
      → BlockedAt c rest out s
      → BlockedAt c rest out t
  Reach-BlockedAt c rest out here h w b = b
  Reach-BlockedAt c rest out (next r step) h w b =
      Step-BlockedAt c rest out step h (points-IsWellFormed twi r w)
        (Reach-BlockedAt c rest out r h w b)

  -- From a well-formed state, at any statement, whose input begins with a byte other than "I", the
  -- firmware stays blocked: in every state that it reaches, whatever the host sends behind that
  -- byte and however the interrupts fall between the statements, the whole input is still unread
  -- and there is no further output. The main loop itself goes on: the next statement ends.
  pub points-stray :
      {s t : Running B} (c : ℕ) (rest : Bytes)
      → Reach twi s t
      → s.firmware.input ≡ c ∷ rest
      → c ≢ b'I'
      → IsWellFormed s.firmware
      → ((more : Bytes) × (t.firmware.input ≡ c ∷ (rest ++ more))
          × (t.firmware.output ≡ s.firmware.output))
        × ((u : Running B) × (statement twi t.point t.firmware ≡ some u))
  points-stray {s} {t} c rest r i h w =
      let first = i ∙ ap (λ x. c ∷ x) (sym (append-nil rest)) in
      let (more, j, o) = Reach-BlockedAt c rest s.firmware.output r h w ([], first, refl) in
      let (u, ends, same) =
        statement-Leaves t.point c (rest ++ more) j h (points-IsWellFormed twi r w) in
      ((more, j, o), (u, ends))
