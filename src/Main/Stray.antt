-- ===== src/Main/Stray.antt =====
-- A byte of the input that begins no command.
use iss_notify_firmware.Common.{
  ℕ, some, [], ◌∷◌, ◌++◌, Bytes, ◌≡◌, ◌≢◌, refl, sym, subst, ap, ◌∙◌, arith, Bool-cases, inl, inr,
  some-injective, append-nil, append_assoc,
}
use iss_notify_firmware.Twi.{Twi}
use iss_notify_firmware.Stdio.{fscanf, match_lit}
use iss_notify_firmware.Firmware.{Firmware, led_show}
use iss_notify_firmware.Commands.Invariant.{IsWellFormed}
use iss_notify_firmware.Main.{
  command_format, obey, listen, handle_alarm, handle_reset, iteration, int3_isr, timer3_isr,
}
use iss_notify_firmware.Main.Rainbow.{advance, rainbow_step}
use iss_notify_firmware.Main.Rotation.{shown, rainbow_step-shown}
use iss_notify_firmware.Main.Events.{
  Step, round, int3, timer3, host, Reach, here, next, Reach-IsWellFormed, rainbow_step_off,
  handle_alarm-IsWellFormed,
}

-- Two states with the same stream.
abbrev pub SameStream : {B : Type 0} → Firmware B → Firmware B → Type 0
SameStream s t = (t.input ≡ s.input) × (t.output ≡ s.output)

module _ {B : Type 0} (twi : Twi B) where
  scan_stray : (c : ℕ) (s : Bytes) → c ≢ b'I' → fscanf command_format (c ∷ s) ≡ ([], c ∷ s)
  unfolding fscanf match_lit
  scan_stray c s h = ground arith

  pub listen_stray :
      (fw : Firmware B) (c : ℕ) (s : Bytes) → fw.input ≡ c ∷ s → c ≢ b'I' → listen twi fw ≡ some fw
  unfolding listen obey
  listen_stray fw c s e h =
      let scanned : fscanf command_format fw.input ≡ ([], fw.input) =
        ap (fscanf command_format) e ∙ scan_stray c s h ∙ ap (λ x. ([], x)) (sym e) in
      rw scanned

  handle_alarm-SameStream : (fw : Firmware B) → SameStream fw (handle_alarm twi fw)
  unfolding handle_alarm
  handle_alarm-SameStream fw = ground arith

  shown-SameStream : (fw : Firmware B) → SameStream fw (shown fw)
  unfolding advance led_show
  shown-SameStream fw = ground arith

  pub rainbow_step-SameStream :
      {fw : Firmware B}
      → IsWellFormed fw
      → (fw' : Firmware B) × (rainbow_step fw ≡ some fw') × SameStream fw fw'
  rainbow_step-SameStream {fw} w = elim (Bool-cases fw.do_rainbow) [
    | inl on ↦ (shown fw, rainbow_step-shown fw on w.lights w.wheel, shown-SameStream fw)
    | inr off ↦ (fw, rainbow_step_off twi fw off, (refl, refl))
  ]

  iteration_stray :
      {fw : Firmware B} (c : ℕ) (s : Bytes)
      → fw.input ≡ c ∷ s
      → c ≢ b'I'
      → IsWellFormed fw
      → (fw' : Firmware B) × (iteration twi fw ≡ some fw') × SameStream fw fw'
  unfolding iteration handle_reset led_show
  iteration_stray {fw} c s e h w =
      let alarm = handle_alarm-SameStream fw in
      let (fw', turned, same) = rainbow_step-SameStream (handle_alarm-IsWellFormed twi w) in
      (
        handle_reset twi (led_show fw'),
        rw (listen_stray fw c s e h) (rw turned),
        (same.0 ∙ alarm.0, same.1 ∙ alarm.1),
      )

  -- The input still begins with the byte, and there was no other output.
  abbrev pub Blocked : ℕ → Bytes → Bytes → Firmware B → Type 0
  Blocked c rest out t = (more : Bytes) × (t.input ≡ c ∷ (rest ++ more)) × (t.output ≡ out)

  pub Blocked-SameStream :
      (s t : Firmware B) (c : ℕ) (rest out : Bytes)
      → SameStream s t
      → Blocked c rest out s
      → Blocked c rest out t
  Blocked-SameStream s t c rest out same (more, i, o) = (more, same.0 ∙ i, same.1 ∙ o)

  Step-Blocked :
      {s t : Firmware B} (c : ℕ) (rest out : Bytes)
      → Step twi s t
      → c ≢ b'I'
      → IsWellFormed s
      → Blocked c rest out s
      → Blocked c rest out t
  Step-Blocked {s} {t} c rest out (round e) h w (more, i, o) =
      let (t', ends, same) = iteration_stray c (rest ++ more) i h w in
      let equal : t' ≡ t = some-injective _ _ (sym ends ∙ e) in
      let same' : SameStream s t = subst (SameStream s) equal same in
      Blocked-SameStream s t c rest out same' (more, i, o)
  Step-Blocked {s} {t} c rest out (int3 on e) h w b =
      let same : SameStream s t = subst (SameStream s) (sym e) (unfold int3_isr in (refl, refl)) in
      Blocked-SameStream s t c rest out same b
  Step-Blocked {s} {t} c rest out (timer3 e) h w b =
      let same : SameStream s t =
        subst (SameStream s) (sym e) (unfold timer3_isr in (refl, refl)) in
      Blocked-SameStream s t c rest out same b
  Step-Blocked {s} c rest out (host text e) h w (more, i, o) = (
    more ++ text,
    ap (λ (u : Firmware B). u.input) e
        ∙ ap (λ x. x ++ text) i
        ∙ ap (λ x. c ∷ x) (append_assoc rest more text),
    ap (λ (u : Firmware B). u.output) e ∙ o,
  )

  Reach-Blocked :
      {s t : Firmware B} (c : ℕ) (rest out : Bytes)
      → Reach twi s t
      → c ≢ b'I'
      → IsWellFormed s
      → Blocked c rest out s
      → Blocked c rest out t
  Reach-Blocked c rest out here h w b = b
  Reach-Blocked c rest out (next r step) h w b =
      Step-Blocked c rest out step h (Reach-IsWellFormed twi r w) (Reach-Blocked c rest out r h w b)

  Reach-stray :
      {s t : Firmware B} (c : ℕ) (rest : Bytes)
      → Reach twi s t
      → s.input ≡ c ∷ rest
      → c ≢ b'I'
      → IsWellFormed s
      → ((more : Bytes) × (t.input ≡ c ∷ (rest ++ more)) × (t.output ≡ s.output))
        × ((u : Firmware B) × (iteration twi t ≡ some u))
  Reach-stray {s} c rest r i h w =
      let first = i ∙ ap (λ x. c ∷ x) (sym (append-nil rest)) in
      let (more, j, o) = Reach-Blocked c rest s.output r h w ([], first, refl) in
      let (u, ends, same) = iteration_stray c (rest ++ more) j h (Reach-IsWellFormed twi r w) in
      ((more, j, o), (u, ends))
