-- ===== src/Main/Startup.antt =====
-- The start-up animation as the frames that the LED chips receive.
use iss_notify_firmware.Common.{
  ℕ, zero, suc, ◌+◌, ◌*◌, ◌^◌, ◌%◌, List, [], ◌∷◌, ◌++◌, length, replicate, leb, if◌then◌else◌, ◌≡◌,
  refl, ap, ap₂, sym, subst, ◌∙◌, arith, append_assoc, append-nil, u16,
}
use iss_notify_firmware.Led.{Light, WhiteBalance, dark}
use iss_notify_firmware.Led.Wire.{IsIdle, clocked_in}
use iss_notify_firmware.Led.Packet.{encode, frame_fields}
use iss_notify_firmware.Led.Frame.{led-frame}
use iss_notify_firmware.Firmware.{Firmware, led_show}
use iss_notify_firmware.Commands.Colours.{paint-replicate}
use iss_notify_firmware.Main.{int3_isr, timer3_isr}
use iss_notify_firmware.Main.Animation.{
  Stroke, painting, showing, perform, int_mul, startup_frame, fade_in, fade_out, startup, Performs,
  ended, stroke, int3, timer3,
}

-- Eight lights of one grey.
abbrev pub grey : ℕ → List Light
grey v = replicate 8 (record { blue = v; green = v; red = v })

-- The bits of one frame for each of the brightnesses.
abbrev pub frames : WhiteBalance → List ℕ → List ℕ
frames wb [] = []
frames wb (v ∷ vs) = encode (frame_fields wb (grey v)) ++ frames wb vs

-- 655 for each step, up to the last one whose product an `int` holds.
abbrev pub brightness : (ℕ → ℕ → ℕ) → ℕ → ℕ
brightness overflow i = if leb i 50 then i * 655 else overflow i 655 % 2 ^ 16

-- `n` steps up from step `i`, and from step `n + 1` down to step 2.
abbrev pub rising : (ℕ → ℕ → ℕ) → ℕ → ℕ → List ℕ
rising overflow zero i = []
rising overflow (suc n) i = brightness overflow i ∷ rising overflow n (i + 1)

abbrev pub falling : (ℕ → ℕ → ℕ) → ℕ → List ℕ
falling overflow zero = []
falling overflow (suc n) = brightness overflow (n + 2) ∷ falling overflow n

-- Paint and show, for each of the brightnesses.
abbrev strokes : List ℕ → List Stroke
strokes [] = []
strokes (v ∷ vs) = painting v ∷ showing ∷ strokes vs

strokes-append : (us vs : List ℕ) → strokes (us ++ vs) ≡ strokes us ++ strokes vs
strokes-append [] vs = refl
strokes-append (u ∷ us) vs = ap (λ fs. painting u ∷ showing ∷ fs) (strokes-append us vs)

module _ (overflow : ℕ → ℕ → ℕ) where
  product : (i : ℕ) → u16 (int_mul overflow i 655) ≡ brightness overflow i
  unfolding int_mul
  product i = ground arith

  fade_in-strokes : (n i : ℕ) → fade_in overflow n i ≡ strokes (rising overflow n i)
  unfolding fade_in startup_frame
  fade_in-strokes zero i = refl
  fade_in-strokes (suc n) i =
      ap₂ (λ v fs. painting v ∷ showing ∷ fs) (product i) (fade_in-strokes n (i + 1))

  fade_out-strokes : (n : ℕ) → fade_out overflow n ≡ strokes (falling overflow n)
  unfolding fade_out startup_frame
  fade_out-strokes zero = refl
  fade_out-strokes (suc n) =
      let step : suc (suc n) ≡ n + 2 = omega arith in
      ap₂ (λ v fs. painting v ∷ showing ∷ fs)
        (product (suc (suc n)) ∙ ap (brightness overflow) step) (fade_out-strokes n)

  startup-strokes :
      startup overflow ≡ strokes (rising overflow 100 0 ++ (falling overflow 99 ++ 0 ∷ []))
  unfolding startup
  startup-strokes =
      ap₂ (λ fs gs. fs ++ (gs ++ (painting 0 ∷ showing ∷ []))) (fade_in-strokes 100 0)
        (fade_out-strokes 99)
      ∙ sym (
          strokes-append (rising overflow 100 0) (falling overflow 99 ++ 0 ∷ [])
          ∙ ap (λ fs. strokes (rising overflow 100 0) ++ fs)
              (strokes-append (falling overflow 99) (0 ∷ [])))

-- What statements send, from a white balance and lights on, and the lights that they leave.
abbrev sent : WhiteBalance → List Light → List Stroke → List ℕ
sent wb ls [] = []
sent wb ls (painting v ∷ fs) = sent wb (grey v) fs
sent wb ls (showing ∷ fs) = encode (frame_fields wb ls) ++ sent wb ls fs

abbrev left : List Light → List Stroke → List Light
left ls [] = ls
left ls (painting v ∷ fs) = left (grey v) fs
left ls (showing ∷ fs) = left ls fs

sent-strokes :
    (wb : WhiteBalance) (ls : List Light) (vs : List ℕ) → sent wb ls (strokes vs) ≡ frames wb vs
sent-strokes wb ls [] = refl
sent-strokes wb ls (v ∷ vs) =
    ap (λ t. encode (frame_fields wb (grey v)) ++ t) (sent-strokes wb (grey v) vs)

left-strokes : (ls : List Light) (vs : List ℕ) → left ls (strokes (vs ++ 0 ∷ [])) ≡ replicate 8 dark
left-strokes ls [] = refl
left-strokes ls (v ∷ vs) = left-strokes (grey v) vs

module _ {B : Type 0} where
  record Sent (fw : Firmware B) (ls : List Light) (fs : List Stroke) (fw' : Firmware B)
      : Type 0 where
    wire : clocked_in fw'.leds ≡ clocked_in fw.leds ++ sent fw.wb ls fs
    lights : fw'.show ≡ left ls fs
    replies : fw'.output ≡ fw.output

  -- However the interrupts fall.
  Performs-Sent :
      {fw' fw : Firmware B} {fs : List Stroke} (ls : List Light)
      → Performs fw' fs fw
      → fw.show ≡ ls
      → length ls ≡ 8
      → IsIdle fw.leds
      → Sent fw ls fs fw'
  unfolding perform led_show int3_isr timer3_isr
  Performs-Sent {fw} ls (ended e) same eight idle =
      subst (λ x. Sent fw ls [] x) e
        (record { wire = sym (append-nil (clocked_in fw.leds)); lights = same; replies = refl })
  Performs-Sent {fw} ls (stroke {f = painting v} p) same eight idle =
      let light : Light = record { blue = v; green = v; red = v } in
      let h =
        Performs-Sent (grey v) p (paint-replicate light fw.show (ap length same ∙ eight)) refl
          idle in
      record { wire = h.wire; lights = h.lights; replies = h.replies }
  Performs-Sent {fw} ls (stroke {f = showing} {fs = fs} p) same eight idle =
      let frame = led-frame fw.wb fw.show fw.leds (ap length same ∙ eight) idle in
      let h = Performs-Sent ls p same eight frame.idle in
      record {
        wire =
            h.wire
            ∙ ap (λ t. t ++ sent fw.wb ls fs) frame.wire
            ∙ append_assoc (clocked_in fw.leds) (encode (frame_fields fw.wb fw.show))
                (sent fw.wb ls fs)
            ∙ ap (λ x. clocked_in fw.leds ++ (encode (frame_fields fw.wb x) ++ sent fw.wb ls fs))
                same;
        lights = h.lights;
        replies = h.replies;
      }
  Performs-Sent ls (int3 on p) same eight idle =
      let h = Performs-Sent ls p same eight idle in
      record { wire = h.wire; lights = h.lights; replies = h.replies }
  Performs-Sent ls (timer3 p) same eight idle =
      let h = Performs-Sent ls p same eight idle in
      record { wire = h.wire; lights = h.lights; replies = h.replies }

  -- With eight lights, port F a byte and the clock pin low, however INT3 and the timer come
  -- between the statements of the start-up animation: it sends 200 frames of one grey for all
  -- lights at the white balance of its beginning, for each step from 0 to 99, then down from 100
  -- to 2, then dark. The grey is 655 for each step up to step 50; from step 51 on the product
  -- leaves the 16-bit `int`, and the grey is the low word of whatever the compiled program has for
  -- it. The lights end dark, and there is no reply.
  pub startup-frames :
      (overflow : ℕ → ℕ → ℕ) (fw fw' : Firmware B)
      → length fw.show ≡ 8
      → IsIdle fw.leds
      → Performs fw' (startup overflow) fw
      → let steps = rising overflow 100 0 ++ (falling overflow 99 ++ 0 ∷ []) in
        (clocked_in fw'.leds ≡ clocked_in fw.leds ++ frames fw.wb steps)
        × (fw'.show ≡ replicate 8 dark)
        × (fw'.output ≡ fw.output)
  startup-frames overflow fw fw' lights idle run =
      let steps = rising overflow 100 0 ++ (falling overflow 99 ++ 0 ∷ []) in
      let h =
        Performs-Sent fw.show (subst (λ fs. Performs fw' fs fw) (startup-strokes overflow) run) refl
          lights idle in
      (
        h.wire ∙ ap (λ t. clocked_in fw.leds ++ t) (sent-strokes fw.wb fw.show steps),
        h.lights
            ∙ ap (λ vs. left fw.show (strokes vs))
                (sym (append_assoc (rising overflow 100 0) (falling overflow 99) (0 ∷ [])))
            ∙ left-strokes fw.show (rising overflow 100 0 ++ falling overflow 99),
        h.replies,
      )
