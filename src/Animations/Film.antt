-- ===== src/Animations/Film.antt =====
-- All frames of one pass of the main loop, the oldest first.
use iss_notify_firmware.Common.{
  ℕ, zero, suc, ◌+◌, ◌<◌, ◌≤◌, List, [], ◌∷◌, ◌++◌, ◌≡◌, refl, arith, ap, sym, ◌∙◌, length,
  length-set, get_or, set, take, drop, replicate,
}
use iss_notify_firmware.Animations.Show.{
  Stage, colorwheel, pong, ping, present, bring_on, show_turned, turn_down, turn_up, spin, quiet,
  animate,
}
use iss_notify_firmware.Animations.Turning.{
  rotated, turn-rotated, length-rotated, clear_show-replicate, set-take-drop,
}

-- A film behind frames, the newest of which is the first.
abbrev pub push : List (List ℕ) → List (List ℕ) → List (List ℕ)
push [] fs = fs
push (f ∷ film) fs = push film (f ∷ fs)

push-append : (xs ys fs : List (List ℕ)) → push (xs ++ ys) fs ≡ push ys (push xs fs)
push-append [] ys fs = refl
push-append (x ∷ xs) ys fs = push-append xs ys (x ∷ fs)

-- A ring that turns forwards from `n - 1` places down to none.
abbrev pub falling : List ℕ → ℕ → List (List ℕ)
falling t zero = []
falling t (suc i) = rotated i t ∷ falling t i

-- A ring that turns from `i` places on.
abbrev pub rising : List ℕ → ℕ → ℕ → List (List ℕ)
rising t zero i = []
rising t (suc n) i = rotated i t ∷ rising t n (i + 1)

-- The wheel that takes the place of what was shown, light by light.
abbrev growing : List ℕ → ℕ → ℕ → List (List ℕ)
growing show zero i = []
growing show (suc n) i = (take (suc i) colorwheel ++ drop (suc i) show) ∷ growing show n (i + 1)

-- A board with a film behind its frames, and 12 lights in the end.
record Filmed (b : Stage) (film : List (List ℕ)) (b' : Stage) : Type 0 where
  filmed : b'.frames ≡ push film b.frames
  lights : length b'.show ≡ 12

Filmed-trans :
    {a b c : Stage} (xs ys : List (List ℕ)) → Filmed a xs b → Filmed b ys c → Filmed a (xs ++ ys) c
Filmed-trans {a} xs ys h k = record {
  filmed = k.filmed ∙ ap (push ys) h.filmed ∙ sym (push-append xs ys a.frames);
  lights = k.lights;
}

show_turned-Filmed :
    (t : List ℕ) (i : ℕ) (b : Stage)
    → length t ≡ 12
    → length b.show ≡ 12
    → i < 12
    → Filmed b (rotated i t ∷ []) (show_turned t i b)
unfolding show_turned present
show_turned-Filmed t i b e f h =
    let turned = turn-rotated t i b.show e f h in
    record {
      filmed = ap (λ s. s ∷ b.frames) turned;
      lights = ap length turned ∙ length-rotated i t (omega arith) ∙ e;
    }

turn_down-Filmed :
    (t : List ℕ) (n : ℕ) (b : Stage)
    → length t ≡ 12
    → length b.show ≡ 12
    → n ≤ 12
    → Filmed b (falling t n) (turn_down t n b)
unfolding turn_down
turn_down-Filmed t zero b e f h = record { filmed = refl; lights = f }
turn_down-Filmed t (suc i) b e f h =
    let first = show_turned-Filmed t i b e f (omega arith) in
    Filmed-trans (rotated i t ∷ []) (falling t i) first
      (turn_down-Filmed t i (show_turned t i b) e first.lights (omega arith))

turn_up-Filmed :
    (t : List ℕ) (n i : ℕ) (b : Stage)
    → length t ≡ 12
    → length b.show ≡ 12
    → i + n ≤ 12
    → Filmed b (rising t n i) (turn_up t n i b)
unfolding turn_up
turn_up-Filmed t zero i b e f h = record { filmed = refl; lights = f }
turn_up-Filmed t (suc n) i b e f h =
    let first = show_turned-Filmed t i b e f (omega arith) in
    Filmed-trans (rotated i t ∷ []) (rising t n (i + 1)) first
      (turn_up-Filmed t n (i + 1) (show_turned t i b) e first.lights (omega arith))

abbrev spins : ℕ → List (List ℕ)
spins zero = []
spins (suc k) = falling colorwheel 12 ++ spins k

spin-Filmed : (k : ℕ) (b : Stage) → length b.show ≡ 12 → Filmed b (spins k) (spin k b)
unfolding spin
spin-Filmed zero b f = record { filmed = refl; lights = f }
spin-Filmed (suc k) b f =
    let first = turn_down-Filmed colorwheel 12 b refl f (omega arith) in
    Filmed-trans (falling colorwheel 12) (spins k) first
      (spin-Filmed k (turn_down colorwheel 12 b) first.lights)

grown :
    (i : ℕ) (old : List ℕ) (b : Stage)
    → i < 12
    → length old ≡ 12
    → b.show ≡ take i colorwheel ++ drop i old
    → set b.show i (get_or colorwheel i 0) ≡ take (suc i) colorwheel ++ drop (suc i) old
grown i old b h e shown =
    ap (λ s. set s i (get_or colorwheel i 0)) shown ∙ set-take-drop colorwheel old i h (sym e)

bring_on-Filmed :
    (n i : ℕ) (old : List ℕ) (b : Stage)
    → length old ≡ 12
    → i + n ≤ 12
    → b.show ≡ take i colorwheel ++ drop i old
    → length b.show ≡ 12
    → Filmed b (growing old n i) (bring_on n i b)
unfolding bring_on present
bring_on-Filmed zero i old b e h shown f = record { filmed = refl; lights = f }
bring_on-Filmed (suc n) i old b e h shown f =
    let show = take (suc i) colorwheel ++ drop (suc i) old in
    let b' = present (record b { show = set b.show i (get_or colorwheel i 0) }) in
    let placed = grown i old b (omega arith) e shown in
    let index : suc i ≡ i + 1 = omega arith in
    let next : show ≡ take (i + 1) colorwheel ++ drop (i + 1) old =
      ap (λ k. take k colorwheel ++ drop k old) index in
    let first : Filmed b (show ∷ []) b' = record {
      filmed = ap (λ s. s ∷ b.frames) placed;
      lights = length-set b.show i (get_or colorwheel i 0) ∙ f;
    } in
    Filmed-trans (show ∷ []) (growing old n (i + 1)) first
      (bring_on-Filmed n (i + 1) old b' e (omega arith) (placed ∙ next) first.lights)

quiet-Filmed : (b : Stage) → length b.show ≡ 12 → Filmed b (replicate 12 0 ∷ []) (quiet b)
unfolding quiet present
quiet-Filmed b f =
    let dark = clear_show-replicate b.show f in
    record { filmed = ap (λ s. s ∷ b.frames) dark; lights = ap length dark }

-- The film of a pass that begins with some lights.
abbrev pub film : List ℕ → List (List ℕ)
film show =
    growing show 12 0 ++ (spins 4 ++ (rising pong 12 0 ++ (falling ping 12 ++ replicate 12 0 ∷ [])))

-- With 12 lights, one pass of the main loop hands these frames to `set_data`, in order: the colour
-- wheel in place of what was shown, light by light; four turns of the wheel; `pong` turned by 0 to
-- 11 places; `ping` turned by 11 down to 0 places; and darkness.
pub animate-film :
    (b : Stage) → length b.show ≡ 12 → (animate b).frames ≡ push (film b.show) b.frames
unfolding animate
animate-film b f =
    let b1 = bring_on 12 0 b in
    let b2 = spin 4 b1 in
    let b3 = turn_up pong 12 0 b2 in
    let b4 = turn_down ping 12 b3 in
    let a1 = bring_on-Filmed 12 0 b.show b f (omega arith) refl f in
    let a2 = spin-Filmed 4 b1 a1.lights in
    let a3 = turn_up-Filmed pong 12 0 b2 refl a2.lights (omega arith) in
    let a4 = turn_down-Filmed ping 12 b3 refl a3.lights (omega arith) in
    let a5 = quiet-Filmed b4 a4.lights in
    let last = replicate 12 0 ∷ [] in
    (Filmed-trans (growing b.show 12 0) _ a1 (
      Filmed-trans (spins 4) _ a2
        (Filmed-trans (rising pong 12 0) _ a3 (Filmed-trans (falling ping 12) last a4 a5)))).filmed
