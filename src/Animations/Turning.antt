-- ===== src/Animations/Turning.antt =====
-- The frames of the animation are rotations of its tables.
use iss_notify_firmware.Common.{
  ℕ, zero, suc, ◌+◌, ◌-◌, ◌%◌, ◌<◌, ◌≤◌, true, false, List, [], ◌∷◌, ◌++◌, ◌==◌, ltb, if◌then◌else◌,
  ◌≡◌, refl, arith, ap, ap₂, sym, ◌∙◌, length, length-set, length-drop, get_or, set, take, drop,
  replicate, Bool-cases, ==_iff, inl, inr,
}
use iss_notify_firmware.Animations.Show.{turn, clear_show}

-- A ring of lights turned by `i` places.
abbrev pub rotated : ℕ → List ℕ → List ℕ
rotated i t = drop i t ++ take i t

get_or-set :
    (xs : List ℕ) (i v j : ℕ)
    → i < length xs
    → get_or (set xs i v) j 0 ≡ (if j == i then v else get_or xs j 0)
get_or-set [] i v j h = absurd (omega arith)
get_or-set (x ∷ xs) zero v zero h = refl
get_or-set (x ∷ xs) zero v (suc j) h = ground arith
get_or-set (x ∷ xs) (suc i) v zero h = ground arith
get_or-set (x ∷ xs) (suc i) v (suc j) h = ground (arith, get_or-set xs i v j)

get_or-append :
    (xs ys : List ℕ) (j : ℕ)
    → get_or (xs ++ ys) j 0
      ≡ (if ltb j (length xs) then get_or xs j 0 else get_or ys (j - length xs) 0)
get_or-append [] ys j = ground arith
get_or-append (x ∷ xs) ys zero = ground arith
get_or-append (x ∷ xs) ys (suc j) = ground (arith, get_or-append xs ys j)

get_or-drop : (i : ℕ) (t : List ℕ) (j : ℕ) → get_or (drop i t) j 0 ≡ get_or t (i + j) 0
get_or-drop zero t j = ap (λ k. get_or t k 0) (omega arith)
get_or-drop (suc i) [] j = refl
get_or-drop (suc i) (x ∷ t) j =
    let next : suc (i + j) ≡ suc i + j = omega arith in
    get_or-drop i t j ∙ ap (λ k. get_or (x ∷ t) k 0) next

get_or-take : (i : ℕ) (t : List ℕ) (j : ℕ) → j < i → get_or (take i t) j 0 ≡ get_or t j 0
get_or-take zero t j h = absurd (omega arith)
get_or-take (suc i) [] j h = refl
get_or-take (suc i) (x ∷ t) zero h = refl
get_or-take (suc i) (x ∷ t) (suc j) h = get_or-take i t j (omega arith)

length-take : (i : ℕ) (t : List ℕ) → i ≤ length t → length (take i t) ≡ i
length-take zero t h = refl
length-take (suc i) [] h = absurd (omega arith)
length-take (suc i) (x ∷ t) h = ap suc (length-take i t (omega arith))

length-append : (xs ys : List ℕ) → length (xs ++ ys) ≡ length xs + length ys
length-append [] ys = omega arith
length-append (x ∷ xs) ys = omega (arith, length-append xs ys)

pub length-rotated : (i : ℕ) (t : List ℕ) → i ≤ length t → length (rotated i t) ≡ length t
length-rotated i t h =
    omega (arith, length-append (drop i t) (take i t), length-drop i t, length-take i t h)

get_or-rotated :
    (i : ℕ) (t : List ℕ) (j : ℕ)
    → length t ≡ 12
    → i < 12
    → j < 12
    → get_or (rotated i t) j 0 ≡ get_or t ((i + j) % 12) 0
get_or-rotated i t j e hi hj =
    let size : length (drop i t) ≡ 12 - i = omega (arith, length-drop i t) in
    get_or-append (drop i t) (take i t) j
    ∙ ap (λ k. if ltb j k then get_or (drop i t) j 0 else get_or (take i t) (j - k) 0) size
    ∙ (elim (Bool-cases (ltb j (12 - i))) [
      | inl h ↦
          (let place : i + j ≡ (i + j) % 12 = ground arith in
            rw h (get_or-drop i t j ∙ ap (λ k. get_or t k 0) place))
      | inr h ↦
          (let place : j - (12 - i) ≡ (i + j) % 12 = ground arith in
            rw h (get_or-take i t (j - (12 - i)) (ground arith) ∙ ap (λ k. get_or t k 0) place))
    ])

length-turn :
    (table : List ℕ) (i n j : ℕ) (show : List ℕ) → length (turn table i n j show) ≡ length show
unfolding turn
length-turn table i zero j show = refl
length-turn table i (suc n) j show =
    let v = get_or table ((i + j) % 12) 0 in
    length-turn table i n (j + 1) (set show j v) ∙ length-set show j v

get_or-turn :
    (table : List ℕ) (i n j : ℕ) (show : List ℕ) (m : ℕ)
    → j + n ≤ length show
    → get_or (turn table i n j show) m 0 ≡ (
        if ltb m j
        then get_or show m 0
        else if ltb m (j + n)
        then get_or table ((i + m) % 12) 0
        else get_or show m 0)
unfolding turn
get_or-turn table i zero j show m h = ground arith
get_or-turn table i (suc n) j show m h =
    let v = get_or table ((i + j) % 12) 0 in
    let here : (m == j) ≡ true → v ≡ get_or table ((i + m) % 12) 0 =
      λ q. ap (λ k. get_or table ((i + k) % 12) 0) (sym ((==_iff m j).0 q)) in
    let size = length-set show j v in
    get_or-turn table i n (j + 1) (set show j v) m (omega arith) ∙ (elim (Bool-cases (m == j)) [
      | inl q ↦ ground (arith, get_or-set show j v m, here q)
      | inr q ↦ ground (arith, get_or-set show j v m)
    ])

list_ext :
    (xs ys : List ℕ)
    → length xs ≡ length ys
    → ((j : ℕ) → j < length xs → get_or xs j 0 ≡ get_or ys j 0)
    → xs ≡ ys
list_ext [] [] e h = refl
list_ext [] (y ∷ ys) e h = absurd (omega arith)
list_ext (x ∷ xs) [] e h = absurd (omega arith)
list_ext (x ∷ xs) (y ∷ ys) e h =
    ap₂ (λ a s. a ∷ s) (h 0 (omega arith))
      (list_ext xs ys (omega arith) (λ j less. h (suc j) (omega arith)))

-- The loop over `j` brings the table turned by `i` places, whatever was shown before.
pub turn-rotated :
    (table : List ℕ) (i : ℕ) (show : List ℕ)
    → length table ≡ 12
    → length show ≡ 12
    → i < 12
    → turn table i 12 0 show ≡ rotated i table
turn-rotated table i show e f h =
    let size = length-turn table i 12 0 show in
    let turned = length-rotated i table (omega arith) in
    list_ext (turn table i 12 0 show) (rotated i table) (omega arith) (λ j less.
      let inside : ltb j 12 ≡ true = ground arith in
      let not_before : ltb j 0 ≡ false = ground arith in
      get_or-turn table i 12 0 show j (omega arith)
      ∙ rw (not_before, inside) (sym (get_or-rotated i table j e h (omega arith))))

clear_show-turn : (n j : ℕ) (show : List ℕ) → clear_show n j show ≡ turn [] 0 n j show
unfolding clear_show turn
clear_show-turn zero j show = refl
clear_show-turn (suc n) j show = clear_show-turn n (j + 1) (set show j 0)

get_or-zeros : (n j : ℕ) → ◌≡◌ {A = ℕ} (get_or (replicate n 0) j 0) 0
get_or-zeros zero j = refl
get_or-zeros (suc n) zero = refl
get_or-zeros (suc n) (suc j) = get_or-zeros n j

pub clear_show-replicate :
    (show : List ℕ) → length show ≡ 12 → clear_show 12 0 show ≡ replicate 12 0
clear_show-replicate show f =
    let size = length-turn [] 0 12 0 show in
    clear_show-turn 12 0 show
    ∙ list_ext (turn [] 0 12 0 show) (replicate 12 0) (omega arith) (λ j less.
      let inside : ltb j 12 ≡ true = ground arith in
      let not_before : ltb j 0 ≡ false = ground arith in
      get_or-turn [] 0 12 0 show j (omega arith)
      ∙ rw (not_before, inside) (sym (get_or-zeros 12 j)))

-- The first places taken from one list, the others from another.
pub set-take-drop :
    (xs ys : List ℕ) (i : ℕ)
    → i < length xs
    → length xs ≡ length ys
    → set (take i xs ++ drop i ys) i (get_or xs i 0) ≡ take (suc i) xs ++ drop (suc i) ys
set-take-drop [] ys i h e = absurd (omega arith)
set-take-drop (x ∷ xs) [] i h e = absurd (omega arith)
set-take-drop (x ∷ xs) (y ∷ ys) zero h e = refl
set-take-drop (x ∷ xs) (y ∷ ys) (suc i) h e =
    ap (λ s. x ∷ s) (set-take-drop xs ys i (omega arith) (omega arith))
