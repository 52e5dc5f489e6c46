-- ===== src/Common/Lists.antt =====
-- Arrays as lists measured and indexed by native numbers, under the library's names.
use Prim.Native.Nat.{ℕ, zero, suc, ◌-◌, ◌≤◌}
use mathlib.Core.Path.{◌≡◌, refl, ap, subst}
use mathlib.Core.List.{List, [], ◌∷◌}
use mathlib.Core.Option.{Option, none, some, some-injective}
use native.Mathlib.Omega.{arith}

module _ {ℓ} {A : Type ℓ} where
  abbrev pub length : List A → ℕ
  length [] = 0
  length (x ∷ xs) = suc (length xs)

  abbrev pub get_elem? : List A → ℕ → Option A
  get_elem? [] i = none
  get_elem? (x ∷ xs) zero = some x
  get_elem? (x ∷ xs) (suc i) = get_elem? xs i

  abbrev pub get_or : List A → ℕ → A → A
  get_or [] i d = d
  get_or (x ∷ xs) zero d = x
  get_or (x ∷ xs) (suc i) d = get_or xs i d

  -- A write out of bounds changes nothing.
  abbrev pub set : List A → ℕ → A → List A
  set [] i v = []
  set (x ∷ xs) zero v = v ∷ xs
  set (x ∷ xs) (suc i) v = x ∷ set xs i v

  abbrev pub take : ℕ → List A → List A
  take zero xs = []
  take (suc n) [] = []
  take (suc n) (x ∷ xs) = x ∷ take n xs

  abbrev pub drop : ℕ → List A → List A
  drop zero xs = xs
  drop (suc n) [] = []
  drop (suc n) (x ∷ xs) = drop n xs

  abbrev pub replicate : ℕ → A → List A
  replicate zero a = []
  replicate (suc n) a = a ∷ replicate n a

  -- `xs[0] = v₀; xs[1] = v₁; …`: the first elements are overwritten.
  abbrev pub fill : List A → List A → List A
  fill [] vs = []
  fill (x ∷ xs) [] = x ∷ xs
  fill (x ∷ xs) (v ∷ vs) = v ∷ fill xs vs

  abbrev pub All {κ} : (A → Type κ) → List A → Type κ
  All P [] = Unit
  All P (x ∷ xs) = P x × All P xs

module _ {ℓ} {A : Type ℓ} where
  pub length-set : (xs : List A) (i : ℕ) (v : A) → length (set xs i v) ≡ length xs
  length-set [] i v = refl
  length-set (x ∷ xs) zero v = refl
  length-set (x ∷ xs) (suc i) v = ap suc (length-set xs i v)

  pub length-fill : (xs vs : List A) → length (fill xs vs) ≡ length xs
  length-fill [] vs = refl
  length-fill (x ∷ xs) [] = refl
  length-fill (x ∷ xs) (v ∷ vs) = ap suc (length-fill xs vs)

  pub take-fill : (xs vs : List A) → length vs ≤ length xs → take (length vs) (fill xs vs) ≡ vs
  take-fill xs [] h = refl
  take-fill [] (v ∷ vs) h = absurd (omega arith)
  take-fill (x ∷ xs) (v ∷ vs) h = ap (λ t. v ∷ t) (take-fill xs vs (omega arith))

  pub length-drop : (n : ℕ) (xs : List A) → length (drop n xs) ≡ length xs - n
  length-drop zero xs = omega arith
  length-drop (suc n) [] = omega arith
  length-drop (suc n) (x ∷ xs) = omega (arith, length-drop n xs)

  pub length-replicate : (n : ℕ) (a : A) → length (replicate n a) ≡ n
  length-replicate zero a = refl
  length-replicate (suc n) a = ap suc (length-replicate n a)

  pub take_all : (n : ℕ) (xs : List A) → length xs ≤ n → take n xs ≡ xs
  take_all zero [] h = refl
  take_all zero (x ∷ xs) h = absurd (omega arith)
  take_all (suc n) [] h = refl
  take_all (suc n) (x ∷ xs) h = ap (λ t. x ∷ t) (take_all n xs (omega arith))

  -- A list is known by its elements.
  abbrev pub tabulate : ℕ → (ℕ → A) → List A
  tabulate zero f = []
  tabulate (suc n) f = f 0 ∷ tabulate n (λ i. f (suc i))

  pub tabulate-get_or :
      (n : ℕ) (xs : List A) (d : A) → length xs ≡ n → xs ≡ tabulate n (λ i. get_or xs i d)
  tabulate-get_or zero [] d h = refl
  tabulate-get_or zero (x ∷ xs) d h = absurd (omega arith)
  tabulate-get_or (suc n) [] d h = absurd (omega arith)
  tabulate-get_or (suc n) (x ∷ xs) d h = ap (λ t. x ∷ t) (tabulate-get_or n xs d (omega arith))

  pub All-get_elem? {κ} :
      (P : A → Type κ) (xs : List A) (i : ℕ) {x : A} → All P xs → get_elem? xs i ≡ some x → P x
  All-get_elem? P [] i h e = absurd (cc)
  All-get_elem? P (y ∷ xs) zero h e = subst P (some-injective _ _ e) h.0
  All-get_elem? P (y ∷ xs) (suc i) h e = All-get_elem? P xs i h.1 e
