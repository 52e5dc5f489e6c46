-- ===== src/Loader/Main/Outcome.antt =====
-- What holds of the value of a call, if it brings one, and of the state behind it.
use iss_notify_firmware.Common.{
  Bool, true, false, Option, none, some, ◌≡◌, subst, if◌then◌else◌, ◌>>=◌,
}
use iss_notify_firmware.Loader.Main.{Result, exited, went, ◌and_then◌}

-- The value of a call, if it brings one.
abbrev pub Brings : {A : Type 0} → (A → Type 0) → Option A → Type 0
Brings P none = Unit
Brings P (some a) = P a

abbrev pub Goes : {A : Type 0} → (A → Type 0) → Option (Result A) → Type 0
Goes P none = Unit
Goes P (some (exited e)) = Unit
Goes P (some (went a)) = P a

pub Brings->>= :
    {A B : Type 0} (P : A → Type 0) (Q : B → Type 0) (m : Option A) (f : A → Option B)
    → Brings P m
    → ((a : A) → P a → Brings Q (f a))
    → Brings Q (m >>= f)
Brings->>= P Q none f h k = tt
Brings->>= P Q (some a) f h k = k a h

pub Goes-and_then :
    {A B : Type 0} (P : A → Type 0) (Q : B → Type 0) (m : Option (Result A))
    (f : A → Option (Result B))
    → Goes P m
    → ((a : A) → P a → Goes Q (f a))
    → Goes Q (m and_then f)
Goes-and_then P Q none f h k = tt
Goes-and_then P Q (some (exited e)) f h k = tt
Goes-and_then P Q (some (went a)) f h k = k a h

pub Brings-elim :
    {A : Type 0} (P : A → Type 0) (b : Bool) (x y : Option A)
    → Brings P x
    → Brings P y
    → Brings P (elim b [ true ↦ x | false ↦ y ])
Brings-elim P true x y h k = h
Brings-elim P false x y h k = k

pub Goes-elim :
    {A : Type 0} (P : A → Type 0) (b : Bool) (x y : Option (Result A))
    → Goes P x
    → Goes P y
    → Goes P (elim b [ true ↦ x | false ↦ y ])
Goes-elim P true x y h k = h
Goes-elim P false x y h k = k

pub Brings-if :
    {A : Type 0} (P : A → Type 0) (b : Bool) (x y : Option A)
    → Brings P x
    → Brings P y
    → Brings P (if b then x else y)
Brings-if P true x y h k = h
Brings-if P false x y h k = k

pub Goes-if :
    {A : Type 0} (P : A → Type 0) (b : Bool) (x y : Option (Result A))
    → Goes P x
    → Goes P y
    → Goes P (if b then x else y)
Goes-if P true x y h k = h
Goes-if P false x y h k = k

-- No promise about the value.
pub Goes-any : {A : Type 0} (m : Option (Result A)) → Goes (λ a. Unit) m
Goes-any none = tt
Goes-any (some (exited e)) = tt
Goes-any (some (went a)) = tt

pub Goes-went :
    {A : Type 0} (P : A → Type 0) (m : Option (Result A)) (a : A)
    → Goes P m
    → m ≡ some (went a)
    → P a
Goes-went P m a h e = subst (Goes P) e h
