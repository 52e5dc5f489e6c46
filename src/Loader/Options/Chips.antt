-- ===== src/Loader/Options/Chips.antt =====
-- What sizes the options can end with.
use iss_notify_firmware.Common.{
  ℕ, ◌*◌, Bool, true, false, ◌&&◌, ◌||◌, not, Option, none, some, some-injective, subst, List, [],
  ◌∷◌, Bytes, codes, ◌≡◌, refl, ap, sym, ◌∙◌, arith, ◌==◌, if◌then◌else◌, ◌>>=◌, drop, ◌⊎◌, inl,
  inr, Bool-cases, ==_iff, Option-cases,
}
use iss_notify_firmware.Loader.Options.{
  Options, same_text, family, sizes, set_mcu, parse_flag, parse_option, parse_options,
}

-- The chips that are known: their blocks, each of 128 or 256 bytes, fill the code size.
abbrev pub IsChip : ℕ → ℕ → Type 0
IsChip code block =
    ((block ≡ 128) × ((code ≡ 64 * 128) ⊎ (code ≡ 128 * 128) ⊎ (code ≡ 256 * 128)))
    ⊎ ((block ≡ 256) × ((code ≡ 256 * 256) ⊎ (code ≡ 512 * 256)))

-- No chip yet, or a known one.
abbrev pub Sized : Options → Type 0
Sized o = ((o.code_size ≡ 0) × (o.block_size ≡ 0)) ⊎ IsChip o.code_size o.block_size

-- Does a text stand among the arguments?
abbrev pub has : Bytes → List Bytes → Bool
has t [] = false
has t (arg ∷ args) = same_text t arg || has t args

-- The last argument that does not begin with a dash.
abbrev last_file : Option Bytes → List Bytes → Option Bytes
last_file f [] = f
last_file f ([] ∷ args) = last_file (some []) args
last_file f ((c ∷ s) ∷ args) = last_file (if c == b'-' then f else some (c ∷ s)) args

-- What the options before and behind some arguments have to do with each other.
pub record Parsed (o : Options) (args : List Bytes) (o' : Options) : Type 0 where
  pub waits : o'.wait_for_device_to_appear ≡ o.wait_for_device_to_appear || has (codes "-w") args
  pub reboots : o'.hard_reboot_device ≡ o.hard_reboot_device || has (codes "-r") args
  pub leaves :
      o'.reboot_after_programming ≡ o.reboot_after_programming && not (has (codes "-n") args)
  pub tells : o'.verbose ≡ o.verbose || has (codes "-v") args
  pub file : o'.filename ≡ last_file o.filename args

sizes-IsChip : (arg : Bytes) (code block : ℕ) → sizes arg ≡ some (code, block) → IsChip code block
unfolding sizes
sizes-IsChip arg code block h = ground arith

with_sizes :
    (r : Option (ℕ × ℕ)) (o o' : Options)
    → ((code block : ℕ) → r ≡ some (code, block) → IsChip code block)
    → (r >>= λ (code, block). some (record o { code_size = code; block_size = block })) ≡ some o'
    → Sized o' × (o' ≡ record o { code_size = o'.code_size; block_size = o'.block_size })
with_sizes none o o' ok h = absurd (cc)
with_sizes (some (code, block)) o o' ok h =
    subst (λ x. Sized x × (x ≡ record o { code_size = x.code_size; block_size = x.block_size }))
      (some-injective _ _ h) (inr (ok code block refl), refl)

in_family :
    (r : Option Bytes) (o o' : Options)
    → (r >>= λ chip.
        sizes chip >>= λ (code, block). some (record o { code_size = code; block_size = block }))
      ≡ some o'
    → Sized o' × (o' ≡ record o { code_size = o'.code_size; block_size = o'.block_size })
in_family none o o' h = absurd (cc)
in_family (some chip) o o' h = with_sizes (sizes chip) o o' (sizes-IsChip chip) h

set_mcu-Sized :
    (arg : Bytes) (o o' : Options)
    → set_mcu arg o ≡ some o'
    → Sized o' × (o' ≡ record o { code_size = o'.code_size; block_size = o'.block_size })
unfolding set_mcu
set_mcu-Sized arg o o' h = in_family (family arg) o o' h

same_text_sound : (s t : Bytes) → same_text s t ≡ true → s ≡ t
unfolding same_text
same_text_sound [] [] h = refl
same_text_sound [] (c ∷ t) h = absurd (cc)
same_text_sound (p ∷ s) [] h = absurd (cc)
same_text_sound (p ∷ s) (c ∷ t) h = ground (arith, same_text_sound s t)

-- An argument that is one text is not another.
exclusive : (s t arg : Bytes) → same_text s arg ≡ true → same_text t arg ≡ same_text t s
exclusive s t arg h = ap (same_text t) (sym (same_text_sound s arg h))

parse_flag-Parsed :
    (s : Bytes) (o o' : Options) → parse_flag (b'-' ∷ s) o ≡ some o' → Parsed o ((b'-' ∷ s) ∷ []) o'
unfolding parse_flag same_text
parse_flag-Parsed s o o' h =
    let arg = b'-' ∷ s in
    ground (
      arith,
      exclusive (codes "-w") (codes "-r") arg,
      exclusive (codes "-w") (codes "-n") arg,
      exclusive (codes "-w") (codes "-v") arg,
      exclusive (codes "-r") (codes "-n") arg,
      exclusive (codes "-r") (codes "-v") arg,
      exclusive (codes "-n") (codes "-v") arg,
      set_mcu-Sized (drop 6 arg) o o',
    )

parse_flag-Sized : (arg : Bytes) (o o' : Options) → parse_flag arg o ≡ some o' → Sized o → Sized o'
unfolding parse_flag
parse_flag-Sized arg o o' h sized = ground (arith, set_mcu-Sized (drop 6 arg) o o')

parse_option-Parsed :
    (arg : Bytes) (o o' : Options) → parse_option arg o ≡ some o' → Parsed o (arg ∷ []) o'
unfolding parse_option same_text
parse_option-Parsed [] o o' h = ground arith
parse_option-Parsed (c ∷ s) o o' h = elim (Bool-cases (c == b'-')) [
  | inl e ↦
      subst (λ x. Parsed o ((x ∷ s) ∷ []) o') (sym ((==_iff c b'-').0 e))
        (parse_flag-Parsed s o o' (
          subst (λ x. parse_flag (x ∷ s) o ≡ some o') ((==_iff c b'-').0 e)
            (ap
                (λ b.
                  if b then parse_flag (c ∷ s) o else some (record o { filename = some (c ∷ s) }))
                (sym e)
              ∙ h)))
  | inr e ↦ ground arith
]

parse_option-Sized :
    (arg : Bytes) (o o' : Options) → parse_option arg o ≡ some o' → Sized o → Sized o'
unfolding parse_option
parse_option-Sized [] o o' h sized = ground arith
parse_option-Sized (c ∷ s) o o' h sized = ground (arith, parse_flag-Sized (c ∷ s) o o')

last_file_cons :
    (f : Option Bytes) (arg : Bytes) (args : List Bytes)
    → last_file f (arg ∷ args) ≡ last_file (last_file f (arg ∷ [])) args
last_file_cons f [] args = refl
last_file_cons f (c ∷ s) args = refl

Parsed-cons :
    (arg : Bytes) (args : List Bytes) (o o' o'' : Options)
    → Parsed o (arg ∷ []) o'
    → Parsed o' args o''
    → Parsed o (arg ∷ args) o''
Parsed-cons arg args o o' o'' p q = ground (arith, last_file_cons o.filename arg args)

-- If `parse_options` does not end the program, each of the flags -w, -r, -n and -v has its effect
-- exactly if it stands among the arguments, in any place; the file is the last argument that does
-- not begin with a dash, or the one that was set before if there is none; and the sizes, if they
-- were none or those of a known chip, are so again: whole blocks of 128 or 256 bytes that fill the
-- code.
pub parse_options-Parsed :
    (args : List Bytes) (o o' : Options)
    → parse_options args o ≡ some o'
    → Sized o
    → Parsed o args o' × Sized o'
unfolding parse_options
parse_options-Parsed [] o o' h sized = ground arith
parse_options-Parsed (arg ∷ args) o o' h sized = elim (Option-cases (parse_option arg o)) [
  | inl e ↦ absurd (cc e)
  | inr (next, e) ↦
      (let rest : parse_options args next ≡ some o' =
          ap (λ m. m >>= λ x. parse_options args x) (sym e) ∙ h in
        let (p, s) =
          parse_options-Parsed args next o' rest (parse_option-Sized arg o next e sized) in
        (Parsed-cons arg args o next o' (parse_option-Parsed arg o next e) p, s))
]
