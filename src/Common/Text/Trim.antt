-- ===== src/Common/Text/Trim.antt =====
-- White space around a text that is trimmed twice.
use Prim.Native.Char.{Char, code}
use Prim.Native.String.{String, [], ◌∷◌}
use mathlib.Core.Path.{◌≡◌, refl, sym, ap, ◌∙◌}
use mathlib.Core.Logic.{◌⊎◌, inl, inr}
use mathlib.Core.Bool.{true, false}
use prism_spectra.Common.Tests.{if◌then◌else◌, Bool-cases}
use prism_spectra.Common.Text.{is_space, trim_start, push_front, trim_end, trim, is_blank}

push_front-solid :
    (c : Char) (s : String) → is_space (code c) ≡ false → (s' : String) × (push_front c s ≡ c ∷ s')
push_front-solid c [] h = ([], ap (λ b. if b then [] else c ∷ []) h)
push_front-solid c (d ∷ s) h = (d ∷ s, refl)

-- A text whose first character is no white space is not blank when trimmed.
pub is_blank-trim_solid :
    (c : Char) (s : String) → is_space (code c) ≡ false → is_blank (trim (c ∷ s)) ≡ false
unfolding trim trim_start trim_end
is_blank-trim_solid c s h =
    let (s', e) = push_front-solid c (trim_end s) h in
    ap (λ b. is_blank (trim_end (if b then trim_start s else c ∷ s))) h ∙ ap is_blank e

trim_start-cases :
    (s : String)
    → (trim_start s ≡ [])
      ⊎ ((c : Char) × (s' : String) × (is_space (code c) ≡ false) × (trim_start s ≡ c ∷ s'))
unfolding trim_start
trim_start-cases [] = inl refl
trim_start-cases (c ∷ s) = elim (Bool-cases (is_space (code c))) [
  | inl e ↦ elim (trim_start-cases s) [
    | inl h ↦ inl (ap (λ b. if b then trim_start s else c ∷ s) e ∙ h)
    | inr (d, s', k, h) ↦ inr (d, s', k, ap (λ b. if b then trim_start s else c ∷ s) e ∙ h)
  ]
  | inr e ↦ inr (c, s, e, ap (λ b. if b then trim_start s else c ∷ s) e)
]

-- What is left of a trimmed text is left of it trimmed twice.
pub is_blank-trim-trim : (s : String) → is_blank (trim s) ≡ false → is_blank (trim (trim s)) ≡ false
unfolding trim trim_end
is_blank-trim-trim s h = elim (trim_start-cases s) [
  | inl e ↦ let nothing_left : true ≡ false = sym (ap (λ u. is_blank (trim_end u)) e) ∙ h in cc
  | inr (c, s', k, e) ↦
      let (u, p) = push_front-solid c (trim_end s') k in
      ap (λ v. is_blank (trim v)) (ap trim_end e ∙ p) ∙ is_blank-trim_solid c u k
]
