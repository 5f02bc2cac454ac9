-- ===== src/Common/Members.antt =====
-- What is in a list that was mapped, filtered, sorted or cut, and the order that is left in it.
use Prim.Native.Nat.{ℕ, zero, suc, ◌≤◌}
use mathlib.Core.Path.{◌≡◌, refl, sym, ap, ◌∙◌}
use mathlib.Core.Logic.{◌↔◌, inl, inr}
use mathlib.Core.Bool.{Bool, true, false}
use mathlib.Core.List.{List, [], ◌∷◌, map}
use native.Mathlib.Omega.{arith}
use prism_spectra.Common.Tests.{Bool-cases}
use prism_spectra.Common.Lists.{All, In, filter_by, take, length}
use prism_spectra.Common.Sort.{IsSorted}

module _ {A B : Type 0} (f : A → B) where
  pub In-map : (xs : List A) (a : A) → In a xs → In (f a) (map f xs)
  In-map [] a h = elim h [ ]
  In-map (x ∷ xs) a (inl e) = inl (ap f e)
  In-map (x ∷ xs) a (inr h) = inr (In-map xs a h)

  pub preimage_of_In : (xs : List A) (b : B) → In b (map f xs) → (a : A) × In a xs × (b ≡ f a)
  preimage_of_In [] b h = elim h [ ]
  preimage_of_In (x ∷ xs) b (inl e) = (x, inl refl, e)
  preimage_of_In (x ∷ xs) b (inr h) = let (a, m, e) = preimage_of_In xs b h in (a, inr m, e)

  pub length-map : (xs : List A) → length (map f xs) ≡ length xs
  length-map [] = refl
  length-map (x ∷ xs) = ap suc (length-map xs)

pub All-of_In : {A : Type 0} (P : A → Type 0) (xs : List A) → ((a : A) → In a xs → P a) → All P xs
All-of_In P [] h = tt
All-of_In P (x ∷ xs) h = (h x (inl refl), All-of_In P xs (λ a i. h a (inr i)))

module _ {A : Type 0} (keep : A → Bool) where
  pub In-filter_by : (xs : List A) (a : A) → In a (filter_by keep xs) ↔ (In a xs × (keep a ≡ true))
  In-filter_by [] a = ((λ h. elim h [ ]), (λ h. elim h.0 [ ]))
  In-filter_by (x ∷ xs) a = elim (Bool-cases (keep x)) [
    | inl e ↦ rw e (
      (λ h. elim h [
        | inl p ↦ (inl p, ap keep p ∙ e)
        | inr m ↦ let (i, k) = (In-filter_by xs a).0 m in (inr i, k)
      ]),
      (λ h. elim h.0 [ inl p ↦ inl p | inr m ↦ inr ((In-filter_by xs a).1 (m, h.1)) ]),
    )
    | inr e ↦ rw e (
      (λ m. let (i, k) = (In-filter_by xs a).0 m in (inr i, k)),
      (λ h. elim h.0 [
        | inl p ↦ let never : true ≡ false = sym h.1 ∙ ap keep p ∙ e in cc
        | inr m ↦ (In-filter_by xs a).1 (m, h.1)
      ]),
    )
  ]

module _ {A : Type 0} (before : A → A → Bool) where
  pub take-All : (P : A → Type 0) (n : ℕ) (xs : List A) → All P xs → All P (take n xs)
  take-All P zero xs h = tt
  take-All P (suc n) [] h = tt
  take-All P (suc n) (x ∷ xs) (p, h) = (p, take-All P n xs h)

  pub take-IsSorted : (n : ℕ) (xs : List A) → IsSorted before xs → IsSorted before (take n xs)
  take-IsSorted zero xs s = tt
  take-IsSorted (suc n) [] s = tt
  take-IsSorted (suc n) (x ∷ xs) (h, s) =
      (take-All (λ y. before y x ≡ false) n xs h, take-IsSorted n xs s)

pub length-take_le : {A : Type 0} (n : ℕ) (xs : List A) → length (take n xs) ≤ n
length-take_le zero xs = omega arith
length-take_le (suc n) [] = omega arith
length-take_le (suc n) (x ∷ xs) = omega (arith, length-take_le n xs)
