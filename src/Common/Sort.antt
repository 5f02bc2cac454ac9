-- ===== src/Common/Sort.antt =====
-- `Array.prototype.sort` with a comparator: a stable sort. `before a b` is `comparator(a, b) < 0`.
use prism_spectra.Common.Tests.{if◌then◌else◌, Bool-cases}
use prism_spectra.Common.Lists.{All, In}
use mathlib.Core.Path.{◌≡◌}
use mathlib.Core.Logic.{◌⊎◌, ◌↔◌, inl, inr}
use mathlib.Core.Bool.{Bool, true, false}
use mathlib.Core.List.Perm
use mathlib.Core.List.{List, [], ◌∷◌, Perm}

module _ {ℓ} {A : Type ℓ} (before : A → A → Bool) where
  unfoldable pub place : A → List A → List A
  place x [] = x ∷ []
  place x (y ∷ ys) = let later = place x ys in if before y x then y ∷ later else x ∷ y ∷ ys

  unfoldable pub sort_by : List A → List A
  unfolding place
  sort_by [] = []
  sort_by (x ∷ xs) = place x (sort_by xs)

  pub place-perm : (x : A) (xs : List A) → Perm (place x xs) (x ∷ xs)
  unfolding place
  place-perm x [] = Perm.refl (x ∷ [])
  place-perm x (y ∷ ys) = elim (Bool-cases (before y x)) [
    | inl p ↦ rw (p) (Perm.trans (Perm.cons y (place-perm x ys)) (Perm.swap x y ys))
    | inr p ↦ rw (p) (Perm.refl (x ∷ y ∷ ys))
  ]

  pub sort_by-perm : (xs : List A) → Perm (sort_by xs) xs
  unfolding sort_by
  sort_by-perm [] = Perm.refl []
  sort_by-perm (x ∷ xs) = Perm.trans (place-perm x (sort_by xs)) (Perm.cons x (sort_by-perm xs))

  -- No element sorts before the one in front of it.
  abbrev pub IsSorted : List A → Type 0
  IsSorted [] = Unit
  IsSorted (x ∷ xs) = All (λ y. before y x ≡ false) xs × IsSorted xs

-- The comparator is a weak order on the values of `P`: `before` is asymmetric, and being no earlier is
-- transitive.
pub record IsWeakOrder {ℓ} {A : Type ℓ} (before : A → A → Bool) (P : A → Type 0) : Type ℓ where
  pub asymmetric : (a b : A) → before a b ≡ true → before b a ≡ false
  pub no_earlier_trans :
      (a b c : A) → P a → P b → P c → before b a ≡ false → before c b ≡ false → before c a ≡ false

module _ {ℓ} {A : Type ℓ} (before : A → A → Bool) {P : A → Type 0} (w : IsWeakOrder before P) where
  All-place : (Q : A → Type 0) (x : A) (xs : List A) → Q x → All Q xs → All Q (place before x xs)
  unfolding place
  All-place Q x [] p h = (p, tt)
  All-place Q x (y ∷ ys) p (q, h) = elim (Bool-cases (before y x)) [
    | inl e ↦ rw e (q, All-place Q x ys p h)
    | inr e ↦ rw e (p, (q, h))
  ]

  All-sort_by : (Q : A → Type 0) (xs : List A) → All Q xs → All Q (sort_by before xs)
  unfolding sort_by
  All-sort_by Q [] h = tt
  All-sort_by Q (x ∷ xs) (p, h) = All-place Q x (sort_by before xs) p (All-sort_by Q xs h)

  All-no_earlier :
      (x y : A) (ys : List A)
      → P x
      → P y
      → All P ys
      → before y x ≡ false
      → All (λ z. before z y ≡ false) ys
      → All (λ z. before z x ≡ false) ys
  All-no_earlier x y [] px py ps e h = tt
  All-no_earlier x y (z ∷ zs) px py (pz, ps) e (p, h) =
      (w.no_earlier_trans x y z px py pz e p, All-no_earlier x y zs px py ps e h)

  place-IsSorted :
      (x : A) (xs : List A)
      → P x
      → All P xs
      → IsSorted before xs
      → IsSorted before (place before x xs)
  unfolding place
  place-IsSorted x [] px ps s = (tt, tt)
  place-IsSorted x (y ∷ ys) px (py, ps) (h, s) = elim (Bool-cases (before y x)) [
    | inl e ↦ rw e (
      All-place (λ z. before z y ≡ false) x ys (w.asymmetric y x e) h,
      place-IsSorted x ys px ps s,
    )
    | inr e ↦ rw e ((e, All-no_earlier x y ys px py ps e h), (h, s))
  ]

  pub sort_by-IsSorted : (xs : List A) → All P xs → IsSorted before (sort_by before xs)
  unfolding sort_by
  sort_by-IsSorted [] h = tt
  sort_by-IsSorted (x ∷ xs) (p, h) =
      place-IsSorted x (sort_by before xs) p (All-sort_by P xs h) (sort_by-IsSorted xs h)

module _ {A : Type 0} (before : A → A → Bool) where
  In-place : (a x : A) (xs : List A) → In a (place before x xs) ↔ (a ≡ x) ⊎ In a xs
  unfolding place
  In-place a x [] = (λ h. h, λ h. h)
  In-place a x (y ∷ ys) = elim (Bool-cases (before y x)) [
    | inl p ↦ rw p (
      (λ h. elim h [
        | inl q ↦ inr (inl q)
        | inr k ↦ elim ((In-place a x ys).0 k) [ inl q ↦ inl q | inr m ↦ inr (inr m) ]
      ]),
      (λ h. elim h [
        | inl q ↦ inr ((In-place a x ys).1 (inl q))
        | inr k ↦ elim k [ inl q ↦ inl q | inr m ↦ inr ((In-place a x ys).1 (inr m)) ]
      ]),
    )
    | inr p ↦ rw p (λ h. h, λ h. h)
  ]

  pub In-sort_by : (a : A) (xs : List A) → In a (sort_by before xs) ↔ In a xs
  unfolding sort_by
  In-sort_by a [] = (λ h. h, λ h. h)
  In-sort_by a (x ∷ xs) = (
    (λ h. elim ((In-place a x (sort_by before xs)).0 h) [
      | inl p ↦ inl p
      | inr m ↦ inr ((In-sort_by a xs).0 m)
    ]),
    (λ h.
        (In-place a x (sort_by before xs)).1
          (elim h [ inl p ↦ inl p | inr m ↦ inr ((In-sort_by a xs).1 m) ])),
  )
