-- ===== src/Examples/Order.antt =====
-- An order of texts by the codes of their characters, which stands for `localeCompare` in the examples.
use prism_spectra.Common.{
  ◌≡◌, ap, refl, sym, ◌∙◌, Bool, true, false, ◌&&◌, ◌||◌, ltb, nat_beq, arith,
}
use prism_spectra.Events.{PrismEventLedger}
use prism_spectra.Events.Listing.{IsTimeOrder}
use Prim.Native.Char.{Char, code}
use Prim.Native.String.{String, [], ◌∷◌}
use Prim.Native.Nat.{compare}
use text.Mathlib.TextEquality.{codes_equal}
use text.Mathlib.TextPositions.{compare_self}

unfoldable pub precedes : String → String → Bool
precedes [] [] = false
precedes [] (d ∷ t) = true
precedes (c ∷ s) [] = false
precedes (c ∷ s) (d ∷ t) = ltb (code c) (code d) || (nat_beq (code c) (code d) && precedes s t)

same_char : (c d : Char) → code c ≡ code d → c ≡ d
same_char c d e = codes_equal c d (ap (λ n. compare (code c) n) (sym e) ∙ compare_self (code c))

asymmetric : (s t : String) → precedes s t ≡ true → precedes t s ≡ false
unfolding precedes
asymmetric [] [] h = refl
asymmetric [] (d ∷ t) h = refl
asymmetric (c ∷ s) [] h = cc
asymmetric (c ∷ s) (d ∷ t) h = ground (arith, asymmetric s t)

transitive : (s t u : String) → precedes s t ≡ true → precedes t u ≡ true → precedes s u ≡ true
unfolding precedes
transitive [] [] [] h k = cc
transitive [] (d ∷ t) [] h k = cc
transitive [] [] (e ∷ u) h k = refl
transitive [] (d ∷ t) (e ∷ u) h k = refl
transitive (c ∷ s) [] u h k = cc
transitive (c ∷ s) (d ∷ t) [] h k = cc
transitive (c ∷ s) (d ∷ t) (e ∷ u) h k = ground (arith, transitive s t u)

separates : (s t : String) → precedes s t ≡ false → precedes t s ≡ false → s ≡ t
unfolding precedes
separates [] [] h k = refl
separates [] (d ∷ t) h k = cc
separates (c ∷ s) [] h k = cc
separates (c ∷ s) (d ∷ t) h k =
    let same : code c ≡ code d = ground (arith, h, k) in
    let rest = separates s t (ground (arith, h, same)) (ground (arith, k, same)) in
    λ i. same_char c d same i ∷ rest i

pub precedes-IsTimeOrder : (l : PrismEventLedger) → IsTimeOrder precedes l
precedes-IsTimeOrder l = record {
  asymmetric = asymmetric;
  transitive = transitive;
  separates = λ s t i j. separates s t;
}
