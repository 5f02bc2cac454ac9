-- ===== src/Common/Text/Contains.antt =====
-- `/word/i.test(text)` for a word in lower-case ASCII letters.
use Prim.Native.Nat.{ℕ, ◌+◌}
use Prim.Native.Char.{code}
use Prim.Native.String.{String, [], ◌∷◌}
use mathlib.Core.Bool.{Bool, true, false, ◌&&◌, ◌||◌}
use prism_spectra.Common.Tests.{leb, nat_beq, if◌then◌else◌}

-- The code of an ASCII letter in lower case; any other code as it is.
unfoldable pub folded : ℕ → ℕ
folded n = if leb 65 n && leb n 90 then n + 32 else n

unfoldable pub starts_with_folded : String → String → Bool
unfolding folded
starts_with_folded [] text = true
starts_with_folded (c ∷ word) [] = false
starts_with_folded (c ∷ word) (d ∷ text) =
    nat_beq (code c) (folded (code d)) && starts_with_folded word text

unfoldable pub contains_folded : String → String → Bool
unfolding starts_with_folded
contains_folded word [] = starts_with_folded word []
contains_folded word (c ∷ text) = starts_with_folded word (c ∷ text) || contains_folded word text
