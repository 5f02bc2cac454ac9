-- ===== src/Common/Text/Base36.antt =====
-- `toString(36)` of a whole number.
use Prim.Native.Nat.{ℕ, zero, suc, ◌/◌, ◌%◌}
use Prim.Native.Char.{Char}
use Prim.Native.String.{String, [], ◌∷◌}
use prism_spectra.Common.Tests.{ltb, if◌then◌else◌}

-- The character at a place of a text; "?" behind its end.
abbrev char_at : String → ℕ → Char
char_at [] n = "?"
char_at (c ∷ s) zero = c
char_at (c ∷ s) (suc n) = char_at s n

abbrev digit : ℕ → Char
digit n = char_at "0123456789abcdefghijklmnopqrstuvwxyz" n

-- The digits of a number in front of those that stand already, each digit one unit of fuel.
unfoldable pub digits36 : ℕ → ℕ → String → String
digits36 zero n later = later
digits36 (suc fuel) n later =
    let shown = digit (n % 36) ∷ later in
    let rest = digits36 fuel (n / 36) shown in if ltb n 36 then shown else rest

unfoldable pub to_base36 : ℕ → String
unfolding digits36
to_base36 n = digits36 (suc n) n ""
