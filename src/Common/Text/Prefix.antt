-- ===== src/Common/Text/Prefix.antt =====
-- `text.startsWith(prefix)`
use Prim.Native.Char.{code}
use Prim.Native.String.{String, [], ◌∷◌}
use mathlib.Core.Bool.{Bool, true, false, ◌&&◌}
use prism_spectra.Common.Tests.{nat_beq}

unfoldable pub starts_with : String → String → Bool
starts_with [] text = true
starts_with (c ∷ prefix) [] = false
starts_with (c ∷ prefix) (d ∷ text) = nat_beq (code c) (code d) && starts_with prefix text
