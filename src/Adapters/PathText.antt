-- ===== src/Adapters/PathText.antt =====
-- adapters/filesystemPathGuard.ts: the tests on the text of a path.
use prism_spectra.Common.{
  ℕ, suc, Bool, false, ◌&&◌, ◌||◌, List, if◌then◌else◌, ◌==◌, string_eq, any_of, nat_beq,
}
use Prim.Native.String.{String, [], ◌∷◌}
use Prim.Native.Char.{Char, code}

-- `rel.startsWith("..")`
unfoldable pub starts_with_dots : String → Bool
starts_with_dots [] = false
starts_with_dots (c ∷ []) = false
starts_with_dots (c ∷ d ∷ s) = nat_beq (code c) 46 && nat_beq (code d) 46

-- "\" and "/"
abbrev is_separator : Char → Bool
is_separator c = nat_beq (code c) 92 || nat_beq (code c) 47

abbrev push_character : Char → List String → List String
push_character c List.[] = List.◌∷◌ (c ∷ []) List.[]
push_character c (List.◌∷◌ s ss) = List.◌∷◌ (c ∷ s) ss

-- `inputPath.split(/[\\/]+/)`; a run of separators gives empty segments here, of which none is "..".
unfoldable pub segments : String → List String
segments [] = List.◌∷◌ [] List.[]
segments (c ∷ s) =
    let rest = segments s in if is_separator c then List.◌∷◌ [] rest else push_character c rest

unfoldable pub has_traversal_segments : String → Bool
unfolding segments
has_traversal_segments input_path = any_of (λ s. s == "..") (segments input_path)

abbrev pub characters : String → ℕ
characters [] = 0
characters (c ∷ s) = suc (characters s)
