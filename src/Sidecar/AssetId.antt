-- ===== src/Sidecar/AssetId.antt =====
-- `deterministicAssetIdForSourcePath` of ingest/sidecarRecommendation.ts, one function per regular
-- expression. An id character is one of `A-Za-z0-9._-`, and 45 is the dash, 47 and 92 the slashes.
use Prim.Native.Char.{Char, code}
use Prim.Native.String
use Prim.Native.String.{[], ◌∷◌}
use prism_spectra.Common.{ℕ, Bool, false, not, ◌&&◌, ◌||◌, String, if◌then◌else◌, leb, nat_beq}
use prism_spectra.Common.Text.{trim, is_blank}

abbrev dash : Char
dash = "-"

abbrev slash : Char
slash = "/"

-- `[A-Za-z0-9._-]`
abbrev pub is_id_char : ℕ → Bool
is_id_char c =
    (leb 65 c && leb c 90)
    || (leb 97 c && leb c 122)
    || (leb 48 c && leb c 57)
    || nat_beq c 46
    || nat_beq c 95
    || nat_beq c 45

-- `.replace(/\\/g, "/")`
unfoldable pub slash_paths : String → String
slash_paths [] = ""
slash_paths (c ∷ s) =
    let rest = slash_paths s in if nat_beq (code c) 92 then slash ∷ rest else c ∷ rest

-- `.replace(/^\/+/, "")`
unfoldable pub strip_slashes : String → String
strip_slashes [] = ""
strip_slashes (c ∷ s) = let rest = strip_slashes s in if nat_beq (code c) 47 then rest else c ∷ s

abbrev pub starts_with_dash : String → Bool
starts_with_dash [] = false
starts_with_dash (c ∷ s) = nat_beq (code c) 45

-- A dash in front of a text whose runs of dashes are one dash already.
abbrev pub push_dash : String → String
push_dash s = if starts_with_dash s then s else dash ∷ s

-- `.replace(/[^A-Za-z0-9._-]+/g, "-").replace(/-+/g, "-")`
unfoldable pub dash_runs : String → String
dash_runs [] = ""
dash_runs (c ∷ s) =
    let rest = dash_runs s in
    if is_id_char (code c) && not (nat_beq (code c) 45) then c ∷ rest else push_dash rest

-- `.replace(/^-|-$/g, "")`
abbrev pub strip_first_dash : String → String
strip_first_dash [] = ""
strip_first_dash (c ∷ s) = if nat_beq (code c) 45 then s else c ∷ s

unfoldable pub strip_last_dash : String → String
strip_last_dash [] = ""
strip_last_dash (c ∷ s) =
    let rest = strip_last_dash s in if is_blank s && nat_beq (code c) 45 then "" else c ∷ rest

unfoldable pub normalized_source_path : String → String
unfolding trim slash_paths strip_slashes dash_runs strip_last_dash
normalized_source_path source =
    strip_last_dash (strip_first_dash (dash_runs (strip_slashes (slash_paths (trim source)))))

abbrev pub or_source : String → String
or_source normalized = if is_blank normalized then "source" else normalized

unfoldable pub deterministic_asset_id_for_source_path : String → String
unfolding normalized_source_path
deterministic_asset_id_for_source_path source =
    String.◌++◌ "asset-" (or_source (normalized_source_path source))
