-- ===== src/Sidecar/Draft.antt =====
-- The draft of ingest/sidecarRecommendation.ts, which `createInitialSidecar` accepts.
use prism_spectra.Common.{◌≡◌, refl, ap, ◌∙◌, Bool, false, [], some, String, if◌then◌else◌, arith}
use Prim.Native.String
use text.Mathlib.TextLemmas.{cons-append}
use prism_spectra.Common.Text.{is_space, trim, is_blank}
use prism_spectra.Common.Text.Trim.{is_blank-trim_solid, is_blank-trim-trim}
use prism_spectra.Sidecar.{value, threw, PrismSidecar, blank}
use prism_spectra.Sidecar.AssetId.{
  or_source, normalized_source_path, deterministic_asset_id_for_source_path,
}
use prism_spectra.Sidecar.Planner.{SourceFacts}
use prism_spectra.Sidecar.Recommend.{create_recommended_sidecar_draft}

draft_branches :
    (b c : Bool) (draft : PrismSidecar)
    → b ≡ false
    → c ≡ false
    → (if b
        then threw "createInitialSidecar requires assetId."
        else if c
        then threw "createInitialSidecar requires sourcePath."
        else if c
        then threw "createInitialSidecar requires canonicalPath."
        else value draft)
      ≡ value draft
draft_branches b c draft h k = ground (arith, h, k)

asset-solid : (u : String) → blank (String.◌++◌ "asset-" u) ≡ false
unfolding is_space
asset-solid u =
    ap blank (cons-append "a" "sset-" u) ∙ is_blank-trim_solid "a" (String.◌++◌ "sset-" u) refl

pub asset_id-solid :
    (source : String) → blank (deterministic_asset_id_for_source_path source) ≡ false
unfolding deterministic_asset_id_for_source_path
asset_id-solid source = asset-solid (or_source (normalized_source_path source))

-- The draft of a new sidecar
abbrev pub draft_of : String → SourceFacts → String → PrismSidecar
draft_of source facts timestamp = record {
  schema_version = some 1;
  asset_id = deterministic_asset_id_for_source_path source;
  source_path = source;
  canonical_path = source;
  sha256 = facts.sha256;
  size_bytes = facts.size_bytes;
  created_at = timestamp;
  updated_at = timestamp;
  kind = "other";
  tags = [];
  derived_files = [];
  analysis_status = "pending";
  approval_state = "unreviewed";
  notes = [];
}

-- A creation for a trimmed source path that is not blank does not throw.
pub draft_lem :
    (source : String) (facts : SourceFacts) (timestamp : String)
    → is_blank (trim source) ≡ false
    → create_recommended_sidecar_draft (trim source) facts timestamp
      ≡ value (draft_of (trim source) facts timestamp)
unfolding create_recommended_sidecar_draft
draft_lem source facts timestamp h =
    draft_branches _ _ _ (asset_id-solid (trim source)) (is_blank-trim-trim source h)
