-- ===== src/Sidecar/Recommend.antt =====
-- ingest/sidecarRecommendation.ts: the draft of a new sidecar, or the patch of a stale one.
use prism_spectra.Common.{ℕ, List, [], ◌∷◌, Option, none, some, String, if◌then◌else◌, is_empty}
use prism_spectra.Sidecar.{
  Checked, value, threw, PrismSidecar, create_initial_sidecar, update_sidecar_hash_fields,
}
use prism_spectra.Sidecar.AssetId.{deterministic_asset_id_for_source_path}
use prism_spectra.Sidecar.Planner.{
  SourceStatus, SidecarStatus, RecommendedAction, SourceFacts, LocalFileRoundTripPlan,
}

-- the `Partial<PrismSidecar>` of a hash update
pub record HashPatch : Type 0 where
  pub sha256 : String
  pub size_bytes : ℕ
  pub updated_at : String

pub record SidecarRecommendation : Type 0 where
  pub action : RecommendedAction
  pub reason : String
  pub sidecar_path : String
  pub source_path : String
  pub draft : Option PrismSidecar
  pub patch : Option HashPatch
  pub warnings : List String

unfoldable pub create_recommended_sidecar_draft :
    String → SourceFacts → String → Checked PrismSidecar
unfolding create_initial_sidecar
create_recommended_sidecar_draft source facts timestamp = create_initial_sidecar timestamp (record {
  asset_id = deterministic_asset_id_for_source_path source;
  source_path = source;
  canonical_path = source;
  kind = "other";
  sha256 = some facts.sha256;
  size_bytes = some facts.size_bytes;
  created_at = some timestamp;
  updated_at = some timestamp;
  tags = some [];
  derived_files = some [];
  analysis_status = some "pending";
  approval_state = some "unreviewed";
  notes = some [];
})

unfoldable pub update_hash_patch : PrismSidecar → SourceFacts → String → HashPatch
unfolding update_sidecar_hash_fields
update_hash_patch s facts timestamp =
    let updated = update_sidecar_hash_fields timestamp s (record {
      sha256 = facts.sha256;
      size_bytes = facts.size_bytes;
      updated_at = some timestamp;
    }) in
    record {
      sha256 = updated.sha256;
      size_bytes = updated.size_bytes;
      updated_at = updated.updated_at;
    }

-- A recommendation for the plan's paths.
abbrev pub recommendation :
    LocalFileRoundTripPlan
    → RecommendedAction
    → String
    → Option PrismSidecar
    → Option HashPatch
    → List String
    → SidecarRecommendation
recommendation plan action reason draft patch warnings = record {
  action = action;
  reason = reason;
  sidecar_path = plan.sidecar_path;
  source_path = plan.source_path;
  draft = draft;
  patch = patch;
  warnings = warnings;
}

abbrev pub blocked_recommendation :
    LocalFileRoundTripPlan → String → List String → SidecarRecommendation
blocked_recommendation plan reason warnings =
    recommendation plan RecommendedAction.blocked reason none none warnings

abbrev pub reasons_or : List String → String → List String
reasons_or reasons fallback = if is_empty reasons then fallback ∷ [] else reasons

abbrev pub create_with_draft :
    LocalFileRoundTripPlan → Checked PrismSidecar → Checked SidecarRecommendation
create_with_draft plan (threw m) = threw m
create_with_draft plan (value draft) =
    value
      (recommendation plan RecommendedAction.create_sidecar "sidecar_missing" (some draft) none [])

abbrev pub recommend_create :
    LocalFileRoundTripPlan → String → Option SourceFacts → Checked SidecarRecommendation
unfolding create_recommended_sidecar_draft
recommend_create plan timestamp none = value (
    blocked_recommendation plan "source_facts_missing"
      ("source facts are required before a draft can be recommended" ∷ []))
recommend_create plan timestamp (some facts) =
    create_with_draft plan (create_recommended_sidecar_draft plan.source_path facts timestamp)

abbrev pub recommend_update :
    LocalFileRoundTripPlan
    → String
    → Option SourceFacts
    → Option PrismSidecar
    → SidecarRecommendation
unfolding update_hash_patch
recommend_update plan timestamp (some facts) (some s) =
    recommendation plan RecommendedAction.update_sidecar_hash "sidecar_stale" none
      (some (update_hash_patch s facts timestamp)) []
recommend_update plan timestamp _ _ =
    blocked_recommendation plan "source_facts_missing"
      ("source facts and an existing sidecar are required to recommend a hash update" ∷ [])

-- the switch on the status of the sidecar of a source that is there
abbrev pub recommend_present :
    LocalFileRoundTripPlan → String → SidecarStatus → Checked SidecarRecommendation
recommend_present plan timestamp SidecarStatus.missing =
    recommend_create plan timestamp plan.source_facts
recommend_present plan timestamp SidecarStatus.stale =
    value (recommend_update plan timestamp plan.source_facts plan.sidecar)
recommend_present plan timestamp SidecarStatus.valid =
    value (recommendation plan RecommendedAction.ready "sidecar_ready" none none [])
recommend_present plan timestamp SidecarStatus.malformed = value (
    recommendation plan RecommendedAction.review_sidecar "sidecar_malformed" none none
      ("sidecar JSON could not be parsed or validated" ∷ []))
recommend_present plan timestamp SidecarStatus.mismatched_source = value (
    recommendation plan RecommendedAction.review_sidecar "source_path_mismatch" none none
      ("sidecar sourcePath does not match the requested source path" ∷ []))
recommend_present plan timestamp SidecarStatus.blocked = value (
    blocked_recommendation plan "sidecar_blocked"
      (reasons_or plan.reasons "planner returned a blocked sidecar state"))

-- `timestamp` is what the option `now` returns.
unfoldable pub recommend_sidecar_action :
    LocalFileRoundTripPlan → String → Checked SidecarRecommendation
unfolding create_recommended_sidecar_draft update_hash_patch
recommend_sidecar_action plan timestamp = elim plan.source_status [
  | SourceStatus.missing ↦ value (
      blocked_recommendation plan "source_missing"
        ("source file is missing; no sidecar draft can be recommended" ∷ []))
  | SourceStatus.blocked ↦ value (
      blocked_recommendation plan "source_blocked"
        (reasons_or plan.reasons "source is blocked by the planner"))
  | SourceStatus.present ↦ recommend_present plan timestamp plan.sidecar_status
]
