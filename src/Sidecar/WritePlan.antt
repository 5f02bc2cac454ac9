-- ===== src/Sidecar/WritePlan.antt =====
-- ingest/sidecarWritePlan.ts: the write that a recommendation asks approval for. `JSON.stringify`
-- is a parameter.
use Prim.Native.String
use prism_spectra.Common.{List, [], ◌∷◌, ◌++◌, Option, none, some, String}
use prism_spectra.Sidecar.{PrismSidecar}
use prism_spectra.Sidecar.Planner.{RecommendedAction}
use prism_spectra.Sidecar.Recommend.{SidecarRecommendation, HashPatch}

pub data WritePlanStatus : Type 0 where
  planned not_applicable blocked : WritePlanStatus

pub data WriteOperation : Type 0 where
  create_sidecar update_sidecar nothing : WriteOperation

pub data WriteApprovalType : Type 0 where
  local_write nothing : WriteApprovalType

pub record SidecarWritePlan : Type 0 where
  pub status : WritePlanStatus
  pub operation : WriteOperation
  pub approval_type : WriteApprovalType
  pub source_path : String
  pub sidecar_path : String
  pub content : Option String
  pub json : Option PrismSidecar
  pub patch : Option HashPatch
  pub reasons : List String
  pub warnings : List String
  pub safety_checks : List String

abbrev pub create_checks : List String
create_checks =
    "sidecar path must remain inside allowed roots"
    ∷ "parent/source relationship must be revalidated before write"
    ∷ "existing sidecar must not be overwritten without a later explicit approval mode" ∷ []

abbrev pub update_checks : List String
update_checks =
    "sidecar path must remain inside allowed roots" ∷ "sidecar must be re-read before write"
    ∷ "current sidecar sourcePath must still match requested sourcePath"
    ∷ "stale fields must be revalidated before write" ∷ []

abbrev pub unplanned_write :
    SidecarRecommendation → WritePlanStatus → String → List String → SidecarWritePlan
unplanned_write r status reason warnings = record {
  status = status;
  operation = WriteOperation.nothing;
  approval_type = WriteApprovalType.nothing;
  source_path = r.source_path;
  sidecar_path = r.sidecar_path;
  content = none;
  json = none;
  patch = none;
  reasons = reason ∷ [];
  warnings = warnings;
  safety_checks = [];
}

abbrev pub blocked_write_plan : SidecarRecommendation → String → List String → SidecarWritePlan
blocked_write_plan r = unplanned_write r WritePlanStatus.blocked

-- `createPlannedWrite`, which only `plannedCreateWrite` calls, with a creation.
abbrev pub create_planned_write :
    SidecarRecommendation → String → PrismSidecar → List String → SidecarWritePlan
create_planned_write r content json checks = record {
  status = WritePlanStatus.planned;
  operation = WriteOperation.create_sidecar;
  approval_type = WriteApprovalType.local_write;
  source_path = r.source_path;
  sidecar_path = r.sidecar_path;
  content = some content;
  json = some json;
  patch = none;
  reasons = r.reason ∷ [];
  warnings = r.warnings;
  safety_checks = checks;
}

abbrev pub planned_update : SidecarRecommendation → HashPatch → SidecarWritePlan
planned_update r patch = record {
  status = WritePlanStatus.planned;
  operation = WriteOperation.update_sidecar;
  approval_type = WriteApprovalType.local_write;
  source_path = r.source_path;
  sidecar_path = r.sidecar_path;
  content = none;
  json = r.draft;
  patch = some patch;
  reasons = r.reason ∷ [];
  warnings = r.warnings;
  safety_checks = update_checks;
}

-- `plannedUpdateWrite`, and the refusal of an update without a patch
abbrev pub planned_update_write : SidecarRecommendation → Option HashPatch → SidecarWritePlan
planned_update_write r (some patch) = planned_update r patch
planned_update_write r none =
    blocked_write_plan r "unsupported_recommendation_state"
      (r.warnings ++ "unsupported recommendation action: update_sidecar_hash" ∷ [])

module _ (stringify : PrismSidecar → String) where
  abbrev pub stringify_sidecar : PrismSidecar → String
  stringify_sidecar s = String.◌++◌ (stringify s) "\n"

  -- `plannedCreateWrite`, and the refusal of a creation without a draft
  abbrev pub planned_create_write : SidecarRecommendation → Option PrismSidecar → SidecarWritePlan
  planned_create_write r (some draft) =
      create_planned_write r (stringify_sidecar draft) draft create_checks
  planned_create_write r none =
      blocked_write_plan r "unsupported_recommendation_state"
        (r.warnings ++ "unsupported recommendation action: create_sidecar" ∷ [])

  unfoldable pub plan_sidecar_write : SidecarRecommendation → SidecarWritePlan
  plan_sidecar_write r = elim r.action [
    | RecommendedAction.create_sidecar ↦ planned_create_write r r.draft
    | RecommendedAction.update_sidecar_hash ↦ planned_update_write r r.patch
    | RecommendedAction.ready ↦ unplanned_write r WritePlanStatus.not_applicable r.reason r.warnings
    | RecommendedAction.review_sidecar ↦ blocked_write_plan r r.reason r.warnings
    | RecommendedAction.blocked ↦ blocked_write_plan r r.reason r.warnings
  ]
