-- ===== src/Sidecar/Review.antt =====
-- ingest/sidecarApprovalReview.ts: what the person who approves a sidecar write is shown, from
-- whichever of the four states the caller has.
use Prim.Native.String
use prism_spectra.Common.{
  Bool, true, false, List, [], ◌∷◌, Option, none, some, String, if◌then◌else◌, map, includes,
  string_eq, is_empty,
}
use prism_spectra.Sidecar.{Checked, value, threw, PrismSidecar}
use prism_spectra.Sidecar.Planner.{RecommendedAction, LocalFileRoundTripPlan}
use prism_spectra.Sidecar.Recommend.{SidecarRecommendation, HashPatch, reasons_or}
use prism_spectra.Sidecar.WritePlan.{SidecarWritePlan, WritePlanStatus, WriteOperation}
use prism_spectra.Sidecar.Report.{SidecarValidationReport, ReportAction, ValidationIssue}

pub data ReviewStatus : Type 0 where
  approval_required not_applicable blocked : ReviewStatus

pub data ReviewType : Type 0 where
  local_write nothing : ReviewType

pub data ReviewOperation : Type 0 where
  create_sidecar update_sidecar nothing : ReviewOperation

pub data RiskLevel : Type 0 where
  low medium blocked : RiskLevel

pub record SidecarApprovalReview : Type 0 where
  pub status : ReviewStatus
  pub approval_type : ReviewType
  pub source_path : String
  pub sidecar_path : String
  pub title : String
  pub summary : String
  pub proposed_operation : ReviewOperation
  pub risk_level : RiskLevel
  pub user_facing_changes : List String
  pub safety_checks : List String
  pub reasons : List String
  pub warnings : List String
  pub can_approve : Bool

pub record ReviewInput : Type 0 where
  pub planner : Option LocalFileRoundTripPlan
  pub recommendation : Option SidecarRecommendation
  pub write_plan : Option SidecarWritePlan
  pub validation_report : Option SidecarValidationReport

abbrev pub create_changes : List String
create_changes =
    "schemaVersion" ∷ "assetId" ∷ "sourcePath" ∷ "canonicalPath" ∷ "sha256" ∷ "sizeBytes"
    ∷ "createdAt" ∷ "updatedAt" ∷ "kind" ∷ "tags" ∷ "derivedFiles" ∷ "analysisStatus"
    ∷ "approvalState" ∷ "notes" ∷ []

abbrev pub update_changes : List String
update_changes = "sha256" ∷ "sizeBytes" ∷ "updatedAt" ∷ []

abbrev pub create_safety_checks : List String
create_safety_checks =
    "source path must remain explicit" ∷ "sidecar path must stay adjacent to the source file"
    ∷ "existing sidecar must not be overwritten"
    ∷ "local_write approval is required before file changes" ∷ []

abbrev pub update_safety_checks : List String
update_safety_checks =
    "source path must remain explicit" ∷ "sidecar path must stay adjacent to the source file"
    ∷ "current sidecar must still match the requested source file"
    ∷ "only sha256, sizeBytes, and updatedAt may change" ∷ []

-- The values that are not in `seen`, each at its first place.
unfoldable pub unseen : List String → List String → List String
unseen seen [] = []
unseen seen (v ∷ vs) = elim (includes seen v) [
  | true ↦ unseen seen vs
  | false ↦ v ∷ unseen (v ∷ seen) vs
]

unfoldable pub unique_strings : List String → List String
unfolding unseen
unique_strings vs = unseen [] vs

abbrev pub unapproved_review :
    ReviewStatus
    → RiskLevel
    → String
    → String
    → String
    → String
    → List String
    → List String
    → SidecarApprovalReview
unfolding unique_strings
unapproved_review status risk source side title summary reasons warnings = record {
  status = status;
  approval_type = ReviewType.nothing;
  source_path = source;
  sidecar_path = side;
  title = title;
  summary = summary;
  proposed_operation = ReviewOperation.nothing;
  risk_level = risk;
  user_facing_changes = [];
  safety_checks = [];
  reasons = unique_strings reasons;
  warnings = unique_strings warnings;
  can_approve = false;
}

abbrev pub blocked_review :
    String → String → String → String → List String → List String → SidecarApprovalReview
blocked_review = unapproved_review ReviewStatus.blocked RiskLevel.blocked

-- the review of a state that asks for a person's judgement, or for nothing
abbrev pub blocked_for : String → String → List String → List String → SidecarApprovalReview
blocked_for source side =
    blocked_review source side "Sidecar review blocked"
      (String.◌++◌ "Sidecar approval is blocked for " (String.◌++◌ source "."))

abbrev pub not_applicable_review :
    String → String → List String → List String → SidecarApprovalReview
not_applicable_review source side =
    unapproved_review ReviewStatus.not_applicable RiskLevel.low source side
      "No sidecar approval needed"
      (String.◌++◌ "No sidecar write is required for " (String.◌++◌ source "."))

abbrev pub approval_required_review :
    String
    → String
    → ReviewOperation
    → RiskLevel
    → String
    → String
    → List String
    → List String
    → List String
    → List String
    → SidecarApprovalReview
unfolding unique_strings
approval_required_review source side operation risk title summary reasons warnings changes checks =
    record {
      status = ReviewStatus.approval_required;
      approval_type = ReviewType.local_write;
      source_path = source;
      sidecar_path = side;
      title = title;
      summary = summary;
      proposed_operation = operation;
      risk_level = risk;
      user_facing_changes = unique_strings changes;
      safety_checks = unique_strings checks;
      reasons = unique_strings reasons;
      warnings = unique_strings warnings;
      can_approve = true;
    }

abbrev pub create_review :
    String → String → List String → List String → List String → List String → SidecarApprovalReview
create_review source side =
    approval_required_review source side ReviewOperation.create_sidecar RiskLevel.low
      "Approve sidecar creation"
      (String.◌++◌ "Create " (String.◌++◌ side (String.◌++◌ " for " (String.◌++◌ source "."))))

abbrev pub update_review :
    String → String → List String → List String → List String → List String → SidecarApprovalReview
update_review source side =
    approval_required_review source side ReviewOperation.update_sidecar RiskLevel.medium
      "Approve sidecar refresh"
      (String.◌++◌ "Refresh " (
        String.◌++◌ side (String.◌++◌ " for " (String.◌++◌ source " with current hash metadata."))))

abbrev pub checks_or : List String → List String → List String
checks_or checks fallback = if is_empty checks then fallback else checks

abbrev pub report_reasons : SidecarValidationReport → List String
report_reasons r = elim r.recommended_action [
  | ReportAction.nothing ↦ "sidecar_ready" ∷ []
  | ReportAction.create_sidecar ↦
      reasons_or (map (λ (i : ValidationIssue). i.code) r.issues) "create_sidecar"
  | ReportAction.update_sidecar_hash ↦
      reasons_or (map (λ (i : ValidationIssue). i.code) r.issues) "update_sidecar_hash"
  | ReportAction.review_sidecar ↦
      reasons_or (map (λ (i : ValidationIssue). i.code) r.issues) "review_sidecar"
  | ReportAction.blocked ↦ reasons_or (map (λ (i : ValidationIssue). i.code) r.issues) "blocked"
]

abbrev pub report_warnings : SidecarValidationReport → List String
report_warnings r = map (λ (i : ValidationIssue). i.message) r.issues

abbrev pub review_of_planned_write : SidecarWritePlan → WriteOperation → SidecarApprovalReview
review_of_planned_write p WriteOperation.create_sidecar =
    create_review p.source_path p.sidecar_path p.reasons p.warnings create_changes
      (checks_or p.safety_checks create_safety_checks)
review_of_planned_write p WriteOperation.update_sidecar =
    update_review p.source_path p.sidecar_path p.reasons p.warnings update_changes
      (checks_or p.safety_checks update_safety_checks)
review_of_planned_write p WriteOperation.nothing =
    blocked_review p.source_path p.sidecar_path "Sidecar review blocked"
      (String.◌++◌ "The sidecar write plan for "
        (String.◌++◌ p.source_path " is not a supported approval target."))
      ("unsupported_write_plan_operation" ∷ [])
      ("write plan operation must be create_sidecar or update_sidecar" ∷ [])

unfoldable pub review_from_write_plan : SidecarWritePlan → SidecarApprovalReview
unfolding unique_strings
review_from_write_plan p = elim p.status [
  | WritePlanStatus.planned ↦ review_of_planned_write p p.operation
  | WritePlanStatus.not_applicable ↦
      not_applicable_review p.source_path p.sidecar_path p.reasons p.warnings
  | WritePlanStatus.blocked ↦ blocked_for p.source_path p.sidecar_path p.reasons p.warnings
]

unfoldable pub review_from_validation_report : SidecarValidationReport → SidecarApprovalReview
unfolding unique_strings
review_from_validation_report r =
    let reasons = report_reasons r in
    let warnings = report_warnings r in
    elim r.recommended_action [
      | ReportAction.create_sidecar ↦
          create_review r.source_path r.sidecar_path reasons warnings create_changes
            create_safety_checks
      | ReportAction.update_sidecar_hash ↦
          update_review r.source_path r.sidecar_path reasons warnings update_changes
            update_safety_checks
      | ReportAction.nothing ↦ not_applicable_review r.source_path r.sidecar_path reasons warnings
      | ReportAction.review_sidecar ↦ blocked_for r.source_path r.sidecar_path reasons warnings
      | ReportAction.blocked ↦ blocked_for r.source_path r.sidecar_path reasons warnings
    ]

-- `Object.keys` of a draft that `createInitialSidecar` built
abbrev pub draft_keys : Option PrismSidecar → List String
draft_keys none = create_changes
draft_keys (some s) = elim s.schema_version [
  | some v ↦
      "schemaVersion" ∷ "assetId" ∷ "sourcePath" ∷ "canonicalPath" ∷ "sha256" ∷ "sizeBytes"
      ∷ "createdAt" ∷ "updatedAt" ∷ "kind" ∷ "tags" ∷ "derivedFiles" ∷ "analysisStatus"
      ∷ "approvalState" ∷ "notes" ∷ []
  | none ↦
      "assetId" ∷ "sourcePath" ∷ "canonicalPath" ∷ "sha256" ∷ "sizeBytes" ∷ "createdAt"
      ∷ "updatedAt" ∷ "kind" ∷ "tags" ∷ "derivedFiles" ∷ "analysisStatus" ∷ "approvalState"
      ∷ "notes" ∷ []
]

-- `Object.keys` of a patch: the same three names as the fallback's.
abbrev pub patch_keys : Option HashPatch → List String
patch_keys none = update_changes
patch_keys (some p) = "sha256" ∷ "sizeBytes" ∷ "updatedAt" ∷ []

unfoldable pub review_from_recommendation : SidecarRecommendation → SidecarApprovalReview
unfolding unique_strings
review_from_recommendation r = elim r.action [
  | RecommendedAction.create_sidecar ↦
      create_review r.source_path r.sidecar_path (r.reason ∷ []) r.warnings (draft_keys r.draft)
        create_safety_checks
  | RecommendedAction.update_sidecar_hash ↦
      update_review r.source_path r.sidecar_path (r.reason ∷ []) r.warnings (patch_keys r.patch)
        update_safety_checks
  | RecommendedAction.ready ↦
      not_applicable_review r.source_path r.sidecar_path (r.reason ∷ []) r.warnings
  | RecommendedAction.review_sidecar ↦
      blocked_for r.source_path r.sidecar_path (r.reason ∷ []) r.warnings
  | RecommendedAction.blocked ↦ blocked_for r.source_path r.sidecar_path (r.reason ∷ []) r.warnings
]

unfoldable pub review_from_planner : LocalFileRoundTripPlan → SidecarApprovalReview
unfolding unique_strings
review_from_planner p = elim p.recommended_action [
  | RecommendedAction.create_sidecar ↦
      create_review p.source_path p.sidecar_path (reasons_or p.reasons "sidecar_missing") []
        create_changes create_safety_checks
  | RecommendedAction.update_sidecar_hash ↦
      update_review p.source_path p.sidecar_path (reasons_or p.reasons "sidecar_stale") []
        update_changes update_safety_checks
  | RecommendedAction.ready ↦
      not_applicable_review p.source_path p.sidecar_path (reasons_or p.reasons "sidecar_ready") []
  | RecommendedAction.review_sidecar ↦ blocked_for p.source_path p.sidecar_path p.reasons []
  | RecommendedAction.blocked ↦ blocked_for p.source_path p.sidecar_path p.reasons []
]

abbrev pub review_of_planner : Option LocalFileRoundTripPlan → Checked SidecarApprovalReview
unfolding review_from_planner
review_of_planner (some p) = value (review_from_planner p)
review_of_planner none = threw "buildSidecarApprovalReview requires at least one sidecar state."

unfoldable pub build_sidecar_approval_review : ReviewInput → Checked SidecarApprovalReview
unfolding review_from_write_plan review_from_validation_report review_from_recommendation
    review_from_planner
build_sidecar_approval_review i = elim i.write_plan [
  | some p ↦ value (review_from_write_plan p)
  | none ↦ elim i.validation_report [
    | some r ↦ value (review_from_validation_report r)
    | none ↦ elim i.recommendation [
      | some r ↦ value (review_from_recommendation r)
      | none ↦ review_of_planner i.planner
    ]
  ]
]
