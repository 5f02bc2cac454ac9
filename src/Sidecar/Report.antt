-- ===== src/Sidecar/Report.antt =====
-- ingest/sidecarValidationReport.ts: what is told of a sidecar, whoever asks.
use Prim.Native.String
use prism_spectra.Common.{
  Bool, true, false, List, [], ◌∷◌, ◌++◌, Option, none, some, String, if◌then◌else◌, map, includes,
  ◌==◌, nat_eq, string_eq,
}
use prism_spectra.Sidecar.{Checked, value, threw, PrismSidecar, prism_sidecar_schema_version}
use prism_spectra.Sidecar.Planner.{
  SourceStatus, SidecarStatus, LocalFileRoundTripPlan, Parse, Filesystem,
  plan_local_file_round_trip,
}
use prism_spectra.Sidecar.Recommend.{reasons_or}

pub data ReportStatus : Type 0 where
  valid review_needed missing blocked : ReportStatus

pub data SchemaVersionStatus : Type 0 where
  current legacy_missing unsupported not_applicable : SchemaVersionStatus

pub data ReportAction : Type 0 where
  nothing create_sidecar update_sidecar_hash review_sidecar blocked : ReportAction

pub data Severity : Type 0 where
  info warning error : Severity

pub record ValidationIssue : Type 0 where
  pub code : String
  pub severity : Severity
  pub message : String

pub record SidecarValidationReport : Type 0 where
  pub status : ReportStatus
  pub source_path : String
  pub sidecar_path : String
  pub source_status : SourceStatus
  pub sidecar_status : SidecarStatus
  pub schema_version_status : SchemaVersionStatus
  pub issues : List ValidationIssue
  pub recommended_action : ReportAction
  pub can_auto_plan : Bool
  pub can_execute_with_approval : Bool

abbrev pub version_status : Option PrismSidecar → SchemaVersionStatus
version_status none = SchemaVersionStatus.not_applicable
version_status (some s) = elim s.schema_version [
  | none ↦ SchemaVersionStatus.legacy_missing
  | some v ↦
      if v == prism_sidecar_schema_version
      then SchemaVersionStatus.current
      else SchemaVersionStatus.unsupported
]

unfoldable pub schema_version_status_for_plan : LocalFileRoundTripPlan → SchemaVersionStatus
schema_version_status_for_plan plan =
    if includes plan.reasons "unsupported_schemaVersion"
    then SchemaVersionStatus.unsupported
    else version_status plan.sidecar

-- The chain of tests, one row per status of a sidecar whose source is there.
abbrev pub action_for_sidecar : SidecarStatus → SchemaVersionStatus → ReportAction
action_for_sidecar SidecarStatus.blocked v = ReportAction.blocked
action_for_sidecar SidecarStatus.missing v = ReportAction.create_sidecar
action_for_sidecar SidecarStatus.stale SchemaVersionStatus.unsupported = ReportAction.review_sidecar
action_for_sidecar SidecarStatus.stale v = ReportAction.update_sidecar_hash
action_for_sidecar SidecarStatus.valid SchemaVersionStatus.current = ReportAction.nothing
action_for_sidecar SidecarStatus.valid SchemaVersionStatus.legacy_missing = ReportAction.nothing
action_for_sidecar SidecarStatus.malformed v = ReportAction.review_sidecar
action_for_sidecar SidecarStatus.mismatched_source v = ReportAction.review_sidecar
action_for_sidecar SidecarStatus.valid SchemaVersionStatus.unsupported = ReportAction.review_sidecar
action_for_sidecar SidecarStatus.valid SchemaVersionStatus.not_applicable = ReportAction.blocked

unfoldable pub recommended_action_for_report :
    LocalFileRoundTripPlan → SchemaVersionStatus → ReportAction
recommended_action_for_report plan v = elim plan.source_status [
  | SourceStatus.blocked ↦ ReportAction.blocked
  | SourceStatus.missing ↦ ReportAction.blocked
  | SourceStatus.present ↦ action_for_sidecar plan.sidecar_status v
]

abbrev pub status_for_sidecar : SidecarStatus → SchemaVersionStatus → ReportStatus
status_for_sidecar SidecarStatus.blocked v = ReportStatus.blocked
status_for_sidecar SidecarStatus.missing v = ReportStatus.missing
status_for_sidecar SidecarStatus.stale v = ReportStatus.review_needed
status_for_sidecar SidecarStatus.malformed v = ReportStatus.review_needed
status_for_sidecar SidecarStatus.mismatched_source v = ReportStatus.review_needed
status_for_sidecar SidecarStatus.valid SchemaVersionStatus.unsupported = ReportStatus.review_needed
status_for_sidecar SidecarStatus.valid SchemaVersionStatus.current = ReportStatus.valid
status_for_sidecar SidecarStatus.valid SchemaVersionStatus.legacy_missing = ReportStatus.valid
status_for_sidecar SidecarStatus.valid SchemaVersionStatus.not_applicable = ReportStatus.blocked

unfoldable pub report_status_for_plan : LocalFileRoundTripPlan → SchemaVersionStatus → ReportStatus
report_status_for_plan plan v = elim plan.source_status [
  | SourceStatus.blocked ↦ ReportStatus.blocked
  | SourceStatus.missing ↦ ReportStatus.blocked
  | SourceStatus.present ↦ status_for_sidecar plan.sidecar_status v
]

abbrev pub can_auto_plan_for_report : ReportAction → Bool
can_auto_plan_for_report ReportAction.create_sidecar = true
can_auto_plan_for_report ReportAction.update_sidecar_hash = true
can_auto_plan_for_report _ = false

abbrev pub can_execute_with_approval_for_report : LocalFileRoundTripPlan → ReportAction → Bool
can_execute_with_approval_for_report plan action = elim plan.source_status [
  | SourceStatus.present ↦ can_auto_plan_for_report action
  | _ ↦ false
]

abbrev pub issue_for_missing_sidecar : ValidationIssue
issue_for_missing_sidecar = record {
  code = "sidecar_missing";
  severity = Severity.warning;
  message = "Adjacent sidecar is missing; a caller may create one later.";
}

abbrev pub issue_for_legacy_missing_schema_version : ValidationIssue
issue_for_legacy_missing_schema_version = record {
  code = "legacy_schemaVersion_missing";
  severity = Severity.warning;
  message = "Legacy sidecar omits schemaVersion; new sidecars emit schemaVersion 1.";
}

abbrev pub issue_for_unsupported_schema_version : ValidationIssue
issue_for_unsupported_schema_version = record {
  code = "unsupported_schemaVersion";
  severity = Severity.error;
  message = "Sidecar schemaVersion is unsupported and requires review.";
}

abbrev pub issue_of_reason : Severity → String → ValidationIssue
issue_of_reason severity reason = record {
  code = reason;
  severity = severity;
  message = String.◌++◌ "Sidecar validation reported " (String.◌++◌ reason ".");
}

unfoldable pub issues_from_reasons : List String → Severity → List ValidationIssue
issues_from_reasons reasons severity = map (issue_of_reason severity) reasons

abbrev pub legacy_issues : SchemaVersionStatus → List ValidationIssue
legacy_issues SchemaVersionStatus.legacy_missing = issue_for_legacy_missing_schema_version ∷ []
legacy_issues _ = []

abbrev pub issues_for_versioned :
    LocalFileRoundTripPlan → SidecarStatus → SchemaVersionStatus → List ValidationIssue
unfolding issues_from_reasons
issues_for_versioned plan status SchemaVersionStatus.unsupported =
    issue_for_unsupported_schema_version ∷ []
issues_for_versioned plan SidecarStatus.stale v =
    issues_from_reasons plan.reasons Severity.warning ++ legacy_issues v
issues_for_versioned plan SidecarStatus.malformed v =
    issues_from_reasons (reasons_or plan.reasons "sidecar_shape_invalid") Severity.error
issues_for_versioned plan SidecarStatus.mismatched_source v =
    issues_from_reasons (reasons_or plan.reasons "source_path_mismatch") Severity.error
    ++ legacy_issues v
issues_for_versioned plan SidecarStatus.valid v = legacy_issues v
issues_for_versioned plan _ v = []

abbrev pub issues_for_sidecar :
    LocalFileRoundTripPlan → SidecarStatus → SchemaVersionStatus → List ValidationIssue
issues_for_sidecar plan SidecarStatus.blocked v =
    issues_from_reasons (reasons_or plan.reasons "sidecar_blocked") Severity.error
issues_for_sidecar plan SidecarStatus.missing v = issue_for_missing_sidecar ∷ []
issues_for_sidecar plan status v = issues_for_versioned plan status v

unfoldable pub build_issues : LocalFileRoundTripPlan → SchemaVersionStatus → List ValidationIssue
unfolding issues_from_reasons
build_issues plan v = elim plan.source_status [
  | SourceStatus.blocked ↦
      issues_from_reasons (reasons_or plan.reasons "source_blocked") Severity.error
  | SourceStatus.missing ↦
      issues_from_reasons (reasons_or plan.reasons "source_missing") Severity.error
  | SourceStatus.present ↦ issues_for_sidecar plan plan.sidecar_status v
]

-- The report of a plan, given the status of its sidecar's schema version.
unfoldable pub report_with : LocalFileRoundTripPlan → SchemaVersionStatus → SidecarValidationReport
unfolding recommended_action_for_report report_status_for_plan build_issues
report_with plan v =
    let action = recommended_action_for_report plan v in
    record {
      status = report_status_for_plan plan v;
      source_path = plan.source_path;
      sidecar_path = plan.sidecar_path;
      source_status = plan.source_status;
      sidecar_status = plan.sidecar_status;
      schema_version_status = v;
      issues = build_issues plan v;
      recommended_action = action;
      can_auto_plan = can_auto_plan_for_report action;
      can_execute_with_approval = can_execute_with_approval_for_report plan action;
    }

unfoldable pub build_sidecar_validation_report : LocalFileRoundTripPlan → SidecarValidationReport
unfolding schema_version_status_for_plan report_with
build_sidecar_validation_report plan = report_with plan (schema_version_status_for_plan plan)

abbrev pub report_of : Checked LocalFileRoundTripPlan → Checked SidecarValidationReport
report_of (threw m) = threw m
report_of (value plan) = value (build_sidecar_validation_report plan)

unfoldable pub validate_local_file_sidecar :
    (String → Parse) → Filesystem → String → Option String → Checked SidecarValidationReport
unfolding plan_local_file_round_trip build_sidecar_validation_report
validate_local_file_sidecar parse fs source suffix =
    report_of (plan_local_file_round_trip parse fs source suffix)
