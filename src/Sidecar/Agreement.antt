-- ===== src/Sidecar/Agreement.antt =====
-- The four ways from a plan of `planLocalFileRoundTrip` to an approval review: the plan itself, the
-- recommendation for it, the write plan for that recommendation, and the validation report.
use prism_spectra.Common.{
  ◌≡◌, ◌≢◌, ◌⊎◌, inl, inr, refl, sym, ap, ◌∙◌, subst, Bool, true, false, [], Option, none, some,
  String, if◌then◌else◌, string_eq, nat_eq, arith, Bool-cases, some_inj, is_empty,
}
use prism_spectra.Sidecar.Draft.{draft_lem}
use prism_spectra.Common.Text.{trim, is_blank}
use prism_spectra.Common.Json.{Json, obj}
use prism_spectra.Sidecar.{
  shape_issues, SidecarShapeValidationResult, value, PrismSidecar, validate_sidecar_shape,
  sidecar_of, Readings, read_fields,
}
use prism_spectra.Sidecar.Planner.{
  Filesystem, Parse, SourceFacts, LocalFileRoundTripPlan, missing_sidecar_plan, stale_plan,
  ready_plan, stale_reasons, plan_local_file_round_trip,
}
use prism_spectra.Sidecar.Evidence.{
  Justified, IsSidecar, no_access, no_source, no_sidecar, bad_shape, other_source, outdated,
  settled,
}
use prism_spectra.Sidecar.Plans.{plan_local_file_round_trip-Justified}
use prism_spectra.Sidecar.Recommend.{
  SidecarRecommendation, recommend_sidecar_action, create_with_draft,
}
use prism_spectra.Sidecar.WritePlan.{plan_sidecar_write}
use prism_spectra.Sidecar.Report.{
  report_with, recommended_action_for_report, SchemaVersionStatus, version_status,
  build_sidecar_validation_report, schema_version_status_for_plan,
}
use prism_spectra.Sidecar.Review.{
  SidecarApprovalReview, ReviewStatus, ReviewType, ReviewOperation, RiskLevel, review_from_planner,
  review_from_recommendation, review_from_write_plan, review_from_validation_report,
}

-- What a review decides, without its texts.
pub record Verdict : Type 0 where
  pub status : ReviewStatus
  pub approval_type : ReviewType
  pub source_path : String
  pub sidecar_path : String
  pub operation : ReviewOperation
  pub risk : RiskLevel
  pub can_approve : Bool

abbrev pub verdict : SidecarApprovalReview → Verdict
verdict r = record {
  status = r.status;
  approval_type = r.approval_type;
  source_path = r.source_path;
  sidecar_path = r.sidecar_path;
  operation = r.proposed_operation;
  risk = r.risk_level;
  can_approve = r.can_approve;
}

-- The reviews of the plan, of a recommendation, of the write plan for it and of the report agree.
abbrev pub Agree : (PrismSidecar → String) → LocalFileRoundTripPlan → SidecarRecommendation → Type 0
Agree stringify plan r =
    (verdict (review_from_recommendation r) ≡ verdict (review_from_planner plan))
    × (verdict (review_from_write_plan (plan_sidecar_write stringify r))
        ≡ verdict (review_from_planner plan))
    × (verdict (review_from_validation_report (build_sidecar_validation_report plan))
        ≡ verdict (review_from_planner plan))

abbrev passed : Readings → SidecarShapeValidationResult
passed r = record { ok = true; sidecar = some (sidecar_of r); issues = [] }

abbrev refused : Readings → SidecarShapeValidationResult
unfolding shape_issues
refused r = record { ok = false; sidecar = none; issues = shape_issues r }

sidecar_of-version :
    (r : Readings) → version_status (some (sidecar_of r)) ≢ SchemaVersionStatus.unsupported
sidecar_of-version r h = ground (arith, h)

-- The schema version of a sidecar that passed the checks is the current one or missing.
validated-version :
    (v : Json) (s : PrismSidecar)
    → (validate_sidecar_shape v).sidecar ≡ some s
    → version_status (some s) ≢ SchemaVersionStatus.unsupported
unfolding validate_sidecar_shape
validated-version (obj fs) s h = elim (Bool-cases (is_empty (shape_issues (read_fields fs)))) [
  | inl e ↦
      subst (λ (s' : PrismSidecar). version_status (some s') ≢ SchemaVersionStatus.unsupported)
        (some_inj (
          ap (λ b. (if b then passed (read_fields fs) else refused (read_fields fs)).sidecar)
            (sym e)
          ∙ h))
        (sidecar_of-version (read_fields fs))
  | inr e ↦
      let nothing : none ≡ some s =
        ap (λ b. (if b then passed (read_fields fs) else refused (read_fields fs)).sidecar) (sym e)
        ∙ h in
      cc
]
validated-version v s h = cc

version_status-cases :
    (s : PrismSidecar)
    → version_status (some s) ≢ SchemaVersionStatus.unsupported
    → (version_status (some s) ≡ SchemaVersionStatus.current)
      ⊎ (version_status (some s) ≡ SchemaVersionStatus.legacy_missing)
version_status-cases s h = ground (arith, h)

IsSidecar-version :
    (parse : String → Parse) (fs : Filesystem) (source side : String) (s : PrismSidecar)
    → IsSidecar parse fs source side s
    → (version_status (some s) ≡ SchemaVersionStatus.current)
      ⊎ (version_status (some s) ≡ SchemaVersionStatus.legacy_missing)
IsSidecar-version parse fs source side s (st, text, v, _, _, _, _, _, e) =
    version_status-cases s (validated-version v s e)

module _ (s : PrismSidecar) (source side : String) (f : SourceFacts) where
  stale_plan-version :
      schema_version_status_for_plan (stale_plan s (stale_reasons s f) source side f)
      ≡ version_status (some s)
  unfolding schema_version_status_for_plan stale_reasons
  stale_plan-version = ground arith

  stale_plan-report :
      (v : SchemaVersionStatus)
      → (v ≡ SchemaVersionStatus.current) ⊎ (v ≡ SchemaVersionStatus.legacy_missing)
      → verdict (
          review_from_validation_report
            (report_with (stale_plan s (stale_reasons s f) source side f) v))
        ≡ verdict (review_from_planner (stale_plan s (stale_reasons s f) source side f))
  unfolding report_with review_from_validation_report review_from_planner
      recommended_action_for_report stale_reasons
  stale_plan-report SchemaVersionStatus.current h = refl
  stale_plan-report SchemaVersionStatus.legacy_missing h = refl
  stale_plan-report SchemaVersionStatus.unsupported h = ground (arith, h)
  stale_plan-report SchemaVersionStatus.not_applicable h = ground (arith, h)

  ready_plan-report :
      (v : SchemaVersionStatus)
      → (v ≡ SchemaVersionStatus.current) ⊎ (v ≡ SchemaVersionStatus.legacy_missing)
      → verdict (review_from_validation_report (report_with (ready_plan s source side f) v))
        ≡ verdict (review_from_planner (ready_plan s source side f))
  unfolding report_with review_from_validation_report review_from_planner
      recommended_action_for_report stale_reasons
  ready_plan-report SchemaVersionStatus.current h = refl
  ready_plan-report SchemaVersionStatus.legacy_missing h = refl
  ready_plan-report SchemaVersionStatus.unsupported h = ground (arith, h)
  ready_plan-report SchemaVersionStatus.not_applicable h = ground (arith, h)

module _ (parse : String → Parse) (fs : Filesystem) (stringify : PrismSidecar → String)
    (timestamp source side : String) where
  agree_lem :
      (plan : LocalFileRoundTripPlan)
      → is_blank (trim source) ≡ false
      → Justified parse fs (trim source) side plan
      → (r : SidecarRecommendation) × (recommend_sidecar_action plan timestamp ≡ value r)
        × Agree stringify plan r
  unfolding recommend_sidecar_action plan_sidecar_write build_sidecar_validation_report
      review_from_planner review_from_recommendation review_from_write_plan
      review_from_validation_report
  agree_lem plan h (no_access rs why) = (_, refl, (refl, refl, refl))
  agree_lem plan h (no_source gone) = (_, refl, (refl, refl, refl))
  agree_lem plan h (no_sidecar f here gone) =
      let e = draft_lem source f timestamp h in
      (_, ap (create_with_draft (missing_sidecar_plan (trim source) side f)) e, (refl, refl, refl))
  agree_lem plan h (bad_shape f rs here bad) = (_, refl, (refl, refl, refl))
  agree_lem plan h (other_source f s here read other) = (_, refl, (refl, refl, refl))
  agree_lem plan h (outdated f s here read same old) = (
    _,
    refl,
    (
      refl,
      refl,
      subst
          (λ v.
            verdict (
              review_from_validation_report
                (report_with (stale_plan s (stale_reasons s f) (trim source) side f) v))
            ≡ verdict (review_from_planner (stale_plan s (stale_reasons s f) (trim source) side f)))
          (sym (stale_plan-version s (trim source) side f))
          (stale_plan-report s (trim source) side f (version_status (some s))
            (IsSidecar-version parse fs (trim source) side s read)),
    ),
  )
  agree_lem plan h (settled f s here read same fits) = (
    _,
    refl,
    (
      refl,
      refl,
      ready_plan-report s (trim source) side f (version_status (some s))
          (IsSidecar-version parse fs (trim source) side s read),
    ),
  )

-- Planning a sidecar and then recommending never throws, and the four reviews that can be built
-- from a plan agree on everything a decision rests on: status, kind of approval, operation, risk,
-- paths and whether it can be approved.
pub reviews-Agree :
    (parse : String → Parse) (fs : Filesystem) (stringify : PrismSidecar → String)
    (timestamp source : String) (suffix : Option String) (plan : LocalFileRoundTripPlan)
    → plan_local_file_round_trip parse fs source suffix ≡ value plan
    → (r : SidecarRecommendation) × (recommend_sidecar_action plan timestamp ≡ value r)
      × Agree stringify plan r
reviews-Agree parse fs stringify timestamp source suffix plan h =
    let (side, _, solid, why) =
      plan_local_file_round_trip-Justified parse fs source suffix plan h in
    agree_lem parse fs stringify timestamp source side plan solid why
