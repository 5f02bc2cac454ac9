-- ===== src/Sidecar/Settle.antt =====
-- What planning says after the write of a plan to create a sidecar: the ingest files in a round.
use prism_spectra.Common.{
  ℕ, ◌≡◌, inr, refl, sym, ap, ◌∙◌, subst, true, false, not, [], ◌∷◌, Option, some, some_inj, String,
  if◌then◌else◌, string_eq, nat_eq, or_else,
}
use prism_spectra.Common.Text.{trim, is_blank}
use prism_spectra.Common.Text.Trim.{is_blank-trim-trim}
use prism_spectra.Common.Json.{Json}
use prism_spectra.Sidecar.{
  value, threw, PrismSidecar, SidecarShapeValidationResult, prism_sidecar_suffix,
  build_sidecar_path, validate_sidecar_shape, blank,
}
use prism_spectra.Sidecar.Planner.{
  Stat, got, Filesystem, Parse, parsed, SourceFacts, LocalFileRoundTripPlan, RecommendedAction,
  is_file_stat, blocked_plan, missing_sidecar_plan, mismatched_source_plan, ready_plan,
  stale_reasons, stale_or_ready, plan_of_sidecar, plan_of_validation, plan_of_parse, plan_of_text,
  plan_of_sidecar_stat, plan_of_source_hash, plan_of_source_stat, plan_beside,
  plan_local_file_round_trip,
}
use prism_spectra.Sidecar.Evidence.{
  Describes, IsSource, IsSidecar, Justified, no_access, no_source, no_sidecar, bad_shape,
  other_source, outdated, settled,
}
use prism_spectra.Sidecar.Plans.{
  value_inj, plan_local_file_round_trip-Justified, Describes-stale_reasons,
}
use prism_spectra.Sidecar.Draft.{draft_of, draft_lem, asset_id-solid}
use prism_spectra.Sidecar.WritePlan.{plan_sidecar_write, stringify_sidecar}
use prism_spectra.Sidecar.Recommend.{
  SidecarRecommendation, recommend_sidecar_action, create_with_draft,
}
use prism_spectra.Sidecar.Shape.{WellShaped, json_of, validate_sidecar_shape-json_of}

module _ (parse : String → Parse) (fs : Filesystem) (source side : String) (f : SourceFacts)
    (s : PrismSidecar) (same : s.source_path ≡ source) (fits : Describes s f) where
  plan_of_sidecar-ready : plan_of_sidecar s source side f ≡ ready_plan s source side f
  unfolding plan_of_sidecar
  plan_of_sidecar-ready =
      ap
        (λ b.
          if not b
          then mismatched_source_plan s source side f
          else stale_or_ready s (stale_reasons s f) source side f)
        ((string_eq.beq_iff s.source_path source).1 same)
      ∙ ap (λ rs. stale_or_ready s rs source side f)
          (Describes-stale_reasons parse fs source side s f fits)

  plan_of_parse-ready :
      (text : String) (v : Json)
      → parse text ≡ parsed v
      → (validate_sidecar_shape v).ok ≡ true
      → (validate_sidecar_shape v).sidecar ≡ some s
      → plan_of_parse (parse text) source side f ≡ ready_plan s source side f
  unfolding plan_of_parse plan_of_validation
  plan_of_parse-ready text v e good found =
      ap (λ p. plan_of_parse p source side f) e
      ∙ of_validation (validate_sidecar_shape v) good found
      ∙ plan_of_sidecar-ready
    where
      of_validation :
          (c : SidecarShapeValidationResult)
          → c.ok ≡ true
          → c.sidecar ≡ some s
          → plan_of_validation c source side f ≡ plan_of_sidecar s source side f
      of_validation c g k = λ i.
          plan_of_validation (record { ok = g i; sidecar = k i; issues = c.issues }) source side f

  -- A readable sidecar with the facts of the source is planned as ready.
  plan_of_source_stat-ready :
      IsSource parse fs source side f
      → IsSidecar parse fs source side s
      → plan_of_source_stat parse fs (fs.stat_path source) source side ≡ ready_plan s source side f
  unfolding plan_of_source_stat plan_of_source_hash plan_of_sidecar_stat plan_of_text
  plan_of_source_stat-ready (st, at, file, size, hash)
        (st', text, v, at', file', read, e, good, found) =
      ap (λ a. plan_of_source_stat parse fs a source side) at
      ∙ ap
          (λ b.
            if not b
            then blocked_plan source side ("source_not_file" ∷ [])
            else plan_of_source_hash parse fs (fs.compute_sha256 source) st source side)
          file
      ∙ ap (λ a. plan_of_source_hash parse fs a st source side) hash
      ∙ ap
          (λ (n : ℕ).
            plan_of_sidecar_stat parse fs (fs.stat_path side) source side
              (record { size_bytes = n; sha256 = f.sha256 }))
          size
      ∙ ap (λ a. plan_of_sidecar_stat parse fs a source side f) at'
      ∙ ap
          (λ b.
            if not b
            then blocked_plan source side ("sidecar_not_file" ∷ [])
            else plan_of_text parse fs (fs.read_text_file side) source side f)
          file'
      ∙ ap (λ a. plan_of_text parse fs a source side f) read
      ∙ plan_of_parse-ready text v e good found

-- The file system after the write of a planned content: the source is as it was.
pub record Written (fs fs' : Filesystem) (plan : LocalFileRoundTripPlan) (content : String)
    : Type 0 where
  pub stat_source : fs'.stat_path plan.source_path ≡ fs.stat_path plan.source_path
  pub hash_source : fs'.compute_sha256 plan.source_path ≡ fs.compute_sha256 plan.source_path
  pub stat : Stat
  pub stat_sidecar : fs'.stat_path plan.sidecar_path ≡ got stat
  pub is_file : is_file_stat stat ≡ true
  pub text : fs'.read_text_file plan.sidecar_path ≡ got content

module _ (parse : String → Parse) (fs fs' : Filesystem) (stringify : PrismSidecar → String)
    (timestamp source side : String) where
  draft-WellShaped :
      (f : SourceFacts)
      → blank timestamp ≡ false
      → is_blank (trim source) ≡ false
      → WellShaped (draft_of (trim source) f timestamp)
  unfolding trim
  draft-WellShaped f dated solid = record {
    version = inr refl;
    asset_id = asset_id-solid (trim source);
    source_path = is_blank-trim-trim source solid;
    canonical_path = is_blank-trim-trim source solid;
    created_at = dated;
    updated_at = dated;
    kind = refl;
    analysis_status = refl;
    approval_state = refl;
  }

  created_lem :
      (f : SourceFacts)
      → IsSource parse fs (trim source) side f
      → parse (stringify_sidecar stringify (draft_of (trim source) f timestamp))
        ≡ parsed (json_of (draft_of (trim source) f timestamp))
      → blank timestamp ≡ false
      → is_blank (trim source) ≡ false
      → Written fs fs'
          (missing_sidecar_plan (trim source) side f)
          (stringify_sidecar stringify (draft_of (trim source) f timestamp))
      → plan_of_source_stat parse fs' (fs'.stat_path (trim source)) (trim source) side
        ≡ ready_plan (draft_of (trim source) f timestamp) (trim source) side f
  created_lem f (st, at, file, size, hash) json dated solid w =
      let draft = draft_of (trim source) f timestamp in
      let good = validate_sidecar_shape-json_of draft (draft-WellShaped f dated solid) in
      plan_of_source_stat-ready parse fs' (trim source) side f draft refl (refl, refl)
        (st, w.stat_source ∙ at, file, size, w.hash_source ∙ hash)
        (
          w.stat,
          stringify_sidecar stringify draft,
          json_of draft,
          w.stat_sidecar,
          w.is_file,
          w.text,
          json,
          ap (λ (c : SidecarShapeValidationResult). c.ok) good,
          ap (λ (c : SidecarShapeValidationResult). c.sidecar) good,
        )

  abbrev Settles : Type 0
  Settles =
      (p : LocalFileRoundTripPlan) × (plan_of_source_stat parse fs' (fs'.stat_path (trim source))
          (trim source) side
        ≡ p)
      × (p.recommended_action ≡ RecommendedAction.ready)

  settles_lem :
      (plan : LocalFileRoundTripPlan) (r : SidecarRecommendation) (draft : PrismSidecar)
      (content : String)
      → parse (stringify_sidecar stringify draft) ≡ parsed (json_of draft)
      → r.draft ≡ some draft
      → Justified parse fs (trim source) side plan
      → blank timestamp ≡ false
      → is_blank (trim source) ≡ false
      → plan.recommended_action ≡ RecommendedAction.create_sidecar
      → recommend_sidecar_action plan timestamp ≡ value r
      → (plan_sidecar_write stringify r).content ≡ some content
      → Written fs fs' plan content
      → Settles
  unfolding recommend_sidecar_action plan_sidecar_write
  settles_lem plan r d content json drafted (no_sidecar f here gone) dated solid e recommended
        planned w =
      let draft = draft_of (trim source) f timestamp in
      let r_is = value_inj (
        sym (
          ap (create_with_draft (missing_sidecar_plan (trim source) side f))
            (draft_lem source f timestamp solid))
        ∙ recommended) in
      let d_is = some_inj (ap (λ (q : SidecarRecommendation). q.draft) r_is ∙ drafted) in
      let c_is = some_inj (
        ap (λ (q : SidecarRecommendation). (plan_sidecar_write stringify q).content) r_is
        ∙ planned) in
      (
        _,
        created_lem f here
            (subst (λ x. parse (stringify_sidecar stringify x) ≡ parsed (json_of x)) (sym d_is)
              json)
            dated solid
            (subst (Written fs fs' (missing_sidecar_plan (trim source) side f)) (sym c_is) w),
        refl,
      )
  settles_lem plan r d content json drafted (no_access rs why) dated solid e recommended planned w =
      cc
  settles_lem plan r d content json drafted (no_source gone) dated solid e recommended planned w =
      cc
  settles_lem plan r d content json drafted (bad_shape f rs here bad) dated solid e recommended
        planned w =
      cc
  settles_lem plan r d content json drafted (other_source f s here read other) dated solid e
        recommended planned w =
      cc
  settles_lem plan r d content json drafted (outdated f s here read same old) dated solid e
        recommended planned w =
      cc
  settles_lem plan r d content json drafted (settled f s here read same fits) dated solid e
        recommended planned w =
      cc

-- If a planned creation is written, then planning the same source again finds it ready: the draft is
-- a sidecar that passes the checks, for this source, with its hash and size. The time stamp is not
-- blank, `JSON.parse` reads back the draft that `JSON.stringify` wrote, and the write changed no source.
pub create_then_ready :
    (parse : String → Parse) (fs fs' : Filesystem) (stringify : PrismSidecar → String)
    (timestamp source : String) (suffix : Option String) (plan : LocalFileRoundTripPlan)
    (r : SidecarRecommendation) (draft : PrismSidecar) (content : String)
    → parse (stringify_sidecar stringify draft) ≡ parsed (json_of draft)
    → r.draft ≡ some draft
    → blank timestamp ≡ false
    → plan_local_file_round_trip parse fs source suffix ≡ value plan
    → plan.recommended_action ≡ RecommendedAction.create_sidecar
    → recommend_sidecar_action plan timestamp ≡ value r
    → (plan_sidecar_write stringify r).content ≡ some content
    → Written fs fs' plan content
    → (p : LocalFileRoundTripPlan) × (plan_local_file_round_trip parse fs' source suffix ≡ value p)
      × (p.recommended_action ≡ RecommendedAction.ready)
unfolding plan_local_file_round_trip
create_then_ready parse fs fs' stringify timestamp source suffix plan r draft content json drafted
      dated planned creates recommended written w =
    let (side, beside, solid, why) =
      plan_local_file_round_trip-Justified parse fs source suffix plan planned in
    let (p, e, ready_now) =
      settles_lem parse fs fs' stringify timestamp source side plan r draft content json drafted why
        dated solid creates recommended written w in
    (
      p,
      ap
            (λ b.
              if b
              then threw "planLocalFileRoundTrip requires sourcePath."
              else plan_beside parse fs' (trim source)
                  (build_sidecar_path (trim source) (or_else suffix prism_sidecar_suffix)))
            solid
          ∙ ap (plan_beside parse fs' (trim source)) beside
          ∙ ap value e,
      ready_now,
    )
