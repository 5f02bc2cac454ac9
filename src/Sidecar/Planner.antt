-- ===== src/Sidecar/Planner.antt =====
-- ingest/localFileRoundTripPlanner.ts: what to do with the sidecar of one source file. The file
-- system is a parameter, and so is `JSON.parse`.
use prism_spectra.Common.{
  ℕ, Bool, true, false, not, List, [], ◌∷◌, Option, none, some, String, if◌then◌else◌, ◌==◌,
  string_eq, nat_eq, or_else, is_empty,
}
use prism_spectra.Common.Text.{trim, is_blank}
use prism_spectra.Common.Json.{Json}
use prism_spectra.Sidecar.{
  Checked, value, threw, PrismSidecar, SidecarShapeValidationResult, prism_sidecar_suffix,
  build_sidecar_path, validate_sidecar_shape, non_blank,
}

pub data SourceStatus : Type 0 where
  missing present blocked : SourceStatus

pub data SidecarStatus : Type 0 where
  missing valid malformed mismatched_source stale blocked : SidecarStatus

pub data RecommendedAction : Type 0 where
  create_sidecar update_sidecar_hash review_sidecar ready blocked : RecommendedAction

pub record SourceFacts : Type 0 where
  pub size_bytes : ℕ
  pub sha256 : String

pub data PathKind : Type 0 where
  file directory symlink other : PathKind

pub record Stat : Type 0 where
  pub kind : PathKind
  pub size : ℕ

-- A call of the file system, which may throw an error with or without a `code`.
pub data Attempt (A : Type 0) : Type 0 where
  got : A → Attempt A
  failed : Option String → Attempt A

pub record Filesystem : Type 0 where
  pub stat_path : String → Attempt Stat
  pub read_text_file : String → Attempt String
  pub compute_sha256 : String → Attempt String

-- What `JSON.parse` does: a value, or an error with its message.
pub data Parse : Type 0 where
  parsed : Json → Parse
  syntax_error : String → Parse

pub record LocalFileRoundTripPlan : Type 0 where
  pub source_path : String
  pub sidecar_path : String
  pub source_status : SourceStatus
  pub sidecar_status : SidecarStatus
  pub source_facts : Option SourceFacts
  pub sidecar : Option PrismSidecar
  pub reasons : List String
  pub recommended_action : RecommendedAction

abbrev pub is_file_stat : Stat → Bool
is_file_stat s = elim s.kind [ PathKind.file ↦ true | _ ↦ false ]

abbrev pub error_code : Option String → Option String
error_code = non_blank

abbrev pub blocked_plan : String → String → List String → LocalFileRoundTripPlan
blocked_plan source side reasons = record {
  source_path = source;
  sidecar_path = side;
  source_status = SourceStatus.blocked;
  sidecar_status = SidecarStatus.blocked;
  source_facts = none;
  sidecar = none;
  reasons = reasons;
  recommended_action = RecommendedAction.blocked;
}

abbrev pub missing_source_plan : String → String → LocalFileRoundTripPlan
missing_source_plan source side = record {
  source_path = source;
  sidecar_path = side;
  source_status = SourceStatus.missing;
  sidecar_status = SidecarStatus.blocked;
  source_facts = none;
  sidecar = none;
  reasons = "source_missing" ∷ [];
  recommended_action = RecommendedAction.blocked;
}

-- The plans of a source that is there share their form.
abbrev pub present_plan :
    SidecarStatus
    → Option PrismSidecar
    → List String
    → RecommendedAction
    → String
    → String
    → SourceFacts
    → LocalFileRoundTripPlan
present_plan status sidecar reasons action source side facts = record {
  source_path = source;
  sidecar_path = side;
  source_status = SourceStatus.present;
  sidecar_status = status;
  source_facts = some facts;
  sidecar = sidecar;
  reasons = reasons;
  recommended_action = action;
}

abbrev pub missing_sidecar_plan : String → String → SourceFacts → LocalFileRoundTripPlan
missing_sidecar_plan =
    present_plan SidecarStatus.missing none ("sidecar_missing" ∷ [])
      RecommendedAction.create_sidecar

abbrev pub malformed_plan : List String → String → String → SourceFacts → LocalFileRoundTripPlan
malformed_plan reasons =
    present_plan SidecarStatus.malformed none reasons RecommendedAction.review_sidecar

abbrev pub mismatched_source_plan :
    PrismSidecar → String → String → SourceFacts → LocalFileRoundTripPlan
mismatched_source_plan s =
    present_plan SidecarStatus.mismatched_source (some s) ("source_path_mismatch" ∷ [])
      RecommendedAction.review_sidecar

abbrev pub stale_plan :
    PrismSidecar → List String → String → String → SourceFacts → LocalFileRoundTripPlan
stale_plan s reasons =
    present_plan SidecarStatus.stale (some s) reasons RecommendedAction.update_sidecar_hash

abbrev pub ready_plan : PrismSidecar → String → String → SourceFacts → LocalFileRoundTripPlan
ready_plan s = present_plan SidecarStatus.valid (some s) [] RecommendedAction.ready

-- A `catch` of a file system call: a path that is not there has its own plan, any other error
-- blocks.
abbrev pub caught :
    Option String
    → LocalFileRoundTripPlan
    → String
    → String
    → String
    → String
    → LocalFileRoundTripPlan
caught code gone label fallback source side =
    if or_else (error_code code) "" == "file_not_found"
    then gone
    else blocked_plan source side (label ∷ or_else (error_code code) fallback ∷ [])

abbrev pub reason_if : Bool → String → List String → List String
reason_if true reason rest = reason ∷ rest
reason_if false reason rest = rest

unfoldable pub stale_reasons : PrismSidecar → SourceFacts → List String
stale_reasons s facts =
    reason_if (not (s.sha256 == facts.sha256)) "sha256_mismatch"
      (reason_if (not (s.size_bytes == facts.size_bytes)) "sizeBytes_mismatch" [])

abbrev pub stale_or_ready :
    PrismSidecar → List String → String → String → SourceFacts → LocalFileRoundTripPlan
stale_or_ready s [] source side facts = ready_plan s source side facts
stale_or_ready s (r ∷ rs) source side facts = stale_plan s (r ∷ rs) source side facts

unfoldable pub plan_of_sidecar :
    PrismSidecar → String → String → SourceFacts → LocalFileRoundTripPlan
unfolding stale_reasons
plan_of_sidecar s source side facts =
    if not (s.source_path == source)
    then mismatched_source_plan s source side facts
    else stale_or_ready s (stale_reasons s facts) source side facts

abbrev pub shape_reasons : List String → List String
shape_reasons issues = if is_empty issues then "sidecar_shape_invalid" ∷ [] else issues

unfoldable pub plan_of_validation :
    SidecarShapeValidationResult → String → String → SourceFacts → LocalFileRoundTripPlan
unfolding plan_of_sidecar
plan_of_validation v source side facts = elim v.sidecar [
  | none ↦ malformed_plan (shape_reasons v.issues) source side facts
  | some s ↦
      if v.ok
      then plan_of_sidecar s source side facts
      else malformed_plan (shape_reasons v.issues) source side facts
]

abbrev pub parse_message : String → String
parse_message m = if is_blank m then "json_parse_failed" else m

unfoldable pub plan_of_parse : Parse → String → String → SourceFacts → LocalFileRoundTripPlan
unfolding plan_of_validation validate_sidecar_shape
plan_of_parse (syntax_error m) = malformed_plan ("sidecar_json_malformed" ∷ parse_message m ∷ [])
plan_of_parse (parsed v) = plan_of_validation (validate_sidecar_shape v)

module _ (parse : String → Parse) (fs : Filesystem) where
  unfoldable pub plan_of_text :
      Attempt String → String → String → SourceFacts → LocalFileRoundTripPlan
  unfolding plan_of_parse trim
  plan_of_text (failed code) source side facts =
      caught code (missing_sidecar_plan source side facts) "sidecar_blocked" "sidecar_read_failed"
        source side
  plan_of_text (got text) source side facts = plan_of_parse (parse text) source side facts

  unfoldable pub plan_of_sidecar_stat :
      Attempt Stat → String → String → SourceFacts → LocalFileRoundTripPlan
  unfolding plan_of_text trim
  plan_of_sidecar_stat (failed code) source side facts =
      caught code (missing_sidecar_plan source side facts) "sidecar_blocked" "sidecar_stat_failed"
        source side
  plan_of_sidecar_stat (got stat) source side facts =
      if not (is_file_stat stat)
      then blocked_plan source side ("sidecar_not_file" ∷ [])
      else plan_of_text (fs.read_text_file side) source side facts

  unfoldable pub plan_of_source_hash :
      Attempt String → Stat → String → String → LocalFileRoundTripPlan
  unfolding plan_of_sidecar_stat trim
  plan_of_source_hash (failed code) stat source side =
      caught code (missing_source_plan source side) "source_blocked" "source_hash_failed" source
        side
  plan_of_source_hash (got sha) stat source side =
      plan_of_sidecar_stat (fs.stat_path side) source side
        (record { size_bytes = stat.size; sha256 = sha })

  unfoldable pub plan_of_source_stat : Attempt Stat → String → String → LocalFileRoundTripPlan
  unfolding plan_of_source_hash trim
  plan_of_source_stat (failed code) source side =
      caught code (missing_source_plan source side) "source_blocked" "source_stat_failed" source
        side
  plan_of_source_stat (got stat) source side =
      if not (is_file_stat stat)
      then blocked_plan source side ("source_not_file" ∷ [])
      else plan_of_source_hash (fs.compute_sha256 source) stat source side

  abbrev pub plan_beside : String → Checked String → Checked LocalFileRoundTripPlan
  plan_beside source (threw m) = threw m
  plan_beside source (value side) = value (plan_of_source_stat (fs.stat_path source) source side)

  unfoldable pub plan_local_file_round_trip :
      String → Option String → Checked LocalFileRoundTripPlan
  unfolding trim plan_of_source_stat
  plan_local_file_round_trip source suffix =
      if is_blank (trim source)
      then threw "planLocalFileRoundTrip requires sourcePath."
      else plan_beside (trim source)
          (build_sidecar_path (trim source) (or_else suffix prism_sidecar_suffix))
