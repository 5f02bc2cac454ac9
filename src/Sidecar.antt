-- ===== src/Sidecar.antt =====
-- ingest/sidecarTypes.ts and ingest/sidecar.ts: the `.prism.json` file beside a source file, its shape
-- and the checks of it. A function that throws an `Error` returns `threw` with the message.

pub mod Planner
pub mod AssetId
pub mod Recommend
pub mod Evidence
pub mod Plans
pub mod Agreement
pub mod Shape
pub mod Draft
pub mod Settle
pub mod Execute
pub mod Writes
pub mod Report
pub mod Review
pub mod WritePlan
use Prim.Native.String
use prism_spectra.Common.{
  ℕ, Bool, true, false, not, ◌&&◌, List, [], ◌∷◌, ◌++◌, Option, none, some, String, if◌then◌else◌,
  ◌==◌, nat_eq, or_else, is_some, is_empty,
}
use prism_spectra.Common.Text.{trim, is_blank}
use prism_spectra.Common.Json.{Json, Items, nil, cons, Fields, obj, arr, str, int, member}

pub data Checked (A : Type 0) : Type 0 where
  value : A → Checked A
  threw : String → Checked A

abbrev pub prism_sidecar_suffix : String
prism_sidecar_suffix = ".prism.json"

abbrev pub prism_sidecar_schema_version : ℕ
prism_sidecar_schema_version = 1

pub record PrismSidecar : Type 0 where
  pub schema_version : Option ℕ
  pub asset_id : String
  pub source_path : String
  pub canonical_path : String
  pub sha256 : String
  pub size_bytes : ℕ
  pub created_at : String
  pub updated_at : String
  pub kind : String
  pub tags : List String
  pub derived_files : List String
  pub analysis_status : String
  pub approval_state : String
  pub notes : List String

pub record CreateInitialSidecarInput : Type 0 where
  pub asset_id : String
  pub source_path : String
  pub canonical_path : String
  pub kind : String
  pub sha256 : Option String
  pub size_bytes : Option ℕ
  pub created_at : Option String
  pub updated_at : Option String
  pub tags : Option (List String)
  pub derived_files : Option (List String)
  pub analysis_status : Option String
  pub approval_state : Option String
  pub notes : Option (List String)

pub record SidecarHashFieldUpdate : Type 0 where
  pub sha256 : String
  pub size_bytes : ℕ
  pub updated_at : Option String

pub record SidecarShapeValidationResult : Type 0 where
  pub ok : Bool
  pub sidecar : Option PrismSidecar
  pub issues : List String

-- `!text.trim()`
abbrev pub blank : String → Bool
blank s = is_blank (trim s)

unfoldable pub build_sidecar_path : String → String → Checked String
unfolding trim
build_sidecar_path source_path suffix =
    if blank source_path
    then threw "buildSidecarPath requires a sourcePath."
    else value (String.◌++◌ source_path suffix)

-- `now` is what `nowIso()` returns.
unfoldable pub create_initial_sidecar : String → CreateInitialSidecarInput → Checked PrismSidecar
unfolding trim
create_initial_sidecar now i =
    if blank i.asset_id
    then threw "createInitialSidecar requires assetId."
    else if blank i.source_path
    then threw "createInitialSidecar requires sourcePath."
    else if blank i.canonical_path
    then threw "createInitialSidecar requires canonicalPath."
    else if blank i.kind
    then threw "createInitialSidecar requires kind."
    else value (record {
      schema_version = some prism_sidecar_schema_version;
      asset_id = i.asset_id;
      source_path = i.source_path;
      canonical_path = i.canonical_path;
      sha256 = or_else i.sha256 "";
      size_bytes = or_else i.size_bytes 0;
      created_at = or_else i.created_at now;
      updated_at = or_else i.updated_at (or_else i.created_at now);
      kind = i.kind;
      tags = or_else i.tags [];
      derived_files = or_else i.derived_files [];
      analysis_status = or_else i.analysis_status "pending";
      approval_state = or_else i.approval_state "unreviewed";
      notes = or_else i.notes [];
    })

-- The guards against a size or a hash of another type have no case here.
unfoldable pub update_sidecar_hash_fields :
    String → PrismSidecar → SidecarHashFieldUpdate → PrismSidecar
update_sidecar_hash_fields now s u = record s {
  sha256 = u.sha256;
  size_bytes = u.size_bytes;
  updated_at = or_else u.updated_at now;
}

abbrev pub read_string : Option Json → Option String
read_string (some (str s)) = some s
read_string _ = none

abbrev pub non_blank : Option String → Option String
non_blank none = none
non_blank (some s) = if blank s then none else some s

abbrev pub read_non_empty_string : Option Json → Option String
read_non_empty_string v = non_blank (read_string v)

abbrev pub read_non_negative_integer : Option Json → Option ℕ
read_non_negative_integer (some (int n)) = some n
read_non_negative_integer _ = none

abbrev pub add_item : Option String → Option (List String) → Option (List String)
add_item (some s) (some rest) = some (s ∷ rest)
add_item _ _ = none

-- an array all of whose items are strings
unfoldable pub string_items : Items → Option (List String)
string_items nil = some []
string_items (cons v vs) = add_item (read_string (some v)) (string_items vs)

-- `value === undefined ? [] : isStringArray(value) ? value : null`
abbrev pub read_string_array : Option Json → Option (List String)
read_string_array none = some []
read_string_array (some (arr vs)) = string_items vs
read_string_array (some _) = none

abbrev pub is_current_version : Option Json → Bool
is_current_version (some (int n)) = n == prism_sidecar_schema_version
is_current_version _ = false

-- `if (bad) issues.push(code)`, in front of the issues that follow
abbrev pub issue_if : Bool → String → List String → List String
issue_if true code rest = code ∷ rest
issue_if false code rest = rest

-- what `validateSidecarShape` reads
pub record Readings : Type 0 where
  pub schema_version : Option Json
  pub asset_id : Option String
  pub source_path : Option String
  pub canonical_path : Option String
  pub sha256 : Option String
  pub size_bytes : Option ℕ
  pub created_at : Option String
  pub updated_at : Option String
  pub kind : Option String
  pub analysis_status : Option String
  pub approval_state : Option String
  pub tags : Option (List String)
  pub derived_files : Option (List String)
  pub notes : Option (List String)

unfoldable pub read_fields : Fields → Readings
unfolding member string_items trim
read_fields fs = record {
  schema_version = member "schemaVersion" fs;
  asset_id = read_non_empty_string (member "assetId" fs);
  source_path = read_non_empty_string (member "sourcePath" fs);
  canonical_path = read_non_empty_string (member "canonicalPath" fs);
  sha256 = read_string (member "sha256" fs);
  size_bytes = read_non_negative_integer (member "sizeBytes" fs);
  created_at = read_non_empty_string (member "createdAt" fs);
  updated_at = read_non_empty_string (member "updatedAt" fs);
  kind = read_non_empty_string (member "kind" fs);
  analysis_status = read_non_empty_string (member "analysisStatus" fs);
  approval_state = read_non_empty_string (member "approvalState" fs);
  tags = read_string_array (member "tags" fs);
  derived_files = read_string_array (member "derivedFiles" fs);
  notes = read_string_array (member "notes" fs);
}

unfoldable pub shape_issues : Readings → List String
shape_issues r =
    issue_if (is_some r.schema_version && not (is_current_version r.schema_version))
      "unsupported_schemaVersion"
      (issue_if (not (is_some r.asset_id)) "missing_assetId" (
        issue_if (not (is_some r.source_path)) "missing_sourcePath" (
          issue_if (not (is_some r.canonical_path)) "missing_canonicalPath" (
            issue_if (not (is_some r.sha256)) "invalid_sha256" (
              issue_if (not (is_some r.size_bytes)) "invalid_sizeBytes" (
                issue_if (not (is_some r.created_at)) "missing_createdAt" (
                  issue_if (not (is_some r.updated_at)) "missing_updatedAt" (
                    issue_if (not (is_some r.kind)) "missing_kind" (
                      issue_if (not (is_some r.analysis_status)) "missing_analysisStatus" (
                        issue_if (not (is_some r.approval_state)) "missing_approvalState" (
                          issue_if (not (is_some r.tags)) "invalid_tags" (
                            issue_if (not (is_some r.derived_files)) "invalid_derivedFiles"
                              (issue_if (not (is_some r.notes)) "invalid_notes" [])))))))))))))

-- The sidecar of readings without an issue; the defaults are never used.
abbrev pub sidecar_of : Readings → PrismSidecar
sidecar_of r = record {
  schema_version = if is_some r.schema_version then some prism_sidecar_schema_version else none;
  asset_id = or_else r.asset_id "";
  source_path = or_else r.source_path "";
  canonical_path = or_else r.canonical_path "";
  sha256 = or_else r.sha256 "";
  size_bytes = or_else r.size_bytes 0;
  created_at = or_else r.created_at "";
  updated_at = or_else r.updated_at "";
  kind = or_else r.kind "";
  tags = or_else r.tags [];
  derived_files = or_else r.derived_files [];
  analysis_status = or_else r.analysis_status "";
  approval_state = or_else r.approval_state "";
  notes = or_else r.notes [];
}

abbrev pub judge_readings : Readings → SidecarShapeValidationResult
judge_readings r =
    if is_empty (shape_issues r)
    then record { ok = true; sidecar = some (sidecar_of r); issues = [] }
    else record { ok = false; sidecar = none; issues = shape_issues r }

unfoldable pub validate_sidecar_shape : Json → SidecarShapeValidationResult
unfolding read_fields shape_issues
validate_sidecar_shape (obj fs) = judge_readings (read_fields fs)
validate_sidecar_shape _ = record { ok = false; sidecar = none; issues = "not_an_object" ∷ [] }
