-- ===== src/Sidecar/Shape.antt =====
-- `validateSidecarShape` of ingest/sidecar.ts on the JSON of a sidecar.
use prism_spectra.Common.{
  subst, some_inj, ℕ, ◌≡◌, ◌⊎◌, inl, inr, refl, sym, ap, ◌∙◌, true, false, List, [], ◌∷◌, Option,
  none, some, String, if◌then◌else◌, string_eq,
}
use prism_spectra.Common.Json.{
  Json, Items, nil, cons, Fields, field, end, obj, arr, str, int, member,
}
use prism_spectra.Sidecar.{
  add_item, PrismSidecar, SidecarShapeValidationResult, Readings, blank, non_blank, string_items,
  read_fields, shape_issues, judge_readings, validate_sidecar_shape,
}

abbrev pub items_of : List String → Items
items_of [] = nil
items_of (s ∷ ss) = cons (str s) (items_of ss)

abbrev pub fields_behind_version : PrismSidecar → Fields
fields_behind_version s = field "assetId" (str s.asset_id) (
    field "sourcePath" (str s.source_path) (
      field "canonicalPath" (str s.canonical_path) (
        field "sha256" (str s.sha256) (
          field "sizeBytes" (int s.size_bytes) (
            field "createdAt" (str s.created_at) (
              field "updatedAt" (str s.updated_at) (
                field "kind" (str s.kind) (
                  field "tags" (arr (items_of s.tags)) (
                    field "derivedFiles" (arr (items_of s.derived_files)) (
                      field "analysisStatus" (str s.analysis_status) (
                        field "approvalState" (str s.approval_state)
                          (field "notes" (arr (items_of s.notes)) end))))))))))))

abbrev with_version : Option ℕ → Fields → Fields
with_version none fs = fs
with_version (some v) fs = field "schemaVersion" (int v) fs

-- The value that a sidecar is in JSON.
abbrev pub json_of : PrismSidecar → Json
json_of s = obj (with_version s.schema_version (fields_behind_version s))

-- What the checks ask of a sidecar: texts that are not blank, and no version but the current one.
pub record WellShaped (s : PrismSidecar) : Type 0 where
  pub version : (s.schema_version ≡ none) ⊎ (s.schema_version ≡ some 1)
  pub asset_id : blank s.asset_id ≡ false
  pub source_path : blank s.source_path ≡ false
  pub canonical_path : blank s.canonical_path ≡ false
  pub created_at : blank s.created_at ≡ false
  pub updated_at : blank s.updated_at ≡ false
  pub kind : blank s.kind ≡ false
  pub analysis_status : blank s.analysis_status ≡ false
  pub approval_state : blank s.approval_state ≡ false

string_items-items_of : (ss : List String) → string_items (items_of ss) ≡ some ss
unfolding string_items
string_items-items_of [] = refl
string_items-items_of (s ∷ ss) = ap (λ o. add_item (some s) o) (string_items-items_of ss)

solid : (s : String) → blank s ≡ false → non_blank (some s) ≡ some s
solid s h = ap (λ b. if b then none else some s) h

abbrev version_json : Option ℕ → Option Json
version_json none = none
version_json (some v) = some (int v)

-- the readings of a sidecar that passes
abbrev readings_of : PrismSidecar → Readings
readings_of s = record {
  schema_version = version_json s.schema_version;
  asset_id = some s.asset_id;
  source_path = some s.source_path;
  canonical_path = some s.canonical_path;
  sha256 = some s.sha256;
  size_bytes = some s.size_bytes;
  created_at = some s.created_at;
  updated_at = some s.updated_at;
  kind = some s.kind;
  analysis_status = some s.analysis_status;
  approval_state = some s.approval_state;
  tags = some s.tags;
  derived_files = some s.derived_files;
  notes = some s.notes;
}

abbrev passed : PrismSidecar → SidecarShapeValidationResult
passed s = record { ok = true; sidecar = some s; issues = [] }

-- Each field is read along the path from the reading to the field.
read_fields-json :
    (s : PrismSidecar)
    → WellShaped s
    → (v : Option ℕ)
    → read_fields (with_version v (fields_behind_version s))
      ≡ record (readings_of s) { schema_version = version_json v }
unfolding read_fields member string_items
read_fields-json s w none = λ i. record {
  schema_version = none;
  asset_id = solid s.asset_id w.asset_id i;
  source_path = solid s.source_path w.source_path i;
  canonical_path = solid s.canonical_path w.canonical_path i;
  sha256 = some s.sha256;
  size_bytes = some s.size_bytes;
  created_at = solid s.created_at w.created_at i;
  updated_at = solid s.updated_at w.updated_at i;
  kind = solid s.kind w.kind i;
  analysis_status = solid s.analysis_status w.analysis_status i;
  approval_state = solid s.approval_state w.approval_state i;
  tags = string_items-items_of s.tags i;
  derived_files = string_items-items_of s.derived_files i;
  notes = string_items-items_of s.notes i;
}
read_fields-json s w (some v) = λ i. record {
  schema_version = some (int v);
  asset_id = solid s.asset_id w.asset_id i;
  source_path = solid s.source_path w.source_path i;
  canonical_path = solid s.canonical_path w.canonical_path i;
  sha256 = some s.sha256;
  size_bytes = some s.size_bytes;
  created_at = solid s.created_at w.created_at i;
  updated_at = solid s.updated_at w.updated_at i;
  kind = solid s.kind w.kind i;
  analysis_status = solid s.analysis_status w.analysis_status i;
  approval_state = solid s.approval_state w.approval_state i;
  tags = string_items-items_of s.tags i;
  derived_files = string_items-items_of s.derived_files i;
  notes = string_items-items_of s.notes i;
}

judge_readings_of :
    (s : PrismSidecar)
    → (s.schema_version ≡ none) ⊎ (s.schema_version ≡ some 1)
    → judge_readings (readings_of s) ≡ passed s
unfolding shape_issues
judge_readings_of s (inl e) = go s.schema_version e
  where
    go :
        (v : Option ℕ)
        → v ≡ none
        → judge_readings (readings_of (record s { schema_version = v }))
          ≡ passed (record s { schema_version = v })
    go none e = refl
    go (some v) e = cc
judge_readings_of s (inr e) = go s.schema_version e
  where
    go :
        (v : Option ℕ)
        → v ≡ some 1
        → judge_readings (readings_of (record s { schema_version = v }))
          ≡ passed (record s { schema_version = v })
    go none e = cc
    go (some v) e =
        subst
          (λ n.
            judge_readings (readings_of (record s { schema_version = some n }))
            ≡ passed (record s { schema_version = some n }))
          (sym (some_inj e)) refl

-- A well-shaped sidecar, written as JSON and checked, comes back as it was, without an issue.
pub validate_sidecar_shape-json_of :
    (s : PrismSidecar)
    → WellShaped s
    → validate_sidecar_shape (json_of s) ≡ record { ok = true; sidecar = some s; issues = [] }
unfolding validate_sidecar_shape
validate_sidecar_shape-json_of s w =
    ap judge_readings (read_fields-json s w s.schema_version) ∙ judge_readings_of s w.version
