-- ===== src/Sidecar/Execute.antt =====
-- ingest/sidecarWriteExecutor.ts: the write of a plan through the file system adapter. The adapter
-- is a parameter, and so is `JSON.stringify`. Beside its result an execution has the actions that the
-- adapter was asked for, in order. A patch has its three fields by its type, so that the test of its
-- keys has no case here.
use prism_spectra.Common.{
  Bool, true, false, not, List, [], ◌∷◌, Option, none, some, String, if◌then◌else◌, ◌==◌, string_eq,
  or_else, includes, is_empty,
}
use prism_spectra.Common.Text.{trim, is_blank}
use prism_spectra.Common.Json.{Json}
use prism_spectra.Sidecar.{
  Checked, value, threw, PrismSidecar, prism_sidecar_suffix, build_sidecar_path,
  validate_sidecar_shape, update_sidecar_hash_fields, blank,
}
use prism_spectra.Sidecar.Recommend.{HashPatch}
use prism_spectra.Sidecar.WritePlan.{
  SidecarWritePlan, WritePlanStatus, WriteOperation, stringify_sidecar,
}

pub data ExecutionStatus : Type 0 where
  written blocked skipped failed : ExecutionStatus

pub record SidecarWriteExecutionResult : Type 0 where
  pub status : ExecutionStatus
  pub operation : WriteOperation
  pub source_path : String
  pub sidecar_path : String
  pub reasons : List String
  pub warnings : List String

-- The two actions that the executor builds.
pub data Action : Type 0 where
  read_json_file : String → Action
  write_json_file : String → PrismSidecar → Action

-- `AdapterResult`: `data` is that of an output whose operation is `readJsonFile`.
pub record AdapterReply : Type 0 where
  pub success : Bool
  pub data_read : Option Json
  pub error_code : Option String
  pub error_message : Option String

-- The adapter may throw; what is kept is the text that the `catch` reports.
pub data Answer : Type 0 where
  answered : AdapterReply → Answer
  raised : String → Answer

pub record Run : Type 0 where
  pub result : SidecarWriteExecutionResult
  pub actions : List Action

-- `approval?.granted === true`
abbrev pub is_approved : Option Bool → Bool
is_approved none = false
is_approved (some granted) = granted

abbrev pub result_with :
    ExecutionStatus
    → SidecarWritePlan
    → WriteOperation
    → List String
    → List String
    → SidecarWriteExecutionResult
result_with status plan operation reasons warnings = record {
  status = status;
  operation = operation;
  source_path = plan.source_path;
  sidecar_path = plan.sidecar_path;
  reasons = reasons;
  warnings = warnings;
}

abbrev pub blocked_result :
    SidecarWritePlan → List String → List String → WriteOperation → SidecarWriteExecutionResult
blocked_result plan reasons warnings operation =
    result_with ExecutionStatus.blocked plan operation reasons warnings

abbrev pub failed_result :
    SidecarWritePlan → List String → List String → WriteOperation → SidecarWriteExecutionResult
failed_result plan reasons warnings operation =
    result_with ExecutionStatus.failed plan operation reasons warnings

abbrev pub blocked_codes : List String
blocked_codes =
    "approval_required" ∷ "file_not_found" ∷ "invalid_json" ∷ "not_a_directory"
    ∷ "path_outside_allowed_roots" ∷ "path_traversal_blocked" ∷ "symlink_rejected"
    ∷ "unsupported_operation" ∷ []

-- `code && blockedCodes.has(code)`
abbrev pub is_blocked_code : Option String → Bool
is_blocked_code none = false
is_blocked_code (some code) = includes blocked_codes code

abbrev pub adapter_failure_result :
    SidecarWritePlan → WriteOperation → AdapterReply → String → SidecarWriteExecutionResult
adapter_failure_result plan operation r fallback =
    if is_blocked_code r.error_code
    then blocked_result plan (or_else r.error_code fallback ∷ [])
        (or_else r.error_message "filesystem adapter blocked the write" ∷ []) operation
    else failed_result plan (or_else r.error_code fallback ∷ [])
        (or_else r.error_message "filesystem adapter failed the write" ∷ []) operation

-- A check of a plan passes, refuses with a reason and a warning, or throws.
pub data Verified (A : Type 0) : Type 0 where
  passes : A → Verified A
  refuses : (reason warning : String) → Verified A
  throws : String → Verified A

abbrev pub if_adjacent : {A : Type 0} → SidecarWritePlan → A → String → Checked String → Verified A
if_adjacent plan a warning (threw m) = throws m
if_adjacent plan a warning (value path) =
    if plan.sidecar_path == path then passes a else refuses "sidecar_path_mismatch" warning

-- `isCanonicalAdjacentSidecar`, at the end of both checks
unfoldable pub verify_adjacent : {A : Type 0} → SidecarWritePlan → A → String → Verified A
verify_adjacent plan a warning =
    if_adjacent plan a warning (build_sidecar_path plan.source_path prism_sidecar_suffix)

abbrev pub verify_patch : SidecarWritePlan → Option HashPatch → Verified HashPatch
verify_patch plan none =
    refuses "update_patch_missing" "planned update write is missing hash patch fields"
verify_patch plan (some patch) =
    if blank patch.sha256
    then refuses "update_patch_invalid_sha256"
        "planned update patch sha256 must be a non-empty string"
    else if blank patch.updated_at
    then refuses "update_patch_invalid_updatedAt"
        "planned update patch updatedAt must be a non-empty string"
    else verify_adjacent plan patch
        "planned update sidecar path is not the canonical adjacent .prism.json path"

unfoldable pub validate_update_patch : SidecarWritePlan → Verified HashPatch
unfolding trim verify_adjacent
validate_update_patch plan = verify_patch plan plan.patch

module _ (stringify : PrismSidecar → String) where
  abbrev pub verify_content :
      SidecarWritePlan → PrismSidecar → Option String → Verified PrismSidecar
  verify_content plan json none =
      refuses "create_content_missing" "planned create write is missing deterministic content"
  verify_content plan json (some content) =
      if is_blank content
      then refuses "create_content_missing" "planned create write is missing deterministic content"
      else if not (content == stringify_sidecar stringify json)
      then refuses "create_content_mismatch"
          "planned create content does not match the canonical JSON serialization"
      else verify_adjacent plan json
          "planned create sidecar path is not the canonical adjacent .prism.json path"

  abbrev pub verify_draft : SidecarWritePlan → Option PrismSidecar → Verified PrismSidecar
  verify_draft plan none =
      refuses "create_draft_missing" "planned create write is missing canonical sidecar JSON"
  verify_draft plan (some json) = verify_content plan json plan.content

  unfoldable pub validate_planned_create : SidecarWritePlan → Verified PrismSidecar
  unfolding verify_adjacent
  validate_planned_create plan = verify_draft plan plan.json

-- Nothing was asked of the adapter.
abbrev pub no_action : SidecarWriteExecutionResult → Run
no_action r = record { result = r; actions = [] }

-- the outer `catch`
abbrev pub caught_exception : SidecarWritePlan → String → List Action → Run
caught_exception plan m actions = record {
  result = failed_result plan ("executor_exception" ∷ []) (m ∷ []) plan.operation;
  actions = actions;
}

-- what follows a write
abbrev pub after_write : SidecarWritePlan → WriteOperation → String → List Action → Answer → Run
after_write plan operation fallback actions (raised m) = caught_exception plan m actions
after_write plan operation fallback actions (answered r) = record {
  result =
      if not r.success
      then adapter_failure_result plan operation r fallback
      else result_with ExecutionStatus.written plan operation plan.reasons plan.warnings;
  actions = actions;
}

module _ (adapter : Action → Answer) where
  abbrev pub write_draft : SidecarWritePlan → Verified PrismSidecar → Run
  write_draft plan (throws m) = caught_exception plan m []
  write_draft plan (refuses reason warning) =
      no_action (blocked_result plan (reason ∷ []) (warning ∷ []) WriteOperation.create_sidecar)
  write_draft plan (passes json) =
      after_write plan WriteOperation.create_sidecar "sidecar_create_failed"
        (write_json_file plan.sidecar_path json ∷ [])
        (adapter (write_json_file plan.sidecar_path json))

  unfoldable pub execute_create_sidecar_write :
      (PrismSidecar → String) → SidecarWritePlan → Option Bool → Run
  unfolding validate_planned_create
  execute_create_sidecar_write stringify plan approval =
      if not (is_approved approval)
      then no_action (
          blocked_result plan ("local_write_approval_required" ∷ [])
            ("explicit local_write approval is required before writing a sidecar" ∷ [])
            WriteOperation.nothing)
      else write_draft plan (validate_planned_create stringify plan)

  abbrev pub write_updated : SidecarWritePlan → PrismSidecar → Run
  write_updated plan updated =
      after_write plan WriteOperation.update_sidecar "sidecar_update_failed"
        (read_json_file plan.sidecar_path ∷ write_json_file plan.sidecar_path updated ∷ [])
        (adapter (write_json_file plan.sidecar_path updated))

  abbrev pub read_only : SidecarWritePlan → SidecarWriteExecutionResult → Run
  read_only plan r = record { result = r; actions = read_json_file plan.sidecar_path ∷ [] }

  -- The sidecar that was read, if its shape is right, and the patch of its hash fields.
  abbrev pub update_current :
      SidecarWritePlan → HashPatch → Bool → Option PrismSidecar → List String → Run
  update_current plan patch true (some current) issues =
      if not (current.source_path == plan.source_path)
      then read_only plan (
          blocked_result plan ("source_path_mismatch" ∷ [])
            ("current sidecar sourcePath no longer matches the requested source path" ∷ [])
            WriteOperation.update_sidecar)
      else write_updated plan (
          update_sidecar_hash_fields "" current (record {
            sha256 = patch.sha256;
            size_bytes = patch.size_bytes;
            updated_at = some patch.updated_at;
          }))
  update_current plan patch _ _ issues = read_only plan (
      blocked_result plan (if is_empty issues then "sidecar_shape_invalid" ∷ [] else issues)
        ("current sidecar could not be validated before applying the patch" ∷ [])
        WriteOperation.update_sidecar)

  abbrev pub update_of_data : SidecarWritePlan → HashPatch → AdapterReply → Option Json → Run
  update_of_data plan patch r none =
      read_only plan
        (adapter_failure_result plan WriteOperation.update_sidecar r "sidecar_read_failed")
  update_of_data plan patch r (some v) =
      let c = validate_sidecar_shape v in update_current plan patch c.ok c.sidecar c.issues

  -- what follows the read
  abbrev pub after_read : SidecarWritePlan → HashPatch → Answer → Run
  after_read plan patch (raised m) = caught_exception plan m (read_json_file plan.sidecar_path ∷ [])
  after_read plan patch (answered r) =
      update_of_data plan patch r (if r.success then r.data_read else none)

  abbrev pub update_with : SidecarWritePlan → Verified HashPatch → Run
  update_with plan (throws m) = caught_exception plan m []
  update_with plan (refuses reason warning) =
      no_action (blocked_result plan (reason ∷ []) (warning ∷ []) WriteOperation.update_sidecar)
  update_with plan (passes patch) =
      after_read plan patch (adapter (read_json_file plan.sidecar_path))

  unfoldable pub execute_update_sidecar_write : SidecarWritePlan → Option Bool → Run
  unfolding validate_update_patch validate_sidecar_shape update_sidecar_hash_fields
  execute_update_sidecar_write plan approval =
      if not (is_approved approval)
      then no_action (
          blocked_result plan ("local_write_approval_required" ∷ [])
            ("explicit local_write approval is required before updating a sidecar" ∷ [])
            WriteOperation.nothing)
      else update_with plan (validate_update_patch plan)

  abbrev pub execute_planned :
      (PrismSidecar → String) → SidecarWritePlan → Option Bool → WriteOperation → Run
  execute_planned stringify plan approval WriteOperation.create_sidecar =
      execute_create_sidecar_write stringify plan approval
  execute_planned stringify plan approval WriteOperation.update_sidecar =
      execute_update_sidecar_write plan approval
  execute_planned stringify plan approval WriteOperation.nothing = no_action (
      blocked_result plan ("unsupported_write_plan_operation" ∷ [])
        ("write execution requires a planned sidecar write operation" ∷ []) WriteOperation.nothing)

  abbrev pub execute_by_status :
      (PrismSidecar → String) → SidecarWritePlan → Option Bool → WritePlanStatus → Run
  execute_by_status stringify plan approval WritePlanStatus.not_applicable =
      no_action
        (result_with ExecutionStatus.skipped plan WriteOperation.nothing plan.reasons plan.warnings)
  execute_by_status stringify plan approval WritePlanStatus.blocked =
      no_action (blocked_result plan plan.reasons plan.warnings WriteOperation.nothing)
  execute_by_status stringify plan approval WritePlanStatus.planned =
      execute_planned stringify plan approval plan.operation

  unfoldable pub execute_sidecar_write_plan :
      (PrismSidecar → String) → SidecarWritePlan → Option Bool → Run
  unfolding execute_create_sidecar_write execute_update_sidecar_write
  execute_sidecar_write_plan stringify plan approval =
      execute_by_status stringify plan approval plan.status
