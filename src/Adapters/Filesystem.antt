-- ===== src/Adapters/Filesystem.antt =====
-- adapters/filesystemAdapter.ts: `execute` of the file system adapter, over the operating system `Os`
-- and the JSON functions `Js`. A call is a function of the disk, and it logs what it changes. The
-- source's `switch` is a chain of tests; what an operation throws is caught by `execute`.
pub mod Types
pub mod Run
pub mod Operations
pub mod Containment
pub mod Reading
use prism_spectra.Common.{
  ℕ, ◌+◌, Bool, true, false, not, ◌&&◌, ◌||◌, List, [], ◌∷◌, ◌++◌, map, Option, none, some, String,
  if◌then◌else◌, ◌==◌, string_eq, or_else, is_empty,
}
use prism_spectra.Common.Text.{is_blank}
use prism_spectra.Common.Json.{Json, Fields, end, member, null, str}
use prism_spectra.Adapters.Types.{
  AdapterAction, AdapterCapability, AdapterContext, AdapterDescriptor, AdapterError, AdapterKind,
  AdapterMode, AdapterResult, AdapterRiskLevel, ApprovalRequirement, risk_eq, create_adapter_error,
  create_adapter_result, read_only, local_write, destructive, recommended,
}
use prism_spectra.Adapters.Guard.{
  Guarded, passed, threw, ensure_approval_allowed, blocked_adapter_result,
}
use prism_spectra.Adapters.Os.{
  Os, Io, Stats, SystemFailure, done, failed, Thrown, adapter_error, system_failure, Attempt, ok,
  throw,
}
use prism_spectra.Adapters.PathGuard.{
  PathGuard, Created, created, not_created, no_allowed_root, create_filesystem_path_guard,
}
use prism_spectra.Sidecar.{prism_sidecar_suffix}
use prism_spectra.Adapters.Filesystem.Types.{
  World, Js, Output, Reply, succeeded, refused, is_read_operation,
}
use prism_spectra.Adapters.Filesystem.Operations.{run_operation}
use Prim.Native.String

-- what the closure of `createFilesystemAdapter` holds
pub record FilesystemAdapter : Type 0 where
  pub id : String
  pub name : String
  pub sidecar_suffix : String
  pub json_indent : ℕ
  pub guard : PathGuard

abbrev pub descriptor : FilesystemAdapter → AdapterDescriptor
descriptor a = record {
  id = a.id;
  kind = AdapterKind.filesystem;
  mode = AdapterMode.real;
  approval_required = recommended;
}

abbrev reads : String → String → String → AdapterCapability
reads id label description = record {
  id = id;
  label = label;
  kind = AdapterKind.filesystem;
  description = some description;
  risk_level = read_only;
  approval_required = ApprovalRequirement.none;
}

abbrev writes : String → String → String → AdapterCapability
writes id label description = record {
  id = id;
  label = label;
  kind = AdapterKind.filesystem;
  description = some description;
  risk_level = local_write;
  approval_required = recommended;
}

unfoldable pub filesystem_capabilities : List AdapterCapability
filesystem_capabilities =
    reads "readTextFile" "Read text file" "Read a text file inside an allowed root."
    ∷ writes "writeTextFile" "Write text file" "Write a UTF-8 text file inside an allowed root."
    ∷ reads "listDirectory" "List directory" "List a directory without following symlinks."
    ∷ writes "ensureDirectory" "Ensure directory" "Create a directory path inside an allowed root."
    ∷ reads "statPath" "Stat path" "Inspect file or directory metadata for an allowed path."
    ∷ reads "computeSha256" "Compute SHA-256" "Hash a local file deterministically."
    ∷ writes "writeJsonSidecar" "Write JSON sidecar"
        "Write deterministic .prism.json metadata next to a local file."
    ∷ reads "readJsonFile" "Read JSON file" "Read and parse a local JSON file."
    ∷ writes "writeJsonFile" "Write JSON file"
        "Write a deterministic JSON file inside an allowed root."
    ∷ []

abbrev error_code : Option String → String
error_code none = ""
error_code (some code) = code

-- `mapFilesystemFailure`
unfoldable pub map_filesystem_failure : String → String → String → SystemFailure → AdapterError
unfolding create_adapter_error is_read_operation
map_filesystem_failure adapter_id action_id operation f =
    let code = error_code f.code in
    if code == "ENOENT"
    then create_adapter_error adapter_id action_id "file_not_found" f.message
    else if code == "ENOTDIR" || code == "EISDIR"
    then create_adapter_error adapter_id action_id "not_a_directory" f.message
    else create_adapter_error adapter_id action_id
        (if is_read_operation operation then "read_failed" else "write_failed") f.message

-- the `catch` of `execute`
unfoldable pub thrown_error : FilesystemAdapter → AdapterAction → Thrown → AdapterError
unfolding map_filesystem_failure
thrown_error a action (adapter_error e) = e
thrown_error a action (system_failure f) = map_filesystem_failure a.id action.id action.operation f

-- the result of an operation that ended
unfoldable pub result_of : FilesystemAdapter → AdapterAction → Attempt Reply → AdapterResult Output
unfolding create_adapter_result blocked_adapter_result thrown_error
result_of a action (ok (succeeded output)) =
    create_adapter_result (descriptor a) action true false (some output) none
result_of a action (ok (refused e)) = blocked_adapter_result (descriptor a) action e
result_of a action (throw t) =
    blocked_adapter_result (descriptor a) action (thrown_error a action t)

unfoldable pub missing_path_result : FilesystemAdapter → AdapterAction → AdapterResult Output
unfolding create_adapter_result create_adapter_error
missing_path_result a action = create_adapter_result (descriptor a) action false false none (
    some (
      create_adapter_error a.id action.id "missing_path"
        "Filesystem operations require input.path."))

unfoldable pub destructive_result : FilesystemAdapter → AdapterAction → AdapterResult Output
unfolding blocked_adapter_result create_adapter_error
destructive_result a action = blocked_adapter_result (descriptor a) action (
    create_adapter_error a.id action.id "unsupported_operation" (
      String.◌++◌ "Destructive filesystem operations are not implemented: "
        (String.◌++◌ action.operation ".")))

-- `action.operation === "delete" || …`
abbrev pub is_destructive : AdapterAction → Bool
is_destructive action =
    action.operation == "delete"
    || action.operation == "deletePath"
    || action.risk_level == destructive

abbrev text_in : Option Json → Option String
text_in (some (str s)) = if is_blank s then none else some s
text_in _ = none

-- `input.path`, if it is a string and not empty
unfoldable pub input_path : AdapterAction → Option String
input_path action = text_in (member "path" (or_else action.input end))

module _ {Disk Bytes : Type 0} (os : Os Disk Bytes) (js : Js) where
  -- the body of `execute` behind the test of the path
  unfoldable pub execute_at :
      FilesystemAdapter
      → AdapterAction
      → String
      → World Disk Bytes
      → AdapterResult Output × World Disk Bytes
  unfolding destructive_result result_of run_operation
  execute_at a action target_path w =
      let (reply, after) =
        run_operation os js a.guard action a.sidecar_suffix a.json_indent target_path w in
      if is_destructive action
      then (destructive_result a action, w)
      else (result_of a action reply, after)

  abbrev pub execute_path :
      FilesystemAdapter
      → AdapterAction
      → Option String
      → World Disk Bytes
      → AdapterResult Output × World Disk Bytes
  execute_path a action none w = (missing_path_result a action, w)
  execute_path a action (some p) w = execute_at a action p w

  abbrev pub execute_guarded :
      FilesystemAdapter
      → AdapterAction
      → Guarded AdapterError
      → World Disk Bytes
      → AdapterResult Output × World Disk Bytes
  unfolding blocked_adapter_result input_path
  execute_guarded a action passed w = execute_path a action (input_path action) w
  execute_guarded a action (threw e) w = (blocked_adapter_result (descriptor a) action e, w)

  unfoldable pub execute :
      FilesystemAdapter
      → AdapterAction
      → AdapterContext
      → World Disk Bytes
      → AdapterResult Output × World Disk Bytes
  unfolding ensure_approval_allowed execute_guarded
  execute a action context w =
      execute_guarded a action (ensure_approval_allowed (descriptor a) context action) w

pub record FilesystemAdapterConfig : Type 0 where
  pub allowed_roots : List String
  pub base_dir : Option String
  pub id : Option String
  pub name : Option String
  pub sidecar_suffix : Option String
  pub json_indent : Option ℕ

abbrev adapter_with :
    FilesystemAdapterConfig → String → Created PathGuard → Created FilesystemAdapter
adapter_with c id (not_created e) = not_created e
adapter_with c id (created g) = created (record {
  id = id;
  name = or_else c.name "Filesystem Adapter";
  sidecar_suffix = or_else c.sidecar_suffix prism_sidecar_suffix;
  json_indent = or_else c.json_indent 2;
  guard = g;
})

-- `createFilesystemAdapter`; its own test of the roots throws like that of the guard.
unfoldable pub create_filesystem_adapter :
    {Disk Bytes : Type 0}
    → Os Disk Bytes
    → Disk
    → FilesystemAdapterConfig
    → Created FilesystemAdapter
unfolding create_filesystem_path_guard
create_filesystem_adapter os disk c =
    let id = or_else c.id "filesystem" in
    if is_empty c.allowed_roots
    then not_created no_allowed_root
    else adapter_with c id (create_filesystem_path_guard os disk id c.allowed_roots c.base_dir)
