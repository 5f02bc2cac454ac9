-- ===== src/Adapters/Filesystem/Types.antt =====
-- adapters/filesystemAdapter.ts: what an operation reads and returns.
use prism_spectra.Common.{
  ℕ, Bool, ◌||◌, List, Option, none, some, String, if◌then◌else◌, ◌==◌, string_eq, or_else,
  first_some,
}
use prism_spectra.Common.Json.{Json, Fields, end, member, null, str, int, obj}
use prism_spectra.Adapters.Types.{AdapterAction, AdapterError}
use prism_spectra.Adapters.Os.{Stats, Dirent}
use Prim.Native.String

-- A call that changes the disk, with the disk that it was made on. `mkdir` is called with `recursive`:
-- it also makes the folders above its path that are missing.
pub data Effect (Disk Bytes : Type 0) : Type 0 where
  called_mkdir : Disk → String → Effect Disk Bytes
  wrote : Disk → String → Bytes → Effect Disk Bytes

pub record World (Disk Bytes : Type 0) : Type 0 where
  pub disk : Disk
  pub log : List (Effect Disk Bytes)

-- `JSON.parse`, `none` where it throws, `JSON.stringify(value, null, indent)`, `String(value)` of what
-- is no string, and `a.localeCompare(b) < 0`
pub record Js : Type 0 where
  pub parse : String → Option Json
  pub stringify : Json → Json → String
  pub to_string : Json → String
  pub earlier : String → String → Bool

pub data EntryKind : Type 0 where
  file directory symlink other : EntryKind

pub record DirectoryEntry : Type 0 where
  pub name : String
  pub path : String
  pub kind : EntryKind
  pub size : Option ℕ

pub record StatSnapshot : Type 0 where
  pub kind : EntryKind
  pub size : ℕ
  pub mtime_ms : ℕ
  pub ctime_ms : ℕ
  pub is_file : Bool
  pub is_directory : Bool
  pub is_symbolic_link : Bool

-- `FilesystemOperationOutput`, each with `path` and `resolvedPath` first
pub data Output : Type 0 where
  text_read : (path resolved content : String) (bytes_read : ℕ) (sha256 : String) → Output
  text_written : (path resolved : String) (bytes_written : ℕ) (sha256 : String) → Output
  listed : (path resolved : String) → List DirectoryEntry → Output
  ensured : (path resolved : String) (created : Bool) → Output
  stated : (path resolved : String) → StatSnapshot → Output
  hashed : (path resolved : String) (bytes_read : ℕ) (sha256 : String) → Output
  sidecar_written :
      (path resolved sidecar sidecar_resolved : String) (bytes_written : ℕ) (sha256 : String)
      → Output
  json_read : (path resolved : String) → Json → (bytes_read : ℕ) → Output
  json_written : (path resolved : String) (bytes_written : ℕ) (sha256 : String) → Output

-- What an operation returns: a result with an output, or a blocked one.
pub data Reply : Type 0 where
  succeeded : Output → Reply
  refused : AdapterError → Reply

unfoldable pub is_read_operation : String → Bool
is_read_operation op =
    op == "readTextFile"
    || op == "listDirectory"
    || op == "statPath"
    || op == "computeSha256"
    || op == "readJsonFile"

unfoldable pub entry_kind_from_dirent : Dirent → EntryKind
entry_kind_from_dirent d =
    if d.is_symbolic_link
    then EntryKind.symlink
    else if d.is_directory
    then EntryKind.directory
    else if d.is_file
    then EntryKind.file
    else other

unfoldable pub stat_snapshot_from_stats : Stats → StatSnapshot
stat_snapshot_from_stats s = record {
  kind =
      if s.is_symbolic_link
      then EntryKind.symlink
      else if s.is_directory
      then EntryKind.directory
      else if s.is_file
      then EntryKind.file
      else other;
  size = s.size;
  mtime_ms = s.mtime_ms;
  ctime_ms = s.ctime_ms;
  is_file = s.is_file;
  is_directory = s.is_directory;
  is_symbolic_link = s.is_symbolic_link;
}

-- `value ?? undefined`: `null` counts as absent.
abbrev pub present : Option Json → Option Json
present none = none
present (some null) = none
present (some v) = some v

-- `String(value)`, or a value in a template
abbrev pub text_of : Js → Json → String
text_of js (str s) = s
text_of js v = js.to_string v

abbrev pub input_fields : AdapterAction → Fields
input_fields action = or_else action.input end

-- `input.data ?? input.json ?? {}`
unfoldable pub json_value : AdapterAction → Json
json_value action =
    let input = input_fields action in
    or_else (first_some (present (member "data" input)) (present (member "json" input))) (obj end)

-- `formatJson(json, input.jsonIndent ?? jsonIndent)`
unfoldable pub format_json : Js → ℕ → AdapterAction → String
unfolding json_value
format_json js json_indent action =
    String.◌++◌
      (js.stringify (json_value action)
        (or_else (present (member "jsonIndent" (input_fields action))) (int json_indent)))
      "\n"
