-- ===== src/Examples/Adapters.antt =====
-- The approval guard, a registry of one adapter, and a write on a toy file system.
use prism_spectra.Common.{
  ◌≡◌, ◌≢◌, ◌⊎◌, ◌↔◌, refl, Bool, true, false, List, [], ◌∷◌, Option, none, some, String,
  if◌then◌else◌, ◌==◌, string_eq, includes, All,
}
use prism_spectra.Common.Json.{end, field, str, member}
use prism_spectra.Adapters.Types.{
  AdapterAction, AdapterContext, AdapterContract, AdapterKind, AdapterMode, external_write,
  local_write, required, unknown, is_high_risk_risk_level,
}
use prism_spectra.Adapters.Guard.{ensure_approval_allowed, has_explicit_approval, passed}
use prism_spectra.Adapters.Registry.{registered, register_adapter, get_adapter}
use prism_spectra.Adapters.Approval.{
  ensure_approval_allowed-passed_iff, IsDeclared, empty, register_adapter-IsDeclared,
}
use prism_spectra.Adapters.Os.{Os, done, failed, Stats, SystemFailure}
use prism_spectra.Adapters.Filesystem.Types.{World, Js, wrote, called_mkdir}
use prism_spectra.Adapters.Filesystem.{FilesystemAdapter, execute, execute_at}
use prism_spectra.Adapters.Filesystem.Containment.{IsLogged, execute-IsLogged}
use prism_spectra.Adapters.Filesystem.Reading.{IsSound, execute-IsSound}
use Prim.Native.String

abbrev context : Option Bool → AdapterContext
context granted = record {
  request_id = none;
  session_id = none;
  actor = none;
  origin = none;
  mode = none;
  dry_run = none;
  approval = elim granted [
    | none ↦ none
    | some g ↦ some (record { granted = g; approver = none; reason = none; approved_at = none })
  ];
  metadata = none;
}

abbrev action_at : String → String → AdapterAction
action_at operation path = record {
  id = "1";
  capability_id = operation;
  kind = AdapterKind.filesystem;
  operation = operation;
  input = some (field "path" (str path) (field "content" (str "text") end));
  risk_level = local_write;
  approval_required = none;
}

abbrev publish : AdapterAction
publish = record (action_at "publish" "/w/a") { risk_level = external_write }

abbrev publisher : AdapterContract
publisher = record {
  descriptor = record {
    id = "publisher";
    kind = AdapterKind.social_publishing;
    mode = AdapterMode.mock;
    approval_required = required;
  };
  name = "Publisher";
  capabilities =
      record {
        id = "publish";
        label = "Publish";
        kind = AdapterKind.social_publishing;
        description = none;
        risk_level = external_write;
        approval_required = required;
      }
      ∷ [];
  health = none;
}

ensure_approval_allowed-passed_iff_example :
    (ensure_approval_allowed publisher.descriptor (context (some true)) publish ≡ passed) ↔ (
      (is_high_risk_risk_level external_write ≡ false)
      ⊎ ((AdapterKind.social_publishing ≢ unknown)
          × (has_explicit_approval (context (some true)) ≡ true)))
ensure_approval_allowed-passed_iff_example =
    ensure_approval_allowed-passed_iff publisher.descriptor (context (some true)) publish

publisher-registered : register_adapter publisher [] ≡ registered (publisher ∷ [])
unfolding register_adapter
publisher-registered = refl

register_adapter-IsDeclared_example :
    All IsDeclared (publisher ∷ [])
    × ((id : String)
        → get_adapter id (publisher ∷ [])
          ≡ (if "publisher" == id then some publisher else get_adapter id []))
register_adapter-IsDeclared_example =
    register_adapter-IsDeclared [] (publisher ∷ []) publisher empty publisher-registered

-- A file system whose disk is the list of its files; "/w" is its one folder.
abbrev stats_of : Bool → Stats
stats_of is_directory = record {
  is_file = false;
  is_directory = is_directory;
  is_symbolic_link = false;
  size = 0;
  mtime_ms = 0;
  ctime_ms = 0;
}

abbrev missing : SystemFailure
missing = record { code = some "ENOENT"; message = "no such file" }

abbrev toy : Os (List String) String
toy = record {
  is_absolute = λ p. false;
  resolve = λ p. p;
  resolve_from = λ base p. String.◌++◌ base p;
  relative = λ root p. if p == "/etc/x" then "../etc/x" else "a";
  dirname = λ p. "/w";
  join = λ folder name. String.◌++◌ folder name;
  realpath =
      λ disk p. if p == "/w" then done p else if includes disk p then done p else failed missing;
  exists = λ disk p. if p == "/w" then true else includes disk p;
  stat = λ disk p. done (stats_of (p == "/w"));
  read_file = λ disk p. done "";
  readdir = λ disk p. done [];
  mkdir = λ disk p. done disk;
  write_file = λ disk p bytes. done (p ∷ disk);
  to_buffer = λ s. s;
  to_text = λ s. s;
  byte_length = λ s. 4;
  sha256 = λ s. s;
}

abbrev js : Js
js = record {
  parse = λ s. none;
  stringify = λ v indent. "{}";
  to_string = λ v. "";
  earlier = λ a b. false;
}

abbrev adapter : FilesystemAdapter
adapter = record {
  id = "filesystem";
  name = "Filesystem Adapter";
  sidecar_suffix = ".prism.json";
  json_indent = 2;
  guard = record { adapter_id = "filesystem"; allowed_roots = "/w" ∷ []; base_dir = "/w" };
}

abbrev start : World (List String) String
start = record { disk = []; log = [] }

abbrev write : AdapterAction
write = action_at "writeTextFile" "/a"

written :
    (execute toy js adapter write (context none) start).1.log
    ≡ called_mkdir [] "/w" ∷ wrote [] "/w/a" "text" ∷ []
unfolding execute execute_at member
written = refl

escape :
    (execute toy js adapter (action_at "writeTextFile" "/../etc/x") (context none) start).1.log ≡ []
unfolding execute execute_at member
escape = refl

execute-IsLogged_example :
    IsLogged toy adapter.guard (execute toy js adapter write (context none) start).1
execute-IsLogged_example = execute-IsLogged toy js adapter write (context none) start tt

execute-IsSound_example :
    IsSound toy js adapter write start (execute toy js adapter write (context none) start)
execute-IsSound_example = execute-IsSound toy js adapter write (context none) start
