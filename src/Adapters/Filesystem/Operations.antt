-- ===== src/Adapters/Filesystem/Operations.antt =====
-- adapters/filesystemAdapter.ts: the operations of `execute`, each with what it does to the disk.
use prism_spectra.Common.{ℕ, not, map, Option, none, some, String, if◌then◌else◌, ◌==◌, string_eq}
use prism_spectra.Common.Sort.{sort_by}
use prism_spectra.Common.Json.{Json, member}
use prism_spectra.Adapters.Types.{AdapterAction, AdapterError, create_adapter_error}
use prism_spectra.Adapters.Os.{Os, Io, Stats, Dirent, done, failed, ok, awaited}
use prism_spectra.Adapters.PathGuard.{
  PathGuard, ReadablePath, WritablePath, ExpectedKind, any, resolve_target_path,
  validate_readable_path, validate_writable_path,
}
use prism_spectra.Adapters.Filesystem.Types.{
  World, called_mkdir, wrote, Js, DirectoryEntry, text_read, text_written, listed, ensured, stated,
  hashed, sidecar_written, json_read, json_written, Reply, succeeded, refused,
  entry_kind_from_dirent, stat_snapshot_from_stats, present, text_of, input_fields, format_json,
}
use prism_spectra.Adapters.Filesystem.Run.{Run, ◌>>=◌, returning, reading, logged}
use Prim.Native.String

module _ {Disk Bytes : Type 0} (os : Os Disk Bytes) (js : Js) (g : PathGuard)
    (action : AdapterAction) where
  unfoldable pub mkdir : String → Run (World Disk Bytes) Unit
  mkdir path w = logged (os.mkdir w.disk path) (called_mkdir w.disk path) w

  unfoldable pub write_file : String → Bytes → Run (World Disk Bytes) Unit
  write_file path bytes w = logged (os.write_file w.disk path bytes) (wrote w.disk path bytes) w

  unfoldable pub readable : String → ExpectedKind → Run (World Disk Bytes) ReadablePath
  unfolding validate_readable_path
  readable path expected =
      reading (λ disk. validate_readable_path os g disk path action.id expected)

  unfoldable pub writable : String → ExpectedKind → Run (World Disk Bytes) WritablePath
  unfolding validate_writable_path
  writable path expected =
      reading (λ disk. validate_writable_path os g disk path action.id expected)

  unfoldable pub target : String → String
  unfolding resolve_target_path
  target path = resolve_target_path os g.base_dir path

  -- from `mkdir` of the parent to `realpath`, as the three writing operations have it
  unfoldable pub write_checked : String → Bytes → Run (World Disk Bytes) String
  unfolding mkdir writable write_file target
  write_checked path bytes = mkdir (os.dirname (target path)) >>= λ _.
      writable path ExpectedKind.file >>= λ _. write_file (target path) bytes >>= λ _.
      reading (λ disk. awaited (os.realpath disk (target path)))

  unfoldable pub read_text_file : String → Run (World Disk Bytes) Reply
  unfolding readable
  read_text_file path = readable path ExpectedKind.file >>= λ r.
      reading (λ disk. awaited (os.read_file disk r.resolved_path)) >>= λ bytes. returning (
        succeeded (
          text_read path r.resolved_path (os.to_text bytes) (os.byte_length bytes)
            (os.sha256 bytes)))

  abbrev content : String
  content = elim (present (member "content" (input_fields action))) [
    | none ↦ ""
    | some v ↦ text_of js v
  ]

  unfoldable pub write_text_file : String → Run (World Disk Bytes) Reply
  unfolding writable write_checked
  write_text_file path =
      let bytes = os.to_buffer content in
      writable path ExpectedKind.file >>= λ _. write_checked path bytes >>= λ written.
      returning (succeeded (text_written path written (os.byte_length bytes) (os.sha256 bytes)))

  abbrev entry_size : Io Stats → Option ℕ
  entry_size (done s) = some s.size
  entry_size (failed f) = none

  unfoldable pub directory_entry : Disk → String → Dirent → DirectoryEntry
  unfolding entry_kind_from_dirent
  directory_entry disk folder d = record {
    name = d.name;
    path = os.join folder d.name;
    kind = entry_kind_from_dirent d;
    size = if d.is_symbolic_link then none else entry_size (os.stat disk (os.join folder d.name));
  }

  unfoldable pub list_directory : String → Run (World Disk Bytes) Reply
  unfolding readable directory_entry sort_by
  list_directory path = readable path ExpectedKind.directory >>= λ r.
      reading (λ disk. awaited (os.readdir disk r.resolved_path)) >>= λ entries.
      reading (λ disk. ok (
        map (directory_entry disk r.resolved_path)
          (sort_by (λ a b. js.earlier a.name b.name) entries)))
      >>= λ mapped. returning (succeeded (listed path r.resolved_path mapped))

  unfoldable pub ensure_directory : String → Run (World Disk Bytes) Reply
  unfolding writable mkdir target
  ensure_directory path = writable path ExpectedKind.directory >>= λ _.
      reading (λ disk. ok (os.exists disk (target path))) >>= λ existed_before.
      mkdir (target path) >>= λ _. writable path ExpectedKind.directory >>= λ _.
      reading (λ disk. awaited (os.realpath disk (target path))) >>= λ made_path.
      returning (succeeded (ensured path made_path (not existed_before)))

  unfoldable pub stat_path : String → Run (World Disk Bytes) Reply
  unfolding readable stat_snapshot_from_stats
  stat_path path = readable path any >>= λ r.
      reading (λ disk. awaited (os.stat disk r.resolved_path)) >>= λ stats.
      returning (succeeded (stated path r.resolved_path (stat_snapshot_from_stats stats)))

  unfoldable pub compute_sha256 : String → Run (World Disk Bytes) Reply
  unfolding readable
  compute_sha256 path = readable path ExpectedKind.file >>= λ r.
      reading (λ disk. awaited (os.read_file disk r.resolved_path)) >>= λ bytes.
      returning (succeeded (hashed path r.resolved_path (os.byte_length bytes) (os.sha256 bytes)))

  -- `${targetPath}${input.sidecarSuffix ?? sidecarSuffix}`
  abbrev pub sidecar_path : String → String → String
  sidecar_path sidecar_suffix path =
      String.◌++◌ path (elim (present (member "sidecarSuffix" (input_fields action))) [
        | none ↦ sidecar_suffix
        | some v ↦ text_of js v
      ])

  unfoldable pub write_json_sidecar : String → ℕ → String → Run (World Disk Bytes) Reply
  unfolding writable readable write_checked format_json target
  write_json_sidecar sidecar_suffix json_indent path =
      let sidecar = sidecar_path sidecar_suffix path in
      let bytes = os.to_buffer (format_json js json_indent action) in
      writable path ExpectedKind.file >>= λ _. readable path ExpectedKind.file >>= λ r.
      writable sidecar ExpectedKind.file >>= λ _. write_checked sidecar bytes >>= λ written.
      returning (
        succeeded (
          sidecar_written path r.resolved_path (target sidecar) written (os.byte_length bytes)
            (os.sha256 bytes)))

  abbrev parsed_reply : String → ReadablePath → Bytes → Option Json → Reply
  unfolding create_adapter_error
  parsed_reply path r bytes none = refused (
      create_adapter_error g.adapter_id action.id "invalid_json"
        (String.◌++◌ "Failed to parse JSON from " (String.◌++◌ r.resolved_path ".")))
  parsed_reply path r bytes (some v) =
      succeeded (json_read path r.resolved_path v (os.byte_length bytes))

  unfoldable pub read_json_file : String → Run (World Disk Bytes) Reply
  unfolding readable parsed_reply
  read_json_file path = readable path ExpectedKind.file >>= λ r.
      reading (λ disk. awaited (os.read_file disk r.resolved_path)) >>= λ bytes.
      returning (parsed_reply path r bytes (js.parse (os.to_text bytes)))

  unfoldable pub write_json_file : ℕ → String → Run (World Disk Bytes) Reply
  unfolding writable write_checked format_json
  write_json_file json_indent path =
      let bytes = os.to_buffer (format_json js json_indent action) in
      writable path ExpectedKind.file >>= λ _. write_checked path bytes >>= λ written.
      returning (succeeded (json_written path written (os.byte_length bytes) (os.sha256 bytes)))

  -- `buildSupportedOperationError`
  unfoldable pub unsupported : AdapterError
  unfolding create_adapter_error
  unsupported =
      create_adapter_error g.adapter_id action.id "unsupported_operation"
        (String.◌++◌ "Unsupported filesystem operation: " (String.◌++◌ action.operation "."))

  -- the `switch`
  unfoldable pub run_operation : String → ℕ → String → Run (World Disk Bytes) Reply
  unfolding read_text_file write_text_file list_directory ensure_directory stat_path compute_sha256
      write_json_sidecar read_json_file write_json_file unsupported
  run_operation sidecar_suffix json_indent path =
      if action.operation == "readTextFile"
      then read_text_file path
      else if action.operation == "writeTextFile"
      then write_text_file path
      else if action.operation == "listDirectory"
      then list_directory path
      else if action.operation == "ensureDirectory"
      then ensure_directory path
      else if action.operation == "statPath"
      then stat_path path
      else if action.operation == "computeSha256"
      then compute_sha256 path
      else if action.operation == "writeJsonSidecar"
      then write_json_sidecar sidecar_suffix json_indent path
      else if action.operation == "readJsonFile"
      then read_json_file path
      else if action.operation == "writeJsonFile"
      then write_json_file json_indent path
      else returning (refused unsupported)
