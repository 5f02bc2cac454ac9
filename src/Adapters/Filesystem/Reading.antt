-- ===== src/Adapters/Filesystem/Reading.antt =====
-- adapters/filesystemAdapter.ts: what leaves the disk as it is, and what a result says.
use prism_spectra.Common.{
  ◌≡◌, ◌⊎◌, refl, sym, ap, ◌∙◌, inl, inr, Bool, true, false, Option, none, some, String,
  if◌then◌else◌, ◌==◌, string_eq, is_some, eq_of_beq, ℕ, Bool-cases,
}
use prism_spectra.Adapters.Types.{AdapterAction, AdapterContext, AdapterError, AdapterResult}
use prism_spectra.Adapters.Guard.{
  Guarded, passed, threw, ensure_approval_allowed, blocked_adapter_result,
}
use prism_spectra.Adapters.Os.{Os, Attempt, ok, throw, awaited}
use prism_spectra.Adapters.PathGuard.{ReadablePath, ExpectedKind, any, validate_readable_path}
use prism_spectra.Adapters.Filesystem.Types.{
  World, Js, Output, Reply, succeeded, refused, is_read_operation,
}
use prism_spectra.Adapters.Filesystem.Run.{Run, ◌>>=◌, go_on, reading}
use prism_spectra.Adapters.Filesystem.Operations.{
  readable, read_text_file, list_directory, stat_path, compute_sha256, read_json_file,
  run_operation,
}
use prism_spectra.Adapters.Filesystem.{
  FilesystemAdapter, descriptor, execute, execute_at, execute_path, execute_guarded, input_path,
  is_destructive, result_of, destructive_result, missing_path_result,
}

module _ {W : Type 0} where
  -- A call that leaves the world as it is.
  abbrev IsPure : {A : Type 0} → Run W A → Type 0
  IsPure m = (w : W) → (m w).1 ≡ w

  go_on-world :
      {A B : Type 0} (r : Attempt A × W) (next : A → Run W B) (w : W)
      → r.1 ≡ w
      → ((a : A) → IsPure (next a))
      → (go_on r next).1 ≡ w
  go_on-world (ok a, v) next w e k = k a v ∙ e
  go_on-world (throw t, v) next w e k = e

  either-IsPure :
      {A : Type 0} (b : Bool) (m n : Run W A) → IsPure m → IsPure n → IsPure (if b then m else n)
  either-IsPure true m n p q = p
  either-IsPure false m n p q = q

  second-IsPure :
      {A : Type 0} (b : Bool) (m n : Run W A) → b ≡ false → IsPure n → IsPure (if b then m else n)
  second-IsPure true m n e q = cc
  second-IsPure false m n e q = q

module _ {Disk Bytes : Type 0} (os : Os Disk Bytes) (js : Js) (a : FilesystemAdapter) where
  module _ (action : AdapterAction) where
    readable_then :
        {B : Type 0} (path : String) (k : ExpectedKind)
        (next : ReadablePath → Run (World Disk Bytes) B)
        → ((r : ReadablePath) → IsPure (next r))
        → IsPure (readable os js a.guard action path k >>= next)
    unfolding readable
    readable_then path k next h w =
        go_on-world (validate_readable_path os a.guard w.disk path action.id k, w) next w refl h

    read_then :
        {A B : Type 0} (read : Disk → Attempt A) (next : A → Run (World Disk Bytes) B)
        → ((x : A) → IsPure (next x))
        → IsPure (reading read >>= next)
    read_then read next h w = go_on-world (read w.disk, w) next w refl h

    read_text_file-IsPure : (path : String) → IsPure (read_text_file os js a.guard action path)
    unfolding read_text_file
    read_text_file-IsPure path =
        readable_then path ExpectedKind.file _
          (λ r. read_then (λ disk. awaited (os.read_file disk r.resolved_path)) _ (λ b w. refl))

    compute_sha256-IsPure : (path : String) → IsPure (compute_sha256 os js a.guard action path)
    unfolding compute_sha256
    compute_sha256-IsPure path =
        readable_then path ExpectedKind.file _
          (λ r. read_then (λ disk. awaited (os.read_file disk r.resolved_path)) _ (λ b w. refl))

    read_json_file-IsPure : (path : String) → IsPure (read_json_file os js a.guard action path)
    unfolding read_json_file
    read_json_file-IsPure path =
        readable_then path ExpectedKind.file _
          (λ r. read_then (λ disk. awaited (os.read_file disk r.resolved_path)) _ (λ b w. refl))

    stat_path-IsPure : (path : String) → IsPure (stat_path os js a.guard action path)
    unfolding stat_path
    stat_path-IsPure path =
        readable_then path any _
          (λ r. read_then (λ disk. awaited (os.stat disk r.resolved_path)) _ (λ b w. refl))

    list_directory-IsPure : (path : String) → IsPure (list_directory os js a.guard action path)
    unfolding list_directory
    list_directory-IsPure path =
        readable_then path ExpectedKind.directory _
          (λ r. read_then (λ disk. awaited (os.readdir disk r.resolved_path)) _ (λ b w. refl))

    -- A writing operation is none of those that read.
    not_reading :
        (name : String)
        → is_read_operation name ≡ false
        → is_read_operation action.operation ≡ true
        → (action.operation == name) ≡ false
    not_reading name writes reads = elim (Bool-cases (action.operation == name)) [
      | inl e ↦
          let never : true ≡ false =
            sym reads ∙ ap is_read_operation (eq_of_beq action.operation name e) ∙ writes in
          cc
      | inr e ↦ e
    ]

    run_operation-IsPure :
        (suffix : String) (indent : ℕ) (path : String)
        → is_read_operation action.operation ≡ true
        → IsPure (run_operation os js a.guard action suffix indent path)
    unfolding run_operation is_read_operation
    run_operation-IsPure suffix indent path h =
        either-IsPure (action.operation == "readTextFile") _ _ (read_text_file-IsPure path) (
          second-IsPure (action.operation == "writeTextFile") _ _
            (not_reading "writeTextFile" refl h)
            (either-IsPure (action.operation == "listDirectory") _ _ (list_directory-IsPure path) (
              second-IsPure (action.operation == "ensureDirectory") _ _
                (not_reading "ensureDirectory" refl h)
                (either-IsPure (action.operation == "statPath") _ _ (stat_path-IsPure path) (
                  either-IsPure (action.operation == "computeSha256") _ _
                    (compute_sha256-IsPure path)
                    (second-IsPure (action.operation == "writeJsonSidecar") _ _
                      (not_reading "writeJsonSidecar" refl h)
                      (either-IsPure (action.operation == "readJsonFile") _ _
                        (read_json_file-IsPure path)
                        (second-IsPure (action.operation == "writeJsonFile") _ _
                          (not_reading "writeJsonFile" refl h) (λ w. refl)))))))))

  -- What a result says: an output and no error, or an error and no output; it is blocked only then.
  abbrev pub IsCoherent : AdapterResult Output → Type 0
  IsCoherent r =
      ((r.success ≡ true) × (r.blocked ≡ false) × (is_some r.output ≡ true) × (r.error ≡ none))
      ⊎ ((r.success ≡ false) × (r.output ≡ none) × (is_some r.error ≡ true))

  result_of-IsCoherent :
      (action : AdapterAction) (r : Attempt Reply) → IsCoherent (result_of a action r)
  unfolding result_of
  result_of-IsCoherent action (ok (succeeded o)) = inl (refl, refl, refl, refl)
  result_of-IsCoherent action (ok (refused e)) = inr (refl, refl, refl)
  result_of-IsCoherent action (throw t) = inr (refl, refl, refl)

  -- The end of a call: a coherent result, and the world as before if the operation reads.
  abbrev pub IsSound :
      AdapterAction → World Disk Bytes → AdapterResult Output × World Disk Bytes → Type 0
  IsSound action w r =
      IsCoherent r.0
      × (is_read_operation action.operation ≡ true → r.1 ≡ w)
      × (is_destructive action ≡ true → (r.1 ≡ w) × (r.0.success ≡ false))

  if-IsSound :
      (action : AdapterAction) (w : World Disk Bytes) (b : Bool)
      (x y : AdapterResult Output × World Disk Bytes)
      → is_destructive action ≡ b
      → IsSound action w x
      → (is_destructive action ≡ false → IsSound action w y)
      → IsSound action w (if b then x else y)
  if-IsSound action w true x y e h k = h
  if-IsSound action w false x y e h k = k e

  -- An error result that leaves the world as it is.
  refused-IsSound :
      (action : AdapterAction) (w : World Disk Bytes) (r : AdapterResult Output)
      → r.success ≡ false
      → r.output ≡ none
      → is_some r.error ≡ true
      → IsSound action w (r, w)
  refused-IsSound action w r s o e = (inr (s, o, e), (λ _. refl), (λ _. (refl, s)))

  execute_at-IsSound :
      (action : AdapterAction) (path : String) (w : World Disk Bytes)
      → IsSound action w (execute_at os js a action path w)
  unfolding execute_at destructive_result
  execute_at-IsSound action path w =
      let run = run_operation os js a.guard action a.sidecar_suffix a.json_indent path w in
      if-IsSound action w (is_destructive action) (destructive_result a action, w)
        (result_of a action run.0, run.1) refl
        (refused-IsSound action w (destructive_result a action) refl refl refl)
        (λ safe. (
          result_of-IsCoherent action run.0,
          (λ h. run_operation-IsPure action a.sidecar_suffix a.json_indent path h w),
          (λ destructive. let never : true ≡ false = sym destructive ∙ safe in cc),
        ))

  execute_path-IsSound :
      (action : AdapterAction) (o : Option String) (w : World Disk Bytes)
      → IsSound action w (execute_path os js a action o w)
  unfolding missing_path_result
  execute_path-IsSound action none w =
      refused-IsSound action w (missing_path_result a action) refl refl refl
  execute_path-IsSound action (some path) w = execute_at-IsSound action path w

  execute_guarded-IsSound :
      (action : AdapterAction) (v : Guarded AdapterError) (w : World Disk Bytes)
      → IsSound action w (execute_guarded os js a action v w)
  unfolding execute_guarded blocked_adapter_result
  execute_guarded-IsSound action passed w = execute_path-IsSound action (input_path action) w
  execute_guarded-IsSound action (threw e) w =
      refused-IsSound action w (blocked_adapter_result (descriptor a) action e) refl refl refl

  -- A result of `execute` has an output and no error, or an error and no output. An operation that
  -- reads leaves the disk as it is, and so does a deletion or an action of destructive risk, which is
  -- never a success, approved or not.
  pub execute-IsSound :
      (action : AdapterAction) (context : AdapterContext) (w : World Disk Bytes)
      → IsSound action w (execute os js a action context w)
  unfolding execute
  execute-IsSound action context w =
      execute_guarded-IsSound action (ensure_approval_allowed (descriptor a) context action) w
