-- ===== src/Adapters/Filesystem/Containment.antt =====
-- adapters/filesystemAdapter.ts: where `execute` changes the disk.
use prism_spectra.Common.{
  ℕ, ◌≡◌, ◌⊎◌, refl, sym, subst, inl, inr, Bool, true, false, not, [], ◌∷◌, Option, none, some,
  String, if◌then◌else◌, ◌==◌, string_eq, All, All-append,
}
use prism_spectra.Adapters.Types.{AdapterAction, AdapterContext, AdapterError, AdapterResult}
use prism_spectra.Adapters.Guard.{Guarded, passed, threw, ensure_approval_allowed}
use prism_spectra.Adapters.Os.{Os, Io, done, failed, Attempt, ok, throw, awaited}
use prism_spectra.Adapters.PathGuard.{
  PathGuard, ReadablePath, validate_readable_path, WritablePath, ExpectedKind, any,
  validate_writable_path, resolve_target_path,
}
use prism_spectra.Adapters.PathGuard.Writable.{IsWritable, validate_writable_path-IsWritable}
use prism_spectra.Adapters.Filesystem.Types.{
  Output, Reply, succeeded, refused, ensured, Effect, World, called_mkdir, wrote, Js, Reply,
}
use prism_spectra.Adapters.Filesystem.Run.{Run, go_on, ◌>>=◌, returning, reading, logged}
use prism_spectra.Adapters.Filesystem.Operations.{
  unsupported, mkdir, write_file, readable, writable, target, write_checked, read_text_file,
  write_text_file, list_directory, ensure_directory, stat_path, compute_sha256, write_json_sidecar,
  read_json_file, write_json_file, run_operation, sidecar_path,
}
use prism_spectra.Adapters.Filesystem.{
  FilesystemAdapter, descriptor, destructive_result, result_of, execute, execute_at, execute_path,
  execute_guarded, input_path, is_destructive,
}

module _ {Disk Bytes : Type 0} (os : Os Disk Bytes) (g : PathGuard) where
  -- A file is written where the path is writable on that disk, and `mkdir` is called for such a path or
  -- for the folder right above it.
  abbrev pub IsAllowed : Effect Disk Bytes → Type 0
  IsAllowed (wrote disk path bytes) = IsWritable os g disk path
  IsAllowed (called_mkdir disk path) =
      (t : String) × IsWritable os g disk t × ((path ≡ t) ⊎ (path ≡ os.dirname t))

  abbrev pub IsLogged : World Disk Bytes → Type 0
  IsLogged w = All IsAllowed w.log

  -- A call ends with an allowed log, and with `Q` if it answers.
  abbrev Ends :
      {A : Type 0} → (A → World Disk Bytes → Type 0) → Attempt A × World Disk Bytes → Type 0
  Ends Q (ok a, w) = IsLogged w × Q a w
  Ends Q (throw e, w) = IsLogged w

  abbrev Anything : {A : Type 0} → A → World Disk Bytes → Type 0
  Anything a w = Unit

  go_on-Ends :
      {A B : Type 0} (R : A → World Disk Bytes → Type 0) (Q : B → World Disk Bytes → Type 0)
      (r : Attempt A × World Disk Bytes) (next : A → Run (World Disk Bytes) B)
      → Ends R r
      → ((a : A) (w : World Disk Bytes) → IsLogged w → R a w → Ends Q (next a w))
      → Ends Q (go_on r next)
  go_on-Ends R Q (ok a, w) next (h, p) k = k a w h p
  go_on-Ends R Q (throw e, w) next h k = h

  reading-Ends :
      {A : Type 0} (read : Disk → Attempt A) (w : World Disk Bytes)
      → IsLogged w
      → Ends (λ a w'. (w' ≡ w) × (read w.disk ≡ ok a)) (reading read w)
  reading-Ends {A = A} read w h = go (read w.disk) refl
    where
      go : (x : Attempt A) → read w.disk ≡ x → Ends (λ a w'. (w' ≡ w) × (read w.disk ≡ ok a)) (x, w)
      go (ok a) e = (h, (refl, e))
      go (throw t) e = h

  logged-Ends :
      (io : Io Disk) (e : Effect Disk Bytes) (w : World Disk Bytes)
      → IsLogged w
      → IsAllowed e
      → Ends Anything (logged io e w)
  logged-Ends (done disk) e w h p = (All-append IsAllowed w.log (e ∷ []) h (p, tt), tt)
  logged-Ends (failed f) e w h p = h

  -- Whatever the world, the call only makes allowed changes.
  abbrev IsContained : {A : Type 0} → Run (World Disk Bytes) A → Type 0
  IsContained m = (w : World Disk Bytes) → IsLogged w → Ends Anything (m w)

  Ends-IsLogged :
      {A : Type 0} (Q : A → World Disk Bytes → Type 0) (r : Attempt A × World Disk Bytes)
      → Ends Q r
      → IsLogged r.1
  Ends-IsLogged Q (ok a, w) (l, q) = l
  Ends-IsLogged Q (throw e, w) l = l

  if-IsContained :
      {A : Type 0} (b : Bool) (m n : Run (World Disk Bytes) A)
      → IsContained m
      → IsContained n
      → IsContained (if b then m else n)
  if-IsContained true m n p q = p
  if-IsContained false m n p q = q

  -- A call that reads, and one behind it.
  read_then :
      {A B : Type 0} (read : Disk → Attempt A) (next : A → Run (World Disk Bytes) B)
      → ((a : A) → IsContained (next a))
      → IsContained (reading read >>= next)
  read_then read next k w h =
      go_on-Ends (λ a w'. (w' ≡ w) × (read w.disk ≡ ok a)) Anything (reading read w) next
        (reading-Ends read w h) (λ a w' h' _. k a w' h')

  Ends-weaken :
      {A : Type 0} (Q R : A → World Disk Bytes → Type 0) (r : Attempt A × World Disk Bytes)
      → ((a : A) (w : World Disk Bytes) → Q a w → R a w)
      → Ends Q r
      → Ends R r
  Ends-weaken Q R (ok a, w) k (l, q) = (l, k a w q)
  Ends-weaken Q R (throw e, w) k l = l

  reading-IsContained : {A : Type 0} (read : Disk → Attempt A) → IsContained (reading read)
  reading-IsContained read w h =
      Ends-weaken (λ a w'. (w' ≡ w) × (read w.disk ≡ ok a)) Anything (reading read w) (λ a w' _. tt)
        (reading-Ends read w h)

  returning-IsContained : {A : Type 0} (a : A) → IsContained (returning a)
  returning-IsContained a w l = (l, tt)

  module _ (js : Js) (action : AdapterAction) where
    writable-Ends :
        (path : String) (k : ExpectedKind) (w : World Disk Bytes)
        → IsLogged w
        → Ends
            (λ _ w'. IsWritable os g w'.disk (target os js g action path))
            (writable os js g action path k w)
    unfolding writable target
    writable-Ends path k w h =
        let t = resolve_target_path os g.base_dir path in
        let validated = λ (disk : Disk). validate_writable_path os g disk path action.id k in
        Ends-weaken (λ a w'. (w' ≡ w) × (validated w.disk ≡ ok a))
          (λ _ w'. IsWritable os g w'.disk t) (reading validated w)
          (λ a w' (e, p).
            subst (λ (v : World Disk Bytes). IsWritable os g v.disk t) (sym e)
              (validate_writable_path-IsWritable os g w.disk path action.id k a p))
          (reading-Ends validated w h)

    -- A call behind the test of a path that is to be written.
    writable_then :
        {B : Type 0} (path : String) (k : ExpectedKind)
        (next : WritablePath → Run (World Disk Bytes) B)
        → ((a : WritablePath) (w : World Disk Bytes)
            → IsLogged w
            → IsWritable os g w.disk (target os js g action path)
            → Ends Anything (next a w))
        → IsContained (writable os js g action path k >>= next)
    writable_then path k next go w h =
        go_on-Ends (λ _ w'. IsWritable os g w'.disk (target os js g action path)) Anything
          (writable os js g action path k w) next (writable-Ends path k w h) go

    tested_then :
        {B : Type 0} (path : String) (k : ExpectedKind)
        (next : WritablePath → Run (World Disk Bytes) B)
        → ((a : WritablePath) → IsContained (next a))
        → IsContained (writable os js g action path k >>= next)
    tested_then path k next go = writable_then path k next (λ a w l _. go a w l)

    -- A change that is allowed, and a call behind it.
    logged_then :
        {B : Type 0} (io : Io Disk) (e : Effect Disk Bytes) (w : World Disk Bytes)
        (next : Unit → Run (World Disk Bytes) B)
        → IsLogged w
        → IsAllowed e
        → IsContained (next tt)
        → Ends Anything (go_on (logged io e w) next)
    logged_then io e w next h p k =
        go_on-Ends Anything Anything (logged io e w) next (logged-Ends io e w h p)
          (λ u w' l _. k w' l)

    write_checked-Ends :
        (path : String) (bytes : Bytes) (w : World Disk Bytes)
        → IsLogged w
        → IsWritable os g w.disk (target os js g action path)
        → Ends Anything (write_checked os js g action path bytes w)
    unfolding write_checked mkdir write_file
    write_checked-Ends path bytes w h p =
        let t = target os js g action path in
        logged_then (os.mkdir w.disk (os.dirname t)) (called_mkdir w.disk (os.dirname t)) w _ h
          (t, p, inr refl)
          (writable_then path ExpectedKind.file _ (λ a w' l q.
            logged_then (os.write_file w'.disk t bytes) (wrote w'.disk t bytes) w' _ l q
              (reading-IsContained (λ disk. awaited (os.realpath disk t)))))

    readable_then :
        {B : Type 0} (path : String) (k : ExpectedKind)
        (next : ReadablePath → Run (World Disk Bytes) B)
        → ((r : ReadablePath) → IsContained (next r))
        → IsContained (readable os js g action path k >>= next)
    unfolding readable
    readable_then path k next =
        read_then (λ disk. validate_readable_path os g disk path action.id k) next

    -- A write behind its test, and the answer.
    write_then :
        {B : Type 0} (path : String) (bytes : Bytes) (w : World Disk Bytes)
        (next : String → Run (World Disk Bytes) B)
        → IsLogged w
        → IsWritable os g w.disk (target os js g action path)
        → ((written : String) → IsContained (next written))
        → Ends Anything (go_on (write_checked os js g action path bytes w) next)
    write_then path bytes w next h p k =
        go_on-Ends Anything Anything (write_checked os js g action path bytes w) next
          (write_checked-Ends path bytes w h p) (λ s w' l _. k s w' l)

    write_text_file-IsContained :
        (path : String) → IsContained (write_text_file os js g action path)
    unfolding write_text_file
    write_text_file-IsContained path =
        writable_then path ExpectedKind.file _
          (λ a w l p. write_then path _ w _ l p (λ s w' l'. (l', tt)))

    write_json_file-IsContained :
        (indent : ℕ) (path : String) → IsContained (write_json_file os js g action indent path)
    unfolding write_json_file
    write_json_file-IsContained indent path =
        writable_then path ExpectedKind.file _
          (λ a w l p. write_then path _ w _ l p (λ s w' l'. (l', tt)))

    ensure_directory-IsContained :
        (path : String) → IsContained (ensure_directory os js g action path)
    unfolding ensure_directory mkdir
    ensure_directory-IsContained path =
        let t = target os js g action path in
        writable_then path ExpectedKind.directory _ (λ a w l p.
          logged_then (os.mkdir w.disk t) (called_mkdir w.disk t) w _ l (t, p, inl refl)
            (tested_then path ExpectedKind.directory _ (λ a'.
              read_then (λ disk. awaited (os.realpath disk t)) _
                (λ m.
                  returning-IsContained (succeeded (ensured path m (not (os.exists w.disk t))))))))

    write_json_sidecar-IsContained :
        (suffix : String) (indent : ℕ) (path : String)
        → IsContained (write_json_sidecar os js g action suffix indent path)
    unfolding write_json_sidecar
    write_json_sidecar-IsContained suffix indent path =
        writable_then path ExpectedKind.file _ (λ a w l _.
          readable_then path ExpectedKind.file _
            (λ r.
              writable_then (sidecar_path os js g action suffix path) ExpectedKind.file _
                (λ a' w' l' p.
                  write_then (sidecar_path os js g action suffix path) _ w' _ l' p
                    (λ s w'' l''. (l'', tt))))
            w l)

    -- An operation that reads a path, then the disk once.
    read_text_file-IsContained : (path : String) → IsContained (read_text_file os js g action path)
    unfolding read_text_file
    read_text_file-IsContained path =
        readable_then path ExpectedKind.file _ (λ r.
          read_then (λ disk. awaited (os.read_file disk r.resolved_path)) _ (λ b w l. (l, tt)))

    compute_sha256-IsContained : (path : String) → IsContained (compute_sha256 os js g action path)
    unfolding compute_sha256
    compute_sha256-IsContained path =
        readable_then path ExpectedKind.file _ (λ r.
          read_then (λ disk. awaited (os.read_file disk r.resolved_path)) _ (λ b w l. (l, tt)))

    read_json_file-IsContained : (path : String) → IsContained (read_json_file os js g action path)
    unfolding read_json_file
    read_json_file-IsContained path =
        readable_then path ExpectedKind.file _ (λ r.
          read_then (λ disk. awaited (os.read_file disk r.resolved_path)) _ (λ b w l. (l, tt)))

    stat_path-IsContained : (path : String) → IsContained (stat_path os js g action path)
    unfolding stat_path
    stat_path-IsContained path =
        readable_then path any _
          (λ r. read_then (λ disk. awaited (os.stat disk r.resolved_path)) _ (λ b w l. (l, tt)))

    list_directory-IsContained : (path : String) → IsContained (list_directory os js g action path)
    unfolding list_directory
    list_directory-IsContained path = readable_then path ExpectedKind.directory _ (λ r.
        read_then (λ disk. awaited (os.readdir disk r.resolved_path)) _ (λ entries w l. (l, tt)))

    run_operation-IsContained :
        (suffix : String) (indent : ℕ) (path : String)
        → IsContained (run_operation os js g action suffix indent path)
    unfolding run_operation
    run_operation-IsContained suffix indent path =
        if-IsContained (action.operation == "readTextFile") _ _ (read_text_file-IsContained path) (
          if-IsContained (action.operation == "writeTextFile") _ _
            (write_text_file-IsContained path)
            (if-IsContained (action.operation == "listDirectory") _ _
              (list_directory-IsContained path)
              (if-IsContained (action.operation == "ensureDirectory") _ _
                (ensure_directory-IsContained path)
                (if-IsContained (action.operation == "statPath") _ _ (stat_path-IsContained path) (
                  if-IsContained (action.operation == "computeSha256") _ _
                    (compute_sha256-IsContained path)
                    (if-IsContained (action.operation == "writeJsonSidecar") _ _
                      (write_json_sidecar-IsContained suffix indent path)
                      (if-IsContained (action.operation == "readJsonFile") _ _
                        (read_json_file-IsContained path)
                        (if-IsContained (action.operation == "writeJsonFile") _ _
                          (write_json_file-IsContained indent path)
                          (returning-IsContained (refused (unsupported os js g action)))))))))))

module _ {Disk Bytes : Type 0} (os : Os Disk Bytes) (js : Js) (a : FilesystemAdapter) where
  if-IsLogged :
      (b : Bool) (x y : AdapterResult Output × World Disk Bytes)
      → IsLogged os a.guard x.1
      → IsLogged os a.guard y.1
      → IsLogged os a.guard (if b then x else y).1
  if-IsLogged true x y h k = h
  if-IsLogged false x y h k = k

  abbrev run : AdapterAction → String → Run (World Disk Bytes) Reply
  run action path = run_operation os js a.guard action a.sidecar_suffix a.json_indent path

  execute_at-IsLogged :
      (action : AdapterAction) (path : String) (w : World Disk Bytes)
      → IsLogged os a.guard w
      → IsLogged os a.guard (execute_at os js a action path w).1
  unfolding execute_at
  execute_at-IsLogged action path w h =
      if-IsLogged (is_destructive action) (destructive_result a action, w)
        (result_of a action (run action path w).0, (run action path w).1) h
        (Ends-IsLogged os a.guard (Anything os a.guard) (run action path w)
          (run_operation-IsContained os a.guard js action a.sidecar_suffix a.json_indent path w h))

  execute_path-IsLogged :
      (action : AdapterAction) (o : Option String) (w : World Disk Bytes)
      → IsLogged os a.guard w
      → IsLogged os a.guard (execute_path os js a action o w).1
  execute_path-IsLogged action none w h = h
  execute_path-IsLogged action (some path) w h = execute_at-IsLogged action path w h

  execute_guarded-IsLogged :
      (action : AdapterAction) (v : Guarded AdapterError) (w : World Disk Bytes)
      → IsLogged os a.guard w
      → IsLogged os a.guard (execute_guarded os js a action v w).1
  unfolding execute_guarded
  execute_guarded-IsLogged action passed w h = execute_path-IsLogged action (input_path action) w h
  execute_guarded-IsLogged action (threw e) w h = h

  -- Whatever the action and the context: if the log held only such changes before, then `execute`
  -- adds only writes of a file at a path that is writable on the disk it is written to, and calls of
  -- `mkdir` for such a path or for the folder right above one. A writable path comes from an input
  -- without ".." segments and stands in an allowed root; it is missing or its own real path; and the
  -- nearest folder that exists above it is its own real path and stands in an allowed root.
  pub execute-IsLogged :
      (action : AdapterAction) (context : AdapterContext) (w : World Disk Bytes)
      → IsLogged os a.guard w
      → IsLogged os a.guard (execute os js a action context w).1
  unfolding execute
  execute-IsLogged action context w =
      execute_guarded-IsLogged action (ensure_approval_allowed (descriptor a) context action) w
