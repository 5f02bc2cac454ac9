-- ===== src/Adapters/PathGuard.antt =====
-- adapters/filesystemPathGuard.ts, over `node:path` and `node:fs`, which stand in the record `Os`. A
-- read of the disk is a function of the disk; what throws is a value. The loop that goes up to an
-- existing ancestor is given fuel, one unit for each character of the path and one more.
pub mod Writable
use prism_spectra.Common.{
  ℕ, zero, suc, Bool, true, false, not, ◌&&◌, ◌||◌, List, [], ◌∷◌, Option, none, some, String,
  if◌then◌else◌, ◌==◌, string_eq, or_else, find_by, any_of,
}
use prism_spectra.Adapters.Types.{create_adapter_error}
use prism_spectra.Adapters.Os.{
  Os, Stats, SystemFailure, done, failed, Thrown, adapter_error, Attempt, ok, throw, ◌>>=◌,
  throw_if, awaited, some_or_throw,
}
use prism_spectra.Adapters.PathText.{starts_with_dots, has_traversal_segments, characters}
use Prim.Native.String

pub record PathGuard : Type 0 where
  pub adapter_id : String
  pub allowed_roots : List String
  pub base_dir : String

pub record ReadablePath : Type 0 where
  pub target_path : String
  pub resolved_path : String
  pub root : String

pub record WritablePath : Type 0 where
  pub target_path : String
  pub root : String
  pub parent_path : String
  pub parent_resolved_path : String

pub data ExpectedKind : Type 0 where
  file directory any : ExpectedKind

module _ {Disk Bytes : Type 0} (os : Os Disk Bytes) where
  unfoldable pub is_inside_root : String → String → Bool
  unfolding starts_with_dots
  is_inside_root root candidate =
      let rel = os.relative root candidate in
      rel == "" || (not (starts_with_dots rel) && not (os.is_absolute rel))

  unfoldable pub realpath_if_exists : Disk → String → Option String
  realpath_if_exists disk candidate = elim (os.realpath disk candidate) [
    | done p ↦ some p
    | failed f ↦ none
  ]

  unfoldable pub ancestor_from : ℕ → Disk → String → Option String
  ancestor_from zero disk current = none
  ancestor_from (suc fuel) disk current =
      let parent = os.dirname current in
      let above = ancestor_from fuel disk parent in
      if os.exists disk current then some current else if parent == current then none else above

  unfoldable pub nearest_existing_ancestor : Disk → String → Option String
  unfolding ancestor_from
  nearest_existing_ancestor disk candidate =
      ancestor_from (suc (characters candidate)) disk candidate

  unfoldable pub resolve_target_path : String → String → String
  resolve_target_path base_dir input_path =
      if os.is_absolute input_path
      then os.resolve input_path
      else os.resolve_from base_dir input_path

  unfoldable pub resolved_root_for_path : String → List String → Option String
  unfolding is_inside_root
  resolved_root_for_path target_path allowed_roots =
      find_by (λ root. is_inside_root root target_path) allowed_roots

  -- the two tests of `assertKind` on what `stat` tells
  abbrev pub kind_mismatch : ExpectedKind → Stats → Bool
  kind_mismatch any s = false
  kind_mismatch directory s = not s.is_directory
  kind_mismatch file s = s.is_directory

  abbrev pub kind_message : ExpectedKind → String → String
  kind_message directory p = String.◌++◌ "Path " (String.◌++◌ p " is not a directory.")
  kind_message _ p = String.◌++◌ "Path " (String.◌++◌ p " is not a file.")

  abbrev pub about_path : String → String → String → String
  about_path before p after = String.◌++◌ before (String.◌++◌ p after)

  -- `pathError(config.adapterId, actionId, code, message)`
  unfoldable pub path_error : PathGuard → String → String → String → Thrown
  unfolding create_adapter_error
  path_error g action_id code message =
      adapter_error (create_adapter_error g.adapter_id action_id code message)

  unfoldable pub assert_kind :
      PathGuard → Disk → String → ExpectedKind → String → String → Attempt Unit
  unfolding path_error
  assert_kind g disk resolved_path any action_id target_path = ok tt
  assert_kind g disk resolved_path expected action_id target_path =
      awaited (os.stat disk resolved_path) >>= λ stats.
      throw_if (kind_mismatch expected stats)
        (path_error g action_id "not_a_directory" (kind_message expected target_path))

  unfoldable pub validate_traversal : PathGuard → String → String → Attempt Unit
  unfolding has_traversal_segments path_error
  validate_traversal g input_path action_id = throw_if (has_traversal_segments input_path) (
      path_error g action_id "path_traversal_blocked"
        (about_path "Path traversal is blocked for " input_path "."))

  -- `resolvedRootForPath` with the error that a missing root throws
  unfoldable pub root_or_throw : PathGuard → String → String → String → Attempt String
  unfolding resolved_root_for_path path_error
  root_or_throw g action_id path message =
      some_or_throw (resolved_root_for_path path g.allowed_roots)
        (path_error g action_id "path_outside_allowed_roots" message)

  unfoldable pub symlink_error : PathGuard → String → String → Thrown
  unfolding path_error
  symlink_error g action_id path =
      path_error g action_id "symlink_rejected" (about_path "Symlinks are rejected for " path ".")

  unfoldable pub missing_error : PathGuard → String → String → Thrown
  unfolding path_error
  missing_error g action_id path =
      path_error g action_id "file_not_found" (about_path "Path " path " does not exist.")

  unfoldable pub validate_readable_path :
      PathGuard → Disk → String → String → ExpectedKind → Attempt ReadablePath
  unfolding validate_traversal resolve_target_path root_or_throw realpath_if_exists symlink_error
      missing_error assert_kind
  validate_readable_path g disk input_path action_id expected =
      let target_path = resolve_target_path g.base_dir input_path in
      validate_traversal g input_path action_id >>= λ _.
      root_or_throw g action_id target_path
        (about_path "Path " target_path " is outside the allowed roots.")
      >>= λ root.
          some_or_throw (realpath_if_exists disk target_path)
            (missing_error g action_id target_path)
          >>= λ real_path.
              throw_if (not (real_path == target_path)) (symlink_error g action_id target_path)
              >>= λ _.
                  root_or_throw g action_id real_path
                    (about_path "Path " target_path " resolves outside the allowed roots.")
                  >>= λ _. assert_kind g disk real_path expected action_id target_path >>= λ _.
                      ok (record {
                        target_path = target_path;
                        resolved_path = real_path;
                        root = root;
                      })

  -- the tests on a target that exists
  unfoldable pub check_existing :
      PathGuard → Disk → Option String → String → String → ExpectedKind → Attempt Unit
  unfolding symlink_error assert_kind
  check_existing g disk none target_path action_id expected = ok tt
  check_existing g disk (some real_path) target_path action_id expected =
      throw_if (not (real_path == target_path)) (symlink_error g action_id target_path) >>= λ _.
      assert_kind g disk real_path expected action_id target_path

  -- the tests on the folder that the target is to stand in
  unfoldable pub check_parent : PathGuard → Disk → String → String → Attempt String
  unfolding nearest_existing_ancestor realpath_if_exists root_or_throw symlink_error missing_error
      path_error
  check_parent g disk parent_path action_id =
      some_or_throw (nearest_existing_ancestor disk parent_path)
        (missing_error g action_id parent_path)
      >>= λ existing_ancestor.
          some_or_throw (realpath_if_exists disk existing_ancestor)
            (missing_error g action_id parent_path)
          >>= λ parent_resolved_path.
              throw_if (not (parent_resolved_path == existing_ancestor))
                (symlink_error g action_id parent_path)
              >>= λ _.
                  root_or_throw g action_id parent_resolved_path
                    (about_path "Path " parent_path " resolves outside the allowed roots.")
                  >>= λ _. awaited (os.stat disk parent_resolved_path) >>= λ parent_stats.
                      throw_if (not parent_stats.is_directory) (
                        path_error g action_id "not_a_directory"
                          (about_path "Path " parent_path " is not a directory."))
                      >>= λ _. ok parent_resolved_path

  unfoldable pub validate_writable_path :
      PathGuard → Disk → String → String → ExpectedKind → Attempt WritablePath
  unfolding validate_traversal resolve_target_path root_or_throw realpath_if_exists check_existing
      check_parent
  validate_writable_path g disk input_path action_id expected =
      let target_path = resolve_target_path g.base_dir input_path in
      let parent_path = os.dirname target_path in
      validate_traversal g input_path action_id >>= λ _.
      root_or_throw g action_id target_path
        (about_path "Path " target_path " is outside the allowed roots.")
      >>= λ root.
          check_existing g disk (realpath_if_exists disk target_path) target_path action_id expected
          >>= λ _. check_parent g disk parent_path action_id >>= λ parent_resolved_path.
              ok (record {
                target_path = target_path;
                root = root;
                parent_path = parent_path;
                parent_resolved_path = parent_resolved_path;
              })

-- What `createFilesystemPathGuard` throws.
pub data GuardError : Type 0 where
  no_allowed_root : GuardError
  root_not_real : SystemFailure → GuardError
  base_dir_outside : String → GuardError

pub data Created (A : Type 0) : Type 0 where
  created : A → Created A
  not_created : GuardError → Created A

abbrev and_then : {A B : Type 0} → Created A → (A → Created B) → Created B
and_then (created a) next = next a
and_then (not_created e) next = not_created e

module _ {Disk Bytes : Type 0} (os : Os Disk Bytes) (disk : Disk) where
  abbrev real_root : String → Created String
  real_root p = elim (os.realpath disk (os.resolve p)) [
    | done r ↦ created r
    | failed f ↦ not_created (root_not_real f)
  ]

  unfoldable pub real_roots : List String → Created (List String)
  real_roots [] = created []
  real_roots (r ∷ rs) =
      and_then (real_root r) (λ p. and_then (real_roots rs) (λ ps. created (p ∷ ps)))

  unfoldable guard_with : String → List String → String → Created PathGuard
  unfolding is_inside_root
  guard_with adapter_id allowed_roots base_dir =
      if not (any_of (λ root. is_inside_root os root base_dir) allowed_roots)
      then not_created (base_dir_outside base_dir)
      else created
          (record { adapter_id = adapter_id; allowed_roots = allowed_roots; base_dir = base_dir })

  unfoldable pub create_filesystem_path_guard :
      String → List String → Option String → Created PathGuard
  unfolding real_roots guard_with
  create_filesystem_path_guard adapter_id [] base_dir = not_created no_allowed_root
  create_filesystem_path_guard adapter_id (r ∷ rs) base_dir = and_then (real_root r) (λ first.
      and_then (real_roots rs) (λ others.
        and_then (real_root (or_else base_dir first)) (guard_with adapter_id (first ∷ others))))
