-- ===== src/Safety.antt =====
-- safety/patch.ts: `applyPatch`, over the functions of `node:path` and `node:fs` that it calls. Edits are
-- made one after the other, so that those in front of one that throws stay; the changes are logged.
pub mod Confinement
use prism_spectra.Common.{
  Bool, true, false, not, ◌&&◌, ◌||◌, List, [], ◌∷◌, ◌++◌, Option, none, some, String,
  if◌then◌else◌, ◌==◌, string_eq,
}
use prism_spectra.Common.Text.Prefix.{starts_with}
use prism_spectra.Types.{FileEdit, Patch, Op, write, delete}
use prism_spectra.Adapters.Os.{Io, done, failed, SystemFailure}
use Prim.Native.String

pub record PatchOs (Disk : Type 0) : Type 0 where
  -- `path.resolve` with one and with two arguments, `path.sep` and `path.dirname`
  pub resolve : String → String
  pub resolve_from : String → String → String
  pub sep : String
  pub dirname : String → String
  pub exists : Disk → String → Bool
  pub rm : Disk → String → Io Disk
  pub mkdir : Disk → String → Io Disk
  pub write_file : Disk → String → String → Io Disk

-- A call that changes the disk. `mkdirSync` is called with `recursive`: it also makes the folders above
-- its path that are missing.
pub data Change : Type 0 where
  removed called_mkdir wrote : String → Change

pub data PatchError : Type 0 where
  escapes_workspace no_content : (path : String) → PatchError
  system : SystemFailure → PatchError

-- `ApplyPatchResult`
pub record ApplyPatchResult : Type 0 where
  pub written : List String
  pub deleted : List String

pub record Workspace (Disk : Type 0) : Type 0 where
  pub disk : Disk
  pub log : List Change
  pub result : ApplyPatchResult

pub data Applied (Disk : Type 0) : Type 0 where
  applied : Workspace Disk → Applied Disk
  threw : PatchError → Workspace Disk → Applied Disk

module _ {Disk : Type 0} (os : PatchOs Disk) (work_dir : String) where
  -- the test of `resolveWithinWorkDir` on a resolved path
  unfoldable pub is_within : String → Bool
  unfolding starts_with
  is_within resolved =
      let normalized = os.resolve work_dir in
      starts_with (String.◌++◌ normalized os.sep) resolved || resolved == normalized

  unfoldable pub resolve_within_work_dir : String → Option String
  unfolding is_within
  resolve_within_work_dir relative_path =
      let resolved = os.resolve_from work_dir relative_path in
      if is_within resolved then some resolved else none

  abbrev pub go_on : Applied Disk → (Workspace Disk → Applied Disk) → Applied Disk
  go_on (applied w) next = next w
  go_on (threw e w) next = threw e w

  -- a change of the disk, logged if it is made
  abbrev pub changed : Io Disk → Change → Workspace Disk → Applied Disk
  changed (done disk) c w = applied (record w { disk = disk; log = w.log ++ c ∷ [] })
  changed (failed f) c w = threw (system f) w

  abbrev pub note_deleted : String → Workspace Disk → Applied Disk
  note_deleted path w =
      applied (record w { result = record w.result { deleted = w.result.deleted ++ path ∷ [] } })

  abbrev pub note_written : String → Workspace Disk → Applied Disk
  note_written path w =
      applied (record w { result = record w.result { written = w.result.written ++ path ∷ [] } })

  unfoldable pub delete_at : String → String → Workspace Disk → Applied Disk
  delete_at path abs_path w =
      let removal = changed (os.rm w.disk abs_path) (removed abs_path) w in
      go_on (if os.exists w.disk abs_path then removal else applied w) (note_deleted path)

  unfoldable pub write_at : String → String → Option String → Workspace Disk → Applied Disk
  write_at path abs_path none w = threw (no_content path) w
  write_at path abs_path (some content) w =
      go_on (changed (os.mkdir w.disk (os.dirname abs_path)) (called_mkdir (os.dirname abs_path)) w)
        (λ v.
          go_on (changed (os.write_file v.disk abs_path content) (wrote abs_path) v)
            (note_written path))

  unfoldable pub apply_at : FileEdit → Op → Option String → Workspace Disk → Applied Disk
  unfolding delete_at write_at
  apply_at edit op none w = threw (escapes_workspace edit.path) w
  apply_at edit delete (some abs_path) w = delete_at edit.path abs_path w
  apply_at edit write (some abs_path) w = write_at edit.path abs_path edit.content w

  -- the loop over the edits
  unfoldable pub apply_edits : List FileEdit → Workspace Disk → Applied Disk
  unfolding apply_at resolve_within_work_dir
  apply_edits [] w = applied w
  apply_edits (edit ∷ edits) w =
      go_on (apply_at edit edit.op (resolve_within_work_dir edit.path) w) (apply_edits edits)

  unfoldable pub apply_patch : Patch → Disk → Applied Disk
  unfolding apply_edits
  apply_patch patch disk =
      apply_edits patch.edits
        (record { disk = disk; log = []; result = record { written = []; deleted = [] } })
