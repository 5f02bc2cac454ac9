-- ===== src/Safety/Confinement.antt =====
-- safety/patch.ts: the changes of `applyPatch` stay within the work folder.
use prism_spectra.Common.{
  ◌≡◌, refl, Bool, true, false, List, [], ◌∷◌, Option, none, some, String, if◌then◌else◌, All,
  All-append, subst, some_inj,
}
use prism_spectra.Types.{FileEdit, Patch, Op, write, delete}
use prism_spectra.Adapters.Os.{Io, done, failed}
use prism_spectra.Safety.{
  PatchOs, Change, removed, called_mkdir, wrote, Workspace, Applied, applied, threw, is_within,
  resolve_within_work_dir, go_on, changed, delete_at, write_at, apply_at, apply_edits, apply_patch,
}

module _ {Disk : Type 0} (os : PatchOs Disk) (work_dir : String) where
  -- A file is removed or written within the work folder; `mkdirSync` is called for the folder right above
  -- such a path.
  abbrev pub IsConfined : Change → Type 0
  IsConfined (removed p) = is_within os work_dir p ≡ true
  IsConfined (wrote p) = is_within os work_dir p ≡ true
  IsConfined (called_mkdir p) = (q : String) × (is_within os work_dir q ≡ true) × (p ≡ os.dirname q)

  abbrev pub IsLogged : Applied Disk → Type 0
  IsLogged (applied w) = All IsConfined w.log
  IsLogged (threw e w) = All IsConfined w.log

  go_on-IsLogged :
      (r : Applied Disk) (next : Workspace Disk → Applied Disk)
      → IsLogged r
      → ((w : Workspace Disk) → All IsConfined w.log → IsLogged (next w))
      → IsLogged (go_on os work_dir r next)
  go_on-IsLogged (applied w) next h k = k w h
  go_on-IsLogged (threw e w) next h k = h

  changed-IsLogged :
      (io : Io Disk) (c : Change) (w : Workspace Disk)
      → All IsConfined w.log
      → IsConfined c
      → IsLogged (changed os work_dir io c w)
  changed-IsLogged (done disk) c w h p = All-append IsConfined w.log (c ∷ []) h (p, tt)
  changed-IsLogged (failed f) c w h p = h

  either-IsLogged :
      (b : Bool) (x y : Applied Disk) → IsLogged x → IsLogged y → IsLogged (if b then x else y)
  either-IsLogged true x y h k = h
  either-IsLogged false x y h k = k

  write_at-IsLogged :
      (path abs_path : String) (content : Option String) (w : Workspace Disk)
      → is_within os work_dir abs_path ≡ true
      → All IsConfined w.log
      → IsLogged (write_at os work_dir path abs_path content w)
  unfolding write_at
  write_at-IsLogged path abs_path none w p h = h
  write_at-IsLogged path abs_path (some content) w p h =
      go_on-IsLogged
        (changed os work_dir (os.mkdir w.disk (os.dirname abs_path))
          (called_mkdir (os.dirname abs_path)) w)
        _
        (changed-IsLogged (os.mkdir w.disk (os.dirname abs_path))
          (called_mkdir (os.dirname abs_path)) w h (abs_path, p, refl))
        (λ v k.
          go_on-IsLogged
            (changed os work_dir (os.write_file v.disk abs_path content) (wrote abs_path) v) _
            (changed-IsLogged (os.write_file v.disk abs_path content) (wrote abs_path) v k p)
            (λ u l. l))

  delete_at-IsLogged :
      (path abs_path : String) (w : Workspace Disk)
      → is_within os work_dir abs_path ≡ true
      → All IsConfined w.log
      → IsLogged (delete_at os work_dir path abs_path w)
  unfolding delete_at
  delete_at-IsLogged path abs_path w p h =
      go_on-IsLogged
        (if os.exists w.disk abs_path
          then changed os work_dir (os.rm w.disk abs_path) (removed abs_path) w
          else applied w)
        _
        (either-IsLogged (os.exists w.disk abs_path) _ (applied w)
          (changed-IsLogged (os.rm w.disk abs_path) (removed abs_path) w h p) h)
        (λ u l. l)

  apply_at-IsLogged :
      (edit : FileEdit) (op : Op) (o : Option String) (w : Workspace Disk)
      → ((p : String) → o ≡ some p → is_within os work_dir p ≡ true)
      → All IsConfined w.log
      → IsLogged (apply_at os work_dir edit op o w)
  unfolding apply_at
  apply_at-IsLogged edit op none w within h = h
  apply_at-IsLogged edit delete (some p) w within h =
      delete_at-IsLogged edit.path p w (within p refl) h
  apply_at-IsLogged edit write (some p) w within h =
      write_at-IsLogged edit.path p edit.content w (within p refl) h

  some_if :
      (b : Bool) (x p : String)
      → is_within os work_dir x ≡ b
      → (if b then some x else none) ≡ some p
      → is_within os work_dir p ≡ true
  some_if true x p e h = subst (λ y. is_within os work_dir y ≡ true) (some_inj h) e
  some_if false x p e h = cc

  resolve_within_work_dir-within :
      (relative p : String)
      → resolve_within_work_dir os work_dir relative ≡ some p
      → is_within os work_dir p ≡ true
  unfolding resolve_within_work_dir
  resolve_within_work_dir-within relative p h =
      let x = os.resolve_from work_dir relative in some_if (is_within os work_dir x) x p refl h

  apply_edits-IsLogged :
      (edits : List FileEdit) (w : Workspace Disk)
      → All IsConfined w.log
      → IsLogged (apply_edits os work_dir edits w)
  unfolding apply_edits
  apply_edits-IsLogged [] w h = h
  apply_edits-IsLogged (edit ∷ edits) w h =
      go_on-IsLogged
        (apply_at os work_dir edit edit.op (resolve_within_work_dir os work_dir edit.path) w) _
        (apply_at-IsLogged edit edit.op (resolve_within_work_dir os work_dir edit.path) w
          (resolve_within_work_dir-within edit.path) h)
        (apply_edits-IsLogged edits)

  -- Whatever the patch, and whether `applyPatch` throws or not: it has removed and written only files
  -- whose path is the resolved work folder or starts with it and a separator, and called `mkdirSync`
  -- only on the folder of such a path.
  pub apply_patch-IsLogged :
      (patch : Patch) (disk : Disk) → IsLogged (apply_patch os work_dir patch disk)
  unfolding apply_patch
  apply_patch-IsLogged patch disk =
      apply_edits-IsLogged patch.edits
        (record { disk = disk; log = []; result = record { written = []; deleted = [] } }) tt
