-- ===== src/Examples/Patches.antt =====
-- A patch on a toy file system, a list of the paths it holds.
use prism_spectra.Common.{◌≡◌, refl, true, List, [], ◌∷◌, none, some, String, if◌then◌else◌}
use prism_spectra.Common.Text.Prefix.{starts_with}
use prism_spectra.Types.{Patch, write, delete}
use prism_spectra.Adapters.Os.{done}
use prism_spectra.Safety.{
  PatchOs, removed, called_mkdir, wrote, threw, escapes_workspace, resolve_within_work_dir,
  apply_patch,
}
use prism_spectra.Safety.Confinement.{IsLogged, apply_patch-IsLogged}
use Prim.Native.String

abbrev toy : PatchOs (List String)
unfolding starts_with
toy = record {
  resolve = λ p. p;
  resolve_from = λ p q. if starts_with ".." q then q else String.◌++◌ p (String.◌++◌ "/" q);
  sep = "/";
  dirname = λ p. "/w";
  exists = λ disk p. true;
  rm = λ disk p. done [];
  mkdir = λ disk p. done disk;
  write_file = λ disk p content. done (p ∷ disk);
}

abbrev patch : Patch
patch = record {
  edits =
      record { path = "a"; op = write; content = some "1" }
      ∷ record { path = "b"; op = delete; content = none }
      ∷ record { path = "../c"; op = write; content = some "2" }
      ∷ [];
}

escaping_path_throws : resolve_within_work_dir toy "/w" "../c" ≡ none
unfolding resolve_within_work_dir
escaping_path_throws = refl

edits_before_it_stay :
    apply_patch toy "/w" patch []
    ≡ threw (escapes_workspace "../c") (record {
      disk = [];
      log = called_mkdir "/w" ∷ wrote "/w/a" ∷ removed "/w/b" ∷ [];
      result = record { written = "a" ∷ []; deleted = "b" ∷ [] };
    })
unfolding apply_patch
edits_before_it_stay = refl

apply_patch-IsLogged_example : IsLogged toy "/w" (apply_patch toy "/w" patch [])
apply_patch-IsLogged_example = apply_patch-IsLogged toy "/w" patch []
