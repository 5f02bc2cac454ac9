-- ===== src/Adapters/PathGuard/Writable.antt =====
-- adapters/filesystemPathGuard.ts: what holds of a path that `validateWritablePath` or
-- `validateReadablePath` returns.
use prism_spectra.Common.{
  ◌≡◌, ◌⊎◌, refl, sym, ap, ◌∙◌, inl, inr, Bool, true, false, not, Option, none, some, String, ◌==◌,
  string_eq, eq_of_beq,
}
use prism_spectra.Adapters.Os.{
  Os, Io, Stats, done, failed, Thrown, Attempt, ok, throw, ◌>>=◌, throw_if, awaited, some_or_throw,
}
use prism_spectra.Adapters.PathText.{has_traversal_segments}
use prism_spectra.Adapters.PathGuard.{
  PathGuard, ReadablePath, WritablePath, ExpectedKind, realpath_if_exists,
  nearest_existing_ancestor, resolve_target_path, resolved_root_for_path, validate_traversal,
  validate_readable_path, validate_writable_path, check_existing, check_parent, assert_kind,
  root_or_throw, symlink_error, missing_error, about_path,
}

pub >>=-ok :
    {A B : Type 0} (first : Attempt A) (next : A → Attempt B) (b : B)
    → (first >>= next) ≡ ok b
    → (a : A) × (first ≡ ok a) × (next a ≡ ok b)
>>=-ok (ok a) next b h = (a, refl, h)
>>=-ok (throw e) next b h = cc

pub throw_if-ok : (b : Bool) (e : Thrown) (u : Unit) → throw_if b e ≡ ok u → b ≡ false
throw_if-ok true e u h = cc
throw_if-ok false e u h = refl

pub some_or_throw-ok :
    {A : Type 0} (o : Option A) (e : Thrown) (a : A) → some_or_throw o e ≡ ok a → o ≡ some a
some_or_throw-ok none e a h = cc
some_or_throw-ok (some x) e a h = cc

pub awaited-ok : {A : Type 0} (io : Io A) (a : A) → awaited io ≡ ok a → io ≡ done a
awaited-ok (done x) a h = cc
awaited-ok (failed f) a h = cc

not-false : (b : Bool) → not b ≡ false → b ≡ true
not-false true h = refl
not-false false h = cc

abbrev resolved_of : Attempt ReadablePath → String
resolved_of (ok r) = r.resolved_path
resolved_of (throw e) = ""

module _ {Disk Bytes : Type 0} (os : Os Disk Bytes) where
  -- On this disk, nothing that exists above the path is a symbolic link, as far as `realpath` tells,
  -- and the nearest folder that exists stands in an allowed root.
  pub record IsAnchored (g : PathGuard) (disk : Disk) (path : String) : Type 0 where
    pub ancestor : String
    pub nearest : nearest_existing_ancestor os disk path ≡ some ancestor
    pub no_link : realpath_if_exists os disk ancestor ≡ some ancestor
    pub root : String
    pub inside : resolved_root_for_path os ancestor g.allowed_roots ≡ some root
    pub stats : Stats
    pub stat : os.stat disk ancestor ≡ done stats
    pub is_folder : stats.is_directory ≡ true

  -- A path that may be written on this disk: it comes from an input without ".." segments, stands in
  -- an allowed root, is no symbolic link, and its folder is anchored.
  pub record IsWritable (g : PathGuard) (disk : Disk) (path : String) : Type 0 where
    pub input : String
    pub no_traversal : has_traversal_segments input ≡ false
    pub resolved : resolve_target_path os g.base_dir input ≡ path
    pub root : String
    pub inside : resolved_root_for_path os path g.allowed_roots ≡ some root
    pub no_link :
        (realpath_if_exists os disk path ≡ none) ⊎ (realpath_if_exists os disk path ≡ some path)
    pub parent : IsAnchored g disk (os.dirname path)

  check_existing-ok :
      (g : PathGuard) (disk : Disk) (o : Option String) (path action_id : String) (k : ExpectedKind)
      (u : Unit)
      → check_existing os g disk o path action_id k ≡ ok u
      → (o ≡ none) ⊎ (o ≡ some path)
  unfolding check_existing
  check_existing-ok g disk none path action_id k u h = inl refl
  check_existing-ok g disk (some p) path action_id k u h =
      let (_, h1, _) =
        >>=-ok (throw_if (not (p == path)) (symlink_error os g action_id path)) _ u h in
      inr
        (ap some (eq_of_beq p path (not-false (p == path) (throw_if-ok (not (p == path)) _ _ h1))))

  root_or_throw-ok :
      (g : PathGuard) (action_id path message root : String)
      → root_or_throw os g action_id path message ≡ ok root
      → resolved_root_for_path os path g.allowed_roots ≡ some root
  unfolding root_or_throw
  root_or_throw-ok g action_id path message root h = some_or_throw-ok _ _ root h

  check_parent-ok :
      (g : PathGuard) (disk : Disk) (path action_id : String) (p : String)
      → check_parent os g disk path action_id ≡ ok p
      → IsAnchored g disk path
  unfolding check_parent
  check_parent-ok g disk path action_id p h =
      let missing = missing_error os g action_id path in
      let (a, h1, k1) =
        >>=-ok (some_or_throw (nearest_existing_ancestor os disk path) missing) _ p h in
      let (r, h2, k2) = >>=-ok (some_or_throw (realpath_if_exists os disk a) missing) _ p k1 in
      let (_, h3, k3) =
        >>=-ok (throw_if (not (r == a)) (symlink_error os g action_id path)) _ p k2 in
      let outside = about_path os "Path " path " resolves outside the allowed roots." in
      let (root, h4, k4) = >>=-ok (root_or_throw os g action_id r outside) _ p k3 in
      let (stats, h5, k5) = >>=-ok (awaited (os.stat disk r)) _ p k4 in
      let (_, h6, _) = >>=-ok (throw_if (not stats.is_directory) _) _ p k5 in
      let r_is_a = eq_of_beq r a (not-false (r == a) (throw_if-ok (not (r == a)) _ _ h3)) in
      record {
        ancestor = a;
        nearest = some_or_throw-ok (nearest_existing_ancestor os disk path) missing a h1;
        no_link = some_or_throw-ok (realpath_if_exists os disk a) missing r h2 ∙ ap some r_is_a;
        root = root;
        inside =
            ap (λ x. resolved_root_for_path os x g.allowed_roots) (sym r_is_a)
            ∙ root_or_throw-ok g action_id r outside root h4;
        stats = stats;
        stat = ap (os.stat disk) (sym r_is_a) ∙ awaited-ok (os.stat disk r) stats h5;
        is_folder = not-false stats.is_directory (throw_if-ok (not stats.is_directory) _ _ h6);
      }

  -- What `validateWritablePath` returns may be written.
  pub validate_writable_path-IsWritable :
      (g : PathGuard) (disk : Disk) (input action_id : String) (k : ExpectedKind) (w : WritablePath)
      → validate_writable_path os g disk input action_id k ≡ ok w
      → IsWritable g disk (resolve_target_path os g.base_dir input)
  unfolding validate_writable_path validate_traversal
  validate_writable_path-IsWritable g disk input action_id k w h =
      let path = resolve_target_path os g.base_dir input in
      let (_, h1, k1) = >>=-ok (validate_traversal os g input action_id) _ w h in
      let outside = about_path os "Path " path " is outside the allowed roots." in
      let (root, h2, k2) = >>=-ok (root_or_throw os g action_id path outside) _ w k1 in
      let (u, h3, k3) =
        >>=-ok (check_existing os g disk (realpath_if_exists os disk path) path action_id k) _ w
          k2 in
      let (p, h4, _) = >>=-ok (check_parent os g disk (os.dirname path) action_id) _ w k3 in
      record {
        input = input;
        no_traversal = throw_if-ok (has_traversal_segments input) _ _ h1;
        resolved = refl;
        root = root;
        inside = root_or_throw-ok g action_id path outside root h2;
        no_link = check_existing-ok g disk (realpath_if_exists os disk path) path action_id k u h3;
        parent = check_parent-ok g disk (os.dirname path) action_id p h4;
      }

  -- A path that may be read on this disk.
  pub record IsReadable (g : PathGuard) (disk : Disk) (path : String) : Type 0 where
    pub input : String
    pub no_traversal : has_traversal_segments input ≡ false
    pub resolved : resolve_target_path os g.base_dir input ≡ path
    pub root : String
    pub inside : resolved_root_for_path os path g.allowed_roots ≡ some root
    pub no_link : realpath_if_exists os disk path ≡ some path

  -- What `validateReadablePath` returns may be read, and is its own real path.
  pub validate_readable_path-IsReadable :
      (g : PathGuard) (disk : Disk) (input action_id : String) (k : ExpectedKind) (r : ReadablePath)
      → validate_readable_path os g disk input action_id k ≡ ok r
      → (r.resolved_path ≡ resolve_target_path os g.base_dir input)
        × IsReadable g disk (resolve_target_path os g.base_dir input)
  unfolding validate_readable_path validate_traversal
  validate_readable_path-IsReadable g disk input action_id k r h =
      let path = resolve_target_path os g.base_dir input in
      let (_, h1, k1) = >>=-ok (validate_traversal os g input action_id) _ r h in
      let outside = about_path os "Path " path " is outside the allowed roots." in
      let (root, h2, k2) = >>=-ok (root_or_throw os g action_id path outside) _ r k1 in
      let missing = missing_error os g action_id path in
      let (p, h3, k3) = >>=-ok (some_or_throw (realpath_if_exists os disk path) missing) _ r k2 in
      let (_, h4, k4) =
        >>=-ok (throw_if (not (p == path)) (symlink_error os g action_id path)) _ r k3 in
      let elsewhere = about_path os "Path " path " resolves outside the allowed roots." in
      let (_, h5, k5) = >>=-ok (root_or_throw os g action_id p elsewhere) _ r k4 in
      let (_, h6, k6) = >>=-ok (assert_kind os g disk p k action_id path) _ r k5 in
      let same = eq_of_beq p path (not-false (p == path) (throw_if-ok (not (p == path)) _ _ h4)) in
      (
        ap resolved_of (sym k6) ∙ same,
        record {
          input = input;
          no_traversal = throw_if-ok (has_traversal_segments input) _ _ h1;
          resolved = refl;
          root = root;
          inside = root_or_throw-ok g action_id path outside root h2;
          no_link = some_or_throw-ok (realpath_if_exists os disk path) missing p h3 ∙ ap some same;
        },
      )
