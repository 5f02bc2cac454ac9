-- ===== src/Sidecar/Writes.antt =====
-- What `executeSidecarWritePlan` asks of the file system adapter.
use prism_spectra.Common.{
  ◌≡◌, ◌⊎◌, inl, inr, refl, sym, ap, ◌∙◌, subst, Bool, true, false, not, List, [], ◌∷◌, Option,
  none, some, String, if◌then◌else◌, ◌==◌, string_eq, arith, Bool-cases, eq_of_beq, All, In,
  In_of_All,
}
use prism_spectra.Common.Text.{trim, is_blank}
use prism_spectra.Common.Json.{Json}
use prism_spectra.Sidecar.{
  Checked, value, threw, PrismSidecar, prism_sidecar_suffix, build_sidecar_path,
  validate_sidecar_shape, update_sidecar_hash_fields, blank,
}
use prism_spectra.Sidecar.Recommend.{HashPatch}
use prism_spectra.Sidecar.WritePlan.{SidecarWritePlan, WritePlanStatus, WriteOperation}
use prism_spectra.Sidecar.Execute.{
  Action, read_json_file, write_json_file, AdapterReply, Answer, answered, raised, Run, is_approved,
  Verified, passes, refuses, throws, if_adjacent, verify_adjacent, verify_patch,
  validate_update_patch, verify_content, verify_draft, validate_planned_create, after_write,
  write_draft, execute_create_sidecar_write, update_current, update_of_data, after_read,
  update_with, execute_update_sidecar_write, execute_by_status, execute_planned,
  execute_sidecar_write_plan, SidecarWriteExecutionResult, no_action,
}

passes_inj : {A : Type 0} {a b : A} → passes a ≡ passes b → a ≡ b
passes_inj h = cc

-- the current sidecar with the hash fields of a patch
abbrev pub patched : PrismSidecar → HashPatch → PrismSidecar
patched s patch = record s {
  sha256 = patch.sha256;
  size_bytes = patch.size_bytes;
  updated_at = patch.updated_at;
}

-- A guard that refuses has let through what passes.
if-refuses :
    {A : Type 0} (b : Bool) (reason warning : String) (rest : Verified A) (a : A)
    → (if b then refuses reason warning else rest) ≡ passes a
    → rest ≡ passes a
if-refuses true reason warning rest a h = cc
if-refuses false reason warning rest a h = h

module _ (adapter : Action → Answer) (plan : SidecarWritePlan) where
  -- The path of the plan is the one beside its source.
  abbrev pub IsBeside : Type 0
  IsBeside = build_sidecar_path plan.source_path prism_sidecar_suffix ≡ value plan.sidecar_path

  -- The adapter's reading of the plan's path succeeded, and its data is this sidecar, well shaped and
  -- of the plan's source.
  abbrev pub IsCurrent : PrismSidecar → Type 0
  IsCurrent current =
      (r : AdapterReply) × (v : Json) × (adapter (read_json_file plan.sidecar_path) ≡ answered r)
      × (r.success ≡ true)
      × (r.data_read ≡ some v)
      × ((validate_sidecar_shape v).ok ≡ true)
      × ((validate_sidecar_shape v).sidecar ≡ some current)
      × (current.source_path ≡ plan.source_path)

  -- The new sidecar is the planned draft, or the current one with the planned hash fields.
  abbrev pub IsPlanned : PrismSidecar → Type 0
  IsPlanned s =
      ((plan.operation ≡ WriteOperation.create_sidecar) × (plan.json ≡ some s))
      ⊎ ((current : PrismSidecar) × (patch : HashPatch) × (plan.operation
            ≡ WriteOperation.update_sidecar)
          × (plan.patch ≡ some patch)
          × IsCurrent current
          × (s ≡ patched current patch))

  -- What the adapter may be asked for
  abbrev pub Allowed : Action → Type 0
  Allowed (read_json_file p) = p ≡ plan.sidecar_path
  Allowed (write_json_file p s) = (p ≡ plan.sidecar_path) × IsBeside × IsPlanned s

  All-if :
      (b : Bool) (x y : Run)
      → (b ≡ true → All Allowed x.actions)
      → (b ≡ false → All Allowed y.actions)
      → All Allowed (if b then x else y).actions
  All-if true x y on_true on_false = on_true refl
  All-if false x y on_true on_false = on_false refl

  All-both : {P : Type 0} (xs : List Action) → P → All Allowed xs → All (λ a. P × Allowed a) xs
  All-both [] p h = tt
  All-both (x ∷ xs) p (h, hs) = ((p, h), All-both xs p hs)

  approved_only :
      (approval : Option Bool) (r : SidecarWriteExecutionResult) (run : Run)
      → All Allowed run.actions
      → All
          (λ a. (is_approved approval ≡ true) × Allowed a)
          (if not (is_approved approval) then no_action r else run).actions
  approved_only none r run h = tt
  approved_only (some false) r run h = tt
  approved_only (some true) r run h = All-both run.actions refl h

  if_adjacent-passes :
      {A : Type 0} (a b : A) (warning : String) (c : Checked String)
      → build_sidecar_path plan.source_path prism_sidecar_suffix ≡ c
      → if_adjacent plan a warning c ≡ passes b
      → (a ≡ b) × IsBeside
  if_adjacent-passes a b warning (threw m) e h = cc
  if_adjacent-passes a b warning (value path) e h = elim (Bool-cases (plan.sidecar_path == path)) [
    | inl q ↦ (
      passes_inj
          (ap (λ x. if x then passes a else refuses "sidecar_path_mismatch" warning) (sym q) ∙ h),
      e ∙ ap value (sym (eq_of_beq plan.sidecar_path path q)),
    )
    | inr q ↦
        let wrong : refuses "sidecar_path_mismatch" warning ≡ passes b =
          ap (λ x. if x then passes a else refuses "sidecar_path_mismatch" warning) (sym q) ∙ h in
        cc
  ]

  verify_adjacent-passes :
      {A : Type 0} (a b : A) (warning : String)
      → verify_adjacent plan a warning ≡ passes b
      → (a ≡ b) × IsBeside
  unfolding verify_adjacent
  verify_adjacent-passes a b warning h =
      if_adjacent-passes a b warning (build_sidecar_path plan.source_path prism_sidecar_suffix) refl
        h

  validate_planned_create-passes :
      (stringify : PrismSidecar → String) (json : PrismSidecar)
      → validate_planned_create stringify plan ≡ passes json
      → (plan.json ≡ some json) × IsBeside
  unfolding validate_planned_create
  validate_planned_create-passes stringify json h = draft plan.json refl h
    where
      content :
          (j : PrismSidecar) (o : Option String)
          → verify_content stringify plan j o ≡ passes json
          → (j ≡ json) × IsBeside
      content j none h = cc
      content j (some t) h =
          verify_adjacent-passes j json _
            (if-refuses _ _ _ _ json (if-refuses (is_blank t) _ _ _ json h))

      draft :
          (o : Option PrismSidecar)
          → plan.json ≡ o
          → verify_draft stringify plan o ≡ passes json
          → (plan.json ≡ some json) × IsBeside
      draft none e h = cc
      draft (some j) e h =
          let (same, beside) = content j plan.content h in (e ∙ ap some same, beside)

  validate_update_patch-passes :
      (patch : HashPatch)
      → validate_update_patch plan ≡ passes patch
      → (plan.patch ≡ some patch) × IsBeside
  unfolding validate_update_patch trim
  validate_update_patch-passes patch h = go plan.patch refl h
    where
      go :
          (o : Option HashPatch)
          → plan.patch ≡ o
          → verify_patch plan o ≡ passes patch
          → (plan.patch ≡ some patch) × IsBeside
      go none e h = cc
      go (some q) e h =
          let (same, beside) = verify_adjacent-passes q patch _ (
            if-refuses (blank q.updated_at) _ _ _ patch
              (if-refuses (blank q.sha256) _ _ _ patch h)) in
          (e ∙ ap some same, beside)

  after_write-actions :
      (operation : WriteOperation) (fallback : String) (actions : List Action) (a : Answer)
      → (after_write plan operation fallback actions a).actions ≡ actions
  after_write-actions operation fallback actions (raised m) = refl
  after_write-actions operation fallback actions (answered r) = refl

  -- One write of the planned draft
  write_draft-Allowed :
      (c : Verified PrismSidecar)
      → plan.operation ≡ WriteOperation.create_sidecar
      → ((s : PrismSidecar) → c ≡ passes s → (plan.json ≡ some s) × IsBeside)
      → All Allowed (write_draft adapter plan c).actions
  write_draft-Allowed (throws m) op h = tt
  write_draft-Allowed (refuses reason warning) op h = tt
  write_draft-Allowed (passes s) op h =
      let (json, beside) = h s refl in
      subst (All Allowed)
        (sym (
          after_write-actions WriteOperation.create_sidecar _ _
            (adapter (write_json_file plan.sidecar_path s))))
        ((refl, beside, inl (op, json)), tt)

  -- A read, and one write of what was read with new hash fields
  update_current-Allowed :
      (patch : HashPatch) (ok : Bool) (o : Option PrismSidecar) (issues : List String)
      → plan.operation ≡ WriteOperation.update_sidecar
      → plan.patch ≡ some patch
      → IsBeside
      → ((current : PrismSidecar)
          → ok ≡ true
          → o ≡ some current
          → current.source_path ≡ plan.source_path
          → IsCurrent current)
      → All Allowed (update_current adapter plan patch ok o issues).actions
  unfolding update_sidecar_hash_fields
  update_current-Allowed patch false o issues op has beside h = (refl, tt)
  update_current-Allowed patch true none issues op has beside h = (refl, tt)
  update_current-Allowed patch true (some current) issues op has beside h =
      All-if (not (current.source_path == plan.source_path)) _ _ (λ _. (refl, tt))
        (λ q.
          let same = eq_of_beq current.source_path plan.source_path (ground (arith, q)) in
          subst (All Allowed)
            (sym (
              after_write-actions WriteOperation.update_sidecar _ _
                (adapter (write_json_file plan.sidecar_path (patched current patch)))))
            (
              refl,
              ((refl, beside, inr (current, patch, op, has, h current refl refl same, refl)), tt),
            ))

  after_read-Allowed :
      (patch : HashPatch) (a : Answer)
      → adapter (read_json_file plan.sidecar_path) ≡ a
      → plan.operation ≡ WriteOperation.update_sidecar
      → plan.patch ≡ some patch
      → IsBeside
      → All Allowed (after_read adapter plan patch a).actions
  unfolding validate_sidecar_shape
  after_read-Allowed patch (raised m) e op has beside = (refl, tt)
  after_read-Allowed patch (answered r) e op has beside = go r.success r.data_read refl refl
    where
      with_data :
          (o : Option Json)
          → r.success ≡ true
          → r.data_read ≡ o
          → All Allowed (update_of_data adapter plan patch r o).actions
      with_data none done has_data = (refl, tt)
      with_data (some v) done has_data =
          let c = validate_sidecar_shape v in
          update_current-Allowed patch c.ok c.sidecar c.issues op has beside
            (λ current shaped found same. (r, v, e, done, has_data, shaped, found, same))

      go :
          (b : Bool) (o : Option Json)
          → r.success ≡ b
          → r.data_read ≡ o
          → All Allowed (update_of_data adapter plan patch r (if b then o else none)).actions
      go true o done has_data = with_data o done has_data
      go false o done has_data = (refl, tt)

  update_with-Allowed :
      (c : Verified HashPatch)
      → plan.operation ≡ WriteOperation.update_sidecar
      → ((patch : HashPatch) → c ≡ passes patch → (plan.patch ≡ some patch) × IsBeside)
      → All Allowed (update_with adapter plan c).actions
  update_with-Allowed (throws m) op h = tt
  update_with-Allowed (refuses reason warning) op h = tt
  update_with-Allowed (passes patch) op h =
      let (has, beside) = h patch refl in
      after_read-Allowed patch (adapter (read_json_file plan.sidecar_path)) refl op has beside

  execute_planned-Allowed :
      (stringify : PrismSidecar → String) (approval : Option Bool) (operation : WriteOperation)
      → plan.operation ≡ operation
      → All
          (λ a. (is_approved approval ≡ true) × Allowed a)
          (execute_planned adapter stringify plan approval operation).actions
  unfolding execute_create_sidecar_write execute_update_sidecar_write validate_sidecar_shape
  execute_planned-Allowed stringify approval WriteOperation.nothing e = tt
  execute_planned-Allowed stringify approval WriteOperation.create_sidecar e =
      approved_only approval _ (write_draft adapter plan (validate_planned_create stringify plan)) (
        write_draft-Allowed (validate_planned_create stringify plan) e
          (validate_planned_create-passes stringify))
  execute_planned-Allowed stringify approval WriteOperation.update_sidecar e =
      approved_only approval _ (update_with adapter plan (validate_update_patch plan))
        (update_with-Allowed (validate_update_patch plan) e validate_update_patch-passes)

-- The adapter is asked only for an approved, planned write: to read the sidecar of the plan, and to
-- write at its path, which is the one beside the source, either the planned draft, or the sidecar that
-- was read there, of the same source, with the planned hash, size and time and no other change.
pub execute_sidecar_write_plan-Allowed :
    (adapter : Action → Answer) (stringify : PrismSidecar → String) (plan : SidecarWritePlan)
    (approval : Option Bool) (a : Action)
    → In a (execute_sidecar_write_plan adapter stringify plan approval).actions
    → (plan.status ≡ WritePlanStatus.planned)
      × (is_approved approval ≡ true)
      × Allowed adapter plan a
unfolding execute_sidecar_write_plan execute_create_sidecar_write execute_update_sidecar_write
execute_sidecar_write_plan-Allowed adapter stringify plan approval a m = go plan.status refl m
  where
    go :
        (s : WritePlanStatus)
        → plan.status ≡ s
        → In a (execute_by_status adapter stringify plan approval s).actions
        → (plan.status ≡ WritePlanStatus.planned)
          × (is_approved approval ≡ true)
          × Allowed adapter plan a
    go WritePlanStatus.not_applicable e m = elim m [ ]
    go WritePlanStatus.blocked e m = elim m [ ]
    go WritePlanStatus.planned e m =
        let (approved, allowed) =
          In_of_All (λ x. (is_approved approval ≡ true) × Allowed adapter plan x) _ a
            (execute_planned-Allowed adapter plan stringify approval plan.operation refl) m in
        (e, approved, allowed)
