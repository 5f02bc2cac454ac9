-- ===== src/Sidecar/Plans.antt =====
-- What `planLocalFileRoundTrip` looked at before it settled on a plan.
use prism_spectra.Common.{
  ◌≡◌, ◌≢◌, inl, inr, refl, sym, ap, ◌∙◌, subst, Bool, true, false, not, List, [], ◌∷◌, Option,
  none, some, String, if◌then◌else◌, ◌==◌, string_eq, nat_eq, arith, Bool-cases, eq_of_beq,
  ne_of_beq, or_else,
}
use prism_spectra.Common.Text.{trim, is_blank}
use prism_spectra.Common.Json.{Json}
use prism_spectra.Sidecar.{
  Checked, value, threw, PrismSidecar, prism_sidecar_suffix, build_sidecar_path,
  validate_sidecar_shape,
}
use prism_spectra.Sidecar.Planner.{
  Stat, Attempt, got, failed, Filesystem, Parse, parsed, syntax_error, SourceFacts,
  LocalFileRoundTripPlan, is_file_stat, blocked_plan, missing_source_plan, missing_sidecar_plan,
  mismatched_source_plan, stale_plan, stale_reasons, stale_or_ready, caught, shape_reasons,
  parse_message, plan_of_sidecar, plan_of_validation, plan_of_parse, plan_of_text,
  plan_of_sidecar_stat, plan_of_source_hash, plan_of_source_stat, plan_beside,
  plan_local_file_round_trip, error_code,
}
use prism_spectra.Sidecar.Evidence.{
  Describes, IsSource, IsSidecar, IsNotFound, IsOtherError, Blocked, Justified, no_access,
  no_source, no_sidecar, bad_shape, other_source, outdated, settled, source_not_file, source_stat,
  source_hash, sidecar_not_file, sidecar_stat, sidecar_read,
}

module _ (parse : String → Parse) (fs : Filesystem) (source side : String) where
  if-ind :
      (P : LocalFileRoundTripPlan → Type 0) (b : Bool) (p q : LocalFileRoundTripPlan)
      → (b ≡ true → P p)
      → (b ≡ false → P q)
      → P (if b then p else q)
  if-ind P true p q on_true on_false = on_true refl
  if-ind P false p q on_true on_false = on_false refl

  stale_reasons-Describes :
      (s : PrismSidecar) (f : SourceFacts) → stale_reasons s f ≡ [] → Describes s f
  unfolding stale_reasons
  stale_reasons-Describes s f h = elim (Bool-cases (s.sha256 == f.sha256)) [
    | inl e ↦ elim (Bool-cases (s.size_bytes == f.size_bytes)) [
      | inl e' ↦ (eq_of_beq s.sha256 f.sha256 e, eq_of_beq s.size_bytes f.size_bytes e')
      | inr e' ↦ ground (arith, e, e', h)
    ]
    | inr e ↦ ground (arith, e, h)
  ]

  pub Describes-stale_reasons :
      (s : PrismSidecar) (f : SourceFacts) → Describes s f → stale_reasons s f ≡ []
  unfolding stale_reasons
  Describes-stale_reasons s f (h, k) = ground (
    arith,
    (string_eq.beq_iff s.sha256 f.sha256).1 h,
    (nat_eq.beq_iff s.size_bytes f.size_bytes).1 k,
  )

  is_not_found :
      (o : Option String) → (or_else o "" == "file_not_found") ≡ true → o ≡ some "file_not_found"
  is_not_found none h = ground (arith, h)
  is_not_found (some c) h = ap some (eq_of_beq c "file_not_found" h)

  is_other :
      (o : Option String) → (or_else o "" == "file_not_found") ≡ false → o ≢ some "file_not_found"
  is_other o h e =
      let found : (or_else o "" == "file_not_found") ≡ true =
        ap (λ x. or_else x "" == "file_not_found") e in
      cc

  caught-Justified :
      {A : Type 0} (a : Attempt A) (code : Option String) (gone : LocalFileRoundTripPlan)
      (label fallback : String)
      → a ≡ failed code
      → (IsNotFound parse fs source side a → Justified parse fs source side gone)
      → ((rs : List String)
          → IsOtherError parse fs source side a rs label fallback
          → Blocked parse fs source side rs)
      → Justified parse fs source side (caught code gone label fallback source side)
  unfolding trim
  caught-Justified a code gone label fallback e missing blocked =
      if-ind (Justified parse fs source side) (or_else (error_code code) "" == "file_not_found")
        gone (blocked_plan source side (label ∷ or_else (error_code code) fallback ∷ []))
        (λ h. missing (code, e, is_not_found (error_code code) h))
        (λ h. no_access (label ∷ or_else (error_code code) fallback ∷ []) (
          blocked (label ∷ or_else (error_code code) fallback ∷ [])
            (code, e, is_other (error_code code) h, refl)))

  stale_or_ready-Justified :
      (s : PrismSidecar) (f : SourceFacts)
      → IsSource parse fs source side f
      → IsSidecar parse fs source side s
      → s.source_path ≡ source
      → Justified parse fs source side (stale_or_ready s (stale_reasons s f) source side f)
  stale_or_ready-Justified s f here read same = go (stale_reasons s f) refl
    where
      go :
          (rs : List String)
          → rs ≡ stale_reasons s f
          → Justified parse fs source side (stale_or_ready s rs source side f)
      go [] e = settled f s here read same (stale_reasons-Describes s f (sym e))
      go (r ∷ rs) e =
          subst
            (λ (rs' : List String). Justified parse fs source side (stale_plan s rs' source side f))
            (sym e)
            (outdated f s here read same
              (λ d. let e' : r ∷ rs ≡ [] = e ∙ Describes-stale_reasons s f d in cc))

  plan_of_sidecar-Justified :
      (s : PrismSidecar) (f : SourceFacts)
      → IsSource parse fs source side f
      → IsSidecar parse fs source side s
      → Justified parse fs source side (plan_of_sidecar s source side f)
  unfolding plan_of_sidecar
  plan_of_sidecar-Justified s f here read = elim (Bool-cases (s.source_path == source)) [
    | inl e ↦
        subst
          (λ b. Justified parse fs source side (
            if not b
            then mismatched_source_plan s source side f
            else stale_or_ready s (stale_reasons s f) source side f))
          (sym e) (stale_or_ready-Justified s f here read (eq_of_beq s.source_path source e))
    | inr e ↦
        subst
          (λ b. Justified parse fs source side (
            if not b
            then mismatched_source_plan s source side f
            else stale_or_ready s (stale_reasons s f) source side f))
          (sym e) (other_source f s here read (ne_of_beq s.source_path source e))
  ]

  plan_of_parse-Justified :
      (f : SourceFacts) (text : String) (st : Stat)
      → IsSource parse fs source side f
      → fs.stat_path side ≡ got st
      → is_file_stat st ≡ true
      → fs.read_text_file side ≡ got text
      → Justified parse fs source side (plan_of_parse (parse text) source side f)
  unfolding plan_of_parse plan_of_validation
  plan_of_parse-Justified f text st here at file read = go (parse text) refl
    where
      shaped :
          (v : Json)
          → parse text ≡ parsed v
          → (o : Option PrismSidecar) → (validate_sidecar_shape v).sidecar ≡ o
          → (b : Bool) → (validate_sidecar_shape v).ok ≡ b
          → Justified parse fs source side (
              plan_of_validation
                (record { ok = b; sidecar = o; issues = (validate_sidecar_shape v).issues })
                source
                side
                f)
      shaped v e none e' b k =
          bad_shape f (shape_reasons (validate_sidecar_shape v).issues) here
            (text, (st, at, file), read, inr (v, e, inr e', refl))
      shaped v e (some s) e' false k =
          bad_shape f (shape_reasons (validate_sidecar_shape v).issues) here
            (text, (st, at, file), read, inr (v, e, inl k, refl))
      shaped v e (some s) e' true k =
          plan_of_sidecar-Justified s f here (st, text, v, at, file, read, e, k, e')

      go :
          (p : Parse)
          → parse text ≡ p
          → Justified parse fs source side (plan_of_parse p source side f)
      go (syntax_error m) e =
          bad_shape f ("sidecar_json_malformed" ∷ parse_message m ∷ []) here
            (text, (st, at, file), read, inl (m, e, refl))
      go (parsed v) e =
          shaped v e (validate_sidecar_shape v).sidecar refl (validate_sidecar_shape v).ok refl

  plan_of_sidecar_stat-Justified :
      (f : SourceFacts)
      → IsSource parse fs source side f
      → Justified parse fs source side
          (plan_of_sidecar_stat parse fs (fs.stat_path side) source side f)
  unfolding plan_of_sidecar_stat trim
  plan_of_sidecar_stat-Justified f here = go (fs.stat_path side) refl
    where
      text :
          (st : Stat)
          → fs.stat_path side ≡ got st
          → is_file_stat st ≡ true
          → (a : Attempt String) → fs.read_text_file side ≡ a
          → Justified parse fs source side (plan_of_text parse fs a source side f)
      text st at file (failed code) e =
          caught-Justified (fs.read_text_file side) code (missing_sidecar_plan source side f) _ _ e
            (λ gone. no_sidecar f here (inr ((st, at, file), gone)))
            (λ rs other. sidecar_read f rs here (st, at, file) other)
      text st at file (got t) e = plan_of_parse-Justified f t st here at file e

      go :
          (a : Attempt Stat)
          → fs.stat_path side ≡ a
          → Justified parse fs source side (plan_of_sidecar_stat parse fs a source side f)
      go (failed code) e =
          caught-Justified (fs.stat_path side) code (missing_sidecar_plan source side f) _ _ e
            (λ gone. no_sidecar f here (inl gone)) (λ rs other. sidecar_stat f rs here other)
      go (got st) e =
          if-ind (Justified parse fs source side) (not (is_file_stat st))
            (blocked_plan source side ("sidecar_not_file" ∷ []))
            (plan_of_text parse fs (fs.read_text_file side) source side f)
            (λ other.
              no_access ("sidecar_not_file" ∷ [])
                (sidecar_not_file f here (st, e, ground (arith, other))))
            (λ file. text st e (ground (arith, file)) (fs.read_text_file side) refl)

  plan_of_source_stat-Justified :
      Justified parse fs source side
        (plan_of_source_stat parse fs (fs.stat_path source) source side)
  unfolding plan_of_source_stat trim
  plan_of_source_stat-Justified = go (fs.stat_path source) refl
    where
      hash :
          (st : Stat)
          → fs.stat_path source ≡ got st
          → is_file_stat st ≡ true
          → (a : Attempt String) → fs.compute_sha256 source ≡ a
          → Justified parse fs source side (plan_of_source_hash parse fs a st source side)
      hash st at file (failed code) e =
          caught-Justified (fs.compute_sha256 source) code (missing_source_plan source side) _ _ e
            (λ gone. no_source (inr ((st, at, file), gone)))
            (λ rs other. source_hash rs (st, at, file) other)
      hash st at file (got sha) e =
          plan_of_sidecar_stat-Justified (record { size_bytes = st.size; sha256 = sha })
            (st, at, file, refl, e)

      go :
          (a : Attempt Stat)
          → fs.stat_path source ≡ a
          → Justified parse fs source side (plan_of_source_stat parse fs a source side)
      go (failed code) e =
          caught-Justified (fs.stat_path source) code (missing_source_plan source side) _ _ e
            (λ gone. no_source (inl gone)) (λ rs other. source_stat rs other)
      go (got st) e =
          if-ind (Justified parse fs source side) (not (is_file_stat st))
            (blocked_plan source side ("source_not_file" ∷ []))
            (plan_of_source_hash parse fs (fs.compute_sha256 source) st source side)
            (λ other.
              no_access ("source_not_file" ∷ []) (source_not_file (st, e, ground (arith, other))))
            (λ file. hash st e (ground (arith, file)) (fs.compute_sha256 source) refl)

pub value_inj : {A : Type 0} {a b : A} → value a ≡ value b → a ≡ b
value_inj h = cc

-- A plan that is returned has the paths of the request, the source's trimmed and the sidecar's the
-- one beside it, and rests on what the file system showed: a creation on a source that is there and a
-- sidecar that is not found, an update on a readable sidecar of this source with another hash or
-- size, readiness on one with the hash and size of the source, a review on a sidecar of another
-- source, or on one that is no JSON or of no valid shape; a missing source on one that is not found,
-- and a blocked plan on a path that is no file or on an error other than that of a missing file.
pub plan_local_file_round_trip-Justified :
    (parse : String → Parse) (fs : Filesystem) (source : String) (suffix : Option String)
    (plan : LocalFileRoundTripPlan)
    → plan_local_file_round_trip parse fs source suffix ≡ value plan
    → (side : String) × (build_sidecar_path (trim source) (or_else suffix prism_sidecar_suffix)
        ≡ value side)
      × (is_blank (trim source) ≡ false)
      × Justified parse fs (trim source) side plan
unfolding plan_local_file_round_trip
plan_local_file_round_trip-Justified parse fs source suffix plan h =
    elim (Bool-cases (is_blank (trim source))) [
      | inl e ↦ ground (arith, e, h)
      | inr e ↦
          go (build_sidecar_path (trim source) (or_else suffix prism_sidecar_suffix)) refl
            (ap
                (λ b.
                  if b
                  then threw "planLocalFileRoundTrip requires sourcePath."
                  else plan_beside parse fs (trim source)
                      (build_sidecar_path (trim source) (or_else suffix prism_sidecar_suffix)))
                (sym e)
              ∙ h)
            e
    ]
  where
    go :
        (c : Checked String)
        → build_sidecar_path (trim source) (or_else suffix prism_sidecar_suffix) ≡ c
        → plan_beside parse fs (trim source) c ≡ value plan
        → is_blank (trim source) ≡ false
        → (side : String) × (build_sidecar_path (trim source) (or_else suffix prism_sidecar_suffix)
            ≡ value side)
          × (is_blank (trim source) ≡ false)
          × Justified parse fs (trim source) side plan
    go (threw m) e k blank = cc
    go (value side) e k blank = (
      side,
      e,
      blank,
      subst (Justified parse fs (trim source) side) (value_inj k)
          (plan_of_source_stat-Justified parse fs (trim source) side),
    )
