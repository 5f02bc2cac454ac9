-- ===== src/Sidecar/Evidence.antt =====
-- What the file system may have shown to `planLocalFileRoundTrip` where it settles on a plan.
use prism_spectra.Common.{
  ◌≡◌, ◌≢◌, ◌⊎◌, true, false, List, [], ◌∷◌, Option, none, some, String, string_eq, nat_eq, or_else,
}
use prism_spectra.Common.Json.{Json}
use prism_spectra.Sidecar.{PrismSidecar, validate_sidecar_shape}
use prism_spectra.Sidecar.Planner.{
  Stat, Attempt, got, failed, Filesystem, Parse, parsed, syntax_error, SourceFacts,
  LocalFileRoundTripPlan, is_file_stat, blocked_plan, missing_source_plan, missing_sidecar_plan,
  malformed_plan, mismatched_source_plan, stale_plan, ready_plan, stale_reasons, shape_reasons,
  parse_message, error_code,
}

-- The sidecar describes a source with these facts.
abbrev pub Describes : PrismSidecar → SourceFacts → Type 0
Describes s f = (s.sha256 ≡ f.sha256) × (s.size_bytes ≡ f.size_bytes)

module _ (parse : String → Parse) (fs : Filesystem) (source side : String) where
  -- The source is a file with these facts.
  abbrev pub IsSource : SourceFacts → Type 0
  IsSource f =
      (st : Stat) × (fs.stat_path source ≡ got st)
      × (is_file_stat st ≡ true)
      × (st.size ≡ f.size_bytes)
      × (fs.compute_sha256 source ≡ got f.sha256)

  -- The sidecar is a file whose text is this well-shaped sidecar.
  abbrev pub IsSidecar : PrismSidecar → Type 0
  IsSidecar s =
      (st : Stat) × (text : String) × (v : Json) × (fs.stat_path side ≡ got st)
      × (is_file_stat st ≡ true)
      × (fs.read_text_file side ≡ got text)
      × (parse text ≡ parsed v)
      × ((validate_sidecar_shape v).ok ≡ true)
      × ((validate_sidecar_shape v).sidecar ≡ some s)

  -- An error with the code of a missing file, and an error that is any other
  abbrev pub IsNotFound : {A : Type 0} → Attempt A → Type 0
  IsNotFound {A} a =
      (code : Option String) × (a ≡ failed code) × (error_code code ≡ some "file_not_found")

  abbrev pub IsOtherError : {A : Type 0} → Attempt A → List String → String → String → Type 0
  IsOtherError {A} a rs label fallback =
      (code : Option String) × (a ≡ failed code)
      × (error_code code ≢ some "file_not_found")
      × (rs ≡ label ∷ or_else (error_code code) fallback ∷ [])

  abbrev pub IsFile : String → Type 0
  IsFile path = (st : Stat) × (fs.stat_path path ≡ got st) × (is_file_stat st ≡ true)

  abbrev pub IsNoFile : String → Type 0
  IsNoFile path = (st : Stat) × (fs.stat_path path ≡ got st) × (is_file_stat st ≡ false)

  -- The sidecar is a file whose text is no JSON, or has not the shape of a sidecar; with the reasons
  -- that the plan gives.
  abbrev pub IsMalformed : List String → Type 0
  IsMalformed rs =
      (text : String) × IsFile side
      × (fs.read_text_file side ≡ got text)
      × (((m : String) × (parse text ≡ syntax_error m)
            × (rs ≡ "sidecar_json_malformed" ∷ parse_message m ∷ []))
          ⊎ ((v : Json) × (parse text ≡ parsed v)
              × (((validate_sidecar_shape v).ok ≡ false)
                  ⊎ ((validate_sidecar_shape v).sidecar ≡ none))
              × (rs ≡ shape_reasons (validate_sidecar_shape v).issues)))

  -- Why a plan is blocked, with the reasons that it gives
  pub data Blocked : List String → Type 0 where
    source_not_file : IsNoFile source → Blocked ("source_not_file" ∷ [])
    source_stat :
        (rs : List String)
        → IsOtherError (fs.stat_path source) rs "source_blocked" "source_stat_failed"
        → Blocked rs
    source_hash :
        (rs : List String)
        → IsFile source
        → IsOtherError (fs.compute_sha256 source) rs "source_blocked" "source_hash_failed"
        → Blocked rs
    sidecar_not_file :
        (f : SourceFacts) → IsSource f → IsNoFile side → Blocked ("sidecar_not_file" ∷ [])
    sidecar_stat :
        (f : SourceFacts) (rs : List String)
        → IsSource f
        → IsOtherError (fs.stat_path side) rs "sidecar_blocked" "sidecar_stat_failed"
        → Blocked rs
    sidecar_read :
        (f : SourceFacts) (rs : List String)
        → IsSource f
        → IsFile side
        → IsOtherError (fs.read_text_file side) rs "sidecar_blocked" "sidecar_read_failed"
        → Blocked rs

  pub data Justified : LocalFileRoundTripPlan → Type 0 where
    no_access : (rs : List String) → Blocked rs → Justified (blocked_plan source side rs)
    no_source :
        IsNotFound (fs.stat_path source) ⊎ (IsFile source × IsNotFound (fs.compute_sha256 source))
        → Justified (missing_source_plan source side)
    no_sidecar :
        (f : SourceFacts)
        → IsSource f
        → IsNotFound (fs.stat_path side) ⊎ (IsFile side × IsNotFound (fs.read_text_file side))
        → Justified (missing_sidecar_plan source side f)
    bad_shape :
        (f : SourceFacts) (rs : List String)
        → IsSource f
        → IsMalformed rs
        → Justified (malformed_plan rs source side f)
    other_source :
        (f : SourceFacts) (s : PrismSidecar)
        → IsSource f
        → IsSidecar s
        → s.source_path ≢ source
        → Justified (mismatched_source_plan s source side f)
    outdated :
        (f : SourceFacts) (s : PrismSidecar)
        → IsSource f
        → IsSidecar s
        → s.source_path ≡ source
        → ¬ Describes s f
        → Justified (stale_plan s (stale_reasons s f) source side f)
    settled :
        (f : SourceFacts) (s : PrismSidecar)
        → IsSource f
        → IsSidecar s
        → s.source_path ≡ source
        → Describes s f
        → Justified (ready_plan s source side f)
