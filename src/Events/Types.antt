-- ===== src/Events/Types.antt =====
-- events/ledger.ts: the vocabulary of the events, and the record of one event.
use prism_spectra.Common.{
  ℕ, zero, suc, ◌≡◌, ◌↔◌, refl, ap, ◌∙◌, sym, Bool, true, false, List, [], ◌∷◌, Option, none, some,
  String, arith, Eq, nat_beq, nat_beq_iff, some_inj,
}
use prism_spectra.Common.Json.{Fields}

pub data PrismEventType : Type 0 where
  workbench_opened capability_manifest_registered approval_requested approval_resolved
        checkpoint_created checkpoint_rollback_requested artifact_observed artifact_previewed
        artifact_written attachment_ingest_opened attachment_ingest_previewed
        attachment_ingest_cancelled attachment_ingest_completed attachment_preview_requested
        attachment_preview_available attachment_preview_blocked attachment_preview_failed
        attachment_audio_preview_opened attachment_audio_preview_ready
        attachment_audio_preview_closed attachment_audio_preview_failed attachment_tag_added
        attachment_tag_removed attachment_metadata_updated job_scheduled job_started job_progress
        job_completed job_cancelled job_failed pipeline_change_detected pipeline_validation_started
        pipeline_validation_passed pipeline_validation_failed system_notice system_warning
        system_error :
      PrismEventType

-- `prismEventTypes`
abbrev pub prism_event_types : List PrismEventType
prism_event_types =
    workbench_opened ∷ capability_manifest_registered ∷ approval_requested ∷ approval_resolved
    ∷ checkpoint_created ∷ checkpoint_rollback_requested ∷ artifact_observed ∷ artifact_previewed
    ∷ artifact_written ∷ attachment_ingest_opened ∷ attachment_ingest_previewed
    ∷ attachment_ingest_cancelled ∷ attachment_ingest_completed ∷ attachment_preview_requested
    ∷ attachment_preview_available ∷ attachment_preview_blocked ∷ attachment_preview_failed
    ∷ attachment_audio_preview_opened ∷ attachment_audio_preview_ready
    ∷ attachment_audio_preview_closed ∷ attachment_audio_preview_failed ∷ attachment_tag_added
    ∷ attachment_tag_removed ∷ attachment_metadata_updated ∷ job_scheduled ∷ job_started
    ∷ job_progress ∷ job_completed ∷ job_cancelled ∷ job_failed ∷ pipeline_change_detected
    ∷ pipeline_validation_started ∷ pipeline_validation_passed ∷ pipeline_validation_failed
    ∷ system_notice ∷ system_warning ∷ system_error ∷ []

-- The place of a type in the list.
abbrev pub type_index : PrismEventType → ℕ
type_index workbench_opened = 0
type_index capability_manifest_registered = 1
type_index approval_requested = 2
type_index approval_resolved = 3
type_index checkpoint_created = 4
type_index checkpoint_rollback_requested = 5
type_index artifact_observed = 6
type_index artifact_previewed = 7
type_index artifact_written = 8
type_index attachment_ingest_opened = 9
type_index attachment_ingest_previewed = 10
type_index attachment_ingest_cancelled = 11
type_index attachment_ingest_completed = 12
type_index attachment_preview_requested = 13
type_index attachment_preview_available = 14
type_index attachment_preview_blocked = 15
type_index attachment_preview_failed = 16
type_index attachment_audio_preview_opened = 17
type_index attachment_audio_preview_ready = 18
type_index attachment_audio_preview_closed = 19
type_index attachment_audio_preview_failed = 20
type_index attachment_tag_added = 21
type_index attachment_tag_removed = 22
type_index attachment_metadata_updated = 23
type_index job_scheduled = 24
type_index job_started = 25
type_index job_progress = 26
type_index job_completed = 27
type_index job_cancelled = 28
type_index job_failed = 29
type_index pipeline_change_detected = 30
type_index pipeline_validation_started = 31
type_index pipeline_validation_passed = 32
type_index pipeline_validation_failed = 33
type_index system_notice = 34
type_index system_warning = 35
type_index system_error = 36

abbrev at : ℕ → List PrismEventType → Option PrismEventType
at n [] = none
at zero (t ∷ ts) = some t
at (suc n) (t ∷ ts) = at n ts

at-type_index : (t : PrismEventType) → at (type_index t) prism_event_types ≡ some t
at-type_index workbench_opened = refl
at-type_index capability_manifest_registered = refl
at-type_index approval_requested = refl
at-type_index approval_resolved = refl
at-type_index checkpoint_created = refl
at-type_index checkpoint_rollback_requested = refl
at-type_index artifact_observed = refl
at-type_index artifact_previewed = refl
at-type_index artifact_written = refl
at-type_index attachment_ingest_opened = refl
at-type_index attachment_ingest_previewed = refl
at-type_index attachment_ingest_cancelled = refl
at-type_index attachment_ingest_completed = refl
at-type_index attachment_preview_requested = refl
at-type_index attachment_preview_available = refl
at-type_index attachment_preview_blocked = refl
at-type_index attachment_preview_failed = refl
at-type_index attachment_audio_preview_opened = refl
at-type_index attachment_audio_preview_ready = refl
at-type_index attachment_audio_preview_closed = refl
at-type_index attachment_audio_preview_failed = refl
at-type_index attachment_tag_added = refl
at-type_index attachment_tag_removed = refl
at-type_index attachment_metadata_updated = refl
at-type_index job_scheduled = refl
at-type_index job_started = refl
at-type_index job_progress = refl
at-type_index job_completed = refl
at-type_index job_cancelled = refl
at-type_index job_failed = refl
at-type_index pipeline_change_detected = refl
at-type_index pipeline_validation_started = refl
at-type_index pipeline_validation_passed = refl
at-type_index pipeline_validation_failed = refl
at-type_index system_notice = refl
at-type_index system_warning = refl
at-type_index system_error = refl

abbrev pub type_beq : PrismEventType → PrismEventType → Bool
type_beq a b = nat_beq (type_index a) (type_index b)

pub type_beq_iff : (a b : PrismEventType) → (type_beq a b ≡ true) ↔ (a ≡ b)
type_beq_iff a b = (
  (λ h. some_inj (
      sym (at-type_index a)
      ∙ ap (λ n. at n prism_event_types) ((nat_beq_iff (type_index a) (type_index b)).0 h)
      ∙ at-type_index b)),
  (λ e. (nat_beq_iff (type_index a) (type_index b)).1 (ap type_index e)),
)

instance abbrev pub type_eq : Eq PrismEventType
type_eq = record { beq = type_beq; beq_iff = type_beq_iff }

pub data PrismEventSeverity : Type 0 where
  info low medium high : PrismEventSeverity

abbrev pub severity_beq : PrismEventSeverity → PrismEventSeverity → Bool
severity_beq info info = true
severity_beq low low = true
severity_beq medium medium = true
severity_beq high high = true
severity_beq _ _ = false

pub severity_beq_iff : (a b : PrismEventSeverity) → (severity_beq a b ≡ true) ↔ (a ≡ b)
severity_beq_iff a b = ground arith

instance abbrev pub severity_eq : Eq PrismEventSeverity
severity_eq = record { beq = severity_beq; beq_iff = severity_beq_iff }

pub data PrismEventSource : Type 0 where
  workbench capability approval checkpoint artifact attachment job pipeline system conversation :
      PrismEventSource

pub record PrismEvent : Type 0 where
  pub id : String
  pub time : String
  pub type : PrismEventType
  pub summary : String
  pub severity : PrismEventSeverity
  pub source : PrismEventSource
  pub related_capability_id : Option String
  pub related_artifact_id : Option String
  pub related_conversation_id : Option String
  pub related_checkpoint_id : Option ℕ
  pub related_approval_id : Option String
  pub session_id : Option String
  pub metadata : Option Fields

pub record PrismEventInput : Type 0 where
  pub id : Option String
  pub time : Option String
  pub type : PrismEventType
  pub summary : String
  pub severity : PrismEventSeverity
  pub source : PrismEventSource
  pub related_capability_id : Option String
  pub related_artifact_id : Option String
  pub related_conversation_id : Option String
  pub related_checkpoint_id : Option ℕ
  pub related_approval_id : Option String
  pub session_id : Option String
  pub metadata : Option Fields
