-- ===== src/Examples/Writes.antt =====
-- An approved creation of a sidecar.
use prism_spectra.Common.{◌≡◌, inl, refl, true, [], ◌∷◌, none, some, In, string_eq}
use prism_spectra.Sidecar.{build_sidecar_path}
use prism_spectra.Sidecar.WritePlan.{
  SidecarWritePlan, WritePlanStatus, WriteOperation, WriteApprovalType,
}
use prism_spectra.Sidecar.Execute.{
  Action, write_json_file, Answer, answered, is_approved, execute_sidecar_write_plan,
}
use prism_spectra.Sidecar.Writes.{Allowed, execute_sidecar_write_plan-Allowed}
use prism_spectra.Examples.Plans.{stringify, song_draft, song_content}

abbrev song_write : SidecarWritePlan
song_write = record {
  status = WritePlanStatus.planned;
  operation = WriteOperation.create_sidecar;
  approval_type = WriteApprovalType.local_write;
  source_path = "song.wav";
  sidecar_path = "song.wav.prism.json";
  content = some song_content;
  json = some song_draft;
  patch = none;
  reasons = "sidecar_missing" ∷ [];
  warnings = [];
  safety_checks = [];
}

-- An adapter that does what it is asked for.
abbrev willing : Action → Answer
willing a =
    answered (record { success = true; data_read = none; error_code = none; error_message = none })

song-written :
    In
      (write_json_file "song.wav.prism.json" song_draft)
      (execute_sidecar_write_plan willing stringify song_write (some true)).actions
unfolding execute_sidecar_write_plan build_sidecar_path
song-written = inl refl

execute_sidecar_write_plan-Allowed_example :
    (song_write.status ≡ WritePlanStatus.planned)
    × (is_approved (some true) ≡ true)
    × Allowed willing song_write (write_json_file "song.wav.prism.json" song_draft)
execute_sidecar_write_plan-Allowed_example =
    execute_sidecar_write_plan-Allowed willing stringify song_write (some true)
      (write_json_file "song.wav.prism.json" song_draft) song-written
