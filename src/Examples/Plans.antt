-- ===== src/Examples/Plans.antt =====
-- A source file without a sidecar beside it.
use prism_spectra.Common.{
  ◌≡◌, inr, refl, true, false, [], none, some, String, if◌then◌else◌, ◌==◌, string_eq,
}
use prism_spectra.Common.Text.{trim, is_blank}
use prism_spectra.Common.Json.{Json}
use prism_spectra.Sidecar.{
  PrismSidecar, value, prism_sidecar_suffix, build_sidecar_path, validate_sidecar_shape,
}
use prism_spectra.Sidecar.AssetId.{deterministic_asset_id_for_source_path}
use prism_spectra.Sidecar.Planner.{
  PathKind, got, failed, Filesystem, Parse, parsed, syntax_error, RecommendedAction,
  LocalFileRoundTripPlan, missing_sidecar_plan, plan_local_file_round_trip,
}
use prism_spectra.Sidecar.Evidence.{Justified}
use prism_spectra.Sidecar.Plans.{plan_local_file_round_trip-Justified}
use prism_spectra.Sidecar.Recommend.{SidecarRecommendation, recommend_sidecar_action}
use prism_spectra.Sidecar.WritePlan.{plan_sidecar_write}
use prism_spectra.Sidecar.Agreement.{Agree, reviews-Agree}
use prism_spectra.Sidecar.Draft.{draft_of}
use prism_spectra.Sidecar.Shape.{WellShaped, json_of, validate_sidecar_shape-json_of}
use prism_spectra.Sidecar.Settle.{Written, create_then_ready}

abbrev parse : String → Parse
parse s = parsed Json.null

abbrev pub stringify : PrismSidecar → String
stringify s = "{}"

abbrev files : Filesystem
files = record {
  stat_path = λ p.
      if p == "song.wav"
      then got (record { kind = PathKind.file; size = 12 })
      else failed (some "file_not_found");
  read_text_file = λ p. failed (some "file_not_found");
  compute_sha256 = λ p. got "cafe";
}

abbrev song_plan : LocalFileRoundTripPlan
song_plan =
    missing_sidecar_plan "song.wav" "song.wav.prism.json"
      (record { size_bytes = 12; sha256 = "cafe" })

song-planned : plan_local_file_round_trip parse files " song.wav " none ≡ value song_plan
unfolding plan_local_file_round_trip build_sidecar_path
song-planned = refl

plan_local_file_round_trip-Justified_example :
    (side : String) × (build_sidecar_path (trim " song.wav ") prism_sidecar_suffix ≡ value side)
    × (is_blank (trim " song.wav ") ≡ false)
    × Justified parse files (trim " song.wav ") side song_plan
plan_local_file_round_trip-Justified_example =
    plan_local_file_round_trip-Justified parse files " song.wav " none song_plan song-planned

reviews-Agree_example :
    (r : SidecarRecommendation) × (recommend_sidecar_action song_plan "2026-01-01T00:00:00.000Z"
      ≡ value r)
    × Agree stringify song_plan r
reviews-Agree_example =
    reviews-Agree parse files stringify "2026-01-01T00:00:00.000Z" " song.wav " none song_plan
      song-planned

abbrev now : String
now = "2026-01-01T00:00:00.000Z"

abbrev pub song_draft : PrismSidecar
song_draft = draft_of "song.wav" (record { size_bytes = 12; sha256 = "cafe" }) now

abbrev pub song_content : String
song_content = "{}\n"

abbrev song_recommendation : SidecarRecommendation
song_recommendation = record {
  action = RecommendedAction.create_sidecar;
  reason = "sidecar_missing";
  sidecar_path = "song.wav.prism.json";
  source_path = "song.wav";
  draft = some song_draft;
  patch = none;
  warnings = [];
}

-- A parser that knows the one text that is written.
abbrev parse_song : String → Parse
parse_song s =
    if s == song_content then parsed (json_of song_draft) else syntax_error "unexpected token"

abbrev files_after : Filesystem
files_after = record {
  stat_path = λ p.
      if p == "song.wav"
      then got (record { kind = PathKind.file; size = 12 })
      else if p == "song.wav.prism.json"
      then got (record { kind = PathKind.file; size = 3 })
      else failed (some "file_not_found");
  read_text_file = λ p. got song_content;
  compute_sha256 = λ p. got "cafe";
}

song-planned_again : plan_local_file_round_trip parse_song files "song.wav" none ≡ value song_plan
unfolding plan_local_file_round_trip build_sidecar_path
song-planned_again = refl

song-recommended : recommend_sidecar_action song_plan now ≡ value song_recommendation
unfolding recommend_sidecar_action deterministic_asset_id_for_source_path
song-recommended = refl

song-write : (plan_sidecar_write stringify song_recommendation).content ≡ some song_content
unfolding plan_sidecar_write
song-write = refl

song-dated : is_blank (trim now) ≡ false
unfolding trim
song-dated = refl

song-Written : Written files files_after song_plan song_content
song-Written = record {
  stat_source = refl;
  hash_source = refl;
  stat = record { kind = PathKind.file; size = 3 };
  stat_sidecar = refl;
  is_file = refl;
  text = refl;
}

create_then_ready_example :
    (p : LocalFileRoundTripPlan) × (plan_local_file_round_trip parse_song files_after "song.wav"
        none
      ≡ value p)
    × (p.recommended_action ≡ RecommendedAction.ready)
create_then_ready_example =
    create_then_ready parse_song files files_after stringify now "song.wav" none song_plan
      song_recommendation song_draft song_content refl refl song-dated song-planned_again refl
      song-recommended song-write song-Written

song_draft-WellShaped : WellShaped song_draft
unfolding trim deterministic_asset_id_for_source_path
song_draft-WellShaped = record {
  version = inr refl;
  asset_id = refl;
  source_path = refl;
  canonical_path = refl;
  created_at = refl;
  updated_at = refl;
  kind = refl;
  analysis_status = refl;
  approval_state = refl;
}

validate_sidecar_shape-json_of_example :
    validate_sidecar_shape (json_of song_draft)
    ≡ record { ok = true; sidecar = some song_draft; issues = [] }
validate_sidecar_shape-json_of_example =
    validate_sidecar_shape-json_of song_draft song_draft-WellShaped
