-- ===== src/Routing/Candidate.antt =====
-- `_missing_capabilities`, `_resolve` and `_candidate` of routing/router.py.
use open_transcribe_mcp.Base.{
  ℕ, String, Bool, true, false, not, ◌&&◌, ◌||◌, Option, none, some, List, [], ◌∷◌, ◌++◌, map, ltb,
  if◌then◌else◌, ◌==◌,
}
use open_transcribe_mcp.Base.Float.{Float, of_int}
use open_transcribe_mcp.Base.Text.{◌+s◌}
use open_transcribe_mcp.Base.Sequences.{next_or, is_nonempty}
use open_transcribe_mcp.Domain.Audio.{
  TranscribeAudioRequest, ResolvedTranscribeRequest, TimestampMode, without, segment, word, mode_eq,
  mode_value, TranscriptStyle, clean, verbatim, style_eq, style_value, is_given,
}
use open_transcribe_mcp.Domain.Capabilities.{ModelDescriptor, ModelLifecycle, preview}

abbrev pub timestamp_preference : List TimestampMode
timestamp_preference = segment ∷ word ∷ without ∷ []

abbrev pub style_preference : List TranscriptStyle
style_preference = clean ∷ verbatim ∷ []

pub record RouteCandidate : Type 0 where
  pub model : ModelDescriptor
  pub request : ResolvedTranscribeRequest
  pub warnings : List String

-- mode in modes
unfoldable pub has_mode : TimestampMode → List TimestampMode → Bool
unfolding mode_eq
has_mode m [] = false
has_mode m (n ∷ modes) = mode_eq n m || has_mode m modes

unfoldable pub has_style : TranscriptStyle → List TranscriptStyle → Bool
unfolding style_eq
has_style s [] = false
has_style s (t ∷ styles) = style_eq t s || has_style s styles

unfoldable pub is_preview : ModelLifecycle → Bool
is_preview preview = true
is_preview _ = false

-- if test: missing.append(name)
abbrev pub note : Bool → String → List String
note test name = if test then name ∷ [] else []

unfoldable pub lacks_timestamps : Option TimestampMode → List TimestampMode → List String
unfolding mode_value
lacks_timestamps none modes = []
lacks_timestamps (some t) modes = note (not (has_mode t modes)) ("timestamps:" +s mode_value t)

unfoldable pub lacks_style : Option TranscriptStyle → List TranscriptStyle → List String
unfolding style_value
lacks_style none styles = []
lacks_style (some s) styles = note (not (has_style s styles)) ("transcript_style:" +s style_value s)

-- `request.diarization`, which is falsy when it is `None` or `False`
unfoldable pub is_true : Option Bool → Bool
is_true none = false
is_true (some b) = b

-- duration_seconds_hint and max_audio_seconds and duration_seconds_hint > max_audio_seconds
unfoldable pub too_long : Option Float → Option ℕ → Bool
too_long none limit = false
too_long (some hint) none = false
too_long (some hint) (some limit) = not (hint == 0) && not (limit == 0) && ltb (of_int limit) hint

unfoldable pub missing_capabilities : TranscribeAudioRequest → ModelDescriptor → List String
unfolding lacks_timestamps lacks_style is_true too_long is_preview is_given is_nonempty
missing_capabilities request model =
    note (is_preview model.lifecycle && not request.allow_preview_models) "preview_model"
    ++ (note (is_true request.diarization && not model.supports_diarization) "diarization"
        ++ (lacks_timestamps request.timestamps model.timestamp_modes
            ++ (lacks_style request.transcript_style model.transcript_styles
                ++ (note (not (is_given request.language) && not model.supports_language_detection)
                      "language_detection"
                    ++ (note (is_nonempty request.phrase_hints && not model.supports_phrase_hints)
                          "phrase_hints"
                        ++ note (too_long request.duration_seconds_hint model.max_audio_seconds)
                            "max_audio_seconds")))))

-- next((mode for mode in TIMESTAMP_PREFERENCE if mode in model.timestamp_modes), NONE)
unfoldable pub preferred_mode : List TimestampMode → TimestampMode
unfolding next_or has_mode
preferred_mode modes = next_or (λ m. has_mode m modes) timestamp_preference without

unfoldable pub bind_timestamps : Option TimestampMode → List TimestampMode → TimestampMode
unfolding preferred_mode
bind_timestamps none modes = preferred_mode modes
bind_timestamps (some t) modes = if has_mode t modes then t else preferred_mode modes

unfoldable pub preferred_style : List TranscriptStyle → TranscriptStyle
unfolding next_or has_style
preferred_style styles = next_or (λ s. has_style s styles) style_preference verbatim

unfoldable pub bind_style : Option TranscriptStyle → List TranscriptStyle → TranscriptStyle
unfolding preferred_style
bind_style none styles = preferred_style styles
bind_style (some s) styles = if has_style s styles then s else preferred_style styles

unfoldable pub bind_diarization : Option Bool → Bool → Bool
bind_diarization none supported = supported && supported
bind_diarization (some asked) supported = asked && supported

-- The other fields are those of the request, which has been validated when it was made, so that
-- validating them again changes nothing.
unfoldable pub resolve : TranscribeAudioRequest → ModelDescriptor → ResolvedTranscribeRequest
unfolding bind_timestamps bind_style bind_diarization
resolve request model = record {
  request = request;
  diarization = bind_diarization request.diarization model.supports_diarization;
  timestamps = bind_timestamps request.timestamps model.timestamp_modes;
  transcript_style = bind_style request.transcript_style model.transcript_styles;
}

unfoldable pub candidate : TranscribeAudioRequest → ModelDescriptor → List String → RouteCandidate
candidate request model missing = record {
  model = model;
  request = resolve request model;
  warnings = map (λ name. "requested_capability_not_supported:" +s name) missing;
}
