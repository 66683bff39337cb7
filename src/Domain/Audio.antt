-- ===== src/Domain/Audio.antt =====
-- domain/audio.py: the request, its validation, and the resolved request and source.
use open_transcribe_mcp.Base.{
  ℕ, String, Bool, true, false, ◌||◌, ◌&&◌, Option, none, some, List, [], ◌∷◌, length, ltb,
  if◌then◌else◌,
}
use open_transcribe_mcp.Base.Float.{Float}
use open_transcribe_mcp.Base.Text.{is_blank, characters}
use open_transcribe_mcp.Domain.Errors.{Result, ok, err, runtime_error}

pub data ProviderId : Type 0 where
  auto microsoft elevenlabs groq : ProviderId

unfoldable pub provider_value : ProviderId → String
provider_value auto = "auto"
provider_value microsoft = "microsoft"
provider_value elevenlabs = "elevenlabs"
provider_value groq = "groq"

pub data RoutingPolicy : Type 0 where
  default quality cost latency fixed : RoutingPolicy

unfoldable pub policy_value : RoutingPolicy → String
policy_value default = "default"
policy_value quality = "quality"
policy_value cost = "cost"
policy_value latency = "latency"
policy_value fixed = "fixed"

pub data TimestampMode : Type 0 where
  without segment word : TimestampMode

unfoldable pub mode_value : TimestampMode → String
mode_value without = "none"
mode_value segment = "segment"
mode_value word = "word"

unfoldable pub mode_eq : TimestampMode → TimestampMode → Bool
mode_eq without without = true
mode_eq segment segment = true
mode_eq word word = true
mode_eq _ _ = false

pub data TranscriptStyle : Type 0 where
  clean verbatim : TranscriptStyle

unfoldable pub style_value : TranscriptStyle → String
style_value clean = "clean"
style_value verbatim = "verbatim"

unfoldable pub style_eq : TranscriptStyle → TranscriptStyle → Bool
style_eq clean clean = true
style_eq verbatim verbatim = true
style_eq _ _ = false

pub data SourceDelivery : Type 0 where
  automatic passthrough proxy : SourceDelivery

pub data ResultMode : Type 0 where
  automatic inline stored : ResultMode

pub record UrlAudioSource : Type 0 where
  pub url : String

pub record TranscribeAudioRequest : Type 0 where
  pub source : UrlAudioSource
  pub provider : ProviderId
  pub model : Option String
  pub routing_policy : RoutingPolicy
  pub language : Option String
  pub diarization : Option Bool
  pub timestamps : Option TimestampMode
  pub transcript_style : Option TranscriptStyle
  pub phrase_hints : List String
  pub speaker_count_hint : Option ℕ
  pub strict_capabilities : Bool
  pub allow_fallback : Bool
  pub allow_preview_models : Bool
  pub source_delivery : SourceDelivery
  pub result_mode : ResultMode
  pub duration_seconds_hint : Option Float

unfoldable pub is_auto : ProviderId → Bool
is_auto auto = true
is_auto _ = false

unfoldable pub is_fixed : RoutingPolicy → Bool
is_fixed fixed = true
is_fixed _ = false

unfoldable pub is_given {ℓ} : {A : Type ℓ} → Option A → Bool
is_given none = false
is_given (some a) = true

-- not value.strip() or len(value) > 50
unfoldable pub bad_hint : String → Bool
bad_hint value = is_blank value || ltb 50 (length (characters value))

unfoldable pub any_bad_hint : List String → Bool
unfolding bad_hint
any_bad_hint [] = false
any_bad_hint (value ∷ values) = bad_hint value || any_bad_hint values

-- The validator raises `ValueError`, which pydantic reports as a validation error.
unfoldable pub validate_routing : TranscribeAudioRequest → Result TranscribeAudioRequest
unfolding is_fixed is_auto is_given
validate_routing r =
    if is_fixed r.routing_policy && is_auto r.provider
    then err (runtime_error "fixed routing requires an explicit provider")
    else if is_auto r.provider && is_given r.model
    then err (runtime_error "model requires an explicit provider")
    else if any_bad_hint r.phrase_hints
    then err (runtime_error "phrase hints must contain between 1 and 50 characters")
    else ok r

-- A subclass of the request whose three capabilities are no longer optional. The other fields
-- are those of `request`.
pub record ResolvedTranscribeRequest : Type 0 where
  pub request : TranscribeAudioRequest
  pub diarization : Bool
  pub timestamps : TimestampMode
  pub transcript_style : TranscriptStyle

pub record ResolvedAudioSource : Type 0 where
  pub original_url : String
  pub delivery : SourceDelivery
  pub local_path : Option String
  pub media_type : Option String
  pub size_bytes : Option ℕ
