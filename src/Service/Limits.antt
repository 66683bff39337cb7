-- ===== src/Service/Limits.antt =====
-- `_enforce_preflight_limits`, `list_models` and `estimate_cost` of service.py.
use open_transcribe_mcp.Base.{
  String, Bool, false, not, ◌||◌, Option, none, some, List, [], ◌∷◌, ltb, ◌==◌, if◌then◌else◌,
}
use open_transcribe_mcp.Base.Float.{Float, of_int}
use open_transcribe_mcp.Base.Sequences.{keep_if}
use open_transcribe_mcp.Domain.Errors.{
  Result, ok, err, ◌>>=◌, raise, open_transcribe_error, source_duration_exceeded,
  cost_limit_exceeded, number,
}
use open_transcribe_mcp.Domain.Audio.{TranscribeAudioRequest}
use open_transcribe_mcp.Domain.Capabilities.{ModelDescriptor}
use open_transcribe_mcp.Domain.Transcript.{CostEstimate}
use open_transcribe_mcp.Providers.Registry.{get_provider, get_model, list_models}
use open_transcribe_mcp.Service.Attempts.{Service}

unfoldable pub check_cost : Float → Option Float → Result (Unit {0})
check_cost limit none =
    raise cost_limit_exceeded "Pricing metadata is required to enforce the configured cost ceiling."
check_cost limit (some cost) =
    if ltb limit cost
    then err (
        open_transcribe_error (record {
          code = cost_limit_exceeded;
          message = "The estimated transcription cost exceeds the configured limit.";
          provider = none;
          model = none;
          retryable = false;
          details = ("estimated_cost_usd", number cost) ∷ [];
        }))
    else ok tt

unfoldable pub check_ceiling : Service → ModelDescriptor → Float → Option Float → Result (Unit {0})
unfolding check_cost
check_ceiling service model hint none = ok tt
check_ceiling service model hint (some limit) =
    get_provider service.registry model.provider >>= λ provider.
    check_cost limit (provider.estimate_cost model.model hint).estimated_cost_usd

unfoldable pub check_hint : Service → ModelDescriptor → Option Float → Result (Unit {0})
unfolding check_ceiling
check_hint service model none = ok tt
check_hint service model (some hint) =
    if ltb (of_int service.settings.max_audio_duration_seconds) hint
    then raise source_duration_exceeded "The duration hint exceeds the configured limit."
    else check_ceiling service model hint service.settings.max_request_cost_usd

unfoldable pub enforce_preflight_limits :
    Service → TranscribeAudioRequest → ModelDescriptor → Result (Unit {0})
unfolding check_hint
enforce_preflight_limits service request model =
    check_hint service model request.duration_seconds_hint

unfoldable pub offered_models : Service → Bool → List ModelDescriptor
offered_models service configured_only =
    keep_if (λ m. m.configured || not configured_only) (list_models service.registry)

unfoldable pub estimate_cost : Service → Float → String → String → Result CostEstimate
estimate_cost service seconds provider model =
    if seconds == 0 || ltb (of_int service.settings.max_audio_duration_seconds) seconds
    then raise source_duration_exceeded "duration_seconds is outside configured limits."
    else (get_model service.registry provider model >>= λ m.
        get_provider service.registry provider >>= λ p. ok (p.estimate_cost m.model seconds))
