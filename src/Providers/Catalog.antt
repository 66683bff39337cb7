-- ===== src/Providers/Catalog.antt =====
-- The adapters as the registry sees them: `provider_id`, `configured`, `list_models` and
-- `estimate_cost` of providers/microsoft, providers/elevenlabs and providers/groq.
-- `transcribe` is the adapter's exchange with its service, an argument here.
use open_transcribe_mcp.Base.{
  ℕ, ◌*◌, String, Bool, true, false, ◌&&◌, Option, none, some, List, [], ◌∷◌,
}
use open_transcribe_mcp.Base.Float.{Float}
use open_transcribe_mcp.Base.Dict.{Dict, lookup}
use open_transcribe_mcp.Domain.Errors.{Result}
use open_transcribe_mcp.Domain.Audio.{
  TimestampMode, without, segment, word, TranscriptStyle, clean, verbatim,
  ResolvedTranscribeRequest, ResolvedAudioSource, is_given,
}
use open_transcribe_mcp.Domain.Capabilities.{
  ModelDescriptor, PricingDescriptor, preview, ga, dynamic,
}
use open_transcribe_mcp.Domain.Transcript.{CanonicalTranscript, CostEstimate}
use open_transcribe_mcp.Settings.{MicrosoftSettings, ElevenLabsSettings, GroqSettings}
use open_transcribe_mcp.Providers.Pricing.{estimate_from_pricing}

abbrev pub Transcribe : Type 0
Transcribe =
    ResolvedTranscribeRequest → ResolvedAudioSource → ModelDescriptor → Result CanonicalTranscript

-- The abstract class `TranscriptionProvider`.
pub record Provider : Type 0 where
  pub provider_id : String
  pub configured : Bool
  pub list_models : List ModelDescriptor
  pub transcribe : Transcribe
  pub estimate_cost : String → Float → CostEstimate

abbrev all_modes : List TimestampMode
all_modes = without ∷ segment ∷ word ∷ []

abbrev all_styles : List TranscriptStyle
all_styles = clean ∷ verbatim ∷ []

unfoldable pub microsoft_configured : MicrosoftSettings → Bool
unfolding is_given
microsoft_configured s = is_given s.endpoint && is_given s.api_key

unfoldable pub microsoft_models :
    MicrosoftSettings → Option PricingDescriptor → List ModelDescriptor
microsoft_models s pricing =
    record {
      provider = "microsoft";
      model = "MAI-Transcribe-2";
      display_name = "Microsoft MAI-Transcribe-2";
      lifecycle = preview;
      languages = dynamic;
      supports_url_input = true;
      supports_diarization = true;
      timestamp_modes = all_modes;
      transcript_styles = all_styles;
      supports_language_detection = true;
      supports_code_switching = true;
      supports_phrase_hints = true;
      max_audio_seconds = some 18000;
      max_audio_bytes = some (500 * 1024 * 1024);
      pricing = pricing;
      configured = microsoft_configured s;
    }
    ∷ []

unfoldable pub elevenlabs_configured : ElevenLabsSettings → Bool
unfolding is_given
elevenlabs_configured s = is_given s.api_key

unfoldable pub elevenlabs_models :
    ElevenLabsSettings → Option PricingDescriptor → List ModelDescriptor
elevenlabs_models s pricing =
    record {
      provider = "elevenlabs";
      model = "scribe-v2";
      display_name = "ElevenLabs Scribe v2";
      lifecycle = ga;
      languages = dynamic;
      supports_url_input = true;
      supports_diarization = true;
      timestamp_modes = all_modes;
      transcript_styles = all_styles;
      supports_language_detection = true;
      supports_code_switching = true;
      supports_phrase_hints = true;
      max_audio_seconds = none;
      max_audio_bytes = some (5 * 1024 * 1024 * 1024);
      pricing = pricing;
      configured = elevenlabs_configured s;
    }
    ∷ []

unfoldable pub groq_configured : GroqSettings → Bool
unfolding is_given
groq_configured s = is_given s.api_key

-- `pricing.get(model)` of a dict whose values may be `None`
abbrev pub flat_lookup : String → Dict (Option PricingDescriptor) → Option PricingDescriptor
flat_lookup k d = elim (lookup k d) [ none ↦ none | some p ↦ p ]

unfoldable pub groq_descriptor :
    GroqSettings → Dict (Option PricingDescriptor) → String → String → ModelDescriptor
groq_descriptor s pricing model display_name = record {
  provider = "groq";
  model = model;
  display_name = display_name;
  lifecycle = ga;
  languages = dynamic;
  supports_url_input = true;
  supports_diarization = false;
  timestamp_modes = all_modes;
  transcript_styles = verbatim ∷ [];
  supports_language_detection = true;
  supports_code_switching = false;
  supports_phrase_hints = true;
  max_audio_seconds = some 28800;
  max_audio_bytes = some (100 * 1024 * 1024);
  pricing = flat_lookup model pricing;
  configured = groq_configured s;
}

unfoldable pub groq_models : GroqSettings → Dict (Option PricingDescriptor) → List ModelDescriptor
unfolding groq_descriptor
groq_models s pricing =
    groq_descriptor s pricing "whisper-large-v3" "Groq whisper-large-v3"
    ∷ groq_descriptor s pricing "whisper-large-v3-turbo" "Groq whisper-large-v3-turbo"
    ∷ []

module _ (today : ℕ) (rounded_cost : Float → Float → Float) where
  unfoldable pub microsoft_provider :
      MicrosoftSettings → Option PricingDescriptor → Transcribe → Provider
  unfolding microsoft_models
  microsoft_provider s pricing transcribe = record {
    provider_id = "microsoft";
    configured = microsoft_configured s;
    list_models = microsoft_models s pricing;
    transcribe = transcribe;
    estimate_cost =
        λ model seconds. estimate_from_pricing today rounded_cost "microsoft" model seconds pricing;
  }

  unfoldable pub elevenlabs_provider :
      ElevenLabsSettings → Option PricingDescriptor → Transcribe → Provider
  unfolding elevenlabs_models
  elevenlabs_provider s pricing transcribe = record {
    provider_id = "elevenlabs";
    configured = elevenlabs_configured s;
    list_models = elevenlabs_models s pricing;
    transcribe = transcribe;
    estimate_cost = λ model seconds.
        estimate_from_pricing today rounded_cost "elevenlabs" model seconds pricing;
  }

  unfoldable pub groq_provider :
      GroqSettings → Dict (Option PricingDescriptor) → Transcribe → Provider
  unfolding groq_models
  groq_provider s pricing transcribe = record {
    provider_id = "groq";
    configured = groq_configured s;
    list_models = groq_models s pricing;
    transcribe = transcribe;
    estimate_cost = λ model seconds.
        estimate_from_pricing today rounded_cost "groq" model seconds (flat_lookup model pricing);
  }
