-- ===== src/Domain/Capabilities.antt =====
-- domain/capabilities.py: what a model offers.
use open_transcribe_mcp.Base.{ℕ, String, Bool, Option, List}
use open_transcribe_mcp.Base.Float.{Float}
use open_transcribe_mcp.Base.Text.{◌+s◌}
use open_transcribe_mcp.Domain.Audio.{TimestampMode, TranscriptStyle}

pub data ModelLifecycle : Type 0 where
  preview ga deprecated : ModelLifecycle

pub record PricingDescriptor : Type 0 where
  pub billing_unit : String
  pub price_usd : Float
  pub valid_from : ℕ
  pub valid_until : Option ℕ
  pub source : String

pub data Languages : Type 0 where
  listed : List String → Languages
  dynamic : Languages

pub record ModelDescriptor : Type 0 where
  pub provider : String
  pub model : String
  pub display_name : String
  pub lifecycle : ModelLifecycle
  pub languages : Languages
  pub supports_url_input : Bool
  pub supports_diarization : Bool
  pub timestamp_modes : List TimestampMode
  pub transcript_styles : List TranscriptStyle
  pub supports_language_detection : Bool
  pub supports_code_switching : Bool
  pub supports_phrase_hints : Bool
  pub max_audio_seconds : Option ℕ
  pub max_audio_bytes : Option ℕ
  pub pricing : Option PricingDescriptor
  pub configured : Bool

-- f"{provider}/{model}"
unfoldable pub make_key : String → String → String
make_key provider model = provider +s "/" +s model

unfoldable pub key : ModelDescriptor → String
unfolding make_key
key m = make_key m.provider m.model
