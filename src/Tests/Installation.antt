-- ===== src/Tests/Installation.antt =====
-- An installation with credentials for Microsoft and ElevenLabs, and its requests.
use open_transcribe_mcp.Base.{ℕ, String, Bool, true, false, Option, none, some, [], ◌∷◌}
use open_transcribe_mcp.Base.Dict.{Dict}
use open_transcribe_mcp.Domain.Capabilities.{PricingDescriptor}
use open_transcribe_mcp.Base.Float.{Float, of_int}
use open_transcribe_mcp.Domain.Errors.{raise, provider_unavailable}
use open_transcribe_mcp.Domain.Audio.{
  ProviderId, auto, microsoft, RoutingPolicy, default, cost, word, TranscribeAudioRequest,
  SourceDelivery, ResultMode,
}
use open_transcribe_mcp.Settings.{HttpUrl, Settings, unauthenticated, disabled, dev, http}
use open_transcribe_mcp.Policy.{TranscriptionPolicy}
use open_transcribe_mcp.Providers.Registry.{Registry, from_settings}
use open_transcribe_mcp.Providers.Catalog.{Transcribe}
use open_transcribe_mcp.Routing.Route.{Router}

abbrev url_of : String → HttpUrl
url_of text = record { text = text; scheme = "https"; path = none; query = none; fragment = none }

abbrev pub settings : Settings
settings = record {
  environment = dev;
  transport = http;
  host = "127.0.0.1";
  port = 8000;
  default_provider = "microsoft";
  default_model = "MAI-Transcribe-2";
  request_timeout_seconds = 900;
  provider_timeout_seconds = 600;
  source_download_timeout_seconds = 120;
  max_audio_size_mb = 500;
  max_audio_duration_seconds = 7200;
  max_request_cost_usd = none;
  max_inline_text_chars = 20000;
  max_inline_segments = 500;
  max_inline_response_bytes = 100000;
  microsoft = record {
    endpoint = some (url_of "https://speech.example");
    api_key = some "m";
    api_version = "1";
  };
  elevenlabs = record {
    api_key = some "e";
    base_url = url_of "https://el.example";
    zero_retention = false;
  };
  groq = record { api_key = none; base_url = url_of "https://groq.example" };
  security = record {
    auth_mode = unauthenticated;
    bearer_token = none;
    oidc_issuer_url = none;
    oidc_jwks_url = none;
    oidc_public_base_url = none;
    oidc_required_scope = "transcribe";
    oidc_required_claim_path = "roles";
    oidc_required_claim_value = none;
    require_https_sources = true;
    allow_private_urls = false;
    max_redirects = 3;
    allowed_source_hosts = [];
  };
  result_store = record {
    backend = disabled;
    cursor_secret = none;
    ttl_seconds = 3600;
    s3_bucket = none;
    s3_endpoint_url = none;
    s3_region = "us-east-1";
    s3_prefix = "";
  };
}

-- A service that answers nobody.
abbrev pub busy : Transcribe
busy request source model = raise provider_unavailable "busy"

abbrev pub rounded : Float → Float → Float
rounded price seconds = price

abbrev price_of : ℕ → Option PricingDescriptor
price_of price = some (record {
  billing_unit = "audio_hour";
  price_usd = of_int price;
  valid_from = 0;
  valid_until = none;
  source = "https://prices.example";
})

abbrev pub prices : Dict (Dict (Option PricingDescriptor))
prices =
    ("microsoft", ("MAI-Transcribe-2", price_of 3) ∷ [])
    ∷ ("elevenlabs", ("scribe-v2", price_of 2) ∷ [])
    ∷ []

abbrev pub registry : Registry
registry = from_settings 0 rounded busy busy busy prices settings

abbrev pub policy : TranscriptionPolicy
policy = record {
  enabled_providers = some ("microsoft" ∷ "elevenlabs" ∷ []);
  allow_cross_provider_fallback = true;
  allow_temporary_audio = true;
}

abbrev pub router : Router
router = record { registry = registry; settings = settings; policy = policy; policies = [] }

abbrev pub request_for : ProviderId → Option String → RoutingPolicy → Bool → TranscribeAudioRequest
request_for provider model routing strict = record {
  source = record { url = "https://audio.example/a.mp3" };
  provider = provider;
  model = model;
  routing_policy = routing;
  language = none;
  diarization = some true;
  timestamps = some word;
  transcript_style = none;
  phrase_hints = "diarisation" ∷ [];
  speaker_count_hint = none;
  strict_capabilities = strict;
  allow_fallback = true;
  allow_preview_models = true;
  source_delivery = SourceDelivery.automatic;
  result_mode = ResultMode.automatic;
  duration_seconds_hint = some (of_int 60);
}

-- Any provider, strictly; the cheapest; and a named model.
abbrev pub any_request : TranscribeAudioRequest
any_request = request_for auto none default true

abbrev pub cheap_request : TranscribeAudioRequest
cheap_request = request_for auto none cost false

abbrev pub named_request : TranscribeAudioRequest
named_request = request_for microsoft (some "MAI-Transcribe-2") default true
