-- ===== src/Tests/Served.antt =====
-- A request that is answered by its second model, after the first is busy.
use open_transcribe_mcp.Service.History.{IsHistory}
use open_transcribe_mcp.Routing.Candidate.{RouteCandidate}
use open_transcribe_mcp.Base.{
  ℕ, ◌≡◌, refl, String, str_eq, Bool, true, false, List, [], ◌∷◌, Option, none, some,
}
use open_transcribe_mcp.Base.Float.{of_int, one}
use open_transcribe_mcp.Base.Text.{characters}
use open_transcribe_mcp.Domain.Errors.{
  Result, ok, err, Detail, provider_error, rate_limited, text, raise, internal_error,
}
use open_transcribe_mcp.Domain.Audio.{TranscribeAudioRequest, ResolvedAudioSource, proxy, stored}
use open_transcribe_mcp.Domain.Transcript.{CanonicalTranscript, TranscriptionResult, stored_result}
use open_transcribe_mcp.Policy.{permits_provider}
use open_transcribe_mcp.Providers.Catalog.{Transcribe, groq_descriptor}
use open_transcribe_mcp.Providers.Registry.{Registry, from_settings}
use open_transcribe_mcp.Providers.Registry.Catalogued.{from_settings-IsCatalog}
use open_transcribe_mcp.Routing.Authorization.{IsAuthorized}
use open_transcribe_mcp.Routing.Route.{Router, route}
use open_transcribe_mcp.ResultStore.Memory.{MemoryStore, put}
use open_transcribe_mcp.Sources.Broker.{World, Called, resolve}
use open_transcribe_mcp.Sources.Broker.Clean.{IsClean, resolve-IsClean}
use open_transcribe_mcp.Service.Attempts.{Service}
use open_transcribe_mcp.Service.Transcribe.{Put, transcribe, trial}
use open_transcribe_mcp.Service.Recipients.{IsFair, trial-IsFair}
use open_transcribe_mcp.Service.Results.{IsOutcome, IsAnswer, transcribe-IsAnswer}
use open_transcribe_mcp.Tests.Installation.{settings, policy, prices, rounded, busy, cheap_request}
use open_transcribe_mcp.Tests.Fetches.{network, web}

abbrev limited : Transcribe
limited request source model = err (
    provider_error (record {
      code = rate_limited;
      message = "busy";
      provider = some "elevenlabs";
      model = none;
      retryable = true;
      details = ("reason", text "provider_http_429") ∷ [];
    }))

abbrev answered : Transcribe
answered request source model = ok (record {
  transcript_id = "t1";
  provider = model.provider;
  model = model.model;
  source_duration_ms = some 60000;
  detected_languages = [];
  text = some (characters "hello");
  segments = none;
  usage = record { audio_seconds = none; estimated_provider_cost_usd = none };
  metadata = record {
    diarization = request.diarization;
    timestamps = request.timestamps;
    transcript_style = request.transcript_style;
    provider_request_id = none;
    latency_ms = none;
    fallback_used = false;
    fallback_reason = none;
    fallback_history = [];
  };
  warnings = [];
})

abbrev registry : Registry
registry = from_settings 0 rounded answered limited busy prices settings

abbrev service : Service
service = record {
  settings = settings;
  registry = registry;
  router = record { registry = registry; settings = settings; policy = policy; policies = [] };
  source_broker = record { settings = settings; policy = policy };
  policy = policy;
}

abbrev shown : Detail → String
shown d = "detail"

abbrev worlds : ℕ → World
worlds n = record { net = network; web = web; path = "/tmp/open-transcribe" }

named : (n : ℕ) → str_eq (worlds n).path "" ≡ false
named n = refl

trial-IsFair_example :
    IsFair shown service cheap_request worlds named
      (IsAuthorized policy)
      (trial shown service worlds cheap_request)
trial-IsFair_example =
    trial-IsFair shown service cheap_request worlds
      (from_settings-IsCatalog 0 rounded answered limited busy prices settings) named

abbrev keep : Put MemoryStore
keep t s = (put 0 t s, ok tt)

abbrev store : MemoryStore
store = record { ttl_seconds = 60; secret = []; items = [] }

abbrev stored_request : TranscribeAudioRequest
stored_request = record cheap_request { result_mode = stored }

abbrev measured : CanonicalTranscript → ℕ
measured t = 100

abbrev outcome : MemoryStore × Result TranscriptionResult
outcome = transcribe shown service worlds keep measured stored_request store

abbrev reference : TranscriptionResult
reference = stored_result (record {
  transcript_id = "t1";
  provider = "microsoft";
  model = "MAI-Transcribe-2";
  text_chars = 5;
  segment_count = 0;
  warnings = [];
})

served :
    transcribe shown service worlds keep measured stored_request store ≡ (outcome.0, ok reference)
unfolding open_transcribe_mcp.Routing.Route.route open_transcribe_mcp.Providers.Registry.list_models
    open_transcribe_mcp.Providers.Registry.get_provider
    open_transcribe_mcp.Providers.Registry.from_settings open_transcribe_mcp.Base.Dict.values
    open_transcribe_mcp.Base.Dict.insert open_transcribe_mcp.Base.Dict.lookup
    open_transcribe_mcp.Domain.Capabilities.key
    open_transcribe_mcp.Providers.Catalog.microsoft_configured
    open_transcribe_mcp.Providers.Catalog.elevenlabs_configured
    open_transcribe_mcp.Providers.Catalog.groq_configured
    open_transcribe_mcp.Routing.Candidate.missing_capabilities
    open_transcribe_mcp.Routing.Candidate.has_mode open_transcribe_mcp.Routing.Candidate.candidate
    open_transcribe_mcp.Routing.Order.order open_transcribe_mcp.Routing.Order.key_lt
    open_transcribe_mcp.Routing.Order.sort_key open_transcribe_mcp.Policy.permits_provider
    open_transcribe_mcp.Policy.require_provider open_transcribe_mcp.Base.Float.of_int
    open_transcribe_mcp.Base.Float.one open_transcribe_mcp.Service.Limits.enforce_preflight_limits
    open_transcribe_mcp.Service.Attempts.call open_transcribe_mcp.Service.Attempts.react
    open_transcribe_mcp.Service.Attempts.try_all open_transcribe_mcp.Service.Transcribe.trial
    open_transcribe_mcp.Service.Transcribe.transcribe
    open_transcribe_mcp.Service.Transcribe.annotate open_transcribe_mcp.Service.Transcribe.conclude
    open_transcribe_mcp.Service.Transcribe.format_result open_transcribe_mcp.Sources.Broker.resolve
    open_transcribe_mcp.Sources.Broker.select_delivery
    open_transcribe_mcp.Sources.Ssrf.validate_source_url open_transcribe_mcp.Settings.is_falsy
    open_transcribe_mcp.Base.Sequences.is_nonempty open_transcribe_mcp.Base.Text.characters
    open_transcribe_mcp.Routing.Candidate.resolve
served = refl

transcribe-IsAnswer_example :
    (t : CanonicalTranscript) × (o : IsOutcome settings
      (trial shown service worlds stored_request)
      t)
    × ((cs : List RouteCandidate) × (route service.router stored_request ≡ ok cs)
        × IsHistory cs o.selected (trial shown service worlds stored_request).failures)
    × IsAnswer keep measured settings t store outcome.0 reference
transcribe-IsAnswer_example =
    transcribe-IsAnswer keep measured shown service worlds stored_request store outcome.0 reference
      served

abbrev deaf : ResolvedAudioSource → Called
deaf source = record { recipients = []; result = raise internal_error "deaf" }

resolve-IsClean_example : IsClean settings policy (worlds 0) deaf (
    resolve settings policy
      (worlds 0)
      deaf
      "https://audio.example/a.mp3"
      proxy
      (groq_descriptor settings.groq [] "whisper-large-v3" "Groq"))
resolve-IsClean_example =
    resolve-IsClean settings policy (worlds 0) deaf "https://audio.example/a.mp3" proxy
      (groq_descriptor settings.groq [] "whisper-large-v3" "Groq") (named 0)
