-- ===== src/Service/Attempts.antt =====
-- The loop over the candidates in `TranscriptionService.transcribe` of service.py. The answer of a
-- provider is that of its `transcribe`; `show` is Python's `str` of a detail that is no text.
use open_transcribe_mcp.Base.{
  ℕ, suc, String, Bool, false, not, ◌&&◌, ◌||◌, Option, none, some, List, [], ◌∷◌, ◌++◌, ltb, ◌==◌,
  if◌then◌else◌,
}
use open_transcribe_mcp.Base.Dict.{lookup}
use open_transcribe_mcp.Domain.Errors.{
  Result, ok, err, raise_for, ErrorResponse, open_transcribe_error, provider_error, runtime_error,
  code_value, Detail, text, source_too_large,
}
use open_transcribe_mcp.Domain.Audio.{ResolvedAudioSource, TranscribeAudioRequest}
use open_transcribe_mcp.Domain.Capabilities.{ModelDescriptor}
use open_transcribe_mcp.Domain.Transcript.{CanonicalTranscript, FallbackAttempt}
use open_transcribe_mcp.Settings.{Settings}
use open_transcribe_mcp.Policy.{TranscriptionPolicy, require_provider}
use open_transcribe_mcp.Providers.Catalog.{Provider}
use open_transcribe_mcp.Providers.Registry.{Registry, get_provider}
use open_transcribe_mcp.Routing.Candidate.{RouteCandidate}
use open_transcribe_mcp.Routing.Route.{Router}
use open_transcribe_mcp.Sources.Download.{Connection}
use open_transcribe_mcp.Sources.Broker.{World, Called, Session, resolve}

pub record SourceBroker : Type 0 where
  pub settings : Settings
  pub policy : TranscriptionPolicy

pub record Service : Type 0 where
  pub settings : Settings
  pub registry : Registry
  pub router : Router
  pub source_broker : SourceBroker
  pub policy : TranscriptionPolicy

-- What the attempts did: the connections made for them, the models that were called, what became
-- of the temporary file of each, the failures noted, and how the loop ended.
pub record Trial : Type 0 where
  pub connections : List Connection
  pub recipients : List ModelDescriptor
  pub files : List (Option (List ℕ))
  pub failures : List FallbackAttempt
  pub outcome : Result (Option (CanonicalTranscript × RouteCandidate))

-- source.size_bytes and max_audio_bytes and size_bytes > max_audio_bytes
unfoldable pub is_oversized : Option ℕ → Option ℕ → Bool
is_oversized none limit = false
is_oversized (some size) none = false
is_oversized (some size) (some limit) = not (size == 0) && not (limit == 0) && ltb limit size

-- The body of the `async with`.
unfoldable pub call : Provider → RouteCandidate → ResolvedAudioSource → Called
unfolding is_oversized
call provider c source =
    if is_oversized source.size_bytes c.model.max_audio_bytes
    then record {
      recipients = [];
      result =
          raise_for source_too_large "The source exceeds the selected model's size limit."
            (some c.model.provider) (some c.model.model);
    }
    else record { recipients = c.model ∷ []; result = provider.transcribe c.request source c.model }

abbrev pub stop :
    List FallbackAttempt → Result (Option (CanonicalTranscript × RouteCandidate)) → Trial
stop failures outcome = record {
  connections = [];
  recipients = [];
  files = [];
  failures = failures;
  outcome = outcome;
}

-- An attempt before what follows it.
abbrev pub after : Session → Trial → Trial
after s t = record t {
  connections = s.connections ++ t.connections;
  recipients = s.recipients ++ t.recipients;
  files = s.file ∷ t.files;
}

module _ (show : Detail → String) where
  shown : Detail → String
  shown (text s) = s
  shown d = show d

  reason_or : String → Option Detail → String
  unfolding shown
  reason_or default none = default
  reason_or default (some d) = shown d

  -- str(details.get("reason", code.value))
  unfoldable pub reason_of : ErrorResponse → String
  unfolding reason_or code_value
  reason_of r = reason_or (code_value r.code) (lookup "reason" r.details)

  module _ (service : Service) (request : TranscribeAudioRequest) (worlds : ℕ → World) where
    -- `next` is the rest of the loop, for the failures so far.
    unfoldable pub react :
        (List FallbackAttempt → Trial)
        → List FallbackAttempt
        → RouteCandidate
        → Result CanonicalTranscript
        → Trial
    unfolding reason_of
    react next failures c (ok transcript) = stop failures (ok (some (transcript, c)))
    react next failures c (err (provider_error r)) =
        if not r.retryable || not request.allow_fallback
        then stop failures (err (provider_error r))
        else next (
            failures
            ++ record { provider = c.model.provider; model = c.model.model; reason = reason_of r }
              ∷ [])
    react next failures c (err (open_transcribe_error r)) =
        stop failures (err (open_transcribe_error r))
    react next failures c (err (runtime_error m)) = stop failures (err (runtime_error m))

    unfoldable pub try_provider :
        (List FallbackAttempt → Trial)
        → List FallbackAttempt
        → ℕ
        → RouteCandidate
        → Result Provider
        → Trial
    unfolding react call
    try_provider next failures n c (err e) = stop failures (err e)
    try_provider next failures n c (ok provider) =
        let broker = service.source_broker in
        let session =
          resolve broker.settings broker.policy (worlds n) (call provider c)
            c.request.request.source.url c.request.request.source_delivery c.model in
        after session (react next failures c session.result)

    unfoldable pub try_candidate :
        (List FallbackAttempt → Trial)
        → List FallbackAttempt
        → ℕ
        → RouteCandidate
        → Result (Unit {0})
        → Trial
    unfolding try_provider
    try_candidate next failures n c (err e) = stop failures (err e)
    try_candidate next failures n c (ok u) =
        try_provider next failures n c (get_provider service.registry c.model.provider)

    -- for candidate in candidates: ...; `n` counts the attempts.
    unfoldable pub try_all : ℕ → List FallbackAttempt → List RouteCandidate → Trial
    unfolding try_candidate
    try_all n failures [] = stop failures (ok none)
    try_all n failures (c ∷ cs) =
        try_candidate (λ more. try_all (suc n) more cs) failures n c
          (require_provider service.policy c.model.provider (some c.model.model))
