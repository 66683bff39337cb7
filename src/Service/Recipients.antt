-- ===== src/Service/Recipients.antt =====
-- Who receives the audio in the attempts of a request, and what they leave behind.
use open_transcribe_mcp.Base.{
  ℕ, suc, ◌≡◌, refl, String, true, false, not, ◌||◌, Option, none, some, List, [], ◌∷◌, All, arith,
  length, length-append, ◌≤◌, Bool-cases, inl, inr, str_eq,
}
use open_transcribe_mcp.Base.Sequences.{All-append}
use open_transcribe_mcp.Domain.Errors.{
  Result, ok, err, Detail, open_transcribe_error, provider_error, runtime_error,
}
use open_transcribe_mcp.Domain.Audio.{TranscribeAudioRequest, ResolvedAudioSource}
use open_transcribe_mcp.Domain.Capabilities.{ModelDescriptor}
use open_transcribe_mcp.Domain.Transcript.{CanonicalTranscript, FallbackAttempt}
use open_transcribe_mcp.Policy.{permits_provider, require_provider}
use open_transcribe_mcp.Providers.Catalog.{Provider}
use open_transcribe_mcp.Providers.Registry.{get_provider}
use open_transcribe_mcp.Providers.Registry.Catalogued.{IsCatalog}
use open_transcribe_mcp.Routing.Candidate.{RouteCandidate}
use open_transcribe_mcp.Routing.Route.{route}
use open_transcribe_mcp.Routing.Authorization.{IsAuthorized, route-IsAuthorized}
use open_transcribe_mcp.Sources.Broker.{World, resolve}
use open_transcribe_mcp.Sources.Broker.Clean.{resolve-IsClean}
use open_transcribe_mcp.Sources.Broker.Served.{resolve-served}
use open_transcribe_mcp.Service.Attempts.{
  Service, Trial, call, is_oversized, stop, react, try_provider, try_candidate, try_all,
}
use open_transcribe_mcp.Service.Limits.{enforce_preflight_limits}
use open_transcribe_mcp.Service.Transcribe.{trial, try_routed, after_preflight}

module _ (P : ModelDescriptor → Type 0) where
  call-served :
      (provider : Provider) (c : RouteCandidate) (source : ResolvedAudioSource)
      → P c.model
      → All P (call provider c source).recipients
  unfolding call
  call-served provider c source p =
      elim (Bool-cases (is_oversized source.size_bytes c.model.max_audio_bytes)) [
        | inl over ↦ rw over tt
        | inr under ↦ rw under (p, tt)
      ]

call-few :
    (provider : Provider) (c : RouteCandidate) (source : ResolvedAudioSource)
    → length (call provider c source).recipients ≤ 1
unfolding call
call-few provider c source =
    elim (Bool-cases (is_oversized source.size_bytes c.model.max_audio_bytes)) [
      | inl over ↦ rw over (omega arith)
      | inr under ↦ rw under (omega arith)
    ]

module _ (show : Detail → String) (service : Service) (request : TranscribeAudioRequest)
    (worlds : ℕ → World) (named : (n : ℕ) → str_eq (worlds n).path "" ≡ false)
    (P : ModelDescriptor → Type 0) where
  -- Audio goes to permitted providers, to one only without fallback, and no file is left.
  pub record IsFair (t : Trial) : Type 0 where
    pub permitted :
        All (λ m. P m × (permits_provider service.policy m.provider ≡ true)) t.recipients
    pub single : request.allow_fallback ≡ false → length t.recipients ≤ 1
    pub removed : All (λ f. f ≡ none) t.files

  stop-IsFair :
      (failures : List FallbackAttempt)
      (outcome : Result (Option (CanonicalTranscript × RouteCandidate)))
      → IsFair (stop failures outcome)
  stop-IsFair failures outcome = record { permitted = tt; single = λ h. omega arith; removed = tt }

  module _ (next : List FallbackAttempt → Trial)
      (fair : (more : List FallbackAttempt) → IsFair (next more)) where
    -- Without fallback nothing follows an attempt.
    record IsReaction (t : Trial) : Type 0 where
      as_fair : IsFair t
      alone : request.allow_fallback ≡ false → t.recipients ≡ []

    stop-IsReaction :
        (failures : List FallbackAttempt)
        (outcome : Result (Option (CanonicalTranscript × RouteCandidate)))
        → IsReaction (stop failures outcome)
    stop-IsReaction failures outcome = record {
      as_fair = stop-IsFair failures outcome;
      alone = λ h. refl;
    }

    react-IsReaction :
        (failures : List FallbackAttempt) (c : RouteCandidate) (r : Result CanonicalTranscript)
        → IsReaction (react show service request worlds next failures c r)
    unfolding react
    react-IsReaction failures c (ok t) = stop-IsReaction failures _
    react-IsReaction failures c (err (provider_error r)) =
        elim (Bool-cases (not r.retryable || not request.allow_fallback)) [
          | inl final ↦ rw final (stop-IsReaction failures (err (provider_error r)))
          | inr again ↦ rw again (record { as_fair = fair _; alone = λ h. absurd (ground arith) })
        ]
    react-IsReaction failures c (err (open_transcribe_error r)) = stop-IsReaction failures _
    react-IsReaction failures c (err (runtime_error m)) = stop-IsReaction failures _

    try_provider-IsFair :
        (failures : List FallbackAttempt) (n : ℕ) (c : RouteCandidate) (r : Result Provider)
        → P c.model
        → permits_provider service.policy c.model.provider ≡ true
        → IsFair (try_provider show service request worlds next failures n c r)
    unfolding try_provider
    try_provider-IsFair failures n c (err e) p allowed = stop-IsFair failures (err e)
    try_provider-IsFair failures n c (ok provider) p allowed =
        let broker = service.source_broker in
        let url = c.request.request.source.url in
        let delivery = c.request.request.source_delivery in
        let session =
          resolve broker.settings broker.policy (worlds n) (call provider c) url delivery c.model in
        let (served, few) =
          resolve-served broker.settings broker.policy (worlds n) (call provider c)
            (λ m. P m × (permits_provider service.policy m.provider ≡ true)) 1
            (λ source.
              call-served (λ m. P m × (permits_provider service.policy m.provider ≡ true)) provider
                c source (p, allowed))
            (call-few provider c) url delivery c.model in
        let clean =
          resolve-IsClean broker.settings broker.policy (worlds n) (call provider c) url delivery
            c.model (named n) in
        let rest = react-IsReaction failures c session.result in
        record {
          permitted = All-append _ session.recipients _ served rest.as_fair.permitted;
          single = λ h. rw (rest.alone h) (omega (arith, few, length-append session.recipients []));
          removed = (clean.removed, rest.as_fair.removed);
        }

    require_provider-permits :
        (c : RouteCandidate) (u : Unit {0})
        → require_provider service.policy c.model.provider (some c.model.model) ≡ ok u
        → permits_provider service.policy c.model.provider ≡ true
    unfolding require_provider
    require_provider-permits c u e = ground arith

    try_candidate-IsFair :
        (failures : List FallbackAttempt) (n : ℕ) (c : RouteCandidate) (r : Result (Unit {0}))
        → P c.model
        → ((u : Unit {0}) → r ≡ ok u → permits_provider service.policy c.model.provider ≡ true)
        → IsFair (try_candidate show service request worlds next failures n c r)
    unfolding try_candidate
    try_candidate-IsFair failures n c (err e) p allowed = stop-IsFair failures (err e)
    try_candidate-IsFair failures n c (ok u) p allowed =
        try_provider-IsFair failures n c (get_provider service.registry c.model.provider) p
          (allowed u refl)

  try_all-IsFair :
      (n : ℕ) (failures : List FallbackAttempt) (cs : List RouteCandidate)
      → All (λ c. P c.model) cs
      → IsFair (try_all show service request worlds n failures cs)
  unfolding try_all
  try_all-IsFair n failures [] h = stop-IsFair failures (ok none)
  try_all-IsFair n failures (c ∷ cs) (p, h) =
      try_candidate-IsFair (λ more. try_all show service request worlds (suc n) more cs)
        (λ more. try_all-IsFair (suc n) more cs h) failures n c
        (require_provider service.policy c.model.provider (some c.model.model)) p
        (require_provider-permits (λ more. stop more (ok none)) (λ more. stop-IsFair more (ok none))
          c)

  after_preflight-IsFair :
      (cs : List RouteCandidate) (r : Result (Unit {0}))
      → All (λ c. P c.model) cs
      → IsFair (after_preflight show service worlds request cs r)
  unfolding after_preflight
  after_preflight-IsFair cs (err e) h = stop-IsFair [] (err e)
  after_preflight-IsFair cs (ok u) h = try_all-IsFair 0 [] cs h

  try_routed-IsFair :
      (r : Result (List RouteCandidate))
      → ((cs : List RouteCandidate) → r ≡ ok cs → All (λ c. P c.model) cs)
      → IsFair (try_routed show service worlds request r)
  unfolding try_routed
  try_routed-IsFair (err e) h = stop-IsFair [] (err e)
  try_routed-IsFair (ok []) h = stop-IsFair [] (err (runtime_error "IndexError"))
  try_routed-IsFair (ok (c ∷ cs)) h =
      after_preflight-IsFair (c ∷ cs) (enforce_preflight_limits service request c.model)
        (h (c ∷ cs) refl)

-- Whatever the providers and the network answer, the attempts of a request hand audio only to
-- models whose provider is configured and is permitted by the router's policy and by the
-- service's own, to one model at most if the request allows no fallback, and leave no temporary
-- file behind. (The router's registry is a catalogue, and no file's path is empty.)
pub trial-IsFair :
    (show : Detail → String) (service : Service) (request : TranscribeAudioRequest)
    (worlds : ℕ → World)
    → IsCatalog service.router.registry
    → (named : (n : ℕ) → str_eq (worlds n).path "" ≡ false)
    → IsFair show service request worlds named
        (IsAuthorized service.router.policy)
        (trial show service worlds request)
unfolding trial
trial-IsFair show service request worlds c named =
    try_routed-IsFair show service request worlds named (IsAuthorized service.router.policy)
      (route service.router request) (route-IsAuthorized service.router c request)
