-- ===== src/Service/History.antt =====
-- The failures that a request notes are those of the candidates before the one that answered.
use open_transcribe_mcp.Base.{
  ℕ, suc, ◌≡◌, refl, ap, ◌∙◌, String, true, false, not, ◌||◌, List, [], ◌∷◌, ◌++◌, Option, none,
  some, Bool, if◌then◌else◌,
}
use open_transcribe_mcp.Domain.Errors.{
  Result, ok, err, Detail, provider_error, open_transcribe_error, runtime_error, Exception,
}
use open_transcribe_mcp.Domain.Outcomes.{err-ne-ok}
use open_transcribe_mcp.Domain.Audio.{TranscribeAudioRequest}
use open_transcribe_mcp.Domain.Transcript.{CanonicalTranscript, FallbackAttempt}
use open_transcribe_mcp.Providers.Catalog.{Provider}
use open_transcribe_mcp.Providers.Registry.{get_provider}
use open_transcribe_mcp.Sources.Broker.{World}
use open_transcribe_mcp.Policy.{require_provider}
use open_transcribe_mcp.Routing.Candidate.{RouteCandidate}
use open_transcribe_mcp.Routing.Route.{route}
use open_transcribe_mcp.Service.Attempts.{
  Service, Trial, stop, reason_of, react, try_provider, try_candidate, try_all,
}
use open_transcribe_mcp.Service.Limits.{enforce_preflight_limits}
use open_transcribe_mcp.Service.Transcribe.{after_preflight, try_routed, trial}

-- One failure for each candidate, in order.
pub data AreAttempts : List RouteCandidate → List FallbackAttempt → Type 0 where
  empty : AreAttempts [] []
  attempted :
      (c : RouteCandidate) (cs : List RouteCandidate) (f : FallbackAttempt)
      (fs : List FallbackAttempt)
      → f.provider ≡ c.model.provider
      → f.model ≡ c.model.model
      → AreAttempts cs fs
      → AreAttempts (c ∷ cs) (f ∷ fs)

-- The candidates are those that failed, the one that answered, and the rest.
pub record IsHistory (cs : List RouteCandidate) (c : RouteCandidate)
    (failures : List FallbackAttempt) : Type 0 where
  pub earlier : List RouteCandidate
  pub later : List RouteCandidate
  pub candidates : cs ≡ earlier ++ c ∷ later
  pub attempts : AreAttempts earlier failures

-- And what was noted before is kept.
record Continues (cs : List RouteCandidate) (before : List FallbackAttempt) (c : RouteCandidate)
    (failures : List FallbackAttempt) : Type 0 where
  more : List FallbackAttempt
  failures_are : failures ≡ before ++ more
  history : IsHistory cs c more

abbrev Told : List RouteCandidate → List FallbackAttempt → Trial → Type 0
Told cs before r =
    (t : CanonicalTranscript) (c : RouteCandidate)
    → r.outcome ≡ ok (some (t, c))
    → Continues cs before c r.failures

append_nil : (fs : List FallbackAttempt) → fs ≡ fs ++ []
append_nil [] = refl
append_nil (f ∷ fs) = ap (λ x. f ∷ x) (append_nil fs)

append_one :
    (fs : List FallbackAttempt) (f : FallbackAttempt) (gs : List FallbackAttempt)
    → (fs ++ f ∷ []) ++ gs ≡ fs ++ f ∷ gs
append_one [] f gs = refl
append_one (x ∷ fs) f gs = ap (λ l. x ∷ l) (append_one fs f gs)

none-ne-some :
    {t : CanonicalTranscript} {c : RouteCandidate}
    → ◌≡◌ {A = Result (Option (CanonicalTranscript × RouteCandidate))} (ok none) (ok (some (t, c)))
    → ⊥
none-ne-some e = cc

answered-eq :
    {t u : CanonicalTranscript} {c d : RouteCandidate}
    → ◌≡◌ {A = Result (Option (CanonicalTranscript × RouteCandidate))}
        (ok (some (t, c)))
        (ok (some (u, d)))
    → c ≡ d
answered-eq e = cc

module _ (show : Detail → String) (service : Service) (request : TranscribeAudioRequest)
    (worlds : ℕ → World) where
  failed-Told :
      (cs : List RouteCandidate) (before : List FallbackAttempt) (c : RouteCandidate)
      (f : FallbackAttempt) (r : Trial)
      → f.provider ≡ c.model.provider
      → f.model ≡ c.model.model
      → Told cs (before ++ f ∷ []) r
      → Told (c ∷ cs) before r
  failed-Told cs before c f r p m h t d e =
      let k = h t d e in
      record {
        more = f ∷ k.more;
        failures_are = k.failures_are ∙ append_one before f k.more;
        history = record {
          earlier = c ∷ k.history.earlier;
          later = k.history.later;
          candidates = ap (λ x. c ∷ x) k.history.candidates;
          attempts = attempted c k.history.earlier f k.more p m k.history.attempts;
        };
      }

  error-Told :
      (cs : List RouteCandidate) (before : List FallbackAttempt) (c : RouteCandidate) (final : Bool)
      (x : Exception) (next : Trial)
      → Told (c ∷ cs) before next
      → Told (c ∷ cs) before (if final then stop before (err x) else next)
  error-Told cs before c true x next h t d e = absurd (err-ne-ok e)
  error-Told cs before c false x next h t d e = h t d e

  react-Told :
      (cs : List RouteCandidate) (next : List FallbackAttempt → Trial)
      (before : List FallbackAttempt) (c : RouteCandidate) (r : Result CanonicalTranscript)
      → ((more : List FallbackAttempt) → Told cs more (next more))
      → Told (c ∷ cs) before (react show service request worlds next before c r)
  unfolding react
  react-Told cs next before c (ok transcript) h t d e = record {
    more = [];
    failures_are = append_nil before;
    history = record {
      earlier = [];
      later = cs;
      candidates = ap (λ x. x ∷ cs) (answered-eq e);
      attempts = empty;
    };
  }
  react-Told cs next before c (err (open_transcribe_error r)) h t d e = absurd (err-ne-ok e)
  react-Told cs next before c (err (runtime_error m)) h t d e = absurd (err-ne-ok e)
  react-Told cs next before c (err (provider_error r)) h t d e =
      let f : FallbackAttempt = record {
        provider = c.model.provider;
        model = c.model.model;
        reason = reason_of show r;
      } in
      error-Told cs before c (not r.retryable || not request.allow_fallback) (provider_error r)
        (next (before ++ f ∷ []))
        (failed-Told cs before c f (next (before ++ f ∷ [])) refl refl (h (before ++ f ∷ []))) t d e

  try_provider-Told :
      (cs : List RouteCandidate) (next : List FallbackAttempt → Trial)
      (before : List FallbackAttempt) (n : ℕ) (c : RouteCandidate) (r : Result Provider)
      → ((more : List FallbackAttempt) → Told cs more (next more))
      → Told (c ∷ cs) before (try_provider show service request worlds next before n c r)
  unfolding try_provider
  try_provider-Told cs next before n c (err x) h t d e = absurd (err-ne-ok e)
  try_provider-Told cs next before n c (ok provider) h t d e = react-Told cs next before c _ h t d e

  try_candidate-Told :
      (cs : List RouteCandidate) (next : List FallbackAttempt → Trial)
      (before : List FallbackAttempt) (n : ℕ) (c : RouteCandidate) (r : Result (Unit {0}))
      → ((more : List FallbackAttempt) → Told cs more (next more))
      → Told (c ∷ cs) before (try_candidate show service request worlds next before n c r)
  unfolding try_candidate
  try_candidate-Told cs next before n c (err x) h t d e = absurd (err-ne-ok e)
  try_candidate-Told cs next before n c (ok u) h t d e =
      try_provider-Told cs next before n c (get_provider service.registry c.model.provider) h t d e

  try_all-Told :
      (n : ℕ) (before : List FallbackAttempt) (cs : List RouteCandidate)
      → Told cs before (try_all show service request worlds n before cs)
  unfolding try_all
  try_all-Told n before [] t d e = absurd (none-ne-some e)
  try_all-Told n before (c ∷ cs) t d e =
      try_candidate-Told cs (λ more. try_all show service request worlds (suc n) more cs) before n c
        (require_provider service.policy c.model.provider (some c.model.model))
        (λ more. try_all-Told (suc n) more cs) t d e

  -- What is true of the trial of a request.
  pub IsAnswered : Trial → Type 0
  IsAnswered r =
      (t : CanonicalTranscript) (c : RouteCandidate)
      → r.outcome ≡ ok (some (t, c))
      → (cs : List RouteCandidate) × (route service.router request ≡ ok cs)
        × IsHistory cs c r.failures

  try_routed-IsAnswered :
      (routed : Result (List RouteCandidate))
      → route service.router request ≡ routed
      → IsAnswered (try_routed show service worlds request routed)
  unfolding try_routed after_preflight IsAnswered
  try_routed-IsAnswered (err x) same t d e = absurd (err-ne-ok e)
  try_routed-IsAnswered (ok []) same t d e = absurd (err-ne-ok e)
  try_routed-IsAnswered (ok (c ∷ cs)) same t d e =
      preflight (enforce_preflight_limits service request c.model) t d e
    where
      preflight :
          (limits : Result (Unit {0}))
          → IsAnswered (after_preflight show service worlds request (c ∷ cs) limits)
      preflight (err x) t d e = absurd (err-ne-ok e)
      preflight (ok u) t d e =
          let told = try_all-Told 0 [] (c ∷ cs) t d e in
          (c ∷ cs, same, rw told.failures_are told.history)

  pub trial-IsAnswered :
      (t : CanonicalTranscript) (c : RouteCandidate)
      → (trial show service worlds request).outcome ≡ ok (some (t, c))
      → (cs : List RouteCandidate) × (route service.router request ≡ ok cs)
        × IsHistory cs c (trial show service worlds request).failures
  unfolding trial IsAnswered
  trial-IsAnswered = try_routed-IsAnswered (route service.router request) refl
