-- ===== src/Tests/Routes.antt =====
-- Requests that are routed in the installation.
use open_transcribe_mcp.Base.{◌≡◌, ◌≢◌, refl, List, [], ◌∷◌, All, true, false, none}
use open_transcribe_mcp.Domain.Errors.{Result, ok, err}
use open_transcribe_mcp.Domain.Audio.{TranscribeAudioRequest, cost}
use open_transcribe_mcp.Domain.Capabilities.{key}
use open_transcribe_mcp.Base.Dict.{values, insert, lookup}
use open_transcribe_mcp.Providers.Registry.{list_models, from_settings, get_model}
use open_transcribe_mcp.Providers.Catalog.{
  microsoft_configured, elevenlabs_configured, groq_configured,
}
use open_transcribe_mcp.Policy.{permits_provider, require_provider}
use open_transcribe_mcp.Providers.Registry.Catalogued.{IsCatalog, from_settings-IsCatalog}
use open_transcribe_mcp.Routing.Candidate.{
  RouteCandidate, candidate, missing_capabilities, has_mode,
}
use open_transcribe_mcp.Base.Float.{of_int, one}
use open_transcribe_mcp.Providers.Catalog.{groq_descriptor}
use open_transcribe_mcp.Routing.Strict.{Honours, route-Honours}
use open_transcribe_mcp.Routing.Capabilities.{IsBound, route-IsBound}
use open_transcribe_mcp.Routing.Reported.{IsReported, route-IsReported}
use open_transcribe_mcp.Routing.Explicit.{route_explicit}
use open_transcribe_mcp.Routing.Ranking.{route_limits, route-nonempty}
use open_transcribe_mcp.Routing.Cost.{CostsNoMore, route_cheapest, route-perm}
use open_transcribe_mcp.Routing.Ordered.{IsOrdered, MayPrecede, route-IsOrdered}
use open_transcribe_mcp.Domain.Audio.{is_auto, is_fixed, provider_value, microsoft}
use open_transcribe_mcp.Domain.Capabilities.{make_key}
use open_transcribe_mcp.Routing.Route.{candidates_of, permitted_models, select_explicit}
use mathlib.Core.List.{Perm}
use open_transcribe_mcp.Routing.Order.{order, key_lt, sort_key}
use open_transcribe_mcp.Routing.Route.{route}
use open_transcribe_mcp.Routing.Authorization.{IsAuthorized, route-IsAuthorized}
use open_transcribe_mcp.Tests.Installation.{
  settings, registry, policy, router, any_request, cheap_request, named_request, prices, busy,
  rounded,
}

abbrev candidates_in : Result (List RouteCandidate) → List RouteCandidate
candidates_in (ok cs) = cs
candidates_in (err e) = []

abbrev candidates_for : TranscribeAudioRequest → List RouteCandidate
candidates_for request = candidates_in (route router request)

-- Only for a route without candidates.
abbrev no_candidate : RouteCandidate
no_candidate = candidate any_request (groq_descriptor settings.groq [] "" "") []

abbrev first_in : List RouteCandidate → RouteCandidate
first_in [] = no_candidate
first_in (c ∷ cs) = c

abbrev rest_in : List RouteCandidate → List RouteCandidate
rest_in [] = []
rest_in (c ∷ cs) = cs

abbrev first_for : TranscribeAudioRequest → RouteCandidate
first_for request = first_in (candidates_for request)

abbrev rest_for : TranscribeAudioRequest → List RouteCandidate
rest_for request = rest_in (candidates_for request)

any_routed : route router any_request ≡ ok (first_for any_request ∷ rest_for any_request)
unfolding route list_models values from_settings insert key microsoft_configured
    elevenlabs_configured groq_configured permits_provider missing_capabilities has_mode of_int one
    order key_lt sort_key candidate lookup select_explicit require_provider provider_value get_model
any_routed = refl

cheap_routed : route router cheap_request ≡ ok (first_for cheap_request ∷ rest_for cheap_request)
unfolding route list_models values from_settings insert key microsoft_configured
    elevenlabs_configured groq_configured permits_provider missing_capabilities has_mode of_int one
    order key_lt sort_key candidate lookup select_explicit require_provider provider_value get_model
cheap_routed = refl

named_routed : route router named_request ≡ ok (first_for named_request ∷ rest_for named_request)
unfolding route list_models values from_settings insert key microsoft_configured
    elevenlabs_configured groq_configured permits_provider missing_capabilities has_mode of_int one
    order key_lt sort_key candidate lookup select_explicit require_provider provider_value get_model
named_routed = refl

catalogued : IsCatalog registry
catalogued = from_settings-IsCatalog 0 rounded busy busy busy prices settings

from_settings-IsCatalog_example : IsCatalog registry
from_settings-IsCatalog_example = from_settings-IsCatalog 0 rounded busy busy busy prices settings

route-IsAuthorized_example :
    All (λ x. IsAuthorized policy x.model) (first_for any_request ∷ rest_for any_request)
route-IsAuthorized_example =
    route-IsAuthorized router catalogued any_request (first_for any_request ∷ rest_for any_request)
      any_routed

route-Honours_example : All (Honours any_request) (first_for any_request ∷ rest_for any_request)
route-Honours_example =
    route-Honours router any_request (first_for any_request ∷ rest_for any_request) refl any_routed

route-IsBound_example : All IsBound (first_for cheap_request ∷ rest_for cheap_request)
route-IsBound_example =
    route-IsBound router cheap_request (first_for cheap_request ∷ rest_for cheap_request)
      cheap_routed

route-IsReported_example :
    All (IsReported cheap_request) (first_for cheap_request ∷ rest_for cheap_request)
route-IsReported_example =
    route-IsReported router cheap_request (first_for cheap_request ∷ rest_for cheap_request)
      cheap_routed

named_by_user : is_auto named_request.provider ≡ false
unfolding is_auto
named_by_user = refl

chosen_freely : is_auto cheap_request.provider ≡ true
unfolding is_auto
chosen_freely = refl

ordered : is_fixed cheap_request.routing_policy ≡ false
unfolding is_fixed
ordered = refl

route_explicit_example :
    key (first_for named_request).model ≡ make_key (provider_value microsoft) "MAI-Transcribe-2"
route_explicit_example =
    route_explicit router catalogued named_request "MAI-Transcribe-2" (first_for named_request)
      (rest_for named_request) named_by_user refl named_routed

route_limits_example :
    (any_request.allow_fallback ≡ false → rest_for any_request ≡ [])
    × (policy.allow_cross_provider_fallback ≡ false
        → All
            (λ x. x.model.provider ≡ (first_for any_request).model.provider)
            (rest_for any_request))
route_limits_example =
    route_limits router any_request (first_for any_request) (rest_for any_request) any_routed

route-nonempty_example : (first_for any_request ∷ rest_for any_request) ≢ []
route-nonempty_example =
    route-nonempty router any_request (first_for any_request ∷ rest_for any_request) any_routed

route_cheapest_example : All (CostsNoMore (first_for cheap_request)) (rest_for cheap_request)
route_cheapest_example =
    route_cheapest router cheap_request (first_for cheap_request) (rest_for cheap_request)
      chosen_freely refl cheap_routed

route-IsOrdered_example :
    IsOrdered (MayPrecede settings [] cost) (first_for cheap_request ∷ rest_for cheap_request)
route-IsOrdered_example =
    route-IsOrdered router cheap_request (first_for cheap_request ∷ rest_for cheap_request)
      chosen_freely ordered cheap_routed

route-perm_example :
    (offered : List RouteCandidate) × (candidates_of cheap_request
        (record { models = permitted_models router; explicit = none })
      ≡ ok offered)
    × Perm (first_for cheap_request ∷ rest_for cheap_request) offered
route-perm_example =
    route-perm router cheap_request (first_for cheap_request ∷ rest_for cheap_request) chosen_freely
      ordered refl refl cheap_routed
