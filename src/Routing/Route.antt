-- ===== src/Routing/Route.antt =====
-- `Router.route` of routing/router.py.
use open_transcribe_mcp.Base.{
  String, Bool, false, not, ◌&&◌, Option, none, some, List, [], ◌∷◌, map, take, str_eq,
  if◌then◌else◌,
}
use open_transcribe_mcp.Base.Text.{str_lt, join, ◌+s◌}
use open_transcribe_mcp.Base.Dict.{Dict}
use open_transcribe_mcp.Base.Sequences.{keep_if, is_nonempty, sort_by}
use open_transcribe_mcp.Domain.Errors.{
  Result, ok, err, open_transcribe_error, raise, raise_for, ◌>>=◌, ◌>>◌, provider_unavailable,
  unsupported_capability, texts,
}
use open_transcribe_mcp.Domain.Audio.{TranscribeAudioRequest, provider_value, is_auto}
use open_transcribe_mcp.Domain.Capabilities.{ModelDescriptor, key}
use open_transcribe_mcp.Settings.{Settings}
use open_transcribe_mcp.Policy.{TranscriptionPolicy, permits_provider, require_provider}
use open_transcribe_mcp.Providers.Registry.{Registry, get_provider, get_model, list_models}
use open_transcribe_mcp.Routing.Candidate.{RouteCandidate, candidate, missing_capabilities}
use open_transcribe_mcp.Routing.Order.{order}

-- The object's fields; `policies` is the table of that name in the routing file.
pub record Router : Type 0 where
  pub registry : Registry
  pub settings : Settings
  pub policy : TranscriptionPolicy
  pub policies : Dict (List String)

-- The variables `models` and `explicit`.
pub record Selection : Type 0 where
  pub models : List ModelDescriptor
  pub explicit : Option ModelDescriptor

abbrev pub is_usable : TranscriptionPolicy → ModelDescriptor → Bool
is_usable policy m = m.configured && permits_provider policy m.provider

unfoldable pub permitted_models : Router → List ModelDescriptor
unfolding keep_if
permitted_models r = keep_if (is_usable r.policy) (list_models r.registry)

unfoldable pub choose_explicit :
    Registry → String → Option String → List ModelDescriptor → Result ModelDescriptor
choose_explicit registry provider model [] = get_provider registry provider >>= λ _.
    raise_for provider_unavailable ("Provider " +s provider +s " is not configured.")
      (some provider) none
choose_explicit registry provider none (first ∷ rest) = ok first
choose_explicit registry provider (some model) (first ∷ rest) = get_model registry provider model

abbrev pub put_first : ModelDescriptor → List ModelDescriptor → List ModelDescriptor
put_first explicit models = explicit ∷ keep_if (λ m. not (str_eq (key m) (key explicit))) models

unfoldable pub select_explicit :
    Router → TranscribeAudioRequest → List ModelDescriptor → Result Selection
unfolding choose_explicit
select_explicit r request models =
    let provider = provider_value request.provider in
    require_provider r.policy provider request.model
    >> (choose_explicit r.registry provider request.model
          (keep_if (λ m. str_eq m.provider provider) models)
        >>= λ explicit.
            ok (record { models = put_first explicit models; explicit = some explicit }))

unfoldable pub select_models :
    Router → TranscribeAudioRequest → List ModelDescriptor → Result Selection
unfolding is_auto
select_models r request models =
    if is_auto request.provider
    then ok (record { models = models; explicit = none })
    else select_explicit r request models

-- [(model, self._missing_capabilities(request, model)) for model in models]
unfoldable pub evaluate :
    TranscribeAudioRequest → List ModelDescriptor → List (ModelDescriptor × List String)
evaluate request models = map (λ m. (m, missing_capabilities request m)) models

unfoldable pub compatible_of :
    TranscribeAudioRequest → List (ModelDescriptor × List String) → List RouteCandidate
unfolding is_nonempty
compatible_of request [] = []
compatible_of request ((m, missing) ∷ evaluated) =
    let rest = compatible_of request evaluated in
    if is_nonempty missing then rest else candidate request m [] ∷ rest

unfoldable pub downgraded_of :
    TranscribeAudioRequest → List (ModelDescriptor × List String) → List RouteCandidate
downgraded_of request [] = []
downgraded_of request ((m, missing) ∷ evaluated) =
    candidate request m missing ∷ downgraded_of request evaluated

abbrev pub refuse_model : ModelDescriptor → List String → Result (List RouteCandidate)
refuse_model m missing = err (
    open_transcribe_error (record {
      code = unsupported_capability;
      message = key m +s " does not support: " +s join ", " missing +s ".";
      provider = some m.provider;
      model = some m.model;
      retryable = false;
      details = ("unsupported", texts missing) ∷ [];
    }))

-- The test of the explicit model, which goes to the front if a downgrade is allowed.
unfoldable pub with_explicit :
    TranscribeAudioRequest
    → Option ModelDescriptor
    → List RouteCandidate
    → Result (List RouteCandidate)
unfolding is_nonempty
with_explicit request none compatible = ok compatible
with_explicit request (some m) compatible =
    let missing = missing_capabilities request m in
    if is_nonempty missing
    then (if request.strict_capabilities
        then refuse_model m missing
        else ok (candidate request m missing ∷ compatible))
    else ok compatible

-- sorted({name for _, missing in evaluated for name in missing})
unfoldable pub insert_name : String → List String → List String
insert_name x [] = x ∷ []
insert_name x (y ∷ ys) =
    if str_lt x y then x ∷ y ∷ ys else if str_eq x y then y ∷ ys else y ∷ insert_name x ys

unfoldable pub insert_names : List String → List String → List String
unfolding insert_name
insert_names [] names = names
insert_names (x ∷ xs) names = insert_name x (insert_names xs names)

unfoldable pub requested_names : List (ModelDescriptor × List String) → List String
unfolding insert_names
requested_names [] = []
requested_names ((m, missing) ∷ evaluated) = insert_names missing (requested_names evaluated)

unfoldable pub or_downgraded :
    TranscribeAudioRequest
    → List (ModelDescriptor × List String)
    → List RouteCandidate
    → List RouteCandidate
unfolding is_nonempty downgraded_of
or_downgraded request evaluated compatible =
    if not (is_nonempty compatible) && not request.strict_capabilities
    then downgraded_of request evaluated
    else compatible

unfoldable pub require_some :
    List (ModelDescriptor × List String) → List RouteCandidate → Result (List RouteCandidate)
unfolding requested_names
require_some evaluated [] = err (
    open_transcribe_error (record {
      code = unsupported_capability;
      message = "No configured model satisfies the requested capabilities.";
      provider = none;
      model = none;
      retryable = false;
      details = ("unsatisfied", texts (requested_names evaluated)) ∷ [];
    }))
require_some evaluated (c ∷ cs) = ok (c ∷ cs)

-- key=lambda candidate: candidate.model.key != explicit.key
abbrev pub explicit_before : String → RouteCandidate → RouteCandidate → Bool
explicit_before k a b = str_eq (key a.model) k && not (str_eq (key b.model) k)

unfoldable pub explicit_first : Option ModelDescriptor → List RouteCandidate → List RouteCandidate
unfolding sort_by
explicit_first none ordered = ordered
explicit_first (some m) [] = []
explicit_first (some m) (c ∷ cs) =
    if not (str_eq (key c.model) (key m))
    then sort_by (explicit_before (key m)) (c ∷ cs)
    else c ∷ cs

-- Which candidates a fallback may reach.
unfoldable pub restrict :
    TranscriptionPolicy → TranscribeAudioRequest → List RouteCandidate → List RouteCandidate
unfolding keep_if
restrict policy request [] = []
restrict policy request (c ∷ cs) =
    if not request.allow_fallback
    then take 1 (c ∷ cs)
    else if not policy.allow_cross_provider_fallback
    then keep_if (λ item. str_eq item.model.provider c.model.provider) (c ∷ cs)
    else c ∷ cs

unfoldable pub rank :
    Router → TranscribeAudioRequest → Selection → List RouteCandidate → List RouteCandidate
unfolding restrict explicit_first
rank r request selection compatible = restrict r.policy request (
    explicit_first selection.explicit
      (order r.settings r.policies request.routing_policy compatible selection.explicit))

unfoldable pub candidates_of : TranscribeAudioRequest → Selection → Result (List RouteCandidate)
unfolding evaluate compatible_of or_downgraded require_some with_explicit
candidates_of request selection =
    let evaluated = evaluate request selection.models in
    with_explicit request selection.explicit (compatible_of request evaluated) >>= λ compatible.
    require_some evaluated (or_downgraded request evaluated compatible)

unfoldable pub require_models : List ModelDescriptor → Result (List ModelDescriptor)
require_models [] =
    raise provider_unavailable "No transcription provider is enabled and configured."
require_models (m ∷ models) = ok (m ∷ models)

unfoldable pub route : Router → TranscribeAudioRequest → Result (List RouteCandidate)
unfolding require_models select_models candidates_of rank permitted_models
route r request = do
  models ← require_models (permitted_models r)
  selection ← select_models r request models
  compatible ← candidates_of request selection
  ok (rank r request selection compatible)
