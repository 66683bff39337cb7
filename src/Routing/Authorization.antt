-- ===== src/Routing/Authorization.antt =====
-- Audio is only ever routed to a provider that the installation permits and has configured.
use open_transcribe_mcp.Base.{
  String, ◌≡◌, sym, ◌∙◌, Bool, true, false, not, Option, none, some, List, [], ◌∷◌, All, arith,
  str_eq, Bool-cases, inl, inr, eq_iff, ap,
}
use open_transcribe_mcp.Base.Dict.{Dict, values}
use open_transcribe_mcp.Base.Sequences.{keep_if, All-keep_if_of, All-impl}
use open_transcribe_mcp.Domain.Errors.{ok}
use open_transcribe_mcp.Domain.Audio.{
  TranscribeAudioRequest, ProviderId, auto, microsoft, elevenlabs, groq, provider_value, is_auto,
}
use open_transcribe_mcp.Domain.Capabilities.{ModelDescriptor, key, make_key}
use open_transcribe_mcp.Policy.{TranscriptionPolicy, permits_provider, require_provider}
use open_transcribe_mcp.Providers.Registry.{get_provider, list_models}
use open_transcribe_mcp.Providers.Registry.Catalogued.{
  IsCatalog, IsEntry, NoSlash, get_model-entry, microsoft-NoSlash, elevenlabs-NoSlash, groq-NoSlash,
}
use open_transcribe_mcp.Routing.Candidate.{RouteCandidate, candidate}
use open_transcribe_mcp.Routing.Route.{
  Router, Selection, route, permitted_models, choose_explicit, select_explicit, select_models,
  is_usable,
}
use open_transcribe_mcp.Domain.Outcomes.{>>=-eq-ok, ok-injective, err-ne-ok}
use open_transcribe_mcp.Routing.Steps.{route-IsRouted, IsRouted-All, AtExplicit}

-- The recipient may receive audio: this installation permits it and has its credentials.
pub record IsAuthorized (policy : TranscriptionPolicy) (m : ModelDescriptor) : Type 0 where
  pub configured : m.configured ≡ true
  pub permitted : permits_provider policy m.provider ≡ true

pub provider_value-NoSlash : (p : ProviderId) → NoSlash (provider_value p)
unfolding provider_value
provider_value-NoSlash auto = omega arith
provider_value-NoSlash microsoft = microsoft-NoSlash
provider_value-NoSlash elevenlabs = elevenlabs-NoSlash
provider_value-NoSlash groq = groq-NoSlash

values-All :
    (conf : String → Bool) (d : Dict ModelDescriptor)
    → All (IsEntry conf) d
    → All (λ m. m.configured ≡ conf m.provider) (values d)
unfolding values
values-All conf [] h = tt
values-All conf ((k, m) ∷ d) (e, h) = (e.2, values-All conf d h)

require_provider-eq-ok :
    (policy : TranscriptionPolicy) (p : String) (name : Option String) (u : Unit {0})
    → require_provider policy p name ≡ ok u
    → permits_provider policy p ≡ true
unfolding require_provider
require_provider-eq-ok policy p name u e = ground arith

module _ (r : Router) (c : IsCatalog r.registry) where
  abbrev Usable : ModelDescriptor → Type 0
  Usable m = IsAuthorized r.policy m × (m.configured ≡ c.configured_of m.provider)

  is_usable-Usable :
      (m : ModelDescriptor)
      → m.configured ≡ c.configured_of m.provider
      → is_usable r.policy m ≡ true
      → Usable m
  is_usable-Usable m e h = (record { configured = ground arith; permitted = ground arith }, e)

  keep-Usable :
      (ms : List ModelDescriptor)
      → All (λ m. m.configured ≡ c.configured_of m.provider) ms
      → All Usable (keep_if (is_usable r.policy) ms)
  unfolding keep_if
  keep-Usable [] h = tt
  keep-Usable (m ∷ ms) (e, h) = elim (Bool-cases (is_usable r.policy m)) [
    | inl usable ↦ rw usable (is_usable-Usable m e usable, keep-Usable ms h)
    | inr unusable ↦ rw unusable (keep-Usable ms h)
  ]

  permitted_models-Usable : All Usable (permitted_models r)
  unfolding permitted_models list_models
  permitted_models-Usable =
      keep-Usable (values r.registry.models)
        (values-All c.configured_of r.registry.models c.entries)

  choose_explicit-Usable :
      (p : String) (name : Option String) (ms : List ModelDescriptor) (m : ModelDescriptor)
      → NoSlash p
      → permits_provider r.policy p ≡ true
      → All (λ n. Usable n × (n.provider ≡ p)) ms
      → choose_explicit r.registry p name ms ≡ ok m
      → Usable m × (m.provider ≡ p)
  unfolding choose_explicit
  choose_explicit-Usable p name [] m slash permits h e =
      absurd (err-ne-ok (>>=-eq-ok (get_provider r.registry p) _ e).2)
  choose_explicit-Usable p none (first ∷ rest) m slash permits (h, _) e = rw (← ok-injective e) h
  choose_explicit-Usable p (some name) (first ∷ rest) m slash permits (h, _) e =
      let (same_key, same, conf) = get_model-entry c p name m slash e in
      let configured : m.configured ≡ true =
        conf ∙ ap c.configured_of (same ∙ sym h.1) ∙ sym h.0.1 ∙ h.0.0.configured in
      ((record { configured = configured; permitted = rw same permits }, conf), same)

  of_provider-Usable :
      (p : String) (ms : List ModelDescriptor)
      → All Usable ms
      → All (λ n. Usable n × (n.provider ≡ p)) (keep_if (λ m. str_eq m.provider p) ms)
  unfolding keep_if
  of_provider-Usable p [] h = tt
  of_provider-Usable p (m ∷ ms) (u, h) = elim (Bool-cases (str_eq m.provider p)) [
    | inl same ↦ rw same ((u, (eq_iff m.provider p).0 same), of_provider-Usable p ms h)
    | inr other ↦ rw other (of_provider-Usable p ms h)
  ]

  -- The explicit model, if the request names a provider.
  abbrev pub IsExplicit : TranscribeAudioRequest → Option ModelDescriptor → Type 0
  IsExplicit request none = is_auto request.provider ≡ true
  IsExplicit request (some m) =
      IsAuthorized r.policy m
      × (is_auto request.provider ≡ false)
      × (m.provider ≡ provider_value request.provider)
      × ((name : String) → request.model ≡ some name → key m ≡ make_key m.provider name)

  pub record IsSelected (request : TranscribeAudioRequest) (s : Selection) : Type 0 where
    pub usable : All (IsAuthorized r.policy) s.models
    pub explicit : IsExplicit request s.explicit

  authorized : (m : ModelDescriptor) → Usable m → IsAuthorized r.policy m
  authorized m u = u.0

  choose_explicit-key :
      (p : String) (name : Option String) (ms : List ModelDescriptor) (m : ModelDescriptor)
      → NoSlash p
      → choose_explicit r.registry p name ms ≡ ok m
      → (n : String) → name ≡ some n
      → key m ≡ make_key m.provider n
  unfolding choose_explicit
  choose_explicit-key p name [] m slash e n same =
      absurd (err-ne-ok (>>=-eq-ok (get_provider r.registry p) _ e).2)
  choose_explicit-key p none (first ∷ rest) m slash e n same = cc
  choose_explicit-key p (some name) (first ∷ rest) m slash e n same =
      let (same_key, provider, _) = get_model-entry c p name m slash e in
      cc (same_key, provider, same)

  select_explicit-IsSelected :
      (request : TranscribeAudioRequest) (s : Selection)
      → is_auto request.provider ≡ false
      → select_explicit r request (permitted_models r) ≡ ok s
      → IsSelected request s
  unfolding select_explicit
  select_explicit-IsSelected request s named e =
      let p = provider_value request.provider in
      let slash = provider_value-NoSlash request.provider in
      let (u, required, e1) = >>=-eq-ok (require_provider r.policy p request.model) _ e in
      let (m, chosen, e2) =
        >>=-eq-ok
          (choose_explicit r.registry p request.model
            (keep_if (λ m. str_eq m.provider p) (permitted_models r)))
          _ e1 in
      let (usable, provider) =
        choose_explicit-Usable p request.model _ m slash
          (require_provider-eq-ok r.policy p request.model u required)
          (of_provider-Usable p (permitted_models r) permitted_models-Usable) chosen in
      rw (← ok-injective e2) (record {
        usable = (
          usable.0,
          All-keep_if_of (IsAuthorized r.policy) (λ x. not (str_eq (key x) (key m)))
              (permitted_models r)
              (All-impl Usable (IsAuthorized r.policy) (permitted_models r) authorized
                permitted_models-Usable),
        );
        explicit =
            (usable.0, named, provider, choose_explicit-key p request.model _ m slash chosen);
      })

  pub select_models-IsSelected :
      (request : TranscribeAudioRequest) (s : Selection)
      → select_models r request (permitted_models r) ≡ ok s
      → IsSelected request s
  unfolding select_models
  select_models-IsSelected request s e = elim (Bool-cases (is_auto request.provider)) [
    | inl auto' ↦ rw (← ok-injective (rw auto' at e)) (record {
      usable =
          All-impl Usable (IsAuthorized r.policy) (permitted_models r) authorized
            permitted_models-Usable;
      explicit = auto';
    })
    | inr named ↦ select_explicit-IsSelected request s named (rw named at e)
  ]

explicit-IsAuthorized :
    (r : Router) (c : IsCatalog r.registry) (request : TranscribeAudioRequest)
    (explicit : Option ModelDescriptor)
    → IsExplicit r c request explicit
    → AtExplicit (λ x. IsAuthorized r.policy x.model) request explicit
unfolding candidate
explicit-IsAuthorized r c request none h = tt
explicit-IsAuthorized r c request (some m) h = h.0

-- Every candidate of a routed request, the fallbacks included, is a model whose provider is
-- configured and is permitted by the policy of this installation.
pub route-IsAuthorized :
    (r : Router) (c : IsCatalog r.registry) (request : TranscribeAudioRequest)
    (cs : List RouteCandidate)
    → route r request ≡ ok cs
    → All (λ x. IsAuthorized r.policy x.model) cs
unfolding candidate
route-IsAuthorized r c request cs e =
    let routed = route-IsRouted r request cs e in
    let selected = select_models-IsSelected r c request routed.selection routed.selected in
    IsRouted-All (λ x. IsAuthorized r.policy x.model) r request cs routed selected.usable
      (explicit-IsAuthorized r c request routed.selection.explicit selected.explicit)
