-- ===== src/Routing/Ranking.antt =====
-- The order of the candidates, and how far a fallback may reach.
use mathlib.Core.Path.{subst₂}
use open_transcribe_mcp.Base.{
  String, ◌≡◌, ◌≢◌, refl, sym, ◌∙◌, ap, Bool, true, false, Option, none, some, List, [], ◌∷◌, All,
  arith, Bool-cases, inl, inr, subst, str_eq, eq_iff,
}
use open_transcribe_mcp.Base.Dict.{Dict}
use open_transcribe_mcp.Base.Sequences.{keep_if, sort_by-nonempty, All-keep_if}
use open_transcribe_mcp.Domain.Errors.{ok}
use open_transcribe_mcp.Domain.Audio.{TranscribeAudioRequest, RoutingPolicy, fixed}
use open_transcribe_mcp.Domain.Capabilities.{ModelDescriptor, key}
use open_transcribe_mcp.Settings.{Settings}
use open_transcribe_mcp.Policy.{TranscriptionPolicy}
use open_transcribe_mcp.Routing.Candidate.{RouteCandidate}
use open_transcribe_mcp.Routing.Order.{order, before}
use open_transcribe_mcp.Routing.Route.{
  Router, Selection, route, rank, restrict, explicit_first, explicit_before, candidates_of,
  require_some, with_explicit, compatible_of, evaluate, or_downgraded,
}
use open_transcribe_mcp.Domain.Outcomes.{>>=-eq-ok}
use open_transcribe_mcp.Routing.Steps.{route-IsRouted}

-- Nothing is lost on the way: a route is never empty, so `candidates[0]` exists.
order-nonempty :
    (s : Settings) (policies : Dict (List String)) (policy : RoutingPolicy)
    (cs : List RouteCandidate) (explicit : Option ModelDescriptor)
    → cs ≢ []
    → order s policies policy cs explicit ≢ []
unfolding order
order-nonempty s policies fixed [] explicit h = h
order-nonempty s policies fixed (c ∷ cs) explicit h = cc
order-nonempty s policies policy cs explicit h =
    sort_by-nonempty (before s policies explicit policy) cs h

explicit_first-nonempty :
    (explicit : Option ModelDescriptor) (cs : List RouteCandidate)
    → cs ≢ []
    → explicit_first explicit cs ≢ []
unfolding explicit_first
explicit_first-nonempty none cs h = h
explicit_first-nonempty (some m) [] h = h
explicit_first-nonempty (some m) (c ∷ cs) h = elim (Bool-cases (str_eq (key c.model) (key m))) [
  | inl same ↦ rw same cc
  | inr other ↦ rw other (sort_by-nonempty (explicit_before (key m)) (c ∷ cs) cc)
]

keep_if-head {ℓ} :
    {A : Type ℓ} (test : A → Bool) (x : A) (xs : List A)
    → test x ≡ true
    → keep_if test (x ∷ xs) ≡ x ∷ keep_if test xs
unfolding keep_if
keep_if-head test x xs h = rw h

-- The first candidate stays first.
abbrev pub StartsWith : List RouteCandidate → RouteCandidate → Type 0
StartsWith [] c = ⊥
StartsWith (d ∷ ds) c = d ≡ c

pub restrict-StartsWith :
    (policy : TranscriptionPolicy) (request : TranscribeAudioRequest) (c : RouteCandidate)
    (cs : List RouteCandidate)
    → StartsWith (restrict policy request (c ∷ cs)) c
unfolding restrict
restrict-StartsWith policy request c cs = elim (Bool-cases request.allow_fallback) [
  | inl allowed ↦ elim (Bool-cases policy.allow_cross_provider_fallback) [
    | inl across ↦ rw (allowed, across) refl
    | inr within ↦
        rw (allowed, within)
          (rw
            (keep_if-head (λ (x : RouteCandidate). str_eq x.model.provider c.model.provider) c cs
              ((eq_iff c.model.provider c.model.provider).1 refl))
            refl)
  ]
  | inr forbidden ↦ rw forbidden refl
]

restrict-nonempty :
    (policy : TranscriptionPolicy) (request : TranscribeAudioRequest) (cs : List RouteCandidate)
    → cs ≢ []
    → restrict policy request cs ≢ []
restrict-nonempty policy request [] h e = absurd (h refl)
restrict-nonempty policy request (c ∷ cs) h e =
    subst (λ ds. StartsWith ds c) e (restrict-StartsWith policy request c cs)

require_some-nonempty :
    (evaluated : List (ModelDescriptor × List String)) (ds cs : List RouteCandidate)
    → require_some evaluated ds ≡ ok cs
    → cs ≢ []
unfolding require_some
require_some-nonempty evaluated [] cs e n = cc
require_some-nonempty evaluated (d ∷ ds) cs e n = cc

candidates_of-nonempty :
    (request : TranscribeAudioRequest) (s : Selection) (cs : List RouteCandidate)
    → candidates_of request s ≡ ok cs
    → cs ≢ []
unfolding candidates_of
candidates_of-nonempty request s cs e =
    let evaluated = evaluate request s.models in
    let (ds, w, e') =
      >>=-eq-ok (with_explicit request s.explicit (compatible_of request evaluated)) _ e in
    require_some-nonempty evaluated (or_downgraded request evaluated ds) cs e'

-- A successful route has a first candidate.
pub route-nonempty :
    (r : Router) (request : TranscribeAudioRequest) (cs : List RouteCandidate)
    → route r request ≡ ok cs
    → cs ≢ []
unfolding rank
route-nonempty r request cs e =
    let routed = route-IsRouted r request cs e in
    subst (λ ds. ds ≢ []) routed.ranked
      (restrict-nonempty r.policy request _ (
        explicit_first-nonempty routed.selection.explicit _ (
          order-nonempty r.settings r.policies request.routing_policy routed.compatible
            routed.selection.explicit
            (candidates_of-nonempty request routed.selection routed.compatible routed.offered))))

abbrev rest_of : List RouteCandidate → List RouteCandidate
rest_of [] = []
rest_of (c ∷ cs) = cs

within-provider :
    (d : RouteCandidate) (ds : List RouteCandidate) (c : RouteCandidate) (cs : List RouteCandidate)
    → d ∷ keep_if (λ x. str_eq x.model.provider d.model.provider) ds ≡ c ∷ cs
    → All (λ x. x.model.provider ≡ c.model.provider) cs
within-provider d ds c cs e =
    let same : d ≡ c = cc in
    subst₂ (λ (x : RouteCandidate) xs. All (λ y. y.model.provider ≡ x.model.provider) xs) same
      (ap rest_of e)
      (All-keep_if (λ (y : RouteCandidate). y.model.provider ≡ d.model.provider)
        (λ y. str_eq y.model.provider d.model.provider) ds
        (λ y h. (eq_iff y.model.provider d.model.provider).0 h))

true≢false : ◌≡◌ {A = Bool} true false → ⊥
true≢false e = cc

restrict_limits :
    (policy : TranscriptionPolicy) (request : TranscribeAudioRequest) (ds : List RouteCandidate)
    (c : RouteCandidate) (cs : List RouteCandidate)
    → restrict policy request ds ≡ c ∷ cs
    → (request.allow_fallback ≡ false → cs ≡ [])
      × (policy.allow_cross_provider_fallback ≡ false
          → All (λ x. x.model.provider ≡ c.model.provider) cs)
unfolding restrict
restrict_limits policy request [] c cs e = cc
restrict_limits policy request (d ∷ ds) c cs e = elim (Bool-cases request.allow_fallback) [
  | inr forbidden ↦ ground arith
  | inl allowed ↦ elim (Bool-cases policy.allow_cross_provider_fallback) [
    | inl across ↦ ground arith
    | inr within ↦ (
      λ h. absurd (true≢false (sym allowed ∙ h)),
      λ h. within-provider d ds c cs (
          sym (
            keep_if-head (λ (x : RouteCandidate). str_eq x.model.provider d.model.provider) d ds
              ((eq_iff d.model.provider d.model.provider).1 refl))
          ∙ rw (allowed, within) at e),
    )
  ]
]

-- A route is as short as the request and the policy ask: if the request allows no fallback the
-- first candidate is the only one, and if the policy keeps fallback inside one provider then every
-- later candidate has the provider of the first.
pub route_limits :
    (r : Router) (request : TranscribeAudioRequest) (c : RouteCandidate) (cs : List RouteCandidate)
    → route r request ≡ ok (c ∷ cs)
    → (request.allow_fallback ≡ false → cs ≡ [])
      × (r.policy.allow_cross_provider_fallback ≡ false
          → All (λ x. x.model.provider ≡ c.model.provider) cs)
unfolding rank
route_limits r request c cs e =
    restrict_limits r.policy request _ c cs (route-IsRouted r request (c ∷ cs) e).ranked
