-- ===== src/Routing/Steps.antt =====
-- A successful `route`, step by step, and what its last steps preserve.
use open_transcribe_mcp.Base.{
  String, ◌≡◌, refl, true, not, Option, none, some, List, [], ◌∷◌, All, str_eq, Bool-cases, inl,
  inr, ◌⊎◌, subst, ◌&&◌,
}
use open_transcribe_mcp.Base.Sequences.{All-keep_if_of, All-take, All-sort_by, is_nonempty}
use open_transcribe_mcp.Domain.Errors.{ok}
use open_transcribe_mcp.Domain.Audio.{TranscribeAudioRequest, RoutingPolicy, fixed}
use open_transcribe_mcp.Domain.Capabilities.{ModelDescriptor, key}
use open_transcribe_mcp.Settings.{Settings}
use open_transcribe_mcp.Base.Dict.{Dict}
use open_transcribe_mcp.Policy.{TranscriptionPolicy}
use open_transcribe_mcp.Routing.Candidate.{RouteCandidate, candidate, missing_capabilities}
use open_transcribe_mcp.Routing.Order.{order, before}
use open_transcribe_mcp.Domain.Outcomes.{>>=-eq-ok, ok-injective, if-err-ok}
use open_transcribe_mcp.Routing.Route.{
  Router, Selection, route, permitted_models, require_models, select_models, candidates_of, rank,
  restrict, explicit_first, explicit_before, evaluate, compatible_of, downgraded_of, or_downgraded,
  require_some, with_explicit,
}

pub record IsRouted (r : Router) (request : TranscribeAudioRequest) (cs : List RouteCandidate)
    : Type 0 where
  pub selection : Selection
  pub compatible : List RouteCandidate
  pub selected : select_models r request (permitted_models r) ≡ ok selection
  pub offered : candidates_of request selection ≡ ok compatible
  pub ranked : rank r request selection compatible ≡ cs

require_models-eq-ok :
    (ms : List ModelDescriptor) {ns : List ModelDescriptor} → require_models ms ≡ ok ns → ns ≡ ms
unfolding require_models
require_models-eq-ok [] e = cc
require_models-eq-ok (m ∷ ms) e = cc

pub route-IsRouted :
    (r : Router) (request : TranscribeAudioRequest) (cs : List RouteCandidate)
    → route r request ≡ ok cs
    → IsRouted r request cs
unfolding route
route-IsRouted r request cs e =
    let (models, m, e1) = >>=-eq-ok (require_models (permitted_models r)) _ e in
    let (selection, s, e2) = >>=-eq-ok (select_models r request models) _ e1 in
    let (compatible, c, e3) = >>=-eq-ok (candidates_of request selection) _ e2 in
    record {
      selection = selection;
      compatible = compatible;
      selected = rw (require_models-eq-ok (permitted_models r) m) at s;
      offered = c;
      ranked = ok-injective e3;
    }

pub empty-or-not : (xs : List String) → (xs ≡ []) ⊎ (is_nonempty xs ≡ true)
unfolding is_nonempty
empty-or-not [] = inl refl
empty-or-not (x ∷ xs) = inr refl

module _ (P : RouteCandidate → Type 0) where
  order-All :
      (s : Settings) (policies : Dict (List String)) (policy : RoutingPolicy)
      (cs : List RouteCandidate) (explicit : Option ModelDescriptor)
      → All P cs
      → All P (order s policies policy cs explicit)
  unfolding order
  order-All s policies fixed cs explicit h = All-take P 1 cs h
  order-All s policies policy cs explicit h = All-sort_by P (before s policies explicit policy) cs h

  explicit_first-All :
      (explicit : Option ModelDescriptor) (cs : List RouteCandidate)
      → All P cs
      → All P (explicit_first explicit cs)
  unfolding explicit_first
  explicit_first-All none cs h = h
  explicit_first-All (some m) [] h = tt
  explicit_first-All (some m) (c ∷ cs) h = elim (Bool-cases (str_eq (key c.model) (key m))) [
    | inl same ↦ rw same h
    | inr other ↦ rw other (All-sort_by P (explicit_before (key m)) (c ∷ cs) h)
  ]

  restrict-All :
      (policy : TranscriptionPolicy) (request : TranscribeAudioRequest) (cs : List RouteCandidate)
      → All P cs
      → All P (restrict policy request cs)
  unfolding restrict
  restrict-All policy request [] h = tt
  restrict-All policy request (c ∷ cs) h = elim (Bool-cases request.allow_fallback) [
    | inl allowed ↦ elim (Bool-cases policy.allow_cross_provider_fallback) [
      | inl across ↦ rw (allowed, across) h
      | inr within ↦
          rw (allowed, within)
            (All-keep_if_of P (λ item. str_eq item.model.provider c.model.provider) (c ∷ cs) h)
    ]
    | inr forbidden ↦ rw forbidden (h.0, tt)
  ]

  -- Ranking invents no candidate.
  pub rank-All :
      (r : Router) (request : TranscribeAudioRequest) (selection : Selection)
      (cs : List RouteCandidate)
      → All P cs
      → All P (rank r request selection cs)
  unfolding rank
  rank-All r request selection cs h = restrict-All r.policy request _ (
      explicit_first-All selection.explicit _
        (order-All r.settings r.policies request.routing_policy cs selection.explicit h))

  -- The candidates are those of the selected models, each with the capabilities that it lacks.
  module _ (request : TranscribeAudioRequest) where
    abbrev pub AtModel : ModelDescriptor → Type 0
    AtModel m = P (candidate request m (missing_capabilities request m))

    compatible_of-All :
        (ms : List ModelDescriptor)
        → All AtModel ms
        → All P (compatible_of request (evaluate request ms))
    unfolding compatible_of evaluate is_nonempty
    compatible_of-All [] h = tt
    compatible_of-All (m ∷ ms) (p, h) = elim (empty-or-not (missing_capabilities request m)) [
      | inl fits ↦ rw fits (rw fits at p, compatible_of-All ms h)
      | inr lacks ↦ rw lacks (compatible_of-All ms h)
    ]

    downgraded_of-All :
        (ms : List ModelDescriptor)
        → All AtModel ms
        → All P (downgraded_of request (evaluate request ms))
    unfolding downgraded_of evaluate
    downgraded_of-All [] h = tt
    downgraded_of-All (m ∷ ms) (p, h) = (p, downgraded_of-All ms h)

    abbrev pub AtExplicit : Option ModelDescriptor → Type 0
    AtExplicit none = Unit
    AtExplicit (some m) = AtModel m

    with_explicit-All :
        (explicit : Option ModelDescriptor) (cs ds : List RouteCandidate)
        → AtExplicit explicit
        → All P cs
        → with_explicit request explicit cs ≡ ok ds
        → All P ds
    unfolding with_explicit
    with_explicit-All none cs ds p h e = rw (← ok-injective e) h
    with_explicit-All (some m) cs ds p h e =
        elim (Bool-cases (is_nonempty (missing_capabilities request m))) [
          | inl lacks ↦ rw (← if-err-ok request.strict_capabilities _ (rw lacks at e)) (p, h)
          | inr fits ↦ rw (← ok-injective (rw fits at e)) h
        ]

    pub require_some-All :
        (evaluated : List (ModelDescriptor × List String)) (cs ds : List RouteCandidate)
        → All P cs
        → require_some evaluated cs ≡ ok ds
        → All P ds
    unfolding require_some
    require_some-All evaluated [] ds h e = cc
    require_some-All evaluated (c ∷ cs) ds h e = rw (← ok-injective e) h

    or_downgraded-All :
        (ms : List ModelDescriptor) (cs : List RouteCandidate)
        → All AtModel ms
        → All P cs
        → All P (or_downgraded request (evaluate request ms) cs)
    unfolding or_downgraded
    or_downgraded-All ms cs h k =
        elim (Bool-cases (not (is_nonempty cs) && not request.strict_capabilities)) [
          | inl drop ↦ rw drop (downgraded_of-All ms h)
          | inr keep ↦ rw keep k
        ]

    pub candidates_of-All :
        (selection : Selection) (cs : List RouteCandidate)
        → All AtModel selection.models
        → AtExplicit selection.explicit
        → candidates_of request selection ≡ ok cs
        → All P cs
    unfolding candidates_of
    candidates_of-All selection cs h p e =
        let (ds, w, e') =
          >>=-eq-ok
            (with_explicit request selection.explicit
              (compatible_of request (evaluate request selection.models)))
            _ e in
        require_some-All (evaluate request selection.models) _ cs
          (or_downgraded-All selection.models ds h
            (with_explicit-All selection.explicit _ ds p (compatible_of-All selection.models h) w))
          e'

-- What holds of every selected model, as a candidate, holds of every candidate of the route.
pub IsRouted-All :
    (P : RouteCandidate → Type 0) (r : Router) (request : TranscribeAudioRequest)
    (cs : List RouteCandidate) (routed : IsRouted r request cs)
    → All (AtModel P request) routed.selection.models
    → AtExplicit P request routed.selection.explicit
    → All P cs
IsRouted-All P r request cs routed h p = subst (All P) routed.ranked (
    rank-All P r request routed.selection routed.compatible
      (candidates_of-All P request routed.selection routed.compatible h p routed.offered))
