-- ===== src/Routing/Cost.antt =====
-- Automatic routing loses no compatible model, and by cost it starts with a cheapest one.
use mathlib.Core.List.{Perm}
use open_transcribe_mcp.Base.{
  String, ◌≡◌, refl, sym, ◌∙◌, Bool, true, false, Option, none, some, List, [], ◌∷◌, All, arith,
  Bool-cases, inl, inr, ◌≤◌, subst, str_eq,
}
use open_transcribe_mcp.Base.Dict.{Dict}
use open_transcribe_mcp.Base.Sequences.{
  keep_if, sort_by-IsSorted, IsSorted, sort_by-perm, All-keep_if_of, All-impl,
}
use open_transcribe_mcp.Domain.Errors.{ok}
use open_transcribe_mcp.Domain.Audio.{
  TranscribeAudioRequest, RoutingPolicy, fixed, cost, is_auto, is_fixed,
}
use open_transcribe_mcp.Domain.Capabilities.{ModelDescriptor, PricingDescriptor, key}
use open_transcribe_mcp.Settings.{Settings}
use open_transcribe_mcp.Policy.{TranscriptionPolicy}
use open_transcribe_mcp.Routing.Candidate.{RouteCandidate}
use open_transcribe_mcp.Routing.Order.{
  order, before, sort_key, key_lt, cost_rank, key_lt_asym, key_lt_trans,
}
use open_transcribe_mcp.Routing.Route.{
  Router, Selection, route, rank, restrict, explicit_first, select_models, permitted_models,
  candidates_of,
}
use open_transcribe_mcp.Domain.Outcomes.{ok-injective}
use open_transcribe_mcp.Routing.Steps.{route-IsRouted}

keep_if-IsSorted {ℓ} :
    {A : Type ℓ} (lt : A → A → Bool) (test : A → Bool) (xs : List A)
    → IsSorted lt xs
    → IsSorted lt (keep_if test xs)
unfolding keep_if
keep_if-IsSorted lt test [] h = tt
keep_if-IsSorted lt test (x ∷ xs) (p, h) = elim (Bool-cases (test x)) [
  | inl kept ↦ rw kept (All-keep_if_of _ test xs p, keep_if-IsSorted lt test xs h)
  | inr dropped ↦ rw dropped (keep_if-IsSorted lt test xs h)
]

restrict-IsSorted :
    (lt : RouteCandidate → RouteCandidate → Bool) (policy : TranscriptionPolicy)
    (request : TranscribeAudioRequest) (cs : List RouteCandidate)
    → IsSorted lt cs
    → IsSorted lt (restrict policy request cs)
unfolding restrict
restrict-IsSorted lt policy request [] h = tt
restrict-IsSorted lt policy request (c ∷ cs) h = elim (Bool-cases request.allow_fallback) [
  | inr forbidden ↦ rw forbidden (tt, tt)
  | inl allowed ↦ elim (Bool-cases policy.allow_cross_provider_fallback) [
    | inl across ↦ rw (allowed, across) h
    | inr within ↦
        rw (allowed, within)
          (keep_if-IsSorted lt (λ x. str_eq x.model.provider c.model.provider) (c ∷ cs) h)
  ]
]

order-IsSorted :
    (s : Settings) (policies : Dict (List String)) (policy : RoutingPolicy)
    (cs : List RouteCandidate) (explicit : Option ModelDescriptor)
    → is_fixed policy ≡ false
    → IsSorted (before s policies explicit policy) (order s policies policy cs explicit)
unfolding order is_fixed
order-IsSorted s policies fixed cs explicit h = cc
order-IsSorted s policies policy cs explicit h =
    sort_by-IsSorted (before s policies explicit policy)
      (λ x y.
        key_lt_asym (sort_key s policies explicit policy x) (sort_key s policies explicit policy y))
      (λ x y z.
        key_lt_trans (sort_key s policies explicit policy x) (sort_key s policies explicit policy y)
          (sort_key s policies explicit policy z))
      cs

select_auto-eq :
    (r : Router) (request : TranscribeAudioRequest) (ms : List ModelDescriptor) (s : Selection)
    → is_auto request.provider ≡ true
    → select_models r request ms ≡ ok s
    → record { models = ms; explicit = none } ≡ s
unfolding select_models
select_auto-eq r request ms s auto' e = ok-injective (rw auto' at e)

-- Automatic routing, by any policy but `fixed`, returns its candidates in the order of the policy:
-- no candidate has a smaller sort key than one before it.
pub route-IsSorted :
    (r : Router) (request : TranscribeAudioRequest) (cs : List RouteCandidate)
    → is_auto request.provider ≡ true
    → is_fixed request.routing_policy ≡ false
    → route r request ≡ ok cs
    → IsSorted (before r.settings r.policies none request.routing_policy) cs
unfolding rank explicit_first
route-IsSorted r request cs auto' free e =
    let routed = route-IsRouted r request cs e in
    let same =
      select_auto-eq r request (permitted_models r) routed.selection auto' routed.selected in
    let ranked = subst (λ s. rank r request s routed.compatible ≡ cs) (sym same) routed.ranked in
    subst (IsSorted (before r.settings r.policies none request.routing_policy)) ranked (
      restrict-IsSorted _ r.policy request _
        (order-IsSorted r.settings r.policies request.routing_policy routed.compatible none free))

-- `c` has a price, which is at most that of `x`, if `x` has one.
abbrev pub CostsNoMore : RouteCandidate → RouteCandidate → Type 0
CostsNoMore c x =
    (p : PricingDescriptor)
    → x.model.pricing ≡ some p
    → (q : PricingDescriptor) × (c.model.pricing ≡ some q) × (q.price_usd ≤ p.price_usd)

pub ranks-CostsNoMore :
    (a b : Option PricingDescriptor) (j k : String)
    → key_lt (cost_rank b j) (cost_rank a k) ≡ false
    → (p : PricingDescriptor) → b ≡ some p
    → (q : PricingDescriptor) × (a ≡ some q) × (q.price_usd ≤ p.price_usd)
unfolding key_lt cost_rank
ranks-CostsNoMore none none j k h p e = cc
ranks-CostsNoMore none (some b) j k h p e = absurd (ground arith)
ranks-CostsNoMore (some a) none j k h p e = cc
ranks-CostsNoMore (some a) (some b) j k h p e = (a, refl, ground arith)

-- Routing by cost, with no provider named: if any candidate has a price, so has the first, and no
-- candidate has a lower one.
pub route_cheapest :
    (r : Router) (request : TranscribeAudioRequest) (c : RouteCandidate) (cs : List RouteCandidate)
    → is_auto request.provider ≡ true
    → request.routing_policy ≡ cost
    → route r request ≡ ok (c ∷ cs)
    → All (CostsNoMore c) cs
unfolding sort_key
route_cheapest r request c cs auto' by_cost e =
    let sorted = route-IsSorted r request (c ∷ cs) auto' (rw by_cost (unfold is_fixed in refl)) e in
    let sorted' =
      subst (λ (p : RoutingPolicy). IsSorted (before r.settings r.policies none p) (c ∷ cs)) by_cost
        sorted in
    All-impl (λ x. before r.settings r.policies none cost x c ≡ false) (CostsNoMore c) cs
      (λ x h. ranks-CostsNoMore c.model.pricing x.model.pricing (key x.model) (key c.model) h)
      sorted'.0

order-perm :
    (s : Settings) (policies : Dict (List String)) (policy : RoutingPolicy)
    (cs : List RouteCandidate)
    → is_fixed policy ≡ false
    → Perm (order s policies policy cs none) cs
unfolding order is_fixed
order-perm s policies fixed cs h = cc
order-perm s policies policy cs h = sort_by-perm (before s policies none policy) cs

restrict-all :
    (policy : TranscriptionPolicy) (request : TranscribeAudioRequest) (cs : List RouteCandidate)
    → request.allow_fallback ≡ true
    → policy.allow_cross_provider_fallback ≡ true
    → restrict policy request cs ≡ cs
unfolding restrict
restrict-all policy request [] allowed across = refl
restrict-all policy request (c ∷ cs) allowed across = rw (allowed, across)

-- Where fallback is free and no provider is named, a route by any policy but `fixed` is an
-- arrangement of all the candidates that the selection of models offers: ranking drops none.
pub route-perm :
    (r : Router) (request : TranscribeAudioRequest) (cs : List RouteCandidate)
    → is_auto request.provider ≡ true
    → is_fixed request.routing_policy ≡ false
    → request.allow_fallback ≡ true
    → r.policy.allow_cross_provider_fallback ≡ true
    → route r request ≡ ok cs
    → (offered : List RouteCandidate) × (candidates_of request
          (record { models = permitted_models r; explicit = none })
        ≡ ok offered)
      × Perm cs offered
unfolding rank explicit_first
route-perm r request cs auto' free allowed across e =
    let routed = route-IsRouted r request cs e in
    let same =
      select_auto-eq r request (permitted_models r) routed.selection auto' routed.selected in
    let ranked = subst (λ s. rank r request s routed.compatible ≡ cs) (sym same) routed.ranked in
    let ordered = order r.settings r.policies request.routing_policy routed.compatible none in
    (
      routed.compatible,
      subst (λ s. candidates_of request s ≡ ok routed.compatible) (sym same) routed.offered,
      subst (λ xs. Perm xs routed.compatible)
          (sym (restrict-all r.policy request ordered allowed across) ∙ ranked)
          (order-perm r.settings r.policies request.routing_policy routed.compatible free),
    )
