-- ===== src/Routing/Explicit.antt =====
-- A request that names its provider and its model gets that model first.
use open_transcribe_mcp.Base.{
  String, ◌≡◌, refl, sym, ◌∙◌, ap, Bool, true, false, ◌||◌, Option, some, List, [], ◌∷◌, arith,
  Bool-cases, inl, inr, subst, str_eq, eq_iff,
}
use open_transcribe_mcp.Base.Dict.{Dict}
use open_transcribe_mcp.Base.Sequences.{is_nonempty, keep_if, sort_by, insert_by}
use open_transcribe_mcp.Domain.Errors.{ok}
use open_transcribe_mcp.Domain.Audio.{
  TranscribeAudioRequest, RoutingPolicy, fixed, is_auto, provider_value,
}
use open_transcribe_mcp.Domain.Capabilities.{ModelDescriptor, key, make_key}
use open_transcribe_mcp.Settings.{Settings}
use open_transcribe_mcp.Policy.{TranscriptionPolicy, require_provider}
use open_transcribe_mcp.Providers.Registry.Catalogued.{IsCatalog}
use open_transcribe_mcp.Routing.Candidate.{RouteCandidate, candidate, missing_capabilities}
use open_transcribe_mcp.Routing.Order.{order, before}
use open_transcribe_mcp.Routing.Route.{
  Router, Selection, route, rank, restrict, explicit_first, explicit_before, candidates_of,
  require_some, with_explicit, compatible_of, evaluate, or_downgraded, select_models,
  select_explicit, permitted_models, put_first, choose_explicit,
}
use open_transcribe_mcp.Domain.Outcomes.{>>=-eq-ok, ok-injective, if-err-ok}
use open_transcribe_mcp.Routing.Steps.{route-IsRouted}
use open_transcribe_mcp.Routing.Authorization.{select_models-IsSelected, IsExplicit}
use open_transcribe_mcp.Routing.Ranking.{StartsWith, restrict-StartsWith}

-- The key of the first candidate is `k`; the key of some candidate is `k`.
head_at : String → List RouteCandidate → Bool
head_at k [] = false
head_at k (c ∷ cs) = str_eq (key c.model) k

any_at : String → List RouteCandidate → Bool
any_at k [] = false
any_at k (c ∷ cs) = str_eq (key c.model) k || any_at k cs

head_at→any_at : (k : String) (cs : List RouteCandidate) → head_at k cs ≡ true → any_at k cs ≡ true
unfolding head_at any_at
head_at→any_at k [] h = h
head_at→any_at k (c ∷ cs) h = ground arith

any_at-insert_by :
    (k : String) (lt : RouteCandidate → RouteCandidate → Bool) (c : RouteCandidate)
    (cs : List RouteCandidate)
    → any_at k (insert_by lt c cs) ≡ (str_eq (key c.model) k || any_at k cs)
unfolding any_at insert_by
any_at-insert_by k lt c [] = refl
any_at-insert_by k lt c (d ∷ ds) = ground (arith, any_at-insert_by k lt c ds)

any_at-sort_by :
    (k : String) (lt : RouteCandidate → RouteCandidate → Bool) (cs : List RouteCandidate)
    → any_at k (sort_by lt cs) ≡ any_at k cs
unfolding any_at sort_by
any_at-sort_by k lt [] = refl
any_at-sort_by k lt (c ∷ cs) =
    any_at-insert_by k lt c (sort_by lt cs)
    ∙ ap (λ b. str_eq (key c.model) k || b) (any_at-sort_by k lt cs)

head_at-insert_by :
    (k : String) (c : RouteCandidate) (cs : List RouteCandidate)
    → (str_eq (key c.model) k || head_at k cs) ≡ true
    → head_at k (insert_by (explicit_before k) c cs) ≡ true
unfolding head_at insert_by
head_at-insert_by k c [] h = ground arith
head_at-insert_by k c (d ∷ ds) h = ground arith

head_at-sort_by :
    (k : String) (cs : List RouteCandidate)
    → any_at k cs ≡ true
    → head_at k (sort_by (explicit_before k) cs) ≡ true
unfolding any_at sort_by
head_at-sort_by k [] h = cc
head_at-sort_by k (c ∷ cs) h =
    head_at-insert_by k c (sort_by (explicit_before k) cs) (ground (arith, head_at-sort_by k cs))

head_at-explicit_first :
    (m : ModelDescriptor) (cs : List RouteCandidate)
    → any_at (key m) cs ≡ true
    → head_at (key m) (explicit_first (some m) cs) ≡ true
unfolding explicit_first
head_at-explicit_first m [] h = unfold any_at in cc
head_at-explicit_first m (c ∷ cs) h = elim (Bool-cases (str_eq (key c.model) (key m))) [
  | inl same ↦ rw same (unfold head_at in same)
  | inr other ↦ rw other (head_at-sort_by (key m) (c ∷ cs) h)
]

any_at-order :
    (s : Settings) (policies : Dict (List String)) (policy : RoutingPolicy)
    (cs : List RouteCandidate) (explicit : Option ModelDescriptor) (k : String)
    → head_at k cs ≡ true
    → any_at k (order s policies policy cs explicit) ≡ true
unfolding order any_at head_at
any_at-order s policies fixed [] explicit k h = cc
any_at-order s policies fixed (c ∷ cs) explicit k h = ground arith
any_at-order s policies policy cs explicit k h =
    any_at-sort_by k (before s policies explicit policy) cs ∙ head_at→any_at k cs h

head_at-restrict :
    (policy : TranscriptionPolicy) (request : TranscribeAudioRequest) (k : String)
    (cs : List RouteCandidate) (c : RouteCandidate) (rest : List RouteCandidate)
    → head_at k cs ≡ true
    → restrict policy request cs ≡ c ∷ rest
    → key c.model ≡ k
unfolding head_at
head_at-restrict policy request k [] c rest h e = cc
head_at-restrict policy request k (d ∷ ds) c rest h e =
    let same : c ≡ d = subst (λ xs. StartsWith xs d) e (restrict-StartsWith policy request d ds) in
    rw same ((eq_iff (key d.model) k).0 h)

-- The selection of a request that names its provider begins with the explicit model.
select_explicit-eq :
    (r : Router) (request : TranscribeAudioRequest) (ms : List ModelDescriptor) (s : Selection)
    → is_auto request.provider ≡ false
    → select_models r request ms ≡ ok s
    → (m : ModelDescriptor) × (record { models = put_first m ms; explicit = some m } ≡ s)
unfolding select_models select_explicit
select_explicit-eq r request ms s named e =
    let (u, required, e1) =
      >>=-eq-ok (require_provider r.policy (provider_value request.provider) request.model) _
        (rw named at e) in
    let (m, chosen, e2) =
      >>=-eq-ok
        (choose_explicit r.registry (provider_value request.provider) request.model
          (keep_if (λ m. str_eq m.provider (provider_value request.provider)) ms))
        _ e1 in
    (m, ok-injective e2)

with_explicit-head :
    (request : TranscribeAudioRequest) (m : ModelDescriptor) (ms : List ModelDescriptor)
    (ds : List RouteCandidate)
    → with_explicit request (some m) (compatible_of request (evaluate request (m ∷ ms))) ≡ ok ds
    → head_at (key m) ds ≡ true
unfolding with_explicit compatible_of evaluate head_at candidate
with_explicit-head request m ms ds e =
    elim (Bool-cases (is_nonempty (missing_capabilities request m))) [
      | inl lacks ↦
          rw (← if-err-ok request.strict_capabilities _ (rw lacks at e))
            ((eq_iff (key m) (key m)).1 refl)
      | inr fits ↦ rw (← ok-injective (rw fits at e)) ((eq_iff (key m) (key m)).1 refl)
    ]

require_some-head :
    (request : TranscribeAudioRequest) (k : String)
    (evaluated : List (ModelDescriptor × List String)) (ds cs : List RouteCandidate)
    → head_at k ds ≡ true
    → require_some evaluated (or_downgraded request evaluated ds) ≡ ok cs
    → head_at k cs ≡ true
unfolding require_some or_downgraded head_at
require_some-head request k evaluated [] cs h e = cc
require_some-head request k evaluated (d ∷ ds) cs h e = rw (← ok-injective e) h

candidates_of-head :
    (request : TranscribeAudioRequest) (m : ModelDescriptor) (ms : List ModelDescriptor)
    (cs : List RouteCandidate)
    → candidates_of request (record { models = m ∷ ms; explicit = some m }) ≡ ok cs
    → head_at (key m) cs ≡ true
unfolding candidates_of
candidates_of-head request m ms cs e =
    let evaluated = evaluate request (m ∷ ms) in
    let (ds, w, e') =
      >>=-eq-ok (with_explicit request (some m) (compatible_of request evaluated)) _ e in
    require_some-head request (key m) evaluated ds cs (with_explicit-head request m ms ds w) e'

rank-head :
    (r : Router) (request : TranscribeAudioRequest) (m : ModelDescriptor)
    (ms : List ModelDescriptor) (ds : List RouteCandidate) (c : RouteCandidate)
    (cs : List RouteCandidate)
    → head_at (key m) ds ≡ true
    → rank r request (record { models = ms; explicit = some m }) ds ≡ c ∷ cs
    → key c.model ≡ key m
unfolding rank
rank-head r request m ms ds c cs h e =
    head_at-restrict r.policy request (key m) _ c cs
      (head_at-explicit_first m _
        (any_at-order r.settings r.policies request.routing_policy ds (some m) (key m) h))
      e

-- Whatever the policy and the order, a routed request that names its provider and its model tries
-- that model first.
pub route_explicit :
    (r : Router) (k : IsCatalog r.registry) (request : TranscribeAudioRequest) (name : String)
    (c : RouteCandidate) (cs : List RouteCandidate)
    → is_auto request.provider ≡ false
    → request.model ≡ some name
    → route r request ≡ ok (c ∷ cs)
    → key c.model ≡ make_key (provider_value request.provider) name
route_explicit r k request name c cs named model e =
    let routed = route-IsRouted r request (c ∷ cs) e in
    let (m, same) =
      select_explicit-eq r request (permitted_models r) routed.selection named routed.selected in
    let selected = select_models-IsSelected r k request routed.selection routed.selected in
    let explicit : IsExplicit r k request (some m) =
      subst (λ s. IsExplicit r k request s.explicit) (sym same) selected.explicit in
    let first =
      rank-head r request m _ routed.compatible c cs
        (candidates_of-head request m _ routed.compatible
          (subst (λ s. candidates_of request s ≡ ok routed.compatible) (sym same) routed.offered))
        (subst (λ s. rank r request s routed.compatible ≡ c ∷ cs) (sym same) routed.ranked) in
    first ∙ explicit.3 name model ∙ ap (λ p. make_key p name) explicit.2
