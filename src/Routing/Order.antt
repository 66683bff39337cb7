-- ===== src/Routing/Order.antt =====
-- `_order` of routing/router.py. Each policy sorts by a tuple; here all are triples of two numbers
-- and a text, where a policy with a pair leaves the second number 0.
use open_transcribe_mcp.Base.{
  ℕ, ◌+◌, ◌≡◌, refl, String, Bool, true, false, ◌&&◌, ◌||◌, Option, none, some, List, [], ◌∷◌, take,
  ltb, ◌==◌, str_eq, if◌then◌else◌, arith,
}
use open_transcribe_mcp.Base.Text.{str_lt, codes_lt, codes}
use open_transcribe_mcp.Base.Dict.{Dict, lookup}
use open_transcribe_mcp.Base.Sequences.{sort_by}
use open_transcribe_mcp.Domain.Audio.{RoutingPolicy, quality, cost, latency, fixed, policy_value}
use open_transcribe_mcp.Domain.Capabilities.{ModelDescriptor, PricingDescriptor, key, make_key}
use open_transcribe_mcp.Settings.{Settings}
use open_transcribe_mcp.Routing.Candidate.{RouteCandidate}

abbrev pub SortKey : Type 0
SortKey = ℕ × ℕ × String

-- (a, b, s) < (c, d, t)
unfoldable pub key_lt : SortKey → SortKey → Bool
key_lt (a, b, s) (c, d, t) = ltb a c || (a == c && (ltb b d || (b == d && str_lt s t)))

-- (pricing is None, price_usd or inf): among models without a price inf is a constant.
unfoldable pub cost_rank : Option PricingDescriptor → String → SortKey
cost_rank none k = (1, 0, k)
cost_rank (some p) k = (0, p.price_usd, k)

-- {key: index for index, key in enumerate(ranking)}.get(key, 10_000): the last index counts.
unfoldable pub position_from : ℕ → ℕ → String → List String → ℕ
position_from found i k [] = found
position_from found i k (x ∷ ranking) =
    position_from (if str_eq x k then i else found) (i + 1) k ranking

-- self.config.get("policies", {}).get(policy.value, [])
abbrev pub ranking_of : Dict (List String) → RoutingPolicy → List String
ranking_of policies policy = elim (lookup (policy_value policy) policies) [ none ↦ [] | some r ↦ r ]

abbrev pub is_key : String → Option ModelDescriptor → Bool
is_key k none = false
is_key k (some m) = str_eq k (key m)

unfoldable pub default_rank : String → Option ModelDescriptor → String → SortKey
default_rank default_key explicit k =
    (if is_key k explicit then 0 else 1, if str_eq k default_key then 0 else 1, k)

unfoldable pub sort_key :
    Settings
    → Dict (List String)
    → Option ModelDescriptor
    → RoutingPolicy
    → RouteCandidate
    → SortKey
unfolding cost_rank default_rank position_from
sort_key s policies explicit cost c = cost_rank c.model.pricing (key c.model)
sort_key s policies explicit quality c =
    (position_from 10000 0 (key c.model) (ranking_of policies quality), 0, key c.model)
sort_key s policies explicit latency c =
    (position_from 10000 0 (key c.model) (ranking_of policies latency), 0, key c.model)
sort_key s policies explicit _ c =
    default_rank (make_key s.default_provider s.default_model) explicit (key c.model)

abbrev pub before :
    Settings
    → Dict (List String)
    → Option ModelDescriptor
    → RoutingPolicy
    → RouteCandidate
    → RouteCandidate
    → Bool
before s policies explicit policy a b =
    key_lt (sort_key s policies explicit policy a) (sort_key s policies explicit policy b)

unfoldable pub order :
    Settings
    → Dict (List String)
    → RoutingPolicy
    → List RouteCandidate
    → Option ModelDescriptor
    → List RouteCandidate
unfolding sort_by
order s policies fixed candidates explicit = take 1 candidates
order s policies policy candidates explicit = sort_by (before s policies explicit policy) candidates

-- The order of keys is a strict weak order, so that `sorted` sorts by it.
codes_lt_asym : (s t : List ℕ) → codes_lt s t ≡ true → codes_lt t s ≡ false
unfolding codes_lt
codes_lt_asym [] [] h = cc
codes_lt_asym [] (d ∷ ds) h = refl
codes_lt_asym (c ∷ cs) [] h = cc
codes_lt_asym (c ∷ cs) (d ∷ ds) h = ground (arith, codes_lt_asym cs ds)

codes_lt_trans :
    (s t u : List ℕ) → codes_lt t s ≡ false → codes_lt u t ≡ false → codes_lt u s ≡ false
unfolding codes_lt
codes_lt_trans [] [] [] h k = refl
codes_lt_trans [] [] (e ∷ es) h k = refl
codes_lt_trans [] (d ∷ ds) [] h k = cc
codes_lt_trans [] (d ∷ ds) (e ∷ es) h k = refl
codes_lt_trans (c ∷ cs) [] u h k = cc
codes_lt_trans (c ∷ cs) (d ∷ ds) [] h k = cc
codes_lt_trans (c ∷ cs) (d ∷ ds) (e ∷ es) h k = ground (arith, codes_lt_trans cs ds es)

pub key_lt_asym : (x y : SortKey) → key_lt x y ≡ true → key_lt y x ≡ false
unfolding key_lt str_lt
key_lt_asym (a, b, s) (c, d, t) h = ground (arith, codes_lt_asym (codes s) (codes t))

pub key_lt_trans : (x y z : SortKey) → key_lt y x ≡ false → key_lt z y ≡ false → key_lt z x ≡ false
unfolding key_lt str_lt
key_lt_trans (a, b, s) (c, d, t) (e, f, u) h k =
    ground (arith, codes_lt_trans (codes s) (codes t) (codes u))
