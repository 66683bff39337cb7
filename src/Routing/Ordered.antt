-- ===== src/Routing/Ordered.antt =====
-- The order of the candidates of automatic routing, by each policy.
use open_transcribe_mcp.Base.{
  ℕ, ◌+◌, ◌<◌, String, ◌≡◌, ◌≢◌, refl, sym, ◌∙◌, ap, subst, Bool, true, false, Option, none, some,
  List, [], ◌∷◌, ◌++◌, All, arith, Bool-cases, inl, inr, ◌⊎◌, str_eq, eq_iff, length, ltb,
  if◌then◌else◌,
}
use open_transcribe_mcp.Base.Dict.{Dict}
use open_transcribe_mcp.Base.Text.{str_lt}
use open_transcribe_mcp.Base.Sequences.{IsSorted, All-impl}
use open_transcribe_mcp.Domain.Errors.{ok}
use open_transcribe_mcp.Domain.Audio.{
  TranscribeAudioRequest, RoutingPolicy, default, quality, cost, latency, fixed, is_auto, is_fixed,
}
use open_transcribe_mcp.Domain.Capabilities.{PricingDescriptor, key, make_key}
use open_transcribe_mcp.Settings.{Settings}
use open_transcribe_mcp.Routing.Candidate.{RouteCandidate}
use open_transcribe_mcp.Routing.Order.{
  before, sort_key, key_lt, cost_rank, default_rank, position_from, ranking_of,
}
use open_transcribe_mcp.Routing.Route.{Router, route}
use open_transcribe_mcp.Routing.Cost.{CostsNoMore, ranks-CostsNoMore, route-IsSorted}

-- The rank of a key is the index of its last place in the ranking, or 10,000 if it has none.
pub data IsRank (k : String) : List String → ℕ → Type 0 where
  unranked : (ranking : List String) → All (λ x. x ≢ k) ranking → IsRank k ranking 10000
  ranked :
      (earlier later : List String)
      → All (λ x. x ≢ k) later
      → IsRank k (earlier ++ k ∷ later) (length earlier)

-- The key of `a` is not after that of `b`.
abbrev pub IsKeyed : RouteCandidate → RouteCandidate → Type 0
IsKeyed a b = str_lt (key b.model) (key a.model) ≡ false

-- `a` is ranked before `b`, or as `b` and by its key.
pub record IsRanked (ranking : List String) (a b : RouteCandidate) : Type 0 where
  pub rank : ℕ
  pub rank' : ℕ
  pub is_rank : IsRank (key a.model) ranking rank
  pub is_rank' : IsRank (key b.model) ranking rank'
  pub ordered : (rank < rank') ⊎ ((rank ≡ rank') × IsKeyed a b)

-- `a` costs no more, and where the prices are the same its key comes first.
pub record IsCheaper (a b : RouteCandidate) : Type 0 where
  pub price : CostsNoMore a b
  pub tie :
      (p q : PricingDescriptor)
      → a.model.pricing ≡ some p
      → b.model.pricing ≡ some q
      → p.price_usd ≡ q.price_usd
      → IsKeyed a b
  pub unpriced : a.model.pricing ≡ none → b.model.pricing ≡ none → IsKeyed a b

-- `a` is the default model, or neither is and the key of `a` comes first.
pub IsDefaultFirst : String → RouteCandidate → RouteCandidate → Type 0
IsDefaultFirst k a b = (key a.model ≡ k) ⊎ ((key b.model ≢ k) × IsKeyed a b)

-- `a` may stand before `b`.
abbrev pub MayPrecede :
    Settings → Dict (List String) → RoutingPolicy → RouteCandidate → RouteCandidate → Type 0
MayPrecede s policies cost a b = IsCheaper a b
MayPrecede s policies quality a b = IsRanked (ranking_of policies quality) a b
MayPrecede s policies latency a b = IsRanked (ranking_of policies latency) a b
MayPrecede s policies default a b = IsDefaultFirst (make_key s.default_provider s.default_model) a b
MayPrecede s policies fixed a b = ⊥

-- Each candidate may stand before every later one.
abbrev pub IsOrdered : (RouteCandidate → RouteCandidate → Type 0) → List RouteCandidate → Type 0
IsOrdered P [] = Unit
IsOrdered P (x ∷ xs) = All (λ y. P x y) xs × IsOrdered P xs

-- The search for the last place, from an index on.
data Found (k : String) (found i : ℕ) (xs : List String) (n : ℕ) : Type 0 where
  absent : All (λ x. x ≢ k) xs → n ≡ found → Found k found i xs n
  placed :
      (earlier later : List String)
      → xs ≡ earlier ++ k ∷ later
      → All (λ x. x ≢ k) later
      → n ≡ i + length earlier
      → Found k found i xs n

differ : (x k : String) → str_eq x k ≡ false → x ≢ k
differ x k h e = let same = (eq_iff x k).1 e in cc

step-Found :
    (k x : String) (found i : ℕ) (xs : List String) (n : ℕ) (b : Bool)
    → str_eq x k ≡ b
    → Found k (if b then i else found) (i + 1) xs n
    → Found k found i (x ∷ xs) n
step-Found k x found i xs n b e (placed earlier later cut all m) =
    placed (x ∷ earlier) later (ap (λ l. x ∷ l) cut) all (ground arith)
step-Found k x found i xs n true e (absent all m) =
    placed [] xs (ap (λ y. y ∷ xs) ((eq_iff x k).0 e)) all (ground arith)
step-Found k x found i xs n false e (absent all m) = absent (differ x k e, all) m

position_from-Found :
    (found i : ℕ) (k : String) (xs : List String) → Found k found i xs (position_from found i k xs)
unfolding position_from
position_from-Found found i k [] = absent tt refl
position_from-Found found i k (x ∷ xs) =
    step-Found k x found i xs _ (str_eq x k) refl
      (position_from-Found (if str_eq x k then i else found) (i + 1) k xs)

Found-IsRank :
    (k : String) (ranking : List String) (n : ℕ) → Found k 10000 0 ranking n → IsRank k ranking n
Found-IsRank k ranking n (absent all m) = subst (IsRank k ranking) (sym m) (unranked ranking all)
Found-IsRank k ranking n (placed earlier later cut all m) =
    subst (λ l. IsRank k l n) (sym cut)
      (subst (IsRank k (earlier ++ k ∷ later)) (n_is m) (ranked earlier later all))
  where
    n_is : n ≡ 0 + length earlier → length earlier ≡ n
    n_is e = ground arith

ranks-ordered :
    (m n : ℕ) (j k : String)
    → key_lt (n, 0, k) (m, 0, j) ≡ false
    → (m < n) ⊎ ((m ≡ n) × (str_lt k j ≡ false))
unfolding key_lt
ranks-ordered m n j k h = elim (Bool-cases (ltb m n)) [
  | inl less ↦ inl (ground arith)
  | inr same ↦ inr (ground arith, ground arith)
]

sorted-IsRanked :
    (ranking : List String) (a b : RouteCandidate)
    → key_lt
        (position_from 10000 0 (key b.model) ranking, 0, key b.model)
        (position_from 10000 0 (key a.model) ranking, 0, key a.model)
      ≡ false
    → IsRanked ranking a b
sorted-IsRanked ranking a b h = record {
  rank = position_from 10000 0 (key a.model) ranking;
  rank' = position_from 10000 0 (key b.model) ranking;
  is_rank = Found-IsRank _ ranking _ (position_from-Found 10000 0 (key a.model) ranking);
  is_rank' = Found-IsRank _ ranking _ (position_from-Found 10000 0 (key b.model) ranking);
  ordered = ranks-ordered _ _ (key a.model) (key b.model) h;
}

ranks-tie :
    (a b : Option PricingDescriptor) (j k : String)
    → key_lt (cost_rank b k) (cost_rank a j) ≡ false
    → (p q : PricingDescriptor) → a ≡ some p
    → b ≡ some q
    → p.price_usd ≡ q.price_usd
    → str_lt k j ≡ false
unfolding key_lt cost_rank
ranks-tie none b j k h p q e f g = cc
ranks-tie (some a) none j k h p q e f g = cc
ranks-tie (some a) (some b) j k h p q e f g =
    let same : a.price_usd ≡ b.price_usd =
      ap (λ (x : PricingDescriptor). x.price_usd) (some-eq e)
      ∙ g
      ∙ sym (ap (λ (x : PricingDescriptor). x.price_usd) (some-eq f)) in
    ground arith
  where
    some-eq : {x y : PricingDescriptor} → some x ≡ some y → x ≡ y
    some-eq i = cc

ranks-unpriced :
    (a b : Option PricingDescriptor) (j k : String)
    → key_lt (cost_rank b k) (cost_rank a j) ≡ false
    → a ≡ none
    → b ≡ none
    → str_lt k j ≡ false
unfolding key_lt cost_rank
ranks-unpriced none none j k h e f = ground arith
ranks-unpriced (some a) b j k h e f = cc
ranks-unpriced none (some b) j k h e f = cc

sorted-IsDefaultFirst :
    (d : String) (a b : RouteCandidate)
    → key_lt (default_rank d none (key b.model)) (default_rank d none (key a.model)) ≡ false
    → IsDefaultFirst d a b
unfolding key_lt default_rank IsDefaultFirst
sorted-IsDefaultFirst d a b h = elim (Bool-cases (str_eq (key a.model) d)) [
  | inl first ↦ inl ((eq_iff (key a.model) d).0 first)
  | inr later ↦ elim (Bool-cases (str_eq (key b.model) d)) [
    | inl second ↦ let e = rw (later, second) at h in cc
    | inr neither ↦ inr (differ (key b.model) d neither, let e = rw (later, neither) at h in e)
  ]
]

sorted-MayPrecede :
    (s : Settings) (policies : Dict (List String)) (policy : RoutingPolicy) (a b : RouteCandidate)
    → is_fixed policy ≡ false
    → before s policies none policy b a ≡ false
    → MayPrecede s policies policy a b
unfolding sort_key is_fixed
sorted-MayPrecede s policies cost a b free h = record {
  price = ranks-CostsNoMore a.model.pricing b.model.pricing (key b.model) (key a.model) h;
  tie = ranks-tie a.model.pricing b.model.pricing (key a.model) (key b.model) h;
  unpriced = ranks-unpriced a.model.pricing b.model.pricing (key a.model) (key b.model) h;
}
sorted-MayPrecede s policies quality a b free h =
    sorted-IsRanked (ranking_of policies quality) a b h
sorted-MayPrecede s policies latency a b free h =
    sorted-IsRanked (ranking_of policies latency) a b h
sorted-MayPrecede s policies default a b free h =
    sorted-IsDefaultFirst (make_key s.default_provider s.default_model) a b h
sorted-MayPrecede s policies fixed a b free h = cc

sorted-IsOrdered :
    (s : Settings) (policies : Dict (List String)) (policy : RoutingPolicy)
    (cs : List RouteCandidate)
    → is_fixed policy ≡ false
    → IsSorted (before s policies none policy) cs
    → IsOrdered (MayPrecede s policies policy) cs
sorted-IsOrdered s policies policy [] free h = tt
sorted-IsOrdered s policies policy (c ∷ cs) free (later, h) = (
  All-impl (λ x. before s policies none policy x c ≡ false) (MayPrecede s policies policy c) cs
      (λ x k. sorted-MayPrecede s policies policy c x free k) later,
  sorted-IsOrdered s policies policy cs free h,
)

-- Automatic routing, by any policy but `fixed`, returns its candidates in the order of the policy.
-- By cost, an earlier candidate costs no more than a later one that has a price; by quality or by
-- latency it is not ranked after a later one in that policy's ranking, where a model without a place
-- has rank 10,000; by default the settings' default model comes first. Equals are in the order of
-- their keys.
pub route-IsOrdered :
    (r : Router) (request : TranscribeAudioRequest) (cs : List RouteCandidate)
    → is_auto request.provider ≡ true
    → is_fixed request.routing_policy ≡ false
    → route r request ≡ ok cs
    → IsOrdered (MayPrecede r.settings r.policies request.routing_policy) cs
route-IsOrdered r request cs auto' free e =
    sorted-IsOrdered r.settings r.policies request.routing_policy cs free
      (route-IsSorted r request cs auto' free e)
