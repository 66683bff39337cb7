-- ===== src/Providers/Pricing.antt =====
-- providers/pricing.py, and `MicrosoftProvider.estimate_cost`, which repeats it.
-- The day is an argument, and so is the arithmetic of floats, `round(seconds / 3600 * price, 6)`.
use open_transcribe_mcp.Base.{
  ℕ, String, Bool, false, Option, none, some, [], ◌∷◌, ltb, if◌then◌else◌,
}
use open_transcribe_mcp.Base.Float.{Float}
use open_transcribe_mcp.Domain.Capabilities.{PricingDescriptor}
use open_transcribe_mcp.Domain.Transcript.{CostEstimate}

module _ (today : ℕ) (rounded_cost : Float → Float → Float) where
  -- A date is never falsy.
  unfoldable pub has_expired : Option ℕ → Bool
  has_expired none = false
  has_expired (some until) = ltb until today

  unfoldable pub estimate_from_pricing :
      String → String → Float → Option PricingDescriptor → CostEstimate
  unfolding has_expired
  estimate_from_pricing provider model duration_seconds none = record {
    provider = provider;
    model = model;
    duration_seconds = duration_seconds;
    estimated_cost_usd = none;
    pricing_valid_at = none;
    warnings = "pricing_metadata_unavailable" ∷ [];
  }
  estimate_from_pricing provider model duration_seconds (some pricing) = record {
    provider = provider;
    model = model;
    duration_seconds = duration_seconds;
    estimated_cost_usd = some (rounded_cost duration_seconds pricing.price_usd);
    pricing_valid_at = some pricing.valid_from;
    warnings = if has_expired pricing.valid_until then "pricing_metadata_expired" ∷ [] else [];
  }
