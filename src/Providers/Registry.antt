-- ===== src/Providers/Registry.antt =====
-- providers/registry.py: the dictionaries of providers and of models.
pub mod Catalogued
use open_transcribe_mcp.Base.{ℕ, String, ◌≡◌, Bool, Option, none, some, List, [], ◌∷◌, ◌++◌, All}
use open_transcribe_mcp.Base.Float.{Float}
use open_transcribe_mcp.Base.Text.{◌+s◌}
use open_transcribe_mcp.Base.Dict.{Dict, lookup, insert, values}
use open_transcribe_mcp.Domain.Errors.{
  Result, ok, raise, raise_for, unsupported_provider, unsupported_model,
}
use open_transcribe_mcp.Domain.Capabilities.{ModelDescriptor, PricingDescriptor, key, make_key}
use open_transcribe_mcp.Settings.{Settings}
use open_transcribe_mcp.Providers.Catalog.{
  Provider, Transcribe, microsoft_provider, elevenlabs_provider, groq_provider, flat_lookup,
}

pub record Registry : Type 0 where
  pub providers : Dict Provider
  pub models : Dict ModelDescriptor

unfoldable pub add_models : List ModelDescriptor → Dict ModelDescriptor → Dict ModelDescriptor
add_models [] d = d
add_models (m ∷ ms) d = add_models ms (insert (key m) m d)

unfoldable pub add_providers : List Provider → Registry → Registry
unfolding add_models
add_providers [] r = r
add_providers (p ∷ ps) r = add_providers ps (record {
  providers = insert p.provider_id p r.providers;
  models = add_models p.list_models r.models;
})

-- ProviderRegistry(providers)
unfoldable pub make : List Provider → Registry
unfolding add_providers
make providers = add_providers providers (record { providers = []; models = [] })

-- pricing.get(provider, {})
abbrev pub prices_of :
    String → Dict (Dict (Option PricingDescriptor)) → Dict (Option PricingDescriptor)
prices_of provider pricing = elim (lookup provider pricing) [ none ↦ [] | some d ↦ d ]

-- `pricing` is what `load_pricing` returns; each adapter's exchange is an argument.
unfoldable pub from_settings :
    ℕ
    → (Float → Float → Float)
    → Transcribe
    → Transcribe
    → Transcribe
    → Dict (Dict (Option PricingDescriptor))
    → Settings
    → Registry
unfolding make microsoft_provider elevenlabs_provider groq_provider
from_settings today rounded_cost microsoft elevenlabs groq pricing s = make (
    microsoft_provider today rounded_cost s.microsoft
      (flat_lookup "MAI-Transcribe-2" (prices_of "microsoft" pricing)) microsoft
    ∷ elevenlabs_provider today rounded_cost s.elevenlabs
        (flat_lookup "scribe-v2" (prices_of "elevenlabs" pricing)) elevenlabs
    ∷ groq_provider today rounded_cost s.groq (prices_of "groq" pricing) groq
    ∷ [])

found_provider : String → Option Provider → Result Provider
found_provider provider_id none =
    raise unsupported_provider ("Unsupported provider: " +s provider_id +s ".")
found_provider provider_id (some p) = ok p

unfoldable pub get_provider : Registry → String → Result Provider
unfolding found_provider
get_provider r provider_id = found_provider provider_id (lookup provider_id r.providers)

found_model : String → String → Option ModelDescriptor → Result ModelDescriptor
found_model provider_id model none =
    raise_for unsupported_model ("Unsupported model: " +s provider_id +s "/" +s model +s ".")
      (some provider_id) (some model)
found_model provider_id model (some m) = ok m

unfoldable pub get_model : Registry → String → String → Result ModelDescriptor
unfolding found_model
get_model r provider_id model =
    found_model provider_id model (lookup (make_key provider_id model) r.models)

unfoldable pub list_models : Registry → List ModelDescriptor
list_models r = values r.models
