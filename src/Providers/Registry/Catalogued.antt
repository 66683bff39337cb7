-- ===== src/Providers/Registry/Catalogued.antt =====
-- What holds of every registry that is made from the settings: models stand under their keys, no
-- provider's name holds a slash, and the models of one provider are configured together.
use Prim.Native.Char.{Char, code}
use text.Mathlib.TextLemmas.{nil-append, cons-append}
use open_transcribe_mcp.Base.{
  ℕ, String, ◌≡◌, ◌≢◌, refl, sym, ◌∙◌, ap, Bool, Option, some, none, List, [], ◌∷◌, All, arith,
  str_eq, if◌then◌else◌,
}
use open_transcribe_mcp.Base.Text.{◌+s◌}
use open_transcribe_mcp.Base.Float.{Float}
use open_transcribe_mcp.Base.Dict.{Dict, insert, lookup, All-insert, All-lookup}
use open_transcribe_mcp.Domain.Errors.{ok}
use open_transcribe_mcp.Domain.Capabilities.{ModelDescriptor, PricingDescriptor, key, make_key}
use open_transcribe_mcp.Settings.{Settings}
use open_transcribe_mcp.Providers.Catalog.{
  Provider, Transcribe, microsoft_configured, elevenlabs_configured, groq_configured, flat_lookup,
  microsoft_provider, elevenlabs_provider, groq_provider,
}
use open_transcribe_mcp.Providers.Registry.{
  Registry, add_models, add_providers, from_settings, get_model, found_model, prices_of,
}

abbrev pub NoSlash : String → Type 0
NoSlash String.[] = Unit
NoSlash (String.◌∷◌ c s) = (code c ≢ b'/') × NoSlash s

abbrev pub IsEntry : (String → Bool) → String × ModelDescriptor → Type 0
IsEntry conf (k, m) = (k ≡ key m) × NoSlash m.provider × (m.configured ≡ conf m.provider)

pub record IsCatalog (r : Registry) : Type 0 where
  pub configured_of : String → Bool
  pub entries : All (IsEntry configured_of) r.models

make_key-cons :
    (c : Char) (p m : String) → make_key (String.◌∷◌ c p) m ≡ String.◌∷◌ c (make_key p m)
unfolding make_key
make_key-cons c p m = simp cons-append

make_key-nil : (m : String) → make_key "" m ≡ "/" +s m
unfolding make_key
make_key-nil m = simp nil-append

abbrev first_code : String → ℕ
first_code String.[] = 0
first_code (String.◌∷◌ c s) = code c

first_code-make_key : (m : String) → first_code (make_key "" m) ≡ b'/'
first_code-make_key m = rw (make_key-nil m) (rw cons-append)

abbrev tail_of : String → String
tail_of String.[] = ""
tail_of (String.◌∷◌ c s) = s

-- The provider is read off the key, up to its first slash.
pub make_key-provider :
    (p q m n : String) → NoSlash p → NoSlash q → make_key p m ≡ make_key q n → p ≡ q
make_key-provider String.[] String.[] m n hp hq e = refl
make_key-provider String.[] (String.◌∷◌ d q) m n hp (hd, hq) e =
    absurd (
      hd
        (ap first_code (sym (make_key-cons d q n)) ∙ ap first_code (sym e) ∙ first_code-make_key m))
make_key-provider (String.◌∷◌ c p) String.[] m n (hc, hp) hq e =
    absurd
      (hc (ap first_code (sym (make_key-cons c p m)) ∙ ap first_code e ∙ first_code-make_key n))
make_key-provider (String.◌∷◌ c p) (String.◌∷◌ d q) m n (hc, hp) (hd, hq) e =
    let e' : String.◌∷◌ c (make_key p m) ≡ String.◌∷◌ d (make_key q n) =
      sym (make_key-cons c p m) ∙ e ∙ make_key-cons d q n in
    cc (make_key-provider p q m n hp hq (ap tail_of e'), e')

add_models-IsCatalog :
    (conf : String → Bool) (ms : List ModelDescriptor) (d : Dict ModelDescriptor)
    → All (λ m. NoSlash m.provider × (m.configured ≡ conf m.provider)) ms
    → All (IsEntry conf) d
    → All (IsEntry conf) (add_models ms d)
unfolding add_models
add_models-IsCatalog conf [] d h a = a
add_models-IsCatalog conf (m ∷ ms) d ((slash, c), h) a =
    add_models-IsCatalog conf ms (insert (key m) m d) h
      (All-insert (IsEntry conf) (key m) m d (λ j e. (e, slash, c)) a)

abbrev ListsWell : (String → Bool) → Provider → Type 0
ListsWell conf p = All (λ m. NoSlash m.provider × (m.configured ≡ conf m.provider)) p.list_models

add_providers-IsCatalog :
    (conf : String → Bool) (ps : List Provider) (r : Registry)
    → All (ListsWell conf) ps
    → All (IsEntry conf) r.models
    → All (IsEntry conf) (add_providers ps r).models
unfolding add_providers
add_providers-IsCatalog conf [] r h a = a
add_providers-IsCatalog conf (p ∷ ps) r (q, h) a =
    add_providers-IsCatalog conf ps _ h (add_models-IsCatalog conf p.list_models r.models q a)

pub microsoft-NoSlash : NoSlash "microsoft"
microsoft-NoSlash = omega arith

pub elevenlabs-NoSlash : NoSlash "elevenlabs"
elevenlabs-NoSlash = omega arith

pub groq-NoSlash : NoSlash "groq"
groq-NoSlash = omega arith

-- Which providers the settings configure.
configured_by : Settings → String → Bool
configured_by s p =
    if str_eq p "microsoft"
    then microsoft_configured s.microsoft
    else if str_eq p "elevenlabs"
    then elevenlabs_configured s.elevenlabs
    else groq_configured s.groq

module _ (today : ℕ) (rounded_cost : Float → Float → Float) (microsoft elevenlabs groq : Transcribe)
    (pricing : Dict (Dict (Option PricingDescriptor))) (s : Settings) where
  -- The registry of any settings is a catalogue: every model stands under the key of its own
  -- provider and name, the provider's name has no slash, and whether a model is configured depends
  -- on its provider alone.
  pub from_settings-IsCatalog :
      IsCatalog (from_settings today rounded_cost microsoft elevenlabs groq pricing s)
  unfolding from_settings configured_by
  from_settings-IsCatalog = record {
    configured_of = configured_by s;
    entries = add_providers-IsCatalog (configured_by s) adapters empty lists_well tt;
  }
    where
      adapters : List Provider
      adapters =
          microsoft_provider today rounded_cost s.microsoft
            (flat_lookup "MAI-Transcribe-2" (prices_of "microsoft" pricing)) microsoft
          ∷ elevenlabs_provider today rounded_cost s.elevenlabs
              (flat_lookup "scribe-v2" (prices_of "elevenlabs" pricing)) elevenlabs
          ∷ groq_provider today rounded_cost s.groq (prices_of "groq" pricing) groq
          ∷ []

      empty : Registry
      empty = record { providers = []; models = [] }

      lists_well : All (ListsWell (configured_by s)) adapters
      lists_well = (
        ((microsoft-NoSlash, refl), tt),
        (
          ((elevenlabs-NoSlash, refl), tt),
          (((groq-NoSlash, refl), ((groq-NoSlash, refl), tt)), tt),
        ),
      )

found_model-eq-ok :
    (p name : String) (o : Option ModelDescriptor) (m : ModelDescriptor)
    → found_model p name o ≡ ok m
    → o ≡ some m
unfolding found_model
found_model-eq-ok p name none m e = cc
found_model-eq-ok p name (some found) m e = cc

-- A model that is found by its name is one of that provider.
pub get_model-entry :
    {r : Registry} (c : IsCatalog r) (p name : String) (m : ModelDescriptor)
    → NoSlash p
    → get_model r p name ≡ ok m
    → (key m ≡ make_key p name) × (m.provider ≡ p) × (m.configured ≡ c.configured_of m.provider)
unfolding get_model key
get_model-entry {r} c p name m slash e =
    let here = found_model-eq-ok p name (lookup (make_key p name) r.models) m e in
    let (same, slash', conf) =
      All-lookup (IsEntry c.configured_of) (make_key p name) m r.models c.entries here in
    (sym same, make_key-provider m.provider p m.model name slash' slash (sym same), conf)
