-- ===== src/Desktop/Runtime/Enabled.antt =====
-- What the engine may use under a managed configuration: the providers that it enables.
use open_transcribe_mcp.Base.{
  ℕ, ◌≡◌, refl, ap, sym, ◌∙◌, subst, arith, eq_iff, String, str_eq, Bool, true, false, Option, none,
  List, [], ◌∷◌, ◌++◌, All, Bool-cases, if◌then◌else◌, inl, inr,
}
use open_transcribe_mcp.Base.Text.{contains}
use open_transcribe_mcp.Base.Float.{Float}
use open_transcribe_mcp.Base.Dict.{Dict, lookup, insert, lookup-insert}
use open_transcribe_mcp.Domain.Errors.{ok}
use open_transcribe_mcp.Domain.Audio.{TranscribeAudioRequest, is_given}
use open_transcribe_mcp.Domain.Capabilities.{PricingDescriptor}
use open_transcribe_mcp.Settings.{Settings, validate_security}
use open_transcribe_mcp.Policy.{permits_provider}
use open_transcribe_mcp.Providers.Catalog.{
  Transcribe, microsoft_configured, elevenlabs_configured, groq_configured,
}
use open_transcribe_mcp.Providers.Registry.{from_settings}
use open_transcribe_mcp.Providers.Registry.Catalogued.{from_settings-IsCatalog}
use open_transcribe_mcp.Routing.Route.{route}
use open_transcribe_mcp.Routing.Candidate.{RouteCandidate}
use open_transcribe_mcp.Routing.Authorization.{IsAuthorized, route-IsAuthorized}
use open_transcribe_mcp.Desktop.Errors.{done, >>=-eq-done, done-injective, raised-ne-done}
use open_transcribe_mcp.Desktop.Schema.{
  ManagedProvider, ManagedConfig, enabled_providers, enabled_in,
}
use open_transcribe_mcp.Desktop.Providers.{
  ProviderSetupDescriptor, microsoft, elevenlabs, groq, find_descriptor, descriptor_for,
}
use open_transcribe_mcp.Desktop.Runtime.{
  Section, Surroundings, ManagedRuntime, section_of, provider_settings, labelled, settings_of,
  microsoft_of, elevenlabs_of, groq_of, explicit, policy_of, prepared, runtime_from_config,
}

-- The settings of a provider stand under its own name.
find_descriptor-key :
    (id : String) (ds : List ProviderSetupDescriptor) (d : ProviderSetupDescriptor)
    → All (λ x. x.settings_key ≡ x.provider_id) ds
    → find_descriptor id ds ≡ done d
    → d.settings_key ≡ id
unfolding find_descriptor
find_descriptor-key id [] d h e = absurd (raised-ne-done e)
find_descriptor-key id (x ∷ ds) d (k, h) e = elim (Bool-cases (str_eq x.provider_id id)) [
  | inl same ↦
      ap (λ y. y.settings_key) (sym (done-injective (rw same at e)))
      ∙ k
      ∙ (eq_iff x.provider_id id).0 same
  | inr apart ↦ find_descriptor-key id ds d h (rw apart at e)
]

descriptor_for-key :
    (id : String) (d : ProviderSetupDescriptor) → descriptor_for id ≡ done d → d.settings_key ≡ id
unfolding descriptor_for
descriptor_for-key id d e =
    find_descriptor-key id (microsoft ∷ elevenlabs ∷ groq ∷ []) d (refl, (refl, (refl, tt))) e

-- What is known of the first provider, and of the rest.
enabled_in-head :
    (p name : String) (m : ManagedProvider) (providers : Dict ManagedProvider)
    → contains p (enabled_in ((name, m) ∷ providers)) ≡ false
    → m.enabled ≡ true
    → str_eq name p ≡ false
unfolding enabled_in contains
enabled_in-head p name m providers h on = ground arith

enabled_in-tail :
    (p name : String) (m : ManagedProvider) (providers : Dict ManagedProvider)
    → contains p (enabled_in ((name, m) ∷ providers)) ≡ false
    → contains p (enabled_in providers) ≡ false
unfolding enabled_in contains
enabled_in-tail p name m providers h = ground arith

provider_settings-absent :
    (around : Surroundings) (p : String) (providers : Dict ManagedProvider)
    (values : Dict Section × List String) (values' : Dict Section × List String)
    → contains p (enabled_in providers) ≡ false
    → lookup p values.0 ≡ none
    → provider_settings around providers values ≡ done values'
    → lookup p values'.0 ≡ none
unfolding provider_settings
provider_settings-absent around p [] values values' off h e =
    ap (λ q. lookup p q.0) (sym (done-injective e)) ∙ h
provider_settings-absent around p ((name, m) ∷ providers) (values, unresolved) values' off h e =
    elim (Bool-cases m.enabled) [
      | inr disabled ↦
          provider_settings-absent around p providers (values, unresolved) values'
            (enabled_in-tail p name m providers off) h (rw disabled at e)
      | inl on ↦
          let (d, found, e1) = >>=-eq-done (descriptor_for name) _ (rw on at e) in
          let (q, made, e2) = >>=-eq-done (section_of around m d) _ e1 in
          provider_settings-absent around p providers
            (insert d.settings_key q.0 values, unresolved ++ labelled name q.1) values'
            (enabled_in-tail p name m providers off)
            (lookup-insert d.settings_key p q.0 values
              ∙ rw (descriptor_for-key name d found, enabled_in-head p name m providers off on) h)
            e2
    ]

-- Whether the settings have what a provider needs.
unfoldable pub is_configured : String → Settings → Bool
unfolding microsoft_configured elevenlabs_configured groq_configured
is_configured p s =
    if str_eq p "microsoft"
    then microsoft_configured s.microsoft
    else if str_eq p "elevenlabs"
    then elevenlabs_configured s.elevenlabs
    else if str_eq p "groq"
    then groq_configured s.groq
    else false

-- What follows for a provider that is not enabled.
pub record IsDenied (p : String) (rt : ManagedRuntime) : Type 0 where
  pub policy : permits_provider rt.policy p ≡ false
  pub settings : is_configured p rt.settings ≡ false

-- The engine's settings are those of the configuration.
pub record IsBuilt (around : Surroundings) (c : ManagedConfig) (rt : ManagedRuntime) : Type 0 where
  pub values : Dict Section × List String
  pub resolved : provider_settings around c.providers ([], []) ≡ done values
  pub settings : rt.settings ≡ settings_of around.http_url c values.0
  pub policy : rt.policy ≡ policy_of c

pub runtime-IsBuilt :
    (around : Surroundings) (c : ManagedConfig) (rt : ManagedRuntime)
    → runtime_from_config around c ≡ done rt
    → IsBuilt around c rt
unfolding runtime_from_config explicit validate_security settings_of
runtime-IsBuilt around c rt e =
    let (values, resolved, e1) = >>=-eq-done (provider_settings around c.providers ([], [])) _ e in
    let (ttl, ready, e2) =
      >>=-eq-done
        (prepared c.privacy.temporary_audio_processing c.privacy.temporary_audio_ttl_seconds
          around.prepare)
        _ e1 in
    let built = done-injective e2 in
    record {
      values = values;
      resolved = resolved;
      settings = ap (λ x. x.settings) (sym built);
      policy = ap (λ x. x.policy) (sym built);
    }

settings-absent :
    (around : Surroundings) (c : ManagedConfig) (values : Dict Section) (p : String)
    → lookup p values ≡ none
    → is_configured p (settings_of around.http_url c values) ≡ false
unfolding is_configured settings_of microsoft_of elevenlabs_of groq_of microsoft_configured
    elevenlabs_configured groq_configured is_given
settings-absent around c values p absent = elim (Bool-cases (str_eq p "microsoft")) [
  | inl m ↦ rw (m, subst (λ x. lookup x values ≡ none) ((eq_iff p "microsoft").0 m) absent) refl
  | inr not_m ↦ elim (Bool-cases (str_eq p "elevenlabs")) [
    | inl e ↦
        rw (not_m, e, subst (λ x. lookup x values ≡ none) ((eq_iff p "elevenlabs").0 e) absent) refl
    | inr not_e ↦ elim (Bool-cases (str_eq p "groq")) [
      | inl g ↦
          rw (not_m, not_e, g, subst (λ x. lookup x values ≡ none) ((eq_iff p "groq").0 g) absent)
            refl
      | inr not_g ↦ rw (not_m, not_e, not_g) refl
    ]
  ]
]

-- A provider that the managed configuration does not enable is not permitted by the policy of the
-- engine, and is not configured in its settings, whatever keys are stored for it.
pub runtime-IsDenied :
    (around : Surroundings) (c : ManagedConfig) (rt : ManagedRuntime) (p : String)
    → runtime_from_config around c ≡ done rt
    → contains p (enabled_providers c) ≡ false
    → IsDenied p rt
unfolding enabled_providers permits_provider policy_of settings_of microsoft_of elevenlabs_of
    groq_of microsoft_configured elevenlabs_configured groq_configured is_given lookup
runtime-IsDenied around c rt p e off =
    let b = runtime-IsBuilt around c rt e in
    let absent =
      provider_settings-absent around p c.providers ([], []) b.values off refl b.resolved in
    record {
      policy = rw (b.policy) off;
      settings = rw b.settings (settings-absent around c b.values.0 p absent);
    }

All-enabled :
    (c : ManagedConfig) (rt : ManagedRuntime)
    → rt.policy ≡ policy_of c
    → (cs : List RouteCandidate) → All (λ x. IsAuthorized rt.policy x.model) cs
    → All (λ x. contains x.model.provider (enabled_providers c) ≡ true) cs
unfolding permits_provider policy_of
All-enabled c rt same [] h = tt
All-enabled c rt same (x ∷ cs) (a, h) = (
  sym (ap (λ q. permits_provider q x.model.provider) same) ∙ a.permitted,
  All-enabled c rt same cs h,
)

-- Every candidate of a request that is routed in the engine of a managed configuration, the
-- fallbacks included, is a model whose provider the configuration enables.
pub route-IsEnabled :
    (today : ℕ) (rounded_cost : Float → Float → Float) (m e g : Transcribe)
    (pricing : Dict (Dict (Option PricingDescriptor))) (policies : Dict (List String))
    (around : Surroundings) (c : ManagedConfig) (rt : ManagedRuntime)
    (request : TranscribeAudioRequest) (cs : List RouteCandidate)
    → runtime_from_config around c ≡ done rt
    → route
        (record {
          registry = from_settings today rounded_cost m e g pricing rt.settings;
          settings = rt.settings;
          policy = rt.policy;
          policies = policies;
        })
        request
      ≡ ok cs
    → All (λ x. contains x.model.provider (enabled_providers c) ≡ true) cs
route-IsEnabled today rounded_cost m e g pricing policies around c rt request cs built routed =
    All-enabled c rt (runtime-IsBuilt around c rt built).policy cs (
      route-IsAuthorized _ (from_settings-IsCatalog today rounded_cost m e g pricing rt.settings)
        request cs routed)
