-- ===== src/Desktop/Setup/Planning.antt =====
-- desktop/setup.py: `plan`, which reads the state and describes the change.
use open_transcribe_mcp.Base.{
  ℕ, String, not, Option, none, some, List, [], ◌∷◌, ◌++◌, str_eq, if◌then◌else◌,
}
use open_transcribe_mcp.Base.Text.{◌+s◌}
use open_transcribe_mcp.Base.Dict.{Dict, lookup, insert, has_key}
use open_transcribe_mcp.Desktop.Errors.{Try, done, ◌>>=◌}
use open_transcribe_mcp.Desktop.Schema.{
  CredentialRef, ManagedProvider, ManagedClient, ManagedConfig, no_provider, validate_endpoint,
  validate_schema_version, schema_version,
}
use open_transcribe_mcp.Desktop.Credentials.{new_credential_ref}
use open_transcribe_mcp.Desktop.Providers.{outcome_value, is_tested, descriptor_for}
use open_transcribe_mcp.Desktop.Journal.{
  InstallJournal, OwnedResource, client_registration, resources, load_journal,
}
use open_transcribe_mcp.Desktop.Clients.{ServerRegistration, RegistrationPlan, make_registration}
use open_transcribe_mcp.Desktop.Setup.{
  ProviderIntent, SetupIntent, SetupPlan, World, SetupService, current_config,
}

fingerprints_of : List OwnedResource → List String
fingerprints_of [] = []
fingerprints_of (r ∷ rs) = elim r.fingerprint [
  | none ↦ fingerprints_of rs
  | some print ↦ if str_eq print "" then fingerprints_of rs else print ∷ fingerprints_of rs
]

unfoldable pub owned_fingerprints : InstallJournal → List String
unfolding fingerprints_of
owned_fingerprints j = fingerprints_of (resources client_registration j)

-- One provider's references: those that are kept, moved to the new ones, and those that are retired.
pub record Planned : Type 0 where
  pub refs : Dict CredentialRef
  pub new_credentials : List String
  pub retired : List CredentialRef

retiring : Option CredentialRef → List CredentialRef → List CredentialRef
retiring none retired = retired
retiring (some stale) retired = retired ++ stale ∷ []

-- The random part of each new reference is an argument.
module _ (token : String → String → String) (installation_id : String) where
  unfoldable pub plan_role : ProviderIntent → String → Planned → Planned
  unfolding retiring new_credential_ref
  plan_role item role p = if not (has_key role item.secrets) then p else record {
    refs =
        insert role
          (new_credential_ref installation_id item.provider_id role (token item.provider_id role))
          p.refs;
    new_credentials = p.new_credentials ++ (item.provider_id +s ":" +s role) ∷ [];
    retired = retiring (lookup role p.refs) p.retired;
  }

  unfoldable pub plan_roles : ProviderIntent → List String → Planned → Planned
  unfolding plan_role
  plan_roles item [] p = p
  plan_roles item (role ∷ roles) p = plan_roles item roles (plan_role item role p)

unfoldable pub or_else {ℓ} : {A : Type ℓ} → Option A → Option A → Option A
or_else none other = other
or_else (some x) other = some x

-- `item.api_version or existing.api_version`: an empty text is none.
unfoldable pub or_else_text : Option String → Option String → Option String
or_else_text none other = other
or_else_text (some s) other = if str_eq s "" then other else some s

unfoldable pub existing_provider : String → Option ManagedConfig → ManagedProvider
existing_provider provider_id none = no_provider
existing_provider provider_id (some previous) = elim (lookup provider_id previous.providers) [
  | none ↦ no_provider
  | some existing ↦ existing
]

unfoldable pub managed : ProviderIntent → ManagedProvider → Dict CredentialRef → ℕ → ManagedProvider
unfolding or_else or_else_text outcome_value is_tested
managed item existing refs now = record {
  enabled = item.enabled;
  credentials = refs;
  endpoint = or_else item.endpoint existing.endpoint;
  api_version = or_else_text item.api_version existing.api_version;
  checked_at = if is_tested item.check_outcome then some now else existing.checked_at;
  check_outcome = outcome_value item.check_outcome;
}

pub record PlannedProviders : Type 0 where
  pub providers : Dict ManagedProvider
  pub new_credentials : List String
  pub retired : List CredentialRef

unfoldable pub plan_providers :
    (token : String → String → String) (installation_id : String) (previous : Option ManagedConfig)
    (now : ℕ)
    → List ProviderIntent
    → PlannedProviders
    → Try PlannedProviders
unfolding plan_roles existing_provider managed descriptor_for validate_endpoint
plan_providers token installation_id previous now [] p = done p
plan_providers token installation_id previous now (item ∷ items) p =
    descriptor_for item.provider_id >>= λ d.
    let existing = existing_provider item.provider_id previous in
    let roles = plan_roles token installation_id item d.credential_roles (record {
      refs = existing.credentials;
      new_credentials = p.new_credentials;
      retired = p.retired;
    }) in
    validate_endpoint (managed item existing roles.refs now) >>= λ m.
    plan_providers token installation_id previous now items (record {
      providers = insert item.provider_id m p.providers;
      new_credentials = roles.new_credentials;
      retired = roles.retired;
    })

unfoldable pub installation_of : Option ManagedConfig → String → String
installation_of none fresh = fresh
installation_of (some previous) fresh = previous.installation_id

module _ {S : Type 0} (service : SetupService) where
  unfoldable pub registration : SetupIntent S → Try (Option ServerRegistration)
  unfolding make_registration
  registration intent = elim intent.adapter [
    | none ↦ done none
    | some adapter ↦
        make_registration service.is_absolute (record {
          name = intent.server_name;
          command = service.engine;
          config_path = service.config_file;
        })
        >>= λ r. done (some r)
  ]

  unfoldable pub client_plan :
      SetupIntent S → String → Option ServerRegistration → World S → Try (Option RegistrationPlan)
  unfolding owned_fingerprints load_journal
  client_plan intent installation_id none w = done none
  client_plan intent installation_id (some r) w = elim intent.adapter [
    | none ↦ done none
    | some adapter ↦ load_journal w.journal_file installation_id >>= λ j.
        adapter.plan r (owned_fingerprints j) intent.takeover w.client >>= λ p. done (some p)
  ]

  unfoldable pub client_of : SetupIntent S → Option ManagedClient
  client_of intent = elim intent.adapter [
    | none ↦ none
    | some adapter ↦ some (record {
      adapter_id = adapter.adapter_id;
      display_name = adapter.display_name;
      server_name = intent.server_name;
      registered_at = none;
      registration_fingerprint = none;
      activation = "unverified";
    })
  ]

  -- `fresh` is a new installation's id.
  unfoldable pub plan :
      (token : String → String → String) (fresh : String) → SetupIntent S → World S → Try SetupPlan
  unfolding plan_providers registration client_plan client_of installation_of current_config
      validate_schema_version
  plan token fresh intent w = current_config w >>= λ previous.
      let id = installation_of previous fresh in
      plan_providers token id previous service.now intent.providers
        (record { providers = []; new_credentials = []; retired = [] })
      >>= λ p. registration intent >>= λ r. client_plan intent id r w >>= λ registration_plan.
          validate_schema_version (record {
            schema_version = schema_version;
            installation_id = id;
            locale = intent.locale;
            selection = intent.selection;
            providers = p.providers;
            privacy = intent.privacy;
            limits = intent.limits;
            client = client_of intent;
          })
          >>= λ config. done (record {
            config = config;
            previous = previous;
            registration = r;
            registration_plan = registration_plan;
            new_credentials = p.new_credentials;
            retired_credentials = p.retired;
            needs_cleanup_timer = intent.privacy.temporary_audio_processing;
          })
