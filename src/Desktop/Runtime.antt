-- ===== src/Desktop/Runtime.antt =====
-- desktop/runtime.py: the engine's settings and policy from the managed configuration. The keyring,
-- pydantic's URLs and urlsplit are arguments, and so is whether the area of the temporary audio can
-- be prepared.
pub mod Enabled
use open_transcribe_mcp.Base.{
  ℕ, String, Bool, true, false, not, Option, none, some, List, [], ◌∷◌, ◌++◌, map, str_eq,
  if◌then◌else◌,
}
use open_transcribe_mcp.Base.Text.{◌+s◌}
use open_transcribe_mcp.Base.Dict.{Dict, lookup, insert}
use open_transcribe_mcp.Base.Sequences.{is_nonempty}
use open_transcribe_mcp.Domain.Errors.{Result, ok, err}
use open_transcribe_mcp.Settings
use open_transcribe_mcp.Settings.{
  HttpUrl, Settings, MicrosoftSettings, ElevenLabsSettings, GroqSettings, prod, stdio,
  unauthenticated, disabled, validate_security,
}
use open_transcribe_mcp.Policy.{TranscriptionPolicy}
use open_transcribe_mcp.Desktop.Errors.{
  Try, done, raised, Failure, exception, desktop, error_value, ◌>>=◌,
}
use open_transcribe_mcp.Desktop.Schema.{
  AnyHttpUrl, CredentialRef, ManagedProvider, ManagedConfig, enabled_providers,
}
use open_transcribe_mcp.Desktop.Credentials.{Keyring, KeyringFaults, get}
use open_transcribe_mcp.Desktop.Providers.{
  ProviderSetupDescriptor, UrlParts, descriptor_for, validate_credential_endpoint,
}

-- One provider's values: what is missing takes the default of its settings.
pub record Section : Type 0 where
  pub endpoint : Option String
  pub api_version : Option String
  pub zero_retention : Option Bool
  pub roles : Dict String

pub record ManagedRuntime : Type 0 where
  pub config : ManagedConfig
  pub settings : Settings
  pub policy : TranscriptionPolicy
  pub temporary_audio : Option ℕ
  pub unresolved_credentials : List String
  pub credential_error : Option String

-- The keyring as this session has it: an error's code, or what it refuses and what it holds.
pub data Session : Type 0 where
  unavailable : Failure → Session
  opened : KeyringFaults → Keyring → Session

pub record Surroundings : Type 0 where
  pub keyring : Session
  pub urlsplit : String → UrlParts
  pub http_url : String → HttpUrl
  pub prepare : Option Failure

found_secret : Try (Option String) → Option String
found_secret (done secret) = secret
found_secret (raised f) = none

-- A key that cannot be read is missing.
unfoldable pub secret_of : Session → Option CredentialRef → Option String
unfolding found_secret get
secret_of (opened faults k) (some ref) = found_secret (get faults ref k)
secret_of _ _ = none

with_secret : String → Option String → Section × List String → Section × List String
with_secret role none (section, missing) = (section, missing ++ role ∷ [])
with_secret role (some secret) (section, missing) =
    (record section { roles = insert role secret section.roles }, missing)

-- `_resolve_roles`
unfoldable pub resolve_roles :
    Session → ManagedProvider → List String → Section × List String → Section × List String
unfolding secret_of with_secret
resolve_roles session managed [] q = q
resolve_roles session managed (role ∷ roles) q =
    resolve_roles session managed roles
      (with_secret role (secret_of session (lookup role managed.credentials)) q)

given_text : Option String → Option String
given_text none = none
given_text (some s) = if str_eq s "" then none else some s

unfoldable pub checked_endpoint : (String → UrlParts) → Option AnyHttpUrl → Try (Option String)
unfolding validate_credential_endpoint
checked_endpoint urlsplit none = done none
checked_endpoint urlsplit (some url) =
    validate_credential_endpoint urlsplit url.text >>= λ text. done (some text)

labelled : String → List String → List String
labelled provider_id [] = []
labelled provider_id (role ∷ roles) = (provider_id +s ":" +s role) ∷ labelled provider_id roles

unfoldable pub section_of :
    Surroundings → ManagedProvider → ProviderSetupDescriptor → Try (Section × List String)
unfolding checked_endpoint resolve_roles given_text
section_of around managed d = checked_endpoint around.urlsplit managed.endpoint >>= λ endpoint.
    done (
      resolve_roles around.keyring managed d.credential_roles (
        record {
          endpoint = endpoint;
          api_version = given_text managed.api_version;
          zero_retention = if d.zero_retention_control then some true else none;
          roles = [];
        },
        [],
      ))

-- `_provider_settings`
unfoldable pub provider_settings :
    Surroundings
    → Dict ManagedProvider
    → Dict Section × List String
    → Try (Dict Section × List String)
unfolding descriptor_for section_of labelled
provider_settings around [] values = done values
provider_settings around ((provider_id, managed) ∷ providers) (values, unresolved) =
    let rest = provider_settings around providers in
    if not managed.enabled
    then rest (values, unresolved)
    else descriptor_for provider_id >>= λ d. section_of around managed d >>= λ q.
        rest (insert d.settings_key q.0 values, unresolved ++ labelled provider_id q.1)

or_default : {A : Type 0} → Option A → A → A
or_default none x = x
or_default (some a) x = a

mapped : {A B : Type 0} → (A → B) → Option A → Option B
mapped f none = none
mapped f (some a) = some (f a)

unfoldable pub microsoft_of : (String → HttpUrl) → Option Section → MicrosoftSettings
unfolding or_default mapped
microsoft_of http_url none = record { endpoint = none; api_key = none; api_version = "2025-10-15" }
microsoft_of http_url (some s) = record {
  endpoint = mapped http_url s.endpoint;
  api_key = lookup "api_key" s.roles;
  api_version = or_default s.api_version "2025-10-15";
}

unfoldable pub elevenlabs_of : (String → HttpUrl) → Option Section → ElevenLabsSettings
unfolding or_default
elevenlabs_of http_url none = record {
  api_key = none;
  base_url = http_url "https://api.elevenlabs.io";
  zero_retention = true;
}
elevenlabs_of http_url (some s) = record {
  api_key = lookup "api_key" s.roles;
  base_url = http_url "https://api.elevenlabs.io";
  zero_retention = or_default s.zero_retention true;
}

unfoldable pub groq_of : (String → HttpUrl) → Option Section → GroqSettings
groq_of http_url none = record {
  api_key = none;
  base_url = http_url "https://api.groq.com/openai/v1";
}
groq_of http_url (some s) = record {
  api_key = lookup "api_key" s.roles;
  base_url = http_url "https://api.groq.com/openai/v1";
}

-- ExplicitSettings(...), before its validation
unfoldable pub settings_of : (String → HttpUrl) → ManagedConfig → Dict Section → Settings
unfolding microsoft_of elevenlabs_of groq_of or_default
settings_of http_url c values = record {
  environment = prod;
  transport = stdio;
  host = "127.0.0.1";
  port = 1;
  default_provider = or_default c.selection.provider "microsoft";
  default_model = or_default c.selection.model "MAI-Transcribe-2";
  request_timeout_seconds = c.limits.request_timeout_seconds;
  provider_timeout_seconds = c.limits.provider_timeout_seconds;
  source_download_timeout_seconds = 120;
  max_audio_size_mb = c.limits.max_audio_size_mb;
  max_audio_duration_seconds = c.limits.max_audio_duration_seconds;
  max_request_cost_usd = c.limits.estimated_cost_threshold_usd;
  max_inline_text_chars = 100000;
  max_inline_segments = 1000;
  max_inline_response_bytes = 400000;
  microsoft = microsoft_of http_url (lookup "microsoft" values);
  elevenlabs = elevenlabs_of http_url (lookup "elevenlabs" values);
  groq = groq_of http_url (lookup "groq" values);
  security = record {
    auth_mode = unauthenticated;
    bearer_token = none;
    oidc_issuer_url = none;
    oidc_jwks_url = none;
    oidc_public_base_url = none;
    oidc_required_scope = "mcp:tools";
    oidc_required_claim_path = "realm_access.roles";
    oidc_required_claim_value = none;
    require_https_sources = true;
    allow_private_urls = false;
    max_redirects = 3;
    allowed_source_hosts = [];
  };
  result_store = record {
    backend = disabled;
    cursor_secret = none;
    ttl_seconds = 86400;
    s3_bucket = none;
    s3_endpoint_url = none;
    s3_region = "fr-par";
    s3_prefix = "transcripts";
  };
}

unfoldable pub explicit : Result Settings → Try Settings
explicit (ok s) = done s
explicit (err e) = raised (exception "ValidationError")

unfoldable pub policy_of : ManagedConfig → TranscriptionPolicy
unfolding enabled_providers
policy_of c = record {
  enabled_providers = some (enabled_providers c);
  allow_cross_provider_fallback = c.privacy.cross_provider_fallback;
  allow_temporary_audio = c.privacy.temporary_audio_processing;
}

failure_code : Failure → String
failure_code (desktop e) = error_value e.code
failure_code _ = ""

-- Without an enabled provider the keyring is not asked.
unfoldable pub lazy_error : List String → Session → Option String
unfolding is_nonempty failure_code
lazy_error enabled (opened faults k) = none
lazy_error enabled (unavailable f) = if is_nonempty enabled then some (failure_code f) else none

unfoldable pub prepared : Bool → ℕ → Option Failure → Try (Option ℕ)
prepared false ttl f = done none
prepared true ttl none = done (some ttl)
prepared true ttl (some f) = raised f

unfoldable pub runtime_from_config : Surroundings → ManagedConfig → Try ManagedRuntime
unfolding provider_settings settings_of explicit validate_security policy_of lazy_error prepared
runtime_from_config around c = provider_settings around c.providers ([], []) >>= λ values.
    prepared c.privacy.temporary_audio_processing c.privacy.temporary_audio_ttl_seconds
      around.prepare
    >>= λ temporary_audio.
        explicit (validate_security (settings_of around.http_url c values.0)) >>= λ settings.
        done (record {
          config = c;
          settings = settings;
          policy = policy_of c;
          temporary_audio = temporary_audio;
          unresolved_credentials = values.1;
          credential_error = lazy_error (enabled_providers c) around.keyring;
        })
