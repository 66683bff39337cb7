-- ===== src/Desktop/Schema.antt =====
-- desktop/schema.py and desktop/store.py: the managed configuration, its validation, and how it is
-- loaded. The TOML parser and the conversion of its fields are arguments.
use open_transcribe_mcp.Base.{
  ℕ, ◌*◌, String, Bool, true, false, not, ◌&&◌, Option, none, some, List, [], ◌∷◌, ltb, ◌==◌,
  length, str_eq, if◌then◌else◌,
}
use open_transcribe_mcp.Base.Dict.{Dict, lookup}
use open_transcribe_mcp.Base.Float.{Float, one}
use open_transcribe_mcp.Base.Json.{
  Json, null, boolean, number, text, array, object, Items, nil, cons, Fields, end, field, get_field,
}
use open_transcribe_mcp.Domain.Audio.{RoutingPolicy, is_given}
use open_transcribe_mcp.Desktop.Errors.{
  Try, done, raised, fail, exception, ◌>>=◌, config_invalid, config_unsupported_version,
}

abbrev pub schema_version : ℕ
schema_version = 1

abbrev pub credential_namespace : String
credential_namespace = "open-transcribe-mcp"

pub record CredentialRef : Type 0 where
  pub service : String
  pub account : String

unfoldable pub validate_namespace : CredentialRef → Try CredentialRef
validate_namespace ref =
    if not (str_eq ref.service credential_namespace)
    then raised (exception "credential references must stay in the open-transcribe-mcp scope")
    else done ref

-- An endpoint, by its scheme and its text.
pub record AnyHttpUrl : Type 0 where
  pub scheme : String
  pub text : String

pub record ManagedProvider : Type 0 where
  pub enabled : Bool
  pub credentials : Dict CredentialRef
  pub endpoint : Option AnyHttpUrl
  pub api_version : Option String
  pub checked_at : Option ℕ
  pub check_outcome : String

-- ManagedProvider()
abbrev pub no_provider : ManagedProvider
no_provider = record {
  enabled = false;
  credentials = [];
  endpoint = none;
  api_version = none;
  checked_at = none;
  check_outcome = "not_tested";
}

is_https : Option AnyHttpUrl → Bool
is_https none = true
is_https (some url) = str_eq url.scheme "https"

unfoldable pub validate_endpoint : ManagedProvider → Try ManagedProvider
unfolding is_https
validate_endpoint p =
    if not (is_https p.endpoint)
    then raised (exception "provider endpoints must use https")
    else done p

-- `transcript_store` admits "disabled" only.
pub record ManagedPrivacy : Type 0 where
  pub temporary_audio_processing : Bool
  pub temporary_audio_ttl_seconds : ℕ
  pub cross_provider_fallback : Bool

pub record ManagedLimits : Type 0 where
  pub estimated_cost_threshold_usd : Option Float
  pub max_audio_duration_seconds : ℕ
  pub max_audio_size_mb : ℕ
  pub request_timeout_seconds : ℕ
  pub provider_timeout_seconds : ℕ

pub record ManagedClient : Type 0 where
  pub adapter_id : String
  pub display_name : String
  pub server_name : String
  pub registered_at : Option ℕ
  pub registration_fingerprint : Option String
  pub activation : String

pub record ManagedSelection : Type 0 where
  pub provider : Option String
  pub model : Option String
  pub routing_policy : RoutingPolicy

unfoldable pub validate_selection : ManagedSelection → Try ManagedSelection
unfolding is_given
validate_selection s =
    if is_given s.model && not (is_given s.provider)
    then raised (exception "a preferred model requires a preferred provider")
    else done s

pub record ManagedConfig : Type 0 where
  pub schema_version : ℕ
  pub installation_id : String
  pub locale : String
  pub selection : ManagedSelection
  pub providers : Dict ManagedProvider
  pub privacy : ManagedPrivacy
  pub limits : ManagedLimits
  pub client : Option ManagedClient

or_no_provider : Option ManagedProvider → ManagedProvider
or_no_provider none = no_provider
or_no_provider (some p) = p

unfoldable pub is_selectable : Option String → Dict ManagedProvider → Bool
unfolding or_no_provider
is_selectable none providers = true
is_selectable (some selected) providers = (or_no_provider (lookup selected providers)).enabled

unfoldable pub validate_schema_version : ManagedConfig → Try ManagedConfig
unfolding is_selectable
validate_schema_version c =
    if not (c.schema_version == schema_version)
    then raised (exception "unsupported managed schema version")
    else if not (is_selectable c.selection.provider c.providers)
    then raised (exception "the preferred provider is not enabled")
    else done c

unfoldable pub enabled_in : Dict ManagedProvider → List String
enabled_in [] = []
enabled_in ((name, provider) ∷ providers) =
    let rest = enabled_in providers in if provider.enabled then name ∷ rest else rest

unfoldable pub enabled_providers : ManagedConfig → List String
unfolding enabled_in
enabled_providers c = enabled_in c.providers

-- What TOML cannot represent is left out of the objects.
unfoldable mutual
  pub drop_none : Json → Json
  drop_none (object fs) = object (drop_fields fs)
  drop_none (array xs) = array (drop_items xs)
  drop_none null = null
  drop_none (boolean b) = boolean b
  drop_none (number x) = number x
  drop_none (text s) = text s

  pub drop_items : Items → Items
  drop_items nil = nil
  drop_items (cons x xs) = cons (drop_none x) (drop_items xs)

  pub drop_fields : Fields → Fields
  drop_fields end = end
  drop_fields (field name null fs) = drop_fields fs
  drop_fields (field name x fs) = field name (drop_none x) (drop_fields fs)

abbrev pub max_config_bytes : ℕ
max_config_bytes = 256 * 1024

-- `version == SCHEMA_VERSION` holds for `true` too.
unfoldable pub require_version : Json → Try (Unit {0})
require_version (number version) =
    if version == one
    then done tt
    else if ltb one version
    then fail config_unsupported_version "The saved setup uses a newer schema version." (
        some
          "Install the newer OpenTranscribe Setup again, or erase the saved setup from a build that understands it. This build will not modify it.")
    else fail config_invalid
        "The managed configuration does not declare a schema version this build reads."
        (some "Open OpenTranscribe Setup to rebuild the configuration.")
require_version (boolean true) = done tt
require_version _ =
    fail config_invalid
      "The managed configuration does not declare a schema version this build reads."
      (some "Open OpenTranscribe Setup to rebuild the configuration.")

unfoldable pub parsed : Option Fields → Try Fields
parsed (some document) = done document
parsed none =
    fail config_invalid "The managed configuration is not readable TOML."
      (some "Open OpenTranscribe Setup to rebuild the configuration.")

unfoldable pub validated : Option ManagedConfig → Try ManagedConfig
validated (some config) = done config
validated none =
    fail config_invalid "The managed configuration does not match this build's schema."
      (some "Open OpenTranscribe Setup to review and repair the saved setup.")

module _ (toml_loads : List ℕ → Option Fields)
    (model_validate : Fields → Option ManagedConfig) where
  unfoldable pub load_managed_config : Bool → Try (List ℕ) → Try ManagedConfig
  unfolding parsed validated require_version
  load_managed_config is_absolute contents =
      if not is_absolute
      then fail config_invalid "The managed configuration path must be absolute." none
      else contents >>= λ payload.
          if ltb max_config_bytes (length payload)
          then fail config_invalid "The managed configuration is larger than this build accepts."
              none
          else parsed (toml_loads payload) >>= λ document.
              require_version (get_field "schema_version" document) >>= λ u.
              validated (model_validate document)
