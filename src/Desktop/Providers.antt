-- ===== src/Desktop/Providers.antt =====
-- desktop/providers.py: the providers that the setup knows, and the check of a key. The parts of a
-- URL, the test of an address and what the provider answers are arguments; the texts of the form are
-- left out.
use open_transcribe_mcp.Base.{
  ℕ, String, Bool, true, false, not, ◌&&◌, ◌||◌, Option, none, some, List, [], ◌∷◌, ltb, leb, ◌==◌,
  str_eq, if◌then◌else◌,
}
use open_transcribe_mcp.Desktop.Errors.{Try, done, raised, fail, config_invalid}

pub data CheckOutcome : Type 0 where
  passed failed not_supported not_tested : CheckOutcome

unfoldable pub outcome_value : CheckOutcome → String
outcome_value passed = "passed"
outcome_value failed = "failed"
outcome_value not_supported = "not_supported"
outcome_value not_tested = "not_tested"

unfoldable pub is_tested : CheckOutcome → Bool
is_tested not_tested = false
is_tested _ = true

pub record CredentialCheck : Type 0 where
  pub outcome : CheckOutcome
  pub message_key : String

pub record ProviderSetupDescriptor : Type 0 where
  pub provider_id : String
  pub display_name : String
  pub settings_key : String
  pub credential_roles : List String
  pub credential_check : String
  pub zero_retention_control : Bool

abbrev pub microsoft : ProviderSetupDescriptor
microsoft = record {
  provider_id = "microsoft";
  display_name = "Microsoft";
  settings_key = "microsoft";
  credential_roles = "api_key" ∷ [];
  credential_check = "none";
  zero_retention_control = false;
}

abbrev pub elevenlabs : ProviderSetupDescriptor
elevenlabs = record {
  provider_id = "elevenlabs";
  display_name = "ElevenLabs";
  settings_key = "elevenlabs";
  credential_roles = "api_key" ∷ [];
  credential_check = "api";
  zero_retention_control = true;
}

abbrev pub groq : ProviderSetupDescriptor
groq = record {
  provider_id = "groq";
  display_name = "Groq";
  settings_key = "groq";
  credential_roles = "api_key" ∷ [];
  credential_check = "api";
  zero_retention_control = false;
}

unfoldable pub find_descriptor : String → List ProviderSetupDescriptor → Try ProviderSetupDescriptor
find_descriptor provider_id [] =
    fail config_invalid "This is not a provider this build supports." none
find_descriptor provider_id (d ∷ ds) =
    if str_eq d.provider_id provider_id then done d else find_descriptor provider_id ds

unfoldable pub descriptor_for : String → Try ProviderSetupDescriptor
unfolding find_descriptor
descriptor_for provider_id = find_descriptor provider_id (microsoft ∷ elevenlabs ∷ groq ∷ [])

-- urlsplit(url); the host is stripped of its last dots and in lower case. `address` is what
-- `ipaddress` says: no address, or whether it is global.
pub record UrlParts : Type 0 where
  pub scheme : String
  pub has_userinfo : Bool
  pub host : String
  pub under_localhost : Bool
  pub address : Option Bool

unfoldable pub validate_address : String → Option Bool → Try String
validate_address url none = done url
validate_address url (some is_global) =
    if not is_global
    then fail config_invalid "A provider endpoint must not address a private network." none
    else done url

unfoldable pub validate_credential_endpoint : (String → UrlParts) → String → Try String
unfolding validate_address
validate_credential_endpoint urlsplit url =
    let parts = urlsplit url in
    if not (str_eq parts.scheme "https")
    then fail config_invalid "A provider endpoint must use HTTPS before a key can be sent to it."
        none
    else if parts.has_userinfo
    then fail config_invalid "A provider endpoint must not embed credentials in its URL." none
    else if str_eq parts.host "" || str_eq parts.host "localhost" || parts.under_localhost
    then fail config_invalid "A provider endpoint must name a public host." none
    else validate_address url parts.address

abbrev pub check : CheckOutcome → String → CredentialCheck
check outcome key = record { outcome = outcome; message_key = key }

unfoldable pub interpret : ℕ → CredentialCheck
interpret status =
    if leb 200 status && ltb status 300
    then check passed "check.passed"
    else if leb 301 status && leb status 303 || leb 307 status && leb status 308
    then check failed "check.redirected"
    else if status == 401 || status == 403
    then check failed "check.rejected"
    else if status == 429
    then check failed "check.rate_limited"
    else if status == 402
    then check failed "check.quota"
    else check failed "check.unavailable"

unfoldable pub interpret_answer : Option ℕ → CredentialCheck
unfolding interpret
interpret_answer none = check failed "check.unreachable"
interpret_answer (some status) = interpret status

-- The second part is the URL that the key was sent to.
unfoldable pub check_credential :
    (String → UrlParts)
    → (String → Option ℕ)
    → ProviderSetupDescriptor
    → String
    → Try CredentialCheck × Option String
unfolding interpret_answer validate_credential_endpoint
check_credential urlsplit answers d base_url =
    if str_eq d.credential_check "none"
    then (done (check not_supported "check.not_supported"), none)
    else elim (validate_credential_endpoint urlsplit base_url) [
      | raised f ↦ (raised f, none)
      | done url ↦ (done (interpret_answer (answers base_url)), some base_url)
    ]
