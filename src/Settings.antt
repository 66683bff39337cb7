-- ===== src/Settings.antt =====
-- settings.py: the settings and their validation.
use open_transcribe_mcp.Base.{
  ℕ, ◌*◌, String, Bool, true, false, not, ◌&&◌, ◌||◌, Option, none, some, List, str_eq,
  if◌then◌else◌,
}
use open_transcribe_mcp.Base.Float.{Float}
use open_transcribe_mcp.Base.Text.{codes, codes_eq, strip, any_space, split, all_identifiers}
use open_transcribe_mcp.Domain.Errors.{Result, ok, err, runtime_error}
use open_transcribe_mcp.Domain.Audio.{is_given}

-- pydantic's `HttpUrl`, by the parts that the program reads.
pub record HttpUrl : Type 0 where
  pub text : String
  pub scheme : String
  pub path : Option String
  pub query : Option String
  pub fragment : Option String

pub record MicrosoftSettings : Type 0 where
  pub endpoint : Option HttpUrl
  pub api_key : Option String
  pub api_version : String

pub record ElevenLabsSettings : Type 0 where
  pub api_key : Option String
  pub base_url : HttpUrl
  pub zero_retention : Bool

pub record GroqSettings : Type 0 where
  pub api_key : Option String
  pub base_url : HttpUrl

pub data AuthMode : Type 0 where
  unauthenticated bearer oidc : AuthMode

pub record SecuritySettings : Type 0 where
  pub auth_mode : AuthMode
  pub bearer_token : Option String
  pub oidc_issuer_url : Option HttpUrl
  pub oidc_jwks_url : Option HttpUrl
  pub oidc_public_base_url : Option HttpUrl
  pub oidc_required_scope : String
  pub oidc_required_claim_path : String
  pub oidc_required_claim_value : Option String
  pub require_https_sources : Bool
  pub allow_private_urls : Bool
  pub max_redirects : ℕ
  pub allowed_source_hosts : List String

pub data Backend : Type 0 where
  disabled memory s3 : Backend

pub record ResultStoreSettings : Type 0 where
  pub backend : Backend
  pub cursor_secret : Option String
  pub ttl_seconds : ℕ
  pub s3_bucket : Option String
  pub s3_endpoint_url : Option HttpUrl
  pub s3_region : String
  pub s3_prefix : String

pub data Environment : Type 0 where
  dev test prod : Environment

pub data Transport : Type 0 where
  http stdio : Transport

-- `config_dir` only names the files that `Providers.Registry` and `Routing` take parsed.
pub record Settings : Type 0 where
  pub environment : Environment
  pub transport : Transport
  pub host : String
  pub port : ℕ
  pub default_provider : String
  pub default_model : String
  pub request_timeout_seconds : ℕ
  pub provider_timeout_seconds : ℕ
  pub source_download_timeout_seconds : ℕ
  pub max_audio_size_mb : ℕ
  pub max_audio_duration_seconds : ℕ
  pub max_request_cost_usd : Option Float
  pub max_inline_text_chars : ℕ
  pub max_inline_segments : ℕ
  pub max_inline_response_bytes : ℕ
  pub microsoft : MicrosoftSettings
  pub elevenlabs : ElevenLabsSettings
  pub groq : GroqSettings
  pub security : SecuritySettings
  pub result_store : ResultStoreSettings

unfoldable pub max_audio_bytes : Settings → ℕ
max_audio_bytes s = s.max_audio_size_mb * 1024 * 1024

unfoldable pub is_disabled : Backend → Bool
is_disabled disabled = true
is_disabled _ = false

unfoldable pub is_s3 : Backend → Bool
is_s3 s3 = true
is_s3 _ = false

-- not value, for `str | None`
unfoldable pub is_falsy : Option String → Bool
is_falsy none = true
is_falsy (some s) = str_eq s ""

unfoldable pub validate_stores : Settings → Result Settings
unfolding is_disabled is_s3 is_falsy is_given
validate_stores s =
    if not (is_disabled s.result_store.backend) && not (is_given s.result_store.cursor_secret)
    then err
        (runtime_error "OT_RESULT_STORE__CURSOR_SECRET is required when result storage is enabled")
    else if is_s3 s.result_store.backend && is_falsy s.result_store.s3_bucket
    then err (runtime_error "OT_RESULT_STORE__S3_BUCKET is required for the S3 result store")
    else ok s

-- url is None or url.scheme != "https" or url.query or url.fragment
unfoldable pub bad_oidc_url : Option HttpUrl → Bool
unfolding is_falsy
bad_oidc_url none = true
bad_oidc_url (some url) =
    not (str_eq url.scheme "https") || not (is_falsy url.query) || not (is_falsy url.fragment)

-- base is None or base.path not in (None, "", "/")
unfoldable pub bad_base : Option HttpUrl → Bool
bad_base none = true
bad_base (some base) = elim base.path [
  | none ↦ false
  | some path ↦ not (str_eq path "" || str_eq path "/")
]

-- not scope or scope.strip() != scope or any(char.isspace() for char in scope)
unfoldable pub bad_scope : String → Bool
unfolding strip codes_eq any_space codes
bad_scope scope =
    str_eq scope "" || not (codes_eq (strip (codes scope)) (codes scope)) || any_space (codes scope)

-- not claim_value or claim_value.strip() != claim_value
unfoldable pub bad_claim_value : Option String → Bool
unfolding strip codes_eq codes
bad_claim_value none = true
bad_claim_value (some value) = str_eq value "" || not (codes_eq (strip (codes value)) (codes value))

abbrev pub refuse : String → Result Settings
refuse message = err (runtime_error message)

unfoldable pub validate_oidc : Settings → Result Settings → Result Settings
unfolding bad_oidc_url bad_base bad_scope bad_claim_value all_identifiers split codes is_given
validate_oidc s rest =
    let sec = s.security in
    if not (
      is_given sec.oidc_issuer_url
      && is_given sec.oidc_jwks_url
      && is_given sec.oidc_public_base_url)
    then refuse "OIDC requires issuer, JWKS, and public base URLs"
    else if bad_oidc_url sec.oidc_issuer_url
        || bad_oidc_url sec.oidc_jwks_url
        || bad_oidc_url sec.oidc_public_base_url
    then refuse "OIDC URLs must use HTTPS without query or fragment"
    else if bad_base sec.oidc_public_base_url
    then refuse "OIDC public base URL must not contain a path"
    else if bad_scope sec.oidc_required_scope
    then refuse "OIDC required scope must be one non-empty scope"
    else if not (all_identifiers (split b'.' (codes sec.oidc_required_claim_path)))
    then refuse "OIDC required claim path must use dotted identifiers"
    else if bad_claim_value sec.oidc_required_claim_value
    then refuse "OIDC required claim value must be non-empty"
    else rest

-- self.environment == "prod" and self.security.auth_mode == "none"
unfoldable pub is_open_production : Environment → AuthMode → Bool
is_open_production prod unauthenticated = true
is_open_production _ _ = false

-- The last checks of the HTTP transport.
unfoldable pub validate_environment : Settings → Result Settings
unfolding validate_stores is_open_production
validate_environment s =
    if is_open_production s.environment s.security.auth_mode
    then refuse "unauthenticated HTTP is not allowed in production"
    else validate_stores s

unfoldable pub validate_http : AuthMode → Settings → Result Settings
unfolding validate_environment validate_oidc is_given
validate_http unauthenticated s = validate_environment s
validate_http bearer s =
    if not (is_given s.security.bearer_token)
    then refuse "OT_SECURITY__BEARER_TOKEN is required for bearer auth"
    else validate_environment s
validate_http oidc s = validate_oidc s (validate_environment s)

unfoldable pub validate_stdio : AuthMode → Settings → Result Settings
unfolding validate_stores
validate_stdio unauthenticated s = validate_stores s
validate_stdio _ s =
    refuse
      "the stdio transport is authenticated by the local session; set security.auth_mode to 'none' for it"

validate_transport : Transport → Settings → Result Settings
validate_transport http s = validate_http s.security.auth_mode s
validate_transport stdio s = validate_stdio s.security.auth_mode s

unfoldable pub validate_security : Settings → Result Settings
unfolding validate_transport validate_http validate_stdio
validate_security s = validate_transport s.transport s
