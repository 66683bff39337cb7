-- ===== src/Domain/Errors.antt =====
-- domain/errors.py: error codes, the error response, and the exceptions that carry it.
use open_transcribe_mcp.Base.{ℕ, String, Bool, false, Option, none, List, []}

pub data ErrorCode : Type 0 where
  authentication_failed provider_authentication_failed source_url_rejected : ErrorCode
  source_unavailable source_too_large source_duration_exceeded invalid_audio : ErrorCode
  unsupported_provider unsupported_model unsupported_capability provider_not_enabled : ErrorCode
  temporary_audio_not_permitted rate_limited provider_unavailable provider_timeout : ErrorCode
  provider_response_invalid cost_limit_exceeded result_not_found result_store_disabled : ErrorCode
  internal_error : ErrorCode

-- `code.value`
unfoldable pub code_value : ErrorCode → String
code_value authentication_failed = "AUTHENTICATION_FAILED"
code_value provider_authentication_failed = "PROVIDER_AUTHENTICATION_FAILED"
code_value source_url_rejected = "SOURCE_URL_REJECTED"
code_value source_unavailable = "SOURCE_UNAVAILABLE"
code_value source_too_large = "SOURCE_TOO_LARGE"
code_value source_duration_exceeded = "SOURCE_DURATION_EXCEEDED"
code_value invalid_audio = "INVALID_AUDIO"
code_value unsupported_provider = "UNSUPPORTED_PROVIDER"
code_value unsupported_model = "UNSUPPORTED_MODEL"
code_value unsupported_capability = "UNSUPPORTED_CAPABILITY"
code_value provider_not_enabled = "PROVIDER_NOT_ENABLED"
code_value temporary_audio_not_permitted = "TEMPORARY_AUDIO_NOT_PERMITTED"
code_value rate_limited = "RATE_LIMITED"
code_value provider_unavailable = "PROVIDER_UNAVAILABLE"
code_value provider_timeout = "PROVIDER_TIMEOUT"
code_value provider_response_invalid = "PROVIDER_RESPONSE_INVALID"
code_value cost_limit_exceeded = "COST_LIMIT_EXCEEDED"
code_value result_not_found = "RESULT_NOT_FOUND"
code_value result_store_disabled = "RESULT_STORE_DISABLED"
code_value internal_error = "INTERNAL_ERROR"

-- The values that the program puts into `details`, which is a `dict[str, Any]` in the source.
pub data Detail : Type 0 where
  text : String → Detail
  number : ℕ → Detail
  texts : List String → Detail
  attempts : List (String × String × String) → Detail

pub record ErrorResponse : Type 0 where
  pub code : ErrorCode
  pub message : String
  pub provider : Option String
  pub model : Option String
  pub retryable : Bool
  pub details : List (String × Detail)

-- What a call of the program raises: `OpenTranscribeError`, its subclass `ProviderError`, or an
-- exception of Python or of a library, which is none of the two.
pub data Exception : Type 0 where
  open_transcribe_error : ErrorResponse → Exception
  provider_error : ErrorResponse → Exception
  runtime_error : String → Exception

pub data Result {ℓ} (A : Type ℓ) : Type ℓ where
  ok : A → Result A
  err : Exception → Result A

-- OpenTranscribeError(code, message), with the keyword arguments at their defaults.
abbrev pub response : ErrorCode → String → ErrorResponse
response code message = record {
  code = code;
  message = message;
  provider = none;
  model = none;
  retryable = false;
  details = [];
}

infixl 5 ◌>>=◌ ◌>>◌
abbrev pub ◌>>=◌ {ℓ κ} : {A : Type ℓ} {B : Type κ} → Result A → (A → Result B) → Result B
err failure >>= next = err failure
ok x >>= next = next x

abbrev pub ◌>>◌ {κ} : {B : Type κ} → Result (Unit {0}) → Result B → Result B
done >> next = done >>= λ _. next

abbrev pub raise {ℓ} : {A : Type ℓ} → ErrorCode → String → Result A
raise code message = err (open_transcribe_error (response code message))

-- OpenTranscribeError(code, message, provider=provider, model=model)
abbrev pub raise_for {ℓ} :
    {A : Type ℓ} → ErrorCode → String → Option String → Option String → Result A
raise_for code message provider model = err (
    open_transcribe_error (record {
      code = code;
      message = message;
      provider = provider;
      model = model;
      retryable = false;
      details = [];
    }))
