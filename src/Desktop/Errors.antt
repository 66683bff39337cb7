-- ===== src/Desktop/Errors.antt =====
-- desktop/errors.py: the failures of the desktop application, and the other exceptions beside them.
use open_transcribe_mcp.Base.{String, ◌≡◌, refl, Bool, true, false, Option}

pub data DesktopErrorCode : Type 0 where
  config_missing config_invalid config_unsupported_version config_unsafe_location : DesktopErrorCode
  config_locked keyring_unavailable keyring_locked credential_missing : DesktopErrorCode
  engine_missing engine_handshake_failed client_unsupported client_conflict : DesktopErrorCode
  client_registration_failed temp_audio_unavailable privilege_refused : DesktopErrorCode

-- `code.value`
unfoldable pub error_value : DesktopErrorCode → String
error_value config_missing = "CONFIG_MISSING"
error_value config_invalid = "CONFIG_INVALID"
error_value config_unsupported_version = "CONFIG_UNSUPPORTED_VERSION"
error_value config_unsafe_location = "CONFIG_UNSAFE_LOCATION"
error_value config_locked = "CONFIG_LOCKED"
error_value keyring_unavailable = "KEYRING_UNAVAILABLE"
error_value keyring_locked = "KEYRING_LOCKED"
error_value credential_missing = "CREDENTIAL_MISSING"
error_value engine_missing = "ENGINE_MISSING"
error_value engine_handshake_failed = "ENGINE_HANDSHAKE_FAILED"
error_value client_unsupported = "CLIENT_UNSUPPORTED"
error_value client_conflict = "CLIENT_CONFLICT"
error_value client_registration_failed = "CLIENT_REGISTRATION_FAILED"
error_value temp_audio_unavailable = "TEMP_AUDIO_UNAVAILABLE"
error_value privilege_refused = "PRIVILEGE_REFUSED"

pub record DesktopError : Type 0 where
  pub code : DesktopErrorCode
  pub message : String
  pub recovery : Option String

-- What a call of the desktop code raises: its own error, an `OSError`, or another exception.
pub data Failure : Type 0 where
  desktop : DesktopError → Failure
  os_error : Failure
  exception : String → Failure

-- exc.code is DesktopErrorCode.CONFIG_MISSING
unfoldable pub is_missing_code : DesktopErrorCode → Bool
is_missing_code config_missing = true
is_missing_code _ = false

unfoldable pub is_config_missing : Failure → Bool
unfolding is_missing_code
is_config_missing (desktop e) = is_missing_code e.code
is_config_missing _ = false

pub data Try {ℓ} (A : Type ℓ) : Type ℓ where
  done : A → Try A
  raised : Failure → Try A

infixl 5 ◌>>=◌
abbrev pub ◌>>=◌ {ℓ κ} : {A : Type ℓ} {B : Type κ} → Try A → (A → Try B) → Try B
raised failure >>= next = raised failure
done x >>= next = next x

abbrev pub fail {ℓ} : {A : Type ℓ} → DesktopErrorCode → String → Option String → Try A
fail code message recovery =
    raised (desktop (record { code = code; message = message; recovery = recovery }))

module _ {ℓ κ} {A : Type ℓ} {B : Type κ} where
  pub >>=-eq-done :
      (first : Try A) (next : A → Try B) {answer : B}
      → (first >>= next) ≡ done answer
      → (x : A) × (first ≡ done x) × (next x ≡ done answer)
  >>=-eq-done (raised failure) next e = cc
  >>=-eq-done (done x) next e = (x, refl, e)

pub done-injective : {A : Type 0} {a b : A} → ◌≡◌ {A = Try A} (done a) (done b) → a ≡ b
done-injective e = cc

pub raised-ne-done : {A : Type 0} {f : Failure} {a : A} → ◌≡◌ {A = Try A} (raised f) (done a) → ⊥
raised-ne-done e = cc
