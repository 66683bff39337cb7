-- ===== src/Policy.antt =====
-- policy.py: what this installation may do.
use open_transcribe_mcp.Base.{String, Bool, true, Option, none, some, List, if◌then◌else◌}
use open_transcribe_mcp.Base.Text.{contains, ◌+s◌}
use open_transcribe_mcp.Domain.Errors.{
  Result, ok, raise_for, provider_not_enabled, temporary_audio_not_permitted,
}

-- `enabled_providers` is a set: only membership is asked.
pub record TranscriptionPolicy : Type 0 where
  pub enabled_providers : Option (List String)
  pub allow_cross_provider_fallback : Bool
  pub allow_temporary_audio : Bool

abbrev pub unrestricted : TranscriptionPolicy
unrestricted = record {
  enabled_providers = none;
  allow_cross_provider_fallback = true;
  allow_temporary_audio = true;
}

permits_in : Option (List String) → String → Bool
unfolding contains
permits_in none provider_id = true
permits_in (some enabled) provider_id = contains provider_id enabled

unfoldable pub permits_provider : TranscriptionPolicy → String → Bool
unfolding permits_in
permits_provider policy provider_id = permits_in policy.enabled_providers provider_id

unfoldable pub require_provider : TranscriptionPolicy → String → Option String → Result (Unit {0})
require_provider policy provider_id model =
    if permits_provider policy provider_id
    then ok tt
    else raise_for provider_not_enabled (provider_id +s " is not enabled for this installation.")
        (some provider_id) model

unfoldable pub require_temporary_audio : TranscriptionPolicy → String → String → Result (Unit {0})
require_temporary_audio policy provider model =
    if policy.allow_temporary_audio
    then ok tt
    else raise_for temporary_audio_not_permitted
        "This model must receive the audio itself, and temporary audio processing is not permitted for this installation."
        (some provider) (some model)
