-- ===== src/Desktop/Setup.antt =====
-- desktop/setup.py: the setup transaction. Here are its values and its state; `Planning`
-- reads the state, `Apply` and `Lifecycle` change it.
pub mod Planning
pub mod Progress
pub mod Steps
pub mod Phases
pub mod Apply
pub mod Lifecycle
pub mod Frame
pub mod Writing
pub mod Verified
pub mod Saving
pub mod Registering
pub mod Committed
pub mod Kept
pub mod Clearing
pub mod Erased
pub mod Disconnected
use open_transcribe_mcp.Base.{
  ℕ, String, Bool, true, false, not, ◌&&◌, ◌||◌, Option, none, some, List, [], ◌∷◌, ◌++◌, str_eq,
  if◌then◌else◌,
}
use open_transcribe_mcp.Base.Text.{◌+s◌}
use open_transcribe_mcp.Base.Dict.{Dict, lookup, insert, has_key}
use open_transcribe_mcp.Domain.Audio.{is_given}
use open_transcribe_mcp.Desktop.Errors.{
  Try, done, raised, Failure, DesktopError, is_config_missing, ◌>>=◌,
}
use open_transcribe_mcp.Desktop.Schema.{
  CredentialRef, ManagedProvider, ManagedSelection, ManagedPrivacy, ManagedLimits, ManagedClient,
  ManagedConfig, AnyHttpUrl, no_provider, validate_endpoint, validate_schema_version,
  schema_version,
}
use open_transcribe_mcp.Desktop.Credentials.{Keyring, KeyringFaults, new_credential_ref}
use open_transcribe_mcp.Desktop.Providers.{
  CheckOutcome, outcome_value, is_tested, ProviderSetupDescriptor, descriptor_for,
}
use open_transcribe_mcp.Desktop.CleanupTimer.{CleanupTimer, Units}
use open_transcribe_mcp.Desktop.Journal.{
  InstallJournal, OwnedResource, client_registration, resources, load_journal,
}
use open_transcribe_mcp.Desktop.Clients.{
  ServerRegistration, ExistingEntry, RegistrationPlan, ClientAdapter, make_registration,
}

pub record ProviderIntent : Type 0 where
  pub provider_id : String
  pub enabled : Bool
  pub secrets : Dict String
  pub endpoint : Option AnyHttpUrl
  pub api_version : Option String
  pub check_outcome : CheckOutcome

-- The adapter has the type of the client's configuration.
pub record SetupIntent (S : Type 0) : Type 0 where
  pub providers : List ProviderIntent
  pub selection : ManagedSelection
  pub privacy : ManagedPrivacy
  pub limits : ManagedLimits
  pub adapter : Option (ClientAdapter S)
  pub server_name : String
  pub takeover : Bool
  pub locale : String

pub record SetupPlan : Type 0 where
  pub config : ManagedConfig
  pub previous : Option ManagedConfig
  pub registration : Option ServerRegistration
  pub registration_plan : Option RegistrationPlan
  pub new_credentials : List String
  pub retired_credentials : List CredentialRef
  pub needs_cleanup_timer : Bool

pub record EngineProbeResult : Type 0 where
  pub ok : Bool
  pub reason : String

pub record ApplyOutcome : Type 0 where
  pub config_saved : Bool
  pub credentials_written : List String
  pub engine : Option EngineProbeResult
  pub registered : Bool
  pub readback : Option ExistingEntry
  pub restart_required : Bool
  pub failure : Option DesktopError
  pub repair_needed : List String

-- ApplyOutcome()
abbrev pub no_outcome : ApplyOutcome
no_outcome = record {
  config_saved = false;
  credentials_written = [];
  engine = none;
  registered = false;
  readback = none;
  restart_required = false;
  failure = none;
  repair_needed = [];
}

unfoldable pub is_ok : Option EngineProbeResult → Bool
is_ok none = false
is_ok (some engine) = engine.ok

unfoldable pub complete : ApplyOutcome → Bool
unfolding is_ok is_given
complete o = o.config_saved && is_ok o.engine && not (is_given o.failure)

-- How `write_private_file` ends: the file is replaced, or an exception before `os.replace` leaves the
-- previous one, or the directory cannot be opened or flushed after the file has been replaced.
pub data SaveEnd : Type 0 where
  saved : SaveEnd
  refused : Failure → SaveEnd
  unsynced : SaveEnd

-- What the setup finds and changes: the configuration that is loaded, the keyring, the journal that
-- is read and how each save of it will end, the timer's units, and the client's configuration.
pub record World (S : Type 0) : Type 0 where
  pub config : Try ManagedConfig
  pub keyring : Keyring
  pub journal_file : Try InstallJournal
  pub journal_saves : List SaveEnd
  pub units : Units
  pub client : S

-- `SetupService` with what it calls: the keyring's refusals, the lock, the save of a configuration,
-- the probe of the engine, the clock,
-- the test of a path, and the digest of a launch.
pub record SetupService : Type 0 where
  pub config_file : String
  pub engine : String
  pub application_version : Option String
  pub cleanup_timer : Option CleanupTimer
  pub faults : KeyringFaults
  pub lock : Option Failure
  pub save_config : ManagedConfig → SaveEnd
  pub probe_engine : Try ManagedConfig → Keyring → EngineProbeResult
  pub now : ℕ
  pub is_absolute : String → Bool
  pub digest : List String → String

unfoldable pub config_or_none : Try ManagedConfig → Try (Option ManagedConfig)
config_or_none (done c) = done (some c)
config_or_none (raised f) = if is_config_missing f then done none else raised f

unfoldable pub current_config : {S : Type 0} → World S → Try (Option ManagedConfig)
unfolding config_or_none
current_config w = config_or_none w.config
