-- ===== src/Tests/Setups.antt =====
-- A first setup with one key for Microsoft, and a client that has no server of this name yet.
use open_transcribe_mcp.Base.{
  ℕ, ◌≡◌, ◌⊎◌, refl, String, Bool, true, false, Option, none, some, List, [], ◌∷◌, All,
}
use open_transcribe_mcp.Base.Json.{Json}
use open_transcribe_mcp.Domain.Audio.{default}
use open_transcribe_mcp.Desktop.Errors.{
  done, raised, Failure, os_error, desktop, config_missing, config_invalid,
}
use open_transcribe_mcp.Desktop.Schema.{CredentialRef, ManagedConfig}
use open_transcribe_mcp.Desktop.Credentials.{get_password, ref_eq}
use open_transcribe_mcp.Desktop.Providers.{not_tested}
use open_transcribe_mcp.Desktop.Clients.{ExistingEntry, ClientAdapter}
use open_transcribe_mcp.Desktop.Clients.JsonStore.{ConfigFile, json_adapter}
use open_transcribe_mcp.Desktop.Clients.JsonStore.Registered.{registered_entry}
use open_transcribe_mcp.Desktop.Setup.{
  SetupIntent, SetupPlan, ApplyOutcome, EngineProbeResult, World, SetupService, complete, SaveEnd,
  saved, refused, unsynced,
}
use open_transcribe_mcp.Desktop.Setup.Planning.{plan}
use open_transcribe_mcp.Desktop.Setup.Apply.{apply}
use open_transcribe_mcp.Desktop.Setup.Writing.{targets}
use open_transcribe_mcp.Desktop.Setup.Saving.{IsReady}
use open_transcribe_mcp.Desktop.Setup.Registering.{IsTold}
use open_transcribe_mcp.Desktop.Setup.Committed.{apply-IsGuarded, apply-IsComplete}
use open_transcribe_mcp.Desktop.Setup.Kept.{apply-rolled_back}
use open_transcribe_mcp.Tests.Clients.{
  one_letter, digest, adapter, registration, files_only, adding,
}

abbrev missing_config : Failure
missing_config = desktop (record { code = config_missing; message = "missing"; recovery = none })

abbrev answering : EngineProbeResult
answering = record { ok = true; reason = "engine.ready" }

abbrev service_with : (ManagedConfig → SaveEnd) → SetupService
service_with save_config = record {
  config_file = "/home/u/.config/open-transcribe/config.toml";
  engine = "/opt/open-transcribe/engine";
  application_version = some "1.0";
  cleanup_timer = none;
  faults = record { on_get = λ ref. none; on_put = λ ref. none; on_delete = λ ref. none };
  lock = none;
  save_config = save_config;
  probe_engine = λ c k. answering;
  now = 7;
  is_absolute = λ path. true;
  digest = digest;
}

abbrev pub service : SetupService
service = service_with (λ c. saved)

abbrev full_disk : SetupService
full_disk = service_with (λ c. refused os_error)

abbrev intent : SetupIntent (ConfigFile Json)
intent = record {
  providers =
      record {
        provider_id = "microsoft";
        enabled = true;
        secrets = ("api_key", "m-key") ∷ [];
        endpoint = some (record { scheme = "https"; text = "https://speech.example" });
        api_version = none;
        check_outcome = not_tested;
      }
      ∷ [];
  selection = record { provider = some "microsoft"; model = none; routing_policy = default };
  privacy = record {
    temporary_audio_processing = false;
    temporary_audio_ttl_seconds = 3600;
    cross_provider_fallback = false;
  };
  limits = record {
    estimated_cost_threshold_usd = none;
    max_audio_duration_seconds = 21600;
    max_audio_size_mb = 500;
    request_timeout_seconds = 900;
    provider_timeout_seconds = 600;
  };
  adapter = some (json_adapter one_letter digest adapter true);
  server_name = "open-transcribe";
  takeover = false;
  locale = "en";
}

abbrev old_ref : CredentialRef
old_ref = record { service = "open-transcribe-mcp"; account = "old" }

abbrev pub new_ref : CredentialRef
new_ref = record { service = "open-transcribe-mcp"; account = "i:microsoft:api_key:1" }

abbrev pub world : World (ConfigFile Json)
world = record {
  config = raised missing_config;
  keyring = (old_ref, "old-key") ∷ [];
  journal_file = raised missing_config;
  journal_saves = [];
  units = record { service = none; timer = none };
  client = files_only;
}

abbrev pub managed_config : ManagedConfig
managed_config = record {
  schema_version = 1;
  installation_id = "i";
  locale = "en";
  selection = intent.selection;
  providers =
      (
        "microsoft",
        record {
          enabled = true;
          credentials = ("api_key", new_ref) ∷ [];
          endpoint = some (record { scheme = "https"; text = "https://speech.example" });
          api_version = none;
          checked_at = none;
          check_outcome = "not_tested";
        },
      )
      ∷ [];
  privacy = intent.privacy;
  limits = intent.limits;
  client = some (record {
    adapter_id = "cursor";
    display_name = "Cursor";
    server_name = "open-transcribe";
    registered_at = none;
    registration_fingerprint = none;
    activation = "unverified";
  });
}

abbrev first_plan : SetupPlan
first_plan = record {
  config = managed_config;
  previous = none;
  registration = some registration;
  registration_plan = some adding;
  new_credentials = "microsoft:api_key" ∷ [];
  retired_credentials = [];
  needs_cleanup_timer = false;
}

plan_is_first_plan : plan service (λ provider role. "1") "i" intent world ≡ done first_plan
unfolding plan json_adapter open_transcribe_mcp.Tests.Clients.no_letters
    open_transcribe_mcp.Tests.Clients.only_letter open_transcribe_mcp.Base.Json.get_field
    open_transcribe_mcp.Base.Dict.lookup open_transcribe_mcp.Base.Dict.insert
    open_transcribe_mcp.Base.Dict.has_key
plan_is_first_plan = refl

abbrev all_done : ApplyOutcome
all_done = record {
  config_saved = true;
  credentials_written = "microsoft:api_key" ∷ [];
  engine = some answering;
  registered = true;
  readback = some (registered_entry registration);
  restart_required = true;
  failure = none;
  repair_needed = [];
}

abbrev after : World (ConfigFile Json)
after = (apply service first_plan intent world).0

apply_completes : apply service first_plan intent world ≡ (after, done all_done)
unfolding apply open_transcribe_mcp.Base.Dict.lookup json_adapter
    open_transcribe_mcp.Tests.Clients.no_letters open_transcribe_mcp.Tests.Clients.only_letter
    open_transcribe_mcp.Base.Json.get_field open_transcribe_mcp.Base.Json.set_field
    open_transcribe_mcp.Desktop.Clients.parse_argv
apply_completes = refl

all_done_is_complete : complete all_done ≡ true
unfolding complete
all_done_is_complete = refl

apply-IsGuarded_example : (after.client ≡ world.client) ⊎ IsReady service first_plan after
apply-IsGuarded_example =
    apply-IsGuarded service first_plan intent world after (done all_done) apply_completes

apply-IsComplete_example :
    IsReady service first_plan after
    × IsTold service first_plan world.client intent.adapter first_plan.registration_plan
        first_plan.registration all_done after
apply-IsComplete_example =
    apply-IsComplete service first_plan intent world after all_done apply_completes
      all_done_is_complete

abbrev not_written : ApplyOutcome
not_written = record {
  config_saved = false;
  credentials_written = "microsoft:api_key" ∷ [];
  engine = none;
  registered = false;
  readback = none;
  restart_required = false;
  failure = some (record {
    code = config_invalid;
    message = "The saved setup could not be written.";
    recovery = none;
  });
  repair_needed = [];
}

abbrev undone : World (ConfigFile Json)
undone = (apply full_disk first_plan intent world).0

apply_fails : apply full_disk first_plan intent world ≡ (undone, done not_written)
unfolding apply open_transcribe_mcp.Base.Dict.lookup
apply_fails = refl

only_new_ref : All (λ ref. ref_eq ref old_ref ≡ false) (targets first_plan.config intent.providers)
unfolding targets open_transcribe_mcp.Base.Dict.lookup ref_eq
only_new_ref = (refl, tt)

-- A save that fails after the file was replaced.
abbrev no_flush : SetupService
no_flush = service_with (λ c. unsynced)

half_saved : (apply no_flush first_plan intent world).1 ≡ done not_written
unfolding apply open_transcribe_mcp.Base.Dict.lookup
half_saved = refl

half_saved_config : (apply no_flush first_plan intent world).0.config ≡ done first_plan.config
unfolding apply open_transcribe_mcp.Base.Dict.lookup
half_saved_config = refl

apply-rolled_back_example :
    ((undone.config ≡ world.config)
      ⊎ ((full_disk.save_config first_plan.config ≡ unsynced)
          × (undone.config ≡ done first_plan.config)))
    × (get_password old_ref undone.keyring ≡ get_password old_ref world.keyring)
apply-rolled_back_example =
    apply-rolled_back full_disk first_plan intent world undone old_ref not_written refl only_new_ref
      apply_fails refl
