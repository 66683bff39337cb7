-- ===== src/Tests/Runtimes.antt =====
-- The engine of the first setup, with a key for Microsoft; and the erasure of that setup.
use open_transcribe_mcp.Base.{if◌then◌else◌, ◌≡◌, refl, true, false, none, some, List, [], ◌∷◌, All}
use open_transcribe_mcp.Base.Json.{Json}
use open_transcribe_mcp.Base.Text.{contains}
use open_transcribe_mcp.Base.Dict.{values, insert, lookup}
use open_transcribe_mcp.Base.Float.{of_int, one}
use open_transcribe_mcp.Policy.{permits_provider, require_provider}
use open_transcribe_mcp.Routing.Order.{order, key_lt, sort_key}
use open_transcribe_mcp.Domain.Audio.{provider_value}
use open_transcribe_mcp.Domain.Errors.{Result, ok, err}
use open_transcribe_mcp.Domain.Capabilities.{key}
use open_transcribe_mcp.Providers.Catalog.{
  microsoft_configured, elevenlabs_configured, groq_configured,
}
use open_transcribe_mcp.Providers.Registry.{list_models, from_settings, get_model}
use open_transcribe_mcp.Routing.Candidate.{
  RouteCandidate, candidate, missing_capabilities, has_mode,
}
use open_transcribe_mcp.Routing.Route.{Router, route, select_explicit}
use open_transcribe_mcp.Desktop.Errors.{done}
use open_transcribe_mcp.Desktop.Schema.{enabled_providers}
use open_transcribe_mcp.Desktop.Credentials.{KeyringFaults, unreachable}
use open_transcribe_mcp.Desktop.Clients.JsonStore.{ConfigFile}
use open_transcribe_mcp.Desktop.Setup.{
  World, SetupService, ApplyOutcome, no_outcome, current_config,
}
use open_transcribe_mcp.Desktop.Setup.Lifecycle.{erase, erased, disconnect}
use open_transcribe_mcp.Desktop.Setup.Disconnected.{disconnect-Disconnected}
use open_transcribe_mcp.Desktop.Setup.Clearing.{Cleared, references}
use open_transcribe_mcp.Desktop.Setup.Erased.{erase-Cleared}
use open_transcribe_mcp.Desktop.Runtime.{
  Surroundings, Section, ManagedRuntime, opened, settings_of, policy_of, runtime_from_config,
}
use open_transcribe_mcp.Desktop.Runtime.Enabled.{IsDenied, runtime-IsDenied, route-IsEnabled}
use open_transcribe_mcp.Tests.Installation.{prices, busy, rounded, cheap_request}
use open_transcribe_mcp.Tests.Setups.{service, managed_config, new_ref, world}

abbrev no_faults : KeyringFaults
no_faults = record { on_get = λ ref. none; on_put = λ ref. none; on_delete = λ ref. none }

abbrev around : Surroundings
around = record {
  keyring = opened no_faults ((new_ref, "m-key") ∷ []);
  urlsplit = λ url. record {
    scheme = "https";
    has_userinfo = false;
    host = "speech.example";
    under_localhost = false;
    address = none;
  };
  http_url =
      λ text. record { text = text; scheme = "https"; path = none; query = none; fragment = none };
  prepare = none;
}

abbrev microsoft_section : Section
microsoft_section = record {
  endpoint = some "https://speech.example";
  api_version = none;
  zero_retention = none;
  roles = ("api_key", "m-key") ∷ [];
}

abbrev runtime : ManagedRuntime
runtime = record {
  config = managed_config;
  settings = settings_of around.http_url managed_config (("microsoft", microsoft_section) ∷ []);
  policy = policy_of managed_config;
  temporary_audio = none;
  unresolved_credentials = [];
  credential_error = none;
}

builds_runtime : runtime_from_config around managed_config ≡ done runtime
unfolding runtime_from_config insert lookup
builds_runtime = refl

groq_is_off : contains "groq" (enabled_providers managed_config) ≡ false
unfolding enabled_providers contains
groq_is_off = refl

runtime-IsDenied_example : IsDenied "groq" runtime
runtime-IsDenied_example =
    runtime-IsDenied around managed_config runtime "groq" builds_runtime groq_is_off

abbrev desktop_router : Router
desktop_router = record {
  registry = from_settings 0 rounded busy busy busy prices runtime.settings;
  settings = runtime.settings;
  policy = runtime.policy;
  policies = [];
}

abbrev candidates_in : Result (List RouteCandidate) → List RouteCandidate
candidates_in (ok cs) = cs
candidates_in (err e) = []

abbrev candidates : List RouteCandidate
candidates = candidates_in (route desktop_router cheap_request)

cheap_routed : route desktop_router cheap_request ≡ ok candidates
unfolding route list_models values from_settings insert key microsoft_configured
    elevenlabs_configured groq_configured permits_provider missing_capabilities has_mode of_int one
    order key_lt sort_key candidate lookup select_explicit require_provider provider_value get_model
    settings_of policy_of
cheap_routed = refl

route-IsEnabled_example :
    All (λ x. contains x.model.provider (enabled_providers managed_config) ≡ true) candidates
route-IsEnabled_example =
    route-IsEnabled 0 rounded busy busy busy prices [] around managed_config runtime cheap_request
      candidates builds_runtime cheap_routed

-- The keyring refuses to delete.
abbrev stuck : SetupService
stuck = record service {
  faults = record {
    on_get = λ ref. none;
    on_put = λ ref. none;
    on_delete = λ ref. some unreachable;
  };
}

abbrev set_up : World (ConfigFile Json)
set_up = record world { config = done managed_config; keyring = (new_ref, "m-key") ∷ [] }

abbrev left : World (ConfigFile Json)
left = (erase stuck (some true) set_up).0

abbrev key_left : ApplyOutcome
key_left = erased ("credential:i:microsoft:api_key:1" ∷ [])

erase_leaves_key : erase stuck (some true) set_up ≡ (left, done key_left)
unfolding erase
erase_leaves_key = refl

erase-Cleared_example :
    (current_config left ≡ done none)
    × All (Cleared left key_left.repair_needed) (references managed_config.providers)
erase-Cleared_example =
    erase-Cleared stuck (some true) managed_config key_left set_up left refl erase_leaves_key

abbrev cut_off : World (ConfigFile Json)
cut_off = (disconnect stuck none set_up).0

abbrev disconnected : ApplyOutcome
disconnected = record no_outcome { config_saved = true; restart_required = true }

disconnects : disconnect stuck none set_up ≡ (cut_off, done disconnected)
unfolding disconnect
disconnects = refl

disconnect-Disconnected_example :
    (cut_off.keyring ≡ set_up.keyring)
    × (cut_off.config ≡ (
        if disconnected.config_saved
        then done (record managed_config { client = none })
        else done managed_config))
disconnect-Disconnected_example =
    disconnect-Disconnected stuck none managed_config disconnected set_up cut_off refl disconnects
