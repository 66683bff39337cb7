-- ===== src/Desktop/Setup/Apply.antt =====
-- desktop/setup.py: `apply`, from the locked state to the outcome.
use open_transcribe_mcp.Base.{
  String, Bool, true, false, ◌&&◌, Option, none, some, [], ◌∷◌, if◌then◌else◌,
}
use open_transcribe_mcp.Base.Text.{◌+s◌}
use open_transcribe_mcp.Desktop.Errors.{
  Try, done, raised, Failure, desktop, DesktopError, error_value, engine_handshake_failed,
}
use open_transcribe_mcp.Desktop.CleanupTimer
use open_transcribe_mcp.Desktop.CleanupTimer.{CleanupTimer, timer_name, Units}
use open_transcribe_mcp.Desktop.Journal.{
  InstallJournal, intended, applied, failed, client_registration, cleanup_timer, owns, load_journal,
}
use open_transcribe_mcp.Desktop.Clients.{
  ServerRegistration, ExistingEntry, RegistrationPlan, ClientAdapter, fingerprint,
}
use open_transcribe_mcp.Desktop.Setup.{
  SetupIntent, SetupPlan, EngineProbeResult, ApplyOutcome, no_outcome, World, SetupService,
}
use open_transcribe_mcp.Desktop.Setup.Steps.{
  attempt, noted, owned, disowned, save_journal, with_units, with_client,
}
use open_transcribe_mcp.Desktop.Setup.Progress.{
  Session, Progress, go, returned, escaped, onward, ◌>>>◌,
}
use open_transcribe_mcp.Desktop.Setup.Phases.{
  Written, labels, credentials_phase, config_phase, retire,
}

unfoldable pub readback_code : Option ExistingEntry → Option String
readback_code none = some "client.readback_unavailable"
readback_code (some entry) = none

unfoldable pub answer : Progress ApplyOutcome → Try ApplyOutcome
answer (go o) = done o
answer (returned o) = done o
answer (escaped f) = raised f

abbrev pub committed : Written → ApplyOutcome
committed written = record no_outcome { config_saved = true; credentials_written = labels written }

module _ {S : Type 0} (service : SetupService) where
  unfoldable pub timer_installed :
      SetupPlan → Units × Try (Unit {0}) → Session S → Session S × Progress (Option DesktopError)
  unfolding noted owned save_journal onward error_value
  timer_installed p (units, raised (desktop e)) s =
      save_journal service (
        noted service "cleanup_timer" failed (some (error_value e.code))
          (with_units service units s))
      >>> λ u s'. (s', go (some e))
  timer_installed p (units, raised f) s = (with_units service units s, escaped f)
  timer_installed p (units, done u) s =
      save_journal service (
        noted service "cleanup_timer" applied none
          (owned service cleanup_timer timer_name none (with_units service units s)))
      >>> λ u s'. (s', go none)

  unfoldable pub timer_removed :
      Units × Bool → Session S → Session S × Progress (Option DesktopError)
  unfolding noted disowned save_journal onward
  timer_removed (units, removed) s =
      save_journal service (
        if removed
        then noted service "cleanup_timer" applied (some "removed")
            (disowned service cleanup_timer timer_name (with_units service units s))
        else noted service "cleanup_timer" failed (some "remove") (with_units service units s))
      >>> λ u s'. (s', go none)

  unfoldable pub reconcile :
      SetupPlan → CleanupTimer → Session S → Session S × Progress (Option DesktopError)
  unfolding timer_installed timer_removed noted owns CleanupTimer.install CleanupTimer.remove
      CleanupTimer.installed
  reconcile p t s =
      let is_owned = owns cleanup_timer timer_name s.journal in
      if p.needs_cleanup_timer
      then if is_owned && CleanupTimer.installed s.world.units
        then (s, go none)
        else timer_installed p (CleanupTimer.install t s.world.units)
            (noted service "cleanup_timer" intended none s)
      else if is_owned
      then timer_removed (CleanupTimer.remove t s.world.units)
          (noted service "cleanup_timer" intended (some "remove") s)
      else (s, go none)

  unfoldable pub reconcile_with :
      SetupPlan → Option CleanupTimer → Session S → Session S × Progress (Option DesktopError)
  unfolding reconcile
  reconcile_with p none s = (s, go none)
  reconcile_with p (some t) s = reconcile p t s

  -- `_reconcile_cleanup_timer`
  unfoldable pub reconcile_cleanup_timer :
      SetupPlan → Session S → Session S × Progress (Option DesktopError)
  unfolding reconcile_with
  reconcile_cleanup_timer p s = reconcile_with p service.cleanup_timer s

  unfoldable pub registered :
      ClientAdapter S
      → ServerRegistration
      → ApplyOutcome
      → Option ExistingEntry
      → Session S
      → Session S × Progress ApplyOutcome
  unfolding noted owned save_journal onward readback_code fingerprint
  registered adapter r o entry s =
      save_journal service (
        noted service "client" applied (readback_code entry) (
          owned service client_registration (adapter.adapter_id +s ":" +s r.name)
            (some (fingerprint service.digest r)) s))
      >>> λ u s'. (
        s',
        go (record o {
          registered = true;
          readback = entry;
          restart_required = adapter.restart_required;
        }),
      )

  unfoldable pub client_applied :
      ClientAdapter S
      → ServerRegistration
      → ApplyOutcome
      → S × Try (Unit {0})
      → Session S
      → Session S × Progress ApplyOutcome
  unfolding noted save_journal onward registered error_value with_client attempt
  client_applied adapter r o (client, raised (desktop e)) s =
      save_journal service
        (noted service "client" failed (some (error_value e.code)) (with_client service client s))
      >>> λ u s'. (s', returned (record o { failure = some e; repair_needed = "client" ∷ [] }))
  client_applied adapter r o (client, raised f) s = (with_client service client s, escaped f)
  client_applied adapter r o (client, done u) s =
      attempt (with_client service client s) (adapter.readback r.name client) >>> λ entry s'.
      registered adapter r o entry s'

  -- `_register`, where there are an adapter, a plan and a registration
  unfoldable pub register :
      Option (ClientAdapter S)
      → Option RegistrationPlan
      → Option ServerRegistration
      → ApplyOutcome
      → Session S
      → Session S × Progress ApplyOutcome
  unfolding noted client_applied
  register none registration_plan r o s = (s, go o)
  register (some adapter) none r o s = (s, go o)
  register (some adapter) (some registration_plan) none o s = (s, go o)
  register (some adapter) (some registration_plan) (some r) o s =
      client_applied adapter r o (adapter.apply registration_plan s.world.client)
        (noted service "client" intended none s)

  unfoldable pub verdict :
      EngineProbeResult → Bool → ApplyOutcome → Session S → Session S × Progress ApplyOutcome
  verdict engine true o s = (s, go (record o { engine = some engine }))
  verdict engine false o s = (
    s,
    returned (record o {
      engine = some engine;
      failure = some (record {
        code = engine_handshake_failed;
        message = "The packaged engine did not answer with the expected tools.";
        recovery = some "Run Repair connection, or reinstall the package.";
      });
      repair_needed = "engine" ∷ [];
    }),
  )

  unfoldable pub probed :
      EngineProbeResult → ApplyOutcome → Session S → Session S × Progress ApplyOutcome
  unfolding noted save_journal onward verdict
  probed engine o s =
      save_journal service
        (noted service "engine" (if engine.ok then applied else failed) (some engine.reason) s)
      >>> λ u s'. verdict engine engine.ok o s'

  -- The probe is of the configuration in its file and the keyring as it is.
  unfoldable pub engine_phase : ApplyOutcome → Session S → Session S × Progress ApplyOutcome
  unfolding noted probed
  engine_phase o s =
      probed (service.probe_engine s.world.config s.world.keyring) o
        (noted service "engine" intended none s)

  unfoldable pub timer_reconciled :
      Option DesktopError → ApplyOutcome → Session S → Session S × Progress ApplyOutcome
  timer_reconciled none o s = (s, go o)
  timer_reconciled (some e) o s =
      (s, returned (record o { failure = some e; repair_needed = "cleanup_timer" ∷ [] }))

  -- From the retirement of the keys that are replaced to the probe of the engine.
  unfoldable pub verify : SetupPlan → Written → Session S → Session S × Progress ApplyOutcome
  unfolding retire reconcile_cleanup_timer timer_reconciled engine_phase onward
  verify p written s =
      retire service p.retired_credentials s
      >>> (λ u s'. reconcile_cleanup_timer p s')
      >>> (λ failure s'. timer_reconciled failure (committed written) s')
      >>> (λ o s'. engine_phase o s')

  unfoldable pub after_commit :
      SetupPlan → SetupIntent S → Written → Session S → Session S × Progress ApplyOutcome
  unfolding verify register onward
  after_commit p intent written s =
      verify p written s
      >>> (λ o s'. register intent.adapter p.registration_plan p.registration o s')

  -- `_apply_locked`
  unfoldable pub apply_locked :
      SetupPlan → SetupIntent S → Session S → Session S × Progress ApplyOutcome
  unfolding credentials_phase config_phase after_commit onward
  apply_locked p intent s = credentials_phase service p intent s >>> (λ written s'.
      config_phase service p written s' >>> λ u s''. after_commit p intent written s'')

  unfoldable pub with_journal :
      World S
      → Try InstallJournal
      → (Session S → Session S × Progress ApplyOutcome)
      → World S × Try ApplyOutcome
  unfolding answer
  with_journal w (raised f) run = (w, raised f)
  with_journal w (done j) run =
      let q = run (record { world = w; journal = j }) in (q.0.world, answer q.1)

  -- The journal is of this version of the application from here on.
  unfoldable pub versioned : Session S → Session S
  versioned s =
      let j = s.journal in
      record s { journal = record j { application_version = service.application_version } }

  unfoldable pub apply_under :
      Option Failure → SetupPlan → SetupIntent S → World S → World S × Try ApplyOutcome
  unfolding with_journal apply_locked load_journal versioned
  apply_under (some f) p intent w = (w, raised f)
  apply_under none p intent w =
      with_journal w (load_journal w.journal_file p.config.installation_id)
        (λ s. apply_locked p intent (versioned s))

  unfoldable pub apply : SetupPlan → SetupIntent S → World S → World S × Try ApplyOutcome
  unfolding apply_under
  apply p intent w = apply_under service.lock p intent w
