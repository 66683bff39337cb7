-- ===== src/Desktop/Setup/Lifecycle.antt =====
-- desktop/setup.py: `disconnect` and `erase`. That the configuration's file cannot be removed is left
-- out; the temporary audio is by whether its purge was complete.
use open_transcribe_mcp.Base.{
  String, Bool, true, false, Option, none, some, List, [], ◌∷◌, ◌++◌, if◌then◌else◌,
}
use open_transcribe_mcp.Base.Text.{◌+s◌}
use open_transcribe_mcp.Base.Dict.{Dict}
use open_transcribe_mcp.Base.Sequences.{is_nonempty}
use open_transcribe_mcp.Desktop.Errors.{
  Try, done, raised, Failure, desktop, error_value, config_missing,
}
use open_transcribe_mcp.Desktop.Schema.{
  CredentialRef, ManagedProvider, ManagedConfig, ManagedClient,
}
use open_transcribe_mcp.Desktop.CleanupTimer
use open_transcribe_mcp.Desktop.CleanupTimer.{CleanupTimer, timer_name, Units}
use open_transcribe_mcp.Desktop.Journal.{
  intended, applied, failed, config, credential, client_registration, cleanup_timer, owns,
  load_journal,
}
use open_transcribe_mcp.Desktop.Clients.{ClientAdapter}
use open_transcribe_mcp.Desktop.Setup.{
  ApplyOutcome, no_outcome, World, SetupService, current_config,
}
use open_transcribe_mcp.Desktop.Setup.Progress.{
  Session, Progress, go, returned, escaped, onward, ◌>>>◌,
}
use open_transcribe_mcp.Desktop.Setup.Steps.{
  noted, disowned, save_journal, delete_credential, with_units, with_client,
}
use open_transcribe_mcp.Desktop.Setup.Phases.{saved_config}
use open_transcribe_mcp.Desktop.Setup.Apply.{with_journal}

unfoldable pub purged : Option Bool → List String
purged none = []
purged (some complete) = if complete then [] else "temporary_audio" ∷ []

abbrev pub erased : List String → ApplyOutcome
erased pending = record no_outcome { config_saved = true; repair_needed = pending }

module _ {S : Type 0} (service : SetupService) where
  -- What is locked: nothing without a configuration, and the journal's owner is the configuration.
  unfoldable pub locked_with :
      Option Failure
      → World S
      → Try (Option ManagedConfig)
      → (ManagedConfig → Session S → Session S × Progress ApplyOutcome)
      → World S × Try ApplyOutcome
  unfolding with_journal load_journal
  locked_with lock w (raised f) run = (w, raised f)
  locked_with lock w (done none) run = (w, done no_outcome)
  locked_with (some f) w (done (some c)) run = (w, raised f)
  locked_with none w (done (some c)) run =
      with_journal service w (load_journal w.journal_file c.installation_id) (run c)

  unfoldable pub removal : String → S × Try Bool → Session S → Session S × Progress Bool
  unfolding noted disowned save_journal with_client onward error_value
  removal identifier (client, raised (desktop e)) s =
      save_journal service (
        noted service "disconnect" failed (some (error_value e.code))
          (with_client service client s))
      >>> λ u s'.
          (s', returned (record no_outcome { failure = some e; repair_needed = "client" ∷ [] }))
  removal identifier (client, raised f) s = (with_client service client s, escaped f)
  removal identifier (client, done true) s =
      (disowned service client_registration identifier (with_client service client s), go true)
  removal identifier (client, done false) s = (with_client service client s, go false)

  unfoldable pub removed_if :
      Bool → ClientAdapter S → String → String → Session S → Session S × Progress Bool
  unfolding removal
  removed_if false adapter server_name identifier s = (s, go true)
  removed_if true adapter server_name identifier s =
      removal identifier (adapter.remove server_name s.world.client) s

  unfoldable pub client_removed :
      Option ManagedClient → Option (ClientAdapter S) → Session S → Session S × Progress Bool
  unfolding removed_if owns
  client_removed none adapter s = (s, go true)
  client_removed (some client) none s = (s, go true)
  client_removed (some client) (some adapter) s =
      let identifier = adapter.adapter_id +s ":" +s client.server_name in
      removed_if (owns client_registration identifier s.journal) adapter client.server_name
        identifier s

  unfoldable pub disconnect_locked :
      Option (ClientAdapter S) → ManagedConfig → Session S → Session S × Progress ApplyOutcome
  unfolding noted client_removed saved_config save_journal onward
  disconnect_locked adapter c s =
      client_removed c.client adapter (noted service "disconnect" intended none s)
      >>> (λ removed s'.
          let updated = record c { client = none } in
          saved_config service updated (service.save_config updated) s' >>> (λ u s''.
            save_journal service
              (noted service "disconnect" (if removed then applied else failed) none s'')
            >>> (λ v s3. (
              s3,
              go (record no_outcome {
                config_saved = true;
                registered = false;
                restart_required = true;
              }),
            ))))

  unfoldable pub disconnect : Option (ClientAdapter S) → World S → World S × Try ApplyOutcome
  unfolding locked_with current_config disconnect_locked
  disconnect adapter w = locked_with service.lock w (current_config w) (disconnect_locked adapter)

  unfoldable pub timer_erased : Units × Bool → Session S → Session S × List String
  unfolding with_units disowned
  timer_erased (units, true) s =
      (disowned service cleanup_timer timer_name (with_units service units s), [])
  timer_erased (units, false) s = (with_units service units s, "cleanup_timer" ∷ [])

  unfoldable pub timer_erased_if : Bool → CleanupTimer → Session S → Session S × List String
  unfolding timer_erased CleanupTimer.remove
  timer_erased_if false t s = (s, [])
  timer_erased_if true t s = timer_erased (CleanupTimer.remove t s.world.units) s

  unfoldable pub erase_timer : Option CleanupTimer → Session S → Session S × List String
  unfolding timer_erased_if owns
  erase_timer none s = (s, [])
  erase_timer (some t) s = timer_erased_if (owns cleanup_timer timer_name s.journal) t s

  unfoldable pub erased_one : CredentialRef → Try Bool → Session S → Session S × List String
  unfolding disowned
  erased_one ref (raised f) s = (s, ("credential:" +s ref.account) ∷ [])
  erased_one ref (done b) s = (disowned service credential ref.account s, [])

  -- What is added to `pending` is the second part.
  unfoldable pub erase_credentials : Dict CredentialRef → Session S → Session S × List String
  unfolding erased_one delete_credential
  erase_credentials [] s = (s, [])
  erase_credentials ((role, ref) ∷ refs) s =
      let q = delete_credential service ref s in
      let e = erased_one ref q.1 q.0 in
      let rest = erase_credentials refs e.0 in (rest.0, e.1 ++ rest.1)

  unfoldable pub erase_providers : Dict ManagedProvider → Session S → Session S × List String
  unfolding erase_credentials
  erase_providers [] s = (s, [])
  erase_providers ((name, provider) ∷ providers) s =
      let e = erase_credentials provider.credentials s in
      let rest = erase_providers providers e.0 in (rest.0, e.1 ++ rest.1)

  -- self.paths.config_file.unlink(missing_ok=True)
  unfoldable pub without_config : Session S → Session S
  without_config s =
      let w = s.world in
      record s {
        world = record w {
          config = raised (
              desktop (record {
                code = config_missing;
                message = "The saved setup is missing.";
                recovery = none;
              }));
        };
      }

  unfoldable pub erase_locked :
      Option Bool → ManagedConfig → Session S → Session S × Progress ApplyOutcome
  unfolding noted disowned erase_timer erase_providers without_config purged save_journal
      is_nonempty onward
  erase_locked temporary_audio c s =
      let t = erase_timer service.cleanup_timer (noted service "erase" intended none s) in
      let k = erase_providers c.providers t.0 in
      let pending = purged temporary_audio ++ (t.1 ++ k.1) in
      save_journal service (
        noted service "erase" (if is_nonempty pending then failed else applied) none
          (disowned service config service.config_file (without_config k.0)))
      >>> λ u s'. (s', go (erased pending))

  unfoldable pub erase : Option Bool → World S → World S × Try ApplyOutcome
  unfolding locked_with current_config erase_locked
  erase temporary_audio w =
      locked_with service.lock w (current_config w) (erase_locked temporary_audio)
