-- ===== src/Desktop/Setup/Disconnected.antt =====
-- What a disconnection leaves: the keys, and the configuration without its client.
use open_transcribe_mcp.Base.{
  ◌≡◌, refl, ◌∙◌, subst, String, Bool, true, false, Option, none, some, if◌then◌else◌,
}
use open_transcribe_mcp.Desktop.Errors.{Try, done, raised, Failure, desktop, os_error, exception}
use open_transcribe_mcp.Desktop.Schema.{ManagedConfig, ManagedClient}
use open_transcribe_mcp.Desktop.Credentials.{Keyring}
use open_transcribe_mcp.Desktop.Journal.{InstallJournal, load_journal, intended}
use open_transcribe_mcp.Desktop.Clients.{ClientAdapter}
use open_transcribe_mcp.Desktop.Setup.{
  ApplyOutcome, World, SetupService, current_config, config_or_none, SaveEnd, saved, refused,
  unsynced,
}
use open_transcribe_mcp.Desktop.Setup.Progress.{
  Session, Progress, go, returned, escaped, ◌>>>◌, Ends, Ends-onward, Ends-map, Ends-go,
  Ends-returned,
}
use open_transcribe_mcp.Desktop.Setup.Steps.{noted, disowned, save_journal, with_client}
use open_transcribe_mcp.Desktop.Setup.Phases.{saved_config}
use open_transcribe_mcp.Desktop.Setup.Apply.{answer, with_journal}
use open_transcribe_mcp.Desktop.Setup.Frame.{save_journal-IsSaved}
use open_transcribe_mcp.Desktop.Setup.Lifecycle.{
  locked_with, removal, removed_if, client_removed, disconnect_locked, disconnect,
}

abbrev without_client : ManagedConfig → ManagedConfig
without_client c = record c { client = none }

module _ {S : Type 0} (service : SetupService) (c : ManagedConfig) (keyring : Keyring) where
  -- The keys are kept, and the configuration is saved without its client where it is saved.
  abbrev Disconnected : ApplyOutcome → World S → Type 0
  Disconnected o w =
      (w.keyring ≡ keyring)
      × (w.config ≡ (if o.config_saved then done (without_client c) else done c))

  abbrev Before : World S → Type 0
  Before w = (w.keyring ≡ keyring) × (w.config ≡ done c)

  abbrev After : World S → Type 0
  After w = (w.keyring ≡ keyring) × (w.config ≡ done (without_client c))

  abbrev Nothing : Failure → Session S → Type 0
  Nothing f s = Unit {0}

  abbrev Step : {A : Type 0} → Session S × Progress A → Type 0
  Step q = Ends (λ a s. Before s.world) (λ o s. Disconnected o s.world) Nothing q.0 q.1

  refused-Step :
      (s : Session S) (o : ApplyOutcome)
      → o.config_saved ≡ false
      → Before s.world
      → Step {A = Bool} (save_journal service s >>> λ u s'. (s', returned o))
  refused-Step s o unsaved b =
      Ends-onward (λ o' s'. Disconnected o' s'.world) Nothing (λ u s'. Before s'.world)
        (λ a s'. Before s'.world) _ _ _
        (Ends-map _ _ _ _ _ _ _ _ (save_journal-IsSaved service s)
          (λ u s' h. (h.keyring ∙ b.0, h.config ∙ b.1)) (λ o' s' h. absurd h) (λ f s' h. tt))
        (λ u s' b'.
          Ends-returned (λ a s'. Before s'.world) (λ o' s'. Disconnected o' s'.world) Nothing o s'
            (b'.0, b'.1 ∙ rw unsaved refl))

  removal-Step :
      (identifier : String) (q : S × Try Bool) (s : Session S)
      → Before s.world
      → Step (removal service identifier q s)
  unfolding removal noted with_client disowned Ends
  removal-Step identifier (client, raised (desktop e)) s b = refused-Step _ _ refl b
  removal-Step identifier (client, raised os_error) s b = tt
  removal-Step identifier (client, raised (exception name)) s b = tt
  removal-Step identifier (client, done true) s b = b
  removal-Step identifier (client, done false) s b = b

  removed_if-Step :
      (is_owned : Bool) (adapter : ClientAdapter S) (name identifier : String) (s : Session S)
      → Before s.world
      → Step (removed_if service is_owned adapter name identifier s)
  unfolding removed_if Ends
  removed_if-Step false adapter name identifier s b = b
  removed_if-Step true adapter name identifier s b =
      removal-Step identifier (adapter.remove name s.world.client) s b

  client_removed-Step :
      (client : Option ManagedClient) (adapter : Option (ClientAdapter S)) (s : Session S)
      → Before s.world
      → Step (client_removed service client adapter s)
  unfolding client_removed Ends
  client_removed-Step none adapter s b = b
  client_removed-Step (some client) none s b = b
  client_removed-Step (some client) (some adapter) s b =
      removed_if-Step _ adapter client.server_name _ s b

  abbrev Final : Session S × Progress ApplyOutcome → Type 0
  Final q = Ends (λ o s. Disconnected o s.world) (λ o s. Disconnected o s.world) Nothing q.0 q.1

  saved_config-After :
      (end : SaveEnd) (s : Session S)
      → Before s.world
      → Ends
          (λ a s'. After s'.world)
          (λ o s'. Disconnected o s'.world)
          Nothing
          (saved_config service (without_client c) end s).0
          (saved_config service (without_client c) end s).1
  unfolding saved_config Ends
  saved_config-After saved s b = (b.0, refl)
  saved_config-After (refused f) s b = tt
  saved_config-After unsynced s b = tt

  disconnect_locked-Final :
      (adapter : Option (ClientAdapter S)) (s : Session S)
      → Before s.world
      → Final (disconnect_locked service adapter c s)
  unfolding disconnect_locked noted
  disconnect_locked-Final adapter s b =
      Ends-onward (λ o s'. Disconnected o s'.world) Nothing (λ a s'. Before s'.world)
        (λ o s'. Disconnected o s'.world) _ _ _
        (client_removed-Step c.client adapter (noted service "disconnect" intended none s) b)
        (λ removed s' b'.
          Ends-onward (λ o s''. Disconnected o s''.world) Nothing (λ a s''. After s''.world)
            (λ o s''. Disconnected o s''.world) _ _ _
            (saved_config-After (service.save_config (without_client c)) s' b')
            (λ u s'' a.
              Ends-onward (λ o s3. Disconnected o s3.world) Nothing (λ a s3. After s3.world)
                (λ o s3. Disconnected o s3.world) _ _ _
                (Ends-map _ _ _ _ _ _ _ _ (save_journal-IsSaved service _)
                  (λ u s3 h. (h.keyring ∙ a.0, h.config ∙ a.1)) (λ o s3 h. absurd h) (λ f s3 h. tt))
                (λ v s3 a'.
                  Ends-go (λ o s4. Disconnected o s4.world) (λ o s4. Disconnected o s4.world)
                    Nothing _ s3 a')))

  IsDone : Try ApplyOutcome → World S → Type 0
  IsDone (raised f) w = Unit {0}
  IsDone (done o) w = Disconnected o w

  answered-IsDone :
      (s : Session S) (m : Progress ApplyOutcome) → Final (s, m) → IsDone (answer m) s.world
  unfolding answer IsDone Ends
  answered-IsDone s (go o) h = h
  answered-IsDone s (returned o) h = h
  answered-IsDone s (escaped f) h = tt

  with_journal-IsDone :
      (adapter : Option (ClientAdapter S)) (m : Try InstallJournal) (w w' : World S)
      (a : Try ApplyOutcome)
      → Before w
      → with_journal service w m (disconnect_locked service adapter c) ≡ (w', a)
      → IsDone a w'
  unfolding with_journal IsDone
  with_journal-IsDone adapter (raised f) w w' a b e =
      subst (λ (q : World S × Try ApplyOutcome). IsDone q.1 q.0) e tt
  with_journal-IsDone adapter (done j) w w' a b e =
      subst (λ (q : World S × Try ApplyOutcome). IsDone q.1 q.0) e
        (answered-IsDone _ _
          (disconnect_locked-Final adapter (record { world = w; journal = j }) b))

  locked-IsDone :
      (lock : Option Failure) (adapter : Option (ClientAdapter S)) (w w' : World S)
      (a : Try ApplyOutcome)
      → Before w
      → locked_with service lock w (done (some c)) (disconnect_locked service adapter) ≡ (w', a)
      → IsDone a w'
  unfolding locked_with IsDone
  locked-IsDone (some f) adapter w w' a b e =
      subst (λ (q : World S × Try ApplyOutcome). IsDone q.1 q.0) e tt
  locked-IsDone none adapter w w' a b e =
      with_journal-IsDone adapter (load_journal w.journal_file c.installation_id) w w' a b e

-- A disconnection that answers leaves every key as it was, and the configuration without its client
-- where the outcome says that it was saved, or else as it was.
pub disconnect-Disconnected :
    {S : Type 0} (service : SetupService) (adapter : Option (ClientAdapter S)) (c : ManagedConfig)
    (o : ApplyOutcome) (w w' : World S)
    → w.config ≡ done c
    → disconnect service adapter w ≡ (w', done o)
    → (w'.keyring ≡ w.keyring)
      × (w'.config ≡ (if o.config_saved then done (record c { client = none }) else done c))
unfolding disconnect current_config config_or_none IsDone
disconnect-Disconnected service adapter c o w w' there e =
    locked-IsDone service c w.keyring service.lock adapter w w' (done o) (refl, there)
      (subst
        (λ x.
          locked_with service service.lock w (config_or_none x) (disconnect_locked service adapter)
          ≡ (w', done o))
        there e)
