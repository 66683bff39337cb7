-- ===== src/Desktop/Setup/Saving.antt =====
-- What the setup keeps of the client until its configuration is saved.
use open_transcribe_mcp.Base.{◌≡◌, refl, ◌∙◌, true, false, none, List, [], ◌∷◌, All}
use open_transcribe_mcp.Desktop.Errors.{done, Failure}
use open_transcribe_mcp.Desktop.Schema.{CredentialRef}
use open_transcribe_mcp.Desktop.Journal.{intended}
use open_transcribe_mcp.Desktop.Setup.{
  SetupIntent, SetupPlan, ApplyOutcome, World, SetupService, is_ok, SaveEnd, saved, refused,
  unsynced,
}
use open_transcribe_mcp.Desktop.Setup.Progress.{Session, Ends, Ends-onward, Ends-map, Ends-except}
use open_transcribe_mcp.Desktop.Setup.Steps.{noted, owned}
use open_transcribe_mcp.Desktop.Setup.Phases.{
  Written, saved_config, config_phase, credentials_phase, fail_config,
}
use open_transcribe_mcp.Desktop.Setup.Frame.{IsSaved, save_journal-IsSaved}
use open_transcribe_mcp.Desktop.Setup.Writing.{targets, credentials_phase-Keeps, fail_config-Keeps}

-- Every reference may be written and deleted.
unfoldable pub Everything : CredentialRef → Type 0
Everything ref = Unit {0}

pub all-Everything : (refs : List CredentialRef) → All Everything refs
unfolding Everything
all-Everything [] = tt
all-Everything (ref ∷ refs) = (tt, all-Everything refs)

pub all_written : (written : Written) → All (λ x. Everything x.1) written
unfolding Everything
all_written [] = tt
all_written (x ∷ written) = (tt, all_written written)

abbrev pub Sound : ApplyOutcome → Type 0
Sound o = (o.config_saved ≡ true) × (is_ok o.engine ≡ true) × (o.failure ≡ none)

-- The plan's configuration is saved, and the engine has answered under it.
pub record IsReady {S : Type 0} (service : SetupService) (p : SetupPlan) (w : World S)
    : Type 0 where
  pub saved : w.config ≡ done p.config
  pub answered : (service.probe_engine w.config w.keyring).ok ≡ true

module _ {S : Type 0} (service : SetupService) (p : SetupPlan) (client : S) where
  -- The client is as it was.
  unfoldable pub Untouched : World S → Type 0
  Untouched w = w.client ≡ client

  -- And the plan's configuration is saved.
  unfoldable pub Committed : World S → Type 0
  Committed w = (w.config ≡ done p.config) × (w.client ≡ client)

  pub Untouched-saved : (w w' : World S) → IsSaved w w' → Untouched w → Untouched w'
  unfolding Untouched
  Untouched-saved w w' h x = h.client ∙ x

  pub Committed-saved : (w w' : World S) → IsSaved w w' → Committed w → Committed w'
  unfolding Committed
  Committed-saved w w' h (c, x) = (h.config ∙ c, h.client ∙ x)

  pub Committed-Untouched : (w : World S) → Committed w → Untouched w
  unfolding Committed Untouched
  Committed-Untouched w c = c.1

  pub IsReady-saved : (w w' : World S) → IsSaved w w' → IsReady service p w → IsReady service p w'
  IsReady-saved w w' h r = record {
    saved = h.config ∙ r.saved;
    answered = rw (h.config, h.keyring) r.answered;
  }

  pub credentials-Untouched :
      (intent : SetupIntent S) (s : Session S)
      → Untouched s.world
      → Ends
          (λ a s'. Untouched s'.world)
          (λ o s'. (o.config_saved ≡ false) × Untouched s'.world)
          (λ f s'. Untouched s'.world)
          (credentials_phase service p intent s).0
          (credentials_phase service p intent s).1
  unfolding Untouched Everything
  credentials-Untouched intent s x =
      Ends-map _ _ _ _ _ _ (credentials_phase service p intent s).0
        (credentials_phase service p intent s).1
        (credentials_phase-Keeps service Everything Untouched Untouched-saved
          (λ w ref secret a h. h) (λ w ref a h. h) p intent s
          (all-Everything (targets p.config intent.providers)) x)
        (λ a s' h. h.1) (λ o s' h. (h.0.0, h.1)) (λ f s' h. h)

  pub saved_config-Committed :
      (end : SaveEnd) (s : Session S)
      → Untouched s.world
      → Ends
          (λ a s'. Committed s'.world)
          (λ o s'. (o.config_saved ≡ false) × Untouched s'.world)
          (λ f s'. Untouched s'.world)
          (saved_config service p.config end s).0
          (saved_config service p.config end s).1
  unfolding saved_config Ends Committed Untouched
  saved_config-Committed saved s x = (refl, x)
  saved_config-Committed (refused f) s x = x
  saved_config-Committed unsynced s x = x

  pub fail_config-Untouched :
      (written : Written) (f : Failure) (s : Session S)
      → Untouched s.world
      → Ends
          (λ a s'. Committed s'.world)
          (λ o s'. (o.config_saved ≡ false) × Untouched s'.world)
          (λ f s'. Untouched s'.world)
          (fail_config service written f s).0
          (fail_config service written f s).1
  unfolding Untouched Everything
  fail_config-Untouched written f s x =
      Ends-map _ _ _ _ _ _ (fail_config service written f s).0 (fail_config service written f s).1
        (fail_config-Keeps service Everything Untouched Untouched-saved (λ w ref secret a h. h)
          (λ w ref a h. h) (λ u. ⊥) written f s (all_written written) x)
        (λ a s' h. absurd h.0) (λ o s' h. (h.0.0, h.1)) (λ f s' h. h)

  pub config-Committed :
      (written : Written) (s : Session S)
      → Untouched s.world
      → Ends
          (λ a s'. Committed s'.world)
          (λ o s'. (o.config_saved ≡ false) × Untouched s'.world)
          (λ f s'. Untouched s'.world)
          (config_phase service p written s).0
          (config_phase service p written s).1
  unfolding config_phase noted owned
  config-Committed written s x =
      Ends-except _ _ (λ a s'. Committed s'.world) (λ f s'. Untouched s'.world) _ _
        (fail_config service written)
        (Ends-onward _ _ (λ a s'. Committed s'.world) _ _ _ _
          (saved_config-Committed (service.save_config p.config)
            (noted service "config" intended none s) x)
          (λ u s' c.
            Ends-map _ _ _ _ _ _ _ _ (save_journal-IsSaved service _)
              (λ u s'' h. Committed-saved s'.world s''.world h c) (λ o s'' h. absurd h)
              (λ f s'' h. Committed-Untouched s''.world (Committed-saved s'.world s''.world h c))))
        (λ f s' x'. fail_config-Untouched written f s' x')
