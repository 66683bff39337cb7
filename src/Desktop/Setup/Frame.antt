-- ===== src/Desktop/Setup/Frame.antt =====
-- What the phases of the setup keep: a property of the world that writing, deleting and saving keep.
use open_transcribe_mcp.Base.{◌≡◌, refl, String, List, [], ◌∷◌, All}
use open_transcribe_mcp.Desktop.Errors.{Try, done, raised}
use open_transcribe_mcp.Desktop.Schema.{CredentialRef}
use open_transcribe_mcp.Desktop.Credentials.{put, delete}
use open_transcribe_mcp.Desktop.Setup.{
  ApplyOutcome, World, SetupService, SaveEnd, saved, refused, unsynced,
}
use open_transcribe_mcp.Desktop.Setup.Progress.{
  Session, Progress, ◌>>>◌, Ends, Ends-onward, Ends-map,
}
use open_transcribe_mcp.Desktop.Setup.Steps.{
  attempt, with_keyring, save_journal, put_credential, delete_credential, saved_as,
}
use open_transcribe_mcp.Desktop.Setup.Phases.{Written}

-- Only the journal's file is another.
pub record IsSaved {S : Type 0} (w w' : World S) : Type 0 where
  pub config : w'.config ≡ w.config
  pub keyring : w'.keyring ≡ w.keyring
  pub client : w'.client ≡ w.client
  pub saves : w.journal_saves ≡ [] → w'.journal_saves ≡ []

module _ {S : Type 0} (service : SetupService) where
  saved_as-IsSaved :
      (s : Session S) (saves : List SaveEnd)
      → s.world.journal_saves ≡ saves
      → Ends
          (λ u s'. IsSaved s.world s'.world)
          (λ o s'. ⊥)
          (λ f s'. IsSaved s.world s'.world)
          (saved_as service s saves).0
          (saved_as service s saves).1
  unfolding Ends saved_as
  saved_as-IsSaved s [] e = record { config = refl; keyring = refl; client = refl; saves = λ h. h }
  saved_as-IsSaved s (saved ∷ saves) e = record {
    config = refl;
    keyring = refl;
    client = refl;
    saves = λ h. cc;
  }
  saved_as-IsSaved s (refused f ∷ saves) e = record {
    config = refl;
    keyring = refl;
    client = refl;
    saves = λ h. cc;
  }
  saved_as-IsSaved s (unsynced ∷ saves) e = record {
    config = refl;
    keyring = refl;
    client = refl;
    saves = λ h. cc;
  }

  pub save_journal-IsSaved :
      (s : Session S)
      → Ends
          (λ u s'. IsSaved s.world s'.world)
          (λ o s'. ⊥)
          (λ f s'. IsSaved s.world s'.world)
          (save_journal service s).0
          (save_journal service s).1
  unfolding save_journal
  save_journal-IsSaved s = saved_as-IsSaved s s.world.journal_saves refl

module _ {S : Type 0} (service : SetupService) (Allowed : CredentialRef → Type 0)
    (X : World S → Type 0) (kept_saved : (w w' : World S) → IsSaved w w' → X w → X w')
    (kept_put : (w : World S) (ref : CredentialRef) (secret : String)
      → Allowed ref
      → X w
      → X (record w { keyring = (put service.faults ref secret w.keyring).0 }))
    (kept_delete : (w : World S) (ref : CredentialRef)
      → Allowed ref
      → X w
      → X (record w { keyring = (delete service.faults ref w.keyring).0 })) where
  -- `X` holds at every end of the step, `P` where it goes on and `Q` where it returns.
  abbrev pub Keeps :
      {A : Type 0} → (A → Type 0) → (ApplyOutcome → Type 0) → Session S × Progress A → Type 0
  Keeps P Q q = Ends (λ a s. P a × X s.world) (λ o s. Q o × X s.world) (λ f s. X s.world) q.0 q.1

  abbrev pub AllAllowed : Written → Type 0
  AllAllowed written = All (λ x. Allowed x.1) written

  abbrev pub Any : {A : Type 0} → A → Type 0
  Any a = Unit {0}

  abbrev pub Never : ApplyOutcome → Type 0
  Never o = ⊥

  pub save_journal-Keeps : (s : Session S) → X s.world → Keeps Any Never (save_journal service s)
  save_journal-Keeps s x =
      Ends-map _ _ _ _ _ _ (save_journal service s).0 (save_journal service s).1
        (save_journal-IsSaved service s) (λ u s' h. (tt, kept_saved s.world s'.world h x))
        (λ o s' h. absurd h) (λ f s' h. kept_saved s.world s'.world h x)

  pub attempt-Keeps :
      {A : Type 0} (s : Session S) (a : Try A) → X s.world → Keeps Any Never (attempt s a)
  unfolding attempt Ends
  attempt-Keeps s (done a) x = (tt, x)
  attempt-Keeps s (raised f) x = x

  pub put_credential-Keeps :
      (ref : CredentialRef) (secret : String) (s : Session S)
      → Allowed ref
      → X s.world
      → Keeps Any Never (put_credential service ref secret s)
  unfolding put_credential with_keyring
  put_credential-Keeps ref secret s a x = attempt-Keeps _ _ (kept_put s.world ref secret a x)

  pub delete_credential-keeps :
      (ref : CredentialRef) (s : Session S)
      → Allowed ref
      → X s.world
      → X (delete_credential service ref s).0.world
  unfolding delete_credential with_keyring
  delete_credential-keeps ref s a x = kept_delete s.world ref a x

  pub Keeps-onward :
      {A B : Type 0} (P : A → Type 0) (P' : B → Type 0) (Q Q' : ApplyOutcome → Type 0)
      (q : Session S × Progress A) (next : A → Session S → Session S × Progress B)
      → Keeps P Q q
      → ((o : ApplyOutcome) → Q o → Q' o)
      → ((a : A) (s : Session S) → P a → X s.world → Keeps P' Q' (next a s))
      → Keeps P' Q' (q >>> next)
  Keeps-onward P P' Q Q' q next h weaken step =
      Ends-onward _ _ (λ a s. P a × X s.world) _ q.0 q.1 next
        (Ends-map _ _ _ _ _ _ q.0 q.1 h (λ a s x. x) (λ o s x. (weaken o x.0, x.1)) (λ f s x. x))
        (λ a s x. step a s x.0 x.1)

  -- The journal is saved and the step goes on.
  pub after_save-Keeps :
      {B : Type 0} (P' : B → Type 0) (Q' : ApplyOutcome → Type 0) (s : Session S)
      (next : Unit {0} → Session S → Session S × Progress B)
      → X s.world
      → ((s' : Session S) → X s'.world → Keeps P' Q' (next tt s'))
      → Keeps P' Q' (save_journal service s >>> next)
  after_save-Keeps P' Q' s next x step =
      Keeps-onward Any P' Never Q' (save_journal service s) next (save_journal-Keeps s x)
        (λ o h. absurd h) (λ u s' p x'. step s' x')
