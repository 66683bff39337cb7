-- ===== src/Desktop/Setup/Kept.antt =====
-- What a setup that did not save its configuration leaves as it was.
use open_transcribe_mcp.Base.{
  ◌≡◌, ◌≢◌, refl, ap, sym, ◌∙◌, subst, String, true, false, Option, none, some, List, [], ◌∷◌, All,
  ◌⊎◌, inl, inr,
}
use open_transcribe_mcp.Desktop.Errors.{Try, done, raised, Failure}
use open_transcribe_mcp.Desktop.Schema.{CredentialRef}
use open_transcribe_mcp.Desktop.Credentials.{
  get_password, ref_eq, put, delete, put-keeps, delete-keeps,
}
use open_transcribe_mcp.Desktop.Journal.{intended, load_journal, InstallJournal}
use open_transcribe_mcp.Desktop.Setup.{
  SetupIntent, SetupPlan, ApplyOutcome, World, SetupService, SaveEnd, saved, refused, unsynced,
}
use open_transcribe_mcp.Desktop.Setup.Progress.{
  Session, Progress, go, returned, escaped, Ends, Ends-onward, Ends-map, Ends-except,
}
use open_transcribe_mcp.Desktop.Setup.Steps.{noted, owned, saved_as}
use open_transcribe_mcp.Desktop.Setup.Phases.{Written, saved_config, config_phase, fail_config}
use open_transcribe_mcp.Desktop.Setup.Apply.{
  apply_locked, answer, with_journal, versioned, apply_under, apply,
}
use open_transcribe_mcp.Desktop.Setup.Frame.{IsSaved}
use open_transcribe_mcp.Desktop.Setup.Writing.{targets, credentials_phase-Keeps, fail_config-Keeps}
use open_transcribe_mcp.Desktop.Setup.Saving.{Committed}
use open_transcribe_mcp.Desktop.Setup.Committed.{after_commit-Ends}

true_ne_false : true ≢ false
true_ne_false e = cc

cons_ne_nil : {A : Type 0} {x : A} {xs : List A} → (x ∷ xs) ≢ []
cons_ne_nil e = cc

module _ {S : Type 0} (service : SetupService) where
  -- Where every save will succeed, none fails.
  saved_as-quiet :
      (s : Session S) (saves : List SaveEnd)
      → s.world.journal_saves ≡ saves
      → saves ≡ []
      → Ends
          (λ u s'. IsSaved s.world s'.world)
          (λ o s'. ⊥)
          (λ f s'. ⊥)
          (saved_as service s saves).0
          (saved_as service s saves).1
  unfolding Ends saved_as
  saved_as-quiet s [] e h = record { config = refl; keyring = refl; client = refl; saves = λ h. h }
  saved_as-quiet s (end ∷ saves) e h = absurd (cons_ne_nil h)

module _ {S : Type 0} (service : SetupService) (p : SetupPlan) (r : CredentialRef)
    (before : World S) where
  OtherThan : CredentialRef → Type 0
  OtherThan ref = ref_eq ref r ≡ false

  -- The configuration is as before, or it is the plan's, where its save failed after the file was
  -- replaced.
  IsKeptConfig : World S → Type 0
  IsKeptConfig w =
      (w.config ≡ before.config)
      ⊎ ((service.save_config p.config ≡ unsynced) × (w.config ≡ done p.config))

  IsKeptConfig-saved : (w w' : World S) → w'.config ≡ w.config → IsKeptConfig w → IsKeptConfig w'
  unfolding IsKeptConfig
  IsKeptConfig-saved w w' same (inl kept) = inl (same ∙ kept)
  IsKeptConfig-saved w w' same (inr (end, replaced)) = inr (end, same ∙ replaced)

  -- The configuration and the key of `r` are as before, and every save will succeed.
  record IsKept (w : World S) : Type 0 where
    config : IsKeptConfig w
    key : get_password r w.keyring ≡ get_password r before.keyring
    saves : w.journal_saves ≡ []

  IsKept-saved : (w w' : World S) → IsSaved w w' → IsKept w → IsKept w'
  IsKept-saved w w' h k = record {
    config = IsKeptConfig-saved w w' h.config k.config;
    key = ap (λ x. get_password r x) h.keyring ∙ k.key;
    saves = h.saves k.saves;
  }

  IsKept-put :
      (w : World S) (ref : CredentialRef) (secret : String)
      → OtherThan ref
      → IsKept w
      → IsKept (record w { keyring = (put service.faults ref secret w.keyring).0 })
  unfolding OtherThan IsKeptConfig
  IsKept-put w ref secret a k = record {
    config = k.config;
    key = put-keeps service.faults ref r secret w.keyring a ∙ k.key;
    saves = k.saves;
  }

  IsKept-delete :
      (w : World S) (ref : CredentialRef)
      → OtherThan ref
      → IsKept w
      → IsKept (record w { keyring = (delete service.faults ref w.keyring).0 })
  unfolding OtherThan IsKeptConfig
  IsKept-delete w ref a k = record {
    config = k.config;
    key = delete-keeps service.faults ref r w.keyring a ∙ k.key;
    saves = k.saves;
  }

  -- An outcome that says that nothing was saved.
  Rolled : ApplyOutcome → Session S → Type 0
  Rolled o s =
      o.config_saved ≡ false
      → IsKeptConfig s.world × (get_password r s.world.keyring ≡ get_password r before.keyring)

  Saved : {A : Type 0} → A → Session S → Type 0
  Saved a s = (s.world.config ≡ done p.config) × (s.world.journal_saves ≡ [])

  saved_config-Saved :
      (end : SaveEnd) (s : Session S)
      → service.save_config p.config ≡ end
      → IsKept s.world
      → Ends Saved Rolled
          (λ f s'. IsKept s'.world)
          (saved_config service p.config end s).0
          (saved_config service p.config end s).1
  unfolding saved_config Ends Saved IsKeptConfig
  saved_config-Saved saved s e k = (refl, k.saves)
  saved_config-Saved (refused f) s e k = k
  saved_config-Saved unsynced s e k = record {
    config = inr (e, refl);
    key = k.key;
    saves = k.saves;
  }

  config-Saved :
      (written : Written) (s : Session S)
      → All (λ x. OtherThan x.1) written
      → IsKept s.world
      → Ends Saved Rolled
          (λ f s'. Unit {0})
          (config_phase service p written s).0
          (config_phase service p written s).1
  unfolding config_phase noted owned Saved Rolled
  config-Saved written s all k =
      Ends-except Rolled _ Saved (λ f s'. IsKept s'.world) _ _ (fail_config service written)
        (Ends-onward Rolled _ Saved Saved _ _ _
          (saved_config-Saved (service.save_config p.config)
            (noted service "config" intended none s) refl
            (record { config = k.config; key = k.key; saves = k.saves }))
          (λ u s' c.
            Ends-map _ _ _ _ _ _ _ _ (saved_as-quiet service _ s'.world.journal_saves refl c.1)
              (λ u s'' h. (h.config ∙ c.0, h.saves c.1)) (λ o s'' h. absurd h)
              (λ f s'' h. absurd h)))
        (λ f s' k'.
          Ends-map _ _ _ _ _ _ _ _
            (fail_config-Keeps service OtherThan IsKept IsKept-saved IsKept-put IsKept-delete
              (λ u. ⊥) written f s' all k')
            (λ u s'' h. absurd h.0) (λ o s'' h. λ unsaved. (h.1.config, h.1.key)) (λ f s'' h. tt))

  apply_locked-Rolled :
      (intent : SetupIntent S) (s : Session S)
      → All OtherThan (targets p.config intent.providers)
      → IsKept s.world
      → Ends
          (λ o s'. o.config_saved ≡ true)
          Rolled
          (λ f s'. Unit {0})
          (apply_locked service p intent s).0
          (apply_locked service p intent s).1
  unfolding apply_locked Rolled Saved Committed
  apply_locked-Rolled intent s others k =
      Ends-onward Rolled (λ f s'. Unit {0})
        (λ written s'. All (λ x. OtherThan x.1) written × IsKept s'.world)
        (λ o s'. o.config_saved ≡ true) _ _ _
        (Ends-map _ _ _ _ _ _ _ _
          (credentials_phase-Keeps service OtherThan IsKept IsKept-saved IsKept-put IsKept-delete p
            intent s others k)
          (λ a s' h. h) (λ o s' h. λ unsaved. (h.1.config, h.1.key)) (λ f s' h. tt))
        (λ written s' h.
          Ends-onward Rolled (λ f s''. Unit {0}) Saved (λ o s''. o.config_saved ≡ true) _ _ _
            (config-Saved written s' h.0 h.1)
            (λ u s'' c.
              Ends-map _ _ _ _ _ _ _ _
                (after_commit-Ends service p s''.world.client intent written s'' (c.0, refl))
                (λ o s3 h'. h'.0.0)
                (λ o s3 h'. λ unsaved. absurd (true_ne_false (sym h'.0 ∙ unsaved)))
                (λ f s3 h'. tt)))

  -- The end of the run.
  IsRolled : Try ApplyOutcome → World S → Type 0
  IsRolled (raised f) w = Unit {0}
  IsRolled (done o) w =
      o.config_saved ≡ false
      → IsKeptConfig w × (get_password r w.keyring ≡ get_password r before.keyring)

  answered-IsRolled :
      (s : Session S) (m : Progress ApplyOutcome)
      → Ends (λ o s'. o.config_saved ≡ true) Rolled (λ f s'. Unit {0}) s m
      → IsRolled (answer m) s.world
  unfolding answer IsRolled Ends Rolled
  answered-IsRolled s (go o) h = λ unsaved. absurd (true_ne_false (sym h ∙ unsaved))
  answered-IsRolled s (returned o) h = h
  answered-IsRolled s (escaped f) h = tt

  with_journal-IsRolled :
      (m : Try InstallJournal) (w w' : World S) (a : Try ApplyOutcome)
      (run : Session S → Session S × Progress ApplyOutcome)
      → ((j : InstallJournal)
          → Ends
              (λ o s'. o.config_saved ≡ true)
              Rolled
              (λ f s'. Unit {0})
              (run (record { world = w; journal = j })).0
              (run (record { world = w; journal = j })).1)
      → with_journal service w m run ≡ (w', a)
      → IsRolled a w'
  unfolding with_journal IsRolled
  with_journal-IsRolled (raised f) w w' a run h e =
      subst (λ (q : World S × Try ApplyOutcome). IsRolled q.1 q.0) e tt
  with_journal-IsRolled (done j) w w' a run h e =
      subst (λ (q : World S × Try ApplyOutcome). IsRolled q.1 q.0) e (answered-IsRolled _ _ (h j))

module _ {S : Type 0} (service : SetupService) (p : SetupPlan) (intent : SetupIntent S)
    (w w' : World S) where
  apply_under-IsRolled :
      (lock : Option Failure) (r : CredentialRef) (a : Try ApplyOutcome)
      → w.journal_saves ≡ []
      → All (λ ref. ref_eq ref r ≡ false) (targets p.config intent.providers)
      → apply_under service lock p intent w ≡ (w', a)
      → IsRolled service p r w a w'
  unfolding apply_under IsRolled versioned OtherThan IsKeptConfig
  apply_under-IsRolled (some f) r a quiet others e =
      subst (λ (q : World S × Try ApplyOutcome). IsRolled service p r w q.1 q.0) e tt
  apply_under-IsRolled none r a quiet others e =
      with_journal-IsRolled service p r w (load_journal w.journal_file p.config.installation_id) w
        w' a _
        (λ j.
          apply_locked-Rolled service p r w intent
            (versioned service (record { world = w; journal = j })) others
            (record { config = inl refl; key = refl; saves = quiet }))
        e

  -- Where the journal can be saved, an outcome that says that the configuration was not saved leaves
  -- the previous configuration, or the plan's if its save failed after the file was replaced; and it
  -- leaves the key under every reference that the intent has no key for.
  pub apply-rolled_back :
      (r : CredentialRef) (o : ApplyOutcome)
      → w.journal_saves ≡ []
      → All (λ ref. ref_eq ref r ≡ false) (targets p.config intent.providers)
      → apply service p intent w ≡ (w', done o)
      → o.config_saved ≡ false
      → ((w'.config ≡ w.config)
          ⊎ ((service.save_config p.config ≡ unsynced) × (w'.config ≡ done p.config)))
        × (get_password r w'.keyring ≡ get_password r w.keyring)
  unfolding apply IsRolled IsKeptConfig
  apply-rolled_back r o quiet others e unsaved =
      apply_under-IsRolled service.lock r (done o) quiet others e unsaved
