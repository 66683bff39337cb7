-- ===== src/Desktop/Setup/Erased.antt =====
-- What is left when the saved setup is erased.
use open_transcribe_mcp.Base.{
  ◌≡◌, refl, ap, sym, ◌∙◌, subst, String, Bool, true, Option, none, some, List, ◌++◌, All, ◌⊎◌,
}
use open_transcribe_mcp.Base.Text.{contains, ◌+s◌}
use open_transcribe_mcp.Desktop.Errors.{Try, done, raised, Failure, is_config_missing}
use open_transcribe_mcp.Desktop.Schema.{ManagedConfig}
use open_transcribe_mcp.Desktop.Credentials.{get_password}
use open_transcribe_mcp.Desktop.Journal.{InstallJournal, load_journal, intended}
use open_transcribe_mcp.Desktop.Setup.{
  ApplyOutcome, World, SetupService, current_config, config_or_none,
}
use open_transcribe_mcp.Desktop.Setup.Progress.{
  Session, Progress, go, returned, escaped, Ends, Ends-onward, Ends-map, Ends-go,
}
use open_transcribe_mcp.Desktop.Setup.Steps.{noted, disowned}
use open_transcribe_mcp.Desktop.Setup.Apply.{answer, with_journal}
use open_transcribe_mcp.Desktop.Setup.Frame.{IsSaved, save_journal-IsSaved}
use open_transcribe_mcp.Desktop.Setup.Lifecycle.{
  locked_with, erase_providers, erase_timer, without_config, erase_locked, erase, purged, erased,
}
use open_transcribe_mcp.Desktop.Setup.Clearing.{
  Cleared, references, erase_providers-Cleared, All-Cleared_right,
}

module _ {S : Type 0} (service : SetupService) where
  -- The end of an erasure.
  Finished : ManagedConfig → ApplyOutcome → World S → Type 0
  Finished c o w =
      (current_config w ≡ done none) × All (Cleared w o.repair_needed) (references c.providers)

  Finished-saved :
      (c : ManagedConfig) (o : ApplyOutcome) (w w' : World S)
      → IsSaved w w'
      → Finished c o w
      → Finished c o w'
  unfolding Finished current_config Cleared
  Finished-saved c o w w' h f = (
    ap (λ x. config_or_none x) h.config ∙ f.0,
    subst
        (λ k.
          All
            (λ ref.
              (get_password ref k ≡ none)
              ⊎ (contains ("credential:" +s ref.account) o.repair_needed ≡ true))
            (references c.providers))
        (sym h.keyring) f.1,
  )

  without_config-Finished :
      (c : ManagedConfig) (more also : List String) (s : Session S)
      → let k = erase_providers service c.providers s in
        Finished c (erased (more ++ (also ++ k.1))) (without_config service k.0).world
  unfolding Finished current_config config_or_none is_config_missing without_config Cleared
  without_config-Finished c more also s =
      let k = erase_providers service c.providers s in
      (
        refl,
        (All-Cleared_right service) k.0.world more (also ++ k.1) (references c.providers) (
            (All-Cleared_right service) k.0.world also k.1 (references c.providers)
              ((erase_providers-Cleared service) c.providers s)),
      )

  erase_locked-Finished :
      (t : Option Bool) (c : ManagedConfig) (s : Session S)
      → Ends
          (λ o s'. Finished c o s'.world)
          (λ o s'. Finished c o s'.world)
          (λ f s'. Unit {0})
          (erase_locked service t c s).0
          (erase_locked service t c s).1
  unfolding erase_locked noted disowned
  erase_locked-Finished t c s =
      let e = erase_timer service service.cleanup_timer (noted service "erase" intended none s) in
      let k = erase_providers service c.providers e.0 in
      let pending = purged t ++ (e.1 ++ k.1) in
      Ends-onward (λ o s'. Finished c o s'.world) (λ f s'. Unit {0})
        (λ u s'. Finished c (erased pending) s'.world) (λ o s'. Finished c o s'.world) _ _ _
        (Ends-map _ _ _ _ _ _ _ _ (save_journal-IsSaved service _)
          (λ u s' h.
            Finished-saved c (erased pending) (without_config service k.0).world s'.world h
              (without_config-Finished c (purged t) e.1 e.0))
          (λ o s' h. absurd h) (λ f s' h. tt))
        (λ u s' h.
          Ends-go (λ o s'. Finished c o s'.world) (λ o s'. Finished c o s'.world) (λ f s'. Unit {0})
            (erased pending) s' h)

  IsFinished : ManagedConfig → Try ApplyOutcome → World S → Type 0
  unfolding Finished
  IsFinished c (raised f) w = Unit {0}
  IsFinished c (done o) w = Finished c o w

  answered-IsFinished :
      (c : ManagedConfig) (s : Session S) (m : Progress ApplyOutcome)
      → Ends (λ o s'. Finished c o s'.world) (λ o s'. Finished c o s'.world) (λ f s'. Unit {0}) s m
      → IsFinished c (answer m) s.world
  unfolding answer IsFinished Ends
  answered-IsFinished c s (go o) h = h
  answered-IsFinished c s (returned o) h = h
  answered-IsFinished c s (escaped f) h = tt

  with_journal-IsFinished :
      (t : Option Bool) (c : ManagedConfig) (m : Try InstallJournal) (w w' : World S)
      (a : Try ApplyOutcome)
      → with_journal service w m (erase_locked service t c) ≡ (w', a)
      → IsFinished c a w'
  unfolding with_journal IsFinished
  with_journal-IsFinished t c (raised f) w w' a e =
      subst (λ (q : World S × Try ApplyOutcome). IsFinished c q.1 q.0) e tt
  with_journal-IsFinished t c (done j) w w' a e =
      subst (λ (q : World S × Try ApplyOutcome). IsFinished c q.1 q.0) e
        (answered-IsFinished c _ _ (erase_locked-Finished t c (record { world = w; journal = j })))

  locked-IsFinished :
      (lock : Option Failure) (t : Option Bool) (c : ManagedConfig) (w w' : World S)
      (a : Try ApplyOutcome)
      → locked_with service lock w (done (some c)) (erase_locked service t) ≡ (w', a)
      → IsFinished c a w'
  unfolding locked_with IsFinished
  locked-IsFinished (some f) t c w w' a e =
      subst (λ (q : World S × Try ApplyOutcome). IsFinished c q.1 q.0) e tt
  locked-IsFinished none t c w w' a e =
      with_journal-IsFinished t c (load_journal w.journal_file c.installation_id) w w' a e

  -- An erasure of a configuration that answers leaves no configuration, and under each reference of
  -- the configuration no key, or one that the outcome names as pending.
  pub erase-Cleared :
      (t : Option Bool) (c : ManagedConfig) (o : ApplyOutcome) (w w' : World S)
      → w.config ≡ done c
      → erase service t w ≡ (w', done o)
      → (current_config w' ≡ done none) × All (Cleared w' o.repair_needed) (references c.providers)
  unfolding erase current_config config_or_none IsFinished Finished
  erase-Cleared t c o w w' there e = locked-IsFinished service.lock t c w w' (done o) (
      subst
        (λ x.
          locked_with service service.lock w (config_or_none x) (erase_locked service t)
          ≡ (w', done o))
        there e)
