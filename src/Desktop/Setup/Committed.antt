-- ===== src/Desktop/Setup/Committed.antt =====
-- When the setup touches a client's configuration, and what a complete outcome says.
use open_transcribe_mcp.Base.{
  ◌≡◌, ◌≢◌, arith, refl, ◌&&◌, not, sym, ◌∙◌, subst, Bool, true, false, Option, none, some, ◌⊎◌,
  inl, inr,
}
use open_transcribe_mcp.Domain.Audio.{is_given}
use open_transcribe_mcp.Desktop.Errors.{Try, done, raised, Failure}
use open_transcribe_mcp.Desktop.Journal.{load_journal, InstallJournal}
use open_transcribe_mcp.Desktop.Setup.{
  SetupIntent, SetupPlan, ApplyOutcome, World, SetupService, is_ok, complete,
}
use open_transcribe_mcp.Desktop.Setup.Progress.{
  Session, Progress, go, returned, escaped, Ends, Ends-onward, Ends-map,
}
use open_transcribe_mcp.Desktop.Setup.Phases.{Written}
use open_transcribe_mcp.Desktop.Setup.Apply.{
  after_commit, apply_locked, answer, with_journal, versioned, apply_under, apply,
}
use open_transcribe_mcp.Desktop.Setup.Verified.{IsVerified, verify-Verified}
use open_transcribe_mcp.Desktop.Setup.Saving.{
  Everything, all-Everything, IsReady, Untouched, Committed, Committed-saved, credentials-Untouched,
  config-Committed,
}
use open_transcribe_mcp.Desktop.Setup.Registering.{IsTold, Registered, register-Registering}

module _ {S : Type 0} (service : SetupService) (p : SetupPlan) (client : S) where
  -- A client that is not as it was stands before an engine that has answered.
  unfoldable pub Guarded : World S → Type 0
  Guarded w = (w.client ≡ client) ⊎ IsReady service p w

  abbrev pub Incomplete : ApplyOutcome → Session S → Type 0
  Incomplete o s = (complete o ≡ false) × Guarded s.world

  unsaved-complete : (o : ApplyOutcome) → o.config_saved ≡ false → complete o ≡ false
  unfolding complete
  unsaved-complete o e = rw e refl

  true_ne_false : true ≢ false
  true_ne_false e = cc

  and_false : (a b : Bool) → a && b && not true ≡ false
  and_false a b = ground arith

  failed-complete : (o : ApplyOutcome) → is_given o.failure ≡ true → complete o ≡ false
  unfolding complete
  failed-complete o e = rw e (and_false o.config_saved (is_ok o.engine))

  abbrev pub SavedIncomplete : ApplyOutcome → Session S → Type 0
  SavedIncomplete o s = (o.config_saved ≡ true) × Incomplete o s

  pub after_commit-Ends :
      (intent : SetupIntent S) (written : Written) (s : Session S)
      → (Committed service p client) s.world
      → Ends
          ((Registered service p client) intent.adapter p.registration_plan p.registration)
          SavedIncomplete
          (λ f s'. Guarded s'.world)
          (after_commit service p intent written s).0
          (after_commit service p intent written s).1
  unfolding after_commit Everything Guarded Committed
  after_commit-Ends intent written s c =
      Ends-onward SavedIncomplete (λ f s'. Guarded s'.world)
        (λ o s'. IsVerified service (Committed service p client) p o s')
        ((Registered service p client) intent.adapter p.registration_plan p.registration) _ _ _
        (Ends-map _ _ _ _ _ _ _ _
          (verify-Verified service Everything (Committed service p client)
            (Committed-saved service p client) (λ w ref secret a h. h) (λ w ref a h. h) (λ w u h. h)
            p written s (all-Everything p.retired_credentials) c)
          (λ o s' v. v) (λ o s' h. (h.0.0, (failed-complete o h.0.1, inl h.1.1)))
          (λ f s' h. inl h.1))
        (λ o s' v.
          Ends-map _ _ _ _ _ _ _ _
            ((register-Registering service p client) intent.adapter p.registration_plan
              p.registration o s' v)
            (λ o' s'' h. h) (λ o' s'' h. (h.0.0, (failed-complete o' h.0.1, inr h.1)))
            (λ f s'' h. inr h))

  apply_locked-Ends :
      (intent : SetupIntent S) (s : Session S)
      → s.world.client ≡ client
      → Ends
          ((Registered service p client) intent.adapter p.registration_plan p.registration)
          Incomplete
          (λ f s'. Guarded s'.world)
          (apply_locked service p intent s).0
          (apply_locked service p intent s).1
  unfolding apply_locked Guarded Untouched
  apply_locked-Ends intent s x =
      Ends-onward Incomplete (λ f s'. Guarded s'.world)
        (λ written s'. (Untouched service p client) s'.world)
        ((Registered service p client) intent.adapter p.registration_plan p.registration) _ _ _
        (Ends-map _ _ _ _ _ _ _ _ ((credentials-Untouched service p client) intent s x)
          (λ a s' h. h) (λ o s' h. (unsaved-complete o h.0, inl h.1)) (λ f s' h. inl h))
        (λ written s' x'.
          Ends-onward Incomplete (λ f s''. Guarded s''.world)
            (λ u s''. (Committed service p client) s''.world)
            ((Registered service p client) intent.adapter p.registration_plan p.registration) _ _ _
            (Ends-map _ _ _ _ _ _ _ _ ((config-Committed service p client) written s' x')
              (λ a s'' h. h) (λ o s'' h. (unsaved-complete o h.0, inl h.1)) (λ f s'' h. inl h))
            (λ u s'' c.
              Ends-map _ _ _ _ _ _ _ _ (after_commit-Ends intent written s'' c) (λ o s3 h. h)
                (λ o s3 h. h.1) (λ f s3 h. h)))

  -- The end of the whole run.
  unfoldable pub IsEnd : SetupIntent S → Try ApplyOutcome → World S → Type 0
  unfolding Guarded
  IsEnd intent (raised f) w = Guarded w
  IsEnd intent (done o) w =
      Guarded w
      × (complete o ≡ true
          → IsReady service p w
            × (IsTold service p client) intent.adapter p.registration_plan p.registration o w)

  answered-IsEnd :
      (intent : SetupIntent S) (s : Session S) (m : Progress ApplyOutcome)
      → Ends
          ((Registered service p client) intent.adapter p.registration_plan p.registration)
          Incomplete
          (λ f s'. Guarded s'.world)
          s
          m
      → IsEnd intent (answer m) s.world
  unfolding answer IsEnd Ends Guarded
  answered-IsEnd intent s (go o) h = (inr h.1, λ whole. (h.1, h.2))
  answered-IsEnd intent s (returned o) h = (h.1, λ whole. absurd (true_ne_false (sym whole ∙ h.0)))
  answered-IsEnd intent s (escaped f) h = h

  with_journal-Ends :
      (intent : SetupIntent S) (m : Try InstallJournal) (w w' : World S) (a : Try ApplyOutcome)
      (run : Session S → Session S × Progress ApplyOutcome)
      → w.client ≡ client
      → ((j : InstallJournal)
          → Ends
              ((Registered service p client) intent.adapter p.registration_plan p.registration)
              Incomplete
              (λ f s'. Guarded s'.world)
              (run (record { world = w; journal = j })).0
              (run (record { world = w; journal = j })).1)
      → with_journal service w m run ≡ (w', a)
      → IsEnd intent a w'
  unfolding with_journal Guarded IsEnd
  with_journal-Ends intent (raised f) w w' a run x h e =
      subst (λ (q : World S × Try ApplyOutcome). IsEnd intent q.1 q.0) e (inl x)
  with_journal-Ends intent (done j) w w' a run x h e =
      subst (λ (q : World S × Try ApplyOutcome). IsEnd intent q.1 q.0) e
        (answered-IsEnd intent _ _ (h j))

module _ {S : Type 0} (service : SetupService) (p : SetupPlan) (intent : SetupIntent S)
    (w w' : World S) where
  ended :
      (a : Try ApplyOutcome)
      → IsEnd service p w.client intent a w'
      → (w'.client ≡ w.client) ⊎ IsReady service p w'
  unfolding IsEnd Guarded
  ended (done o) h = h.0
  ended (raised f) h = h

  apply_under-IsEnd :
      (lock : Option Failure) (a : Try ApplyOutcome)
      → apply_under service lock p intent w ≡ (w', a)
      → IsEnd service p w.client intent a w'
  unfolding apply_under IsEnd Guarded versioned
  apply_under-IsEnd (some f) a e =
      subst (λ (q : World S × Try ApplyOutcome). IsEnd service p w.client intent q.1 q.0) e
        (inl refl)
  apply_under-IsEnd none a e =
      with_journal-Ends service p w.client intent
        (load_journal w.journal_file p.config.installation_id) w w' a _ refl
        (λ j.
          apply_locked-Ends service p w.client intent
            (versioned service (record { world = w; journal = j })) refl)
        e

  apply-IsEnd :
      (a : Try ApplyOutcome)
      → apply service p intent w ≡ (w', a)
      → IsEnd service p w.client intent a w'
  unfolding apply
  apply-IsEnd a e = apply_under-IsEnd service.lock a e

  -- However the setup ends, a client's configuration that is not as it was stands beside the plan's
  -- configuration, saved, under which the engine has answered with the keyring as it is.
  pub apply-IsGuarded :
      (a : Try ApplyOutcome)
      → apply service p intent w ≡ (w', a)
      → (w'.client ≡ w.client) ⊎ IsReady service p w'
  apply-IsGuarded a e = ended a (apply-IsEnd a e)

  -- A complete outcome says that the plan's configuration is saved, that the engine answered under
  -- it, and, where there are an adapter, its plan and its registration, that the client was told the
  -- plan, which succeeded, and that the outcome's entry is what the client then held under the name.
  pub apply-IsComplete :
      (o : ApplyOutcome)
      → apply service p intent w ≡ (w', done o)
      → complete o ≡ true
      → IsReady service p w'
        × IsTold service p w.client intent.adapter p.registration_plan p.registration o w'
  unfolding IsEnd
  apply-IsComplete o e whole = (apply-IsEnd (done o) e).1 whole
